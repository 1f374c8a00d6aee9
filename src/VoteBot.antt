-- ===== src/VoteBot.antt =====
-- CVoteBot.cpp: secret votes on a channel. `self` is the address of the VoteBot object.
pub mod Tally
pub mod Steady
pub mod Ballot
pub mod Quiet
pub mod Numbers
pub mod Commands
pub mod Votes
pub mod Messages
use rosev_ircsystem.Common.{
  ℕ, zero, suc, ◌+◌, ◌-◌, ◌^◌, min, Bool, true, false, not, ◌&&◌, ◌||◌, Option, none, some, List,
  [], ◌∷◌, ◌++◌, ◌==◌, ltb, leb, length, is_empty, if◌then◌else◌, map,
}
use rosev_ircsystem.Text.{Text, lit, lowercased, uppercased, text_eq, decimal, number_from}
use rosev_ircsystem.Assoc.{nat_key, text_key, lookup, insert, erase, assign, has_key, Set}
use rosev_ircsystem.State.{
  ClientStatus, no_status, voice, Channel, VoteParameters, VoteBot, Server, Environment, Virtual,
  with_vote_bot,
}
use rosev_ircsystem.Relay.{parse_relay, from_server, malformed, from_client, Relay}
use rosev_ircsystem.Send.{
  ◌▸◌, is_network_client, undefined_behaviour, send_private_message, send_notices,
}
use rosev_ircsystem.Server.Rooms.{has_to_identify}
use rosev_ircsystem.Server.Talk.{receive_message_privmsg}
use Tally.{tally}

-- The fields after CVoteBot::_Reset.
unfoldable pub cleared : VoteBot → VoteBot
cleared b = record b {
  current_admin_nickname = [];
  exclude_command_sent = false;
  excluded_nicknames = [];
  options = [];
  question = [];
  timer = none;
  vote_count = 0;
  votes = [];
  vote_started = false;
}

-- The digits of a vote: no other byte.
unfoldable pub is_number : Text → Bool
is_number [] = true
is_number (c ∷ s) = leb b'0' c && leb c b'9' && is_number s

-- istringstream >> Number of digits, where Number holds `before`: the largest value on overflow. An
-- empty stream leaves Number as it is.
unfoldable pub read_number : ℕ → Text → ℕ
read_number before [] = before
read_number before (c ∷ s) = min (number_from 0 (c ∷ s)) (2 ^ 64 - 1)

-- GetName() of a channel pointer.
unfoldable pub channel_name : Text → Server → Text
channel_name key s = elim (lookup key s.channels) [ none ↦ [] | some channel ↦ channel.name ]

unfoldable pub channel_members : Text → Server → List (ℕ × ClientStatus)
channel_members key s = elim (lookup key s.channels) [ none ↦ [] | some channel ↦ channel.clients ]

unfoldable pub is_voiced : ClientStatus → Bool
is_voiced voice = true
is_voiced no_status = false

-- Network clients with voice that are not excluded may vote.
unfoldable pub may_vote : VoteBot → Server → ℕ → ClientStatus → Bool
unfolding is_voiced
may_vote b s c st =
    is_network_client c s
    && is_voiced st
    && not (has_key (s.clients c).nickname_lowercased b.excluded_nicknames)

-- An excluded nickname that would take part otherwise: its client.
unfoldable pub excluded_member : Server → List (ℕ × ClientStatus) → Text → Option ℕ
unfolding is_voiced
excluded_member s members nickname = elim (lookup nickname s.nicknames) [
  | none ↦ none
  | some d ↦ elim (lookup d members) [
    | none ↦ none
    | some st ↦ if is_voiced st then some d else none
  ]
]

unfoldable pub numbered : ℕ → List Text → List Text
numbered i [] = []
numbered i (option ∷ options) =
    (lit "   " ++ (decimal i ++ (lit " - " ++ option))) ∷ numbered (i + 1) options

unfoldable pub result_lines : List Text → List ℕ → List Text
result_lines [] results = []
result_lines (option ∷ options) [] = []
result_lines (option ∷ options) (n ∷ results) =
    (lit "   " ++ (option ++ (lit " - " ++ (decimal n ++ lit " votes"))))
    ∷ result_lines options results

module _ (env : Environment) (virt : Virtual) (self : ℕ) where
  abbrev pub bot_of : Server → VoteBot
  bot_of s = s.vote_bots self

  -- A private message from the bot.
  unfoldable pub tell : ℕ → Text → Server → Server
  tell c = send_private_message env virt c self

  unfoldable pub tell_all : ℕ → List Text → Server → Server
  tell_all c [] s = s
  tell_all c (line ∷ lines) s = tell_all c lines (tell c line s)

  unfoldable pub reset : Server → Server
  reset = with_vote_bot cleared self

  -- CVoteBot::_SendToChannel
  unfoldable pub send_to_channel : Text → Server → Server
  send_to_channel message s =
      receive_message_privmsg env virt self
        ((lit "#" ++ channel_name (bot_of s).channel s) ∷ message ∷ []) s

  unfoldable pub send_lines : List Text → Server → Server
  send_lines [] s = s
  send_lines (line ∷ lines) s = send_lines lines (send_to_channel line s)

  unfoldable pub tell_voters : List (ℕ × VoteParameters) → Text → Server → Server
  tell_voters [] line s = s
  tell_voters ((c, _) ∷ votes) line s = tell_voters votes line (tell c line s)

  -- The result lines and the reset, with the array of results.
  unfoldable pub publish : Option (List ℕ) → Server → Server
  publish none s = undefined_behaviour s
  publish (some results) s =
      let b = bot_of s in
      s
      ▸ tell_voters b.votes (
          lit "All votes are in. The results are available in #"
          ++ (channel_name b.channel s ++ lit "."))
      ▸ send_lines (
          lit "The vote is over. Here are the results!"
          ∷ (lit "Question: " ++ b.question)
          ∷ lit "Answers:"
          ∷ result_lines b.options results)
      ▸ send_to_channel (lit "Total number of votes: " ++ decimal (length b.votes))
      ▸ reset

  -- CVoteBot::_CheckVotes
  unfoldable pub check_votes : Server → Server
  check_votes s =
      let b = bot_of s in
      if b.vote_count == length b.votes then publish (tally (length b.options) b.votes) s else s

  -- CVoteBot::_IsVotePrepared
  unfoldable pub is_vote_prepared : ℕ → Server → Bool × Server
  is_vote_prepared c s =
      if is_empty (bot_of s).question
      then (
        false,
        tell c (lit "Please enter a question first. Type \"HELP\" for more information.") s,
      )
      else if ltb (length (bot_of s).options) 3
      then (
        false,
        tell c (lit "Please enter at least two voting options. Type \"HELP\" for more information.")
            s,
      )
      else (true, s)
