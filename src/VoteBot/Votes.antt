-- ===== src/VoteBot/Votes.antt =====
-- CVoteBot.cpp: the votes of the participants, the deadline, and participants who leave.
use rosev_ircsystem.Common.{
  ℕ, ◌+◌, ◌-◌, true, not, ◌||◌, none, some, leb, length, if◌then◌else◌, is_empty,
}
use rosev_ircsystem.Text.{Text, lit, text_eq}
use rosev_ircsystem.Assoc.{nat_key, text_key, lookup, erase, assign}
use rosev_ircsystem.State.{VoteParameters, Server, Environment, Virtual, with_vote_bot}
use rosev_ircsystem.Relay.{parse_relay, from_server, malformed, from_client, Relay}
use rosev_ircsystem.Send.{◌▸◌, undefined_behaviour}
use rosev_ircsystem.VoteBot.{is_number, read_number, bot_of, tell, check_votes}

module _ (env : Environment) (virt : Virtual) (self : ℕ) where
  -- Another vote of a client that has voted.
  unfoldable pub change_vote : ℕ → VoteParameters → ℕ → Server → Server
  change_vote c p number s =
      s
      ▸ with_vote_bot (λ b. record b { votes = assign c (record p { option = number }) b.votes })
          self
      ▸ tell env virt self c (
          lit
            "Your vote has been changed. You can still change your decision again as long as the others are not yet done.")

  -- The first vote of a client.
  unfoldable pub first_vote : ℕ → ℕ → Server → Server
  first_vote c number s =
      s
      ▸ with_vote_bot
          (λ b. record b {
            votes = assign c (record { has_voted = true; option = number }) b.votes;
            vote_count = b.vote_count + 1;
          })
          self
      ▸ tell env virt self c (
          lit
            "Your vote has been cast. You can still change your decision as long as the others are not yet done.")

  -- The vote itself, of a client that has the parameters `p`.
  unfoldable pub cast_vote : ℕ → VoteParameters → ℕ → Server → Server
  unfolding change_vote first_vote
  cast_vote c p number s =
      (if p.has_voted then change_vote c p number s else first_vote c number s)
      ▸ check_votes env virt self

  -- The part of _ReceiveVote behind `VoteStream >> Number`.
  unfoldable pub receive_number : ℕ → VoteParameters → ℕ → Server → Server
  receive_number c p number s =
      if leb (length (bot_of env virt self s).options) number
      then tell env virt self c (lit "This number is out of range.") s
      else cast_vote c p number s

  -- CVoteBot::_ReceiveVote. For an empty message, Number is compared and stored without having been
  -- initialized.
  unfoldable pub receive_vote : ℕ → Text → Server → Server
  receive_vote c message s = elim (lookup c (bot_of env virt self s).votes) [
    | none ↦ tell env virt self c (lit "You're not allowed to participate in this vote.") s
    | some p ↦
        if not (is_number message)
        then tell env virt self c (lit "Please enter a number.") s
        else receive_number c p (read_number (env.uninitialized s) message)
            (if is_empty message then undefined_behaviour s else s)
  ]

  -- CVoteBot::_VoteDeadline, where the timer was not canceled.
  unfoldable pub vote_deadline : Server → Server
  vote_deadline s =
      s
      ▸ with_vote_bot (λ b. record b { vote_count = length b.votes }) self
      ▸ check_votes env virt self

  -- A client has left; `p` is its vote.
  unfoldable pub remove_vote : ℕ → VoteParameters → Server → Server
  remove_vote c p s =
      s
      ▸ with_vote_bot
          (λ b. record b {
            vote_count = (if p.has_voted then b.vote_count - 1 else b.vote_count);
            votes = erase c b.votes;
          })
          self
      ▸ check_votes env virt self

  unfoldable pub voter_left : Text → Server → Server
  voter_left user s = elim (lookup user s.nicknames) [
    | none ↦ undefined_behaviour s
    | some c ↦ elim (lookup c (bot_of env virt self s).votes) [
      | none ↦ s
      | some p ↦ remove_vote c p s
    ]
  ]

  unfoldable pub watch_relay : Relay → Server → Server
  watch_relay from_server s = s
  watch_relay malformed s = undefined_behaviour s
  watch_relay (from_client user command parameters) s =
      if text_eq command (lit "PART") || text_eq command (lit "QUIT") then voter_left user s else s

  -- CVoteBot::SendIRCMessage
  unfoldable pub send_irc_message : Text → Server → Server
  send_irc_message message s =
      if (bot_of env virt self s).vote_started then watch_relay (parse_relay message) s else s
