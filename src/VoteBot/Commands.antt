-- ===== src/VoteBot/Commands.antt =====
-- CVoteBot.cpp: the commands CANCEL, EXCLUDE, NEW, HELP and START.
use rosev_ircsystem.Common.{
  ℕ, Bool, true, false, not, ◌&&◌, Option, none, some, List, [], ◌∷◌, ◌++◌, is_empty, if◌then◌else◌,
}
use rosev_ircsystem.Text.{Text, lit, decimal}
use rosev_ircsystem.Assoc.{nat_key, text_key, insert, Set}
use rosev_ircsystem.State.{
  ClientStatus, VoteParameters, Server, Environment, Virtual, with_vote_bot,
}
use rosev_ircsystem.Send.{◌▸◌, send_notices}
use rosev_ircsystem.VoteBot.{
  channel_name, channel_members, may_vote, excluded_member, numbered, bot_of, tell, tell_all, reset,
  send_to_channel, is_vote_prepared,
}

unfoldable pub is_some : Option ℕ → Bool
is_some none = false
is_some (some d) = true

module _ (env : Environment) (virt : Virtual) (self : ℕ) where
  unfoldable pub receive_command_cancel : ℕ → Server → Server
  receive_command_cancel c s =
      if is_empty (bot_of env virt self s).current_admin_nickname
      then tell env virt self c (lit "There is nothing to cancel.") s
      else (if (bot_of env virt self s).vote_started
          then send_to_channel env virt self
              (lit "The running vote has been canceled by " ++ (s.clients c).nickname) s
          else s)
        ▸ reset env virt self
        ▸ tell env virt self c (lit "Everything has been reset.")

  abbrev pub running_vote : Text
  running_vote =
      lit "A vote is already running. You have to cancel it first if you want to prepare a new one."

  unfoldable pub receive_command_exclude : ℕ → Server → Server
  receive_command_exclude c s =
      if (bot_of env virt self s).vote_started
      then tell env virt self c running_vote s
      else let (prepared, s') = is_vote_prepared env virt self c s in
        if prepared
        then (s'
            ▸ tell env virt self c (
                lit
                  "Please enter a user you want to exclude from voting or \"START\" to start the vote.")
            ▸ with_vote_bot (λ b. record b { exclude_command_sent = true }) self)
        else s'

  unfoldable pub receive_command_new : ℕ → Server → Server
  receive_command_new c s =
      if (bot_of env virt self s).vote_started
      then tell env virt self c running_vote s
      else if not (is_empty (bot_of env virt self s).question)
      then tell env virt self c
          (lit
            "A vote is currently being prepared. You have to cancel it first if you want to prepare a new one.")
          s
      else s
        ▸ tell env virt self c (
            lit "Please enter the question you want to vote on in #"
            ++ (channel_name (bot_of env virt self s).channel s ++ lit "."))
        ▸ reset env virt self
        ▸ with_vote_bot
            (λ b. record b {
              options = b.options ++ b.abstention_translation ∷ [];
              current_admin_nickname = (s.clients c).nickname;
            })
            self

  unfoldable pub receive_command_help : ℕ → Server → Server
  receive_command_help c s =
      let b = bot_of env virt self s in
      send_notices env virt c (some self)
        (lit "***** VoteBot Help *****"
          ∷ lit "VoteBot enables all users on a channel to secretly vote on a question."
          ∷ (lit "This VoteBot is responsible for the channel #"
              ++ (channel_name b.channel s ++ lit "."))
          ∷ []
          ∷ lit "As an administrator of this VoteBot, you can set up the questions."
          ∷ lit
              "Just type \"NEW\" and I will ask you about your question and the possible vote options."
          ∷ (lit "The \""
              ++ (b.abstention_translation
                  ++ lit "\" option will automatically be added to the available options."))
          ∷ []
          ∷ lit
              "After setting up the vote options, you may use \"EXCLUDE\" to exclude any nicknames from voting."
          ∷ lit
              "When you're done, type \"START\" and I will put this question to all participating members in private messages."
          ∷ (lit "They have "
              ++ (decimal b.time_limit_in_minutes
                  ++ (lit " minutes to answer, otherwise their vote will be counted as \""
                      ++ (b.abstention_translation ++ lit "\"."))))
          ∷ []
          ∷ lit
              "You can always cancel the question setup and even the running vote by typing \"CANCEL\"."
          ∷ lit "***** End of Help *****"
          ∷ [])
        s

  -- The question and the options, for one voter.
  unfoldable pub ask : ℕ → Server → Server
  ask c s =
      let b = bot_of env virt self s in
      s
      ▸ tell_all env virt self c (
          (b.current_admin_nickname ++ lit " has set up a vote and I want your opinion.")
          ∷ (lit "Question: " ++ b.question)
          ∷ lit "Possible options:"
          ∷ (numbered 0 b.options
              ++ (lit "Please send me the number of your option."
                  ∷ (lit "If you don't answer within "
                      ++ (decimal b.time_limit_in_minutes
                          ++ (lit " minutes, your vote will be counted as \""
                              ++ (b.abstention_translation ++ lit "\"."))))
                  ∷ [])))

  abbrev pub abstention : VoteParameters
  abstention = record { has_voted = false; option = 0 }

  -- The loop that collects the voters.
  unfoldable pub collect_voters : List (ℕ × ClientStatus) → Server → Server
  collect_voters [] s = s
  collect_voters ((c, st) ∷ members) s = collect_voters members (
      if may_vote (bot_of env virt self s) s c st
      then (s ▸ with_vote_bot (λ b. record b { votes = insert c abstention b.votes }) self ▸ ask c)
      else s)

  -- The line of an excluded nickname.
  unfoldable pub report : Bool → Option ℕ → Server → Server
  report first none s = s
  report first (some d) s =
      (if first then send_to_channel env virt self (lit "Excluded from voting:") s else s)
      ▸ send_to_channel env virt self (lit "   " ++ (s.clients d).nickname)

  -- The loop that reports the excluded nicknames; `first` is IsFirstExcludedNickname.
  unfoldable pub report_excluded : Bool → List (ℕ × ClientStatus) → Set Text → Server → Server
  report_excluded first members [] s = s
  report_excluded first members ((nickname, _) ∷ excluded) s =
      let reported = excluded_member s members nickname in
      report_excluded (first && not (is_some reported)) members excluded (report first reported s)

  unfoldable pub receive_command_start : ℕ → Server → Server
  receive_command_start c s =
      let (prepared, s') = is_vote_prepared env virt self c s in
      if prepared
      then (let members = channel_members (bot_of env virt self s').channel s' in
          let s'' = collect_voters members s' in
          let b = bot_of env virt self s'' in
          if is_empty b.votes
          then (s''
              ▸ tell env virt self c
                  (lit "Nobody can participate in the vote. Resetting all values.")
              ▸ reset env virt self)
          else (s''
              ▸ send_to_channel env virt self (
                  b.current_admin_nickname
                  ++ lit
                      " has set up a vote and I'm asking all participating members in private messages now.")
              ▸ report_excluded true members b.excluded_nicknames
              ▸ with_vote_bot
                  (λ b. record b { timer = some b.time_limit_in_minutes; vote_started = true })
                  self))
      else s'
