-- ===== src/VoteBot/Messages.antt =====
-- CVoteBot.cpp: which private message is a command, a question, an option, a nickname or a vote.
use rosev_ircsystem.Common.{ℕ, Bool, not, ◌&&◌, ◌||◌, [], ◌∷◌, ◌++◌, is_empty, if◌then◌else◌}
use rosev_ircsystem.Text.{Text, lit, lowercased, uppercased, text_eq}
use rosev_ircsystem.Assoc.{nat_key, text_key, insert, has_key}
use rosev_ircsystem.State.{Server, Environment, Virtual, with_vote_bot}
use rosev_ircsystem.Send.{◌▸◌}
use rosev_ircsystem.Server.Rooms.{has_to_identify}
use rosev_ircsystem.VoteBot.{channel_name, bot_of, tell, tell_all}
use rosev_ircsystem.VoteBot.Commands.{
  receive_command_cancel, receive_command_exclude, receive_command_new, receive_command_help,
  receive_command_start,
}
use rosev_ircsystem.VoteBot.Votes.{receive_vote}

module _ (env : Environment) (virt : Virtual) (self : ℕ) where
  -- What an administrator sends besides commands while no vote is running.
  unfoldable pub enter_value : ℕ → Text → Server → Server
  enter_value c message s =
      let b = bot_of env virt self s in
      if is_empty b.question && not (is_empty b.current_admin_nickname)
      then (s
          ▸ with_vote_bot (λ b. record b { question = message }) self
          ▸ tell env virt self c (
              lit "Please enter a vote option now. The \""
              ++ (b.abstention_translation
                  ++ lit "\" option will automatically be added to the available options.")))
      else if not (is_empty b.question) && not b.exclude_command_sent
      then (s
          ▸ with_vote_bot (λ b. record b { options = b.options ++ message ∷ [] }) self
          ▸ tell env virt self c (
              lit
                "This option has been added. Enter another one, \"EXCLUDE\" to exclude nicknames from voting or \"START\" to start the vote."))
      else if b.exclude_command_sent
      then (if has_key (lowercased message) b.excluded_nicknames
          then tell env virt self c
              (lit
                "This nickname has already been added to the list of excluded users. Enter another one or \"START\" to start the vote.")
              s
          else (s
              ▸ with_vote_bot
                  (λ b. record b {
                    excluded_nicknames = insert (lowercased message) tt b.excluded_nicknames;
                  })
                  self
              ▸ tell env virt self c (
                  lit
                    "This nickname has been added to the list of excluded users. Enter another one or \"START\" to start the vote.")))
      else tell env virt self c (lit "Invalid command. Type \"HELP\" for more information.") s

  -- The private message of somebody who is no administrator, or a vote.
  unfoldable pub receive_other : ℕ → Text → Server → Server
  receive_other c message s =
      if (bot_of env virt self s).vote_started
      then receive_vote env virt self c message s
      else tell env virt self c
          (lit "I'm VoteBot for #"
            ++ (channel_name (bot_of env virt self s).channel s
                ++ lit ", and you're not my administrator :-P"))
          s

  -- The commands for one administrator at a time.
  unfoldable pub receive_exclusive : ℕ → Text → Text → Server → Server
  receive_exclusive c command message s =
      let b = bot_of env virt self s in
      if not (is_empty b.current_admin_nickname)
        && not (text_eq b.current_admin_nickname (s.clients c).nickname)
      then tell_all env virt self c
          ((lit "This VoteBot is currently being used by " ++ (b.current_admin_nickname ++ lit "."))
            ∷ lit
                "You have to type \"CANCEL\" if you want to cancel all running actions and use it yourself."
            ∷ [])
          s
      else if text_eq command (lit "EXCLUDE")
      then receive_command_exclude env virt self c s
      else if text_eq command (lit "NEW")
      then receive_command_new env virt self c s
      else if text_eq command (lit "START")
      then receive_command_start env virt self c s
      else enter_value c message s

  abbrev pub is_exclusive : Text → Bool
  is_exclusive command =
      text_eq command (lit "EXCLUDE")
      || text_eq command (lit "NEW")
      || text_eq command (lit "START")

  unfoldable pub receive_from_admin : ℕ → Text → Text → Server → Server
  receive_from_admin c command message s =
      if text_eq command (lit "CANCEL")
      then receive_command_cancel env virt self c s
      else if text_eq command (lit "HELP")
      then receive_command_help env virt self c s
      else if is_exclusive command || not (bot_of env virt self s).vote_started
      then receive_exclusive c command message s
      else receive_other c message s

  -- CVoteBot::SendPrivateMessage, called with the sender.
  unfoldable pub receive_private_message : ℕ → Text → Server → Server
  receive_private_message c message s =
      if has_to_identify env c s
      then tell env virt self c (lit "Please identify first!") s
      else if has_key (s.clients c).nickname_lowercased (bot_of env virt self s).admin_users
      then receive_from_admin c (uppercased message) message s
      else receive_other c message s
