-- ===== src/NickServ.antt =====
-- CNickServ.cpp: the commands IDENTIFY, GHOST and HELP, as private messages to NickServ. `self` is
-- the address of the NickServ object.
pub mod Access
pub mod Agreement
use rosev_ircsystem.Common.{
  ℕ, String, Bool, true, false, not, ◌||◌, Option, none, some, List, [], ◌∷◌, ◌==◌, if◌then◌else◌,
  map,
}
use rosev_ircsystem.Text.{Text, lit, lowercased, uppercased, split, text_eq}
use rosev_ircsystem.Assoc.{text_key, lookup}
use rosev_ircsystem.State.{Server, Environment, Virtual}
use rosev_ircsystem.Send.{
  ◌▸◌, is_network_client, to_network_client, send_notice, send_notices, set_user_state,
}
use rosev_ircsystem.Server.Connection.{disconnect_network_client}

abbrev pub Command : Type 0
Command = ℕ → List Text → Server → Server

unfoldable pub general_help : List Text
general_help =
    lit "***** NickServ Help *****"
    ∷ lit "General Help:"
    ∷ []
    ∷ lit "NickServ allows you to identify with your nickname using the given password."
    ∷ lit "You cannot join a channel before having identified!"
    ∷ []
    ∷ lit "For more information about a command, type:"
    ∷ lit "/NS HELP <command>"
    ∷ []
    ∷ lit "This NickServ supports the following commands:"
    ∷ lit "GHOST       Reclaims a used nickname."
    ∷ lit "IDENTIFY    Identifies using a password."
    ∷ lit "***** End of Help *****"
    ∷ []

unfoldable pub ghost_help : List Text
ghost_help =
    lit "***** NickServ Help *****"
    ∷ lit "Help for GHOST:"
    ∷ []
    ∷ lit "GHOST reclaims a lost nickname by disconnecting its session."
    ∷ lit "This can be useful if you were unexpectedly disconected or"
    ∷ lit "someone else is using your nickname."
    ∷ []
    ∷ lit "Syntax: GHOST <nickname> <password>"
    ∷ []
    ∷ lit "Example:"
    ∷ lit "   /NS GHOST Arthur ThisIsMyRandomPassword"
    ∷ lit "***** End of Help *****"
    ∷ []

unfoldable pub identify_help : List Text
identify_help =
    lit "***** NickServ Help *****"
    ∷ lit "Help for IDENTIFY:"
    ∷ []
    ∷ lit "IDENTIFY identifies you with the IRC Server, so that you can join channels."
    ∷ lit "If you don't identify, you will be disconnected after 240 seconds."
    ∷ []
    ∷ lit "Syntax: IDENTIFY <password>"
    ∷ []
    ∷ lit "Like on FreeNode, you can also supply the password as the second parameter."
    ∷ lit "Note that the first parameter is ignored then as you can only identify for"
    ∷ lit "your current nickname."
    ∷ []
    ∷ lit "Syntax: IDENTIFY <ignored> <password>"
    ∷ []
    ∷ lit "Example:"
    ∷ lit "   /NS IDENTIFY ThisIsMyRandomPassword"
    ∷ lit "   /NS IDENTIFY BlaBlaBla ThisIsMyRandomPassword"
    ∷ lit "***** End of Help *****"
    ∷ []

-- What _VerifyCredentials finds out before it sends its notices.
pub data Credentials : Type 0 where
  unknown_nickname invalid_password verified : Credentials

unfoldable pub check_credentials : Environment → Text → Text → Credentials
check_credentials env nickname password = elim (lookup nickname env.user_passhash_map) [
  | none ↦ unknown_nickname
  | some hash ↦ if text_eq hash (env.sha512 password) then verified else invalid_password
]

module _ (env : Environment) (virt : Virtual) (self : ℕ) where
  -- CNickServ::_VerifyCredentials
  unfoldable pub verify_credentials : ℕ → Text → Text → Server → Bool × Server
  verify_credentials c nickname password s = elim (check_credentials env nickname password) [
    | unknown_nickname ↦ (
      false,
      send_notice env virt c (some self) (lit "No password is known for this nickname!") s,
    )
    | invalid_password ↦ (
      false,
      send_notices env virt c (some self)
          (lit "Invalid password!"
            ∷ lit "Ensure that your password is spelled correctly (it is case-sensitive)."
            ∷ [])
          s,
    )
    | verified ↦ (true, s)
  ]

  unfoldable pub ghost_client : ℕ → Text → Text → ℕ → Server → Server
  ghost_client c nickname password d s =
      if not (is_network_client d s) || (d == c)
      then send_notice env virt c (some self) (lit "You cannot ghost this nickname!") s
      else let (correct, s') = verify_credentials c nickname password s in
        if correct
        then (s'
            ▸ disconnect_network_client env virt d (lit "Disconnected by GHOST command")
            ▸ send_notice env virt c (some self) (lit "The nickname has been ghosted!"))
        else s'

  unfoldable pub receive_command_ghost : Command
  receive_command_ghost c (nickname ∷ password ∷ []) s =
      elim (lookup (lowercased nickname) s.nicknames) [
        | none ↦ send_notice env virt c (some self) (lit "This nickname is not online!") s
        | some d ↦ ghost_client c (lowercased nickname) password d s
      ]
  receive_command_ghost c _ s =
      send_notice env virt c (some self) (lit "You need to supply the nickname and its password!") s

  unfoldable pub receive_command_help : Command
  receive_command_help c [] s = send_notices env virt c (some self) general_help s
  receive_command_help c (topic ∷ _) s =
      if text_eq (uppercased topic) (lit "GHOST")
      then send_notices env virt c (some self) ghost_help s
      else if text_eq (uppercased topic) (lit "IDENTIFY")
      then send_notices env virt c (some self) identify_help s
      else s

  unfoldable pub identify : ℕ → Text → Server → Server
  identify c password s =
      let (correct, s') = verify_credentials c (s.clients c).nickname_lowercased password s in
      if correct
      then (s'
          ▸ set_user_state (record (s'.clients c).user_state { is_identified = true }) c
          ▸ send_notice env virt c (some self) (lit "You have successfully identified!"))
      else s'

  unfoldable pub identify_with : List Text → ℕ → Server → Server
  identify_with [] c =
      send_notice env virt c (some self)
        (lit "You need to specify your password as the first parameter!")
  identify_with (password ∷ []) c = identify c password
  identify_with (_ ∷ password ∷ _) c = identify c password

  unfoldable pub receive_command_identify : Command
  receive_command_identify c parameters s =
      if (s.clients c).user_state.is_identified
      then send_notice env virt c (some self) (lit "You are already identified!") s
      else identify_with parameters c s

  unfoldable pub command_handlers : List (Text × Command)
  command_handlers =
      (lit "GHOST", receive_command_ghost)
      ∷ (lit "HELP", receive_command_help)
      ∷ (lit "IDENTIFY", receive_command_identify)
      ∷ []

  run_command : ℕ → List Text → Server → Server
  run_command c [] s = s
  run_command c (command ∷ parameters) s = elim (lookup (uppercased command) command_handlers) [
    | none ↦
        send_notice env virt c (some self)
          (lit "Invalid command. Use /NS HELP for a command listing.") s
    | some handler ↦ handler c parameters s
  ]

  -- CNickServ::SendPrivateMessage. The words between the spaces are the command and its parameters.
  unfoldable pub send_private_message : ℕ → Text → Server → Server
  unfolding run_command
  send_private_message c message = to_network_client c (run_command c (split 32 message))
