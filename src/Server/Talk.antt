-- ===== src/Server/Talk.antt =====
-- CIRCServer.cpp: PRIVMSG, and NS, its abbreviation for messages to NickServ.
pub mod Agreement
pub mod Delivery
use rosev_ircsystem.Common.{
  ℕ, Bool, true, false, not, Option, none, some, List, [], ◌∷◌, ◌++◌, ◌==◌, if◌then◌else◌, is_empty,
}
use rosev_ircsystem.Text.{Text, lit, lowercased}
use rosev_ircsystem.Assoc.{nat_key, text_key, lookup}
use rosev_ircsystem.State.{ClientStatus, no_status, voice, Channel, Server, Environment, Virtual}
use rosev_ircsystem.Reply.{
  err_norecipient, err_notexttosend, err_nosuchchannel, err_cannotsendtochan, err_nosuchnick,
}
use rosev_ircsystem.Send.{is_registered, send_irc_message, send_numeric_reply, send_private_message}

-- The parameters with a space between them, appended to what is already there.
unfoldable pub concatenate : Text → List Text → Text
concatenate text [] = text
concatenate text (p ∷ parameters) =
    concatenate ((if is_empty text then text else text ++ lit " ") ++ p) parameters

module _ (env : Environment) (virt : Virtual) where
  -- SendIRCMessage to every member but one.
  unfoldable pub send_others : ℕ → List (ℕ × ClientStatus) → Text → Server → Server
  send_others c [] message s = s
  send_others c ((d, _) ∷ members) message s =
      send_others c members message (if d == c then s else send_irc_message env virt d message s)

  unfoldable pub send_to_members : ℕ → Text → Channel → Text → Option ClientStatus → Server → Server
  send_to_members c key channel message (some voice) s =
      send_others c channel.clients
        (lit ":"
          ++ ((s.clients c).prefix
              ++ (lit " PRIVMSG #" ++ (channel.name ++ (lit " :" ++ message)))))
        s
  send_to_members c key channel message _ s =
      send_numeric_reply env virt c err_cannotsendtochan (key ∷ []) s

  unfoldable pub send_to_channel : ℕ → Text → Text → Server → Server
  send_to_channel c key message s = elim (lookup key s.channels) [
    | none ↦ send_numeric_reply env virt c err_nosuchchannel (key ∷ []) s
    | some channel ↦ send_to_members c key channel message (lookup c channel.clients) s
  ]

  unfoldable pub send_to_user : ℕ → Text → Text → Server → Server
  send_to_user c nickname message s = elim (lookup nickname s.nicknames) [
    | none ↦ send_numeric_reply env virt c err_nosuchnick (nickname ∷ []) s
    | some d ↦ send_private_message env virt d c message s
  ]

  -- The recipient is a channel if it begins with a hash.
  unfoldable pub send_to : ℕ → Text → Text → Server → Server
  send_to c [] message = send_to_user c [] message
  send_to c (h ∷ name) message =
      if h == 35
      then send_to_channel c (lowercased name) message
      else send_to_user c (lowercased (h ∷ name)) message

  unfoldable pub receive_message_privmsg : ℕ → List Text → Server → Server
  receive_message_privmsg c [] s =
      if is_registered c s
      then send_numeric_reply env virt c err_norecipient (lit "PRIVMSG" ∷ []) s
      else s
  receive_message_privmsg c (recipient ∷ []) s =
      if is_registered c s then send_numeric_reply env virt c err_notexttosend [] s else s
  receive_message_privmsg c (recipient ∷ message ∷ _) s =
      if is_registered c s then send_to c recipient message s else s

  unfoldable pub receive_message_ns : ℕ → List Text → Server → Server
  receive_message_ns c parameters s =
      if is_registered c s
      then receive_message_privmsg c (lit "nickserv" ∷ concatenate [] parameters ∷ []) s
      else s
