-- ===== src/NetworkClient.antt =====
-- CNetworkClient.cpp, CPlainNetworkClient.cpp and CSSLNetworkClient.cpp: how the events of a
-- connection reach the handlers of the server.
pub mod Agreement
pub mod Reads
use rosev_ircsystem.Common.{
  ℕ, Bool, true, false, not, Option, none, some, List, [], ◌∷◌, ◌++◌, if◌then◌else◌,
}
use rosev_ircsystem.Text.{Text, lit}
use rosev_ircsystem.Assoc.{text_key, lookup}
use rosev_ircsystem.State.{
  Server, Environment, Virtual, Deadline, nick_deadline, identify_deadline, ping_deadline,
  pong_deadline, with_network,
}
use rosev_ircsystem.Framing.{scan}
use rosev_ircsystem.Message.{parse_message}
use rosev_ircsystem.Outbox.{sent_buffer}
use rosev_ircsystem.Send.{◌▸◌, send_irc_message, restart_timer}
use rosev_ircsystem.Server.Connection.{disconnect_network_client, receive_message_motd}
use rosev_ircsystem.Server.Rooms.{
  receive_message_join, receive_message_names, receive_message_part, receive_message_topic,
}
use rosev_ircsystem.Server.Users.{
  receive_message_info, receive_message_nick, receive_message_ping, receive_message_pong,
  receive_message_quit, receive_message_user, receive_message_version,
}
use rosev_ircsystem.Server.Talk.{receive_message_ns, receive_message_privmsg}

abbrev pub Handler : Type 0
Handler = ℕ → List Text → Server → Server

module _ (env : Environment) (virt : Virtual) where
  -- NetworkClientCommandHandlers
  unfoldable pub network_client_command_handlers : List (Text × Handler)
  network_client_command_handlers =
      (lit "INFO", receive_message_info env virt)
      ∷ (lit "JOIN", receive_message_join env virt)
      ∷ (lit "MOTD", receive_message_motd env virt)
      ∷ (lit "NAMES", receive_message_names env virt)
      ∷ (lit "NICK", receive_message_nick env virt)
      ∷ (lit "NICKSERV", receive_message_ns env virt)
      ∷ (lit "NS", receive_message_ns env virt)
      ∷ (lit "PART", receive_message_part env virt)
      ∷ (lit "PING", receive_message_ping env virt)
      ∷ (lit "PONG", receive_message_pong env virt)
      ∷ (lit "PRIVMSG", receive_message_privmsg env virt)
      ∷ (lit "QUIT", receive_message_quit env virt)
      ∷ (lit "TOPIC", receive_message_topic env virt)
      ∷ (lit "USER", receive_message_user env virt)
      ∷ (lit "VERSION", receive_message_version env virt)
      ∷ []

  run_handler : ℕ → Option (Text × List Text) → Server → Server
  run_handler c none s = disconnect_network_client env virt c (lit "Invalid message") s
  run_handler c (some (command, parameters)) s =
      elim (lookup command network_client_command_handlers) [
        | none ↦ s
        | some handler ↦ handler c parameters s
      ]

  -- CNetworkClient::_ReceiveMessage
  unfoldable pub receive_message : ℕ → Text → Server → Server
  unfolding run_handler
  receive_message c message s = run_handler c (parse_message message) s

  abbrev pub is_socket_open : ℕ → Server → Bool
  is_socket_open c s = (s.clients c).socket_open

  unfoldable pub message_too_long : ℕ → Server → Server
  message_too_long c s = disconnect_network_client env virt c (lit "Message too long") s

  -- The remainder is kept, and _Receive is called, unless the loop returned early.
  keep_remainder : ℕ → Server × Option Text → Server
  keep_remainder c (s, none) = s
  keep_remainder c (s, some message) =
      with_network (λ n. record n { input = message; receiving = true }) c s

  -- CNetworkClient::_HandleNewData, with the bytes that were read or the message of an error.
  unfoldable pub handle_new_data : ℕ → Text → Server → Server
  unfolding keep_remainder
  handle_new_data c bytes s = keep_remainder c (
      scan (receive_message c) (is_socket_open c) (message_too_long c) false (s.network c).input
        bytes (with_network (λ n. record n { receiving = false }) c s))

  unfoldable pub handle_new_data_error : ℕ → Text → Server → Server
  handle_new_data_error c message s =
      disconnect_network_client env virt c message
        (with_network (λ n. record n { receiving = false }) c s)

  -- CNetworkClient::_HandleSend
  unfoldable pub handle_send : ℕ → Option Text → Server → Server
  handle_send c none = with_network sent_buffer c
  handle_send c (some message) = disconnect_network_client env virt c message

  -- _NickDeadline, _IdentifyDeadline, _PingDeadline and _PongDeadline, where the timer has run out
  -- and was not canceled.
  unfoldable pub handle_deadline : ℕ → Deadline → Server → Server
  handle_deadline c nick_deadline s =
      disconnect_network_client env virt c (lit "Nick timeout: 120 seconds") s
  handle_deadline c identify_deadline s =
      disconnect_network_client env virt c (lit "Identify timeout: 240 seconds") s
  handle_deadline c ping_deadline s =
      s ▸ send_irc_message env virt c (lit "PING " ++ env.name) ▸ restart_timer pong_deadline 60 c
  handle_deadline c pong_deadline s =
      disconnect_network_client env virt c (lit "Ping timeout: 60 seconds") s

  -- CSSLNetworkClient::_HandleHandshake
  unfoldable pub handle_handshake : ℕ → Bool → Server → Server
  handle_handshake c failed s =
      if failed
      then disconnect_network_client env virt c [] s
      else with_network (λ n. record n { handshake_happened = true; receiving = true }) c s
