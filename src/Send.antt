-- ===== src/Send.antt =====
-- The functions by which the server talks to a client: the virtual functions of CClient.h, which
-- CNetworkClient.cpp and CVirtualClient.h implement, and the state that CNetworkClient changes.
pub mod Core
use rosev_ircsystem.Common.{
  ℕ, String, Bool, true, false, not, ◌&&◌, ◌||◌, Option, none, some, List, [], ◌∷◌, ◌++◌,
  if◌then◌else◌, is_empty,
}
use rosev_ircsystem.Text.{Text, lit}
use rosev_ircsystem.Assoc.{nat_key, text_key, insert, erase, assign}
use rosev_ircsystem.State.{
  UserState, ClientStatus, ClientKind, network, nick_serv, log_bot, vote_bot, Client, Deadline,
  identify_deadline, ping_deadline, pong_deadline, NetworkState, Server, Environment, Virtual,
  Channel, with_client, with_network, with_channel_map, with_network_clients,
}
use rosev_ircsystem.Outbox.{push_message}
use rosev_ircsystem.Reply.{Reply, reply_message, has_surplus, numeric_reply, nickname_as_target}

abbrev pub is_network_kind : ClientKind → Bool
is_network_kind network = true
is_network_kind _ = false

-- CClient::IsNetworkClient
abbrev pub is_network_client : ℕ → Server → Bool
is_network_client c s = is_network_kind (s.clients c).kind

-- One call after another.
infixl 2 ◌▸◌
abbrev pub ◌▸◌ : Server → (Server → Server) → Server
s ▸ f = f s

abbrev pub undefined_behaviour : Server → Server
undefined_behaviour s = record s { undefined = true }

-- TO_NETWORKCLIENT
unfoldable pub to_network_client : ℕ → (Server → Server) → Server → Server
to_network_client c k s = if is_network_client c s then k s else undefined_behaviour s

-- CIRCServer::_IsUserRegistered
unfoldable pub is_user_registered : UserState → Bool
is_user_registered state = state.has_sent_nick_message && state.has_sent_user_message

abbrev pub is_registered : ℕ → Server → Bool
is_registered c s = is_user_registered (s.clients c).user_state

module _ (env : Environment) (virt : Virtual) where
  unfoldable pub send_irc_message : ℕ → Text → Server → Server
  send_irc_message c message s =
      if is_network_client c s
      then with_network (push_message message) c s
      else virt.irc_message s c message

  unfoldable pub send_filled : ℕ → Option Text → Server → Server
  send_filled c none s = s
  send_filled c (some message) s = send_irc_message c message s

  -- A virtual client drops numeric replies and notices.
  unfoldable pub send_numeric_reply : ℕ → Reply → List Text → Server → Server
  unfolding send_filled
  send_numeric_reply c reply args s =
      if is_network_client c s
      then (let sent = send_filled c (numeric_reply env (s.clients c) reply args) s in
          if has_surplus (reply_message env reply) args then undefined_behaviour sent else sent)
      else s

  -- The server itself is the sender of a notice with no client given.
  unfoldable pub sender_prefix : Option ℕ → Server → Text
  sender_prefix none s = env.name
  sender_prefix (some d) s = (s.clients d).prefix

  unfoldable pub send_notice : ℕ → Option ℕ → Text → Server → Server
  send_notice c sender notice s =
      if is_network_client c s
      then send_irc_message c
          (lit ":"
            ++ (sender_prefix sender s
                ++ (lit " NOTICE " ++ (nickname_as_target (s.clients c) ++ (lit " :" ++ notice)))))
          s
      else s

  unfoldable pub send_private_message : ℕ → ℕ → Text → Server → Server
  send_private_message c sender message s =
      if is_network_client c s
      then send_irc_message c
          (lit ":"
            ++ ((s.clients sender).prefix
                ++ (lit " PRIVMSG "
                    ++ (nickname_as_target (s.clients c) ++ (lit " :" ++ message)))))
          s
      else virt.private_message s c sender message

  -- SendIRCMessage to every member of a channel.
  unfoldable pub send_all : List (ℕ × ClientStatus) → Text → Server → Server
  send_all [] message s = s
  send_all ((d, _) ∷ members) message s = send_all members message (send_irc_message d message s)

  -- SendNotice for each of several lines.
  unfoldable pub send_notices : ℕ → Option ℕ → List Text → Server → Server
  send_notices c sender [] s = s
  send_notices c sender (notice ∷ notices) s =
      send_notices c sender notices (send_notice c sender notice s)

unfoldable pub restart_timer : Deadline → ℕ → ℕ → Server → Server
restart_timer deadline seconds = with_network λ n. record n { timer = some (deadline, seconds) }

-- CNetworkClient::RestartIdentifyTimer, IDENTIFY_TIMEOUT
unfoldable pub restart_identify_timer : ℕ → Server → Server
restart_identify_timer = restart_timer identify_deadline 240

-- CNetworkClient::RestartPingTimer, PING_INTERVAL
unfoldable pub restart_ping_timer : ℕ → Server → Server
restart_ping_timer = restart_timer ping_deadline 120

-- CNetworkClient::SetUserState
unfoldable pub set_user_state : UserState → ℕ → Server → Server
set_user_state state c s =
    let s' = with_client (λ client. record client { user_state = state }) c s in
    if state.is_identified then restart_ping_timer c s' else s'

-- CNetworkClient::SetNickname
unfoldable pub set_nickname : Text → Text → ℕ → Server → Server
set_nickname nickname lower = with_client λ client. record client {
  nickname = nickname;
  nickname_lowercased = lower;
  prefix = nickname ++ (lit "!" ++ (lower ++ lit "@network"));
}

-- CNetworkClient::IsInitialized of the plain and of the SSL client.
unfoldable pub is_initialized : NetworkState → Bool
is_initialized n = not n.uses_ssl || n.handshake_happened

-- CNetworkClient::Shutdown
unfoldable pub shutdown : ℕ → Server → Server
shutdown c s =
    s
    ▸ with_network (λ n. record n { timer = none }) c
    ▸ with_client (λ client. record client { shutdown_completed = true; socket_open = false }) c

-- CClient::AddJoinedChannel and CClient::RemoveJoinedChannel
unfoldable pub add_joined_channel : Text → ℕ → Server → Server
add_joined_channel channel =
    with_client
      λ client. record client { joined_channels = insert channel tt client.joined_channels }

unfoldable pub remove_joined_channel : Text → ℕ → Server → Server
remove_joined_channel channel =
    with_client λ client. record client { joined_channels = erase channel client.joined_channels }

-- A change of the channel object that stands at the key.
unfoldable pub set_channel : Text → Channel → Server → Server
set_channel key channel = with_channel_map (assign key channel)

-- CChannel::AddClient and CChannel::RemoveClient
unfoldable pub add_client : ℕ → ClientStatus → Channel → Channel
add_client c status channel = record channel { clients = insert c status channel.clients }

unfoldable pub remove_client : ℕ → Channel → Channel
remove_client c channel = record channel { clients = erase c channel.clients }
