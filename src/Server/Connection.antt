-- ===== src/Server/Connection.antt =====
-- CIRCServer.cpp: connections that come and go, the identify timer and the welcome.
pub mod Agreement
pub mod Welcome
use rosev_ircsystem.Common.{
  ℕ, Bool, true, false, not, Option, none, some, List, [], ◌∷◌, ◌++◌, if◌then◌else◌, is_empty,
  update,
}
use rosev_ircsystem.Text.{Text, lit}
use rosev_ircsystem.Assoc.{nat_key, text_key, insert, erase, lookup, has_key, Set}
use rosev_ircsystem.State.{
  UserState, ClientStatus, network, nick_deadline, Client, NetworkState, Server, Environment,
  Virtual, with_nicknames, with_network_clients, with_network,
}
use rosev_ircsystem.Reply.{
  rpl_welcome, rpl_yourhost, rpl_created, rpl_myinfo, rpl_motd, rpl_motdstart, rpl_endofmotd,
  nickname_as_target,
}
use rosev_ircsystem.Send.{
  ◌▸◌, is_registered, send_irc_message, send_numeric_reply, send_notices, undefined_behaviour,
  restart_identify_timer, restart_ping_timer, is_initialized, shutdown, set_channel, remove_client,
  restart_timer,
}

-- RemoveClient, on the channel object as it is now.
unfoldable pub remove_from_channel : ℕ → Text → Server → Server
remove_from_channel c key s = elim (lookup key s.channels) [
  | none ↦ undefined_behaviour s
  | some channel ↦ set_channel key (remove_client c channel) s
]

module _ (env : Environment) (virt : Virtual) where
  -- CIRCServer::_CheckForPresetNickname
  unfoldable pub check_for_preset_nickname : ℕ → Server → Server
  check_for_preset_nickname c s =
      elim (lookup (s.clients c).nickname_lowercased env.user_passhash_map) [
        | some hash ↦
            s
            ▸ send_notices env virt c none (
                lit "This nickname is protected."
                ∷ lit
                    "Please identify with your password in the next 240 seconds or you will be disconnected."
                ∷ lit "Use the command /NS IDENTIFY <password> to do so."
                ∷ [])
            ▸ restart_identify_timer c
        | none ↦ restart_ping_timer c s
      ]

  unfoldable pub send_motd : ℕ → List Text → Server → Server
  send_motd c [] s = s
  send_motd c (line ∷ motd) s =
      send_motd c motd (send_numeric_reply env virt c rpl_motd (line ∷ []) s)

  unfoldable pub receive_message_motd : ℕ → List Text → Server → Server
  receive_message_motd c parameters s =
      if not (is_registered c s)
      then s
      else s
        ▸ send_numeric_reply env virt c rpl_motdstart (env.name ∷ [])
        ▸ send_motd c env.motd
        ▸ send_numeric_reply env virt c rpl_endofmotd []

  -- CIRCServer::_WelcomeClient
  unfoldable pub welcome_client : ℕ → Server → Server
  welcome_client c s =
      let nickname = (s.clients c).nickname in
      s
      ▸ send_numeric_reply env virt c rpl_welcome (env.name ∷ nickname ∷ [])
      ▸ send_numeric_reply env virt c rpl_yourhost (env.name ∷ [])
      ▸ send_numeric_reply env virt c rpl_created []
      ▸ send_numeric_reply env virt c rpl_myinfo (env.name ∷ [])
      ▸ receive_message_motd c []
      ▸ send_irc_message env virt c
          (lit ":" ++ (nickname ++ (lit " MODE " ++ (nickname ++ lit " :+i"))))
      ▸ check_for_preset_nickname c

  -- The QUIT response to the members of a channel that have not been handled yet.
  unfoldable pub quit_members : Text → List (ℕ × ClientStatus) → Set ℕ × Server → Set ℕ × Server
  quit_members response [] r = r
  quit_members response ((d, _) ∷ members) (handled, s) = quit_members response members (
      if has_key d handled
      then (handled, s)
      else (insert d tt handled, send_irc_message env virt d response s))

  -- One round of the loop over the channels that the client has joined.
  unfoldable pub quit_channel : ℕ → Text → Text → Set ℕ × Server → Set ℕ × Server
  quit_channel c response key (handled, s) = elim (lookup key s.channels) [
    | none ↦ (handled, undefined_behaviour s)
    | some channel ↦
        let (handled', s') = quit_members response channel.clients (handled, s) in
        (handled', remove_from_channel c key s')
  ]

  unfoldable pub quit_channels : ℕ → Text → Set Text → Set ℕ × Server → Set ℕ × Server
  quit_channels c response [] r = r
  quit_channels c response ((key, _) ∷ joined) r =
      quit_channels c response joined (quit_channel c response key r)

  -- The part of DisconnectNetworkClient for a client with a nickname.
  unfoldable pub forget_nickname : ℕ → Text → Server → Server
  forget_nickname c reason s =
      let client = s.clients c in
      if is_empty client.nickname
      then s
      else (quit_channels c (lit ":" ++ (client.prefix ++ (lit " QUIT :" ++ reason)))
          client.joined_channels ([], s)).1
        ▸ with_nicknames (erase client.nickname_lowercased)

  unfoldable pub send_error : ℕ → Text → Server → Server
  send_error c reason s =
      if is_initialized (s.network c)
      then send_irc_message env virt c
          (lit "ERROR :Closing Link: "
            ++ (nickname_as_target (s.clients c) ++ (lit " (" ++ (reason ++ lit ")"))))
          s
      else s

  unfoldable pub disconnect_network_client : ℕ → Text → Server → Server
  disconnect_network_client c reason s =
      if (s.clients c).shutdown_completed
      then s
      else s
        ▸ forget_nickname c reason
        ▸ send_error c reason
        ▸ shutdown c
        ▸ with_network_clients (erase c)

-- A CNetworkClient that has just been constructed.
abbrev pub new_client : Client
new_client = record {
  kind = network;
  joined_channels = [];
  nickname = [];
  nickname_lowercased = [];
  prefix = [];
  user_state = record {
    has_sent_nick_message = false;
    has_sent_user_message = false;
    is_identified = false;
  };
  shutdown_completed = false;
  socket_open = true;
}

abbrev pub new_network_state : Bool → NetworkState
new_network_state uses_ssl = record {
  input = [];
  receiving = false;
  send_queue = [];
  send_buffer = [];
  send_buffer_size = 0;
  sent = [];
  timer = none;
  uses_ssl = uses_ssl;
  handshake_happened = false;
}

-- CNetworkClient::Init, REGISTRATION_TIMEOUT
unfoldable pub init_network_client : ℕ → Server → Server
init_network_client c s =
    s ▸ restart_timer nick_deadline 120 c ▸ with_network (λ n. record n { receiving = true }) c

-- CIRCServer::_HandleNewConnection without an error; `fresh` is the address of the client that is
-- constructed for the next connection.
unfoldable pub handle_new_connection : Bool → ℕ → Server → Server
handle_new_connection uses_ssl fresh s =
    let c = s.next_network_client in
    s ▸ init_network_client c ▸ with_network_clients (insert c tt) ▸ λ s'. record s' {
      core = record s'.core {
        clients = update s'.clients fresh new_client;
        next_network_client = fresh;
      };
      network = update s'.network fresh (new_network_state uses_ssl);
    }

-- CIRCServer::Shutdown
unfoldable pub shutdown_all : Set ℕ → Server → Server
shutdown_all [] s = s
shutdown_all ((c, _) ∷ rest) s = shutdown_all rest (shutdown c s)

unfoldable pub shutdown_server : Server → Server
shutdown_server s = s ▸ shutdown_all s.network_clients ▸ with_network_clients (λ _. [])
