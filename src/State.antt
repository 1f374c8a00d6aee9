-- ===== src/State.antt =====
-- The objects of the server: CClient.h, CChannel.h, CNetworkClient.h, CVoteBot.h, CLogBot.h and
-- the maps of CIRCServer.h. A CClient* is an address. A CChannel* is the key of the channel in
-- m_Channels, which owns it and never drops it.
use rosev_ircsystem.Common.{ℕ, Bool, Option, List, update}
use rosev_ircsystem.Text.{Text}
use rosev_ircsystem.Assoc.{Set}

pub record UserState : Type 0 where
  pub has_sent_nick_message : Bool
  pub has_sent_user_message : Bool
  pub is_identified : Bool

-- CChannel::ClientStatus
pub data ClientStatus : Type 0 where
  no_status voice : ClientStatus

pub record Channel : Type 0 where
  pub name : Text
  pub topic : Text
  pub allowed_users : Set Text
  pub allow_observers : Bool
  pub clients : List (ℕ × ClientStatus)

-- The classes below CClient.
pub data ClientKind : Type 0 where
  network nick_serv log_bot vote_bot : ClientKind

-- CClient, with m_ShutdownCompleted of CNetworkClient and the state of its socket.
pub record Client : Type 0 where
  pub kind : ClientKind
  pub joined_channels : Set Text
  pub nickname : Text
  pub nickname_lowercased : Text
  pub prefix : Text
  pub user_state : UserState
  pub shutdown_completed : Bool
  pub socket_open : Bool

-- The handlers that wait on m_Timer.
pub data Deadline : Type 0 where
  nick_deadline identify_deadline ping_deadline pong_deadline : Deadline

-- What CNetworkClient and its two subclasses add: the input that is kept between reads, the send
-- queue, the timer with its seconds, and the socket. `sent` records the buffers handed to _Send.
pub record NetworkState : Type 0 where
  pub input : Text
  pub receiving : Bool
  pub send_queue : List Text
  pub send_buffer : Text
  pub send_buffer_size : ℕ
  pub sent : List Text
  pub timer : Option (Deadline × ℕ)
  pub uses_ssl : Bool
  pub handshake_happened : Bool

pub record VoteParameters : Type 0 where
  pub has_voted : Bool
  pub option : ℕ

pub record VoteBot : Type 0 where
  pub abstention_translation : Text
  pub admin_users : Set Text
  pub channel : Text
  pub current_admin_nickname : Text
  pub exclude_command_sent : Bool
  pub excluded_nicknames : Set Text
  pub options : List Text
  pub question : Text
  pub time_limit_in_minutes : ℕ
  pub timer : Option ℕ
  pub vote_count : ℕ
  pub votes : List (ℕ × VoteParameters)
  pub vote_started : Bool

-- The log streams, by lowercased channel name.
pub record LogBot : Type 0 where
  pub channel_streams : List (Text × List Text)

-- What the handlers read of CIRCServer and CClient.
pub record Core : Type 0 where
  pub channels : List (Text × Channel)
  pub clients : ℕ → Client
  pub network_clients : Set ℕ
  pub next_network_client : ℕ
  pub nicknames : List (Text × ℕ)

-- `undefined` is set where the C++ program would have undefined behaviour or fail an assertion.
pub record Server : Type 0 where
  pub core : Core
  pub open core use *
  pub network : ℕ → NetworkState
  pub vote_bots : ℕ → VoteBot
  pub log_bots : ℕ → LogBot
  pub undefined : Bool

-- CConfiguration after ReadConfigFiles, the texts of version.h, which the build generates, the
-- online date of CIRCServer::Init, the time of day that CLogBot::_GetLogTimestamp prints, SHA512 of
-- OpenSSL, and what a size_t holds that has not been initialized.
pub record Environment : Type 0 where
  pub name : Text
  pub motd : List Text
  pub user_passhash_map : List (Text × Text)
  pub version_id : Text
  pub version_date : Text
  pub version_copyright : Text
  pub product_name : Text
  pub environment_name : Text
  pub online_date : Text
  pub log_timestamp : Text
  pub sha512 : Text → Text
  pub uninitialized : Server → ℕ

-- The two virtual functions by which CIRCServer calls a virtual client: SendIRCMessage(Message) and
-- SendPrivateMessage(Sender, PrivateMessage), after the object's address.
pub record Virtual : Type 0 where
  pub irc_message : Server → ℕ → Text → Server
  pub private_message : Server → ℕ → ℕ → Text → Server

unfoldable pub with_client : (Client → Client) → ℕ → Server → Server
with_client f c s = record s {
  core = record s.core { clients = update s.clients c (f (s.clients c)) };
}

unfoldable pub with_network : (NetworkState → NetworkState) → ℕ → Server → Server
with_network f c s = record s { network = update s.network c (f (s.network c)) }

unfoldable pub with_channel_map : (List (Text × Channel) → List (Text × Channel)) → Server → Server
with_channel_map f s = record s { core = record s.core { channels = f s.channels } }

unfoldable pub with_nicknames : (List (Text × ℕ) → List (Text × ℕ)) → Server → Server
with_nicknames f s = record s { core = record s.core { nicknames = f s.nicknames } }

unfoldable pub with_network_clients : (Set ℕ → Set ℕ) → Server → Server
with_network_clients f s = record s {
  core = record s.core { network_clients = f s.network_clients };
}

unfoldable pub with_vote_bot : (VoteBot → VoteBot) → ℕ → Server → Server
with_vote_bot f b s = record s { vote_bots = update s.vote_bots b (f (s.vote_bots b)) }

unfoldable pub with_log_bot : (LogBot → LogBot) → ℕ → Server → Server
with_log_bot f b s = record s { log_bots = update s.log_bots b (f (s.log_bots b)) }
