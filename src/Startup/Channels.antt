-- ===== src/Startup/Channels.antt =====
-- CIRCServer::Init: the preset channels with their users and observers.
pub mod Configured
use rosev_ircsystem.Common.{
  ℕ, Bool, true, false, not, ◌&&◌, ◌||◌, none, some, List, [], ◌∷◌, ◌++◌, ◌==◌, leb, is_empty,
  if◌then◌else◌,
}
use rosev_ircsystem.Text.{Text, lit, lowercased, text_eq}
use rosev_ircsystem.Assoc.{text_key, lookup, insert, assign, has_key, Set}
use rosev_ircsystem.State.{Channel, Server}
use rosev_ircsystem.Server.Connection.{new_client, new_network_state}
use rosev_ircsystem.Startup.Result.{channel_name, error, Result, ok, err, ◌>>=◌, ◌>>◌, throw_if}
use rosev_ircsystem.Startup.Host.{Entry, Host}
use rosev_ircsystem.Startup.Config.{Configuration}

-- One entry of Channel_Users.ini.
unfoldable pub add_user : Entry → List (Text × Set Text) → List (Text × Set Text)
add_user (channel, user) users =
    let key = lowercased channel in
    elim (lookup key users) [
      | none ↦ insert key (insert (lowercased user) tt []) users
      | some allowed ↦ assign key (insert (lowercased user) tt allowed) users
    ]

-- ChannelUsersMap
unfoldable pub channel_users : List (Text × Set Text) → List Entry → List (Text × Set Text)
unfolding add_user
channel_users users [] = users
channel_users users (entry ∷ entries) = channel_users (add_user entry users) entries

-- ChannelObserversSet
unfoldable pub channel_observers : Set Text → List Entry → Set Text
channel_observers observers [] = observers
channel_observers observers ((channel, value) ∷ entries) =
    channel_observers
      (if text_eq value (lit "true") then insert (lowercased channel) tt observers else observers)
      entries

-- The loop over the bytes of a channel name, which stops at a NUL.
unfoldable pub is_legal_name : Text → Bool
is_legal_name [] = true
is_legal_name (c ∷ s) =
    c == 0
    || ((leb b'A' c && leb c b'Z')
        || ((leb b'a' c && leb c b'z') || ((leb b'0' c && leb c b'9') || (c == b'-' || c == b'_'))))
      && is_legal_name s

-- One entry of Channels.ini, with ChannelUsersMap and ChannelObserversSet.
unfoldable pub add_channel :
    List (Text × Set Text)
    → Set Text
    → Entry
    → List (Text × Channel)
    → Result (List (Text × Channel))
unfolding is_legal_name
add_channel users observers (name, topic) channels =
    if not (is_legal_name name)
    then err (error (lit "Illegal channel name!") (channel_name name ∷ []))
    else elim (lookup (lowercased name) users) [
      | none ↦
          err (error (lit "No allowed users were set for this channel!") (channel_name name ∷ []))
      | some allowed ↦ ok (
          insert (lowercased name)
            (record {
              name = name;
              topic = topic;
              allowed_users = allowed;
              allow_observers = has_key (lowercased name) observers;
              clients = [];
            })
            channels)
    ]

unfoldable pub add_channels :
    List (Text × Set Text)
    → Set Text
    → List (Text × Channel)
    → List Entry
    → Result (List (Text × Channel))
unfolding add_channel
add_channels users observers channels [] = ok channels
add_channels users observers channels (entry ∷ entries) =
    add_channel users observers entry channels >>= λ channels'.
    add_channels users observers channels' entries

-- The channels of the three files: of their users, of their observers, and their own.
unfoldable pub preset_channels :
    List Entry → List Entry → List Entry → Result (List (Text × Channel))
unfolding channel_users channel_observers add_channels
preset_channels users observers entries =
    throw_if (is_empty entries) (error (lit "You need to specify at least one channel!") [])
    >> add_channels (channel_users [] users) (channel_observers [] observers) [] entries

-- A server with these channels, without virtual clients, which waits for its first network client.
-- An object at an address that is not in use yet is like a new one.
unfoldable pub server_of : Host → Configuration → List (Text × Channel) → Server
server_of host configuration channels = record {
  core = record {
    channels = channels;
    clients = λ c. new_client;
    network_clients = [];
    next_network_client = host.network_client_address;
    nicknames = [];
  };
  network = λ c. new_network_state configuration.use_ssl;
  vote_bots = λ b. record {
    abstention_translation = [];
    admin_users = [];
    channel = [];
    current_admin_nickname = [];
    exclude_command_sent = false;
    excluded_nicknames = [];
    options = [];
    question = [];
    time_limit_in_minutes = 0;
    timer = none;
    vote_count = 0;
    votes = [];
    vote_started = false;
  };
  log_bots = λ b. record { channel_streams = [] };
  undefined = false;
}

-- CIRCServer::Init
unfoldable pub init_server : Host → Configuration → Result Server
unfolding preset_channels server_of
init_server host configuration = do
  users ← host.parse_config_file (configuration.config_path ++ lit "/Channel_Users.ini")
  observers ← host.parse_config_file (configuration.config_path ++ lit "/Channel_Observers.ini")
  entries ← host.parse_config_file (configuration.config_path ++ lit "/Channels.ini")
  channels ← preset_channels users observers entries
  ok (server_of host configuration channels)
