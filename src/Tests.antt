-- ===== src/Tests.antt =====
-- A server with two network clients, NickServ and two channels, at which the theorems are tried. Bob
-- and Alice talk in the lobby, and the staff channel admits Alice alone.
pub mod Maps
pub mod Streams
pub mod Runs
pub mod Startup
pub mod Service
pub mod Votes
use rosev_ircsystem.Common.{
  ℕ, ◌≡◌, refl, ◌≢◌, Bool, true, false, Option, none, some, List, [], ◌∷◌, ◌++◌, ◌==◌, arith,
  if◌then◌else◌,
}
use rosev_ircsystem.Text.{Text, lit, text_eq, text_eq_iff}
use rosev_ircsystem.Assoc.{nat_key, text_key, lookup, has_key, Set}
use rosev_ircsystem.State.{
  network, nick_serv, voice, Channel, Client, Core, Server, Environment, NetworkState, VoteBot,
  LogBot,
}
use rosev_ircsystem.Server.Membership.{Inv, is_member}
use rosev_ircsystem.Server.Membership.Ready.{IsLive}
use rosev_ircsystem.Server.Connection.{new_client, new_network_state}

-- "b", "a", "n" are the nicknames, "l" the lobby, "s" the staff channel.
abbrev pub env : Environment
env = record {
  name = 105 ∷ [];
  motd = [];
  user_passhash_map = (97 ∷ [], 120 ∷ []) ∷ [];
  version_id = 49 ∷ [];
  version_date = 50 ∷ [];
  version_copyright = 51 ∷ [];
  product_name = 52 ∷ [];
  environment_name = 53 ∷ [];
  online_date = 54 ∷ [];
  log_timestamp = 55 ∷ [];
  sha512 = λ password. password;
  uninitialized = λ s. 7;
}

abbrev member : Text → Text → Set Text → Client
member nickname lower joined = record {
  kind = network;
  joined_channels = joined;
  nickname = nickname;
  nickname_lowercased = lower;
  prefix = nickname;
  user_state = record {
    has_sent_nick_message = true;
    has_sent_user_message = true;
    is_identified = false;
  };
  shutdown_completed = false;
  socket_open = true;
}

abbrev nick_server : Client
nick_server = record (member (110 ∷ []) (110 ∷ []) []) { kind = nick_serv }

abbrev clients : ℕ → Client
clients c =
    if c == 1
    then member (66 ∷ []) (98 ∷ []) ((108 ∷ [], tt) ∷ [])
    else if c == 2
    then member (65 ∷ []) (97 ∷ []) ((108 ∷ [], tt) ∷ [])
    else if c == 3
    then nick_server
    else new_client

abbrev pub lobby : Channel
lobby = record {
  name = 76 ∷ [];
  topic = [];
  allowed_users = (97 ∷ [], tt) ∷ (98 ∷ [], tt) ∷ [];
  allow_observers = true;
  clients = (1, voice) ∷ (2, voice) ∷ [];
}

abbrev pub staff : Channel
staff = record {
  name = 83 ∷ [];
  topic = [];
  allowed_users = (97 ∷ [], tt) ∷ [];
  allow_observers = false;
  clients = [];
}

abbrev core : Core
core = record {
  channels = (108 ∷ [], lobby) ∷ (115 ∷ [], staff) ∷ [];
  clients = clients;
  network_clients = (1, tt) ∷ (2, tt) ∷ [];
  next_network_client = 4;
  nicknames = (97 ∷ [], 2) ∷ (98 ∷ [], 1) ∷ (110 ∷ [], 3) ∷ [];
}

abbrev no_vote : VoteBot
no_vote = record {
  abstention_translation = 48 ∷ [];
  admin_users = [];
  channel = [];
  current_admin_nickname = [];
  exclude_command_sent = false;
  excluded_nicknames = [];
  options = [];
  question = [];
  time_limit_in_minutes = 5;
  timer = none;
  vote_count = 0;
  votes = [];
  vote_started = false;
}

abbrev pub server : Server
server = record {
  core = core;
  network = λ c. new_network_state false;
  vote_bots = λ c. no_vote;
  log_bots = λ c. record { channel_streams = [] };
  undefined = false;
}

pub core-Inv : Inv core
unfolding is_member has_key lookup text_eq
core-Inv = record {
  agree = λ key c a. ground arith;
  gone = λ key c a. ground arith;
  owner = λ n c h.
      ground (arith, text_eq_iff (97 ∷ []) n, text_eq_iff (98 ∷ []) n, text_eq_iff (110 ∷ []) n);
  named = λ c a f. ground arith;
  titled = λ c a. ground arith;
  lodged = λ key c h. ground arith;
  linked = λ c o. ground arith;
  listed = λ c h. ground arith;
}

pub bob-IsLive : IsLive 1 core
bob-IsLive = record { inv = core-Inv; alive = refl }
