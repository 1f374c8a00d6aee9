-- ===== src/Tests/Startup.antt =====
-- The start of a server with one channel and one VoteBot.
use rosev_ircsystem.Common.{
  ◌≡◌, ◌⊎◌, refl, true, false, ◌&&◌, Option, none, some, List, [], ◌∷◌, ◌++◌, arith, if◌then◌else◌,
  is_empty,
}
use rosev_ircsystem.Text.{Text, lit, lowercased, tolower, text_eq, text_lt, cons_head}
use rosev_ircsystem.Assoc.{text_key, lookup, insert, place, assign, has_key}
use rosev_ircsystem.State.{Channel, Server, Environment, with_client, with_nicknames}
use rosev_ircsystem.Server.Membership.{Inv}
use rosev_ircsystem.Bots.{bots, virtual_client, add_virtual_client, post_init}
use rosev_ircsystem.NetworkClient.{handle_handshake}
use rosev_ircsystem.Startup.Result.{error, Result, ok, err}
use rosev_ircsystem.Startup.Host.{
  Entry, MainOptions, VoteBotOptions, unknown_option, parsed, Host, Files,
}
use rosev_ircsystem.Startup.Passhash.{
  binary_passhash, bytes_of, char_of, hex_value, print_hex, binary_passhash-print_hex,
}
use rosev_ircsystem.Startup.Config.{
  Configuration, read_config_files, file_lines, set_main_options, opened, read_motd, read_users,
  check,
}
use rosev_ircsystem.Startup.Config.Checked.{
  IsChecked, succeeds, all_short, all_hashes, is_complete, read_config_files-IsChecked,
  succeeds-read_config_files,
}
use rosev_ircsystem.Startup.Channels.{
  add_user, channel_users, channel_observers, is_legal_name, add_channel, add_channels,
  preset_channels, server_of, init_server,
}
use rosev_ircsystem.Startup.Channels.Configured.{IsConfigured, preset_channels-IsConfigured}
use rosev_ircsystem.Startup.VirtualClients.{
  configured_vote_bot, enroll, enroll_log_bot, enroll_vote_bot, add_nick_serv, add_log_bot,
  add_vote_bot, add_vote_bots, init_vote_bots, add_virtual_clients, init_log_bot, init_vote_bot,
  enabled_vote_bot,
}
use rosev_ircsystem.Startup.Main.{new_configuration, environment_of, child, initialize, main}
use rosev_ircsystem.Startup.Main.Pidfile.{main-files}
use rosev_ircsystem.Startup.VirtualClients.Logs.{IsLogFile}
use rosev_ircsystem.Startup.VirtualClients.Added.{
  vote_bot_entries, planned_clients, planned_vote_bots,
}
use rosev_ircsystem.Startup.Initialized.{IsSound, initialize-Inv}
use rosev_ircsystem.System.{here, next, handshake}

abbrev main_options : MainOptions
main_options = record {
  general_pidfile = some (lit "pid");
  general_name = some (lit "irc");
  general_port = some 6667;
  general_use_ipv6 = none;
  ssl_certificate = none;
  ssl_privatekey = none;
  ssl_use = none;
}

abbrev vote_options : VoteBotOptions
vote_options = record {
  abstention_translation = none;
  admins = some (lit "a" ∷ []);
  channel = some (lit "l");
  timelimit = some 5;
}

abbrev digest : Text
digest = lit "0123456789012345678901234567890123456789012345678901234567890123"

abbrev users : List Entry
users = (lit "a", print_hex digest) ∷ []

abbrev channel_entries : List Entry
channel_entries = (lit "L", lit "t") ∷ []

abbrev observers : List Entry
observers = (lit "l", lit "true") ∷ []

abbrev channel_user_entries : List Entry
channel_user_entries = (lit "l", lit "A") ∷ (lit "L", lit "B") ∷ []

abbrev manager_entries : List Entry
manager_entries = (lit "Vote", lit "1") ∷ []

abbrev entries_of : Text → List Entry
entries_of file =
    if text_eq file (lit "c/Users.ini")
    then users
    else if text_eq file (lit "c/Channels.ini")
    then channel_entries
    else if text_eq file (lit "c/Channel_Users.ini")
    then channel_user_entries
    else if text_eq file (lit "c/Channel_Observers.ini")
    then observers
    else manager_entries

abbrev contents_of : Text → Option Text
contents_of file =
    if text_eq file (lit "c/Motd.txt")
    then some (lit "Hello" ++ 10 ∷ [])
    else if text_eq file (lit "c/VoteBotManager.ini")
    then some []
    else if text_eq file (lit "c/VoteBot_1.ini")
    then some []
    else none

abbrev host : Host
host = record {
  parse_command_line = λ arguments.
      if is_empty arguments
      then unknown_option
      else parsed
          (record { daemon = true; verbose = false; version = false; path = some (lit "c") });
  parse_config_file = λ file. ok (entries_of file);
  parse_main_file = λ file. ok main_options;
  parse_log_bot_file = λ file. ok (record { channels = none; logpath = none });
  parse_vote_bot_file = λ file. ok vote_options;
  contents = contents_of;
  can_write = λ file. true;
  version_id = lit "1";
  version_date = lit "2";
  version_copyright = lit "3";
  product_name = lit "4";
  environment_name = lit "5";
  online_date = lit "6";
  log_file_stamp = lit "7";
  log_timestamp = lit "8";
  sha512 = λ password. password;
  uninitialized = λ s. 7;
  nick_serv_address = 1;
  log_bot_address = 2;
  vote_bot_address = λ i. 3;
  network_client_address = 4;
}

abbrev configuration : Configuration
configuration = record new_configuration { config_path = lit "c" }

abbrev loaded : Configuration
loaded = record configuration {
  pid_file = lit "pid";
  name = lit "irc";
  port = 6667;
  motd = lit "Hello" ∷ [];
  user_passhash_map = (lit "a", digest) ∷ [];
}

succeeds-read_config_files_example : succeeds (read_config_files host configuration) ≡ (
    all_short (file_lines (lit "Hello" ++ 10 ∷ []))
    && (all_hashes users && is_complete main_options))
unfolding text_eq lit
succeeds-read_config_files_example =
    succeeds-read_config_files host configuration main_options (lit "Hello" ++ 10 ∷ []) users refl
      refl refl

binary_passhash-print_hex_example : binary_passhash (print_hex digest) ≡ ok digest
unfolding lit
binary_passhash-print_hex_example = binary_passhash-print_hex digest refl (ground arith)

abbrev loop : Environment → Server → Result (Unit {0})
loop env s = err (error (lit "loop") [])

-- A host with a LogBot that logs #L.
abbrev logging_host : Host
logging_host = record host {
  parse_log_bot_file =
      λ file. ok (record { channels = some (lit "L" ∷ []); logpath = some (lit "logs") });
  contents = λ file. if text_eq file (lit "c/LogBot.ini") then some [] else contents_of file;
}

abbrev after_main : Files
after_main = (main logging_host 3 loop child (lit "c" ∷ []) (λ file. false)).1

main-files_example :
    (after_main (lit "logs/7L.log") ≡ false)
    ⊎ ((after_main (lit "logs/7L.log") ≡ true) × IsLogFile logging_host (lit "logs/7L.log"))
main-files_example =
    main-files logging_host 3 (λ file. false) loop child (lit "c" ∷ []) (lit "logs/7L.log")

read_config_files-IsChecked_example : IsChecked loaded
unfolding read_config_files set_main_options opened read_motd file_lines cons_head read_users check
    binary_passhash bytes_of char_of hex_value print_hex insert place lookup lowercased tolower lit
    text_eq
read_config_files-IsChecked_example =
    read_config_files-IsChecked host configuration loaded refl refl refl

abbrev lobby : Channel
lobby = record {
  name = lit "L";
  topic = lit "t";
  allowed_users = (lit "a", tt) ∷ (lit "b", tt) ∷ [];
  allow_observers = true;
  clients = [];
}

abbrev channels : List (Text × Channel)
channels = (lit "l", lobby) ∷ []

preset_channels-IsConfigured_example :
    IsConfigured channel_user_entries observers channel_entries channels
unfolding preset_channels add_channels add_channel is_legal_name channel_users add_user
    channel_observers insert place assign lookup has_key lowercased tolower text_eq text_lt lit
preset_channels-IsConfigured_example =
    preset_channels-IsConfigured channel_user_entries observers channel_entries channels refl

abbrev start_env : Environment
start_env = environment_of host configuration

abbrev started : Server
started =
    enroll_vote_bot host configuration start_env (bots 3 start_env) 3 (lit "Vote")
      (some (configured_vote_bot vote_options))
      (add_nick_serv host configuration start_env (bots 3 start_env)
        (server_of host configuration channels))

host-IsSound : IsSound host configuration
unfolding vote_bot_entries planned_clients planned_vote_bots lit text_eq lowercased tolower
host-IsSound = record { apart = ground arith; titled = ground arith }

host-starts : (initialize host 3 configuration (λ file. false)).0 ≡ ok (start_env, started)
unfolding initialize init_server preset_channels add_channels add_channel is_legal_name
    channel_users add_user channel_observers insert place assign lookup has_key lowercased tolower
    text_eq text_lt lit add_virtual_clients add_log_bot init_log_bot enroll_log_bot init_vote_bots
    add_vote_bots add_vote_bot init_vote_bot enabled_vote_bot add_nick_serv enroll with_client
    with_nicknames add_virtual_client virtual_client post_init server_of
host-starts = refl

initialize-Inv_example : Inv (handle_handshake start_env (bots 3 start_env) 4 false started).core
initialize-Inv_example =
    initialize-Inv host 3 configuration (λ file. false) start_env started _ host-IsSound host-starts
      (next here (handshake started 4 false))
