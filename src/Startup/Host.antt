-- ===== src/Startup/Host.antt =====
-- What the program takes from boost::program_options, the file system, the clock, the build and
-- OpenSSL, on Posix.
use rosev_ircsystem.Common.{ℕ, Bool, true, false, Option, List, if◌then◌else◌}
use rosev_ircsystem.Text.{Text, text_eq}
use rosev_ircsystem.State.{Server}
use rosev_ircsystem.Startup.Result.{Exception, Result}

-- An option of a file that is parsed with allow_unregistered: string_key and value[0].
abbrev pub Entry : Type 0
Entry = Text × Text

-- The options of a described file that stand in it.
pub record MainOptions : Type 0 where
  pub general_pidfile : Option Text
  pub general_name : Option Text
  pub general_port : Option ℕ
  pub general_use_ipv6 : Option Bool
  pub ssl_certificate : Option Text
  pub ssl_privatekey : Option Text
  pub ssl_use : Option Bool

pub record LogBotOptions : Type 0 where
  pub channels : Option (List Text)
  pub logpath : Option Text

pub record VoteBotOptions : Type 0 where
  pub abstention_translation : Option Text
  pub admins : Option (List Text)
  pub channel : Option Text
  pub timelimit : Option ℕ

-- The options of the command line: the switches that stand in it, and the positional path.
pub record CommandOptions : Type 0 where
  pub daemon : Bool
  pub verbose : Bool
  pub version : Bool
  pub path : Option Text

pub data CommandLine : Type 0 where
  unknown_option : CommandLine
  refused : Exception → CommandLine
  parsed : CommandOptions → CommandLine

pub record Host : Type 0 where
  pub parse_command_line : List Text → CommandLine
  pub parse_config_file : Text → Result (List Entry)
  pub parse_main_file : Text → Result MainOptions
  pub parse_log_bot_file : Text → Result LogBotOptions
  pub parse_vote_bot_file : Text → Result VoteBotOptions
  pub contents : Text → Option Text
  pub can_write : Text → Bool
  pub version_id : Text
  pub version_date : Text
  pub version_copyright : Text
  pub product_name : Text
  pub environment_name : Text
  pub online_date : Text
  pub log_file_stamp : Text
  pub log_timestamp : Text
  pub sha512 : Text → Text
  -- What a size_t holds that has not been initialized.
  pub uninitialized : Server → ℕ
  -- The addresses of CNickServ, of CLogBot, and of the VoteBots in the order of their creation.
  pub nick_serv_address : ℕ
  pub log_bot_address : ℕ
  pub vote_bot_address : ℕ → ℕ
  -- The first CNetworkClient.
  pub network_client_address : ℕ

-- Which files there are.
abbrev pub Files : Type 0
Files = Text → Bool

unfoldable pub create : Text → Files → Files
create file files name = if text_eq file name then true else files name

unfoldable pub unlink : Text → Files → Files
unlink file files name = if text_eq file name then false else files name
