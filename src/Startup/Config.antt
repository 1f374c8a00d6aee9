-- ===== src/Startup/Config.antt =====
-- CConfiguration.cpp: the command line, the main file, the message of the day and the passhashes.
pub mod Checked
use rosev_ircsystem.Common.{
  ℕ, Bool, true, false, not, ◌&&◌, Option, none, some, List, [], ◌∷◌, ◌++◌, ◌==◌, ltb, length,
  is_empty, if◌then◌else◌,
}
use rosev_ircsystem.Text.{Text, lit, lowercased, cons_head}
use rosev_ircsystem.Assoc.{text_key, insert}
use rosev_ircsystem.Startup.Result.{
  file_name, Exception, error, Result, ok, err, ◌>>=◌, ◌>>◌, throw_if,
}
use rosev_ircsystem.Startup.Host.{
  Entry, MainOptions, CommandOptions, CommandLine, unknown_option, refused, parsed, Host,
}
use rosev_ircsystem.Startup.Passhash.{binary_passhash}

pub record Configuration : Type 0 where
  pub pid_file : Text
  pub config_path : Text
  pub motd : List Text
  pub name : Text
  pub port : ℕ
  pub print_version : Bool
  pub run_as_daemon_service : Bool
  pub ssl_certificate_file : Text
  pub ssl_private_key_file : Text
  pub verbose : Bool
  pub use_ipv6 : Bool
  pub user_passhash_map : List (Text × Text)
  pub use_ssl : Bool

-- default_value
abbrev pub default {ℓ} : {A : Type ℓ} → A → Option A → A
default a none = a
default a (some b) = b

abbrev pub motd_line_length : ℕ
motd_line_length = 80

-- CConfiguration::ParseParameters; false asks for the usage.
unfoldable pub parse_options : CommandOptions → Configuration → Bool × Configuration
parse_options options c =
    let c' = record c {
      config_path = default [] options.path;
      run_as_daemon_service = options.daemon;
      verbose = options.verbose;
      print_version = options.version;
    } in
    if is_empty c'.config_path && not c'.print_version
    then (false, c')
    else if c'.run_as_daemon_service
    then (true, record c' { verbose = false })
    else (true, c')

unfoldable pub parse_parameters : CommandLine → Configuration → Result (Bool × Configuration)
unfolding parse_options
parse_parameters unknown_option c = ok (false, c)
parse_parameters (refused e) c = err e
parse_parameters (parsed options) c = ok (parse_options options c)

-- The variables of the main file, with their defaults.
unfoldable pub set_main_options : MainOptions → Configuration → Configuration
set_main_options options c = record c {
  pid_file = default [] options.general_pidfile;
  name = default [] options.general_name;
  port = default 0 options.general_port;
  use_ipv6 = default false options.general_use_ipv6;
  ssl_certificate_file = default [] options.ssl_certificate;
  ssl_private_key_file = default [] options.ssl_privatekey;
  use_ssl = default false options.ssl_use;
}

-- The lines that std::getline yields: no empty one behind a final LF.
unfoldable pub file_lines : Text → List Text
unfolding cons_head
file_lines [] = []
file_lines (c ∷ s) = let rest = file_lines s in if c == 10 then [] ∷ rest else cons_head c rest

-- The loop over the lines, with m_Motd.
unfoldable pub read_motd : List Text → List Text → Result (List Text)
read_motd motd [] = ok motd
read_motd motd (line ∷ rest) =
    let motd' = read_motd (motd ++ line ∷ []) rest in
    if ltb motd_line_length (length line)
    then err (error (lit "Motd file exceeds line length of 80 characters!") [])
    else motd'

-- std::ifstream that has to be open.
unfoldable pub opened : Text → Option Text → Result Text
opened name none = err (error (lit "Could not open the Motd file!") (file_name name ∷ []))
opened name (some text) = ok text

-- The loop over the entries of Users.ini, with m_UserPasshashMap.
unfoldable pub read_users : List (Text × Text) → List Entry → Result (List (Text × Text))
read_users users [] = ok users
read_users users ((nickname, hex) ∷ entries) = binary_passhash hex >>= λ passhash.
    read_users (insert (lowercased nickname) passhash users) entries

-- The sanity checks at the end.
unfoldable pub check : Configuration → Result Configuration
check c = do
  throw_if (is_empty c.name) (error (lit "You need to specify a server name!") [])
  throw_if (c.port == 0) (error (lit "You need to specify a port to listen on!") [])
  throw_if (is_empty c.pid_file)
      (error (lit "You need to specify a pidfile under Posix environments!") [])
  ok c

-- CConfiguration::ReadConfigFiles
unfoldable pub read_config_files : Host → Configuration → Result Configuration
unfolding file_lines read_motd opened read_users set_main_options check
read_config_files host c = do
  options ← host.parse_main_file (c.config_path ++ lit "/MainConfig.ini")
  let c' = set_main_options options c
  let motd_name = c.config_path ++ lit "/Motd.txt"
  text ← opened motd_name (host.contents motd_name)
  motd ← read_motd c'.motd (file_lines text)
  entries ← host.parse_config_file (c.config_path ++ lit "/Users.ini")
  users ← read_users c'.user_passhash_map entries
  check (record c' { motd = motd; user_passhash_map = users })
