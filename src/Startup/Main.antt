-- ===== src/Startup/Main.antt =====
-- main.cpp, run_console.cpp and run_posix_daemon.cpp: the pidfile, the order of the initialization,
-- and the value that the program returns.
pub mod Pidfile
use rosev_ircsystem.Common.{ℕ, Bool, true, false, not, none, some, List, [], ◌∷◌, if◌then◌else◌}
use rosev_ircsystem.Text.{Text, lit}
use rosev_ircsystem.State.{Server, Environment}
use rosev_ircsystem.Bots.{bots}
use rosev_ircsystem.Startup.Result.{file_name, Exception, error, Result, ok, err, ◌>>=◌}
use rosev_ircsystem.Startup.Host.{Host, Files, create, unlink}
use rosev_ircsystem.Startup.Config.{Configuration, parse_parameters, read_config_files}
use rosev_ircsystem.Startup.Channels.{init_server}
use rosev_ircsystem.Startup.VirtualClients.{add_virtual_clients}

-- The configuration before ParseParameters.
abbrev pub new_configuration : Configuration
new_configuration = record {
  pid_file = [];
  config_path = [];
  motd = [];
  name = [];
  port = 0;
  print_version = false;
  run_as_daemon_service = false;
  ssl_certificate_file = [];
  ssl_private_key_file = [];
  verbose = false;
  use_ipv6 = false;
  user_passhash_map = [];
  use_ssl = false;
}

-- What the handlers read of the configuration and the host.
unfoldable pub environment_of : Host → Configuration → Environment
environment_of host configuration = record {
  name = configuration.name;
  motd = configuration.motd;
  user_passhash_map = configuration.user_passhash_map;
  version_id = host.version_id;
  version_date = host.version_date;
  version_copyright = host.version_copyright;
  product_name = host.product_name;
  environment_name = host.environment_name;
  online_date = host.online_date;
  log_timestamp = host.log_timestamp;
  sha512 = host.sha512;
  uninitialized = host.uninitialized;
}

-- The process: the files, DeletePidFile, and the pidfile that GetPidFile returns.
pub record Process : Type 0 where
  pub files : Files
  pub delete_pid_file : Bool
  pub pid_file : Text

-- What fork() returns: a failure, the parent, or the child.
pub data Fork : Type 0 where
  failed parent child : Fork

module _ (host : Host) (depth : ℕ) where
  -- The calls behind the pidfile. The number says how deep the calls of virtual clients nest.
  unfoldable pub initialize : Configuration → Files → Result (Environment × Server) × Files
  initialize configuration files = elim (init_server host configuration) [
    | err e ↦ (err e, files)
    | ok s ↦
        let env = environment_of host configuration in
        let added = add_virtual_clients host configuration env (bots depth env) s files in
        (added.0 >>= λ s'. ok (env, s'), added.1)
  ]

  -- The check for a running instance, and the new pidfile.
  unfoldable pub with_pid_file : Configuration → Process → Result (Environment × Server) × Process
  unfolding initialize create
  with_pid_file configuration p =
      if p.files configuration.pid_file
      then (err (error (lit "The process is already running!") []), p)
      else if not (host.can_write configuration.pid_file)
      then (
        err (error (lit "Could not create the pidfile!") (file_name configuration.pid_file ∷ [])),
        p,
      )
      else (let initialized = initialize configuration (create configuration.pid_file p.files) in
          (
            initialized.0,
            record {
              files = initialized.1;
              delete_pid_file = true;
              pid_file = configuration.pid_file;
            },
          ))

  -- InitializeServer
  unfoldable pub initialize_server :
      Configuration → Process → Result (Environment × Server) × Process
  unfolding with_pid_file
  initialize_server configuration p = elim (read_config_files host configuration) [
    | err e ↦ (err e, p)
    | ok configuration' ↦ with_pid_file configuration' p
  ]

  -- RunServerEventLoop, if there is a server: how the loop of boost::asio ends.
  unfoldable pub run_server :
      (Environment → Server → Result (Unit {0})) → Result (Environment × Server) → Result ℕ
  run_server loop (err e) = err e
  run_server loop (ok (env, s)) = loop env s >>= λ _. ok 0

  -- RunInConsole
  unfoldable pub run_in_console :
      (Environment → Server → Result (Unit {0})) → Configuration → Process → Result ℕ × Process
  unfolding initialize_server run_server
  run_in_console loop configuration p =
      let started = initialize_server configuration p in (run_server loop started.0, started.1)

  -- The exceptions that RunAsPosixDaemon logs.
  unfoldable pub logged : Result ℕ → Result ℕ
  logged (ok n) = ok n
  logged (err e) = ok 1

  -- RunAsPosixDaemon
  unfoldable pub run_as_posix_daemon :
      (Environment → Server → Result (Unit {0}))
      → Fork
      → Configuration
      → Process
      → Result ℕ × Process
  unfolding run_in_console logged
  run_as_posix_daemon loop failed configuration p =
      (err (error (lit "Failed to create the daemon process!") []), p)
  run_as_posix_daemon loop parent configuration p = (ok 0, p)
  run_as_posix_daemon loop child configuration p =
      let run = run_in_console loop configuration p in (logged run.0, run.1)

  -- The dispatch of main, behind ParseParameters.
  unfoldable pub run :
      (Environment → Server → Result (Unit {0}))
      → Fork
      → Result (Bool × Configuration)
      → Process
      → Result ℕ × Process
  unfolding run_in_console run_as_posix_daemon
  run loop fork (err e) p = (err e, p)
  run loop fork (ok (usage_is_right, configuration)) p =
      if not usage_is_right
      then (ok 1, p)
      else if configuration.print_version
      then (ok 0, p)
      else if configuration.run_as_daemon_service
      then run_as_posix_daemon loop fork configuration p
      else run_in_console loop configuration p

  unfoldable pub return_value : Result ℕ → ℕ
  return_value (ok n) = n
  return_value (err e) = 1

  -- main: what it returns, and the files that it leaves.
  unfoldable pub main :
      (Environment → Server → Result (Unit {0})) → Fork → List Text → Files → ℕ × Files
  unfolding run return_value unlink
  main loop fork arguments files =
      let done =
        run loop fork (parse_parameters (host.parse_command_line arguments) new_configuration)
          (record { files = files; delete_pid_file = false; pid_file = [] }) in
      (
        return_value done.0,
        if done.1.delete_pid_file then unlink done.1.pid_file done.1.files else done.1.files,
      )
