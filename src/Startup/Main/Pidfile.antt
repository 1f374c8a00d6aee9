-- ===== src/Startup/Main/Pidfile.antt =====
-- The pidfile at the end of main.
use rosev_ircsystem.Common.{
  ℕ, ◌≡◌, refl, sym, ap, ◌∙◌, ◌⊎◌, Bool, true, false, not, List, if◌then◌else◌, if_elim, Bool-cases,
  inl, inr, [],
}
use rosev_ircsystem.Text.{Text, text_eq, text_eq_iff}
use rosev_ircsystem.State.{Server, Environment}
use rosev_ircsystem.Startup.Result.{Result, ok, err, Result-cases}
use rosev_ircsystem.Bots.{bots}
use rosev_ircsystem.Startup.Host.{Host, Files, create, unlink}
use rosev_ircsystem.Startup.Channels.{init_server}
use rosev_ircsystem.Startup.VirtualClients.Logs.{IsLogFile, Logs, add_virtual_clients-Logs}
use rosev_ircsystem.Startup.Config.{Configuration, parse_parameters, read_config_files}
use rosev_ircsystem.Startup.Main.{
  new_configuration, environment_of, Process, Fork, failed, parent, child, initialize,
  with_pid_file, initialize_server, run_in_console, run_as_posix_daemon, run, main,
}

-- What is left of the files once the pidfile is deleted, if it is to be.
abbrev remaining : Process → Files
remaining p = if p.delete_pid_file then unlink p.pid_file p.files else p.files

module _ (host : Host) (depth : ℕ) (files : Files) where
  -- The process has changed no file but log files and a pidfile that was not there, and it will
  -- delete that one.
  abbrev IsTidy : Process → Type 0
  IsTidy p = Logs host files (remaining p)

  abbrev IsFresh : Process → Type 0
  IsFresh p = (p.delete_pid_file ≡ false) × (p.files ≡ files)

  fresh-IsTidy : (p : Process) → IsFresh p → IsTidy p
  fresh-IsTidy p (d, f) name = inl (rw (d, f) refl)

  unlink-Logs :
      (file : Text) (files' : Files)
      → files file ≡ false
      → Logs host (create file files) files'
      → Logs host files (unlink file files')
  unfolding unlink create
  unlink-Logs file files' e grown name = elim (Bool-cases (text_eq file name)) [
    | inl h ↦ inl (rw (h) (sym e ∙ ap files ((text_eq_iff file name).0 h)))
    | inr h ↦ elim (grown name) [
      | inl same ↦ inl (rw (h) (same ∙ rw (h) refl))
      | inr (there, log) ↦ inr (rw (h) there, log)
    ]
  ]

  initialize-Logs :
      (configuration : Configuration) (before : Files)
      → Logs host before (initialize host depth configuration before).1
  unfolding initialize
  initialize-Logs configuration before = elim (Result-cases (init_server host configuration)) [
    | inl (s, e) ↦
        rw (e, initialize)
          (add_virtual_clients-Logs host configuration (environment_of host configuration)
            (bots depth (environment_of host configuration)) s before)
    | inr (x, e) ↦ rw (e, initialize) (λ name. inl refl)
  ]

  with_pid_file-IsTidy :
      (configuration : Configuration) (p : Process)
      → IsFresh p
      → IsTidy (with_pid_file host depth configuration p).1
  unfolding with_pid_file
  with_pid_file-IsTidy configuration p (d, f) = elim (Bool-cases (files configuration.pid_file)) [
    | inl e ↦ rw (f, e, with_pid_file) (λ name. inl (rw (d) refl))
    | inr e ↦
        rw (f, e, with_pid_file)
          (if_elim (λ (r : Result (Environment × Server) × Process). IsTidy r.1)
            (not (host.can_write configuration.pid_file)) (λ name. inl (rw (d) refl))
            (unlink-Logs configuration.pid_file _ e
              (initialize-Logs configuration (create configuration.pid_file files))))
  ]

  initialize_server-IsTidy :
      (configuration : Configuration) (p : Process)
      → IsFresh p
      → IsTidy (initialize_server host depth configuration p).1
  unfolding initialize_server
  initialize_server-IsTidy configuration p h =
      elim (Result-cases (read_config_files host configuration)) [
        | inl (c, e) ↦ rw (e, initialize_server) (with_pid_file-IsTidy c p h)
        | inr (x, e) ↦ rw (e, initialize_server) (fresh-IsTidy p h)
      ]

  module _ (loop : Environment → Server → Result (Unit {0})) where
    run_in_console-IsTidy :
        (configuration : Configuration) (p : Process)
        → IsFresh p
        → IsTidy (run_in_console host depth loop configuration p).1
    unfolding run_in_console
    run_in_console-IsTidy configuration p h = initialize_server-IsTidy configuration p h

    run_as_posix_daemon-IsTidy :
        (fork : Fork) (configuration : Configuration) (p : Process)
        → IsFresh p
        → IsTidy (run_as_posix_daemon host depth loop fork configuration p).1
    unfolding run_as_posix_daemon
    run_as_posix_daemon-IsTidy failed configuration p h = fresh-IsTidy p h
    run_as_posix_daemon-IsTidy parent configuration p h = fresh-IsTidy p h
    run_as_posix_daemon-IsTidy child configuration p h = run_in_console-IsTidy configuration p h

    run-IsTidy :
        (fork : Fork) (r : Result (Bool × Configuration)) (p : Process)
        → IsFresh p
        → IsTidy (run host depth loop fork r p).1
    unfolding run
    run-IsTidy fork (err e) p h = fresh-IsTidy p h
    run-IsTidy fork (ok (usage_is_right, configuration)) p h =
        if_elim (λ (r : Result ℕ × Process). IsTidy r.1) (not usage_is_right) (fresh-IsTidy p h)
          (if_elim (λ (r : Result ℕ × Process). IsTidy r.1) configuration.print_version
            (fresh-IsTidy p h)
            (if_elim (λ (r : Result ℕ × Process). IsTidy r.1) configuration.run_as_daemon_service
              (run_as_posix_daemon-IsTidy fork configuration p h)
              (run_in_console-IsTidy configuration p h)))

    -- Whatever the arguments, the configuration and the event loop do, errors included, when main
    -- returns a file is there exactly if it was there before, or it is a log file that LogBot has
    -- created: main deletes the pidfile that it has created, and never one of another process.
    pub main-files :
        (fork : Fork) (arguments : List Text) (name : Text)
        → ((main host depth loop fork arguments files).1 name ≡ files name)
          ⊎ (((main host depth loop fork arguments files).1 name ≡ true) × IsLogFile host name)
    unfolding main
    main-files fork arguments name =
        run-IsTidy fork (parse_parameters (host.parse_command_line arguments) new_configuration)
          (record { files = files; delete_pid_file = false; pid_file = [] }) (refl, refl) name
