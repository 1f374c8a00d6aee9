-- ===== src/Tests/Service.antt =====
-- The Windows service, where Windows does what it is asked, but keeps the event source, and where a
-- stop ends the server.
use rosev_ircsystem.Common.{ℕ, ◌≡◌, refl, true, false, some, List, [], ◌∷◌}
use rosev_ircsystem.Text.{lit}
use rosev_ircsystem.Startup.Result.{error, Result, ok, err, ◌>>◌}
use rosev_ircsystem.Startup.Service.{
  Call, open_sc_manager, open_service, delete_service, close_key, create_service, create_key,
  open_key, set_value, delete_key, close_service_handle, Windows, install_nt_service,
  uninstall_nt_service,
}
use rosev_ircsystem.Startup.Service.Handles.{
  closed, follow, is_half_uninstalled, install_nt_service-follow, uninstall_nt_service-follow,
}
use rosev_ircsystem.Startup.Service.Status.{
  interrogate, stop, Turn, main_turn, handler_turn, control, take_main, take_handler, take_turn,
  take_turns, service_control_handler, caught, serve, service_main, started_service,
}
use rosev_ircsystem.Startup.Service.Reports.{ended, EndsWith, service_main-ended}

abbrev keeps : Call → ℕ
keeps open_sc_manager = 0
keeps open_service = 0
keeps delete_service = 0
keeps close_key = 0
keeps (create_service path) = 0
keeps (create_key key) = 0
keeps (open_key key) = 0
keeps (set_value value) = 0
keeps (delete_key key) = 5
keeps (close_service_handle handle) = 0

abbrev windows : Windows
windows = record {
  get_module_file_name = some (lit "irc.exe");
  succeeds = λ call. true;
  result = keeps;
  get_last_error = λ calls. 0;
  application_name = lit "irc";
  product_name = lit "IRC";
}

install_nt_service-follow_example :
    follow (install_nt_service windows (lit "c") []).1 closed ≡ some closed
install_nt_service-follow_example = install_nt_service-follow windows (lit "c")

uninstall_nt_service-follow_example :
    follow (uninstall_nt_service windows []).1 closed
    ≡ some (record { manager_open = true; service_open = true; key_open = false })
unfolding is_half_uninstalled
uninstall_nt_service-follow_example = uninstall_nt_service-follow windows

-- The service is to stop after it has said that it is running. The handler runs while
-- _ServiceMainA catches an exception.
abbrev turns : List Turn
turns =
    main_turn
    ∷ control interrogate
    ∷ main_turn
    ∷ main_turn
    ∷ main_turn
    ∷ main_turn
    ∷ control stop
    ∷ handler_turn
    ∷ main_turn
    ∷ main_turn
    ∷ handler_turn
    ∷ []

abbrev failed : Result (Unit {0})
failed = err (error (lit "e") [])

service_main-ended_example :
    EndsWith
      (ended (ok tt >> failed))
      (take_turns
        (main_turn ∷ main_turn ∷ [])
        (take_turns turns (started_service (ok tt) failed))).process.reported
unfolding take_turns take_turn take_main take_handler started_service service_main serve caught
    service_control_handler
service_main-ended_example = service_main-ended turns (ok tt) failed refl
