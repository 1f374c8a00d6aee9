-- ===== src/Startup/Service.antt =====
-- run_nt_service.cpp: what installs and uninstalls the Windows service, call by call, and the
-- states that the running service reports. The answers of Windows are a parameter.
pub mod Handles
pub mod Status
pub mod Turns
pub mod Reports
use rosev_ircsystem.Common.{
  ℕ, Bool, true, false, not, Option, none, some, List, [], ◌∷◌, ◌++◌, ◌==◌, if◌then◌else◌,
}
use rosev_ircsystem.Text.{Text, lit}
use rosev_ircsystem.Startup.Result.{api_function, win32_error, Exception, error, Result, ok, err}

pub data Handle : Type 0 where
  service_manager service : Handle

-- The calls that use a handle, with what the source gives them: the path of the program, a key or
-- a value of the registry. A service is created and opened through the service manager, and a
-- value is set through the one open key.
pub data Call : Type 0 where
  open_sc_manager open_service delete_service close_key : Call
  create_service create_key open_key set_value delete_key : Text → Call
  close_service_handle : Handle → Call

-- The calls up to now, and whether each of them has succeeded.
abbrev pub Calls : Type 0
Calls = List (Call × Bool)

pub record Windows : Type 0 where
  pub get_module_file_name : Option Text
  -- Whether a call that opens or deletes a service succeeds.
  pub succeeds : Call → Bool
  -- What a call on the registry returns: ERROR_SUCCESS is 0.
  pub result : Call → ℕ
  pub get_last_error : Calls → ℕ
  pub application_name : Text
  pub product_name : Text

-- Statements that may throw, behind the calls up to now.
abbrev pub Action : Type 0 → Type 0
Action A = Calls → Result A × Calls

-- The statements behind one that may throw.
unfoldable pub after : {A : Type 0} → Action (Unit {0}) → Action A → Action A
after first rest calls = elim (first calls).0 [
  | err e ↦ (err e, (first calls).1)
  | ok value ↦ rest (first calls).1
]

-- A call, and the statements behind it.
unfoldable pub call : {A : Type 0} → Call → Bool → Action A → Action A
call made success rest calls = rest (calls ++ (made, success) ∷ [])

unfoldable pub throw : {A : Type 0} → Text → Text → ℕ → Action A
throw message function number calls =
    (err (error message (api_function function ∷ win32_error number ∷ [])), calls)

unfoldable pub done : {A : Type 0} → A → Action A
done value calls = (ok value, calls)

module _ (windows : Windows) where
  -- A function on the registry, and the statements behind it, which get its result.
  unfoldable pub registry : {A : Type 0} → Call → (ℕ → Action A) → Action A
  unfolding call
  registry made rest = call made (windows.result made == 0) (rest (windows.result made))

  -- BOOST_THROW_EXCEPTION with GetLastError()
  unfoldable pub throw_last : {A : Type 0} → Text → Text → Action A
  unfolding throw
  throw_last message function calls = throw message function (windows.get_last_error calls) calls

  unfoldable pub event_source_key : Text
  event_source_key =
      lit "SYSTEM\\CurrentControlSet\\Services\\EventLog\\Application\\" ++ windows.product_name

  unfoldable pub service_key : Text
  service_key = lit "SYSTEM\\CurrentControlSet\\Services\\" ++ windows.application_name

  -- The values of the key of the event source.
  unfoldable pub set_event_source : Action (Unit {0})
  unfolding registry call throw done
  set_event_source = registry (set_value (lit "EventMessageFile")) λ r.
      if not (r == 0)
      then call close_key true
          (throw (lit "Failed to add the event source!") (lit "RegSetValueExA") r)
      else registry (set_value (lit "TypesSupported")) λ r'. call close_key true (
          if not (r' == 0)
          then throw (lit "Failed to add the event source!") (lit "RegSetValueExA") r'
          else done tt)

  -- _AddEventSource
  unfoldable pub add_event_source : Action (Unit {0})
  unfolding set_event_source throw_last
  add_event_source = elim windows.get_module_file_name [
    | none ↦ throw_last (lit "Failed to add the event source!") (lit "GetModuleFileNameA")
    | some event_message_file ↦ registry (create_key event_source_key) λ r.
        if not (r == 0)
        then throw (lit "Failed to add the event source!") (lit "RegOpenKeyExA") r
        else set_event_source
  ]

  -- The description of the service in the registry.
  unfoldable pub set_description : Action (Unit {0})
  unfolding registry call throw done
  set_description = registry (open_key service_key) λ r.
      if not (r == 0)
      then throw (lit "Could not set the service description!") (lit "RegOpenKeyExA") r
      else registry (set_value (lit "Description")) λ r'. call close_key true (
          if not (r' == 0)
          then throw (lit "Could not set the service description!") (lit "RegSetValueExA") r'
          else done tt)

  -- Adding the service for a path with arguments.
  unfoldable pub add_service : Text → Action (Unit {0})
  unfolding call throw_last done
  add_service full_path_name = call open_sc_manager (windows.succeeds open_sc_manager) (
      if not (windows.succeeds open_sc_manager)
      then throw_last (lit "Failed to install the service!") (lit "OpenSCManagerA")
      else call (create_service full_path_name) (windows.succeeds (create_service full_path_name)) (
          call (close_service_handle service_manager) true (
            if not (windows.succeeds (create_service full_path_name))
            then throw_last (lit "Failed to install the service!") (lit "CreateServiceA")
            else call (close_service_handle service) true (done tt))))

  -- InstallNTService, with the path of the configuration.
  unfoldable pub install_nt_service : Text → Action ℕ
  unfolding after add_service set_description add_event_source
  install_nt_service config_path = elim windows.get_module_file_name [
    | none ↦ throw_last (lit "Failed to install the service!") (lit "GetModuleFileNameA")
    | some executable_file ↦
        after (add_service (executable_file ++ lit " --service \"" ++ config_path ++ lit "\""))
          (after set_description (after add_event_source (done 0)))
  ]

  -- Deleting the opened service and its event source.
  unfoldable pub delete_opened_service : Action ℕ
  unfolding call throw throw_last registry done
  delete_opened_service = call delete_service (windows.succeeds delete_service) (
      if not (windows.succeeds delete_service)
      then call (close_service_handle service) true (
          call (close_service_handle service_manager) true
            (throw_last (lit "Failed to uninstall the service!") (lit "DeleteService")))
      else registry (delete_key event_source_key) λ r.
        if not (r == 0)
        then throw (lit "Failed to delete the event source!") (lit "RegDeleteKeyA") r
        else call (close_service_handle service) true
            (call (close_service_handle service_manager) true (done 0)))

  -- UninstallNTService
  unfoldable pub uninstall_nt_service : Action ℕ
  unfolding delete_opened_service
  uninstall_nt_service = call open_sc_manager (windows.succeeds open_sc_manager) (
      if not (windows.succeeds open_sc_manager)
      then throw_last (lit "Failed to uninstall the service!") (lit "OpenSCManagerA")
      else call open_service (windows.succeeds open_service) (
          if not (windows.succeeds open_service)
          then call (close_service_handle service_manager) true
              (throw_last (lit "Failed to uninstall the service!") (lit "OpenServiceA"))
          else delete_opened_service))
