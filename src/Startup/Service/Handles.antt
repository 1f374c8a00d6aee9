-- ===== src/Startup/Service/Handles.antt =====
-- The handles that run_nt_service.cpp opens, uses and closes.
use rosev_ircsystem.Common.{
  ◌≡◌, Bool, true, false, not, ◌&&◌, Option, some, none, [], ◌∷◌, ◌==◌, if◌then◌else◌, arith,
}
use rosev_ircsystem.Text.{Text}
use rosev_ircsystem.Startup.Service.{
  service_manager, service, Call, open_sc_manager, open_service, delete_service, close_key,
  create_service, create_key, open_key, set_value, delete_key, close_service_handle, Calls, Windows,
  after, call, throw, done, registry, throw_last, event_source_key, set_event_source,
  add_event_source, set_description, add_service, install_nt_service, delete_opened_service,
  uninstall_nt_service,
}

-- Which handles are open.
pub record Handles : Type 0 where
  pub manager_open : Bool
  pub service_open : Bool
  pub key_open : Bool

abbrev pub closed : Handles
closed = record { manager_open = false; service_open = false; key_open = false }

abbrev given : Bool → Handles → Option Handles
given b h = if b then some h else none

-- What a call makes of the handles, if it uses and closes open ones only, and opens none in place of
-- an open one.
unfoldable step : Call → Bool → Handles → Option Handles
step open_sc_manager success h = given (not h.manager_open) (record h { manager_open = success })
step (create_service path) success h =
    given (h.manager_open && not h.service_open) (record h { service_open = success })
step open_service success h =
    given (h.manager_open && not h.service_open) (record h { service_open = success })
step delete_service success h = given h.service_open h
step (close_service_handle service_manager) success h =
    given h.manager_open (record h { manager_open = false })
step (close_service_handle service) success h =
    given h.service_open (record h { service_open = false })
step (create_key key) success h = given (not h.key_open) (record h { key_open = success })
step (open_key key) success h = given (not h.key_open) (record h { key_open = success })
step (set_value value) success h = given h.key_open h
step close_key success h = given h.key_open (record h { key_open = false })
step (delete_key key) success h = some h

-- The handles behind all the calls.
unfoldable pub follow : Calls → Handles → Option Handles
unfolding step
follow [] h = some h
follow ((made, success) ∷ rest) h = elim (step made success h) [
  | none ↦ none
  | some h' ↦ follow rest h'
]

module _ (windows : Windows) where
  -- UninstallNTService has deleted the service, but not the event source.
  unfoldable pub is_half_uninstalled : Bool
  is_half_uninstalled =
      windows.succeeds open_sc_manager
      && (windows.succeeds open_service
          && (windows.succeeds delete_service
              && not (windows.result (delete_key (event_source_key windows)) == 0)))

  -- Whatever Windows answers, uninstalling the service uses and closes only handles that are open,
  -- and all of them are closed at the end, errors included, unless the service was deleted and the
  -- key of its event source was not: then the service manager and the service are still open.
  pub uninstall_nt_service-follow :
      follow (uninstall_nt_service windows []).1 closed
      ≡ some (
          if is_half_uninstalled
          then record { manager_open = true; service_open = true; key_open = false }
          else closed)
  unfolding uninstall_nt_service delete_opened_service call throw throw_last registry done follow
      step is_half_uninstalled
  uninstall_nt_service-follow = ground arith

  -- Whatever Windows answers, installing the service uses and closes only handles that are open,
  -- and all of them are closed at the end, errors included.
  pub install_nt_service-follow :
      (config_path : Text)
      → follow (install_nt_service windows config_path []).1 closed ≡ some closed
  unfolding install_nt_service add_service set_description add_event_source set_event_source after
      call throw throw_last registry done follow step
  install_nt_service-follow config_path = ground arith
