-- ===== src/Startup/Service/Status.antt =====
-- _ServiceControlHandlerEx and _ServiceMainA of run_nt_service.cpp. The two run on threads of their
-- own and share ServiceStatus, so each is a list of instructions that takes its turns in any order
-- with the other's.
use rosev_ircsystem.Common.{ℕ, ◌+◌, List, [], ◌∷◌, ◌++◌}
use rosev_ircsystem.Startup.Result.{Exception, Result, ok, err}

pub data ServiceState : Type 0 where
  start_pending running stop_pending stopped : ServiceState

-- The members of SERVICE_STATUS that change.
pub record ServiceStatus : Type 0 where
  pub current_state : ServiceState
  pub win32_exit_code : ℕ

-- dwControl
pub data Control : Type 0 where
  interrogate shutdown stop unknown : Control

-- The process of the service: ServiceStatus, what SetServiceStatus was given, how often
-- ShutdownServer was called, and what is in the event log.
pub record ServiceProcess : Type 0 where
  pub service_status : ServiceStatus
  pub reported : List ServiceStatus
  pub shutdowns : ℕ
  pub event_log : List Exception

-- What one thread does at once: an assignment to dwCurrentState or to dwWin32ExitCode,
-- SetServiceStatus with ServiceStatus as it is, ShutdownServer, and ReportEventA.
pub data Instruction : Type 0 where
  set_current_state : ServiceState → Instruction
  set_win32_exit_code : ℕ → Instruction
  set_service_status : Instruction
  shutdown_server : Instruction
  report_event : Exception → Instruction

unfoldable pub execute : Instruction → ServiceProcess → ServiceProcess
execute (set_current_state state) p = record p {
  service_status = record (p.service_status) { current_state = state };
}
execute (set_win32_exit_code code) p = record p {
  service_status = record (p.service_status) { win32_exit_code = code };
}
execute set_service_status p = record p { reported = p.reported ++ p.service_status ∷ [] }
execute shutdown_server p = record p { shutdowns = p.shutdowns + 1 }
execute (report_event e) p = record p { event_log = p.event_log ++ e ∷ [] }

-- _ServiceControlHandlerEx
unfoldable pub service_control_handler : Control → List Instruction
service_control_handler interrogate = []
service_control_handler shutdown =
    set_current_state stop_pending ∷ set_service_status ∷ shutdown_server ∷ []
service_control_handler stop =
    set_current_state stop_pending ∷ set_service_status ∷ shutdown_server ∷ []
service_control_handler unknown = []

-- The handler of the exceptions, with ERROR_EXCEPTION_IN_SERVICE.
unfoldable pub caught : Result (Unit {0}) → List Instruction
caught (ok value) = []
caught (err e) = report_event e ∷ set_win32_exit_code 1064 ∷ []

-- RunServerEventLoop, behind InitializeServer.
unfoldable pub serve : Result (Unit {0}) → Result (Unit {0}) → List Instruction
unfolding caught
serve (err e) looped = caught (err e)
serve (ok value) looped = set_current_state running ∷ set_service_status ∷ caught looped

-- _ServiceMainA, given how InitializeServer and RunServerEventLoop end.
unfoldable pub service_main : Result (Unit {0}) → Result (Unit {0}) → List Instruction
unfolding serve
service_main initialized looped =
    set_current_state start_pending
    ∷ set_win32_exit_code 0
    ∷ set_service_status
    ∷ (serve initialized looped ++ (set_current_state stopped ∷ set_service_status ∷ []))

-- Both threads: what each has still to do. The dispatcher calls the handler for one control after
-- another.
pub record Threads : Type 0 where
  pub main : List Instruction
  pub handler : List Instruction
  pub process : ServiceProcess

-- A turn of _ServiceMainA, a control that arrives, or a turn of the handler.
pub data Turn : Type 0 where
  main_turn handler_turn : Turn
  control : Control → Turn

unfoldable pub take_main : List Instruction → Threads → Threads
take_main [] t = t
take_main (i ∷ rest) t = record t { main = rest; process = execute i t.process }

unfoldable pub take_handler : List Instruction → Threads → Threads
take_handler [] t = t
take_handler (i ∷ rest) t = record t { handler = rest; process = execute i t.process }

unfoldable pub take_turn : Turn → Threads → Threads
unfolding take_main take_handler
take_turn main_turn t = take_main t.main t
take_turn handler_turn t = take_handler t.handler t
take_turn (control c) t = record t { handler = t.handler ++ service_control_handler c }

unfoldable pub take_turns : List Turn → Threads → Threads
unfolding take_turn
take_turns [] t = t
take_turns (turn ∷ turns) t = take_turns turns (take_turn turn t)

-- The threads when RegisterServiceCtrlHandlerExA has returned; ServiceStatus is a global variable.
unfoldable pub started_service : Result (Unit {0}) → Result (Unit {0}) → Threads
unfolding service_main
started_service initialized looped = record {
  main = service_main initialized looped;
  handler = [];
  process = record {
    service_status = record { current_state = start_pending; win32_exit_code = 0 };
    reported = [];
    shutdowns = 0;
    event_log = [];
  };
}
