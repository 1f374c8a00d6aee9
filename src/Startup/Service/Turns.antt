-- ===== src/Startup/Service/Turns.antt =====
-- The instructions of the two threads of the Windows service, one at a time: what holds of what is
-- reported and of what is still to do.
use rosev_ircsystem.Common.{
  ℕ, ◌+◌, ◌≤◌, ◌≡◌, refl, ◌∙◌, ◌⊎◌, Bool, true, false, List, [], ◌∷◌, ◌++◌, All, arith,
}
use rosev_ircsystem.Startup.Service.Status.{
  ServiceState, start_pending, running, stop_pending, stopped, ServiceStatus, Control, interrogate,
  shutdown, stop, unknown, ServiceProcess, Instruction, set_current_state, set_win32_exit_code,
  set_service_status, shutdown_server, report_event, execute, service_control_handler,
}

unfoldable pub is_stopped : ServiceState → Bool
is_stopped start_pending = false
is_stopped running = false
is_stopped stop_pending = false
is_stopped stopped = true

-- A status that does not say that the service has stopped, and carries no other error than the last
-- one does.
abbrev pub IsAlive : ServiceStatus → ServiceStatus → Type 0
IsAlive last status =
    (is_stopped status.current_state ≡ false)
    × ((status.win32_exit_code ≡ 0) ⊎ (status.win32_exit_code ≡ last.win32_exit_code))

-- How often a thread has still to set SERVICE_STOPPED.
unfoldable pub stops : List Instruction → ℕ
stops [] = 0
stops (set_current_state start_pending ∷ rest) = stops rest
stops (set_current_state running ∷ rest) = stops rest
stops (set_current_state stop_pending ∷ rest) = stops rest
stops (set_current_state stopped ∷ rest) = stops rest + 1
stops (set_win32_exit_code code ∷ rest) = stops rest
stops (set_service_status ∷ rest) = stops rest
stops (shutdown_server ∷ rest) = stops rest
stops (report_event e ∷ rest) = stops rest

-- The exit code when a thread is done.
unfoldable pub final_code : List Instruction → ℕ → ℕ
final_code [] n = n
final_code (set_current_state state ∷ rest) n = final_code rest n
final_code (set_win32_exit_code code ∷ rest) n = final_code rest code
final_code (set_service_status ∷ rest) n = final_code rest n
final_code (shutdown_server ∷ rest) n = final_code rest n
final_code (report_event e ∷ rest) n = final_code rest n

-- An instruction of the handler.
abbrev pub IsMild : Instruction → Type 0
IsMild (set_current_state state) = is_stopped state ≡ false
IsMild (set_win32_exit_code code) = ⊥
IsMild set_service_status = Unit
IsMild shutdown_server = Unit
IsMild (report_event e) = Unit

snoc-All :
    {A : Type 0} (P : A → Type 0) (xs : List A) (x : A) → All P xs → P x → All P (xs ++ x ∷ [])
snoc-All P [] x h p = (p, tt)
snoc-All P (y ∷ ys) x (q, h) p = (q, snoc-All P ys x h p)

pub append-All :
    {A : Type 0} (P : A → Type 0) (xs ys : List A) → All P xs → All P ys → All P (xs ++ ys)
append-All P [] ys h k = k
append-All P (x ∷ xs) ys (q, h) k = (q, append-All P xs ys h k)

pub handler-IsMild : (c : Control) → All IsMild (service_control_handler c)
unfolding service_control_handler is_stopped
handler-IsMild interrogate = tt
handler-IsMild shutdown = (refl, (tt, (tt, tt)))
handler-IsMild stop = (refl, (tt, (tt, tt)))
handler-IsMild unknown = tt

module _ (last : ServiceStatus) where
  -- The main thread writes no exit code but 0 and the last one.
  abbrev pub IsDue : Instruction → Type 0
  IsDue (set_win32_exit_code code) = (code ≡ 0) ⊎ (code ≡ last.win32_exit_code)
  IsDue _ = Unit

  -- Nothing says yet that the service has stopped.
  pub record IsClean (p : ServiceProcess) : Type 0 where
    pub alive : is_stopped p.service_status.current_state ≡ false
    pub reports : All (IsAlive last) p.reported

  pub record IsOrderly (main handler : List Instruction) (p : ServiceProcess) : Type 0 where
    pub once : stops main ≤ 1
    pub due : All IsDue main
    pub mild : All IsMild handler
    pub clean : stops main ≡ 1 → IsClean p
    pub code :
        (p.service_status.win32_exit_code ≡ 0)
        ⊎ (p.service_status.win32_exit_code ≡ last.win32_exit_code)
    pub result : final_code main p.service_status.win32_exit_code ≡ last.win32_exit_code

  execute-IsClean :
      (i : Instruction) (p : ServiceProcess)
      → stops (i ∷ []) ≡ 0
      → (p.service_status.win32_exit_code ≡ 0)
        ⊎ (p.service_status.win32_exit_code ≡ last.win32_exit_code)
      → IsClean p
      → IsClean (execute i p)
  unfolding execute stops is_stopped
  execute-IsClean (set_current_state start_pending) p e code v = record {
    alive = refl;
    reports = v.reports;
  }
  execute-IsClean (set_current_state running) p e code v = record {
    alive = refl;
    reports = v.reports;
  }
  execute-IsClean (set_current_state stop_pending) p e code v = record {
    alive = refl;
    reports = v.reports;
  }
  execute-IsClean (set_current_state stopped) p e code v = absurd (omega (arith, e))
  execute-IsClean (set_win32_exit_code n) p e code v = record {
    alive = v.alive;
    reports = v.reports;
  }
  execute-IsClean set_service_status p e code v = record {
    alive = v.alive;
    reports = snoc-All (IsAlive last) p.reported p.service_status v.reports (v.alive, code);
  }
  execute-IsClean shutdown_server p e code v = record { alive = v.alive; reports = v.reports }
  execute-IsClean (report_event x) p e code v = record { alive = v.alive; reports = v.reports }

  stops-cons :
      (i : Instruction) (rest : List Instruction) → stops (i ∷ rest) ≡ stops (i ∷ []) + stops rest
  unfolding stops
  stops-cons (set_current_state start_pending) rest = omega arith
  stops-cons (set_current_state running) rest = omega arith
  stops-cons (set_current_state stop_pending) rest = omega arith
  stops-cons (set_current_state stopped) rest = omega arith
  stops-cons (set_win32_exit_code n) rest = omega arith
  stops-cons set_service_status rest = omega arith
  stops-cons shutdown_server rest = omega arith
  stops-cons (report_event x) rest = omega arith

  -- The exit code after an instruction of the main thread.
  execute-code :
      (i : Instruction) (p : ServiceProcess)
      → IsDue i
      → (p.service_status.win32_exit_code ≡ 0)
        ⊎ (p.service_status.win32_exit_code ≡ last.win32_exit_code)
      → ((execute i p).service_status.win32_exit_code ≡ 0)
        ⊎ ((execute i p).service_status.win32_exit_code ≡ last.win32_exit_code)
  unfolding execute
  execute-code (set_current_state state) p d h = h
  execute-code (set_win32_exit_code n) p d h = d
  execute-code set_service_status p d h = h
  execute-code shutdown_server p d h = h
  execute-code (report_event x) p d h = h

  execute-result :
      (i : Instruction) (rest : List Instruction) (p : ServiceProcess)
      → final_code rest (execute i p).service_status.win32_exit_code
        ≡ final_code (i ∷ rest) p.service_status.win32_exit_code
  unfolding execute final_code
  execute-result (set_current_state state) rest p = refl
  execute-result (set_win32_exit_code n) rest p = refl
  execute-result set_service_status rest p = refl
  execute-result shutdown_server rest p = refl
  execute-result (report_event x) rest p = refl

  pub main-IsOrderly :
      (i : Instruction) (rest handler : List Instruction) (p : ServiceProcess)
      → IsOrderly (i ∷ rest) handler p
      → IsOrderly rest handler (execute i p)
  main-IsOrderly i rest handler p v = record {
    once = omega (arith, v.once, stops-cons i rest);
    due = v.due.1;
    mild = v.mild;
    clean = λ e.
        execute-IsClean i p (omega (arith, v.once, stops-cons i rest, e)) v.code
          (v.clean (omega (arith, v.once, stops-cons i rest, e)));
    code = execute-code i p v.due.0 v.code;
    result = execute-result i rest p ∙ v.result;
  }

  mild-stops : (i : Instruction) → IsMild i → stops (i ∷ []) ≡ 0
  unfolding stops is_stopped
  mild-stops (set_current_state start_pending) h = refl
  mild-stops (set_current_state running) h = refl
  mild-stops (set_current_state stop_pending) h = refl
  mild-stops (set_current_state stopped) h = cc
  mild-stops (set_win32_exit_code n) h = absurd h
  mild-stops set_service_status h = refl
  mild-stops shutdown_server h = refl
  mild-stops (report_event x) h = refl

  mild-code :
      (i : Instruction) (p : ServiceProcess)
      → IsMild i
      → (execute i p).service_status.win32_exit_code ≡ p.service_status.win32_exit_code
  unfolding execute
  mild-code (set_current_state state) p h = refl
  mild-code (set_win32_exit_code n) p h = absurd h
  mild-code set_service_status p h = refl
  mild-code shutdown_server p h = refl
  mild-code (report_event x) p h = refl

  pub handler-IsOrderly :
      (i : Instruction) (main rest : List Instruction) (p : ServiceProcess)
      → IsOrderly main (i ∷ rest) p
      → IsOrderly main rest (execute i p)
  handler-IsOrderly i main rest p v = record {
    once = v.once;
    due = v.due;
    mild = v.mild.1;
    clean = λ e. execute-IsClean i p (mild-stops i v.mild.0) v.code (v.clean e);
    code = rw (mild-code i p v.mild.0) v.code;
    result = rw (mild-code i p v.mild.0) v.result;
  }
