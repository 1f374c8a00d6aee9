-- ===== src/Startup/Service/Reports.antt =====
-- What the Windows service reports, whatever the turns of its two threads.
use rosev_ircsystem.Common.{◌≡◌, refl, sym, subst, inl, inr, List, [], ◌∷◌, ◌++◌, All, arith}
use rosev_ircsystem.Startup.Result.{Result, ok, err, ◌>>◌}
use rosev_ircsystem.Startup.Service.Status.{
  stopped, ServiceStatus, ServiceProcess, Instruction, set_current_state, set_service_status,
  execute, caught, serve, service_main, Threads, Turn, main_turn, handler_turn, control, take_main,
  take_handler, take_turn, take_turns, started_service,
}
use rosev_ircsystem.Startup.Service.Turns.{
  is_stopped, IsAlive, stops, final_code, IsMild, append-All, handler-IsMild, IsOrderly,
  main-IsOrderly, handler-IsOrderly,
}

-- The status at the end: ERROR_EXCEPTION_IN_SERVICE, if an exception was thrown.
unfoldable pub ended : Result (Unit {0}) → ServiceStatus
ended (ok value) = record { current_state = stopped; win32_exit_code = 0 }
ended (err e) = record { current_state = stopped; win32_exit_code = 1064 }

-- What was reported before the end, and the last status.
abbrev pub EndsWith : ServiceStatus → List ServiceStatus → Type 0
EndsWith last reported =
    (earlier : List ServiceStatus) × (reported ≡ earlier ++ last ∷ []) × All (IsAlive last) earlier

-- The last two instructions of _ServiceMainA.
abbrev pub ending : List Instruction
ending = set_current_state stopped ∷ set_service_status ∷ []

-- The orderly threads.
abbrev AreOrderly : ServiceStatus → Threads → Type 0
AreOrderly last t = IsOrderly last t.main t.handler t.process

take_main-AreOrderly :
    (last : ServiceStatus) (main handler : List Instruction) (p : ServiceProcess)
    → IsOrderly last main handler p
    → AreOrderly last (take_main main (record { main = main; handler = handler; process = p }))
unfolding take_main
take_main-AreOrderly last [] handler p v = v
take_main-AreOrderly last (i ∷ rest) handler p v = main-IsOrderly last i rest handler p v

take_handler-AreOrderly :
    (last : ServiceStatus) (main handler : List Instruction) (p : ServiceProcess)
    → IsOrderly last main handler p
    → AreOrderly last
        (take_handler handler (record { main = main; handler = handler; process = p }))
unfolding take_handler
take_handler-AreOrderly last main [] p v = v
take_handler-AreOrderly last main (i ∷ rest) p v = handler-IsOrderly last i main rest p v

take_turns-AreOrderly :
    (last : ServiceStatus) (turns : List Turn) (t : Threads)
    → AreOrderly last t
    → AreOrderly last (take_turns turns t)
unfolding take_turns take_turn
take_turns-AreOrderly last [] t v = v
take_turns-AreOrderly last (main_turn ∷ turns) t v =
    take_turns-AreOrderly last turns (take_main t.main t)
      (take_main-AreOrderly last t.main t.handler t.process v)
take_turns-AreOrderly last (handler_turn ∷ turns) t v =
    take_turns-AreOrderly last turns (take_handler t.handler t)
      (take_handler-AreOrderly last t.main t.handler t.process v)
take_turns-AreOrderly last (control c ∷ turns) t v =
    take_turns-AreOrderly last turns (take_turn (control c) t) (record {
      once = v.once;
      due = v.due;
      mild = append-All IsMild t.handler _ v.mild (handler-IsMild c);
      clean = v.clean;
      code = v.code;
      result = v.result;
    })

started_service-AreOrderly :
    (initialized looped : Result (Unit {0}))
    → AreOrderly (ended (initialized >> looped)) (started_service initialized looped)
unfolding started_service service_main serve caught ended stops final_code is_stopped
started_service-AreOrderly (err e) looped = record {
  once = omega arith;
  due = (tt, (inl refl, (tt, (tt, (inr refl, (tt, (tt, tt)))))));
  mild = tt;
  clean = λ _. record { alive = refl; reports = tt };
  code = inl refl;
  result = refl;
}
started_service-AreOrderly (ok u) (err e) = record {
  once = omega arith;
  due = (tt, (inl refl, (tt, (tt, (tt, (tt, (inr refl, (tt, (tt, tt)))))))));
  mild = tt;
  clean = λ _. record { alive = refl; reports = tt };
  code = inl refl;
  result = refl;
}
started_service-AreOrderly (ok u) (ok w) = record {
  once = omega arith;
  due = (tt, (inl refl, (tt, (tt, (tt, (tt, (tt, tt)))))));
  mild = tt;
  clean = λ _. record { alive = refl; reports = tt };
  code = inl refl;
  result = refl;
}

ending-EndsWith :
    (last : ServiceStatus) (main handler : List Instruction) (p : ServiceProcess)
    → last.current_state ≡ stopped
    → main ≡ ending
    → IsOrderly last main handler p
    → EndsWith last
        (take_turns
          (main_turn ∷ main_turn ∷ [])
          (record { main = ending; handler = handler; process = p })).process.reported
unfolding take_turns take_turn take_main execute stops final_code
ending-EndsWith last main handler p s e v =
    (p.reported, ground (arith, s, e, v.result), (v.clean (ground (arith, e))).reports)

ended-stopped : (r : Result (Unit {0})) → (ended r).current_state ≡ stopped
unfolding ended
ended-stopped (ok value) = refl
ended-stopped (err e) = refl

-- Whatever controls arrive and in whatever order the instructions of _ServiceMainA and of the
-- control handler are executed, once the last two instructions of _ServiceMainA are left and the
-- handler does nothing between and after them, the last status that the service reports is that it
-- has stopped, with ERROR_EXCEPTION_IN_SERVICE exactly if the initialization or the event loop has
-- thrown an exception, and no earlier status says that it has stopped, nor carries an error unless
-- an exception was thrown.
pub service_main-ended :
    (turns : List Turn) (initialized looped : Result (Unit {0}))
    → (take_turns turns (started_service initialized looped)).main ≡ ending
    → EndsWith
        (ended (initialized >> looped))
        (take_turns
          (main_turn ∷ main_turn ∷ [])
          (take_turns turns (started_service initialized looped))).process.reported
service_main-ended turns initialized looped e =
    reports (take_turns turns (started_service initialized looped)) e
      (take_turns-AreOrderly _ turns _ (started_service-AreOrderly initialized looped))
  where
    reports :
        (t : Threads)
        → t.main ≡ ending
        → AreOrderly (ended (initialized >> looped)) t
        → EndsWith
            (ended (initialized >> looped))
            (take_turns (main_turn ∷ main_turn ∷ []) t).process.reported
    reports t e v =
        subst
          (λ m.
            EndsWith (ended (initialized >> looped))
              (take_turns (main_turn ∷ main_turn ∷ [])
                (record { main = m; handler = t.handler; process = t.process })).process.reported)
          (sym e)
          (ending-EndsWith _ t.main t.handler t.process (ended-stopped (initialized >> looped)) e v)
