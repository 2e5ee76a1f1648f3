-- ===== src/Load1/Calibration/Stuck.antt =====
-- What the block behind the empty `else` makes of CLoad1PerformCalibrationTask.cpp.
use vision_motion_framework.Prelude.{
  ◌≡◌, refl, ap, if◌then◌else◌, Bool, true, false, some, List, [], ◌∷◌, arith,
}
use vision_motion_framework.Vat.Context.{Context, set_last_error}
use vision_motion_framework.Vat.World.{Env, common_error, ret}
use vision_motion_framework.Vat.Polling.{Poll, run, resume}
use vision_motion_framework.Vat.Task.{new_world, execute, catch_as, poll_after, tr_error}
use vision_motion_framework.Load1.Calibration.{
  initial_fields, TaskWorld, on_initialize, poll_in, on_poll, poll,
}

module _ {D : Type 0} (env : Env D) where
  -- No handler has run: nothing was called, and an initialised task is in its error state.
  record Idle (w : TaskWorld D) : Type 0 where
    pub silent : w.log ≡ []
    pub failed : w.initialized ≡ true → w.state ≡ common_error

  Refused : Bool → TaskWorld D → Type 0
  Refused act w = (w' : TaskWorld D) × (poll env act w ≡ ret tr_error w') × Idle w'

  on_poll-fails :
      (act : Bool) (w : TaskWorld D) → w.state ≡ common_error → on_poll env act w ≡ ret tr_error w
  unfolding on_poll
  on_poll-fails act w e = ap (λ s. poll_in env act s w) e

  on_initialize-fails :
      (w : TaskWorld D)
      → (u : TaskWorld D) × (on_initialize env (record w { initialized = true }) ≡ ret tt u)
        × (u.state ≡ common_error)
        × (u.log ≡ w.log)
  unfolding on_initialize
  on_initialize-fails w = (_, refl, refl, refl)

  poll-Refused : (act : Bool) (w : TaskWorld D) → Idle w → Refused act w
  unfolding poll execute set_last_error Refused
  poll-Refused act w i = by_flags (stopped w.ctx) w.initialized refl
    where
      stopped : Context D → Bool
      stopped c = c.stop_requested

      by_flags :
          (stop old : Bool)
          → w.initialized ≡ old
          → (w' : TaskWorld D) × ((if stop
                then ret tr_error (record w {
                  state = common_error;
                  ctx = set_last_error "NonBlockingTaskBase: Stop requested" w.ctx;
                })
                else if old
                then poll_after (on_poll env act) (ret tt w)
                else poll_after
                    (on_poll env act)
                    (on_initialize env (record w { initialized = true })))
              ≡ ret tr_error w')
            × Idle w'
      by_flags true old e = (_, refl, ground (arith, i))
      by_flags false true e = (w, ap (catch_as _) (on_poll-fails act w (i.failed e)), i)
      by_flags false false e =
          let (u, init, at, silent) = on_initialize-fails w in
          (u, rw init (ap (catch_as _) (on_poll-fails act u at)), ground (arith, at, silent, i))

  new-Idle : (c : Context D) → Idle (new_world initial_fields c [])
  unfolding new_world
  new-Idle c = ground arith

  resume-Idle : (c : Context D) (w : TaskWorld D) → Idle w → Idle (resume c w)
  resume-Idle c w i = ground arith

  run-Idle :
      (ps : List (Poll D)) (w : TaskWorld D)
      → Idle w
      → (w' : TaskWorld D) × (run (poll env) ps w ≡ some w') × Idle w'
  unfolding run Refused
  run-Idle [] w i = (w, refl, i)
  run-Idle (p ∷ ps) w i =
      let (u, e, j) = poll-Refused p.actuator _ (resume-Idle p.context w i) in
      let (w', f, k) = run-Idle ps u j in (w', rw (run, e) f, k)

  -- However often the calibration task has been polled, with any actuator and any context, the next poll
  -- returns ERROR, and neither it nor a poll before it has made any call: no motion, no light, no request.
  pub calibration_poll-fails :
      (ps : List (Poll D)) (c c' : Context D) (act : Bool)
      → (w w' : TaskWorld D) × (run (poll env) ps (new_world initial_fields c []) ≡ some w)
        × (poll env act (resume c' w) ≡ ret tr_error w')
        × (w'.log ≡ [])
  unfolding Refused
  calibration_poll-fails ps c c' act =
      let (w, e, i) = run-Idle ps _ (new-Idle c) in
      let (w', f, j) = poll-Refused act (resume c' w) (resume-Idle c' w i) in
      (w, w', e, f, j.silent)
