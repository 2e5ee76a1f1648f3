-- ===== src/Load1/FovScanning/Coverage.antt =====
-- Travel and measurements in CLoad1PerformFOVScanningTask.cpp, over any number of polls.
use vision_motion_framework.Prelude.{
  ◌≡◌, refl, ◌≢◌, inl, inr, Bool, true, Option, none, some, List, [], arith, subst,
}
use vision_motion_framework.Vat.Context.{Context}
use vision_motion_framework.Vat.World.{Env, substep, TaskState, uninitialized, common_error, ret}
use vision_motion_framework.Vat.Task.{new_world, tr_next}
use vision_motion_framework.Vat.Polling.{
  Poll, run, Leaves, LeavesSome, Leaves-run, Leaves-execute, Ran, execute-Ran, Started, resume,
}
use vision_motion_framework.Vat.Travel.{TravelsUp}
use vision_motion_framework.Load1.FovScanning.{
  Substep, move_safe_z, move_origin, move_scan_position, move_focus_position_z, vision_request,
  vision_wait, return_home, initial_fields, TaskWorld, on_initialize, lift, measured,
  handle_move_safe_z, handle_move_origin, handle_move_scan_position, handle_move_focus_position_z,
  handle_vision_request, handle_vision_wait, handle_return_home, poll_in, on_poll, poll,
}
use vision_motion_framework.Load1.FovScanning.Invariant.{
  Inv, All, safe_z-Inv, origin-Inv, scan-Inv, focus-Inv, request-Inv, home-Inv,
}
use vision_motion_framework.Load1.FovScanning.Waiting.{wait-Inv}

module _ {D : Type 0} (env : Env D) where
  poll_in-Inv :
      (act : Bool) (w : TaskWorld D) (s : TaskState Substep)
      → w.state ≡ s
      → Started (Inv env) w
      → Leaves (Inv env) (poll_in env act s w)
  poll_in-Inv act w (substep move_safe_z) e i = safe_z-Inv env act w e i
  poll_in-Inv act w (substep move_origin) e i = origin-Inv env act w e i
  poll_in-Inv act w (substep move_scan_position) e i = scan-Inv env act w e i
  poll_in-Inv act w (substep move_focus_position_z) e i = focus-Inv env act w e i
  poll_in-Inv act w (substep vision_request) e i = request-Inv env act w e i
  poll_in-Inv act w (substep vision_wait) e i = wait-Inv env act w e i
  poll_in-Inv act w (substep return_home) e i = home-Inv env act w e i
  poll_in-Inv act w uninitialized e i = i.0
  poll_in-Inv act w common_error e i = i.0

  init-Inv :
      (w : TaskWorld D)
      → Inv env w
      → Leaves (Started (Inv env)) (on_initialize env (record w { initialized = true }))
  unfolding on_initialize
  init-Inv w i = ground arith

  fails-Inv :
      (c : Context D) (w : TaskWorld D)
      → Inv env w
      → Inv env (record w { state = common_error; ctx = c })
  fails-Inv c w i = ground arith

  poll-Inv : (act : Bool) (w : TaskWorld D) → Inv env w → Leaves (Inv env) (poll env act w)
  unfolding poll on_poll
  poll-Inv act w i =
      Leaves-execute (Inv env) fails-Inv (on_initialize env) (on_poll env act)
        (λ w i _. init-Inv w i) (λ w i. poll_in-Inv act w w.state refl i) w i

  new-Inv : (c : Context D) → Inv env (new_world (initial_fields env) c [])
  unfolding new_world
  new-Inv c = ground arith

  pub resume-Inv : (c : Context D) (w : TaskWorld D) → Inv env w → Inv env (resume c w)
  resume-Inv c w i = ground arith

  run-Inv :
      (ps : List (Poll D)) (c : Context D)
      → LeavesSome (Inv env) (run (poll env) ps (new_world (initial_fields env) c []))
  run-Inv ps c = Leaves-run (Inv env) (poll env) resume-Inv poll-Inv ps _ (new-Inv c)

  pub run_some-Inv :
      (ps : List (Poll D)) (c : Context D) (w : TaskWorld D)
      → run (poll env) ps (new_world (initial_fields env) c []) ≡ some w
      → Inv env w
  run_some-Inv ps c w e = subst (LeavesSome (Inv env)) e (run-Inv ps c)

  module _ (act : Bool) (w w' : TaskWorld D) where
    safe_z-next : handle_move_safe_z env act w ≢ ret tr_next w'
    unfolding handle_move_safe_z lift
    safe_z-next e = ground arith

    origin-next : handle_move_origin env act w ≢ ret tr_next w'
    unfolding handle_move_origin
    origin-next e = ground arith

    scan-next : handle_move_scan_position env act w ≢ ret tr_next w'
    unfolding handle_move_scan_position
    scan-next e = ground arith

    focus-next : handle_move_focus_position_z env act w ≢ ret tr_next w'
    unfolding handle_move_focus_position_z
    focus-next e = ground arith

    request-next : handle_vision_request env act w ≢ ret tr_next w'
    unfolding handle_vision_request
    request-next e = ground arith

    wait-next : handle_vision_wait env act w ≢ ret tr_next w'
    unfolding handle_vision_wait measured
    wait-next e = ground arith

    home-next : All env w → handle_return_home env act w ≡ ret tr_next w' → All env w'
    unfolding handle_return_home
    home-next a e = ground arith

  poll_in-All :
      (act : Bool) (w : TaskWorld D) (s : TaskState Substep) (w' : TaskWorld D)
      → w.state ≡ s
      → Inv env w
      → poll_in env act s w ≡ ret tr_next w'
      → All env w'
  poll_in-All act w (substep move_safe_z) w' at i e = absurd (safe_z-next act w w' e)
  poll_in-All act w (substep move_origin) w' at i e = absurd (origin-next act w w' e)
  poll_in-All act w (substep move_scan_position) w' at i e = absurd (scan-next act w w' e)
  poll_in-All act w (substep move_focus_position_z) w' at i e = absurd (focus-next act w w' e)
  poll_in-All act w (substep vision_request) w' at i e = absurd (request-next act w w' e)
  poll_in-All act w (substep vision_wait) w' at i e = absurd (wait-next act w w' e)
  poll_in-All act w (substep return_home) w' at i e = home-next act w w' (i.complete at) e
  poll_in-All act w uninitialized w' at i e = cc
  poll_in-All act w common_error w' at i e = cc

  Ran-All :
      (act : Bool) (w w' : TaskWorld D)
      → Inv env w
      → Ran (on_initialize env) (on_poll env act) w tr_next w'
      → All env w'
  unfolding on_poll
  Ran-All act w w' i (inl (old, polled)) = poll_in-All act w w.state w' refl i polled
  Ran-All act w w' i (inr (u, new, init, polled)) =
      poll_in-All act u u.state w' refl (subst (Leaves (Started (Inv env))) init (init-Inv w i)).0
        polled

  -- However often the task was polled, with or without an actuator, whatever the actuator, the vision
  -- and the clock answered, and whatever the other threads did to the context: no command to travel in
  -- the plane was given unless the actuator had confirmed the height 0 and the tool had not been sent up
  -- or down since.
  pub fov_run-TravelsUp :
      (ps : List (Poll D)) (c : Context D)
      → LeavesSome
          (λ w. TravelsUp env.zero w.log)
          (run (poll env) ps (new_world (initial_fields env) c []))
  fov_run-TravelsUp ps c =
      weaken (run (poll env) ps (new_world (initial_fields env) c [])) (run-Inv ps c)
    where
      weaken :
          (o : Option (TaskWorld D))
          → LeavesSome (Inv env) o
          → LeavesSome (λ w. TravelsUp env.zero w.log) o
      weaken none l = tt
      weaken (some w) l = l.safe

  -- When a poll of the scan, after any polls, returns NEXT, the vision has accepted a request at each of
  -- the four places one interval behind, before, left and right of the centre, and each of them while the
  -- actuator had confirmed that place and the focus height and had not been commanded away since.
  pub fov_next-All :
      (ps : List (Poll D)) (c c' : Context D) (act : Bool) (w w' : TaskWorld D)
      → run (poll env) ps (new_world (initial_fields env) c []) ≡ some w
      → poll env act (resume c' w) ≡ ret tr_next w'
      → All env w'
  unfolding poll
  fov_next-All ps c c' act w w' ran polled =
      Ran-All act (resume c' w) w' (resume-Inv c' w (run_some-Inv ps c w ran)) (
        execute-Ran (on_initialize env) (on_poll env act) (resume c' w) tr_next w' (λ n. cc) polled)
