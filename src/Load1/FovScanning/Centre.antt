-- ===== src/Load1/FovScanning/Centre.antt =====
-- Where CLoad1PerformFOVScanningTask.cpp scans when the sequence comes back to it.
use vision_motion_framework.Prelude.{
  ◌≡◌, refl, inl, inr, ◌≢◌, Bool, true, false, some, List, [], arith, subst,
}
use vision_motion_framework.Vat.Context.{Context}
use vision_motion_framework.Vat.World.{Env, substep, TaskState, uninitialized, common_error, ret}
use vision_motion_framework.Vat.Polling.{
  Poll, run, Leaves, LeavesSome, Leaves-run, Leaves-execute, resume, Ran, execute-Ran,
}
use vision_motion_framework.Vat.Task.{new_world, tr_keep}
use vision_motion_framework.Load1.FovScanning.{
  Substep, move_safe_z, move_origin, move_scan_position, move_focus_position_z, vision_request,
  vision_wait, return_home, is_center, initial_fields, TaskWorld, on_initialize, lift, measured,
  handle_move_safe_z, handle_move_origin, handle_move_scan_position, handle_move_focus_position_z,
  handle_vision_request, handle_vision_wait, handle_return_home, poll_in, on_poll, poll,
}

module _ {D : Type 0} (env : Env D) where
  module _ (x y z : D) where
    -- The scan has been started, and its centre and focus are these.
    pub record Fixed (w : TaskWorld D) : Type 0 where
      pub old : w.initialized ≡ true
      pub begun : w.state ≡ substep move_safe_z → is_center w.fields.current_scan_direction ≡ false
      pub at_x : w.fields.center_position_x ≡ x
      pub at_y : w.fields.center_position_y ≡ y
      pub at_z : w.fields.focus_position_z ≡ z

    module _ (act : Bool) (w : TaskWorld D) where
      safe_z-Fixed :
          w.state ≡ substep move_safe_z → Fixed w → Leaves Fixed (handle_move_safe_z env act w)
      unfolding handle_move_safe_z lift
      safe_z-Fixed e i = ground arith

      origin-Fixed : Fixed w → Leaves Fixed (handle_move_origin env act w)
      unfolding handle_move_origin
      origin-Fixed i = ground arith

      scan-Fixed : Fixed w → Leaves Fixed (handle_move_scan_position env act w)
      unfolding handle_move_scan_position
      scan-Fixed i = ground arith

      focus-Fixed : Fixed w → Leaves Fixed (handle_move_focus_position_z env act w)
      unfolding handle_move_focus_position_z
      focus-Fixed i = ground arith

      request-Fixed : Fixed w → Leaves Fixed (handle_vision_request env act w)
      unfolding handle_vision_request
      request-Fixed i = ground arith

      wait-Fixed : Fixed w → Leaves Fixed (handle_vision_wait env act w)
      unfolding handle_vision_wait measured
      wait-Fixed i = ground arith

      home-Fixed : Fixed w → Leaves Fixed (handle_return_home env act w)
      unfolding handle_return_home
      home-Fixed i = ground arith

    poll_in-Fixed :
        (act : Bool) (w : TaskWorld D) (s : TaskState Substep)
        → w.state ≡ s
        → Fixed w
        → Leaves Fixed (poll_in env act s w)
    poll_in-Fixed act w (substep move_safe_z) e i = safe_z-Fixed act w e i
    poll_in-Fixed act w (substep move_origin) e i = origin-Fixed act w i
    poll_in-Fixed act w (substep move_scan_position) e i = scan-Fixed act w i
    poll_in-Fixed act w (substep move_focus_position_z) e i = focus-Fixed act w i
    poll_in-Fixed act w (substep vision_request) e i = request-Fixed act w i
    poll_in-Fixed act w (substep vision_wait) e i = wait-Fixed act w i
    poll_in-Fixed act w (substep return_home) e i = home-Fixed act w i
    poll_in-Fixed act w uninitialized e i = i
    poll_in-Fixed act w common_error e i = i

    fails-Fixed :
        (c : Context D) (w : TaskWorld D)
        → Fixed w
        → Fixed (record w { state = common_error; ctx = c })
    fails-Fixed c w i = ground arith

    new-absurd : (w : TaskWorld D) → Fixed w → w.initialized ≢ false
    new-absurd w i e = ground arith

    poll-Fixed : (act : Bool) (w : TaskWorld D) → Fixed w → Leaves Fixed (poll env act w)
    unfolding poll on_poll
    poll-Fixed act w i =
        Leaves-execute Fixed fails-Fixed (on_initialize env) (on_poll env act)
          (λ w i new. absurd (new-absurd w i new)) (λ w i. poll_in-Fixed act w w.state refl i.0) w i

    resume-Fixed : (c : Context D) (w : TaskWorld D) → Fixed w → Fixed (resume c w)
    resume-Fixed c w i = ground arith

    run-Fixed :
        (ps : List (Poll D)) (w w' : TaskWorld D)
        → Fixed w
        → run (poll env) ps w ≡ some w'
        → Fixed w'
    run-Fixed ps w w' i e =
        subst (LeavesSome Fixed) e (Leaves-run Fixed (poll env) resume-Fixed poll-Fixed ps w i)

  abbrev pub SameCentre : TaskWorld D → TaskWorld D → Type 0
  SameCentre w w' =
      (w'.fields.center_position_x ≡ w.fields.center_position_x)
      × (w'.fields.center_position_y ≡ w.fields.center_position_y)
      × (w'.fields.focus_position_z ≡ w.fields.focus_position_z)

  initialized-state :
      (w u : TaskWorld D)
      → on_initialize env (record w { initialized = true }) ≡ ret tt u
      → (u.state ≡ substep move_safe_z) × (u.initialized ≡ true)
  unfolding on_initialize
  initialized-state w u e = ground arith

  begun-state :
      (act : Bool) (u w : TaskWorld D)
      → u.initialized ≡ true
      → handle_move_safe_z env act u ≡ ret tr_keep w
      → (w.state ≡ substep move_origin) × (w.initialized ≡ true)
  unfolding handle_move_safe_z lift
  begun-state act u w i e = ground arith

  begins :
      (w : TaskWorld D)
      → (w.state ≡ substep move_origin) × (w.initialized ≡ true)
      → Fixed w.fields.center_position_x w.fields.center_position_y w.fields.focus_position_z w
  begins w i = ground arith

  first-Fixed :
      (act : Bool) (c : Context D) (w : TaskWorld D)
      → Ran (on_initialize env) (on_poll env act) (new_world (initial_fields env) c []) tr_keep w
      → (w.state ≡ substep move_origin) × (w.initialized ≡ true)
  unfolding new_world on_poll
  first-Fixed act c w (inl (old, polled)) = cc
  first-Fixed act c w (inr (u, new, init, polled)) =
      let (at, old) = initialized-state (new_world (initial_fields env) c []) u init in
      begun-state act u w old (subst (λ s. poll_in env act s u ≡ ret tr_keep w) at polled)

  -- The centre and the focus height of the scan are those of the first poll, if that one returned KEEP,
  -- for the rest of the task's life: later polls leave them as they are, also those behind a return of
  -- PREV, with which the task goes on to another vision position.
  pub fov_run-SameCentre :
      (act : Bool) (c : Context D) (w : TaskWorld D) (ps : List (Poll D)) (w' : TaskWorld D)
      → poll env act (new_world (initial_fields env) c []) ≡ ret tr_keep w
      → run (poll env) ps w ≡ some w'
      → SameCentre w w'
  unfolding poll
  fov_run-SameCentre act c w ps w' polled ran = same (
      run-Fixed _ _ _ ps w w'
        (begins w (
          first-Fixed act c w
            (execute-Ran (on_initialize env) (on_poll env act) _ tr_keep w (λ n. cc) polled)))
        ran)
    where
      same :
          Fixed w.fields.center_position_x w.fields.center_position_y w.fields.focus_position_z w'
          → SameCentre w w'
      same i = (i.at_x, i.at_y, i.at_z)
