-- ===== src/Load1/FocusScanning/Measured.antt =====
-- What CLoad1PerformFocusScanningTask.cpp has measured when it stores, over any number of polls.
use vision_motion_framework.Prelude.{
  ◌≡◌, refl, ◌≢◌, inl, inr, Bool, true, some, List, [], arith, subst,
}
use vision_motion_framework.Vat.Context.{Context}
use vision_motion_framework.Vat.World.{Env, substep, TaskState, uninitialized, common_error, ret}
use vision_motion_framework.Vat.Task.{TaskResult, new_world, tr_keep, tr_error}
use vision_motion_framework.Vat.Polling.{
  Poll, run, Leaves, LeavesSome, Leaves-run, Leaves-execute, Ran, execute-Ran, Started, resume,
}
use vision_motion_framework.Load1.FocusScanning.{
  Substep, move_down, move_wait, vision_request, vision_wait, return_home, save_focus_result,
  initial_fields, TaskWorld, on_initialize, on_poll, poll, poll_in, handle_move_down,
  handle_move_wait, handle_vision_request, handle_vision_wait, handle_return_home,
}
use vision_motion_framework.Load1.FocusScanning.Stages.{IsSentBack}
use vision_motion_framework.Load1.FocusScanning.Invariant.{
  Inv, down-Inv, wait-Inv, request-Inv, vision-Inv, home-Inv, save-Inv,
}
use vision_motion_framework.Load1.FocusScanning.Results.{Stored, handle_save_focus_result-Stored}

module _ {D : Type 0} (env : Env D) where
  poll_in-Inv :
      (act : Bool) (w : TaskWorld D) (s : TaskState Substep)
      → w.state ≡ s
      → Inv env w
      → Leaves (Inv env) (poll_in env act s w)
  poll_in-Inv act w (substep move_down) e i = down-Inv env act w e i
  poll_in-Inv act w (substep move_wait) e i = wait-Inv env act w e i
  poll_in-Inv act w (substep vision_request) e i = request-Inv env act w e i
  poll_in-Inv act w (substep vision_wait) e i = vision-Inv env act w e i
  poll_in-Inv act w (substep return_home) e i = home-Inv env act w e i
  poll_in-Inv act w (substep save_focus_result) e i = save-Inv env w e i
  poll_in-Inv act w uninitialized e i = i
  poll_in-Inv act w common_error e i = i

  init-Inv :
      (w : TaskWorld D)
      → Inv env w
      → Leaves (Started (Inv env)) (on_initialize env (record w { initialized = true }))
  unfolding on_initialize
  init-Inv w i = ground arith

  fails-Inv :
      (c : Context D) (w : TaskWorld D)
      → Inv env w
      → Inv env (record w { state = common_error; ctx = c })
  fails-Inv c w i = ground arith

  poll-Inv : (act : Bool) (w : TaskWorld D) → Inv env w → Leaves (Inv env) (poll env act w)
  unfolding poll on_poll
  poll-Inv act w i =
      Leaves-execute (Inv env) fails-Inv (on_initialize env) (on_poll env act)
        (λ w i _. init-Inv w i) (λ w i. poll_in-Inv act w w.state refl i.0) w i

  new-Inv : (c : Context D) → Inv env (new_world initial_fields c [])
  unfolding new_world
  new-Inv c = ground arith

  resume-Inv : (c : Context D) (w : TaskWorld D) → Inv env w → Inv env (resume c w)
  resume-Inv c w i = ground arith

  -- Only the last handler ends a measurement.
  abbrev Ends : TaskWorld D → TaskResult → TaskWorld D → Type 0
  Ends w r w' = Stored env w r w' × IsSentBack env.zero w.log

  module _ (act : Bool) (w w' : TaskWorld D) (r : TaskResult) (going : r ≢ tr_keep)
      (ok : r ≢ tr_error) where
    down-ends : handle_move_down env act w ≢ ret r w'
    unfolding handle_move_down
    down-ends e = ground arith

    wait-ends : handle_move_wait env act w ≢ ret r w'
    unfolding handle_move_wait
    wait-ends e = ground arith

    request-ends : handle_vision_request env act w ≢ ret r w'
    unfolding handle_vision_request
    request-ends e = ground arith

    vision-ends : handle_vision_wait env act w ≢ ret r w'
    unfolding handle_vision_wait
    vision-ends e = ground arith

    home-ends : handle_return_home env act w ≢ ret r w'
    unfolding handle_return_home
    home-ends e = ground arith

    poll_in-Ends :
        (s : TaskState Substep)
        → w.state ≡ s
        → Inv env w
        → poll_in env act s w ≡ ret r w'
        → Ends w r w'
    poll_in-Ends (substep move_down) at i e = absurd (down-ends e)
    poll_in-Ends (substep move_wait) at i e = absurd (wait-ends e)
    poll_in-Ends (substep vision_request) at i e = absurd (request-ends e)
    poll_in-Ends (substep vision_wait) at i e = absurd (vision-ends e)
    poll_in-Ends (substep return_home) at i e = absurd (home-ends e)
    poll_in-Ends (substep save_focus_result) at i e =
        (handle_save_focus_result-Stored env r w w' ok e, i.sent_back at)
    poll_in-Ends uninitialized at i e = absurd (ok (ground arith))
    poll_in-Ends common_error at i e = absurd (ok (ground arith))

  initialize-state :
      (w u : TaskWorld D) → on_initialize env w ≡ ret tt u → u.state ≡ substep move_down
  unfolding on_initialize
  initialize-state w u e = ground arith

  Ran-Ends :
      (act : Bool) (w w' : TaskWorld D) (r : TaskResult)
      → r ≢ tr_keep
      → r ≢ tr_error
      → Inv env w
      → Ran (on_initialize env) (on_poll env act) w r w'
      → Ends w r w'
  unfolding on_poll
  Ran-Ends act w w' r going ok i (inl (old, polled)) =
      poll_in-Ends act w w' r going ok w.state refl i polled
  Ran-Ends act w w' r going ok i (inr (u, new, init, polled)) = absurd (
      down-ends act u w' r going ok
        (subst (λ s. poll_in env act s u ≡ ret r w') (initialize-state _ u init) polled))

  -- When a poll of the focus scan, after any polls, says neither KEEP nor ERROR, then the first position
  -- of the context was taken out, and NEXT says that it was the last one, PREV that the task starts
  -- again; the calls of this poll loaded the group of the camera and stored, for each location in it,
  -- the height that follows from the position's own, and the position's own height for the three
  -- targets of a camera above 5. Before, the actuator had confirmed a height, the vision had accepted a
  -- request and then answered at this height, and the tool had been sent back to the height 0.
  pub focus_run-Ends :
      (ps : List (Poll D)) (c c' : Context D) (act : Bool) (w w' : TaskWorld D) (r : TaskResult)
      → run (poll env) ps (new_world initial_fields c []) ≡ some w
      → poll env act (resume c' w) ≡ ret r w'
      → r ≢ tr_keep
      → r ≢ tr_error
      → Stored env (resume c' w) r w' × IsSentBack env.zero w.log
  unfolding poll
  focus_run-Ends ps c c' act w w' r ran polled going ok =
      let i =
        subst (LeavesSome (Inv env)) ran
          (Leaves-run (Inv env) (poll env) resume-Inv poll-Inv ps _ (new-Inv c)) in
      Ran-Ends act (resume c' w) w' r going ok (resume-Inv c' w i)
        (execute-Ran (on_initialize env) (on_poll env act) (resume c' w) r w' ok polled)
