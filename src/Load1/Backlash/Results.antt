-- ===== src/Load1/Backlash/Results.antt =====
-- How many results CLoad1PerformBacklashScanningTask.cpp has at its end.
use vision_motion_framework.Prelude.{
  ◌≡◌, refl, ◌≢◌, inl, inr, Bool, some, List, [], length, arith, subst,
}
use vision_motion_framework.Vat.Context.{Context}
use vision_motion_framework.Vat.World.{Env, substep, TaskState, uninitialized, common_error, ret}
use vision_motion_framework.Vat.Task.{new_world, tr_next}
use vision_motion_framework.Vat.Polling.{Poll, run, resume, Ran, execute-Ran}
use vision_motion_framework.Load1.Backlash.{
  Substep, move_safe_z, move_origin, move_start, move_zero, move_end, move_focus_z, vision_request,
  vision_wait, calculate_backlash, save_backlash_result, initial_fields, TaskWorld, on_initialize,
  request, measured, handle_move_safe_z, handle_move_origin, handle_move_start, handle_move_zero,
  handle_move_end, handle_move_focus_z, handle_vision_request, handle_vision_wait,
  handle_calculate_backlash, handle_save_backlash_result, poll_in, on_poll, poll,
}
use vision_motion_framework.Load1.Backlash.Travel.{Inv, resume-Inv, run_some-Inv}

module _ {D : Type 0} (env : Env D) where
  module _ (act : Bool) (w w' : TaskWorld D) where
    safe_z-next : handle_move_safe_z env act w ≢ ret tr_next w'
    unfolding handle_move_safe_z
    safe_z-next e = ground arith

    origin-next : handle_move_origin env act w ≢ ret tr_next w'
    unfolding handle_move_origin
    origin-next e = ground arith

    start-next : handle_move_start env act w ≢ ret tr_next w'
    unfolding handle_move_start
    start-next e = ground arith

    zero-next : handle_move_zero env act w ≢ ret tr_next w'
    unfolding handle_move_zero
    zero-next e = ground arith

    end-next : handle_move_end env act w ≢ ret tr_next w'
    unfolding handle_move_end
    end-next e = ground arith

    focus_z-next : handle_move_focus_z env act w ≢ ret tr_next w'
    unfolding handle_move_focus_z
    focus_z-next e = ground arith

    request-next : handle_vision_request env act w ≢ ret tr_next w'
    unfolding handle_vision_request request
    request-next e = ground arith

    wait-next : handle_vision_wait env act w ≢ ret tr_next w'
    unfolding handle_vision_wait measured
    wait-next e = ground arith

    calculate-next : handle_calculate_backlash env w ≢ ret tr_next w'
    unfolding handle_calculate_backlash
    calculate-next e = ground arith

    save-results :
        w.state ≡ substep save_backlash_result
        → Inv env w
        → handle_save_backlash_result env w ≡ ret tr_next w'
        → (length w'.fields.backlash_results ≡ 3) × (w'.log ≡ w.log)
    save-results at i e = ground arith

  poll_in-results :
      (act : Bool) (w : TaskWorld D) (s : TaskState Substep) (w' : TaskWorld D)
      → w.state ≡ s
      → Inv env w
      → poll_in env act s w ≡ ret tr_next w'
      → (length w'.fields.backlash_results ≡ 3) × (w'.log ≡ w.log)
  poll_in-results act w (substep move_safe_z) w' at i e = absurd (safe_z-next act w w' e)
  poll_in-results act w (substep move_origin) w' at i e = absurd (origin-next act w w' e)
  poll_in-results act w (substep move_start) w' at i e = absurd (start-next act w w' e)
  poll_in-results act w (substep move_zero) w' at i e = absurd (zero-next act w w' e)
  poll_in-results act w (substep move_end) w' at i e = absurd (end-next act w w' e)
  poll_in-results act w (substep move_focus_z) w' at i e = absurd (focus_z-next act w w' e)
  poll_in-results act w (substep vision_request) w' at i e = absurd (request-next act w w' e)
  poll_in-results act w (substep vision_wait) w' at i e = absurd (wait-next act w w' e)
  poll_in-results act w (substep calculate_backlash) w' at i e = absurd (calculate-next act w w' e)
  poll_in-results act w (substep save_backlash_result) w' at i e = save-results act w w' at i e
  poll_in-results act w uninitialized w' at i e = cc
  poll_in-results act w common_error w' at i e = cc

  initialize-state :
      (w u : TaskWorld D) → on_initialize env w ≡ ret tt u → u.state ≡ substep move_safe_z
  unfolding on_initialize
  initialize-state w u e = ground arith

  -- A poll of the backlash task, after any polls, returns NEXT only when the three speeds have each given
  -- one result, and it makes no call: the results are not stored.
  backlash_next-results :
      (ps : List (Poll D)) (c c' : Context D) (act : Bool) (w w' : TaskWorld D)
      → run (poll env) ps (new_world (initial_fields env) c []) ≡ some w
      → poll env act (resume c' w) ≡ ret tr_next w'
      → (length w'.fields.backlash_results ≡ 3) × (w'.log ≡ w.log)
  unfolding poll on_poll
  backlash_next-results ps c c' act w w' ran polled =
      by_case (
        execute-Ran (on_initialize env) (on_poll env act) (resume c' w) tr_next w' (λ n. cc) polled)
    where
      i : Inv env (resume c' w)
      i = resume-Inv env c' w (run_some-Inv env ps c w ran)

      by_case :
          Ran (on_initialize env) (on_poll env act) (resume c' w) tr_next w'
          → (length w'.fields.backlash_results ≡ 3) × (w'.log ≡ w.log)
      by_case (inl (old, polled)) = poll_in-results act (resume c' w) w.state w' refl i polled
      by_case (inr (u, new, init, polled)) = absurd (
          safe_z-next act u w'
            (subst (λ s. poll_in env act s u ≡ ret tr_next w') (initialize-state _ u init) polled))
