-- ===== src/Load1/PcdSequence/Pitch.antt =====
-- The result that CLoad1PerformPCDScanningTask.cpp never gives to the sequence.
use vision_motion_framework.Prelude.{◌≢◌, inl, inr, Bool, arith}
use vision_motion_framework.Vat.World.{Env, substep, TaskState, uninitialized, common_error, ret}
use vision_motion_framework.Vat.Task.{tr_done}
use vision_motion_framework.Vat.Polling.{Ran, execute-Ran}
use vision_motion_framework.Load1.PcdScanning.{
  Substep, move_safe_z, move_origin, move_target_position_xy, move_focus_position_z, vision_request,
  vision_wait, calculate_pcd, save_pcd_result, TaskWorld, on_initialize, measured, read_pulse,
  handle_move_safe_z, handle_move_origin, handle_move_target_position_xy,
  handle_move_focus_position_z, handle_vision_request, handle_vision_wait, handle_calculate_pcd,
  poll_in, on_poll, poll,
}

module _ {D : Type 0} (env : Env D) where
  module _ (act : Bool) (w w' : TaskWorld D) where
    safe_z-done : handle_move_safe_z env act w ≢ ret tr_done w'
    unfolding handle_move_safe_z
    safe_z-done e = ground arith

    origin-done : handle_move_origin env act w ≢ ret tr_done w'
    unfolding handle_move_origin
    origin-done e = ground arith

    target_xy-done : handle_move_target_position_xy env act w ≢ ret tr_done w'
    unfolding handle_move_target_position_xy
    target_xy-done e = ground arith

    focus_z-done : handle_move_focus_position_z env act w ≢ ret tr_done w'
    unfolding handle_move_focus_position_z
    focus_z-done e = ground arith

    request-done : handle_vision_request env act w ≢ ret tr_done w'
    unfolding handle_vision_request
    request-done e = ground arith

    wait-done : handle_vision_wait env act w ≢ ret tr_done w'
    unfolding handle_vision_wait measured read_pulse
    wait-done e = ground arith

    calculate-done : handle_calculate_pcd env w ≢ ret tr_done w'
    unfolding handle_calculate_pcd
    calculate-done e = ground arith

  poll_in-done :
      (act : Bool) (w w' : TaskWorld D) (s : TaskState Substep)
      → poll_in env act s w ≢ ret tr_done w'
  poll_in-done act w w' (substep move_safe_z) e = safe_z-done act w w' e
  poll_in-done act w w' (substep move_origin) e = origin-done act w w' e
  poll_in-done act w w' (substep move_target_position_xy) e = target_xy-done act w w' e
  poll_in-done act w w' (substep move_focus_position_z) e = focus_z-done act w w' e
  poll_in-done act w w' (substep vision_request) e = request-done act w w' e
  poll_in-done act w w' (substep vision_wait) e = wait-done act w w' e
  poll_in-done act w w' (substep calculate_pcd) e = calculate-done act w w' e
  poll_in-done act w w' (substep save_pcd_result) e = cc
  poll_in-done act w w' uninitialized e = cc
  poll_in-done act w w' common_error e = cc

  -- The task never says DONE.
  pub poll-done : (act : Bool) (w w' : TaskWorld D) → poll env act w ≢ ret tr_done w'
  unfolding poll on_poll
  poll-done act w w' e =
      by_case (execute-Ran (on_initialize env) (on_poll env act) w tr_done w' (λ n. cc) e)
    where
      by_case : Ran (on_initialize env) (on_poll env act) w tr_done w' → ⊥
      by_case (inl (old, polled)) = poll_in-done act w w' w.state polled
      by_case (inr (u, new, init, polled)) = poll_in-done act u w' u.state polled
