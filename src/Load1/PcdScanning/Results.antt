-- ===== src/Load1/PcdScanning/Results.antt =====
-- What CLoad1PerformPCDScanningTask.cpp leaves when it ends.
use vision_motion_framework.Prelude.{◌≡◌, refl, ◌≢◌, inl, inr, Bool, some, List, [], arith, subst}
use vision_motion_framework.Vat.Context.{Context}
use vision_motion_framework.Vat.World.{Env, substep, TaskState, uninitialized, common_error, ret}
use vision_motion_framework.Vat.Task.{new_world, tr_next}
use vision_motion_framework.Vat.Polling.{Poll, run, resume, Ran, execute-Ran}
use vision_motion_framework.Load1.PcdScanning.{
  Substep, move_safe_z, move_origin, move_target_position_xy, move_focus_position_z, vision_request,
  vision_wait, calculate_pcd, save_pcd_result, initial_fields, TaskWorld, on_initialize, measured,
  read_pulse, handle_move_safe_z, handle_move_origin, handle_move_target_position_xy,
  handle_move_focus_position_z, handle_vision_request, handle_vision_wait, handle_calculate_pcd,
  handle_save_pcd_result, poll_in, on_poll, poll,
}
use vision_motion_framework.Load1.PcdScanning.Pulses.{
  LastTwoPulses, HasResults, Inv, resume-Inv, run_some-Inv,
}

module _ {D : Type 0} (env : Env D) where
  -- What a poll that ends the task leaves.
  abbrev pub IsScanned : TaskWorld D → TaskWorld D → Type 0
  IsScanned w w' =
      LastTwoPulses w'.fields.scan_axis w'.fields.start_axis_pulse w'.fields.end_axis_pulse w'.log
      × HasResults env w'.fields
      × (w'.log ≡ w.log)

  module _ (act : Bool) (w w' : TaskWorld D) where
    safe_z-next : handle_move_safe_z env act w ≢ ret tr_next w'
    unfolding handle_move_safe_z
    safe_z-next e = ground arith

    origin-next : handle_move_origin env act w ≢ ret tr_next w'
    unfolding handle_move_origin
    origin-next e = ground arith

    target_xy-next : handle_move_target_position_xy env act w ≢ ret tr_next w'
    unfolding handle_move_target_position_xy
    target_xy-next e = ground arith

    focus_z-next : handle_move_focus_position_z env act w ≢ ret tr_next w'
    unfolding handle_move_focus_position_z
    focus_z-next e = ground arith

    request-next : handle_vision_request env act w ≢ ret tr_next w'
    unfolding handle_vision_request
    request-next e = ground arith

    wait-next : handle_vision_wait env act w ≢ ret tr_next w'
    unfolding handle_vision_wait measured read_pulse
    wait-next e = ground arith

    calculate-next : handle_calculate_pcd env w ≢ ret tr_next w'
    unfolding handle_calculate_pcd
    calculate-next e = ground arith

    save-IsScanned :
        w.state ≡ substep save_pcd_result
        → Inv env w
        → handle_save_pcd_result env w ≡ ret tr_next w'
        → IsScanned w w'
    save-IsScanned at i e = ground arith

  poll_in-IsScanned :
      (act : Bool) (w : TaskWorld D) (s : TaskState Substep) (w' : TaskWorld D)
      → w.state ≡ s
      → Inv env w
      → poll_in env act s w ≡ ret tr_next w'
      → IsScanned w w'
  poll_in-IsScanned act w (substep move_safe_z) w' at i e = absurd (safe_z-next act w w' e)
  poll_in-IsScanned act w (substep move_origin) w' at i e = absurd (origin-next act w w' e)
  poll_in-IsScanned act w (substep move_target_position_xy) w' at i e =
      absurd (target_xy-next act w w' e)
  poll_in-IsScanned act w (substep move_focus_position_z) w' at i e =
      absurd (focus_z-next act w w' e)
  poll_in-IsScanned act w (substep vision_request) w' at i e = absurd (request-next act w w' e)
  poll_in-IsScanned act w (substep vision_wait) w' at i e = absurd (wait-next act w w' e)
  poll_in-IsScanned act w (substep calculate_pcd) w' at i e = absurd (calculate-next act w w' e)
  poll_in-IsScanned act w (substep save_pcd_result) w' at i e = save-IsScanned act w w' at i e
  poll_in-IsScanned act w uninitialized w' at i e = cc
  poll_in-IsScanned act w common_error w' at i e = cc

  initialize-state :
      (w u : TaskWorld D) → on_initialize env w ≡ ret tt u → u.state ≡ substep vision_request
  unfolding on_initialize
  initialize-state w u e = ground arith

  -- What NEXT means, for any object that meets the invariant.
  pub poll-IsScanned :
      (act : Bool) (w w' : TaskWorld D)
      → Inv env w
      → poll env act w ≡ ret tr_next w'
      → IsScanned w w'
  unfolding poll on_poll
  poll-IsScanned act w w' i polled =
      by_case (execute-Ran (on_initialize env) (on_poll env act) w tr_next w' (λ n. cc) polled)
    where
      by_case : Ran (on_initialize env) (on_poll env act) w tr_next w' → IsScanned w w'
      by_case (inl (old, polled)) = poll_in-IsScanned act w w.state w' refl i polled
      by_case (inr (u, new, init, polled)) = absurd (
          request-next act u w'
            (subst (λ s. poll_in env act s u ≡ ret tr_next w') (initialize-state _ u init) polled))

  -- A poll of the pitch task, after any polls, returns NEXT only when the last two readings of the pulses
  -- have the start's and the end's pulse for the scanned axis; the pulse distance and the scale are the
  -- ones that belong to them, and the poll makes no call: the results are not stored.
  pub pcd_next-IsScanned :
      (ps : List (Poll D)) (c c' : Context D) (act : Bool) (w w' : TaskWorld D)
      → run (poll env) ps (new_world (initial_fields env) c []) ≡ some w
      → poll env act (resume c' w) ≡ ret tr_next w'
      → IsScanned w w'
  pcd_next-IsScanned ps c c' act w w' ran polled =
      poll-IsScanned act (resume c' w) w' (resume-Inv env c' w (run_some-Inv env ps c w ran)) polled
