-- ===== src/Load1/PcdScanning/Travel.antt =====
-- At what height CLoad1PerformPCDScanningTask.cpp travels.
use vision_motion_framework.Prelude.{◌≡◌, refl, Bool, true, some, List, [], arith, subst}
use vision_motion_framework.Vat.Context.{Context}
use vision_motion_framework.Vat.World.{Env, substep, TaskState, uninitialized, common_error}
use vision_motion_framework.Vat.Task.{new_world}
use vision_motion_framework.Vat.Polling.{
  Poll, run, Leaves, LeavesSome, Leaves-run, Leaves-execute, resume, Started,
}
use vision_motion_framework.Vat.Travel.{IsUp, TravelsUp}
use vision_motion_framework.Load1.PcdScanning.{
  Substep, move_safe_z, move_origin, move_target_position_xy, move_focus_position_z, vision_request,
  vision_wait, calculate_pcd, save_pcd_result, initial_fields, TaskWorld, on_initialize, measured,
  read_pulse, handle_move_safe_z, handle_move_origin, handle_move_target_position_xy,
  handle_move_focus_position_z, handle_vision_request, handle_vision_wait, handle_calculate_pcd,
  poll_in, on_poll, poll,
}

module _ {D : Type 0} (env : Env D) where
  pub record Inv (w : TaskWorld D) : Type 0 where
    pub safe : TravelsUp env.zero w.log
    pub up : w.state ≡ substep move_target_position_xy → IsUp env.zero w.log

  module _ (act : Bool) (w : TaskWorld D) where
    safe_z-Inv : Inv w → Leaves Inv (handle_move_safe_z env act w)
    unfolding handle_move_safe_z
    safe_z-Inv i = ground arith

    origin-Inv : Inv w → Leaves Inv (handle_move_origin env act w)
    unfolding handle_move_origin
    origin-Inv i = ground arith

    target_xy-Inv :
        Inv w → IsUp env.zero w.log → Leaves Inv (handle_move_target_position_xy env act w)
    unfolding handle_move_target_position_xy
    target_xy-Inv i u = ground arith

    focus_z-Inv : Inv w → Leaves Inv (handle_move_focus_position_z env act w)
    unfolding handle_move_focus_position_z
    focus_z-Inv i = ground arith

    request-Inv :
        w.state ≡ substep vision_request → Inv w → Leaves Inv (handle_vision_request env act w)
    unfolding handle_vision_request
    request-Inv e i = ground arith

    wait-Inv : w.state ≡ substep vision_wait → Inv w → Leaves Inv (handle_vision_wait env act w)
    unfolding handle_vision_wait measured read_pulse
    wait-Inv e i = ground arith

  calculate-Inv : (w : TaskWorld D) → Inv w → Leaves Inv (handle_calculate_pcd env w)
  unfolding handle_calculate_pcd
  calculate-Inv w i = ground arith

  poll_in-Inv :
      (act : Bool) (w : TaskWorld D) (s : TaskState Substep)
      → w.state ≡ s
      → Inv w
      → Leaves Inv (poll_in env act s w)
  poll_in-Inv act w (substep move_safe_z) e i = safe_z-Inv act w i
  poll_in-Inv act w (substep move_origin) e i = origin-Inv act w i
  poll_in-Inv act w (substep move_target_position_xy) e i = target_xy-Inv act w i (i.up e)
  poll_in-Inv act w (substep move_focus_position_z) e i = focus_z-Inv act w i
  poll_in-Inv act w (substep vision_request) e i = request-Inv act w e i
  poll_in-Inv act w (substep vision_wait) e i = wait-Inv act w e i
  poll_in-Inv act w (substep calculate_pcd) e i = calculate-Inv w i
  poll_in-Inv act w (substep save_pcd_result) e i = i
  poll_in-Inv act w uninitialized e i = i
  poll_in-Inv act w common_error e i = i

  init-Inv :
      (w : TaskWorld D)
      → Inv w
      → Leaves (Started Inv) (on_initialize env (record w { initialized = true }))
  unfolding on_initialize
  init-Inv w i = ground arith

  fails-Inv :
      (c : Context D) (w : TaskWorld D) → Inv w → Inv (record w { state = common_error; ctx = c })
  fails-Inv c w i = ground arith

  pub poll-Inv : (act : Bool) (w : TaskWorld D) → Inv w → Leaves Inv (poll env act w)
  unfolding poll on_poll
  poll-Inv act w i =
      Leaves-execute Inv fails-Inv (on_initialize env) (on_poll env act) (λ w i _. init-Inv w i)
        (λ w i. poll_in-Inv act w w.state refl i.0) w i

  new-Inv : (c : Context D) → Inv (new_world (initial_fields env) c [])
  unfolding new_world
  new-Inv c = ground arith

  pub resume-Inv : (c : Context D) (w : TaskWorld D) → Inv w → Inv (resume c w)
  resume-Inv c w i = ground arith

  -- However often the pitch task was polled, it has given no command to travel in the plane unless the
  -- actuator had confirmed the height 0 and the tool had not been sent up or down since.
  pcd_run-TravelsUp :
      (ps : List (Poll D)) (c : Context D) (w : TaskWorld D)
      → run (poll env) ps (new_world (initial_fields env) c []) ≡ some w
      → TravelsUp env.zero w.log
  pcd_run-TravelsUp ps c w ran =
      let i : Inv w =
        subst (LeavesSome Inv) ran
          (Leaves-run Inv (poll env) resume-Inv poll-Inv ps _ (new-Inv c)) in
      i.safe
