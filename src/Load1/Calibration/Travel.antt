-- ===== src/Load1/Calibration/Travel.antt =====
-- Travel in CLoad1PerformCalibrationTask.cpp, from the state that its initialisation means to enter.
use vision_motion_framework.Prelude.{
  ◌≡◌, refl, ◌≢◌, Bool, true, false, Option, none, some, List, [], arith,
}
use vision_motion_framework.Vat.Context.{Context}
use vision_motion_framework.Vat.World.{Env, substep, TaskState, uninitialized, common_error}
use vision_motion_framework.Vat.Polling.{
  Poll, run, Leaves, LeavesSome, Leaves-run, Leaves-execute, resume,
}
use vision_motion_framework.Vat.Travel.{IsUp, TravelsUp}
use vision_motion_framework.Load1.Calibration.{
  Substep, move_safe_z, move_origin, move_calibration_position_xy, move_focus_position_z,
  vision_request, vision_wait, save_calibration_result, TaskWorld, on_initialize, measured,
  handle_move_safe_z, handle_move_origin, handle_move_calibration_position_xy,
  handle_move_focus_position_z, handle_vision_request, handle_vision_wait,
  handle_save_calibration_result, poll_in, on_poll, poll,
}

module _ {D : Type 0} (env : Env D) where
  record Inv (w : TaskWorld D) : Type 0 where
    pub old : w.initialized ≡ true
    pub safe : TravelsUp env.zero w.log
    pub up : w.state ≡ substep move_calibration_position_xy → IsUp env.zero w.log

  module _ (act : Bool) (w : TaskWorld D) where
    safe_z-Inv : Inv w → Leaves Inv (handle_move_safe_z env act w)
    unfolding handle_move_safe_z
    safe_z-Inv i = ground arith

    origin-Inv : Inv w → Leaves Inv (handle_move_origin env act w)
    unfolding handle_move_origin
    origin-Inv i = ground arith

    position_xy-Inv :
        Inv w → IsUp env.zero w.log → Leaves Inv (handle_move_calibration_position_xy env act w)
    unfolding handle_move_calibration_position_xy
    position_xy-Inv i u = ground arith

    focus_z-Inv : Inv w → Leaves Inv (handle_move_focus_position_z env act w)
    unfolding handle_move_focus_position_z
    focus_z-Inv i = ground arith

    request-Inv :
        w.state ≡ substep vision_request → Inv w → Leaves Inv (handle_vision_request env act w)
    unfolding handle_vision_request
    request-Inv e i = ground arith

    wait-Inv : w.state ≡ substep vision_wait → Inv w → Leaves Inv (handle_vision_wait env act w)
    unfolding handle_vision_wait measured
    wait-Inv e i = ground arith

    save-Inv :
        w.state ≡ substep save_calibration_result
        → Inv w
        → Leaves Inv (handle_save_calibration_result env w)
    unfolding handle_save_calibration_result
    save-Inv e i = ground arith

  poll_in-Inv :
      (act : Bool) (w : TaskWorld D) (s : TaskState Substep)
      → w.state ≡ s
      → Inv w
      → Leaves Inv (poll_in env act s w)
  poll_in-Inv act w (substep move_safe_z) e i = safe_z-Inv act w i
  poll_in-Inv act w (substep move_origin) e i = origin-Inv act w i
  poll_in-Inv act w (substep move_calibration_position_xy) e i = position_xy-Inv act w i (i.up e)
  poll_in-Inv act w (substep move_focus_position_z) e i = focus_z-Inv act w i
  poll_in-Inv act w (substep vision_request) e i = request-Inv act w e i
  poll_in-Inv act w (substep vision_wait) e i = wait-Inv act w e i
  poll_in-Inv act w (substep save_calibration_result) e i = save-Inv act w e i
  poll_in-Inv act w uninitialized e i = i
  poll_in-Inv act w common_error e i = i

  fails-Inv :
      (c : Context D) (w : TaskWorld D) → Inv w → Inv (record w { state = common_error; ctx = c })
  fails-Inv c w i = ground arith

  new-absurd : (w : TaskWorld D) → Inv w → w.initialized ≢ false
  new-absurd w i e = ground arith

  poll-Inv : (act : Bool) (w : TaskWorld D) → Inv w → Leaves Inv (poll env act w)
  unfolding poll on_poll
  poll-Inv act w i =
      Leaves-execute Inv fails-Inv (on_initialize env) (on_poll env act)
        (λ w i new. absurd (new-absurd w i new)) (λ w i. poll_in-Inv act w w.state refl i.0) w i

  resume-Inv : (c : Context D) (w : TaskWorld D) → Inv w → Inv (resume c w)
  resume-Inv c w i = ground arith

  start-Inv :
      (w : TaskWorld D)
      → w.initialized ≡ true
      → w.state ≡ substep vision_request
      → w.log ≡ []
      → Inv w
  start-Inv w old at silent = ground arith

  -- From an initialised calibration task that waits to ask the vision and has made no call yet, however
  -- often it is polled and whatever it is answered: no command to travel in the plane was given unless the
  -- actuator had confirmed the height 0 and the tool had not been sent up or down since.
  calibration_run-TravelsUp :
      (ps : List (Poll D)) (w : TaskWorld D)
      → w.initialized ≡ true
      → w.state ≡ substep vision_request
      → w.log ≡ []
      → LeavesSome (λ w'. TravelsUp env.zero w'.log) (run (poll env) ps w)
  calibration_run-TravelsUp ps w old at silent =
      weaken (run (poll env) ps w)
        (Leaves-run Inv (poll env) resume-Inv poll-Inv ps w (start-Inv w old at silent))
    where
      weaken :
          (o : Option (TaskWorld D))
          → LeavesSome Inv o
          → LeavesSome (λ w'. TravelsUp env.zero w'.log) o
      weaken none l = tt
      weaken (some w) l = l.safe
