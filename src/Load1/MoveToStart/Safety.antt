-- ===== src/Load1/MoveToStart/Safety.antt =====
-- Travel and waiting in CLoad1MoveToStartPositionTask.cpp.
use vision_motion_framework.Prelude.{
  ◌≡◌, refl, Bool, true, false, some, List, [], pos, arith, subst, ltb_ℤ,
}
use vision_motion_framework.Vat.Context.{Context}
use vision_motion_framework.Vat.World.{Env, substep, TaskState, uninitialized, common_error}
use vision_motion_framework.Vat.Task.{new_world}
use vision_motion_framework.Vat.Polling.{
  Poll, run, Leaves, LeavesSome, Leaves-run, Leaves-execute, Started, resume,
}
use vision_motion_framework.Vat.Travel.{IsUp, TravelsUp, IsAt, is_some}
use vision_motion_framework.Load1.MoveToStart.{
  poll_in, TaskWorld, Substep, initial_fields, on_initialize, on_poll, poll,
  move_target_position_xy, idle, move_safe_z, move_origin, move_target_position_z, complete_move,
  handle_move_safe_z, handle_move_origin, handle_move_target_position_xy,
  handle_move_target_position_z, handle_complete_move,
}

module _ {D : Type 0} (env : Env D) where
  abbrev pub is_waiting : TaskState Substep → Bool
  is_waiting (substep move_origin) = true
  is_waiting (substep move_target_position_xy) = true
  is_waiting (substep move_target_position_z) = true
  is_waiting (substep complete_move) = true
  is_waiting _ = false

  pub record Inv (w : TaskWorld D) : Type 0 where
    pub safe : TravelsUp env.zero w.log
    pub up : w.state ≡ substep move_target_position_xy → IsUp env.zero w.log
    pub placed : w.state ≡ substep complete_move → IsAt w.fields.target_position w.log
    pub patient : ltb_ℤ (pos 0) w.fields.move_timeout_ms ≡ true
    pub timed : is_waiting w.state ≡ true → is_some w.deadline ≡ true
    pub fresh : w.initialized ≡ false → is_waiting w.state ≡ false

  module _ (act : Bool) (w : TaskWorld D) where
    safe_z-Inv : Started Inv w → Leaves Inv (handle_move_safe_z env act w)
    unfolding handle_move_safe_z
    safe_z-Inv i = ground arith

    origin-Inv : Started Inv w → Leaves Inv (handle_move_origin env act w)
    unfolding handle_move_origin
    origin-Inv i = ground arith

    target_xy-Inv :
        Started Inv w → IsUp env.zero w.log → Leaves Inv (handle_move_target_position_xy env act w)
    unfolding handle_move_target_position_xy
    target_xy-Inv i u = ground arith

    target_z-Inv : Started Inv w → Leaves Inv (handle_move_target_position_z env act w)
    unfolding handle_move_target_position_z
    target_z-Inv i = ground arith

    complete-Inv : Started Inv w → Leaves Inv (handle_complete_move env act w)
    unfolding handle_complete_move
    complete-Inv i = ground arith

    pub init-Inv :
        Inv w → Leaves (Started Inv) (on_initialize env (record w { initialized = true }))
    unfolding on_initialize
    init-Inv i = ground arith

  pub poll_in-Inv :
      (act : Bool) (w : TaskWorld D) (s : TaskState Substep)
      → w.state ≡ s
      → Started Inv w
      → Leaves Inv (poll_in env act s w)
  poll_in-Inv act w (substep idle) e i = i.0
  poll_in-Inv act w (substep move_safe_z) e i = safe_z-Inv act w i
  poll_in-Inv act w (substep move_origin) e i = origin-Inv act w i
  poll_in-Inv act w (substep move_target_position_xy) e i = target_xy-Inv act w i (i.0.up e)
  poll_in-Inv act w (substep move_target_position_z) e i = target_z-Inv act w i
  poll_in-Inv act w (substep complete_move) e i = complete-Inv act w i
  poll_in-Inv act w uninitialized e i = i.0
  poll_in-Inv act w common_error e i = i.0

  fails-Inv :
      (c : Context D) (w : TaskWorld D) → Inv w → Inv (record w { state = common_error; ctx = c })
  fails-Inv c w i = ground arith

  pub poll-Inv : (act : Bool) (w : TaskWorld D) → Inv w → Leaves Inv (poll env act w)
  unfolding poll on_poll
  poll-Inv act w i =
      Leaves-execute Inv fails-Inv (on_initialize env) (on_poll env act) (λ w i _. init-Inv act w i)
        (λ w i. poll_in-Inv act w w.state refl i) w i

  new-Inv : (c : Context D) → Inv (new_world initial_fields c [])
  unfolding new_world
  new-Inv c = ground arith

  pub resume-Inv : (c : Context D) (w : TaskWorld D) → Inv w → Inv (resume c w)
  resume-Inv c w i = ground arith

  pub run-Inv :
      (ps : List (Poll D)) (c : Context D)
      → LeavesSome Inv (run (poll env) ps (new_world initial_fields c []))
  run-Inv ps c = Leaves-run Inv (poll env) resume-Inv poll-Inv ps _ (new-Inv c)

  pub run_some-Inv :
      (ps : List (Poll D)) (c : Context D) (w : TaskWorld D)
      → run (poll env) ps (new_world initial_fields c []) ≡ some w
      → Inv w
  run_some-Inv ps c w e = subst (LeavesSome Inv) e (run-Inv ps c)
