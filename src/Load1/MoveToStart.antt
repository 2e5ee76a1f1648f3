-- ===== src/Load1/MoveToStart.antt =====
-- Equipment2015/DVH_VAT/Load1/Tasks/CLoad1MoveToStartPositionTask.cpp and its header: lift the tool,
-- go to the origin, go to the position, lower the tool. `act` says that the actuator is not null.
pub mod Safety
pub mod Arrival
use vision_motion_framework.Prelude.{
  ℕ, ◌≡◌, Bool, true, false, if◌then◌else◌, not, Option, none, some, List, [], ◌∷◌, ℤ, pos, ltb_ℤ,
}
use vision_motion_framework.Vat.Context.{VisionPosition}
use vision_motion_framework.Vat.World.{
  World, Env, TaskState, substep, M, pure, get, modify, set_fields, element, ◌>>=◌, ◌>>◌, narrow,
  move_z, is_move_z, move, is_move,
}
use vision_motion_framework.Vat.Access.{peek_position, get_seq_int}
use vision_motion_framework.Vat.Task.{
  TaskResult, tr_keep, tr_next, tr_error, enter_state, enter_state_with_timeout,
  is_deadline_expired, set_error_and_return, execute, or_fail, given_or_fail, when, or_wait,
}

pub data Substep : Type 0 where
  idle move_safe_z move_origin move_target_position_xy move_target_position_z complete_move :
      Substep

pub record Fields (D : Type 0) : Type 0 where
  pub target_position : List D
  pub move_timeout_ms : ℤ

abbrev pub initial_fields : {D : Type 0} → Fields D
initial_fields = record { target_position = []; move_timeout_ms = pos 7000 }

abbrev pub TaskWorld : Type 0 → Type 0
TaskWorld D = World Substep (Fields D) D

module _ {D : Type 0} (env : Env D) where
  unfoldable pub on_initialize : M (TaskWorld D) (Unit {0})
  on_initialize = do
    w ← get
    timeout_ms ← get_seq_int env "TimeOutMs" w.fields.move_timeout_ms
    when (ltb_ℤ (pos 0) timeout_ms)
        (set_fields (let t = w.fields in record t { move_timeout_ms = timeout_ms }))
    enter_state move_safe_z

  abbrev origin_xy : List D
  origin_xy = env.zero ∷ env.zero ∷ []

  module _ (act : Bool) where
    unfoldable pub handle_move_safe_z : M (TaskWorld D) TaskResult
    handle_move_safe_z = or_fail act "MoveToStartPosition: actuator is null." do
      position ← peek_position
      given_or_fail position "MoveToStartPosition: Get Position Failed." λ p. do
        w ← get
        set_fields (let t = w.fields in record t { target_position = p.pos })
        ok ← move_z env env.zero
        or_fail ok "MoveToStartPosition: MoveToSafeZ failed."
            do enter_state_with_timeout env move_origin w.fields.move_timeout_ms; pure tr_keep

    unfoldable pub handle_move_origin : M (TaskWorld D) TaskResult
    handle_move_origin = or_fail act "MoveToStartPosition: actuator is null." do
      arrived ← is_move_z env env.zero
      or_wait env arrived "MoveToStartPosition: SafeZ timeout." do
        ok ← move env origin_xy narrow
        or_fail ok "MoveToStartPosition: MoveToOrigin failed." do
          w ← get
          enter_state_with_timeout env move_target_position_xy w.fields.move_timeout_ms
          pure tr_keep

    unfoldable pub handle_move_target_position_xy : M (TaskWorld D) TaskResult
    handle_move_target_position_xy = or_fail act "MoveToStartPosition: actuator is null." do
      arrived ← is_move env origin_xy narrow
      or_wait env arrived "MoveToStartPosition: SafeZ timeout." do
        w ← get
        ok ← move env w.fields.target_position narrow
        or_fail ok "MoveToStartPosition: MoveToFocusInspPos (XY) failed." do
          enter_state_with_timeout env move_target_position_z w.fields.move_timeout_ms
          pure tr_keep

    unfoldable pub handle_move_target_position_z : M (TaskWorld D) TaskResult
    handle_move_target_position_z = or_fail act "MoveToStartPosition: actuator is null." do
      w ← get
      arrived ← is_move env w.fields.target_position narrow
      or_wait env arrived "MoveToStartPosition: Move timeout." do
        z ← element w.fields.target_position 2
        ok ← move_z env z
        or_fail ok "MoveToStartPosition: MoveToFocusInspPos (Z) failed."
            do enter_state_with_timeout env complete_move w.fields.move_timeout_ms; pure tr_keep

    unfoldable pub handle_complete_move : M (TaskWorld D) TaskResult
    handle_complete_move = or_fail act "MoveToStartPosition: actuator is null." do
      w ← get
      z ← element w.fields.target_position 2
      arrived ← is_move_z env z
      or_wait env arrived "MoveToStartPosition: MoveZ timeout."
          do enter_state move_safe_z; pure tr_next

    abbrev pub poll_in : TaskState Substep → M (TaskWorld D) TaskResult
    poll_in (substep move_safe_z) = handle_move_safe_z
    poll_in (substep move_origin) = handle_move_origin
    poll_in (substep move_target_position_xy) = handle_move_target_position_xy
    poll_in (substep move_target_position_z) = handle_move_target_position_z
    poll_in (substep complete_move) = handle_complete_move
    poll_in _ = pure tr_error

    unfoldable pub on_poll : M (TaskWorld D) TaskResult
    on_poll w = poll_in w.state w

    unfoldable pub poll : M (TaskWorld D) TaskResult
    unfolding execute
    poll = execute on_initialize on_poll
