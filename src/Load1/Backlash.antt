-- ===== src/Load1/Backlash.antt =====
-- Equipment2015/DVH_VAT/Load1/Tasks/CLoad1PerformBacklashScanningTask.cpp and its header: measure at the
-- zero position once from the start and once from the end, for each of three speeds. `act` says that the
-- actuator is not null.
pub mod State
pub mod Travel
pub mod Results
pub use vision_motion_framework.Load1.Backlash.State.{
  Substep, move_safe_z, move_origin, move_start, move_zero, move_end, move_focus_z, vision_request,
  vision_wait, calculate_backlash, save_backlash_result, Axis, axis_x, axis_y, SpeedInfo, Fields,
  TaskWorld, speeds, initial_fields,
}
unfoldable pub use vision_motion_framework.Load1.Backlash.State.{axis_of, on_initialize}
use Prim.Native.String.{String}
use text.Mathlib.Text.{◌==◌ as str_eq}
use vision_motion_framework.Prelude.{
  ℕ, suc, Bool, true, false, if◌then◌else◌, not, ◌||◌, ltb, Option, none, some, List, [], ◌∷◌, ◌++◌,
  length, ℤ, pos, negsuc,
}
use vision_motion_framework.Vat.World.{
  World, Env, TaskState, substep, M, pure, get, set_fields, element, require, ◌>>=◌, ◌>>◌, narrow,
  measure, move_z, is_move_z, move, is_move, set_light_state,
}
use vision_motion_framework.Vat.Access.{
  peek_position, get_seq_int, get_seq_double, get_seq_text, initialize_recv_thread,
  execute_vision_command, is_valid, get_offsets,
}
use vision_motion_framework.Vat.Task.{
  TaskResult, tr_keep, tr_next, tr_error, enter_state, enter_state_with_timeout,
  is_deadline_expired, execute, or_fail, or_wait,
}
use vision_motion_framework.Load1.FindAlign.{no_position, position_or}

module _ {D : Type 0} (env : Env D) where
  -- The place in the plane, the height 0 and the two tables.
  abbrev pub vector : D × D → D → List D
  vector (x, y) table = x ∷ y ∷ env.zero ∷ table ∷ table ∷ []

  -- `ApplyCurrentSpeed`, which only looks at the current speed.
  abbrev pub apply_current_speed : M (TaskWorld D) (Unit {0})
  apply_current_speed = pure tt

  -- A motion in the plane: the current position is set before the command, and `rest` goes on behind it.
  abbrev pub travel : D × D → String → M (TaskWorld D) TaskResult → M (TaskWorld D) TaskResult
  travel p message rest = do
    w ← get
    set_fields (let t = w.fields in record t { current_position = p })
    ok ← move env (vector p w.fields.target_table_position) narrow
    or_fail ok message rest

  abbrev pub is_at_current : M (TaskWorld D) Bool
  is_at_current = do
    w ← get
    is_move env (vector w.fields.current_position w.fields.target_table_position) narrow

  abbrev pub enter_timed : Substep → M (TaskWorld D) TaskResult
  enter_timed s = do w ← get; enter_state_with_timeout env s w.fields.move_timeout_ms; pure tr_keep

  module _ (act : Bool) where
    unfoldable pub handle_move_safe_z : M (TaskWorld D) TaskResult
    handle_move_safe_z = or_fail act "Actuator null" do
      ok ← move_z env env.zero
      or_fail ok "MoveZ failed"
          do apply_current_speed; w ← get; enter_timed w.fields.next_state_after_safe_z

    -- The current position is set behind the command.
    unfoldable pub handle_move_origin : M (TaskWorld D) TaskResult
    handle_move_origin = do
      require act
      arrived ← is_move_z env env.zero
      or_wait env arrived "Backlash: Move Z timeout." do
        w ← get
        ok ← move env (vector (env.zero, env.zero) w.fields.target_table_position) narrow
        or_fail ok "Move Origin failed" do
          set_fields (let t = w.fields in record t { current_position = (env.zero, env.zero) })
          enter_timed move_start

    abbrev after_start : Bool → M (TaskWorld D) TaskResult
    after_start true = enter_timed move_end
    after_start false = enter_timed move_zero

    unfoldable pub handle_move_start : M (TaskWorld D) TaskResult
    handle_move_start = do
      require act
      arrived ← is_at_current
      or_wait env arrived "Backlash: Move Origin timeout." do
        w ← get
        travel w.fields.start_position "MoveZero failed" do
          u ← get
          set_fields (let t = u.fields in record t { next_state_after_safe_z = move_start })
          after_start u.fields.is_start_measured

    unfoldable pub handle_move_zero : M (TaskWorld D) TaskResult
    handle_move_zero = do
      require act
      arrived ← is_at_current
      or_wait env arrived "Backlash: Move Zero timeout."
          do w ← get; travel w.fields.zero_position "Move Start failed" (enter_timed move_focus_z)

    unfoldable pub handle_move_end : M (TaskWorld D) TaskResult
    handle_move_end = do
      require act
      arrived ← is_at_current
      or_wait env arrived "Backlash: Move Start timeout."
          do w ← get; travel w.fields.end_position "Move End failed" (enter_timed move_zero)

    unfoldable pub handle_move_focus_z : M (TaskWorld D) TaskResult
    handle_move_focus_z = or_fail act "Actuator null" do
      arrived ← is_at_current
      or_wait env arrived "XY Timeout" do
        w ← get
        ok ← move_z env w.fields.focus_position_z
        or_fail ok "MoveZ failed" (enter_timed vision_request)

    -- Without the arrival, only the deadline is looked at.
    abbrev unless_late : Bool → M (TaskWorld D) TaskResult → M (TaskWorld D) TaskResult
    unless_late true rest = rest
    unless_late false rest = do
      expired ← is_deadline_expired env
      or_fail (not expired) "PerformPCDScanning: Z Down Fail" rest

    unfoldable pub request : M (TaskWorld D) TaskResult
    unfolding execute_vision_command
    request = or_fail act "PerformPCDScanning: light null" do
      w ← get
      set_light_state env w.fields.camera_id true
      initialize_recv_thread env
      asked ← execute_vision_command env measure
      or_fail asked "Vision Command Failed"
          do enter_state_with_timeout env vision_wait w.fields.vision_timeout_ms; pure tr_keep

    unfoldable pub handle_vision_request : M (TaskWorld D) TaskResult
    handle_vision_request = do
      require act
      w ← get
      arrived ← is_move_z env w.fields.focus_position_z
      unless_late arrived request

    -- The first measurement is the start's, the second one the end's.
    abbrev keep_offset : Bool → D × D → M (TaskWorld D) TaskResult
    keep_offset false offset = do
      w ← get
      set_fields (let t = w.fields in record t { is_start_measured = true; start_offset = offset })
      enter_timed w.fields.next_state_after_safe_z
    keep_offset true offset = do
      w ← get
      set_fields (let t = w.fields in record t { end_offset = offset })
      enter_state calculate_backlash
      pure tr_keep

    unfoldable pub measured : M (TaskWorld D) TaskResult
    measured = do
      offset ← get_offsets env
      require act
      w ← get
      set_light_state env w.fields.camera_id false
      keep_offset w.fields.is_start_measured offset

    unfoldable pub handle_vision_wait : M (TaskWorld D) TaskResult
    handle_vision_wait = do
      expired ← is_deadline_expired env
      or_fail (not expired) "Vision Timeout"
          do valid ← is_valid env; (if valid then measured else pure tr_keep)

  abbrev pub difference : Axis → D × D → D × D → D
  difference axis_x (start_x, start_y) (end_x, end_y) = env.sub start_x end_x
  difference axis_y (start_x, start_y) (end_x, end_y) = env.sub start_y end_y

  -- Whether another speed follows.
  abbrev next_speed : Bool → M (TaskWorld D) TaskResult
  next_speed true = do
    w ← get
    set_fields (
        let t = w.fields in
        record t { next_state_after_safe_z = move_origin; is_start_measured = false })
    apply_current_speed
    enter_timed move_safe_z
  next_speed false = do enter_state save_backlash_result; pure tr_keep

  unfoldable pub handle_calculate_backlash : M (TaskWorld D) TaskResult
  handle_calculate_backlash = do
    w ← get
    set_fields (
        let t = w.fields in
        record t {
          backlash_results =
              t.backlash_results ++ (difference t.scan_axis t.start_offset t.end_offset ∷ []);
          current_speed_index = suc t.current_speed_index;
        })
    next_speed (ltb (suc w.fields.current_speed_index) (length w.fields.speed_list))

  -- The loop over the speeds does nothing.
  abbrev pub handle_save_backlash_result : M (TaskWorld D) TaskResult
  handle_save_backlash_result = pure tr_next

  abbrev pub poll_in : Bool → TaskState Substep → M (TaskWorld D) TaskResult
  poll_in act (substep move_safe_z) = handle_move_safe_z act
  poll_in act (substep move_origin) = handle_move_origin act
  poll_in act (substep move_start) = handle_move_start act
  poll_in act (substep move_zero) = handle_move_zero act
  poll_in act (substep move_end) = handle_move_end act
  poll_in act (substep move_focus_z) = handle_move_focus_z act
  poll_in act (substep vision_request) = handle_vision_request act
  poll_in act (substep vision_wait) = handle_vision_wait act
  poll_in act (substep calculate_backlash) = handle_calculate_backlash
  poll_in act (substep save_backlash_result) = handle_save_backlash_result
  poll_in act _ = pure tr_error

  unfoldable pub on_poll : Bool → M (TaskWorld D) TaskResult
  on_poll act w = poll_in act w.state w

  unfoldable pub poll : Bool → M (TaskWorld D) TaskResult
  unfolding execute
  poll act = execute (on_initialize env) (on_poll act)
