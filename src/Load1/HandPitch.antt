-- ===== src/Load1/HandPitch.antt =====
-- Equipment2015/DVH_VAT/Load1/Tasks/CLoad1PerformHandPitchScanningTask.cpp and its header: measure the
-- first and the last column of the hand's pickers, narrow and wide, and store an offset for each picker.
-- `act` says that the actuator is not null.
pub mod State
pub mod Offsets
pub mod Places
pub mod Readings
pub mod Visited
pub mod Measured
pub mod Polls
pub mod Results
pub use vision_motion_framework.Load1.HandPitch.State.{
  Substep, move_safe_z, move_origin, move_hand_pitch, move_focus_position_z, vision_request,
  vision_wait, return_home, save_hand_pitch_result, HandPitchScanPoint, Fields, TaskWorld,
  initial_fields, plane,
}
unfoldable pub use vision_motion_framework.Load1.HandPitch.State.{
  column_points, build_scan_points, on_initialize, record_offset, find_offsets,
}
use vision_motion_framework.Prelude.{
  ℕ, zero, suc, ◌-◌, Bool, true, false, if◌then◌else◌, not, ◌||◌, ltb, List, [], ◌∷◌, get_elem?,
  length, ℤ, pos,
}
use vision_motion_framework.Vat.World.{
  World, Env, TaskState, common_error, substep, M, pure, get, set_fields, element, deref, ◌>>=◌,
  ◌>>◌, measure, move_z, is_move_z, move, is_move, get_position, set_light_state,
}
use vision_motion_framework.Vat.Access.{
  has_processor, has_repository, get_seq_int, initialize_recv_thread, execute_vision_command,
  is_valid, get_offsets, save_hand_pitch,
}
use vision_motion_framework.Vat.Task.{
  TaskResult, tr_keep, tr_next, tr_error, enter_state, enter_common_state, enter_state_with_timeout,
  is_deadline_expired, execute, or_fail, or_wait, when,
}

module _ {D : Type 0} (env : Env D) where
  abbrev zero_offset : D × D
  zero_offset = (env.zero, env.zero)

  module _ (act : Bool) where
    abbrev build_once : Bool → Fields D → Fields D
    build_once true t = t
    build_once false t = build_scan_points env t

    unfoldable pub handle_move_safe_z : M (TaskWorld D) TaskResult
    unfolding build_scan_points
    handle_move_safe_z = or_fail act "Calibration: actuator is null." do
      ok ← move_z env env.zero
      or_fail ok "Calibration: MoveToSafeZ failed." do
        place ← get_position env
        x ← element place 0
        y ← element place 1
        z ← element place 2
        w ← get
        set_fields (
            let t = w.fields in
            build_once t.is_scan_points_built
              (record t { center_position = (x, y); focus_position_z = z }))
        enter_state_with_timeout env move_origin w.fields.move_timeout_ms
        pure tr_keep

    unfoldable pub handle_move_origin : M (TaskWorld D) TaskResult
    handle_move_origin = or_fail act "Calibration: actuator is null." do
      arrived ← is_move_z env env.zero
      or_wait env arrived "Calibration: SafeZ timeout." do
        w ← get
        ok ← move env (plane (env.zero, env.zero)) w.fields.current_pitch_mode
        or_fail ok "HandPitch: MoveToOrigin failed." do
          set_fields (let t = w.fields in record t { current_target_position = zero_offset })
          enter_state_with_timeout env move_hand_pitch w.fields.move_timeout_ms
          pure tr_keep

    -- Whether all points have been measured.
    abbrev next_point : Bool → M (TaskWorld D) TaskResult
    next_point true = do
      w ← get
      enter_state_with_timeout env return_home w.fields.move_timeout_ms
      pure tr_keep
    next_point false = do
      w ← get
      p ← deref (get_elem? w.fields.scan_points w.fields.current_scan_index)
      set_fields (
          let t = w.fields in
          record t {
            current_target_position = p.target_position;
            current_pitch_mode = p.pitch_mode;
          })
      ok ← move env (plane p.target_position) p.pitch_mode
      or_fail ok "XY Move Fail" do
        enter_state_with_timeout env move_focus_position_z w.fields.move_timeout_ms
        pure tr_keep

    abbrev is_at_target : M (TaskWorld D) Bool
    is_at_target = do
      w ← get
      is_move env (plane w.fields.current_target_position) w.fields.current_pitch_mode

    unfoldable pub handle_move_hand_pitch : M (TaskWorld D) TaskResult
    handle_move_hand_pitch = or_fail act "XY Move Fail: actuator null" do
      arrived ← is_at_target
      or_wait env arrived "Calibration: Origin XY timeout." do
        w ← get
        next_point (not (ltb w.fields.current_scan_index (length w.fields.scan_points)))

    unfoldable pub handle_move_focus_position_z : M (TaskWorld D) TaskResult
    handle_move_focus_position_z = or_fail act "HandPitch: actuator is null." do
      arrived ← is_at_target
      or_wait env arrived "Z Down Fail" do
        w ← get
        ok ← move_z env w.fields.focus_position_z
        or_fail ok "HandPitch: MoveToFocusZ failed." do enter_state vision_request; pure tr_keep

    unfoldable pub handle_vision_request : M (TaskWorld D) TaskResult
    unfolding execute_vision_command
    handle_vision_request = or_fail act "Vision request: actuator null" do
      w ← get
      arrived ← is_move_z env w.fields.focus_position_z
      or_wait env arrived "HandPitch: MoveZ timeout." do
        set_light_state env w.fields.camera_id true
        processor ← has_processor
        or_fail processor "No Vision Processor" do
          initialize_recv_thread env
          asked ← execute_vision_command env measure
          or_fail asked "Vision Command Failed"
              do enter_state_with_timeout env vision_wait w.fields.vision_timeout_ms; pure tr_keep

    -- The way to the next point, over the safe height if it lies before this one.
    abbrev travel_on : Bool → M (TaskWorld D) TaskResult
    travel_on true = do enter_state move_safe_z; pure tr_keep
    travel_on false = do enter_state move_hand_pitch; pure tr_keep

    abbrev lies_before : D × D → D × D → Bool
    lies_before (x, y) (x', y') = env.less x x' || env.less y y'

    abbrev after_offset : Bool → M (TaskWorld D) TaskResult
    after_offset true = do enter_state return_home; pure tr_keep
    after_offset false = do
      w ← get
      p ← deref (get_elem? w.fields.scan_points w.fields.current_scan_index)
      travel_on (lies_before p.target_position w.fields.current_target_position)

    unfoldable pub keep_offset_at : D × D → M (TaskWorld D) TaskResult
    unfolding record_offset
    keep_offset_at offset = do
      w ← get
      p ← deref (get_elem? w.fields.scan_points w.fields.current_scan_index)
      set_fields (
          let t = w.fields in
          record t { scan_points = record_offset t.current_scan_index offset t.scan_points })
      when act (set_light_state env w.fields.camera_id false)
      u ← get
      set_fields (let t = u.fields in record t { current_scan_index = suc t.current_scan_index })
      after_offset (not (ltb (suc w.fields.current_scan_index) (length w.fields.scan_points)))

    unfoldable pub measured : M (TaskWorld D) TaskResult
    unfolding keep_offset_at
    measured = do offset ← get_offsets env; keep_offset_at offset

    unfoldable pub handle_vision_wait : M (TaskWorld D) TaskResult
    handle_vision_wait = do
      expired ← is_deadline_expired env
      or_fail (not expired) "Vision Timeout" do
        processor ← has_processor
        or_fail processor "No Vision Processor"
            do valid ← is_valid env; (if valid then measured else pure tr_keep)

    unfoldable pub handle_return_home : M (TaskWorld D) TaskResult
    handle_return_home = or_fail act "ReturnHome: actuator null" do
      w ← get
      ok ← move_z env w.fields.safe_position_z
      or_fail ok "Z Home Return Fail" do
        enter_state_with_timeout env save_hand_pitch_result w.fields.move_timeout_ms
        pure tr_keep

  unfoldable pub save_picker : ℤ → ℤ → ℕ → ℕ → M (TaskWorld D) (Unit {0})
  unfolding find_offsets
  save_picker hand pkg row col = do
    w ← get
    let (n, v) = find_offsets row col w.fields.scan_points (zero_offset, zero_offset)
    save_hand_pitch hand pkg col row n v

  -- So many rows from a row on.
  unfoldable pub save_rows : ℤ → ℤ → ℕ → ℕ → M (TaskWorld D) (Unit {0})
  unfolding save_picker
  save_rows hand pkg zero row = pure tt
  save_rows hand pkg (suc n) row = do
    w ← get
    save_picker hand pkg row 0
    save_picker hand pkg row (w.fields.picker_max_col - 1)
    save_rows hand pkg n (suc row)

  unfoldable pub save_results : Bool → M (TaskWorld D) TaskResult
  unfolding save_rows
  save_results false = do enter_common_state common_error; pure tr_error
  save_results true = do
    hand ← get_seq_int env "HandID" (pos 0)
    pkg ← get_seq_int env "PkgID" (pos 0)
    w ← get
    save_rows hand pkg w.fields.picker_max_row 0
    pure tr_next

  unfoldable pub handle_save_hand_pitch_result : M (TaskWorld D) TaskResult
  unfolding save_results
  handle_save_hand_pitch_result = do repo ← has_repository; save_results repo

  abbrev pub poll_in : Bool → TaskState Substep → M (TaskWorld D) TaskResult
  poll_in act (substep move_safe_z) = handle_move_safe_z act
  poll_in act (substep move_origin) = handle_move_origin act
  poll_in act (substep move_hand_pitch) = handle_move_hand_pitch act
  poll_in act (substep move_focus_position_z) = handle_move_focus_position_z act
  poll_in act (substep vision_request) = handle_vision_request act
  poll_in act (substep vision_wait) = handle_vision_wait act
  poll_in act (substep return_home) = handle_return_home act
  poll_in act (substep save_hand_pitch_result) = handle_save_hand_pitch_result
  poll_in act _ = pure tr_error

  unfoldable pub on_poll : Bool → M (TaskWorld D) TaskResult
  on_poll act w = poll_in act w.state w

  unfoldable pub poll : Bool → M (TaskWorld D) TaskResult
  unfolding execute
  poll act = execute (on_initialize env) (on_poll act)
