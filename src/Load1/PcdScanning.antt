-- ===== src/Load1/PcdScanning.antt =====
-- Equipment2015/DVH_VAT/Load1/Tasks/CLoad1PerformPCDScanningTask.cpp and its header: centre a mark, read
-- the pulses of one axis, let the sequence travel on by the pitch, centre the next mark and read again.
-- `act` says that the actuator is not null.
pub mod State
pub mod Pulses
pub mod Results
pub mod Travel
pub mod HandedOn
pub use vision_motion_framework.Load1.PcdScanning.State.{
  Substep, move_safe_z, move_origin, move_target_position_xy, move_focus_position_z, vision_request,
  vision_wait, calculate_pcd, save_pcd_result, Fields, TaskWorld, initial_fields,
}
unfoldable pub use vision_motion_framework.Load1.PcdScanning.State.{on_initialize}
use vision_motion_framework.Prelude.{
  ℕ, suc, Bool, true, false, if◌then◌else◌, not, Option, List, [], ◌∷◌, set, pos, ltb_ℤ,
}
use vision_motion_framework.Vat.Context.{VisionPosition}
use vision_motion_framework.Vat.World.{
  World, Env, TaskState, substep, M, pure, get, set_fields, element, require, ◌>>=◌, ◌>>◌, narrow,
  measure, move_z, is_move_z, move, is_move, set_light_state, get_pulse,
}
use vision_motion_framework.Vat.Access.{
  pop_position, add_position, has_processor, initialize_recv_thread, execute_vision_command,
  is_valid, get_offsets,
}
use vision_motion_framework.Vat.Task.{
  TaskResult, tr_keep, tr_next, tr_prev, tr_error, enter_state, enter_state_with_timeout,
  is_deadline_expired, execute, or_fail, or_wait, when,
}
use vision_motion_framework.Load1.FindAlign.{no_position, position_or, corrected}
use vision_motion_framework.Load1.Backlash.{Axis, axis_x, axis_y}

-- Where the pulses of an axis stand.
abbrev pub axis_index : Axis → ℕ
axis_index axis_x = 0
axis_index axis_y = 1

module _ {D : Type 0} (env : Env D) where
  -- A place in the plane, the height of the focus and the two tables.
  abbrev pub plane_vector : D × D → Fields D → List D
  plane_vector (x, y) t =
      x ∷ y ∷ t.focus_position_z ∷ t.target_table_position ∷ t.target_table_position ∷ []

  abbrev pub origin_vector : Fields D → List D
  origin_vector t = plane_vector (env.zero, env.zero) t

  -- The target behind a correction by the measured offset.
  abbrev pub centred : Fields D → D × D → D × D → D × D
  centred t (x, y) (dx, dy) =
      let low = ltb_ℤ t.camera_id (pos 6) in (corrected env low x dx, corrected env low y dy)

  -- The target on the next mark.
  abbrev pub shifted : Axis → D × D → D → D × D
  shifted axis_x (x, y) pitch = (env.add x pitch, y)
  shifted axis_y (x, y) pitch = (x, env.add y pitch)

  module _ (act : Bool) where
    unfoldable pub handle_move_safe_z : M (TaskWorld D) TaskResult
    handle_move_safe_z = or_fail act "PerformPCDScanning: actuator is null." do
      ok ← move_z env env.zero
      or_fail ok "PerformPCDScanning: MoveToSafeZ failed." do
        w ← get
        enter_state_with_timeout env move_origin w.fields.move_timeout_ms
        pure tr_keep

    unfoldable pub handle_move_origin : M (TaskWorld D) TaskResult
    handle_move_origin = or_fail act "PerformCalibration: actuator is null." do
      arrived ← is_move_z env env.zero
      or_wait env arrived "PerformCalibration: SafeZ timeout." do
        w ← get
        ok ← move env (origin_vector w.fields) narrow
        or_fail ok "PerformCalibration: MoveToFocusInspPos failed." do
          enter_state_with_timeout env move_target_position_xy w.fields.move_timeout_ms
          pure tr_keep

    unfoldable pub handle_move_target_position_xy : M (TaskWorld D) TaskResult
    handle_move_target_position_xy = or_fail act "PerformPCDScanning: actuator is null." do
      w ← get
      arrived ← is_move env (origin_vector w.fields) narrow
      or_wait env arrived "PerformPCDScanning: MoveToSafeZ failed." do
        ok ← move env (plane_vector w.fields.target_position w.fields) narrow
        or_fail ok "PerformPCDScanning: MoveToFocusInspPos failed."
            do enter_state move_focus_position_z; pure tr_keep

    unfoldable pub handle_move_focus_position_z : M (TaskWorld D) TaskResult
    handle_move_focus_position_z = or_fail act "PerformCalibration: actuator is null." do
      w ← get
      arrived ← is_move env (plane_vector w.fields.target_position w.fields) narrow
      or_wait env arrived "PerformCalibration: FocusPos timeout." do
        ok ← move_z env w.fields.focus_position_z
        or_fail ok "PerformCalibration: MoveToFocusInspPos failed."
            do enter_state vision_request; pure tr_keep

    unfoldable pub handle_vision_request : M (TaskWorld D) TaskResult
    unfolding execute_vision_command
    handle_vision_request = or_fail act "PerformPCDScanning: light null" do
      w ← get
      arrived ← is_move_z env w.fields.focus_position_z
      or_wait env arrived "PerformPCDScanning: Z Down Fail" do
        set_light_state env w.fields.camera_id true
        processor ← has_processor
        or_fail processor "No Vision Processor" do
          initialize_recv_thread env
          asked ← execute_vision_command env measure
          or_fail asked "Vision Command Failed"
              do enter_state_with_timeout env vision_wait w.fields.vision_timeout_ms; pure tr_keep

    -- The position that is put back for the tasks before this one.
    abbrev put_shifted : Option (VisionPosition D) → D × D → M (TaskWorld D) (Unit {0})
    put_shifted popped (x, y) = do
      let p = position_or popped no_position
      x₀ ← element p.pos 0
      y₀ ← element p.pos 1
      add_position (record p { pos = set (set p.pos 0 x) 1 y })

    -- The first reading is the start's, the second one the end's.
    abbrev keep_pulse : Bool → D → M (TaskWorld D) TaskResult
    keep_pulse true pulse = do
      w ← get
      set_fields (let t = w.fields in record t { end_axis_pulse = pulse })
      enter_state calculate_pcd
      pure tr_keep
    keep_pulse false pulse = do
      w ← get
      set_fields (
          let t = w.fields in
          record t {
            target_position = shifted t.scan_axis t.target_position t.scan_pitch;
            start_axis_pulse = pulse;
          })
      popped ← pop_position
      u ← get
      put_shifted popped u.fields.target_position
      v ← get
      set_fields
          (let t = v.fields in record t { is_start_offset_measured = true; inspection_count = 0 })
      enter_state vision_request
      pure tr_prev

    unfoldable pub read_pulse : M (TaskWorld D) TaskResult
    read_pulse = do
      require act
      pulses ← get_pulse env
      w ← get
      pulse ← element pulses (axis_index w.fields.scan_axis)
      keep_pulse w.fields.is_start_offset_measured pulse

    -- Whether another inspection follows.
    abbrev inspect_again : Bool → D × D → M (TaskWorld D) TaskResult
    inspect_again true offset = do
      w ← get
      set_fields (
          let t = w.fields in
          record t {
            target_position = centred t t.target_position offset;
            inspection_count = suc t.inspection_count;
          })
      enter_state move_safe_z
      pure tr_keep
    inspect_again false offset = read_pulse

    unfoldable pub measured : M (TaskWorld D) TaskResult
    measured = do
      offset ← get_offsets env
      w ← get
      when act (set_light_state env w.fields.camera_id false)
      inspect_again (ltb_ℤ (pos w.fields.inspection_count) w.fields.max_inspection_count) offset

    unfoldable pub handle_vision_wait : M (TaskWorld D) TaskResult
    handle_vision_wait = do
      expired ← is_deadline_expired env
      or_fail (not expired) "Vision Timeout" do
        processor ← has_processor
        or_fail processor "No Vision Processor"
            do valid ← is_valid env; (if valid then measured else pure tr_keep)

  abbrev pub pulse_distance : D → D → D → D
  pulse_distance pitch start end =
      if env.equal start end
      then env.zero
      else env.div (env.mul pitch (env.literal (pos 2500) 0)) (env.sub start end)

  abbrev pub scale_of : D → D
  scale_of distance =
      env.div (env.mul distance (env.literal (pos 1000) 0)) (env.literal (pos 2500) 0)

  unfoldable pub handle_calculate_pcd : M (TaskWorld D) TaskResult
  handle_calculate_pcd = do
    w ← get
    set_fields (
        let t = w.fields in
        let distance = pulse_distance t.scan_pitch t.start_axis_pulse t.end_axis_pulse in
        record t { pulse_distance_result = distance; scale_result = scale_of distance })
    enter_state save_pcd_result
    pure tr_keep

  abbrev pub handle_save_pcd_result : M (TaskWorld D) TaskResult
  handle_save_pcd_result = pure tr_next

  abbrev pub poll_in : Bool → TaskState Substep → M (TaskWorld D) TaskResult
  poll_in act (substep move_safe_z) = handle_move_safe_z act
  poll_in act (substep move_origin) = handle_move_origin act
  poll_in act (substep move_target_position_xy) = handle_move_target_position_xy act
  poll_in act (substep move_focus_position_z) = handle_move_focus_position_z act
  poll_in act (substep vision_request) = handle_vision_request act
  poll_in act (substep vision_wait) = handle_vision_wait act
  poll_in act (substep calculate_pcd) = handle_calculate_pcd
  poll_in act (substep save_pcd_result) = handle_save_pcd_result
  poll_in act _ = pure tr_error

  unfoldable pub on_poll : Bool → M (TaskWorld D) TaskResult
  on_poll act w = poll_in act w.state w

  unfoldable pub poll : Bool → M (TaskWorld D) TaskResult
  unfolding execute
  poll act = execute (on_initialize env) (on_poll act)
