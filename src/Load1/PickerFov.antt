-- ===== src/Load1/PickerFov.antt =====
-- Equipment2015/DVH_VAT/Load1/Tasks/CLoad1PerformPickerFOVScanningTask.cpp and its header: measure a picker
-- in the centre of the view and at its front right, and leave the two offsets and their difference in the
-- context. `act` says that the actuator is not null.
pub mod Invariant
pub mod Results
use Prim.Native.String.{String}
use vision_motion_framework.Prelude.{Bool, true, false, if◌then◌else◌, not, List, [], ◌∷◌, ℤ, pos}
use vision_motion_framework.Vat.World.{
  World, Env, TaskState, substep, M, pure, get, modify, set_fields, element, ◌>>=◌, ◌>>◌, narrow,
  measure, move_z, is_move_z, move, is_move, get_position, set_light_state,
}
use vision_motion_framework.Vat.Access.{
  get_seq_int, get_seq_double, set_seq_int, set_seq_double, has_processor, has_repository,
  initialize_recv_thread, execute_vision_command, is_valid, get_offsets,
}
use vision_motion_framework.Vat.Task.{
  TaskResult, tr_keep, tr_next, set_error_and_return, enter_state, enter_state_with_timeout,
  is_deadline_expired, execute, or_fail, or_wait, when,
}

pub data Substep : Type 0 where
  move_safe_z move_origin move_scan_position move_focus_position_z : Substep
  vision_request vision_wait save_result return_home : Substep

pub data PickerDirection : Type 0 where
  center front_right : PickerDirection

pub record Fields (D : Type 0) : Type 0 where
  pub current_scan_direction : PickerDirection
  pub center_position : D × D
  pub focus_position_z : D
  pub fov_interval : D × D
  pub center_offset : D × D
  pub front_right_offset : D × D
  pub camera_id : ℤ
  pub package_id : ℤ
  pub vision_timeout_ms : ℤ
  pub move_timeout_ms : ℤ

abbrev pub TaskWorld : Type 0 → Type 0
TaskWorld D = World Substep (Fields D) D

module _ {D : Type 0} (env : Env D) where
  abbrev pub initial_fields : Fields D
  initial_fields = record {
    current_scan_direction = center;
    center_position = (env.zero, env.zero);
    focus_position_z = env.zero;
    fov_interval = (env.zero, env.zero);
    center_offset = (env.zero, env.zero);
    front_right_offset = (env.zero, env.zero);
    camera_id = pos 0;
    package_id = pos 0;
    vision_timeout_ms = pos 30000;
    move_timeout_ms = pos 7000;
  }

  unfoldable pub on_initialize : M (TaskWorld D) (Unit {0})
  on_initialize = do
    camera ← get_seq_int env "CameraIndex" (pos 0)
    pkg ← get_seq_int env "PkgID" (pos 0)
    motion ← get_seq_int env "motion_timeout_ms" (pos 0)
    vision ← get_seq_int env "vision_timeout_ms" (pos 0)
    interval_x ← get_seq_double env "PickerFOVIntervalX" (env.literal (pos 2) 0)
    interval_y ← get_seq_double env "PickerFOVIntervalY" (env.literal (pos 2) 0)
    w ← get
    set_fields (
        let t = w.fields in
        record t {
          camera_id = camera;
          package_id = pkg;
          move_timeout_ms = motion;
          vision_timeout_ms = vision;
          fov_interval = (interval_x, interval_y);
          current_scan_direction = center;
          center_offset = (env.zero, env.zero);
          front_right_offset = (env.zero, env.zero);
        })
    enter_state move_safe_z

  abbrev pub origin_xy : List D
  origin_xy = env.zero ∷ env.zero ∷ []

  -- The place to measure at. An enumeration has no value for the `default` of the code.
  abbrev pub scan_target : PickerDirection → Fields D → List D
  scan_target center t = let (x, y) = t.center_position in x ∷ y ∷ []
  scan_target front_right t =
      let (x, y) = t.center_position in
      let (dx, dy) = t.fov_interval in env.add x dx ∷ env.sub y dy ∷ []

  abbrev take_center_first : PickerDirection → M (TaskWorld D) (Unit {0})
  take_center_first front_right = pure tt
  take_center_first center = do
    place ← get_position env
    x ← element place 0
    y ← element place 1
    z ← element place 2
    w ← get
    set_fields (let t = w.fields in record t { center_position = (x, y); focus_position_z = z })

  module _ (act : Bool) where
    abbrev raise : M (TaskWorld D) TaskResult
    raise = do
      ok ← move_z env env.zero
      or_fail ok "PickerFOV: MoveToSafeZ failed." do
        w ← get
        enter_state_with_timeout env move_origin w.fields.move_timeout_ms
        pure tr_keep

    unfoldable pub handle_move_safe_z : M (TaskWorld D) TaskResult
    handle_move_safe_z =
        or_fail act "PickerFOV: actuator is null."
          do w ← get; take_center_first w.fields.current_scan_direction; raise

    unfoldable pub handle_move_origin : M (TaskWorld D) TaskResult
    handle_move_origin = or_fail act "PickerFOV: actuator is null." do
      arrived ← is_move_z env env.zero
      or_wait env arrived "PickerFOV: SafeZ timeout." do
        ok ← move env origin_xy narrow
        or_fail ok "PickerFOV: MoveToOrigin failed." do
          w ← get
          enter_state_with_timeout env move_scan_position w.fields.move_timeout_ms
          pure tr_keep

    unfoldable pub handle_move_scan_position : M (TaskWorld D) TaskResult
    handle_move_scan_position = or_fail act "PickerFOV: actuator is null." do
      arrived ← is_move env origin_xy narrow
      or_wait env arrived "PickerFOV: Origin XY timeout." do
        w ← get
        ok ← move env (scan_target w.fields.current_scan_direction w.fields) narrow
        or_fail ok "PickerFOV: XY Move failed." do
          enter_state_with_timeout env move_focus_position_z w.fields.move_timeout_ms
          pure tr_keep

    unfoldable pub handle_move_focus_position_z : M (TaskWorld D) TaskResult
    handle_move_focus_position_z = or_fail act "PickerFOV: actuator is null." do
      w ← get
      arrived ← is_move env (scan_target w.fields.current_scan_direction w.fields) narrow
      or_wait env arrived "PickerFOV: Target XY timeout." do
        ok ← move_z env w.fields.focus_position_z
        or_fail ok "PickerFOV: MoveToFocusZ failed." do enter_state vision_request; pure tr_keep

    unfoldable pub handle_vision_request : M (TaskWorld D) TaskResult
    unfolding execute_vision_command
    handle_vision_request = or_fail act "PickerFOV: actuator is null." do
      w ← get
      arrived ← is_move_z env w.fields.focus_position_z
      or_wait env arrived "PickerFOV: Focus Z timeout." do
        set_light_state env w.fields.camera_id true
        processor ← has_processor
        or_fail processor "PickerFOV: No Vision Processor" do
          initialize_recv_thread env
          request_id ← get_seq_int env "VisionPickerFOVRequestID" (pos 0)
          set_seq_int env "nStatus" request_id
          asked ← execute_vision_command env measure
          or_fail asked "PickerFOV: Vision Command Failed"
              do enter_state_with_timeout env vision_wait w.fields.vision_timeout_ms; pure tr_keep

    abbrev keep_reading : PickerDirection → D × D → M (TaskWorld D) TaskResult
    keep_reading center offset = do
      w ← get
      set_fields (
          let t = w.fields in
          record t { center_offset = offset; current_scan_direction = front_right })
      enter_state move_safe_z
      pure tr_keep
    keep_reading front_right offset = do
      w ← get
      set_fields (let t = w.fields in record t { front_right_offset = offset })
      enter_state save_result
      pure tr_keep

    unfoldable pub measured : M (TaskWorld D) TaskResult
    measured = do
      offset ← get_offsets env
      w ← get
      when act (set_light_state env w.fields.camera_id false)
      keep_reading w.fields.current_scan_direction offset

    unfoldable pub handle_vision_wait : M (TaskWorld D) TaskResult
    handle_vision_wait = do
      expired ← is_deadline_expired env
      or_fail (not expired) "PickerFOV: Vision Timeout" do
        processor ← has_processor
        or_fail processor "PickerFOV: No Vision Processor"
            do valid ← is_valid env; (if valid then measured else pure tr_keep)

    -- The arrival at the height 0 is not waited for.
    unfoldable pub handle_return_home : M (TaskWorld D) TaskResult
    handle_return_home = or_fail act "PickerFOV: actuator is null." do
      ok ← move_z env env.zero
      or_fail ok "PickerFOV: Z Home Return Fail" do
        w ← get
        enter_state_with_timeout env return_home w.fields.move_timeout_ms
        pure tr_next

  abbrev set_pair : String → String → D × D → M (TaskWorld D) (Unit {0})
  set_pair key_x key_y (x, y) = do set_seq_double env key_x x; set_seq_double env key_y y

  abbrev pub offset_delta : D × D → D × D → D × D
  offset_delta (x, y) (x₀, y₀) = (env.sub x x₀, env.sub y y₀)

  unfoldable pub handle_save_result : M (TaskWorld D) TaskResult
  handle_save_result = do
    repo ← has_repository
    or_fail repo "PickerFOV: Repository is null." do
      w ← get
      set_pair "PickerFOVCenterOffsetX" "PickerFOVCenterOffsetY" w.fields.center_offset
      set_pair "PickerFOVFrontRightOffsetX" "PickerFOVFrontRightOffsetY" w.fields.front_right_offset
      set_pair "PickerFOVFrontRightDeltaX" "PickerFOVFrontRightDeltaY"
          (offset_delta w.fields.front_right_offset w.fields.center_offset)
      enter_state return_home
      pure tr_keep

  abbrev pub poll_in : Bool → TaskState Substep → M (TaskWorld D) TaskResult
  poll_in act (substep move_safe_z) = handle_move_safe_z act
  poll_in act (substep move_origin) = handle_move_origin act
  poll_in act (substep move_scan_position) = handle_move_scan_position act
  poll_in act (substep move_focus_position_z) = handle_move_focus_position_z act
  poll_in act (substep vision_request) = handle_vision_request act
  poll_in act (substep vision_wait) = handle_vision_wait act
  poll_in act (substep save_result) = handle_save_result
  poll_in act (substep return_home) = handle_return_home act
  poll_in act _ = set_error_and_return "Unknown state in CLoad1PerformPickerFOVScanningTask"

  unfoldable pub on_poll : Bool → M (TaskWorld D) TaskResult
  on_poll act w = poll_in act w.state w

  unfoldable pub poll : Bool → M (TaskWorld D) TaskResult
  unfolding execute
  poll act = execute on_initialize (on_poll act)
