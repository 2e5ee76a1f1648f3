-- ===== src/Load1/FovScanning.antt =====
-- Equipment2015/DVH_VAT/Load1/Tasks/CLoad1PerformFOVScanningTask.cpp and its header: measure at four
-- places round the place where the task starts. `act` says that the actuator is not null.
pub mod Invariant
pub mod Waiting
pub mod Coverage
pub mod Centre
use vision_motion_framework.Prelude.{
  ◌≡◌, Bool, true, false, if◌then◌else◌, not, Option, none, some, List, [], ◌∷◌, ℤ, pos,
}
use vision_motion_framework.Vat.Context.{is_vision_position_empty}
use vision_motion_framework.Vat.World.{
  World, Env, TaskState, substep, M, pure, get, modify, set_fields, element, ◌>>=◌, ◌>>◌, narrow,
  measure, move_z, is_move_z, move, is_move, get_position, set_light_state,
}
use vision_motion_framework.Vat.Access.{
  get_seq_int, set_seq_int, has_processor, initialize_recv_thread, execute_vision_command, is_valid,
  get_offsets, pop_position,
}
use vision_motion_framework.Vat.Task.{
  TaskResult, tr_keep, tr_next, tr_prev, tr_error, enter_state, enter_state_with_timeout,
  is_deadline_expired, set_error_and_return, execute, or_fail, when, or_wait,
}

pub data Substep : Type 0 where
  move_safe_z move_origin move_scan_position move_focus_position_z vision_request vision_wait
        return_home :
      Substep

pub data FovDirection : Type 0 where
  center rear front left_side right_side : FovDirection

-- `static_cast<FOVDirection>(direction + 1)`, which the code does before RIGHT_SIDE only.
abbrev pub next_direction : FovDirection → FovDirection
next_direction center = rear
next_direction rear = front
next_direction front = left_side
next_direction left_side = right_side
next_direction right_side = right_side

abbrev pub is_center : FovDirection → Bool
is_center center = true
is_center _ = false

-- `static_cast<int>(direction) < RIGHT_SIDE`.
abbrev pub before_right_side : FovDirection → Bool
before_right_side right_side = false
before_right_side _ = true

pub record Fields (D : Type 0) : Type 0 where
  pub current_scan_direction : FovDirection
  pub center_position_x : D
  pub center_position_y : D
  pub focus_position_z : D
  pub camera_id : ℤ
  pub target_position_x : D
  pub target_position_y : D
  pub fov_interval : D
  pub vision_timeout_ms : ℤ
  pub move_timeout_ms : ℤ

abbrev pub TaskWorld : Type 0 → Type 0
TaskWorld D = World Substep (Fields D) D

module _ {D : Type 0} (env : Env D) where
  abbrev pub initial_fields : Fields D
  initial_fields = record {
    current_scan_direction = center;
    center_position_x = env.zero;
    center_position_y = env.zero;
    focus_position_z = env.zero;
    camera_id = pos 0;
    target_position_x = env.zero;
    target_position_y = env.zero;
    fov_interval = env.literal (pos 2) 0;
    vision_timeout_ms = pos 30000;
    move_timeout_ms = pos 7000;
  }

  unfoldable pub on_initialize : M (TaskWorld D) (Unit {0})
  on_initialize = do
    camera ← get_seq_int env "CameraIndex" (pos 0)
    w ← get
    set_fields (
        let t = w.fields in
        record t {
          camera_id = camera;
          fov_interval = env.literal (pos 2) 0;
          current_scan_direction = center;
        })
    enter_state move_safe_z

  abbrev origin_xy : List D
  origin_xy = env.zero ∷ env.zero ∷ []

  abbrev pub target_xy : Fields D → List D
  target_xy t = t.target_position_x ∷ t.target_position_y ∷ []

  -- The `switch` on the direction; `none` is its default.
  abbrev pub aim : FovDirection → Fields D → Option (Fields D)
  aim rear t = some (record t {
    target_position_x = t.center_position_x;
    target_position_y = env.add t.center_position_y t.fov_interval;
  })
  aim front t = some (record t {
    target_position_x = t.center_position_x;
    target_position_y = env.sub t.center_position_y t.fov_interval;
  })
  aim left_side t = some (record t {
    target_position_x = env.sub t.center_position_x t.fov_interval;
    target_position_y = t.center_position_y;
  })
  aim right_side t = some (record t {
    target_position_x = env.add t.center_position_x t.fov_interval;
    target_position_y = t.center_position_y;
  })
  aim center t = none

  -- The first part of HandleMoveSafeZ: the place where the scan starts is its centre.
  abbrev pub take_center : FovDirection → M (TaskWorld D) (Unit {0})
  take_center center = do
    position ← get_position env
    x ← element position 0
    y ← element position 1
    z ← element position 2
    w ← get
    set_fields (
        let t = w.fields in
        record t {
          target_position_x = x;
          center_position_x = x;
          target_position_y = y;
          center_position_y = y;
          focus_position_z = z;
          current_scan_direction = rear;
        })
  take_center _ = pure tt

  -- The second part.
  unfoldable pub lift : M (TaskWorld D) TaskResult
  lift = do
    ok ← move_z env env.zero
    or_fail ok "Calibration: MoveToSafeZ failed."
        do w ← get; enter_state_with_timeout env move_origin w.fields.move_timeout_ms; pure tr_keep

  module _ (act : Bool) where
    unfoldable pub handle_move_safe_z : M (TaskWorld D) TaskResult
    handle_move_safe_z =
        or_fail act "Calibration: actuator is null."
          do w ← get; take_center w.fields.current_scan_direction; lift

    unfoldable pub handle_move_origin : M (TaskWorld D) TaskResult
    handle_move_origin = or_fail act "Calibration: actuator is null." do
      arrived ← is_move_z env env.zero
      or_wait env arrived "Calibration: SafeZ timeout." do
        ok ← move env origin_xy narrow
        or_fail ok "Calibration: MoveToOrigin failed." do
          w ← get
          enter_state_with_timeout env move_scan_position w.fields.move_timeout_ms
          pure tr_keep

    abbrev travel_to : Option (Fields D) → M (TaskWorld D) TaskResult
    travel_to none = do
      w ← get
      set_fields (
          let t = w.fields in
          record t {
            target_position_x = t.center_position_x;
            target_position_y = t.center_position_y;
          })
      enter_state_with_timeout env return_home w.fields.move_timeout_ms
      pure tr_keep
    travel_to (some aimed) = do
      set_fields aimed
      ok ← move env (target_xy aimed) narrow
      or_fail ok "XY Move Fail"
          do enter_state_with_timeout env move_focus_position_z aimed.move_timeout_ms; pure tr_keep

    unfoldable pub handle_move_scan_position : M (TaskWorld D) TaskResult
    handle_move_scan_position = or_fail act "FOV: actuator is null." do
      arrived ← is_move env origin_xy narrow
      or_wait env arrived "FOV: Origin XY timeout."
          do w ← get; travel_to (aim w.fields.current_scan_direction w.fields)

    unfoldable pub handle_move_focus_position_z : M (TaskWorld D) TaskResult
    handle_move_focus_position_z = or_fail act "FOV: actuator is null." do
      w ← get
      arrived ← is_move env (target_xy w.fields) narrow
      or_wait env arrived "FOV: FocusPos timeout." do
        ok ← move_z env w.fields.focus_position_z
        or_fail ok "FOV: MoveToFocusZ failed." do enter_state vision_request; pure tr_keep

    unfoldable pub handle_vision_request : M (TaskWorld D) TaskResult
    unfolding execute_vision_command
    handle_vision_request = or_fail act "FOV: actuator is null." do
      w ← get
      arrived ← is_move_z env w.fields.focus_position_z
      or_wait env arrived "Z Move Time Out" do
        request_id ← get_seq_int env "VisionFOVRequestID" (pos 7)
        set_seq_int env "nStatus" request_id
        set_light_state env w.fields.camera_id true
        processor ← has_processor
        or_fail processor "No Vision Processor" do
          initialize_recv_thread env
          asked ← execute_vision_command env measure
          or_fail asked "Vision Command Failed"
              do enter_state_with_timeout env vision_wait w.fields.vision_timeout_ms; pure tr_keep

    abbrev pub go_home : M (TaskWorld D) TaskResult
    go_home = do enter_state return_home; pure tr_keep

    abbrev pub go_back : M (TaskWorld D) TaskResult
    go_back = do
      popped ← pop_position
      w ← get
      set_fields (let t = w.fields in record t { current_scan_direction = center })
      enter_state vision_request
      pure tr_prev

    abbrev pub scan_next : M (TaskWorld D) TaskResult
    scan_next = do
      w ← get
      set_fields (
          let t = w.fields in
          record t { current_scan_direction = next_direction t.current_scan_direction })
      enter_state move_safe_z
      pure tr_keep

    -- The end of HandleVisionWait: the next direction, the next position of the sequence, or home.
    abbrev pub go_on : Bool → Bool → M (TaskWorld D) TaskResult
    go_on true no_position = scan_next
    go_on false true = go_home
    go_on false false = go_back

    unfoldable pub measured : M (TaskWorld D) TaskResult
    unfolding is_vision_position_empty
    measured = do
      offsets ← get_offsets env
      w ← get
      when act (set_light_state env w.fields.camera_id false)
      go_on (before_right_side w.fields.current_scan_direction) (is_vision_position_empty w.ctx)

    unfoldable pub handle_vision_wait : M (TaskWorld D) TaskResult
    handle_vision_wait = do
      expired ← is_deadline_expired env
      or_fail (not expired) "Vision Timeout" do
        processor ← has_processor
        or_fail processor "No Vision Processor"
            do valid ← is_valid env; (if valid then measured else pure tr_keep)

    unfoldable pub handle_return_home : M (TaskWorld D) TaskResult
    handle_return_home =
        or_fail act "Z Home Return Fail"
          do ok ← move_z env env.zero; or_fail ok "Z Home Return Fail" (pure tr_next)

    abbrev pub poll_in : TaskState Substep → M (TaskWorld D) TaskResult
    poll_in (substep move_safe_z) = handle_move_safe_z
    poll_in (substep move_origin) = handle_move_origin
    poll_in (substep move_scan_position) = handle_move_scan_position
    poll_in (substep move_focus_position_z) = handle_move_focus_position_z
    poll_in (substep vision_request) = handle_vision_request
    poll_in (substep vision_wait) = handle_vision_wait
    poll_in (substep return_home) = handle_return_home
    poll_in _ = pure tr_error

    unfoldable pub on_poll : M (TaskWorld D) TaskResult
    on_poll w = poll_in w.state w

    unfoldable pub poll : M (TaskWorld D) TaskResult
    unfolding execute
    poll = execute on_initialize on_poll
