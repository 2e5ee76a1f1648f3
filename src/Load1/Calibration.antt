-- ===== src/Load1/Calibration.antt =====
-- Equipment2015/DVH_VAT/Load1/Tasks/CLoad1PerformCalibrationTask.cpp and its header: measure at the
-- position of the sequence, correct the position by the measured offset, repeat, and store the result.
-- `act` says that the actuator is not null.
pub mod Travel
pub mod Stuck
use Prim.Native.String.{String}
use vision_motion_framework.Prelude.{
  ℕ, suc, ◌≡◌, Bool, true, false, if◌then◌else◌, not, ◌&&◌, Option, none, some, List, [], ◌∷◌, set,
  ℤ, pos, ltb_ℤ, ◌==ℤ◌,
}
use vision_motion_framework.Vat.Context.{VisionPosition, is_vision_position_empty}
use vision_motion_framework.Vat.World.{
  World, Env, TaskState, common_error, substep, M, pure, get, modify, set_fields, element, require,
  ◌>>=◌, ◌>>◌, PitchStatus, narrow, wide, measure, move_z, is_move_z, move, is_move,
  set_light_state,
}
use vision_motion_framework.Vat.Access.{
  peek_position, pop_position, has_repository, set_seq_int, initialize_recv_thread,
  execute_vision_command, is_valid, get_offsets, save_calibration,
}
use vision_motion_framework.Vat.Task.{
  TaskResult, tr_keep, tr_next, tr_error, enter_state, enter_common_state, enter_state_with_timeout,
  is_deadline_expired, set_error_and_return, execute, or_fail, when, or_wait,
}

pub data Substep : Type 0 where
  move_safe_z move_origin move_calibration_position_xy move_focus_position_z : Substep
  vision_request vision_wait save_calibration_result : Substep

pub record Fields (D : Type 0) : Type 0 where
  pub location_id : ℤ
  pub package_id : ℤ
  pub camera_id : ℤ
  pub target_position : List D
  pub vision_timeout_ms : ℤ
  pub move_timeout_ms : ℤ
  pub inspection_count : ℕ
  pub max_inspection_count : ℤ
  pub current_pitch_mode : PitchStatus
  pub is_wide_check : Bool

abbrev pub initial_fields : {D : Type 0} → Fields D
initial_fields = record {
  location_id = pos 0;
  package_id = pos 0;
  camera_id = pos 0;
  target_position = [];
  vision_timeout_ms = pos 10000;
  move_timeout_ms = pos 7000;
  inspection_count = 0;
  max_inspection_count = pos 0;
  current_pitch_mode = narrow;
  is_wide_check = false;
}

abbrev pub TaskWorld : Type 0 → Type 0
TaskWorld D = World Substep (Fields D) D

-- The part that the vision is told to move, by the location.
unfoldable pub move_part : ℤ → Option ℤ
move_part location =
    if location ==ℤ pos 13
    then some (pos 4)
    else if location ==ℤ pos 5
    then some (pos 1)
    else if location ==ℤ pos 1
    then some (pos 5)
    else if location ==ℤ pos 2
    then some (pos 6)
    else if location ==ℤ pos 3
    then some (pos 0)
    else if location ==ℤ pos 12
    then some (pos 3)
    else none

abbrev is_narrow : PitchStatus → Bool
is_narrow narrow = true
is_narrow wide = false

abbrev pub with_position : {D : Type 0} → Option (VisionPosition D) → Fields D → Fields D
with_position none t = t
with_position (some p) t = record t { target_position = p.pos; location_id = p.locate_id }

module _ {D : Type 0} (env : Env D) where
  -- The block behind the empty `else` is not bound to it: it is executed in either case, and the
  -- statements behind it never.
  unfoldable pub on_initialize : M (TaskWorld D) (Unit {0})
  on_initialize = do
    position ← peek_position
    w ← get
    set_fields (with_position position w.fields)
    enter_common_state common_error

  abbrev origin_xy : List D
  origin_xy = env.zero ∷ env.zero ∷ []

  abbrev set_move_part : Option ℤ → M (TaskWorld D) (Unit {0})
  set_move_part none = pure tt
  set_move_part (some part) = set_seq_int env "nMovePart" part

  -- The correction: added for the cameras below 6, subtracted for the others.
  abbrev corrected : Bool → D → D → D
  corrected true a b = env.add a b
  corrected false a b = env.sub a b

  abbrev correct : D × D → M (TaskWorld D) (Unit {0})
  correct (x, y) = do
    w ← get
    x₀ ← element w.fields.target_position 0
    y₀ ← element w.fields.target_position 1
    set_fields (
        let t = w.fields in
        let low = ltb_ℤ t.camera_id (pos 6) in
        record t {
          target_position =
              set (set t.target_position 0 (corrected low x₀ x)) 1 (corrected low y₀ y);
        })

  module _ (act : Bool) where
    unfoldable pub handle_move_safe_z : M (TaskWorld D) TaskResult
    handle_move_safe_z = or_fail act "Calibration: actuator is null." do
      ok ← move_z env env.zero
      or_fail ok "Calibration: MoveToSafeZ failed." do
        w ← get
        enter_state_with_timeout env move_origin w.fields.move_timeout_ms
        pure tr_keep

    unfoldable pub handle_move_origin : M (TaskWorld D) TaskResult
    handle_move_origin = or_fail act "Calibration: actuator is null." do
      arrived ← is_move_z env env.zero
      or_wait env arrived "Calibration: SafeZ timeout." do
        w ← get
        ok ← move env origin_xy w.fields.current_pitch_mode
        or_fail ok "Calibration: MoveToOrigin failed." do
          enter_state_with_timeout env move_calibration_position_xy w.fields.move_timeout_ms
          pure tr_keep

    unfoldable pub handle_move_calibration_position_xy : M (TaskWorld D) TaskResult
    handle_move_calibration_position_xy = or_fail act "Calibration: actuator is null." do
      w ← get
      arrived ← is_move env origin_xy w.fields.current_pitch_mode
      or_wait env arrived "Calibration: Origin XY timeout." do
        ok ← move env w.fields.target_position w.fields.current_pitch_mode
        or_fail ok "Calibration: MoveToCalibrationPos failed." do
          enter_state_with_timeout env move_focus_position_z w.fields.move_timeout_ms
          pure tr_keep

    unfoldable pub handle_move_focus_position_z : M (TaskWorld D) TaskResult
    handle_move_focus_position_z = or_fail act "Calibration: actuator is null." do
      w ← get
      arrived ← is_move env w.fields.target_position w.fields.current_pitch_mode
      or_wait env arrived "Calibration: FocusPos timeout." do
        z ← element w.fields.target_position 2
        ok ← move_z env z
        or_fail ok "Calibration: MoveToFocusZ failed." do enter_state vision_request; pure tr_keep

    unfoldable pub handle_vision_request : M (TaskWorld D) TaskResult
    unfolding execute_vision_command
    handle_vision_request = or_fail act "Calibration: actuator is null." do
      w ← get
      z ← element w.fields.target_position 2
      arrived ← is_move_z env z
      or_wait env arrived "Calibration: MoveZ timeout." do
        set_light_state env w.fields.camera_id true
        set_move_part (move_part w.fields.location_id)
        initialize_recv_thread env
        asked ← execute_vision_command env measure
        or_fail asked "Vision Command Failed"
            do enter_state_with_timeout env vision_wait w.fields.vision_timeout_ms; pure tr_keep

    -- Whether another inspection follows.
    abbrev inspect_again : Bool → M (TaskWorld D) TaskResult
    inspect_again true = do
      w ← get
      set_fields (let t = w.fields in record t { inspection_count = suc t.inspection_count })
      enter_state move_safe_z
      pure tr_keep
    inspect_again false = do
      w ← get
      set_fields (let t = w.fields in record t { inspection_count = 0 })
      enter_state save_calibration_result
      pure tr_keep

    unfoldable pub measured : M (TaskWorld D) TaskResult
    measured = do
      offsets ← get_offsets env
      require act
      w ← get
      set_light_state env w.fields.camera_id false
      correct offsets
      inspect_again (ltb_ℤ (pos w.fields.inspection_count) w.fields.max_inspection_count)

    unfoldable pub handle_vision_wait : M (TaskWorld D) TaskResult
    handle_vision_wait = do
      expired ← is_deadline_expired env
      or_fail (not expired) "Vision Timeout"
          do valid ← is_valid env; (if valid then measured else pure tr_keep)

  abbrev store : Bool → M (TaskWorld D) (Unit {0})
  store false = pure tt
  store true = do
    w ← get
    x ← element w.fields.target_position 0
    y ← element w.fields.target_position 1
    save_calibration w.fields.camera_id w.fields.location_id w.fields.package_id x y

  -- The position is used up: the next one, if there is one.
  abbrev next_position : Bool → M (TaskWorld D) TaskResult
  next_position true = pure tr_next
  next_position false = do
    position ← peek_position
    w ← get
    set_fields (with_position position w.fields)
    enter_state_with_timeout env move_safe_z w.fields.move_timeout_ms
    pure tr_next

  abbrev widen : Bool → M (TaskWorld D) TaskResult
  widen true = do
    w ← get
    set_fields (let t = w.fields in record t { current_pitch_mode = wide })
    enter_state move_safe_z
    pure tr_next
  widen false = do
    w ← get
    set_fields (let t = w.fields in record t { current_pitch_mode = narrow })
    popped ← pop_position
    w' ← get
    next_position (is_vision_position_empty w'.ctx)

  unfoldable pub handle_save_calibration_result : M (TaskWorld D) TaskResult
  unfolding is_vision_position_empty
  handle_save_calibration_result = do
    repo ← has_repository
    store repo
    w ← get
    widen (w.fields.is_wide_check && is_narrow w.fields.current_pitch_mode)

  abbrev pub poll_in : Bool → TaskState Substep → M (TaskWorld D) TaskResult
  poll_in act (substep move_safe_z) = handle_move_safe_z act
  poll_in act (substep move_origin) = handle_move_origin act
  poll_in act (substep move_calibration_position_xy) = handle_move_calibration_position_xy act
  poll_in act (substep move_focus_position_z) = handle_move_focus_position_z act
  poll_in act (substep vision_request) = handle_vision_request act
  poll_in act (substep vision_wait) = handle_vision_wait act
  poll_in act (substep save_calibration_result) = handle_save_calibration_result
  poll_in act _ = pure tr_error

  unfoldable pub on_poll : Bool → M (TaskWorld D) TaskResult
  on_poll act w = poll_in act w.state w

  unfoldable pub poll : Bool → M (TaskWorld D) TaskResult
  unfolding execute
  poll act = execute on_initialize (on_poll act)
