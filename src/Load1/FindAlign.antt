-- ===== src/Load1/FindAlign.antt =====
-- Equipment2015/DVH_VAT/Load1/Tasks/CLoad1FindAlignPosTask.cpp and its header: correct every position of
-- the sequence by measured offsets, store it, and put the corrected positions back for the tasks behind.
-- `act` says that the actuator is not null.
pub mod Travel
pub mod Ids
pub mod Positions
pub mod HandedOn
use vision_motion_framework.Prelude.{
  ℕ, suc, Bool, true, false, if◌then◌else◌, not, Option, none, some, List, [], ◌∷◌, ◌++◌, set, ℤ,
  pos, ltb_ℤ,
}
use vision_motion_framework.Vat.Context.{VisionPosition, is_vision_position_empty}
use vision_motion_framework.Vat.World.{
  World, Env, TaskState, common_error, substep, M, pure, get, set_fields, element, require, ◌>>=◌,
  ◌>>◌, narrow, measure, move_z, is_move_z, move, is_move, set_light_state,
}
use vision_motion_framework.Vat.Access.{
  peek_position, pop_position, add_position, has_repository, get_seq_int, set_seq_int,
  initialize_recv_thread, execute_vision_command, is_valid, get_offsets, save_calibration,
}
use vision_motion_framework.Vat.Task.{
  TaskResult, tr_keep, tr_next, tr_prev, tr_error, enter_state, enter_common_state,
  enter_state_with_timeout, is_deadline_expired, execute, or_fail, or_wait,
}

pub data Substep : Type 0 where
  move_safe_z move_origin move_calibration_pos_xy move_focus_pos_z : Substep
  vision_request vision_wait save_calibration_result : Substep

pub record Fields (D : Type 0) : Type 0 where
  pub target_position : List D
  pub aligned_positions : List (VisionPosition D)
  pub location_id : ℤ
  pub package_id : ℤ
  pub camera_id : ℤ
  pub vision_timeout_ms : ℤ
  pub move_timeout_ms : ℤ
  pub inspection_count : ℕ
  pub max_inspection_count : ℤ

abbrev pub initial_fields : {D : Type 0} → Fields D
initial_fields = record {
  target_position = [];
  aligned_positions = [];
  location_id = pos 0;
  package_id = pos 0;
  camera_id = pos 0;
  vision_timeout_ms = pos 10000;
  move_timeout_ms = pos 7000;
  inspection_count = 0;
  max_inspection_count = pos 0;
}

abbrev pub TaskWorld : Type 0 → Type 0
TaskWorld D = World Substep (Fields D) D

-- A position that no call has filled.
abbrev pub no_position : {D : Type 0} → VisionPosition D
no_position = record { pos = []; locate_id = pos 0; vision_request_id = pos 0 }

abbrev pub position_or :
    {D : Type 0} → Option (VisionPosition D) → VisionPosition D → VisionPosition D
position_or none p = p
position_or (some q) p = q

abbrev pub with_position : {D : Type 0} → VisionPosition D → Fields D → Fields D
with_position p t = record t { target_position = p.pos; location_id = p.locate_id }

module _ {D : Type 0} (env : Env D) where
  -- Behind the position.
  unfoldable pub read_parameters : M (TaskWorld D) (Unit {0})
  read_parameters = do
    w ← get
    count ← get_seq_int env "maxInspCount" (pos 0)
    timeout ← get_seq_int env "motion_timeout_ms" w.fields.move_timeout_ms
    camera ← get_seq_int env "CameraIndex" (pos 0)
    pkg ← get_seq_int env "PkgID" (pos 0)
    set_fields (
        let t = w.fields in
        record t {
          max_inspection_count = (if ltb_ℤ count (pos 0) then pos 0 else count);
          move_timeout_ms = (if ltb_ℤ (pos 0) timeout then timeout else t.move_timeout_ms);
          camera_id = camera;
          package_id = pkg;
          inspection_count = 0;
        })
    enter_state vision_request

  abbrev initialize_at : Option (VisionPosition D) → M (TaskWorld D) (Unit {0})
  initialize_at none = enter_common_state common_error
  initialize_at (some p) = do w ← get; set_fields (with_position p w.fields); read_parameters

  unfoldable pub on_initialize : M (TaskWorld D) (Unit {0})
  on_initialize = do position ← peek_position; initialize_at position

  abbrev origin_xy : List D
  origin_xy = env.zero ∷ env.zero ∷ []

  abbrev origin_position : List D
  origin_position = env.zero ∷ env.zero ∷ env.zero ∷ env.zero ∷ env.zero ∷ []

  -- The correction: added for the cameras below 6, subtracted for the others.
  abbrev pub corrected : Bool → D → D → D
  corrected true a b = env.add a b
  corrected false a b = env.sub a b

  abbrev correct : D × D → M (TaskWorld D) (Unit {0})
  correct (x, y) = do
    w ← get
    x₀ ← element w.fields.target_position 0
    y₀ ← element w.fields.target_position 1
    set_fields (
        let t = w.fields in
        let low = ltb_ℤ t.camera_id (pos 6) in
        record t {
          target_position =
              set (set t.target_position 0 (corrected low x₀ x)) 1 (corrected low y₀ y);
        })

  module _ (act : Bool) where
    unfoldable pub handle_move_safe_z : M (TaskWorld D) TaskResult
    handle_move_safe_z = or_fail act "Calibration: actuator is null." do
      ok ← move_z env env.zero
      or_fail ok "Calibration: MoveToSafeZ failed." do
        w ← get
        enter_state_with_timeout env move_origin w.fields.move_timeout_ms
        pure tr_keep

    unfoldable pub handle_move_origin : M (TaskWorld D) TaskResult
    handle_move_origin = or_fail act "Calibration: actuator is null." do
      arrived ← is_move_z env env.zero
      or_wait env arrived "Calibration: SafeZ timeout." do
        ok ← move env origin_position narrow
        or_fail ok "Calibration: MoveToOrigin failed." do
          w ← get
          enter_state_with_timeout env move_calibration_pos_xy w.fields.move_timeout_ms
          pure tr_keep

    unfoldable pub handle_move_calibration_xy : M (TaskWorld D) TaskResult
    handle_move_calibration_xy = or_fail act "Calibration: actuator is null." do
      arrived ← is_move env origin_xy narrow
      or_wait env arrived "Calibration: Origin XY timeout." do
        w ← get
        ok ← move env w.fields.target_position narrow
        or_fail ok "Calibration: MoveToCalibrationPos failed."
            do enter_state_with_timeout env move_focus_pos_z w.fields.move_timeout_ms; pure tr_keep

    unfoldable pub handle_move_focus_z : M (TaskWorld D) TaskResult
    handle_move_focus_z = or_fail act "Calibration: actuator is null." do
      w ← get
      arrived ← is_move env w.fields.target_position narrow
      or_wait env arrived "Calibration: FocusPos timeout." do
        z ← element w.fields.target_position 2
        ok ← move_z env z
        or_fail ok "Calibration: MoveToFocusZ failed." do enter_state vision_request; pure tr_keep

    -- The actuator is used without a test.
    unfoldable pub handle_vision_request : M (TaskWorld D) TaskResult
    unfolding execute_vision_command
    handle_vision_request = do
      require act
      w ← get
      z ← element w.fields.target_position 2
      arrived ← is_move_z env z
      or_wait env arrived "Calibration: FocusPosZ timeout." do
        set_light_state env w.fields.camera_id true
        initialize_recv_thread env
        position ← peek_position
        set_seq_int env "InspectionType" (position_or position no_position).vision_request_id
        asked ← execute_vision_command env measure
        or_fail asked "Vision Command Failed"
            do enter_state_with_timeout env vision_wait w.fields.vision_timeout_ms; pure tr_keep

    -- Whether another inspection follows.
    abbrev inspect_again : Bool → M (TaskWorld D) TaskResult
    inspect_again true = do
      w ← get
      set_fields (let t = w.fields in record t { inspection_count = suc t.inspection_count })
      enter_state move_safe_z
      pure tr_keep
    inspect_again false = do
      w ← get
      set_fields (let t = w.fields in record t { inspection_count = 0 })
      enter_state save_calibration_result
      pure tr_keep

    unfoldable pub measured : M (TaskWorld D) TaskResult
    measured = do
      offsets ← get_offsets env
      correct offsets
      require act
      w ← get
      set_light_state env w.fields.camera_id false
      inspect_again (ltb_ℤ (pos w.fields.inspection_count) w.fields.max_inspection_count)

    unfoldable pub handle_vision_wait : M (TaskWorld D) TaskResult
    handle_vision_wait = do
      expired ← is_deadline_expired env
      or_fail (not expired) "Vision Timeout"
          do valid ← is_valid env; (if valid then measured else pure tr_keep)

  abbrev store : Bool → M (TaskWorld D) (Unit {0})
  store false = pure tt
  store true = do
    w ← get
    x ← element w.fields.target_position 0
    y ← element w.fields.target_position 1
    save_calibration w.fields.camera_id w.fields.location_id w.fields.package_id x y

  -- The position that was popped, with the corrected place.
  abbrev align : Option (VisionPosition D) → M (TaskWorld D) (Unit {0})
  align popped = do
    w ← get
    set_fields (
        let t = w.fields in
        let p = position_or popped no_position in
        record t {
          aligned_positions = t.aligned_positions ++ (record p { pos = t.target_position } ∷ []);
        })

  unfoldable pub put_back : List (VisionPosition D) → M (TaskWorld D) (Unit {0})
  put_back [] = pure tt
  put_back (p ∷ ps) = do add_position p; put_back ps

  -- All positions are aligned, or the next one follows.
  abbrev finish : Bool → M (TaskWorld D) TaskResult
  finish true = do
    w ← get
    put_back w.fields.aligned_positions
    set_fields (let t = w.fields in record t { aligned_positions = [] })
    pure tr_next
  finish false = do
    w ← get
    position ← peek_position
    set_fields (with_position (position_or position no_position) w.fields)
    enter_state_with_timeout env vision_request w.fields.move_timeout_ms
    pure tr_prev

  unfoldable pub align_next : M (TaskWorld D) TaskResult
  unfolding is_vision_position_empty
  align_next = do
    popped ← pop_position
    align popped
    w ← get
    finish (is_vision_position_empty w.ctx)

  unfoldable pub handle_save_calibration_result : M (TaskWorld D) TaskResult
  handle_save_calibration_result = do repo ← has_repository; store repo; align_next

  abbrev pub poll_in : Bool → TaskState Substep → M (TaskWorld D) TaskResult
  poll_in act (substep move_safe_z) = handle_move_safe_z act
  poll_in act (substep move_origin) = handle_move_origin act
  poll_in act (substep move_calibration_pos_xy) = handle_move_calibration_xy act
  poll_in act (substep move_focus_pos_z) = handle_move_focus_z act
  poll_in act (substep vision_request) = handle_vision_request act
  poll_in act (substep vision_wait) = handle_vision_wait act
  poll_in act (substep save_calibration_result) = handle_save_calibration_result
  poll_in act _ = pure tr_error

  unfoldable pub on_poll : Bool → M (TaskWorld D) TaskResult
  on_poll act w = poll_in act w.state w

  unfoldable pub poll : Bool → M (TaskWorld D) TaskResult
  unfolding execute
  poll act = execute on_initialize (on_poll act)
