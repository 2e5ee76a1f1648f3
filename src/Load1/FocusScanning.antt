-- ===== src/Load1/FocusScanning.antt =====
-- Equipment2015/DVH_VAT/Load1/Tasks/CLoad1PerformFocusScanningTask.cpp and its header: measure at the
-- height of a position, and store the heights that follow from it for every location of the camera.
-- `act` says that the actuator is not null.
pub mod Stages
pub mod Storing
pub mod Results
pub mod Invariant
pub mod Measured
use Prim.Native.String.{String}
use vision_motion_framework.Prelude.{
  Bool, true, false, if◌then◌else◌, Option, none, some, List, [], ◌∷◌, ℤ, pos, ltb_ℤ,
}
use vision_motion_framework.Vat.Context.{VisionPosition, is_vision_position_empty}
use vision_motion_framework.Vat.World.{
  World, Env, TaskState, substep, M, pure, get, set_fields, element, ◌>>=◌, ◌>>◌, measure, move_z,
  is_move_z, set_light_state, modify, logged, read_data,
}
use vision_motion_framework.Vat.Access.{
  peek_position, pop_position, has_processor, has_repository, get_seq_int, initialize_recv_thread,
  execute_vision_command, is_valid, load_group, load_z, save_z,
}
use vision_motion_framework.Vat.Task.{
  TaskResult, tr_keep, tr_next, tr_prev, tr_error, enter_state, enter_state_with_timeout, execute,
  or_fail, given_or_fail, when, or_wait,
}

pub data Substep : Type 0 where
  move_down move_wait vision_request vision_wait return_home save_focus_result : Substep

pub record Fields : Type 0 where
  pub camera_id : ℤ
  pub package_id : ℤ
  pub location_ids : List ℤ
  pub move_timeout_ms : ℤ
  pub vision_timeout_ms : ℤ

abbrev pub initial_fields : Fields
initial_fields = record {
  camera_id = pos 0;
  package_id = pos 0;
  location_ids = [];
  move_timeout_ms = pos 7000;
  vision_timeout_ms = pos 60000;
}

abbrev pub TaskWorld : Type 0 → Type 0
TaskWorld D = World Substep Fields D

-- The locations that the task names.
abbrev pub upper_target : ℤ
upper_target = pos 3

abbrev pub target_a : ℤ
target_a = pos 1

abbrev pub target_b : ℤ
target_b = pos 2

abbrev pub load_table1 : ℤ
load_table1 = pos 12

abbrev pub picker : ℤ
picker = pos 20

module _ {D : Type 0} (env : Env D) where
  unfoldable pub on_initialize : M (TaskWorld D) (Unit {0})
  on_initialize = do
    camera ← get_seq_int env "CameraIndex" (pos 0)
    pkg ← get_seq_int env "PkgID" (pos 0)
    w ← get
    set_fields
        (let t = w.fields in record t { camera_id = camera; package_id = pkg; location_ids = [] })
    enter_state move_down

  -- The constants of the plate and the table.
  abbrev pub table_offset : D
  table_offset = env.literal (pos 1563) 2

  abbrev pub jig_offset : D
  jig_offset = env.literal (pos 78) 1

  abbrev pub picker_offset : D
  picker_offset = env.literal (pos 90) 1

  -- What a loop or a series of calls comes to: `none`, or the text with which the handler fails.
  abbrev Failure : Type 0
  Failure = Option String

  abbrev pub unless_failed : M (TaskWorld D) Failure → Failure → M (TaskWorld D) Failure
  unless_failed rest none = rest
  unless_failed rest (some message) = pure (some message)

  abbrev pub write_failure : Bool → Failure
  write_failure true = none
  write_failure false = some "DB Write Fail"

  unfoldable pub save_focus : ℤ → ℤ → ℤ → D → M (TaskWorld D) Failure
  save_focus camera location pkg z = do
    ok ← save_z env camera location pkg z
    pure (write_failure ok)

  abbrev pub save_below : ℤ → ℤ → ℤ → Option D → M (TaskWorld D) Failure
  save_below camera location pkg none = pure (some "DB Read Fail")
  save_below camera location pkg (some upper) =
      save_focus camera location pkg (env.sub upper picker_offset)

  -- One round of the loop over the locations.
  unfoldable pub save_location : ℤ → ℤ → D → ℤ → M (TaskWorld D) Failure
  save_location camera pkg z location =
      if ltb_ℤ location load_table1
      then save_focus camera location pkg (env.add z table_offset)
      else if ltb_ℤ location picker
      then save_focus camera location pkg (env.sub z jig_offset)
      else (load_z env (pos 6) upper_target pkg >>= save_below camera location pkg)

  unfoldable pub save_locations : ℤ → ℤ → D → List ℤ → M (TaskWorld D) Failure
  save_locations camera pkg z [] = pure none
  save_locations camera pkg z (location ∷ locations) =
      save_location camera pkg z location >>= unless_failed (save_locations camera pkg z locations)

  -- The three targets of a camera above 5.
  unfoldable pub save_targets : Bool → ℤ → ℤ → D → M (TaskWorld D) Failure
  save_targets false camera pkg z = pure none
  save_targets true camera pkg z =
      save_focus camera upper_target pkg z
      >>= unless_failed
          (save_focus camera target_a pkg z >>= unless_failed (save_focus camera target_b pkg z))

  abbrev after_saving : Failure → M (TaskWorld D) TaskResult → M (TaskWorld D) TaskResult
  after_saving none rest = rest
  after_saving (some message) rest = or_fail false message rest

  abbrev next_or_again : Bool → M (TaskWorld D) TaskResult
  next_or_again true = pure tr_next
  next_or_again false = do enter_state move_down; pure tr_prev

  module _ (act : Bool) where
    unfoldable pub handle_move_down : M (TaskWorld D) TaskResult
    handle_move_down = or_fail act "Z down failed" do
      position ← peek_position
      given_or_fail position "FocusScanning: Get Position Failed" λ p. do
        z ← element p.pos 2
        ok ← move_z env z
        or_fail ok "Z down failed" do
          w ← get
          enter_state_with_timeout env move_wait w.fields.move_timeout_ms
          pure tr_keep

    unfoldable pub handle_move_wait : M (TaskWorld D) TaskResult
    handle_move_wait = or_fail act "Z Down Fail" do
      position ← peek_position
      given_or_fail position "FocusScanning: Get Position Failed" λ p. do
        z ← element p.pos 2
        arrived ← is_move_z env z
        or_wait env arrived "Z Down Fail" do
          w ← get
          enter_state_with_timeout env vision_request w.fields.move_timeout_ms
          pure tr_keep

    unfoldable pub handle_vision_request : M (TaskWorld D) TaskResult
    unfolding execute_vision_command
    handle_vision_request = or_fail act "No Actuator" do
      w ← get
      set_light_state env w.fields.camera_id true
      vision ← has_processor
      or_fail vision "No Vision Processor" do
        initialize_recv_thread env
        asked ← execute_vision_command env measure
        or_fail asked "Vision Command Failed"
            do enter_state_with_timeout env vision_wait w.fields.vision_timeout_ms; pure tr_keep

    unfoldable pub handle_vision_wait : M (TaskWorld D) TaskResult
    handle_vision_wait = do
      vision ← has_processor
      or_fail vision "No Vision Processor" do
        valid ← is_valid env
        or_wait env valid "Vision Time Out" do
          modify (logged read_data)
          w ← get
          when act (set_light_state env w.fields.camera_id false)
          enter_state return_home
          pure tr_keep

    unfoldable pub handle_return_home : M (TaskWorld D) TaskResult
    handle_return_home = or_fail act "Z Home Return Fail" do
      ok ← move_z env env.zero
      or_fail ok "Z Home Return Fail" do
        w ← get
        enter_state_with_timeout env save_focus_result w.fields.move_timeout_ms
        pure tr_keep

  -- Behind the position and the group of the camera.
  unfoldable pub save_results : D → List ℤ → M (TaskWorld D) TaskResult
  unfolding is_vision_position_empty
  save_results z group = do
    w ← get
    set_fields (let t = w.fields in record t { location_ids = group })
    targets ←
        save_targets (ltb_ℤ (pos 5) w.fields.camera_id) w.fields.camera_id w.fields.package_id z
    after_saving targets do
      locations ← save_locations w.fields.camera_id w.fields.package_id z group
      after_saving locations do w' ← get; next_or_again (is_vision_position_empty w'.ctx)

  unfoldable pub save_height : D → M (TaskWorld D) TaskResult
  save_height z = do
    w ← get
    group ← load_group env w.fields.camera_id
    given_or_fail group "DB Read Fail" (save_results z)

  unfoldable pub save_position : VisionPosition D → M (TaskWorld D) TaskResult
  save_position p = element p.pos 2 >>= save_height

  unfoldable pub save_popped : M (TaskWorld D) TaskResult
  save_popped = do
    position ← pop_position
    given_or_fail position "FocusScanning: Pop Position Failed" save_position

  unfoldable pub handle_save_focus_result : M (TaskWorld D) TaskResult
  handle_save_focus_result = do repo ← has_repository; or_fail repo "DB Access Fail" save_popped

  abbrev pub poll_in : Bool → TaskState Substep → M (TaskWorld D) TaskResult
  poll_in act (substep move_down) = handle_move_down act
  poll_in act (substep move_wait) = handle_move_wait act
  poll_in act (substep vision_request) = handle_vision_request act
  poll_in act (substep vision_wait) = handle_vision_wait act
  poll_in act (substep return_home) = handle_return_home act
  poll_in act (substep save_focus_result) = handle_save_focus_result
  poll_in act _ = pure tr_error

  unfoldable pub on_poll : Bool → M (TaskWorld D) TaskResult
  on_poll act w = poll_in act w.state w

  unfoldable pub poll : Bool → M (TaskWorld D) TaskResult
  unfolding execute
  poll act = execute on_initialize (on_poll act)
