-- ===== src/Load1/Examples.antt =====
-- Concrete polls of the tasks of Load1: lengths are whole numbers, and the actuator and the vision do
-- what they are asked at once.
pub mod Focus
pub mod Align
pub mod Backlash
pub mod Pcd
pub mod PcdSequence
pub mod HandPitch
pub mod PickerFov
use vision_motion_framework.Prelude.{
  ℕ, ◌+◌, ◌-◌, ◌*◌, ◌/◌, ◌==◌, ltb, ◌≡◌, refl, true, false, Option, none, some, List, [], ◌∷◌,
  replicate, pos,
}
use vision_motion_framework.Vat.Context.{
  Context, VisionPosition, convert, convert_or, get_param, get_param_as, set_seq_param, assign,
  back, find, is_empty, pop_vision_position, peek_vision_position, is_vision_position_empty,
}
use vision_motion_framework.Vat.World.{World, Env, number, Outcome, ret, throw, undefined, substep}
use vision_motion_framework.Vat.Access.{execute_vision_command}
use vision_motion_framework.Vat.Task.{TaskResult, tr_next, tr_error, new_world, execute}
use vision_motion_framework.Vat.Polling.{Poll, run, resume, LeavesSome}
use vision_motion_framework.Vat.Travel.{TravelsUp}
use vision_motion_framework.Load1.MoveToStart.Arrival.{HasArrived, run-Promises}
use vision_motion_framework.Load1.MoveToStart
use vision_motion_framework.Load1.FovScanning
use vision_motion_framework.Load1.FovScanning.Invariant.{All}
use vision_motion_framework.Load1.FovScanning.Coverage.{fov_run-TravelsUp, fov_next-All}
use vision_motion_framework.Load1.FovScanning.Centre.{SameCentre, fov_run-SameCentre}
use vision_motion_framework.Load1.Calibration
use vision_motion_framework.Load1.Calibration.Stuck.{calibration_poll-fails}

abbrev pub env : Env ℕ
env = record {
  zero = 0;
  add = λ a b. a + b;
  sub = λ a b. a - b;
  mul = λ a b. a * b;
  div = λ a b. a / b;
  equal = λ a b. a == b;
  less = λ a b. ltb a b;
  literal = λ n k. 2;
  parse_int = λ text. none;
  parse_double = λ text. none;
  format_int = λ n. "";
  format_double = λ d. "";
  move_z = λ log z. true;
  is_move_z = λ log z. true;
  move = λ log p s. true;
  is_move = λ log p s. true;
  position = λ log. 10 ∷ 20 ∷ 30 ∷ [];
  pulse = λ log. 7 ∷ 8 ∷ [];
  request = λ log cmd params. true;
  valid = λ log. true;
  x_offset = λ log. number 1;
  y_offset = λ log. number 1;
  clock = λ log. 0;
  load_group = λ log camera. none;
  load_z = λ log camera location pkg. none;
  save_z = λ log camera location pkg z. true;
}

abbrev pub context : List (VisionPosition ℕ) → Context ℕ
context positions = record {
  processor = true;
  repo = true;
  last_error = "";
  stop_requested = false;
  seq_params = [];
  vision_params = [];
  vision_positions = positions;
}

abbrev pub position : VisionPosition ℕ
position = record { pos = 3 ∷ 4 ∷ 5 ∷ []; locate_id = pos 1; vision_request_id = pos 1 }

abbrev pub polls : ℕ → Context ℕ → List (Poll ℕ)
polls n c = replicate n (record { actuator = true; context = c })

module _ {S T : Type 0} where
  abbrev pub or_start : World S T ℕ → Option (World S T ℕ) → World S T ℕ
  or_start w none = w
  or_start w (some w') = w'

  abbrev pub left_by : World S T ℕ → Outcome (World S T ℕ) TaskResult → World S T ℕ
  left_by w (ret r w') = w'
  left_by w (throw e w') = w'
  left_by w undefined = w

abbrev pub at_position : Context ℕ
at_position = context (position ∷ [])

abbrev start : MoveToStart.TaskWorld ℕ
start = new_world MoveToStart.initial_fields at_position []

-- Four polls lead to the state that the fifth one leaves with NEXT.
abbrev before_arrival : MoveToStart.TaskWorld ℕ
before_arrival = or_start start (run (MoveToStart.poll env) (polls 4 at_position) start)

abbrev arrival : MoveToStart.TaskWorld ℕ
arrival = left_by before_arrival (MoveToStart.poll env true (resume at_position before_arrival))

run-Promises_example : HasArrived env arrival
unfolding run MoveToStart.poll MoveToStart.on_poll MoveToStart.on_initialize
    MoveToStart.handle_move_safe_z MoveToStart.handle_move_origin
    MoveToStart.handle_move_target_position_xy MoveToStart.handle_move_target_position_z
    MoveToStart.handle_complete_move new_world execute peek_vision_position back get_param_as
    convert convert_or get_param find is_empty
run-Promises_example =
    run-Promises env (polls 4 at_position) at_position at_position true before_arrival tr_next
      arrival refl refl

abbrev nowhere : Context ℕ
nowhere = context []

abbrev scan : FovScanning.TaskWorld ℕ
scan = new_world (FovScanning.initial_fields env) nowhere []

fov_run-TravelsUp_example :
    LeavesSome (λ w. TravelsUp 0 w.log) (run (FovScanning.poll env) (polls 9 nowhere) scan)
fov_run-TravelsUp_example = fov_run-TravelsUp env (polls 9 nowhere) nowhere

-- Six polls for each of the four places; the one behind them goes home with NEXT.
abbrev all_scanned : FovScanning.TaskWorld ℕ
all_scanned = or_start scan (run (FovScanning.poll env) (polls 24 nowhere) scan)

abbrev home : FovScanning.TaskWorld ℕ
home = left_by all_scanned (FovScanning.poll env true (resume nowhere all_scanned))

fov_next-All_example : All env home
unfolding run FovScanning.poll FovScanning.on_poll FovScanning.on_initialize FovScanning.lift
    FovScanning.handle_move_safe_z FovScanning.handle_move_origin
    FovScanning.handle_move_scan_position FovScanning.handle_move_focus_position_z
    FovScanning.handle_vision_request FovScanning.handle_vision_wait FovScanning.measured
    FovScanning.handle_return_home execute_vision_command is_vision_position_empty new_world execute
    get_param_as convert convert_or get_param find is_empty set_seq_param assign
fov_next-All_example =
    fov_next-All env (polls 24 nowhere) nowhere nowhere true all_scanned home refl refl

abbrev begun : FovScanning.TaskWorld ℕ
begun = left_by scan (FovScanning.poll env true scan)

-- With a position in the context, the twenty-third poll of the rest returns PREV, and the task goes on.
abbrev later : FovScanning.TaskWorld ℕ
later = or_start begun (run (FovScanning.poll env) (polls 26 at_position) begun)

fov_run-SameCentre_example : SameCentre env begun later
unfolding run FovScanning.poll FovScanning.on_poll FovScanning.on_initialize FovScanning.lift
    FovScanning.handle_move_safe_z FovScanning.handle_move_origin
    FovScanning.handle_move_scan_position FovScanning.handle_move_focus_position_z
    FovScanning.handle_vision_request FovScanning.handle_vision_wait FovScanning.measured
    FovScanning.handle_return_home execute_vision_command is_vision_position_empty new_world execute
    pop_vision_position get_param_as convert convert_or get_param find is_empty set_seq_param assign
fov_run-SameCentre_example =
    fov_run-SameCentre env true nowhere begun (polls 26 at_position) later refl refl

abbrev calibration : Calibration.TaskWorld ℕ
calibration = new_world Calibration.initial_fields at_position []

calibration_poll-fails_example :
    (w w' : Calibration.TaskWorld ℕ) × (run (Calibration.poll env) (polls 3 at_position) calibration
      ≡ some w)
    × (Calibration.poll env true (resume at_position w) ≡ ret tr_error w')
    × (w'.log ≡ [])
calibration_poll-fails_example =
    calibration_poll-fails env (polls 3 at_position) at_position at_position true
