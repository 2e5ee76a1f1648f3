-- ===== src/Load1/Examples/Pcd.antt =====
-- A concrete scan of the pitch: the pulses fall with the number of calls.
use vision_motion_framework.Prelude.{ℕ, ◌-◌, true, refl, [], ◌∷◌, length, pos}
use vision_motion_framework.Vat.Context.{
  Context, convert, convert_or, get_param, get_param_as, find, is_empty, back, peek_vision_position,
  pop_vision_position, add_vision_position,
}
use vision_motion_framework.Vat.World.{Env}
use vision_motion_framework.Vat.Access.{execute_vision_command}
use vision_motion_framework.Vat.Task.{new_world, execute}
use vision_motion_framework.Vat.Polling.{run, resume}
use vision_motion_framework.Load1.Examples.{env, context, polls, or_start, left_by}
use vision_motion_framework.Load1.Backlash.{axis_of}
use vision_motion_framework.Load1.PcdScanning
use vision_motion_framework.Load1.PcdScanning.Results.{IsScanned, pcd_next-IsScanned}
use vision_motion_framework.Load1.PcdScanning.Pulses.{LastPulse}
use vision_motion_framework.Load1.PcdSequence.NextMark.{IsMovedTo, pcd_prev-IsMovedTo}
use vision_motion_framework.Load1.MoveToStart

abbrev pub pulsing : Env ℕ
pulsing = record env { pulse = λ log. (1000 - length log) ∷ 0 ∷ [] }

abbrev pub at_mark : Context ℕ
at_mark =
    context (record { pos = 3 ∷ 4 ∷ 5 ∷ 6 ∷ []; locate_id = pos 1; vision_request_id = pos 1 } ∷ [])

abbrev pcd : PcdScanning.TaskWorld ℕ
pcd = new_world (PcdScanning.initial_fields pulsing) at_mark []

-- Nineteen polls correct the target three times, and the next one reads the pulses.
abbrev centred : PcdScanning.TaskWorld ℕ
centred = or_start pcd (run (PcdScanning.poll pulsing) (polls 19 at_mark) pcd)

abbrev handed_on : PcdScanning.TaskWorld ℕ
handed_on = left_by centred (PcdScanning.poll pulsing true centred)

-- The start task behind its NEXT, and its next poll.
abbrev start : MoveToStart.TaskWorld ℕ
start = new_world MoveToStart.initial_fields at_mark []

abbrev at_start : MoveToStart.TaskWorld ℕ
at_start = or_start start (run (MoveToStart.poll pulsing) (polls 5 at_mark) start)

abbrev under_way : MoveToStart.TaskWorld ℕ
under_way = left_by at_start (MoveToStart.poll pulsing true (resume handed_on.ctx at_start))

pcd_prev-IsMovedTo_example :
    IsMovedTo pulsing centred.fields.scan_axis centred.fields.scan_pitch
      centred.fields.target_position under_way.fields.target_position
    × LastPulse handed_on.fields.scan_axis handed_on.fields.start_axis_pulse handed_on.log
unfolding run PcdScanning.poll PcdScanning.on_poll PcdScanning.on_initialize
    PcdScanning.handle_move_safe_z PcdScanning.handle_move_origin
    PcdScanning.handle_move_target_position_xy PcdScanning.handle_move_focus_position_z
    PcdScanning.handle_vision_request PcdScanning.handle_vision_wait PcdScanning.measured
    PcdScanning.read_pulse execute_vision_command new_world execute peek_vision_position
    pop_vision_position add_vision_position back get_param_as convert convert_or get_param find
    is_empty axis_of MoveToStart.poll MoveToStart.on_poll MoveToStart.on_initialize
    MoveToStart.handle_move_safe_z MoveToStart.handle_move_origin
    MoveToStart.handle_move_target_position_xy MoveToStart.handle_move_target_position_z
    MoveToStart.handle_complete_move
pcd_prev-IsMovedTo_example =
    pcd_prev-IsMovedTo pulsing true true centred handed_on at_start under_way refl refl refl refl

-- The second mark takes as many polls, and one computes.
abbrev computed : PcdScanning.TaskWorld ℕ
computed = or_start pcd (run (PcdScanning.poll pulsing) (polls 41 at_mark) pcd)

abbrev ended : PcdScanning.TaskWorld ℕ
ended = left_by computed (PcdScanning.poll pulsing true (resume at_mark computed))

pcd_next-IsScanned_example : IsScanned pulsing computed ended
unfolding run PcdScanning.poll PcdScanning.on_poll PcdScanning.on_initialize
    PcdScanning.handle_move_safe_z PcdScanning.handle_move_origin
    PcdScanning.handle_move_target_position_xy PcdScanning.handle_move_focus_position_z
    PcdScanning.handle_vision_request PcdScanning.handle_vision_wait PcdScanning.measured
    PcdScanning.read_pulse PcdScanning.handle_calculate_pcd execute_vision_command new_world execute
    peek_vision_position pop_vision_position add_vision_position back get_param_as convert
    convert_or get_param find is_empty axis_of
pcd_next-IsScanned_example =
    pcd_next-IsScanned pulsing (polls 41 at_mark) at_mark at_mark true computed ended refl refl
