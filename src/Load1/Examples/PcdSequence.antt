-- ===== src/Load1/Examples/PcdSequence.antt =====
-- A concrete run of the sequence of CLoad1PCDSequenceBuilder.h, that goes back once.
use vision_motion_framework.Prelude.{
  ℕ, Bool, true, false, refl, ◌≡◌, Option, none, some, [], ◌∷◌, pos,
}
use vision_motion_framework.Vat.Context.{
  Context, convert, convert_or, get_param, get_param_as, find, is_empty, back, peek_vision_position,
  pop_vision_position, add_vision_position,
}
use vision_motion_framework.Vat.World.{Env}
use vision_motion_framework.Vat.Access.{execute_vision_command}
use vision_motion_framework.Vat.Task.{new_world}
use vision_motion_framework.Vat.Task
use vision_motion_framework.Vat.Sequence.{add_task, loop, execute}
use vision_motion_framework.Load1.Backlash.{axis_of}
use vision_motion_framework.Load1.MoveToStart
use vision_motion_framework.Load1.PcdScanning
use vision_motion_framework.Load1.PcdSequence.{Line, new_line, build_sequence, line_host}
use vision_motion_framework.Load1.PcdSequence.Measures.{Measures}
use vision_motion_framework.Load1.PcdSequence.Success.{pcd_sequence-Measures}
use vision_motion_framework.Load1.Examples.Pcd.{pulsing, at_mark}

-- One correction of the target is enough.
abbrev counting : Env ℕ
counting = record pulsing { parse_int = λ text. some (pos 1) }

abbrev corrected_once : Context ℕ
corrected_once = record at_mark { seq_params = ("maxInspCount", "1") ∷ [] }

-- No other thread changes anything.
abbrev line : Line ℕ
line = new_line counting true (λ log c. c) (λ log. false) corrected_once

abbrev or_line : Option (Bool × Line ℕ) → Line ℕ
or_line none = line
or_line (some (b, t)) = t

abbrev ran : Option (Bool × Line ℕ)
ran =
    execute (line_host counting true (λ log c. c) (λ log. false))
      (build_sequence counting true (λ log c. c) (λ log. false)) 35 line

abbrev succeeded : Option (Bool × Line ℕ) → Bool
succeeded none = false
succeeded (some (b, t)) = b

-- The end of a run that succeeded, without a comparison of the whole state.
succeeded-some : (o : Option (Bool × Line ℕ)) → succeeded o ≡ true → o ≡ some (true, or_line o)
succeeded-some none e = cc
succeeded-some (some (true, t)) e = refl
succeeded-some (some (false, t)) e = cc

ran-succeeded : succeeded ran ≡ true
unfolding execute loop build_sequence add_task Task.execute new_world MoveToStart.poll
    MoveToStart.on_poll MoveToStart.on_initialize MoveToStart.handle_move_safe_z
    MoveToStart.handle_move_origin MoveToStart.handle_move_target_position_xy
    MoveToStart.handle_move_target_position_z MoveToStart.handle_complete_move PcdScanning.poll
    PcdScanning.on_poll PcdScanning.on_initialize PcdScanning.handle_move_safe_z
    PcdScanning.handle_move_origin PcdScanning.handle_move_target_position_xy
    PcdScanning.handle_move_focus_position_z PcdScanning.handle_vision_request
    PcdScanning.handle_vision_wait PcdScanning.measured PcdScanning.read_pulse
    PcdScanning.handle_calculate_pcd execute_vision_command peek_vision_position pop_vision_position
    add_vision_position back get_param_as convert convert_or get_param find is_empty axis_of
ran-succeeded = refl

pcd_sequence-Measures_example : Measures counting (or_line ran)
pcd_sequence-Measures_example =
    pcd_sequence-Measures counting true (λ log c. c) (λ log. false) 35 corrected_once (or_line ran)
      (succeeded-some ran ran-succeeded)
