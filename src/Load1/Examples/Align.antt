-- ===== src/Load1/Examples/Align.antt =====
-- A concrete alignment of two positions.
use vision_motion_framework.Prelude.{ℕ, true, ◌≡◌, refl, [], ◌∷◌, pos}
use vision_motion_framework.Vat.Context.{
  Context, VisionPosition, convert, convert_or, get_param, get_param_as, find, is_empty, back,
  pop_vision_position, peek_vision_position, is_vision_position_empty, add_vision_position,
  set_seq_param, assign,
}
use vision_motion_framework.Vat.Access.{execute_vision_command}
use vision_motion_framework.Vat.Task.{new_world, execute}
use vision_motion_framework.Vat.Polling.{LeavesSome}
use vision_motion_framework.Vat.Polling.Keeping.{run_keeping, resume_keeping}
use vision_motion_framework.Load1.Examples.{env, context, position, polls, or_start, left_by}
use vision_motion_framework.Load1.FindAlign
use vision_motion_framework.Load1.FindAlign.Ids.{ids, last_id}
use vision_motion_framework.Load1.FindAlign.Positions.{AllSavedFor}
use vision_motion_framework.Load1.FindAlign.HandedOn.{align_next-ids, align_run-AllSavedFor}

abbrev second : VisionPosition ℕ
second = record { pos = 6 ∷ 7 ∷ 8 ∷ []; locate_id = pos 2; vision_request_id = pos 1 }

abbrev positions : Context ℕ
positions = context (position ∷ second ∷ [])

abbrev unaligned : FindAlign.TaskWorld ℕ
unaligned = new_world FindAlign.initial_fields positions []

align_run-AllSavedFor_example :
    LeavesSome
      (λ w. AllSavedFor (pos 2) w.log)
      (run_keeping (FindAlign.poll env) (polls 6 positions) unaligned)
unfolding ids last_id
align_run-AllSavedFor_example = align_run-AllSavedFor env (polls 6 positions) positions (pos 2) refl

-- Three polls align a position, and the sixth one ends with NEXT.
abbrev aligning : FindAlign.TaskWorld ℕ
aligning = or_start unaligned (run_keeping (FindAlign.poll env) (polls 5 positions) unaligned)

abbrev aligned : FindAlign.TaskWorld ℕ
aligned = left_by aligning (FindAlign.poll env true (resume_keeping positions aligning))

align_next-ids_example : ids aligned.ctx.vision_positions ≡ ids positions.vision_positions
unfolding ids last_id run_keeping FindAlign.poll FindAlign.on_poll FindAlign.on_initialize
    FindAlign.read_parameters FindAlign.handle_vision_request FindAlign.handle_vision_wait
    FindAlign.measured FindAlign.handle_save_calibration_result FindAlign.align_next
    FindAlign.put_back execute_vision_command is_vision_position_empty new_world execute
    peek_vision_position pop_vision_position add_vision_position back get_param_as convert
    convert_or get_param find is_empty set_seq_param assign
align_next-ids_example =
    align_next-ids env (polls 5 positions) positions positions true (pos 2) aligning aligned refl
      refl refl
