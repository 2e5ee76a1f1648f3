-- ===== src/Load1/Examples/HandPitch.antt =====
-- A concrete scan of a hand with two rows and two columns of pickers.
use vision_motion_framework.Prelude.{ℕ, true, refl, some, [], ◌∷◌, pos}
use vision_motion_framework.Vat.Context.{
  Context, convert, convert_or, get_param, get_param_as, find, is_empty,
}
use vision_motion_framework.Vat.World.{Env}
use vision_motion_framework.Vat.Access.{execute_vision_command}
use vision_motion_framework.Vat.Task.{new_world, execute}
use vision_motion_framework.Vat.Polling.{run, resume}
use vision_motion_framework.Load1.Examples.{env, context, polls, or_start, left_by}
use vision_motion_framework.Load1.HandPitch
use vision_motion_framework.Load1.HandPitch.Results.{IsPitchScanned, hand_pitch_next-IsPitchScanned}

abbrev two : Env ℕ
two = record env { parse_int = λ text. some (pos 2) }

abbrev two_by_two : Context ℕ
two_by_two = record (context []) {
  seq_params = ("PickerMaxRow", "2") ∷ ("PickerMaxCol", "2") ∷ ("HandID", "2") ∷ [];
}

abbrev hand : HandPitch.TaskWorld ℕ
hand = new_world (HandPitch.initial_fields two) two_by_two []

-- Four polls for each of the eight points, two before them and one behind them; the next one stores.
abbrev scanned : HandPitch.TaskWorld ℕ
scanned = or_start hand (run (HandPitch.poll two) (polls 35 two_by_two) hand)

abbrev ended : HandPitch.TaskWorld ℕ
ended = left_by scanned (HandPitch.poll two true (resume two_by_two scanned))

hand_pitch_next-IsPitchScanned_example : IsPitchScanned two two_by_two scanned ended
unfolding run HandPitch.poll HandPitch.on_poll HandPitch.on_initialize HandPitch.column_points
    HandPitch.build_scan_points HandPitch.record_offset HandPitch.find_offsets
    HandPitch.handle_move_safe_z HandPitch.handle_move_origin HandPitch.handle_move_hand_pitch
    HandPitch.handle_move_focus_position_z HandPitch.handle_vision_request HandPitch.measured
    HandPitch.keep_offset_at HandPitch.handle_vision_wait HandPitch.handle_return_home
    HandPitch.save_picker HandPitch.save_rows HandPitch.save_results
    HandPitch.handle_save_hand_pitch_result execute_vision_command new_world execute get_param_as
    convert convert_or get_param find is_empty
hand_pitch_next-IsPitchScanned_example =
    hand_pitch_next-IsPitchScanned two (polls 35 two_by_two) two_by_two two_by_two true scanned
      ended refl refl
