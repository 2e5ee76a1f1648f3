-- ===== src/Load1/Examples/Backlash.antt =====
-- A concrete scan of the backlash.
use vision_motion_framework.Prelude.{ℕ, true, false, ◌≡◌, refl, []}
use vision_motion_framework.Vat.Context.{
  convert, convert_or, get_param, get_param_as, find, is_empty, back, peek_vision_position,
}
use vision_motion_framework.Vat.Access.{execute_vision_command}
use vision_motion_framework.Vat.Task.{new_world, execute}
use vision_motion_framework.Vat.Polling.{run}
use vision_motion_framework.Vat.Travel.{IsUp}
use vision_motion_framework.Load1.Examples.{env, at_position, polls, or_start}
use vision_motion_framework.Load1.Backlash
use vision_motion_framework.Load1.Backlash.Travel.{IsSentTo, backlash_run-Heights}

abbrev backlash : Backlash.TaskWorld ℕ
backlash = new_world (Backlash.initial_fields env) at_position []

-- Seven polls lead to the first measurement.
abbrev start_measured : Backlash.TaskWorld ℕ
start_measured = or_start backlash (run (Backlash.poll env) (polls 7 at_position) backlash)

backlash_run-Heights_example :
    (start_measured.fields.is_start_measured ≡ false → IsUp 0 start_measured.log)
    × (start_measured.fields.is_start_measured ≡ true
        → IsSentTo start_measured.fields.focus_position_z start_measured.log)
unfolding run Backlash.poll Backlash.on_poll Backlash.on_initialize Backlash.handle_move_safe_z
    Backlash.handle_move_origin Backlash.handle_move_start Backlash.handle_move_zero
    Backlash.handle_move_focus_z Backlash.handle_vision_request Backlash.request
    Backlash.handle_vision_wait Backlash.measured execute_vision_command new_world execute
    peek_vision_position back get_param_as convert convert_or get_param find is_empty
backlash_run-Heights_example =
    backlash_run-Heights env (polls 7 at_position) at_position start_measured refl refl
