-- ===== src/Load1/Examples/PickerFov.antt =====
-- A concrete scan of a picker.
use vision_motion_framework.Prelude.{ℕ, ◌+◌, ◌==◌, if◌then◌else◌, true, refl, [], length}
use vision_motion_framework.Vat.Context.{
  Context, assign, set_seq_param, convert, convert_or, get_param, get_param_as, find, is_empty,
}
use vision_motion_framework.Vat.World.{Env, number}
use vision_motion_framework.Vat.Access.{execute_vision_command}
use vision_motion_framework.Vat.Task.{new_world, execute}
use vision_motion_framework.Vat.Polling.{run, resume}
use vision_motion_framework.Load1.Examples.{env, context, polls, or_start, left_by}
use vision_motion_framework.Load1.PickerFov
use vision_motion_framework.Load1.PickerFov.Results.{IsSaved, picker_fov_keep-IsSaved}

-- The offsets grow with the number of calls.
abbrev seeing : Env ℕ
seeing = record env {
  format_double = λ n. if n == 0 then "zero" else "more";
  x_offset = λ log. number (length log);
  y_offset = λ log. number (length log + 1);
}

abbrev nothing_set : Context ℕ
nothing_set = context []

abbrev picker : PickerFov.TaskWorld ℕ
picker = new_world (PickerFov.initial_fields seeing) nothing_set []

-- Six polls for each of the two places.
abbrev scanned : PickerFov.TaskWorld ℕ
scanned = or_start picker (run (PickerFov.poll seeing) (polls 12 nothing_set) picker)

abbrev saved : PickerFov.TaskWorld ℕ
saved = left_by scanned (PickerFov.poll seeing true (resume nothing_set scanned))

picker_fov_keep-IsSaved_example : IsSaved seeing saved
unfolding run PickerFov.poll PickerFov.on_poll PickerFov.on_initialize PickerFov.handle_move_safe_z
    PickerFov.handle_move_origin PickerFov.handle_move_scan_position
    PickerFov.handle_move_focus_position_z PickerFov.handle_vision_request
    PickerFov.handle_vision_wait PickerFov.measured PickerFov.handle_save_result
    execute_vision_command new_world execute set_seq_param assign get_param_as convert convert_or
    get_param find is_empty
picker_fov_keep-IsSaved_example =
    picker_fov_keep-IsSaved seeing (polls 12 nothing_set) nothing_set nothing_set true scanned saved
      refl refl refl
