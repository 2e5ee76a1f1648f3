-- ===== src/Load1/Examples/Focus.antt =====
-- A concrete focus scan: two positions, and a group of three locations whose heights follow in the three
-- ways.
use vision_motion_framework.Prelude.{ℕ, true, refl, some, [], ◌∷◌, pos}
use vision_motion_framework.Vat.Context.{
  Context, convert, convert_or, get_param, get_param_as, find, is_empty, back, pop_vision_position,
  peek_vision_position, is_vision_position_empty,
}
use vision_motion_framework.Vat.World.{Env}
use vision_motion_framework.Vat.Access.{execute_vision_command}
use vision_motion_framework.Vat.Task.{tr_prev, new_world, execute}
use vision_motion_framework.Vat.Polling.{run, resume}
use vision_motion_framework.Load1.Examples.{env, context, position, polls, or_start, left_by}
use vision_motion_framework.Load1.FocusScanning
use vision_motion_framework.Load1.FocusScanning.Stages.{IsSentBack}
use vision_motion_framework.Load1.FocusScanning.Results.{Stored}
use vision_motion_framework.Load1.FocusScanning.Measured.{focus_run-Ends}

abbrev storing_env : Env ℕ
storing_env = record env {
  load_group = λ log camera. some (pos 1 ∷ pos 12 ∷ pos 20 ∷ []);
  load_z = λ log camera location pkg. some 50;
}

abbrev two_positions : Context ℕ
two_positions = context (position ∷ position ∷ [])

abbrev focus : FocusScanning.TaskWorld ℕ
focus = new_world FocusScanning.initial_fields two_positions []

-- Five polls measure, and the sixth one stores.
abbrev measured : FocusScanning.TaskWorld ℕ
measured = or_start focus (run (FocusScanning.poll storing_env) (polls 5 two_positions) focus)

abbrev stored : FocusScanning.TaskWorld ℕ
stored = left_by measured (FocusScanning.poll storing_env true (resume two_positions measured))

focus_run-Ends_example :
    Stored storing_env (resume two_positions measured) tr_prev stored × IsSentBack 0 measured.log
unfolding run FocusScanning.poll FocusScanning.on_poll FocusScanning.on_initialize
    FocusScanning.handle_move_down FocusScanning.handle_move_wait
    FocusScanning.handle_vision_request FocusScanning.handle_vision_wait
    FocusScanning.handle_return_home FocusScanning.handle_save_focus_result
    FocusScanning.save_popped FocusScanning.save_position FocusScanning.save_height
    FocusScanning.save_results FocusScanning.save_targets FocusScanning.save_locations
    FocusScanning.save_location FocusScanning.save_focus execute_vision_command
    is_vision_position_empty new_world execute peek_vision_position pop_vision_position back
    get_param_as convert convert_or get_param find is_empty
focus_run-Ends_example =
    focus_run-Ends storing_env (polls 5 two_positions) two_positions two_positions true measured
      stored tr_prev refl refl (λ e. cc) (λ e. cc)
