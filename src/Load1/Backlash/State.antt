-- ===== src/Load1/Backlash/State.antt =====
-- The state of Equipment2015/DVH_VAT/Load1/Tasks/CLoad1PerformBacklashScanningTask.h, and how the task
-- begins.
use Prim.Native.String.{String}
use text.Mathlib.Text.{◌==◌ as str_eq}
use vision_motion_framework.Prelude.{
  ℕ, Bool, false, if◌then◌else◌, ◌||◌, List, [], ◌∷◌, ℤ, pos, negsuc,
}
use vision_motion_framework.Vat.World.{World, Env, M, get, set_fields, element, ◌>>=◌, ◌>>◌}
use vision_motion_framework.Vat.Access.{peek_position, get_seq_int, get_seq_double, get_seq_text}
use vision_motion_framework.Vat.Task.{enter_state}
use vision_motion_framework.Load1.FindAlign.{no_position, position_or}

pub data Substep : Type 0 where
  move_safe_z move_origin move_start move_zero move_end move_focus_z : Substep
  vision_request vision_wait calculate_backlash save_backlash_result : Substep

pub data Axis : Type 0 where
  axis_x axis_y : Axis

pub record SpeedInfo : Type 0 where
  pub speed : ℕ
  pub acc : ℕ
  pub dcc : ℕ

pub record Fields (D : Type 0) : Type 0 where
  pub camera_id : ℤ
  pub zero_position : D × D
  pub start_position : D × D
  pub end_position : D × D
  pub current_position : D × D
  pub target_table_position : D
  pub focus_position_z : D
  pub start_offset : D × D
  pub end_offset : D × D
  pub scan_axis : Axis
  pub speed_list : List SpeedInfo
  pub current_speed_index : ℕ
  pub backlash_results : List D
  pub is_start_measured : Bool
  pub next_state_after_safe_z : Substep
  pub vision_timeout_ms : ℤ
  pub move_timeout_ms : ℤ

abbrev pub TaskWorld : Type 0 → Type 0
TaskWorld D = World Substep (Fields D) D

abbrev pub speeds : List SpeedInfo
speeds =
    record { speed = 10000; acc = 50; dcc = 50 }
    ∷ record { speed = 20000; acc = 40; dcc = 40 }
    ∷ record { speed = 30000; acc = 40; dcc = 40 }
    ∷ []

-- An empty text keeps the axis.
unfoldable pub axis_of : String → Axis → Axis
axis_of text axis =
    if str_eq text "" then axis else if str_eq text "X" || str_eq text "x" then axis_x else axis_y

module _ {D : Type 0} (env : Env D) where
  abbrev pub initial_fields : Fields D
  initial_fields = record {
    camera_id = pos 0;
    zero_position = (env.zero, env.zero);
    start_position = (env.zero, env.zero);
    end_position = (env.zero, env.zero);
    current_position = (env.zero, env.zero);
    target_table_position = env.literal (negsuc 64) 0;
    focus_position_z = env.zero;
    start_offset = (env.zero, env.zero);
    end_offset = (env.zero, env.zero);
    scan_axis = axis_y;
    speed_list = [];
    current_speed_index = 0;
    backlash_results = [];
    is_start_measured = false;
    next_state_after_safe_z = move_origin;
    vision_timeout_ms = pos 30000;
    move_timeout_ms = pos 7000;
  }

  unfoldable pub on_initialize : M (TaskWorld D) (Unit {0})
  on_initialize = do
    camera ← get_seq_int env "CamIndex" (pos 0)
    zero_x ← get_seq_double env "ZeroPosX" env.zero
    zero_y ← get_seq_double env "ZeroPosY" env.zero
    start_x ← get_seq_double env "StartPosX" env.zero
    start_y ← get_seq_double env "StartPosY" env.zero
    end_x ← get_seq_double env "EndPosX" env.zero
    end_y ← get_seq_double env "EndPosY" env.zero
    position ← peek_position
    z ← element (position_or position no_position).pos 2
    axis ← get_seq_text env "scanAxis"
    w ← get
    set_fields (
        let t = w.fields in
        record t {
          camera_id = camera;
          zero_position = (zero_x, zero_y);
          start_position = (start_x, start_y);
          end_position = (end_x, end_y);
          focus_position_z = z;
          scan_axis = axis_of axis t.scan_axis;
          speed_list = speeds;
          current_speed_index = 0;
          backlash_results = [];
          is_start_measured = false;
          next_state_after_safe_z = move_origin;
        })
    enter_state move_safe_z
