-- ===== src/Load1/PcdScanning/State.antt =====
-- The state of Equipment2015/DVH_VAT/Load1/Tasks/CLoad1PerformPCDScanningTask.h, and how the task begins.
use vision_motion_framework.Prelude.{ℕ, Bool, false, if◌then◌else◌, ℤ, pos, negsuc, ltb_ℤ}
use vision_motion_framework.Vat.World.{World, Env, M, get, set_fields, element, ◌>>=◌, ◌>>◌}
use vision_motion_framework.Vat.Access.{peek_position, get_seq_int, get_seq_double, get_seq_text}
use vision_motion_framework.Vat.Task.{enter_state}
use vision_motion_framework.Load1.FindAlign.{no_position, position_or}
use vision_motion_framework.Load1.Backlash.{Axis, axis_x, axis_of}

pub data Substep : Type 0 where
  move_safe_z move_origin move_target_position_xy move_focus_position_z : Substep
  vision_request vision_wait calculate_pcd save_pcd_result : Substep

pub record Fields (D : Type 0) : Type 0 where
  pub scan_axis : Axis
  pub scan_pitch : D
  pub start_axis_pulse : D
  pub end_axis_pulse : D
  pub target_position : D × D
  pub target_table_position : D
  pub focus_position_z : D
  pub pulse_distance_result : D
  pub scale_result : D
  pub move_timeout_ms : ℤ
  pub vision_timeout_ms : ℤ
  pub is_start_offset_measured : Bool
  pub inspection_count : ℕ
  pub max_inspection_count : ℤ
  pub camera_id : ℤ

abbrev pub TaskWorld : Type 0 → Type 0
TaskWorld D = World Substep (Fields D) D

-- A parameter that is not positive leaves the old value.
abbrev pub positive_or : ℤ → ℤ → ℤ
positive_or value old = if ltb_ℤ (pos 0) value then value else old

module _ {D : Type 0} (env : Env D) where
  abbrev pub initial_fields : Fields D
  initial_fields = record {
    scan_axis = axis_x;
    scan_pitch = env.zero;
    start_axis_pulse = env.zero;
    end_axis_pulse = env.zero;
    target_position = (env.zero, env.zero);
    target_table_position = env.literal (negsuc 64) 0;
    focus_position_z = env.zero;
    pulse_distance_result = env.zero;
    scale_result = env.zero;
    move_timeout_ms = pos 7000;
    vision_timeout_ms = pos 30000;
    is_start_offset_measured = false;
    inspection_count = 0;
    max_inspection_count = pos 3;
    camera_id = pos 0;
  }

  unfoldable pub on_initialize : M (TaskWorld D) (Unit {0})
  on_initialize = do
    camera ← get_seq_int env "CameraIndex" (pos 0)
    pitch ← get_seq_double env "pcdPitch" env.zero
    axis ← get_seq_text env "scanAxis"
    position ← peek_position
    x ← element (position_or position no_position).pos 0
    y ← element (position_or position no_position).pos 1
    z ← element (position_or position no_position).pos 2
    table ← element (position_or position no_position).pos 3
    w ← get
    motion ← get_seq_int env "motion_timeout_ms" w.fields.move_timeout_ms
    vision ← get_seq_int env "vision_timeout_ms" w.fields.vision_timeout_ms
    count ← get_seq_int env "maxInspCount" (pos 3)
    set_fields (
        let t = w.fields in
        record t {
          camera_id = camera;
          scan_pitch = pitch;
          scan_axis = axis_of axis t.scan_axis;
          target_position = (x, y);
          focus_position_z = z;
          target_table_position = table;
          move_timeout_ms = positive_or motion t.move_timeout_ms;
          vision_timeout_ms = positive_or vision t.vision_timeout_ms;
          is_start_offset_measured = false;
          inspection_count = 0;
          max_inspection_count = positive_or count (pos 3);
        })
    enter_state vision_request
