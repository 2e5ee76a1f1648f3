-- ===== src/Load1/HandPitch/State.antt =====
-- The state of Equipment2015/DVH_VAT/Load1/Tasks/CLoad1PerformHandPitchScanningTask.h, the points of the
-- scan, and how the task begins.
use vision_motion_framework.Prelude.{
  ℕ, zero, suc, ◌-◌, Bool, true, false, if◌then◌else◌, ◌&&◌, ◌==◌, List, [], ◌∷◌, ◌++◌, ℤ, pos,
  ltb_ℤ, pos_part,
}
use vision_motion_framework.Vat.World.{
  World, Env, M, get, set_fields, ◌>>=◌, ◌>>◌, PitchStatus, narrow, wide,
}
use vision_motion_framework.Vat.Access.{get_seq_int, get_seq_double}
use vision_motion_framework.Vat.Task.{enter_state}

pub data Substep : Type 0 where
  move_safe_z move_origin move_hand_pitch move_focus_position_z : Substep
  vision_request vision_wait return_home save_hand_pitch_result : Substep

pub record HandPitchScanPoint (D : Type 0) : Type 0 where
  pub row : ℕ
  pub col : ℕ
  pub pitch_mode : PitchStatus
  pub target_position : D × D
  pub measured_offset : D × D

pub record Fields (D : Type 0) : Type 0 where
  pub current_scan_index : ℕ
  pub center_position : D × D
  pub focus_position_z : D
  pub safe_position_z : D
  pub camera_id : ℤ
  pub current_target_position : D × D
  pub scan_points : List (HandPitchScanPoint D)
  pub current_pitch_mode : PitchStatus
  pub picker_max_row : ℕ
  pub picker_max_col : ℕ
  pub vision_timeout_ms : ℤ
  pub move_timeout_ms : ℤ
  pub standard_picker_col : D
  pub standard_picker_row : D
  pub picker_gap_narrow : D × D
  pub picker_gap_wide : D × D
  pub is_scan_points_built : Bool

abbrev pub TaskWorld : Type 0 → Type 0
TaskWorld D = World Substep (Fields D) D

-- At least one row and one column.
abbrev pub one_or_more : ℤ → ℕ
one_or_more n = if ltb_ℤ (pos 0) n then pos_part n else 1

abbrev pub plane : {D : Type 0} → D × D → List D
plane (x, y) = x ∷ y ∷ []

-- The offset at an index of the points.
unfoldable pub record_offset :
    {D : Type 0} → ℕ → D × D → List (HandPitchScanPoint D) → List (HandPitchScanPoint D)
record_offset i offset [] = []
record_offset zero offset (p ∷ ps) = record p { measured_offset = offset } ∷ ps
record_offset (suc i) offset (p ∷ ps) = p ∷ record_offset i offset ps

module _ {D : Type 0} where
  -- What the points seen so far say of a picker, narrow and wide.
  abbrev keep_point : Bool → HandPitchScanPoint D → (D × D) × (D × D) → (D × D) × (D × D)
  keep_point false p (n, w) = (n, w)
  keep_point true p (n, w) = elim p.pitch_mode [
    | narrow ↦ (p.measured_offset, w)
    | wide ↦ (n, p.measured_offset)
  ]

  unfoldable pub find_offsets :
      ℕ → ℕ → List (HandPitchScanPoint D) → (D × D) × (D × D) → (D × D) × (D × D)
  find_offsets row col [] found = found
  find_offsets row col (p ∷ ps) found =
      find_offsets row col ps (keep_point (p.row == row && p.col == col) p found)

module _ {D : Type 0} (env : Env D) where
  abbrev pub initial_fields : Fields D
  initial_fields = record {
    current_scan_index = 0;
    center_position = (env.zero, env.zero);
    focus_position_z = env.zero;
    safe_position_z = env.zero;
    camera_id = pos 0;
    current_target_position = (env.zero, env.zero);
    scan_points = [];
    current_pitch_mode = narrow;
    picker_max_row = 0;
    picker_max_col = 0;
    vision_timeout_ms = pos 30000;
    move_timeout_ms = pos 10000;
    standard_picker_col = env.zero;
    standard_picker_row = env.zero;
    picker_gap_narrow = (env.zero, env.zero);
    picker_gap_wide = (env.zero, env.zero);
    is_scan_points_built = false;
  }

  abbrev pub gap_of : PitchStatus → Fields D → D × D
  gap_of narrow t = t.picker_gap_narrow
  gap_of wide t = t.picker_gap_wide

  abbrev pub scan_point : Fields D → PitchStatus → ℕ → ℕ → HandPitchScanPoint D
  scan_point t mode col row =
      let (x, y) = t.center_position in
      let (gap_x, gap_y) = gap_of mode t in
      record {
        row = row;
        col = col;
        pitch_mode = mode;
        target_position = (
          env.add x (env.mul (env.sub t.standard_picker_col (env.literal (pos col) 0)) gap_x),
          env.sub y (env.mul (env.sub t.standard_picker_row (env.literal (pos row) 0)) gap_y),
        );
        measured_offset = (env.zero, env.zero);
      }

  -- The points of a column, for so many rows from a row on.
  unfoldable pub column_points : Fields D → PitchStatus → ℕ → ℕ → ℕ → List (HandPitchScanPoint D)
  column_points t mode col zero row = []
  column_points t mode col (suc n) row =
      scan_point t mode col row ∷ column_points t mode col n (suc row)

  -- The first and the last column.
  abbrev pub mode_points : Fields D → PitchStatus → List (HandPitchScanPoint D)
  mode_points t mode =
      column_points t mode 0 t.picker_max_row 0
      ++ column_points t mode (t.picker_max_col - 1) t.picker_max_row 0

  unfoldable pub build_scan_points : Fields D → Fields D
  build_scan_points t = record t {
    scan_points = mode_points t narrow ++ mode_points t wide;
    is_scan_points_built = true;
  }

  unfoldable pub on_initialize : M (TaskWorld D) (Unit {0})
  on_initialize = do
    safe_z ← get_seq_double env "safeZ" env.zero
    rows ← get_seq_int env "PickerMaxRow" (pos 0)
    cols ← get_seq_int env "PickerMaxCol" (pos 0)
    x_narrow ← get_seq_double env "PickerGapX_N" env.zero
    x_wide ← get_seq_double env "PickerGapX_W" x_narrow
    y_narrow ← get_seq_double env "PickerGapY_N" env.zero
    y_wide ← get_seq_double env "PickerGapY_W" y_narrow
    standard_col ← get_seq_double env "standardPickerCol" env.zero
    standard_row ← get_seq_double env "standardPickerRow" env.zero
    w ← get
    timeout ← get_seq_int env "motion_timeout_ms" w.fields.move_timeout_ms
    camera ← get_seq_int env "CamIndex" (pos 0)
    set_fields (
        let t = w.fields in
        record t {
          safe_position_z = safe_z;
          picker_max_row = one_or_more rows;
          picker_max_col = one_or_more cols;
          picker_gap_narrow = (x_narrow, y_narrow);
          picker_gap_wide = (x_wide, y_wide);
          standard_picker_col = standard_col;
          standard_picker_row = standard_row;
          move_timeout_ms = (if ltb_ℤ (pos 0) timeout then timeout else t.move_timeout_ms);
          camera_id = camera;
          scan_points = [];
          current_scan_index = 0;
          current_pitch_mode = narrow;
          is_scan_points_built = false;
          current_target_position = (env.zero, env.zero);
        })
    enter_state move_safe_z
