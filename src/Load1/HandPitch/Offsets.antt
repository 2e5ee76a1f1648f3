-- ===== src/Load1/HandPitch/Offsets.antt =====
-- Which offsets CLoad1PerformHandPitchScanningTask.cpp stores for which picker.
use vision_motion_framework.Prelude.{
  ◌≡◌, refl, ℕ, zero, suc, ◌-◌, Bool, true, false, if◌then◌else◌, ◌&&◌, ◌==◌, Option, none, some,
  List, [], ◌∷◌, ℤ, arith,
}
use vision_motion_framework.Vat.World.{
  Env, Log, Event, saved_hand_pitch, PitchStatus, narrow, wide, ret,
}
use vision_motion_framework.Load1.HandPitch.{
  HandPitchScanPoint, Fields, TaskWorld, find_offsets, save_rows, save_picker,
}

abbrev has_mode : PitchStatus → PitchStatus → Bool
has_mode narrow narrow = true
has_mode narrow wide = false
has_mode wide narrow = false
has_mode wide wide = true

module _ {D : Type 0} where
  abbrev matches : PitchStatus → ℕ → ℕ → HandPitchScanPoint D → Bool
  matches mode row col p = (p.row == row && p.col == col) && has_mode mode p.pitch_mode

  abbrev last_or : Option (D × D) → Bool → D × D → Option (D × D)
  last_or (some later) b offset = some later
  last_or none b offset = if b then some offset else none

  -- The offset of the last point of a picker and a mode.
  unfoldable pub last_offset : PitchStatus → ℕ → ℕ → List (HandPitchScanPoint D) → Option (D × D)
  last_offset mode row col [] = none
  last_offset mode row col (p ∷ ps) =
      last_or (last_offset mode row col ps) (matches mode row col p) p.measured_offset

  abbrev pub offset_or : Option (D × D) → D × D → D × D
  offset_or none default = default
  offset_or (some offset) default = offset

  find-last_offset :
      (row col : ℕ) (ps : List (HandPitchScanPoint D)) (found : (D × D) × (D × D))
      → find_offsets row col ps found ≡ (
        offset_or (last_offset narrow row col ps) found.0,
        offset_or (last_offset wide row col ps) found.1,
      )
  unfolding find_offsets last_offset
  find-last_offset row col [] found = refl
  find-last_offset row col (p ∷ ps) (n, w) = ground (
    arith,
    find-last_offset row col ps (p.measured_offset, w),
    find-last_offset row col ps (n, p.measured_offset),
    find-last_offset row col ps (n, w),
  )

module _ {D : Type 0} (env : Env D) (hand pkg : ℤ) (t : Fields D) where
  abbrev offset_for : PitchStatus → ℕ → ℕ → D × D
  offset_for mode row col = offset_or (last_offset mode row col t.scan_points) (env.zero, env.zero)

  -- The result of a picker.
  abbrev pub result : ℕ → ℕ → Event D
  result row col =
      saved_hand_pitch hand pkg col row (offset_for narrow row col) (offset_for wide row col)

  -- The log behind the results of so many rows from a row on, two pickers in each.
  unfoldable pub with_results : ℕ → ℕ → Log D → Log D
  with_results zero row es = es
  with_results (suc n) row es =
      with_results n (suc row) (result row (t.picker_max_col - 1) ∷ result row 0 ∷ es)

pub save_rows-with_results :
    {D : Type 0} (env : Env D) (hand pkg : ℤ) (n row : ℕ) (w : TaskWorld D)
    → save_rows env hand pkg n row w
      ≡ ret tt (record w { log = with_results env hand pkg w.fields n row w.log })
unfolding save_rows with_results save_picker
save_rows-with_results {D = D} env hand pkg zero row w = refl
save_rows-with_results {D = D} env hand pkg (suc n) row w =
    let t = w.fields in
    let z : D × D = (env.zero, env.zero) in
    rw
      (
        find-last_offset row 0 t.scan_points (z, z),
        find-last_offset row (t.picker_max_col - 1) t.scan_points (z, z),
      )
      (save_rows-with_results env hand pkg n (suc row) _)
