-- ===== src/Load1/HandPitch/Measured.antt =====
-- How a measurement keeps the invariant of CLoad1PerformHandPitchScanningTask.cpp.
use vision_motion_framework.Prelude.{
  ◌≡◌, refl, ℕ, suc, Bool, true, ◌&&◌, Option, none, some, List, ◌∷◌, get_elem?, arith,
}
use vision_motion_framework.Vat.World.{
  Env, Log, Offset, absent, number, malformed, read_data, read_clock, asked_validity, substep,
}
use vision_motion_framework.Vat.Polling.{Leaves}
use vision_motion_framework.Load1.HandPitch.{
  vision_wait, HandPitchScanPoint, TaskWorld, record_offset, keep_offset_at, measured,
  handle_vision_wait,
}
use vision_motion_framework.Vat.Readings.{place_of, is_readable, offset_value}
use vision_motion_framework.Load1.HandPitch.Readings.{
  read_offsets, offsets, offset_at-record, offsets-record,
}
use vision_motion_framework.Load1.HandPitch.Places.{
  places, targets, target_at-record, targets-record, index-get, length-record,
}
use vision_motion_framework.Load1.HandPitch.Visited.{Inv}

module _ {D : Type 0} (env : Env D) where
  module _ (act : Bool) (w : TaskWorld D) (old : w.initialized ≡ true) where
    -- Behind the measurement at the place.
    keep-Inv :
        w.state ≡ substep vision_wait
        → Inv env w
        → (offset : D × D) (es : Log D) → places env es ≡ place_of w.log ∷ places env w.log
        → read_offsets env es ≡ some offset ∷ read_offsets env w.log
        → Leaves (Inv env) (keep_offset_at env act offset (record w { log = es }))
    unfolding keep_offset_at targets offsets
    keep-Inv e i offset es f r =
        by_points (get_elem? ps n) (get_elem? (record_offset n offset ps) (suc n)) refl refl
      where
        ps : List (HandPitchScanPoint D)
        ps = w.fields.scan_points

        n : ℕ
        n = w.fields.current_scan_index

        by_points :
            (p q : Option (HandPitchScanPoint D))
            → get_elem? ps n ≡ p
            → get_elem? (record_offset n offset ps) (suc n) ≡ q
            → Leaves (Inv env) (keep_offset_at env act offset (record w { log = es }))
        by_points none q g h = ground (arith, f, r)
        by_points (some p) q g h = ground (
          arith,
          f,
          index-get ps n p g,
          target_at-record ps n n offset,
          targets-record ps n n offset,
          length-record ps n offset,
          r,
          offset_at-record ps n offset (index-get ps n p g),
          offsets-record ps n n offset (omega arith),
        )

    measured-Inv :
        w.state ≡ substep vision_wait
        → Inv env w
        → (es : Log D) → place_of es ≡ place_of w.log
        → places env es ≡ places env w.log
        → read_offsets env es ≡ read_offsets env w.log
        → Leaves (Inv env) (measured env act (record w { log = es }))
    unfolding measured
    measured-Inv e i es f g r = by_offsets (env.x_offset es) (env.y_offset es) refl refl
      where
        kept :
            (offset : D × D)
            → (is_readable (env.x_offset es) && is_readable (env.y_offset es)) ≡ true
            → offset_value env.zero (env.x_offset es) ≡ offset.0
            → offset_value env.zero (env.y_offset es) ≡ offset.1
            → Leaves (Inv env) (keep_offset_at env act offset (record w { log = read_data ∷ es }))
        kept offset ok left right =
            keep-Inv e i offset (read_data ∷ es) (rw (ok, f, g) refl) (rw (ok, left, right, r) refl)

        by_offsets :
            (a b : Offset D)
            → env.x_offset es ≡ a
            → env.y_offset es ≡ b
            → Leaves (Inv env) (measured env act (record w { log = es }))
        by_offsets absent absent h k =
            ground (arith, kept (env.zero, env.zero) (ground (arith, h, k)) (rw h refl) (rw k refl))
        by_offsets absent (number y) h k =
            ground (arith, kept (env.zero, y) (ground (arith, h, k)) (rw h refl) (rw k refl))
        by_offsets (number x) absent h k =
            ground (arith, kept (x, env.zero) (ground (arith, h, k)) (rw h refl) (rw k refl))
        by_offsets (number x) (number y) h k =
            ground (arith, kept (x, y) (ground (arith, h, k)) (rw h refl) (rw k refl))
        by_offsets malformed b h k = ground (arith, f, g, r)
        by_offsets absent malformed h k = ground (arith, f, g, r)
        by_offsets (number x) malformed h k = ground (arith, f, g, r)

    pub wait-Inv :
        w.state ≡ substep vision_wait → Inv env w → Leaves (Inv env) (handle_vision_wait env act w)
    unfolding handle_vision_wait
    wait-Inv e i =
        let late = read_clock (env.clock w.log) ∷ w.log in
        ground (
          arith,
          measured-Inv e i (asked_validity (env.valid w.log) ∷ w.log) refl refl refl,
          measured-Inv e i (asked_validity (env.valid late) ∷ late) refl refl refl,
        )
