-- ===== src/Load1/HandPitch/Readings.antt =====
-- Which readings of the vision CLoad1PerformHandPitchScanningTask.cpp keeps with which points.
use vision_motion_framework.Prelude.{
  ◌≡◌, ◌≤◌, ◌<◌, refl, ℕ, zero, suc, Bool, true, false, ◌&&◌, Option, none, some, List, [], ◌∷◌,
  length, arith, ℤ,
}
use vision_motion_framework.Vat.World.{Env, Log, read_data}
use vision_motion_framework.Vat.Readings.{is_readable, offset_value}
use vision_motion_framework.Load1.HandPitch.{HandPitchScanPoint, Fields, record_offset}
use vision_motion_framework.Load1.HandPitch.Offsets.{with_results}

abbrev add_offset : {D : Type 0} → Bool → D × D → List (Option (D × D)) → List (Option (D × D))
add_offset true o os = some o ∷ os
add_offset false o os = os

-- The offsets that the vision has given, the last one first; vision data with a malformed offset is none.
abbrev pub read_offsets : {D : Type 0} → Env D → Log D → List (Option (D × D))
read_offsets env [] = []
read_offsets env (read_data ∷ es) =
    add_offset (is_readable (env.x_offset es) && is_readable (env.y_offset es))
      (offset_value env.zero (env.x_offset es), offset_value env.zero (env.y_offset es))
      (read_offsets env es)
read_offsets env (_ ∷ es) = read_offsets env es

module _ {D : Type 0} where
  -- The offset that a point has.
  unfoldable pub offset_at : List (HandPitchScanPoint D) → ℕ → Option (D × D)
  offset_at [] i = none
  offset_at (p ∷ ps) zero = some p.measured_offset
  offset_at (p ∷ ps) (suc i) = offset_at ps i

  -- Those of so many points, the last one first.
  unfoldable pub offsets : List (HandPitchScanPoint D) → ℕ → List (Option (D × D))
  offsets ps zero = []
  offsets ps (suc n) = offset_at ps n ∷ offsets ps n

  pub offset_at-record :
      (ps : List (HandPitchScanPoint D)) (i : ℕ) (o : D × D)
      → i < length ps
      → offset_at (record_offset i o ps) i ≡ some o
  unfolding offset_at record_offset
  offset_at-record [] i o inside = absurd (omega (arith, inside))
  offset_at-record (p ∷ ps) zero o inside = refl
  offset_at-record (p ∷ ps) (suc i) o inside = offset_at-record ps i o (omega (arith, inside))

  offset_at-before :
      (ps : List (HandPitchScanPoint D)) (i j : ℕ) (o : D × D)
      → j < i
      → offset_at (record_offset i o ps) j ≡ offset_at ps j
  unfolding offset_at record_offset
  offset_at-before [] i j o before = refl
  offset_at-before (p ∷ ps) zero j o before = absurd (omega (arith, before))
  offset_at-before (p ∷ ps) (suc i) zero o before = refl
  offset_at-before (p ∷ ps) (suc i) (suc j) o before =
      offset_at-before ps i j o (omega (arith, before))

  -- Those of the points before it are kept.
  pub offsets-record :
      (ps : List (HandPitchScanPoint D)) (i n : ℕ) (o : D × D)
      → n ≤ i
      → offsets (record_offset i o ps) n ≡ offsets ps n
  unfolding offsets
  offsets-record ps i zero o within = refl
  offsets-record ps i (suc n) o within =
      rw
        (
          offset_at-before ps i n o (omega (arith, within)),
          offsets-record ps i n o (omega (arith, within)),
        )
        refl

module _ {D : Type 0} (env : Env D) where
  pub read_offsets-with_results :
      (hand pkg : ℤ) (t : Fields D) (n row : ℕ) (es : Log D)
      → read_offsets env (with_results env hand pkg t n row es) ≡ read_offsets env es
  unfolding with_results
  read_offsets-with_results hand pkg t zero row es = refl
  read_offsets-with_results hand pkg t (suc n) row es =
      read_offsets-with_results hand pkg t n (suc row) _
