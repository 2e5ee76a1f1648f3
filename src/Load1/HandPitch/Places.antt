-- ===== src/Load1/HandPitch/Places.antt =====
-- The places of the measurements in a log, and those of the points, for
-- CLoad1PerformHandPitchScanningTask.cpp.
use vision_motion_framework.Prelude.{
  ◌≡◌, ◌<◌, refl, ℕ, zero, suc, ◌*◌, Bool, true, false, ◌&&◌, Option, none, some, List, [], ◌∷◌,
  length, length-append, get_elem?, arith, ℤ,
}
use vision_motion_framework.Vat.World.{Env, Log, read_data, PitchStatus}
use vision_motion_framework.Vat.Readings.{place_of, is_readable}
use vision_motion_framework.Load1.HandPitch.{
  HandPitchScanPoint, Fields, column_points, build_scan_points, plane, record_offset,
}
use vision_motion_framework.Load1.HandPitch.Offsets.{with_results}

abbrev add_place :
    {D : Type 0}
    → Bool
    → Option (List D × PitchStatus)
    → List (Option (List D × PitchStatus))
    → List (Option (List D × PitchStatus))
add_place true p ps = p ∷ ps
add_place false p ps = ps

-- Where the vision data was taken, the last one first, unless an offset in it was malformed.
abbrev pub places : {D : Type 0} → Env D → Log D → List (Option (List D × PitchStatus))
places env [] = []
places env (read_data ∷ es) =
    add_place (is_readable (env.x_offset es) && is_readable (env.y_offset es)) (place_of es)
      (places env es)
places env (_ ∷ es) = places env es

module _ {D : Type 0} where
  -- The place and the pitch of a point.
  unfoldable pub target_at : List (HandPitchScanPoint D) → ℕ → Option (List D × PitchStatus)
  target_at [] i = none
  target_at (p ∷ ps) zero = some (plane p.target_position, p.pitch_mode)
  target_at (p ∷ ps) (suc i) = target_at ps i

  -- Those of so many points, the last one first.
  unfoldable pub targets : List (HandPitchScanPoint D) → ℕ → List (Option (List D × PitchStatus))
  targets ps zero = []
  targets ps (suc n) = target_at ps n ∷ targets ps n

  pub target_at-get :
      (ps : List (HandPitchScanPoint D)) (i : ℕ) (p : HandPitchScanPoint D)
      → get_elem? ps i ≡ some p
      → target_at ps i ≡ some (plane p.target_position, p.pitch_mode)
  unfolding target_at
  target_at-get [] i p e = cc
  target_at-get (q ∷ ps) zero p e = ground (arith, e)
  target_at-get (q ∷ ps) (suc i) p e = target_at-get ps i p e

  pub target_at-record :
      (ps : List (HandPitchScanPoint D)) (i j : ℕ) (offset : D × D)
      → target_at (record_offset i offset ps) j ≡ target_at ps j
  unfolding target_at record_offset
  target_at-record [] i j offset = refl
  target_at-record (p ∷ ps) zero zero offset = refl
  target_at-record (p ∷ ps) zero (suc j) offset = refl
  target_at-record (p ∷ ps) (suc i) zero offset = refl
  target_at-record (p ∷ ps) (suc i) (suc j) offset = target_at-record ps i j offset

  pub targets-record :
      (ps : List (HandPitchScanPoint D)) (i n : ℕ) (offset : D × D)
      → targets (record_offset i offset ps) n ≡ targets ps n
  unfolding targets
  targets-record ps i zero offset = refl
  targets-record ps i (suc n) offset =
      rw (target_at-record ps i n offset, targets-record ps i n offset) refl

  pub index-get :
      (ps : List (HandPitchScanPoint D)) (i : ℕ) (p : HandPitchScanPoint D)
      → get_elem? ps i ≡ some p
      → i < length ps
  index-get [] i p e = cc
  index-get (q ∷ ps) zero p e = omega arith
  index-get (q ∷ ps) (suc i) p e = ground (arith, index-get ps i p e)

  pub length-record :
      (ps : List (HandPitchScanPoint D)) (i : ℕ) (offset : D × D)
      → length (record_offset i offset ps) ≡ length ps
  unfolding record_offset
  length-record [] i offset = refl
  length-record (p ∷ ps) zero offset = refl
  length-record (p ∷ ps) (suc i) offset = rw (length-record ps i offset) refl

module _ {D : Type 0} (env : Env D) where
  length-column_points :
      (t : Fields D) (mode : PitchStatus) (col n row : ℕ)
      → length (column_points env t mode col n row) ≡ n
  unfolding column_points
  length-column_points t mode col zero row = refl
  length-column_points t mode col (suc n) row =
      rw (length-column_points t mode col n (suc row)) refl

  -- Four points for each row: two columns, narrow and wide.
  pub length-build :
      (t : Fields D) → length (build_scan_points env t).scan_points ≡ 4 * t.picker_max_row
  unfolding build_scan_points
  length-build t = simp (length-append, length-column_points) (omega arith)

  pub places-with_results :
      (hand pkg : ℤ) (t : Fields D) (n row : ℕ) (es : Log D)
      → places env (with_results env hand pkg t n row es) ≡ places env es
  unfolding with_results
  places-with_results hand pkg t zero row es = refl
  places-with_results hand pkg t (suc n) row es = places-with_results hand pkg t n (suc row) _
