-- ===== src/Load1/FindAlign/Ids.antt =====
-- The locations of the positions that CLoad1FindAlignPosTask.cpp works off, while it moves them from the
-- context to its own list.
use vision_motion_framework.Prelude.{
  ◌≡◌, refl, sym, ◌⊎◌, inl, inr, ap, true, false, Option, none, some, List, [], ◌∷◌, ◌++◌,
  append_assoc, ℤ, ◌∙◌,
}
use vision_motion_framework.Vat.Context.{
  Context, VisionPosition, back, front, behind, is_vision_position_empty,
}
use vision_motion_framework.Load1.FindAlign.{position_or, no_position}

unfoldable pub ids : {D : Type 0} → List (VisionPosition D) → List ℤ
ids [] = []
ids (p ∷ ps) = p.locate_id ∷ ids ps

abbrev pub id_of : {D : Type 0} → Option (VisionPosition D) → Option ℤ
id_of none = none
id_of (some p) = some p.locate_id

-- The location of the last position.
unfoldable pub last_id : List ℤ → Option ℤ
last_id [] = none
last_id (i ∷ []) = some i
last_id (i ∷ (j ∷ is)) = last_id (j ∷ is)

pub back-last_id : {D : Type 0} (ps : List (VisionPosition D)) → id_of (back ps) ≡ last_id (ids ps)
unfolding back ids last_id
back-last_id [] = refl
back-last_id (p ∷ []) = refl
back-last_id (p ∷ (q ∷ ps)) = back-last_id (q ∷ ps)

ids-append : {D : Type 0} (ps qs : List (VisionPosition D)) → ids (ps ++ qs) ≡ ids ps ++ ids qs
unfolding ids
ids-append [] qs = refl
ids-append (p ∷ ps) qs = ap (◌∷◌ p.locate_id) (ids-append ps qs)

last_id-append :
    {D : Type 0} (ps : List (VisionPosition D)) (p : VisionPosition D)
    → last_id (ids (ps ++ (p ∷ []))) ≡ some p.locate_id
unfolding last_id ids
last_id-append [] p = refl
last_id-append (q ∷ []) p = refl
last_id-append (q ∷ (r ∷ ps)) p = last_id-append (r ∷ ps) p

-- Behind the first position, the last one is the same, or it was the first one too.
unfoldable pub LastOf :
    {D : Type 0} → ℤ → List (VisionPosition D) → List (VisionPosition D) → Type 0
LastOf l aligned ps = ((ps ≡ []) × (last_id (ids aligned) ≡ some l)) ⊎ (last_id (ids ps) ≡ some l)

ids-moved :
    {D : Type 0} (ps : List (VisionPosition D)) (p : VisionPosition D) (place : List D)
    (qs : List (VisionPosition D))
    → ids ((ps ++ (record p { pos = place } ∷ [])) ++ qs) ≡ ids (ps ++ (p ∷ qs))
unfolding ids
ids-moved ps p place qs =
    ap ids (append_assoc ps (record p { pos = place } ∷ []) qs)
    ∙ ids-append ps (record p { pos = place } ∷ qs)
    ∙ sym (ids-append ps (p ∷ qs))

module _ {D : Type 0} (all : List ℤ) (l : ℤ) (aligned : List (VisionPosition D))
    (place : List D) where
  unfoldable pub front_or : List (VisionPosition D) → VisionPosition D
  front_or ps = position_or (front ps) no_position

  unfoldable pub aligned_after : List (VisionPosition D) → List (VisionPosition D)
  unfolding front_or
  aligned_after ps = let p = front_or ps in aligned ++ (record p { pos = place } ∷ [])

  pub align-conserves :
      (ps : List (VisionPosition D))
      → ids (aligned ++ ps) ≡ all
      → last_id (ids ps) ≡ some l
      → (ids (aligned_after ps ++ behind ps) ≡ all) × LastOf l (aligned_after ps) (behind ps)
  unfolding aligned_after front_or LastOf last_id ids
  align-conserves [] c e = cc
  align-conserves (p ∷ []) c e = (
    ids-moved aligned p place [] ∙ c,
    inl (refl, last_id-append aligned (record p { pos = place }) ∙ e),
  )
  align-conserves (p ∷ (q ∷ ps)) c e = (ids-moved aligned p place (q ∷ ps) ∙ c, inr e)

pub none_left :
    {D : Type 0} (c : Context D) → c.vision_positions ≡ [] → is_vision_position_empty c ≡ true
unfolding is_vision_position_empty
none_left c e = rw e refl

pub some_left :
    {D : Type 0} (c : Context D) (p : VisionPosition D) (ps : List (VisionPosition D))
    → c.vision_positions ≡ p ∷ ps
    → is_vision_position_empty c ≡ false
unfolding is_vision_position_empty
some_left c p ps e = rw e refl
