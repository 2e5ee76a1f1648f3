-- ===== src/Vat/Travel.antt =====
-- When it is safe to travel: the calls of an actuator (DVH_Library/include/IVatActuator.h) in the log of
-- a task. `z` is the height at which nothing is in the way.
use vision_motion_framework.Prelude.{
  ltb, ℕ, ◌≡◌, ◌⊎◌, Bool, true, false, Option, none, some, List, [], ◌∷◌, ◌++◌, inl, inr,
  append_assoc, refl,
}
use vision_motion_framework.Vat.World.{
  Log, Event, World, moved_z, checked_z, moved, checked, read_clock,
}

-- The actuator has confirmed the height z, and no command has moved the tool up or down since.
abbrev pub IsUp : {D : Type 0} → D → Log D → Type 0
IsUp z [] = ⊥
IsUp z (moved_z d ok ∷ es) = ⊥
IsUp z (checked_z d true ∷ es) = (d ≡ z) ⊎ IsUp z es
IsUp z (_ ∷ es) = IsUp z es

-- Every command to travel was given while the tool was up.
abbrev pub TravelsUp : {D : Type 0} → D → Log D → Type 0
TravelsUp z [] = Unit {0}
TravelsUp z (moved p s ok ∷ es) = IsUp z es × TravelsUp z es
TravelsUp z (_ ∷ es) = TravelsUp z es

-- The actuator has confirmed the place p, and no command to travel has been given since.
abbrev pub IsAt : {D : Type 0} → List D → Log D → Type 0
IsAt p [] = ⊥
IsAt p (moved q s ok ∷ es) = ⊥
IsAt p (checked q s true ∷ es) = (q ≡ p) ⊎ IsAt p es
IsAt p (_ ∷ es) = IsAt p es

abbrev pub is_some : {A : Type 0} → Option A → Bool
is_some none = false
is_some (some a) = true

abbrev pub before_deadline : Option ℕ → Option ℕ → Bool
before_deadline (some d) (some t) = ltb t d
before_deadline _ _ = false

-- Since the old log the actuator has been asked once, and has denied, and then the clock has been read, before
-- the deadline.
abbrev pub WaitsInTime : {D : Type 0} → Option ℕ → Log D → Log D → Type 0
WaitsInTime deadline old (read_clock t ∷ (checked_z z false ∷ es)) =
    (es ≡ old) × (before_deadline deadline (some t) ≡ true)
WaitsInTime deadline old (read_clock t ∷ (checked p s false ∷ es)) =
    (es ≡ old) × (before_deadline deadline (some t) ≡ true)
WaitsInTime deadline old _ = ⊥

-- The call has been made.
abbrev pub Occurs : {D : Type 0} → Event D → Log D → Type 0
Occurs e [] = ⊥
Occurs e (x ∷ es) = (x ≡ e) ⊎ Occurs e es

pub Occurs-append_right :
    {D : Type 0} (e : Event D) (xs es : Log D) → Occurs e es → Occurs e (xs ++ es)
Occurs-append_right e [] es o = o
Occurs-append_right e (x ∷ xs) es o = inr (Occurs-append_right e xs es o)

pub Occurs-append_left :
    {D : Type 0} (e : Event D) (xs es : Log D) → Occurs e xs → Occurs e (xs ++ es)
Occurs-append_left e [] es o = absurd o
Occurs-append_left e (x ∷ xs) es (inl o) = inl o
Occurs-append_left e (x ∷ xs) es (inr o) = inr (Occurs-append_left e xs es o)

-- Nothing but these calls has happened to the object.
abbrev pub OnlyCalls : {S T D : Type 0} → Log D → World S T D → World S T D → Type 0
OnlyCalls es w w' = w' ≡ record w { log = es ++ w.log }

pub OnlyCalls-trans :
    {S T D : Type 0} (es fs : Log D) (w u v : World S T D)
    → OnlyCalls es w u
    → OnlyCalls fs u v
    → OnlyCalls (fs ++ es) w v
OnlyCalls-trans es fs w u v e f = rw (f, e, append_assoc fs es w.log) refl
