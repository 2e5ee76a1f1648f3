-- ===== src/Actuators/Switch/Toggle.antt =====
-- A switch of the type TOGGLE of Equipment2015/Actuators/COPSwitch.cpp over many polls.
use mathlib.Core.Option.{some-injective}
use vision_motion_framework.Prelude.{
  ℕ, ◌≡◌, refl, sym, ap, ◌∙◌, Bool, true, false, not, if◌then◌else◌, Option, none, some, List, [],
  ◌∷◌, ℤ, subst, arith,
}
use vision_motion_framework.Actuators.Dio.{Dio}
use vision_motion_framework.Actuators.Timer.{Timer, is_over}
use vision_motion_framework.Actuators.Switch.{
  OpSwitch, SwitchType, keep, push, toggle, by_type, by_timer, led_of, turn_over, check_in_sensor,
  set_led, with_io, with_led, poll_switch,
}

-- What only the sensor changes, and what nothing changes.
pub record IsSameSwitch (s s' : OpSwitch) : Type 0 where
  pub status : s'.status ≡ s.status
  pub toggle_flag : s'.toggle_flag ≡ s.toggle_flag
  pub type : s'.type ≡ s.type
  pub group : s'.group ≡ s.group
  pub inputs : s'.inputs ≡ s.inputs
  pub outputs : s'.outputs ≡ s.outputs

same_switch : (s : OpSwitch) → IsSameSwitch s s
same_switch s = record {
  status = refl;
  toggle_flag = refl;
  type = refl;
  group = refl;
  inputs = refl;
  outputs = refl;
}

pub led_of-IsSameSwitch :
    (per_second now : ℕ) (s : OpSwitch) → IsSameSwitch s (led_of per_second now s).0
unfolding led_of
led_of-IsSameSwitch per_second now s = go s.is_blink s.status s.blink_timer
  where
    turned : (o : Bool × Timer) → IsSameSwitch s (turn_over o s).0
    turned (true, t) = record {
      status = refl;
      toggle_flag = refl;
      type = refl;
      group = refl;
      inputs = refl;
      outputs = refl;
    }
    turned (false, t) = record {
      status = refl;
      toggle_flag = refl;
      type = refl;
      group = refl;
      inputs = refl;
      outputs = refl;
    }

    go :
        (blink on : Bool) (timer : Option Timer)
        → IsSameSwitch s
            (if blink
              then (if on then by_timer per_second now timer s else (s, some false))
              else (s, some s.status)).0
    go true true none = same_switch s
    go true true (some t) = turned (is_over per_second now t)
    go true false timer = same_switch s
    go false on timer = same_switch s

pub by_type-group :
    (type : SwitchType) (b : Bool) (s : OpSwitch) → (by_type type b s).group ≡ s.group
unfolding by_type
by_type-group keep b s = refl
by_type-group push b s = refl
by_type-group toggle b s = ground arith

-- A poll, by its parts.
module _ {S : Type 0} (dio : Dio S) (per_second now : ℕ) where
  with_led-some :
      (outputs : List ℤ) (io io' : Option S) (r : OpSwitch × Option Bool) (s' : OpSwitch)
      → with_led dio outputs io r ≡ some (s', io')
      → (s' ≡ r.0) × (set_led dio r.1 outputs io ≡ some io')
  with_led-some outputs io io' (s, led) s' e = go (set_led dio led outputs io) e
    where
      go : (o : Option (Option S)) → with_io dio s o ≡ some (s', io') → (s' ≡ s) × (o ≡ some io')
      go none e = cc
      go (some x) e =
          let same = some-injective _ _ e in
          (
            sym (ap (λ (r : OpSwitch × Option S). r.0) same),
            ap (λ (r : OpSwitch × Option S). some r.1) same,
          )

  pub poll_switch-some :
      (s s' : OpSwitch) (io io' : Option S)
      → poll_switch dio per_second now s io ≡ some (s', io')
      → (b : Bool) × (check_in_sensor dio s.inputs io ≡ some b)
        × (s' ≡ (led_of per_second now (by_type s.type b s)).0)
        × (set_led dio (led_of per_second now (by_type s.type b s)).1 s.outputs io ≡ some io')
  unfolding poll_switch
  poll_switch-some s s' io io' e = go (check_in_sensor dio s.inputs io) refl e
    where
      go :
          (o : Option Bool)
          → check_in_sensor dio s.inputs io ≡ o
          → elim o [
            | none ↦ none
            | some b ↦ with_led dio s.outputs io (led_of per_second now (by_type s.type b s))
          ]
            ≡ some (s', io')
          → (b : Bool) × (check_in_sensor dio s.inputs io ≡ some b)
            × (s' ≡ (led_of per_second now (by_type s.type b s)).0)
            × (set_led dio (led_of per_second now (by_type s.type b s)).1 s.outputs io ≡ some io')
      go none at e = cc
      go (some b) at e =
          let (same, led) = with_led-some s.outputs io io' _ s' e in (b, at, same, led)

-- Whether the sensors' values, behind the given one, rise an odd number of times.
abbrev pub rises_oddly : Bool → List Bool → Bool
rises_oddly before [] = false
rises_oddly false (true ∷ bs) = not (rises_oddly true bs)
rises_oddly before (b ∷ bs) = rises_oddly b bs

abbrev pub flip_if : Bool → Bool → Bool
flip_if true b = not b
flip_if false b = b

by_type-toggle :
    (b : Bool) (s : OpSwitch) (bs : List Bool)
    → ((by_type toggle b s).toggle_flag ≡ b)
      × (flip_if (rises_oddly b bs) (by_type toggle b s).status
          ≡ flip_if (rises_oddly s.toggle_flag (b ∷ bs)) s.status)
unfolding by_type
by_type-toggle true s bs = go s.toggle_flag s
  where
    go :
        (flag : Bool) (s : OpSwitch)
        → ((if not flag
              then record s { status = not s.status; toggle_flag = true }
              else record s { toggle_flag = flag }).toggle_flag
            ≡ true)
          × (flip_if
                (rises_oddly true bs)
                (if not flag
                  then record s { status = not s.status; toggle_flag = true }
                  else record s { toggle_flag = flag }).status
              ≡ flip_if (rises_oddly flag (true ∷ bs)) s.status)
    go true s = (refl, refl)
    go false s = (refl, flips (rises_oddly true bs) s.status)
      where
        flips : (odd b : Bool) → flip_if odd (not b) ≡ flip_if (not odd) b
        flips true true = refl
        flips true false = refl
        flips false b = refl
by_type-toggle false s bs = ground arith

by_type-kept :
    (type : SwitchType) (b : Bool) (s : OpSwitch)
    → ((by_type type b s).type ≡ s.type) × ((by_type type b s).inputs ≡ s.inputs)
unfolding by_type
by_type-kept keep b s = (refl, refl)
by_type-kept push b s = (refl, refl)
by_type-kept toggle b s = ground arith

-- The time of a poll, and the card as the poll finds it.
pub record Tick (S : Type 0) : Type 0 where
  pub now : ℕ
  pub card : Option S

module _ {S : Type 0} (dio : Dio S) (per_second : ℕ) where
  abbrev pub poll_all : List (Tick S) → OpSwitch → Option OpSwitch
  poll_all [] s = some s
  poll_all (t ∷ ts) s = elim (poll_switch dio per_second t.now s t.card) [
    | none ↦ none
    | some r ↦ poll_all ts r.0
  ]

  -- The values of the sensor at the polls.
  abbrev pub Senses : List ℤ → List (Tick S) → List Bool → Type 0
  Senses inputs [] bs = bs ≡ []
  Senses inputs (t ∷ ts) [] = ⊥
  Senses inputs (t ∷ ts) (b ∷ bs) =
      (check_in_sensor dio inputs t.card ≡ some b) × Senses inputs ts bs

  poll_all-step :
      (t : Tick S) (ts : List (Tick S)) (s s' : OpSwitch)
      → poll_all (t ∷ ts) s ≡ some s'
      → (r : OpSwitch) × (io : Option S) × (poll_switch dio per_second t.now s t.card
          ≡ some (r, io))
        × (poll_all ts r ≡ some s')
  poll_all-step t ts s s' e = go (poll_switch dio per_second t.now s t.card) refl e
    where
      go :
          (o : Option (OpSwitch × Option S))
          → poll_switch dio per_second t.now s t.card ≡ o
          → elim o [ none ↦ none | some r ↦ poll_all ts r.0 ] ≡ some s'
          → (r : OpSwitch) × (io : Option S) × (poll_switch dio per_second t.now s t.card
              ≡ some (r, io))
            × (poll_all ts r ≡ some s')
      go none at e = cc
      go (some (r, io)) at e = (r, io, at, e)

  -- A poll of a toggle switch: the sensor's value becomes the flag.
  toggle_poll :
      (t : Tick S) (s s' : OpSwitch) (io : Option S)
      → s.type ≡ toggle
      → poll_switch dio per_second t.now s t.card ≡ some (s', io)
      → (b : Bool) × (check_in_sensor dio s.inputs t.card ≡ some b)
        × (s'.type ≡ toggle)
        × (s'.inputs ≡ s.inputs)
        × (s'.toggle_flag ≡ b)
        × ((bs : List Bool)
            → flip_if (rises_oddly b bs) s'.status
              ≡ flip_if (rises_oddly s.toggle_flag (b ∷ bs)) s.status)
  toggle_poll t s s' io is e =
      let (b, at, made, led) = poll_switch-some dio per_second t.now s s' t.card io e in
      let typed : s' ≡ (led_of per_second t.now (by_type toggle b s)).0 =
        made ∙ ap (λ y. (led_of per_second t.now (by_type y b s)).0) is in
      let same = led_of-IsSameSwitch per_second t.now (by_type toggle b s) in
      let (type, inputs) = by_type-kept toggle b s in
      (
        b,
        at,
        ap (λ (r : OpSwitch). r.type) typed ∙ same.type ∙ type ∙ is,
        ap (λ (r : OpSwitch). r.inputs) typed ∙ same.inputs ∙ inputs,
        ap (λ (r : OpSwitch). r.toggle_flag) typed ∙ same.toggle_flag ∙ (by_type-toggle b s []).0,
        λ bs.
            ap (λ (r : OpSwitch). flip_if (rises_oddly b bs) r.status) typed
            ∙ ap (flip_if (rises_oddly b bs)) same.status
            ∙ (by_type-toggle b s bs).1,
      )

  -- A toggle switch that is polled any number of times, with any card and at any time, changes its status
  -- once for each rise of its sensor: behind the polls it is what it was at first, turned over if the
  -- values of the sensor, behind the one that the flag keeps, rose an odd number of times.
  pub toggle_run :
      (ts : List (Tick S)) (s s' : OpSwitch)
      → s.type ≡ toggle
      → poll_all ts s ≡ some s'
      → (bs : List Bool) × Senses s.inputs ts bs
        × (s'.status ≡ flip_if (rises_oddly s.toggle_flag bs) s.status)
  toggle_run [] s s' is e = ([], refl, sym (ap (λ (r : OpSwitch). r.status) (some-injective _ _ e)))
  toggle_run (t ∷ ts) s s' is e =
      let (r, io, one, rest) = poll_all-step t ts s s' e in
      let (b, at, type, inputs, flag, turned) = toggle_poll t s r io is one in
      let (bs, all, status) = toggle_run ts r s' type rest in
      (
        b ∷ bs,
        (at, subst (λ cs. Senses cs ts bs) inputs all),
        status ∙ ap (λ f. flip_if (rises_oddly f bs) r.status) flag ∙ turned bs,
      )
