-- ===== src/Actuators/Switch/Exclusive.antt =====
-- Two switches of Equipment2015/Actuators/COPSwitch.cpp that stand in each other's group.
use mathlib.Core.Option.{some-injective}
use vision_motion_framework.Prelude.{
  ℕ, zero, suc, ◌<◌, ◌≡◌, ◌≢◌, refl, sym, ap, ◌∙◌, Bool, true, false, ◌&&◌, ◌==◌, if◌then◌else◌,
  Option, none, some, List, [], ◌∷◌, length, get_elem?, set, get_elem?-set, subst, arith,
}
use vision_motion_framework.Actuators.Dio.{Dio}
use vision_motion_framework.Actuators.Switch.{
  OpSwitch, set_switch_status, by_type, poll_switch, release, release_group, Panel, store_poll,
  poll_at, sequence,
}
use vision_motion_framework.Actuators.Switch.Toggle.{
  led_of-IsSameSwitch, by_type-group, poll_switch-some,
}

abbrev pub status_of : Option OpSwitch → Bool
status_of none = false
status_of (some s) = s.status

abbrev pub group_of : Option OpSwitch → Option ℕ
group_of none = none
group_of (some s) = s.group

-- The switch i is on; the group of the switch i.
abbrev pub is_on : ℕ → List OpSwitch → Bool
is_on i ss = status_of (get_elem? ss i)

abbrev pub group_at : ℕ → List OpSwitch → Option ℕ
group_at i ss = group_of (get_elem? ss i)

inside : (ss : List OpSwitch) (i : ℕ) (s : OpSwitch) → get_elem? ss i ≡ some s → i < length ss
inside [] i s e = cc
inside (x ∷ ss) zero s e = omega arith
inside (x ∷ ss) (suc i) s e = omega (arith, inside ss i s e)

poll_switch-group :
    {S : Type 0} (dio : Dio S) (per_second now : ℕ) (s s' : OpSwitch) (io io' : Option S)
    → poll_switch dio per_second now s io ≡ some (s', io')
    → s'.group ≡ s.group
poll_switch-group dio per_second now s s' io io' e =
    let (b, at, made, led) = poll_switch-some dio per_second now s s' io io' e in
    ap (λ (r : OpSwitch). r.group) made
    ∙ (led_of-IsSameSwitch per_second now (by_type s.type b s)).group
    ∙ by_type-group s.type b s

get-release_group :
    (ss : List OpSwitch) (j x : ℕ) (status : Bool)
    → (is_on x (release_group (some j) status ss)
        ≡ (if status && j == x then false else is_on x ss))
      × (group_at x (release_group (some j) status ss) ≡ group_at x ss)
unfolding release_group set_switch_status
get-release_group ss j x false = (refl, refl)
get-release_group ss j x true = go (get_elem? ss j) refl
  where
    go :
        (o : Option OpSwitch)
        → get_elem? ss j ≡ o
        → (is_on x (release o j ss) ≡ (if j == x then false else is_on x ss))
          × (group_at x (release o j ss) ≡ group_at x ss)
    go none at = ground arith
    go (some s) at =
        let new = get_elem?-set ss j x (set_switch_status false s) (inside ss j s at) in
        ground arith

-- What a poll of the switch k does to the panel's switches.
record IsPolled (k : ℕ) (ss ss' : List OpSwitch) : Type 0 where
  switch : OpSwitch
  same_group : group_at k ss ≡ switch.group
  polled : ss' ≡ release_group switch.group switch.status (set ss k switch)
  within : k < length ss

sequence-IsPolled :
    {S : Type 0} (dio : Dio S) (per_second now k : ℕ) (p p' : Panel S)
    → sequence dio per_second now k p ≡ some p'
    → IsPolled k p.switches p'.switches
unfolding sequence
sequence-IsPolled {S} dio per_second now k p p' e = go (get_elem? p.switches k) refl e
  where
    stored :
        (s : OpSwitch) (o : Option (OpSwitch × Option S))
        → get_elem? p.switches k ≡ some s
        → poll_switch dio per_second now s p.io ≡ o
        → store_poll dio k p o ≡ some p'
        → IsPolled k p.switches p'.switches
    stored s none at poll e = cc
    stored s (some (s', io)) at poll e = record {
      switch = s';
      same_group = ap group_of at ∙ sym (poll_switch-group dio per_second now s s' p.io io poll);
      polled = sym (ap (λ (q : Panel S). q.switches) (some-injective _ _ e));
      within = inside p.switches k s at;
    }

    go :
        (o : Option OpSwitch)
        → get_elem? p.switches k ≡ o
        → poll_at dio per_second now k p o ≡ some p'
        → IsPolled k p.switches p'.switches
    go none at e = cc
    go (some s) at e = stored s (poll_switch dio per_second now s p.io) at refl e

pub record AreExclusive (i j : ℕ) (ss : List OpSwitch) : Type 0 where
  pub group_i : group_at i ss ≡ some j
  pub group_j : group_at j ss ≡ some i
  pub not_both : is_on i ss && is_on j ss ≡ false

after_poll :
    (k x : ℕ) (ss : List OpSwitch) (s : OpSwitch)
    → k < length ss
    → (is_on x (set ss k s) ≡ (if k == x then s.status else is_on x ss))
      × (group_at x (set ss k s) ≡ (if k == x then s.group else group_at x ss))
after_poll k x ss s h = let new = get_elem?-set ss k x s h in ground arith

released :
    (k x : ℕ) (ss : List OpSwitch) (s : OpSwitch) (g : Option ℕ)
    → k < length ss
    → s.group ≡ g
    → group_at k ss ≡ g
    → (is_on x (release_group s.group s.status (set ss k s)) ≡ elim g [
      | none ↦ (if k == x then s.status else is_on x ss)
      | some j ↦ if s.status && j == x then false else (if k == x then s.status else is_on x ss)
    ])
      × (group_at x (release_group s.group s.status (set ss k s)) ≡ group_at x ss)
unfolding release_group
released k x ss s none h own old = let (on, group) = after_poll k x ss s h in rw own (ground arith)
released k x ss s (some j) h own old =
    let (on, group) = after_poll k x ss s h in
    let (on', group') = get-release_group (set ss k s) j x s.status in rw own (ground arith)

not_both_after :
    (i j k : ℕ) (ss : List OpSwitch) (s : OpSwitch) (g : Option ℕ)
    → k < length ss
    → i ≢ j
    → s.group ≡ g
    → group_at k ss ≡ g
    → AreExclusive i j ss
    → is_on i (release_group s.group s.status (set ss k s))
        && is_on j (release_group s.group s.status (set ss k s))
      ≡ false
not_both_after i j k ss s none h apart own old e =
    let on_i = released k i ss s none h own old in
    let on_j = released k j ss s none h own old in
    let not_i : k ≢ i = λ q. cc (ap (λ x. group_at x ss) q, e.group_i) in
    let not_j : k ≢ j = λ q. cc (ap (λ x. group_at x ss) q, e.group_j) in ground (arith, e.not_both)
not_both_after i j k ss s (some g) h apart own old e =
    let on_i = released k i ss s (some g) h own old in
    let on_j = released k j ss s (some g) h own old in
    let at_i : k ≡ i → g ≡ j =
      λ q. some-injective _ _ (sym old ∙ ap (λ x. group_at x ss) q ∙ e.group_i) in
    let at_j : k ≡ j → g ≡ i =
      λ q. some-injective _ _ (sym old ∙ ap (λ x. group_at x ss) q ∙ e.group_j) in
    ground (arith, e.not_both, at_i, at_j)

-- Polls of any switches, each with its time.
abbrev pub sequences : {S : Type 0} → Dio S → ℕ → List (ℕ × ℕ) → Panel S → Option (Panel S)
sequences dio per_second [] p = some p
sequences dio per_second ((k, now) ∷ ks) p = elim (sequence dio per_second now k p) [
  | none ↦ none
  | some p' ↦ sequences dio per_second ks p'
]

-- Two different switches that stand in each other's group and are not both on are never both on,
-- whatever switches of the panel are polled, in any order, and whatever the card answers; and they stay
-- in each other's group.
pub sequences-AreExclusive :
    {S : Type 0} (dio : Dio S) (per_second i j : ℕ) (ks : List (ℕ × ℕ)) (p p' : Panel S)
    → i ≢ j
    → AreExclusive i j p.switches
    → sequences dio per_second ks p ≡ some p'
    → AreExclusive i j p'.switches
sequences-AreExclusive dio per_second i j [] p p' apart x e =
    subst (λ (q : Panel _). AreExclusive i j q.switches) (some-injective _ _ e) x
sequences-AreExclusive {S} dio per_second i j ((k, now) ∷ ks) p p' apart x e =
    go (sequence dio per_second now k p) refl e
      (λ q. sequences-AreExclusive dio per_second i j ks q p' apart)
  where
    step : (q : Panel S) → sequence dio per_second now k p ≡ some q → AreExclusive i j q.switches
    step q at =
        let polled = sequence-IsPolled dio per_second now k p q at in
        let s = polled.switch in
        let g = s.group in
        subst (AreExclusive i j) (sym polled.polled) (record {
          group_i =
              (released k i p.switches s g polled.within refl polled.same_group).1 ∙ x.group_i;
          group_j =
              (released k j p.switches s g polled.within refl polled.same_group).1 ∙ x.group_j;
          not_both =
              not_both_after i j k p.switches s g polled.within apart refl polled.same_group x;
        })

    go :
        (o : Option (Panel S))
        → sequence dio per_second now k p ≡ o
        → elim o [ none ↦ none | some q ↦ sequences dio per_second ks q ] ≡ some p'
        → ((q : Panel S)
            → AreExclusive i j q.switches
            → sequences dio per_second ks q ≡ some p'
            → AreExclusive i j p'.switches)
        → AreExclusive i j p'.switches
    go none at e rest = cc
    go (some q) at e rest = rest q (step q at) e
