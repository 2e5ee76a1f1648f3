-- ===== src/Actuators/Switch/Led.antt =====
-- The lamps of a switch of Equipment2015/Actuators/COPSwitch.cpp over any card that keeps the laws of
-- its interface.
use vision_motion_framework.Prelude.{
  ℕ, ◌≡◌, refl, ap, ◌∙◌, Bool, true, false, if◌then◌else◌, Option, none, some, List, [], ◌∷◌, ℤ,
  arith,
}
use vision_motion_framework.Actuators.Dio.{Dio}
use vision_motion_framework.Actuators.Switch.{
  OpSwitch, SwitchType, keep, push, toggle, by_type, led_of, any_in, check_in_sensor, set_outputs,
  set_led, as_card, with_io, with_led, poll_switch,
}

by_type-is_blink :
    (type : SwitchType) (b : Bool) (s : OpSwitch) → (by_type type b s).is_blink ≡ s.is_blink
unfolding by_type
by_type-is_blink keep b s = refl
by_type-is_blink push b s = refl
by_type-is_blink toggle b s = ground arith

led_of-steady :
    (per_second now : ℕ) (s : OpSwitch)
    → s.is_blink ≡ false
    → led_of per_second now s ≡ (s, some s.status)
unfolding led_of
led_of-steady per_second now s e = simp e

module _ {S : Type 0} (dio : Dio S) where
  abbrev pub AreChannels : List ℤ → Type 0
  AreChannels [] = Unit {0}
  AreChannels (c ∷ cs) = (dio.is_channel c ≡ true) × AreChannels cs

  abbrev pub AllRead : Bool → List ℤ → S → Type 0
  AllRead b [] s = Unit {0}
  AllRead b (c ∷ cs) s = (dio.out_status c s ≡ some b) × AllRead b cs s

  any_in-total :
      (cs : List ℤ) (s : S)
      → dio.is_valid s ≡ true
      → AreChannels cs
      → (b : Bool) × (any_in dio cs s ≡ some b)
  unfolding any_in
  any_in-total [] s v all = (false, refl)
  any_in-total (c ∷ cs) s v (h, all) =
      let (b, at) = dio.in_total c s v h in
      let (rest, more) = any_in-total cs s v all in go b at rest more
    where
      go :
          (b : Bool)
          → dio.in_status c s ≡ some b
          → (rest : Bool) → any_in dio cs s ≡ some rest
          → (b : Bool) × (any_in dio (c ∷ cs) s ≡ some b)
      go true at rest more = (true, ap (step rest) at)
        where
          step : Bool → Option Bool → Option Bool
          step rest o = elim o [
            | none ↦ none
            | some b ↦ elim b [ true ↦ some true | false ↦ any_in dio cs s ]
          ]
      go false at rest more = (rest, ap step at ∙ more)
        where
          step : Option Bool → Option Bool
          step o = elim o [
            | none ↦ none
            | some b ↦ elim b [ true ↦ some true | false ↦ any_in dio cs s ]
          ]

  -- What reads b goes on to read b.
  set_outputs-reads :
      (b : Bool) (cs : List ℤ) (s : S)
      → dio.is_valid s ≡ true
      → AreChannels cs
      → (s' : S) × (set_outputs dio b cs s ≡ some s')
        × (dio.is_valid s' ≡ true)
        × AllRead b cs s'
        × ((d : ℤ)
            → dio.is_channel d ≡ true
            → dio.out_status d s ≡ some b
            → dio.out_status d s' ≡ some b)
  unfolding set_outputs
  set_outputs-reads b [] s v all = (s, refl, v, tt, λ d h e. e)
  set_outputs-reads b (c ∷ cs) s v (h, all) =
      let (s1, set, v1, reads, kept) = dio.out_lem c b s v h in
      let (s2, run, v2, lit, stays) = set_outputs-reads b cs s1 v1 all in
      let own : dio.out_status c s1 ≡ some b =
        reads c h ∙ ap (λ t. if t then some b else dio.out_status c s) (dio.is_same-self c h) in
      (
        s2,
        ap (λ o. elim o [ none ↦ none | some s' ↦ set_outputs dio b cs s' ]) set ∙ run,
        v2,
        (stays c h own, lit),
        λ d on e. stays d on (reads d on ∙ either (dio.is_same c d) _ e),
      )
    where
      either : (t : Bool) (o : Option Bool) → o ≡ some b → (if t then some b else o) ≡ some b
      either true o e = refl
      either false o e = e

  -- A switch that does not blink can be polled over a valid card, and then all its lamps show its status.
  pub lamps_show_status :
      (per_second now : ℕ) (s : OpSwitch) (card : S)
      → s.is_blink ≡ false
      → dio.is_valid card ≡ true
      → AreChannels s.inputs
      → AreChannels s.outputs
      → (s' : OpSwitch) × (card' : S) × (poll_switch dio per_second now s (some card)
          ≡ some (s', some card'))
        × (dio.is_valid card' ≡ true)
        × AllRead s'.status s.outputs card'
  unfolding poll_switch check_in_sensor set_led
  lamps_show_status per_second now s card steady v ins outs =
      let (b, at) = any_in-total s.inputs card v ins in
      let r = by_type s.type b s in
      let (card', set, v', lit, kept) = set_outputs-reads r.status s.outputs card v outs in
      let led : led_of per_second now r ≡ (r, some r.status) =
        led_of-steady per_second now r (by_type-is_blink s.type b s ∙ steady) in
      (
        r,
        card',
        ap (polled s card) at
            ∙ ap (with_led dio s.outputs (some card)) led
            ∙ ap (λ o. with_io dio r (as_card dio o)) set,
        v',
        lit,
      )
    where
      polled : OpSwitch → S → Option Bool → Option (OpSwitch × Option S)
      polled s card o = elim o [
        | none ↦ none
        | some b ↦ with_led dio s.outputs (some card) (led_of per_second now (by_type s.type b s))
      ]
