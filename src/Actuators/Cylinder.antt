-- ===== src/Actuators/Cylinder.antt =====
-- Equipment2015/Actuators/CCylinderBase.cpp as it stands, with the calls of the hardware commented out.
-- The clock is a function of the number of the reading, and the loop takes fuel.
pub mod Waiting
use Prim.Native.String.{String}
use vision_motion_framework.Prelude.{
  ℕ, zero, suc, ◌+◌, ◌-◌, ◌*◌, ◌/◌, ◌≤◌, ◌<◌, ◌≡◌, refl, sym, ap, ◌∙◌, Bool, true, false, not, ◌&&◌,
  leb, if◌then◌else◌, Bool-cases, ◌⊎◌, inl, inr, Option, none, some, List, [], ◌∷◌, arith,
}
use vision_motion_framework.Actuators.Timer.{Timer, new_timer, start_timer, is_over}

pub record Cylinder : Type 0 where
  pub name : String
  pub a_sensor : List ℕ
  pub b_sensor : List ℕ
  pub timer : ℕ
  pub delay : ℕ
  pub out_a : ℕ
  pub out_b : ℕ

unfoldable pub cylinder : String → ℕ → ℕ → Cylinder
cylinder name a b = record {
  name = name;
  a_sensor = [];
  b_sensor = [];
  timer = 0;
  delay = 3000;
  out_a = a;
  out_b = b;
}

unfoldable pub set_sensor_port_a : List ℕ → Cylinder → Cylinder
set_sensor_port_a list c = record c { a_sensor = list }

unfoldable pub set_sensor_port_b : List ℕ → Cylinder → Cylinder
set_sensor_port_b list c = record c { b_sensor = list }

unfoldable pub set_delay : ℕ → ℕ → Cylinder → Cylinder
set_delay timer delay c = record c { timer = timer; delay = delay }

abbrev pub is_set : List ℕ → Bool
is_set [] = false
is_set (p ∷ ps) = true

-- A loop over the ports leaves at the first of them.
unfoldable pub is_act_a : Cylinder → Bool
is_act_a c =
    let port_a = if is_set c.a_sensor then false else true in
    let port_b = if is_set c.b_sensor then true else false in port_a && not port_b

unfoldable pub is_act_b : Cylinder → Bool
is_act_b c =
    let none_set = not (is_set c.a_sensor) && not (is_set c.b_sensor) in
    let port_a = if none_set then false else if is_set c.a_sensor then true else false in
    let port_b = if none_set then true else if is_set c.b_sensor then false else true in
    not port_a && port_b

-- The loop from the reading n of the clock on; it ends with TRUE or FALSE, and `none` is no fuel left.
unfoldable pub wait_for : ℕ → Bool → (ℕ → ℕ) → ℕ → ℕ → Timer → Option Bool
wait_for per_second there clock zero n t = none
wait_for per_second there clock (suc fuel) n t =
    let (over, t') = is_over per_second (clock n) t in
    let rest = wait_for per_second there clock fuel (suc n) t' in
    if there then some true else if over then some false else rest

-- The reading 0 starts the timer in its constructor, the reading 1 in `startTimer`.
abbrev pub started : (ℕ → ℕ) → Cylinder → Timer
started clock c = start_timer (clock 1) (new_timer c.timer (clock 0))

unfoldable pub act_a : ℕ → (ℕ → ℕ) → ℕ → Cylinder → Option Bool
unfolding wait_for is_act_a start_timer new_timer
act_a per_second clock fuel c = wait_for per_second (is_act_a c) clock fuel 2 (started clock c)

unfoldable pub act_b : ℕ → (ℕ → ℕ) → ℕ → Cylinder → Option Bool
unfolding wait_for is_act_b start_timer new_timer
act_b per_second clock fuel c = wait_for per_second (is_act_b c) clock fuel 2 (started clock c)
