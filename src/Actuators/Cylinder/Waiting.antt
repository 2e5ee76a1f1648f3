-- ===== src/Actuators/Cylinder/Waiting.antt =====
-- How long a command of Equipment2015/Actuators/CCylinderBase.cpp waits, and what it answers.
use vision_motion_framework.Prelude.{
  ℕ, zero, suc, ◌+◌, ◌-◌, ◌*◌, ◌/◌, ◌≤◌, ◌<◌, ◌≡◌, refl, ap, ◌∙◌, Bool, true, false, not, ◌&&◌, leb,
  if◌then◌else◌, some, subst, arith,
}
use vision_motion_framework.Actuators.Timer.{Timer, new_timer, start_timer, is_over}
use vision_motion_framework.Actuators.Cylinder.{
  Cylinder, is_set, is_act_a, is_act_b, wait_for, act_a, act_b,
}

abbrev pub has_no_sensor : Cylinder → Bool
has_no_sensor c = not (is_set c.a_sensor) && not (is_set c.b_sensor)

is_act_a_lem : (c : Cylinder) → is_act_a c ≡ has_no_sensor c
unfolding is_act_a
is_act_a_lem c = ground arith

is_act_b_lem : (c : Cylinder) → is_act_b c ≡ has_no_sensor c
unfolding is_act_b
is_act_b_lem c = ground arith

abbrev elapsed : ℕ → ℕ → Timer → ℕ
elapsed per_second now t = (now - t.start) * 1000 / per_second

is_over-forward :
    (per_second now : ℕ) (t : Timer)
    → t.start ≤ now
    → is_over per_second now t ≡ (leb t.check_time (elapsed per_second now t), t)
unfolding is_over
is_over-forward per_second now t h = ground arith

-- With a clock that is never behind the start, the loop has ended at the reading when the time is up.
wait_for_lem :
    (per_second : ℕ) (there : Bool) (clock : ℕ → ℕ) (t : Timer) (k fuel n : ℕ)
    → ((m : ℕ) → t.start ≤ clock m)
    → t.check_time ≤ elapsed per_second (clock (n + k)) t
    → k < fuel
    → wait_for per_second there clock fuel n t ≡ some there
unfolding wait_for
wait_for_lem per_second there clock t k zero n forward up enough = absurd (omega arith)
wait_for_lem per_second true clock t k (suc fuel) n forward up enough = refl
wait_for_lem per_second false clock t zero (suc fuel) n forward up enough =
    rw (is_over-forward per_second (clock n) t (forward n))
      (ap (λ b. if b then some false else wait_for per_second false clock fuel (suc n) t) now)
  where
    now : leb t.check_time (elapsed per_second (clock n) t) ≡ true
    now = ground arith
wait_for_lem per_second false clock t (suc k) (suc fuel) n forward up enough =
    rw (is_over-forward per_second (clock n) t (forward n)) (
      either (leb t.check_time (elapsed per_second (clock n) t)) (
        wait_for_lem per_second false clock t k fuel (suc n) forward
          (subst (λ m. t.check_time ≤ elapsed per_second (clock m) t) (omega arith) up)
          (omega arith)))
  where
    either :
        (b : Bool)
        → wait_for per_second false clock fuel (suc n) t ≡ some false
        → (if b then some false else wait_for per_second false clock fuel (suc n) t) ≡ some false
    either true e = refl
    either false e = e

-- With a clock that is never behind the start of the timer, and more fuel than the readings until the
-- time of the cylinder is up, both commands end, and each of them answers TRUE if no sensor was set, and
-- FALSE if one was: whatever the machine does, and for both positions the same.
pub act_answers :
    (per_second : ℕ) (clock : ℕ → ℕ) (c : Cylinder) (k fuel : ℕ)
    → ((m : ℕ) → clock 1 ≤ clock m)
    → c.timer ≤ (clock (2 + k) - clock 1) * 1000 / per_second
    → k < fuel
    → (act_a per_second clock fuel c ≡ some (has_no_sensor c))
      × (act_b per_second clock fuel c ≡ some (has_no_sensor c))
unfolding act_a act_b start_timer new_timer
act_answers per_second clock c k fuel forward up enough =
    let t : Timer = record { check_time = c.timer; start = clock 1 } in
    (
      wait_for_lem per_second (is_act_a c) clock t k fuel 2 forward up enough
          ∙ ap some (is_act_a_lem c),
      wait_for_lem per_second (is_act_b c) clock t k fuel 2 forward up enough
          ∙ ap some (is_act_b_lem c),
    )
