-- ===== src/Actuators/Timer.antt =====
-- Equipment2015/Actuators/CTimer.cpp. The clock is given in ticks, of which a second has `per_second`;
-- the difference of two `clock_t` has 32 bits, so the product with 1000 does not wrap.
use vision_motion_framework.Prelude.{ℕ, ◌-◌, ◌*◌, ◌/◌, Bool, false, leb, if◌then◌else◌}

pub record Timer : Type 0 where
  pub check_time : ℕ
  pub start : ℕ

unfoldable pub start_timer : ℕ → Timer → Timer
start_timer now t = record t { start = now }

unfoldable pub new_timer : ℕ → ℕ → Timer
new_timer check_time now = record { check_time = check_time; start = now }

-- A clock that went back starts the timer again.
unfoldable pub is_over : ℕ → ℕ → Timer → Bool × Timer
unfolding start_timer
is_over per_second now t =
    if leb t.start now
    then (leb t.check_time ((now - t.start) * 1000 / per_second), t)
    else (false, start_timer now t)
