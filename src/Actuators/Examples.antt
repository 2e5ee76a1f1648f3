-- ===== src/Actuators/Examples.antt =====
-- A card with a lamp and a switch, two switches that exclude each other, and a cylinder.
use vision_motion_framework.Prelude.{
  ℕ, ◌+◌, ◌*◌, ◌/◌, ◌≡◌, refl, Bool, true, false, Option, none, some, List, [], ◌∷◌, replicate, ℤ,
  pos, arith,
}
use vision_motion_framework.Actuators.Io.{MmceIo, out_status, in_status, has_bit}
use vision_motion_framework.Actuators.Io.Channels.{
  mmce_dio, is_valid, is_channel, Operation, set_output, answered, run_operations, last_written,
  run_operations-last,
}
use vision_motion_framework.Actuators.Switch.{
  OpSwitch, toggle, Panel, any_in, check_in_sensor, poll_switch, by_type, led_of, set_led,
  set_outputs, release_group, sequence,
}
use vision_motion_framework.Actuators.Switch.Toggle.{Tick, Senses, rises_oddly, flip_if, toggle_run}
use vision_motion_framework.Actuators.Switch.Led.{AllRead, lamps_show_status}
use vision_motion_framework.Actuators.Switch.Exclusive.{AreExclusive, sequences-AreExclusive}
use vision_motion_framework.Actuators.Cylinder.{Cylinder, cylinder, act_a, act_b, set_sensor_port_a}
use vision_motion_framework.Actuators.Cylinder.Waiting.{has_no_sensor, act_answers}

abbrev card : MmceIo
card = record { input_buffer = 4 ∷ replicate 15 0; output_buffer = replicate 16 0 }

abbrev operations : List Operation
operations =
    set_output (pos 9) true
    ∷ answered (1 ∷ [])
    ∷ set_output (pos 10) true
    ∷ set_output (pos 9) false
    ∷ []

run_operations-last_example :
    (io' : MmceIo) × (run_operations operations card ≡ some io')
    × (is_valid io' ≡ true)
    × ((d : ℤ)
        → is_channel d ≡ true
        → out_status d io' ≡ last_written d operations (out_status d card))
run_operations-last_example = run_operations-last operations card refl (refl, (refl, (refl, tt)))

abbrev switch_at : List ℤ → Option ℕ → OpSwitch
switch_at inputs group = record {
  status = false;
  toggle_flag = false;
  blink_status = false;
  type = toggle;
  is_blink = false;
  group = group;
  inputs = inputs;
  outputs = pos 17 ∷ pos 3 ∷ [];
  blink_timer = none;
}

lamps_show_status_example :
    (s' : OpSwitch) × (card' : MmceIo) × (poll_switch mmce_dio 1000 5
        (switch_at (pos 2 ∷ []) none)
        (some card)
      ≡ some (s', some card'))
    × (is_valid card' ≡ true)
    × AllRead mmce_dio s'.status (pos 17 ∷ pos 3 ∷ []) card'
unfolding mmce_dio
lamps_show_status_example =
    lamps_show_status mmce_dio 1000 5 (switch_at (pos 2 ∷ []) none) card refl refl (refl, tt)
      (refl, (refl, tt))

-- Pressed, let go, and pressed again, with no lamp.
abbrev button : OpSwitch
button = record (switch_at (pos 2 ∷ []) none) { outputs = [] }

abbrev ticks : List (Tick MmceIo)
ticks =
    record { now = 1; card = some card }
    ∷ record { now = 2; card = some (record card { input_buffer = replicate 16 0 }) }
    ∷ record { now = 3; card = some card }
    ∷ []

toggle_run_example :
    (bs : List Bool) × Senses mmce_dio 1000 (pos 2 ∷ []) ticks bs
    × (false ≡ flip_if (rises_oddly false bs) false)
unfolding poll_switch by_type led_of check_in_sensor any_in set_led set_outputs mmce_dio in_status
    has_bit
toggle_run_example =
    toggle_run mmce_dio 1000 ticks button (record button { toggle_flag = true }) refl refl

-- The first switch is on and the second one is pressed: the card has nothing to say.
abbrev panel : Panel MmceIo
panel = record {
  switches =
      record (switch_at [] (some 1)) { status = true; outputs = [] }
      ∷ record (switch_at (pos 2 ∷ []) (some 0)) { outputs = [] }
      ∷ [];
  io = some card;
}

abbrev panel_after : Panel MmceIo
panel_after = record {
  switches =
      record (switch_at [] (some 1)) { outputs = [] }
      ∷ record (switch_at (pos 2 ∷ []) (some 0)) { status = true; toggle_flag = true; outputs = [] }
      ∷ [];
  io = some card;
}

sequences-AreExclusive_example : AreExclusive 0 1 panel_after.switches
unfolding sequence release_group poll_switch by_type led_of check_in_sensor any_in set_led
    set_outputs mmce_dio in_status has_bit
sequences-AreExclusive_example =
    sequences-AreExclusive mmce_dio 1000 0 1 ((0, 5) ∷ (1, 6) ∷ []) panel panel_after (omega arith)
      (record { group_i = refl; group_j = refl; not_both = refl }) refl

-- A cylinder with a sensor and a clock of a tick for each reading.
abbrev watched : Cylinder
watched = set_sensor_port_a (7 ∷ []) (record (cylinder "clamp" 1 2) { timer = 3 })

-- The clock stands still between the first two readings.
abbrev slow_clock : ℕ → ℕ
slow_clock m = m / 2 * 2 + 1

act_answers_example :
    (act_a 1000 slow_clock 9 watched ≡ some (has_no_sensor watched))
    × (act_b 1000 slow_clock 9 watched ≡ some (has_no_sensor watched))
unfolding cylinder set_sensor_port_a
act_answers_example =
    act_answers 1000 slow_clock watched 4 9 (λ m. omega arith) (omega arith) (omega arith)
