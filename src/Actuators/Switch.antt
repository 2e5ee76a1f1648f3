-- ===== src/Actuators/Switch.antt =====
-- Equipment2015/Actuators/COPSwitch.cpp: switches of an operator's panel, polled over a card that is
-- behind Equipment2015/Actuators/IDio.h. Switches are known by their index; `none` leaves the
-- language's rules.
pub mod Exclusive
pub mod Led
pub mod Toggle
use vision_motion_framework.Prelude.{
  ℕ, Bool, true, false, not, ◌&&◌, if◌then◌else◌, Option, none, some, List, [], ◌∷◌, get_elem?, set,
  ℤ,
}
use vision_motion_framework.Actuators.Dio.{Dio}
use vision_motion_framework.Actuators.Timer.{Timer, new_timer, is_over}

pub data SwitchType : Type 0 where
  keep push toggle : SwitchType

pub record OpSwitch : Type 0 where
  pub status : Bool
  pub toggle_flag : Bool
  pub blink_status : Bool
  pub type : SwitchType
  pub is_blink : Bool
  pub group : Option ℕ
  pub inputs : List ℤ
  pub outputs : List ℤ
  pub blink_timer : Option Timer

unfoldable pub op_switch : OpSwitch
op_switch = record {
  status = false;
  toggle_flag = false;
  blink_status = false;
  type = push;
  is_blink = false;
  group = none;
  inputs = [];
  outputs = [];
  blink_timer = none;
}

unfoldable pub set_group : Option ℕ → OpSwitch → OpSwitch
set_group group s = record s { group = group }

unfoldable pub set_option : SwitchType → Bool → ℕ → ℕ → OpSwitch → OpSwitch
set_option type is_blink interval now s = record s {
  type = type;
  is_blink = is_blink;
  blink_timer = some (new_timer interval now);
}

unfoldable pub set_switch_status : Bool → OpSwitch → OpSwitch
set_switch_status status s = record s { status = status }

-- What the sensor does to the status.
unfoldable pub by_type : SwitchType → Bool → OpSwitch → OpSwitch
unfolding set_switch_status
by_type keep sensor s = set_switch_status sensor s
by_type push sensor s = set_switch_status sensor s
by_type toggle sensor s =
    if sensor && not s.toggle_flag
    then set_switch_status (not s.status) (record s { toggle_flag = true })
    else if not sensor
    then record s { toggle_flag = false }
    else s

-- The LED as it is to be set, if it is; a blinking one turns over whenever the timer is over.
abbrev pub turn_over : Bool × Timer → OpSwitch → OpSwitch × Option Bool
turn_over (over, t) s =
    if over
    then (
      record s { blink_status = not s.blink_status; blink_timer = some t },
      some (not s.blink_status),
    )
    else (record s { blink_timer = some t }, none)

abbrev pub by_timer : ℕ → ℕ → Option Timer → OpSwitch → OpSwitch × Option Bool
by_timer per_second now none s = (s, none)
by_timer per_second now (some t) s = turn_over (is_over per_second now t) s

unfoldable pub led_of : ℕ → ℕ → OpSwitch → OpSwitch × Option Bool
led_of per_second now s =
    if s.is_blink
    then if s.status then by_timer per_second now s.blink_timer s else (s, some false)
    else (s, some s.status)

module _ {S : Type 0} (dio : Dio S) where
  unfoldable pub any_in : List ℤ → S → Option Bool
  any_in [] s = some false
  any_in (c ∷ cs) s = elim (dio.in_status c s) [
    | none ↦ none
    | some b ↦ elim b [ true ↦ some true | false ↦ any_in cs s ]
  ]

  unfoldable pub check_in_sensor : List ℤ → Option S → Option Bool
  unfolding any_in
  check_in_sensor inputs none = some false
  check_in_sensor inputs (some s) = any_in inputs s

  unfoldable pub set_outputs : Bool → List ℤ → S → Option S
  set_outputs b [] s = some s
  set_outputs b (c ∷ cs) s = elim (dio.out c b s) [ none ↦ none | some s' ↦ set_outputs b cs s' ]

  abbrev pub as_card : Option S → Option (Option S)
  as_card none = none
  as_card (some s) = some (some s)

  unfoldable pub set_led : Option Bool → List ℤ → Option S → Option (Option S)
  set_led none outputs io = some io
  set_led (some b) outputs none = some none
  set_led (some b) outputs (some s) = as_card (set_outputs b outputs s)

  abbrev pub with_io : OpSwitch → Option (Option S) → Option (OpSwitch × Option S)
  with_io s none = none
  with_io s (some io) = some (s, io)

  abbrev pub with_led : List ℤ → Option S → OpSwitch × Option Bool → Option (OpSwitch × Option S)
  with_led outputs io (s, led) = with_io s (set_led led outputs io)

  -- `sequence` up to the group.
  unfoldable pub poll_switch : ℕ → ℕ → OpSwitch → Option S → Option (OpSwitch × Option S)
  unfolding by_type led_of check_in_sensor set_led
  poll_switch per_second now s io = elim (check_in_sensor s.inputs io) [
    | none ↦ none
    | some sensor ↦ with_led s.outputs io (led_of per_second now (by_type s.type sensor s))
  ]

-- The switches of a panel and the card, which is none while setIo was not called.
pub record Panel (S : Type 0) : Type 0 where
  pub switches : List OpSwitch
  pub io : Option S

abbrev pub release : Option OpSwitch → ℕ → List OpSwitch → List OpSwitch
release none j ss = ss
release (some s) j ss = set ss j (set_switch_status false s)

unfoldable pub release_group : Option ℕ → Bool → List OpSwitch → List OpSwitch
unfolding set_switch_status
release_group none status ss = ss
release_group (some j) true ss = release (get_elem? ss j) j ss
release_group (some j) false ss = ss

module _ {S : Type 0} (dio : Dio S) where
  abbrev pub store_poll : ℕ → Panel S → Option (OpSwitch × Option S) → Option (Panel S)
  store_poll i p none = none
  store_poll i p (some (s, io)) =
      some (record { switches = release_group s.group s.status (set p.switches i s); io = io })

  abbrev pub poll_at : ℕ → ℕ → ℕ → Panel S → Option OpSwitch → Option (Panel S)
  poll_at per_second now i p none = none
  poll_at per_second now i p (some s) = store_poll i p (poll_switch dio per_second now s p.io)

  -- `sequence` of the switch i.
  unfoldable pub sequence : ℕ → ℕ → ℕ → Panel S → Option (Panel S)
  unfolding release_group poll_switch
  sequence per_second now i p = poll_at per_second now i p (get_elem? p.switches i)
