-- ===== src/Processor/Store.antt =====
-- DVH_Library/src/VisionProcessorBase.cpp: the answers of the vision by command, and whether each command
-- has been answered. A text is the list of its bytes. A map with commands for keys is a function. Each
-- operation holds the lock throughout, so it is one step.
use Prim.Native.String.{String}
use text.Mathlib.Text.{◌==◌ as str_eq}
use vision_motion_framework.Prelude.{
  ℕ, ◌≡◌, refl, Bool, true, false, ◌==◌, if◌then◌else◌, Option, none, some, List, [], ◌∷◌,
}
use vision_motion_framework.Vat.World.{
  VatCommand, set_cok, insp_ready, measure, device_check, light_command, unknown_command,
}

abbrev pub DataMap : Type 0
DataMap = List (String × List ℕ)

unfoldable pub value : String → DataMap → Option (List ℕ)
value key [] = none
value key ((k, v) ∷ m) = if str_eq k key then some v else value key m

abbrev index : VatCommand → ℕ
index set_cok = 0
index insp_ready = 1
index measure = 2
index device_check = 3
index light_command = 4
index unknown_command = 5

abbrev pub is_same : VatCommand → VatCommand → Bool
is_same a b = index a == index b

-- A key with a new value, or without one.
abbrev pub put :
    {A : Type 0} → VatCommand → Option A → (VatCommand → Option A) → VatCommand → Option A
put command v m command' = if is_same command command' then v else m command'

pub record Store : Type 0 where
  pub received : VatCommand → Option Bool
  pub latest_data : VatCommand → Option DataMap

unfoldable pub empty_store : Store
empty_store = record { received = λ c. none; latest_data = λ c. none }

abbrev or_no_data : Option DataMap → DataMap
or_no_data none = []
or_no_data (some values) = values

unfoldable pub get_latest_data : VatCommand → Store → DataMap
get_latest_data command s = or_no_data (s.latest_data command)

unfoldable pub set_latest_data : VatCommand → DataMap → Store → Store
set_latest_data command values s = record {
  received = put command (some true) s.received;
  latest_data = put command (some values) s.latest_data;
}

unfoldable pub clear_latest_data : VatCommand → Store → Store
clear_latest_data command s = record {
  received = put command none s.received;
  latest_data = put command none s.latest_data;
}

abbrev pub is_true : Option Bool → Bool
is_true none = false
is_true (some b) = b

abbrev pub has_data : Option DataMap → Bool
has_data none = false
has_data (some []) = false
has_data (some (e ∷ es)) = true

unfoldable pub is_valid : VatCommand → Store → Bool
is_valid command s =
    if is_true (s.received command) then has_data (s.latest_data command) else false

unfoldable pub has_received : VatCommand → Store → Bool
has_received command s = is_true (s.received command)

unfoldable pub set_received : VatCommand → Bool → Store → Store
set_received command received s = record s { received = put command (some received) s.received }

unfoldable pub clear_received : VatCommand → Store → Store
clear_received command s = record s { received = put command none s.received }

-- Setting and clearing concern their own command.
pub is_valid-set_latest_data :
    (command command' : VatCommand) (e : String × List ℕ) (es : DataMap) (s : Store)
    → is_valid command' (set_latest_data command (e ∷ es) s)
      ≡ (if is_same command command' then true else is_valid command' s)
unfolding is_valid set_latest_data
is_valid-set_latest_data command command' e es s = go (is_same command command')
  where
    go :
        (b : Bool)
        → (if is_true (if b then some true else s.received command')
            then has_data (if b then some (e ∷ es) else s.latest_data command')
            else false)
          ≡ (if b
              then true
              else if is_true (s.received command')
              then has_data (s.latest_data command')
              else false)
    go true = refl
    go false = refl

pub is_valid-clear_latest_data :
    (command command' : VatCommand) (s : Store)
    → is_valid command' (clear_latest_data command s)
      ≡ (if is_same command command' then false else is_valid command' s)
unfolding is_valid clear_latest_data
is_valid-clear_latest_data command command' s = go (is_same command command')
  where
    go :
        (b : Bool)
        → (if is_true (if b then none else s.received command')
            then has_data (if b then none else s.latest_data command')
            else false)
          ≡ (if b
              then false
              else if is_true (s.received command')
              then has_data (s.latest_data command')
              else false)
    go true = refl
    go false = refl
