-- ===== src/Vat/World.antt =====
-- What a task of DVH_Library/include/ITask.h works on and talks to. The actuator
-- (DVH_Library/include/IVatActuator.h), the vision processor (IVisionProcessor.h), the repository
-- (IDataRepository.h), the clock and the number parsers are not the tasks' code: an `Env` says what
-- each call answers, as any function of all the calls before it, and the log keeps every call.
use Prim.Native.String.{String}
use vision_motion_framework.Prelude.{
  ℕ, Bool, true, false, Option, none, some, List, ◌∷◌, get_elem?, ℤ,
}
use vision_motion_framework.Vat.Context.{Context, StringMap}

pub data PitchStatus : Type 0 where
  narrow wide : PitchStatus

pub data VatCommand : Type 0 where
  set_cok insp_ready measure device_check light_command unknown_command : VatCommand

-- A number under a key of the vision data: no such key, a number, or a text that `std::stod` refuses
-- with an exception.
pub data Offset (D : Type 0) : Type 0 where
  absent : Offset D
  number : D → Offset D
  malformed : Offset D

-- The calls, with their answers; the Boolean of a motion call says whether it answered `ActOk`.
pub data Event (D : Type 0) : Type 0 where
  moved_z : D → Bool → Event D
  checked_z : D → Bool → Event D
  moved : List D → PitchStatus → Bool → Event D
  checked : List D → PitchStatus → Bool → Event D
  got_position : List D → Event D
  got_pulse : List D → Event D
  light : ℤ → Bool → Event D
  receiver_initialized : Event D
  requested : VatCommand → StringMap → Bool → Event D
  asked_validity : Bool → Event D
  read_data : Event D
  read_clock : ℕ → Event D
  loaded_group : ℤ → Option (List ℤ) → Event D
  loaded_z : ℤ → ℤ → ℤ → Option D → Event D
  saved_z : ℤ → ℤ → ℤ → D → Bool → Event D
  saved_calibration : ℤ → ℤ → ℤ → D → D → Event D
  saved_hand_pitch : ℤ → ℤ → ℕ → ℕ → D × D → D × D → Event D

-- The latest call first.
abbrev pub Log : Type 0 → Type 0
Log D = List (Event D)

pub record Env (D : Type 0) : Type 0 where
  pub zero : D
  pub add : D → D → D
  pub sub : D → D → D
  pub mul : D → D → D
  pub div : D → D → D
  pub equal : D → D → Bool
  pub less : D → D → Bool
  -- `literal n k` is the constant n / 10 ^ k.
  pub literal : ℤ → ℕ → D
  pub parse_int : String → Option ℤ
  pub parse_double : String → Option D
  pub format_int : ℤ → String
  pub format_double : D → String
  pub move_z : Log D → D → Bool
  pub is_move_z : Log D → D → Bool
  pub move : Log D → List D → PitchStatus → Bool
  pub is_move : Log D → List D → PitchStatus → Bool
  pub position : Log D → List D
  pub pulse : Log D → List D
  pub request : Log D → VatCommand → StringMap → Bool
  pub valid : Log D → Bool
  pub x_offset : Log D → Offset D
  pub y_offset : Log D → Offset D
  pub clock : Log D → ℕ
  pub load_group : Log D → ℤ → Option (List ℤ)
  pub load_z : Log D → ℤ → ℤ → ℤ → Option D
  pub save_z : Log D → ℤ → ℤ → ℤ → D → Bool

-- `m_state_`: the common states, or a state of the task's own enumeration.
pub data TaskState (S : Type 0) : Type 0 where
  uninitialized common_error : TaskState S
  substep : S → TaskState S

-- A task's object, the context and the log. `deadline` is `none` while `m_hasDeadline_` is false;
-- `fields` are the members of the derived class.
pub record World (S T D : Type 0) : Type 0 where
  pub state : TaskState S
  pub initialized : Bool
  pub deadline : Option ℕ
  pub fields : T
  pub ctx : Context D
  pub log : Log D

-- A C++ exception carries its text; `undefined` is a null pointer or an index out of range.
pub data Outcome (W A : Type 0) : Type 0 where
  ret : A → W → Outcome W A
  throw : String → W → Outcome W A
  undefined : Outcome W A

abbrev pub M : Type 0 → Type 0 → Type 0
M W A = W → Outcome W A

infixl 5 ◌>>=◌ ◌>>◌
abbrev pub ◌>>=◌ : {W A B : Type 0} → M W A → (A → M W B) → M W B
◌>>=◌ m f w = elim (m w) [ ret a w' ↦ f a w' | throw e w' ↦ throw e w' | undefined ↦ undefined ]

abbrev pub ◌>>◌ : {W B : Type 0} → M W (Unit {0}) → M W B → M W B
m >> k = m >>= λ _. k

abbrev pub pure : {W A : Type 0} → A → M W A
pure a w = ret a w

abbrev pub fault : {W A : Type 0} → M W A
fault w = undefined

abbrev pub modify : {W : Type 0} → (W → W) → M W (Unit {0})
modify f w = ret tt (f w)

abbrev pub get : {W : Type 0} → M W W
get w = ret w w

-- A dereferenced pointer, or an element that must be there.
abbrev pub deref : {W A : Type 0} → Option A → M W A
deref none = fault
deref (some a) = pure a

abbrev pub require : {W : Type 0} → Bool → M W (Unit {0})
require true = pure tt
require false = fault

module _ {S T D : Type 0} where
  abbrev pub logged : Event D → World S T D → World S T D
  logged e w = record w { log = e ∷ w.log }

  abbrev pub set_fields : T → M (World S T D) (Unit {0})
  set_fields t = modify λ w. record w { fields = t }

  abbrev pub set_ctx : Context D → M (World S T D) (Unit {0})
  set_ctx c = modify λ w. record w { ctx = c }

  abbrev pub element : List D → ℕ → M (World S T D) D
  element xs i = deref (get_elem? xs i)

  module _ (env : Env D) where
    abbrev pub move_z : D → M (World S T D) Bool
    move_z z w = let ok = env.move_z w.log z in ret ok (logged (moved_z z ok) w)

    abbrev pub is_move_z : D → M (World S T D) Bool
    is_move_z z w = let ok = env.is_move_z w.log z in ret ok (logged (checked_z z ok) w)

    abbrev pub move : List D → PitchStatus → M (World S T D) Bool
    move p s w = let ok = env.move w.log p s in ret ok (logged (moved p s ok) w)

    abbrev pub is_move : List D → PitchStatus → M (World S T D) Bool
    is_move p s w = let ok = env.is_move w.log p s in ret ok (logged (checked p s ok) w)

    abbrev pub get_position : M (World S T D) (List D)
    get_position w = let p = env.position w.log in ret p (logged (got_position p) w)

    abbrev pub get_pulse : M (World S T D) (List D)
    get_pulse w = let p = env.pulse w.log in ret p (logged (got_pulse p) w)

    abbrev pub set_light_state : ℤ → Bool → M (World S T D) (Unit {0})
    set_light_state camera on w = ret tt (logged (light camera on) w)

    abbrev pub read_now : M (World S T D) ℕ
    read_now w = let t = env.clock w.log in ret t (logged (read_clock t) w)
