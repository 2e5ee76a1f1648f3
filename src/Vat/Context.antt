-- ===== src/Vat/Context.antt =====
-- DVH_Library/include/VAT_Context.h and DVH_Library/src/VAT_Context.cpp: the parameters, the inspection
-- positions, the stop flag and the last error that the tasks of a sequence share. A `double` is a value
-- of any type `D`. `std::map` is an association list; the processor and the repository are kept as
-- whether they are set. Each operation holds the context's lock throughout, so it is one step.
use Prim.Native.String.{String}
use text.Mathlib.Text.{◌==◌ as str_eq}
use text.Mathlib.TextEquality.{eq_iff}
use vision_motion_framework.Prelude.{
  ◌≡◌, refl, Bool, true, false, ◌||◌, if◌then◌else◌, Option, none, some, List, [], ◌∷◌, ◌++◌, ℤ,
  arith, Bool-cases, inl, inr,
}

abbrev pub StringMap : Type 0
StringMap = List (String × String)

unfoldable pub find : String → StringMap → Option String
find key [] = none
find key ((k, v) ∷ m) = if str_eq k key then some v else find key m

unfoldable pub assign : String → String → StringMap → StringMap
assign key value [] = (key, value) ∷ []
assign key value ((k, v) ∷ m) = if str_eq k key then (k, value) ∷ m else (k, v) ∷ assign key value m

pub record VisionPosition (D : Type 0) : Type 0 where
  pub pos : List D
  pub locate_id : ℤ
  pub vision_request_id : ℤ

pub record Context (D : Type 0) : Type 0 where
  pub processor : Bool
  pub repo : Bool
  pub last_error : String
  pub stop_requested : Bool
  pub seq_params : StringMap
  pub vision_params : StringMap
  pub vision_positions : List (VisionPosition D)

-- An empty text stands for a missing parameter, in `GetSeqParam` and in its callers.
abbrev or_empty : Option String → String
or_empty none = ""
or_empty (some v) = v

unfoldable pub get_param : String → StringMap → String
get_param key m = or_empty (find key m)

unfoldable pub is_empty : String → Bool
is_empty text = str_eq text ""

-- `ParamConverter<int>` and `ParamConverter<double>`: `parse` is `strtol` or `strtod` with the test
-- that it read the whole text.
unfoldable pub convert : {A : Type 0} → (String → Option A) → String → Option A
unfolding is_empty
convert parse text = if is_empty text then none else parse text

unfoldable pub convert_bool : String → Option Bool
convert_bool text =
    if str_eq text "1" || (str_eq text "true" || (str_eq text "TRUE" || str_eq text "True"))
    then some true
    else if str_eq text "0" || (str_eq text "false" || (str_eq text "FALSE" || str_eq text "False"))
    then some false
    else none

unfoldable pub format_bool : Bool → String
format_bool true = "true"
format_bool false = "false"

-- `GetSeqParamAs` and `GetVisionParamAs`, over the map that they read.
unfoldable pub convert_or : {A : Type 0} → (String → Option A) → A → String → A
unfolding is_empty
convert_or converter default text =
    if is_empty text then default else elim (converter text) [ none ↦ default | some v ↦ v ]

unfoldable pub get_param_as : {A : Type 0} → (String → Option A) → String → A → StringMap → A
get_param_as converter key default m = convert_or converter default (get_param key m)

module _ {D : Type 0} where
  unfoldable pub set_last_error : String → Context D → Context D
  set_last_error message c = record c { last_error = message }

  unfoldable pub set_stop_requested : Bool → Context D → Context D
  set_stop_requested stop c = record c { stop_requested = stop }

  -- `SetSeqParamAs`, with the formatted value.
  unfoldable pub set_seq_param : String → String → Context D → Context D
  set_seq_param key text c = record c { seq_params = assign key text c.seq_params }

  unfoldable pub set_vision_param : String → String → Context D → Context D
  set_vision_param key text c = record c { vision_params = assign key text c.vision_params }

  abbrev pub front : List (VisionPosition D) → Option (VisionPosition D)
  front [] = none
  front (p ∷ ps) = some p

  abbrev pub behind : List (VisionPosition D) → List (VisionPosition D)
  behind [] = []
  behind (p ∷ ps) = ps

  unfoldable pub back : List (VisionPosition D) → Option (VisionPosition D)
  back [] = none
  back (p ∷ []) = some p
  back (p ∷ (q ∷ ps)) = back (q ∷ ps)

  -- `none` is the answer false; the first position is taken out.
  unfoldable pub pop_vision_position : Context D → Option (VisionPosition D) × Context D
  pop_vision_position c =
      (front c.vision_positions, record c { vision_positions = behind c.vision_positions })

  -- The last position, which stays.
  unfoldable pub peek_vision_position : Context D → Option (VisionPosition D)
  unfolding back
  peek_vision_position c = back c.vision_positions

  unfoldable pub add_vision_position : VisionPosition D → Context D → Context D
  add_vision_position p c = record c { vision_positions = c.vision_positions ++ (p ∷ []) }

  unfoldable pub is_vision_position_empty : Context D → Bool
  is_vision_position_empty c = elim c.vision_positions [ [] ↦ true | _ ∷ _ ↦ false ]

find-assign :
    (key key' value : String) (m : StringMap)
    → find key' (assign key value m) ≡ (if str_eq key key' then some value else find key' m)
unfolding find assign
find-assign key key' value [] = refl
find-assign key key' value ((k, v) ∷ m) =
    ground (arith, eq_iff key key', eq_iff k key, eq_iff k key', find-assign key key' value m)

pub get_param-assign :
    (key key' value : String) (m : StringMap)
    → get_param key' (assign key value m) ≡ (if str_eq key key' then value else get_param key' m)
unfolding get_param
get_param-assign key key' value m = elim (Bool-cases (str_eq key key')) [
  | inl same ↦ rw (find-assign key key' value m, same) refl
  | inr other ↦ rw (find-assign key key' value m, other) refl
]

-- After a parameter was set, its key reads as the converted text, or as the default if the text is
-- empty or not convertible, and every other key as before.
get_param_as-set_seq_param :
    {A D : Type 0} (converter : String → Option A) (key key' text : String) (default : A)
    (c : Context D)
    → get_param_as converter key' default (set_seq_param key text c).seq_params ≡ (
        if str_eq key key'
        then convert_or converter default text
        else get_param_as converter key' default c.seq_params)
unfolding get_param_as set_seq_param
get_param_as-set_seq_param converter key key' text default c = elim (Bool-cases (str_eq key key')) [
  | inl same ↦ rw (get_param-assign key key' text c.seq_params, same) refl
  | inr other ↦ rw (get_param-assign key key' text c.seq_params, other) refl
]

-- A formatted Boolean is read back.
pub convert_bool-format_bool : (b : Bool) → convert_bool (format_bool b) ≡ some b
unfolding convert_bool format_bool
convert_bool-format_bool true = refl
convert_bool-format_bool false = refl
