-- ===== src/Processor/Layout.antt =====
-- DVH_Library/include/VisionPacketSLT.h: the bodies of packets as bytes. A text is the list of its bytes,
-- an `int` its 32-bit pattern, and a structure the bytes of its fields in order.
pub mod Texts
use vision_motion_framework.Prelude.{
  ℕ, zero, suc, ◌+◌, ◌-◌, ◌==◌, if◌then◌else◌, Option, none, some, List, [], ◌∷◌, ◌++◌, get_or, set,
  take, drop, replicate,
}
use vision_motion_framework.Vision.Bytes.{int32_bytes, bytes_int32}

abbrev pub str_len : ℕ
str_len = 64

abbrev pub data_size : ℕ
data_size = 10

-- The characters of a text before its terminating zero.
unfoldable pub until_nul : List ℕ → List ℕ
until_nul [] = []
until_nul (b ∷ bs) = if b == 0 then [] else b ∷ until_nul bs

unfoldable pub pad : ℕ → List ℕ → List ℕ
pad zero bs = []
pad (suc n) [] = 0 ∷ pad n []
pad (suc n) (b ∷ bs) = b ∷ pad n bs

-- What `strncpy_s` with `_TRUNCATE` makes of a cleared field.
unfoldable pub field : List ℕ → List ℕ
field text = pad str_len (take (str_len - 1) (until_nul text))

abbrev pub empty_field : List ℕ
empty_field = replicate str_len 0

abbrev pub concat : List (List ℕ) → List ℕ
concat [] = []
concat (bs ∷ rest) = bs ++ concat rest

-- CPacketBody_S107F9.
pub record MeasureBody : Type 0 where
  pub data_id : ℕ
  pub status : ℕ
  pub c_data : List (List ℕ)

unfoldable pub cleared_measure_body : MeasureBody
cleared_measure_body = record { data_id = 0; status = 0; c_data = replicate data_size empty_field }

unfoldable pub set_data : ℕ → Option (List ℕ) → MeasureBody → MeasureBody
set_data i none b = b
set_data i (some text) b = record b { c_data = set b.c_data i (field text) }

unfoldable pub measure_bytes : MeasureBody → List ℕ
measure_bytes b = int32_bytes b.data_id ++ (int32_bytes b.status ++ concat b.c_data)

abbrev pub measure_size : ℕ
measure_size = 648

-- CPacketBody_S2F42, and CPacketBody_S2F4.
abbrev pub acknowledge_size : ℕ
acknowledge_size = 12

abbrev pub device_check_size : ℕ
device_check_size = 652

unfoldable pub int_at : ℕ → List ℕ → ℕ
int_at i body =
    bytes_int32 (get_or body i 0) (get_or body (i + 1) 0) (get_or body (i + 2) 0)
      (get_or body (i + 3) 0)

-- `std::string` of an array of characters; without a zero in the array it would be read past its end.
unfoldable pub c_string : List ℕ → Option (List ℕ)
c_string [] = none
c_string (b ∷ bs) =
    let rest = c_string bs in
    if b == 0 then some [] else elim rest [ none ↦ none | some cs ↦ some (b ∷ cs) ]

-- The field i of the texts that begin at the offset.
unfoldable pub text_at : ℕ → ℕ → List ℕ → Option (List ℕ)
text_at offset zero body = c_string (take str_len (drop offset body))
text_at offset (suc i) body = text_at (offset + str_len) i body
