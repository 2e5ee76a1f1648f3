-- ===== src/Vision/Bytes.antt =====
-- VisionCom/Include/ByteOrder.h: 32-bit integers as four bytes, the lowest first. An `int32_t` is
-- its bit pattern, a number below 2 ^ 32.
use vision_motion_framework.Prelude.{
  ℕ, suc, ◌+◌, ◌*◌, ◌/◌, ◌%◌, ◌^◌, ◌<◌, ◌≡◌, refl, ap, ltb, if◌then◌else◌, Option, none, some, List,
  [], ◌∷◌, ◌++◌, length, get_or, arith, length-append, zero, append_assoc, ge→ltb, ◌∙◌, ◌↔◌,
}

-- The four bytes `v & 0xFF`, `(v >> 8) & 0xFF`, and so on.
unfoldable pub int32_bytes : ℕ → List ℕ
int32_bytes v = (v % 256) ∷ (v / 2 ^ 8 % 256) ∷ (v / 2 ^ 16 % 256) ∷ (v / 2 ^ 24 % 256) ∷ []

unfoldable pub append_int32 : List ℕ → ℕ → List ℕ
unfolding int32_bytes
append_int32 payload v = payload ++ int32_bytes v

-- The four shifted bytes joined by `|`; for bytes below 256 no two of them share a bit.
unfoldable pub bytes_int32 : ℕ → ℕ → ℕ → ℕ → ℕ
bytes_int32 a b c d = a + b * 2 ^ 8 + c * 2 ^ 16 + d * 2 ^ 24

unfoldable pub try_read_int32_le : List ℕ → ℕ → Option ℕ
unfolding bytes_int32
try_read_int32_le bytes offset =
    if ltb (length bytes) (offset + 4)
    then none
    else some (
        bytes_int32 (get_or bytes offset 0) (get_or bytes (offset + 1) 0)
          (get_or bytes (offset + 2) 0) (get_or bytes (offset + 3) 0))

pub bytes_int32-int32_bytes :
    (v : ℕ)
    → v < 2 ^ 32
    → bytes_int32 (v % 256) (v / 2 ^ 8 % 256) (v / 2 ^ 16 % 256) (v / 2 ^ 24 % 256) ≡ v
unfolding bytes_int32
bytes_int32-int32_bytes v h = omega arith

-- Reading past a prefix.
pub get_or-append :
    (xs ys : List ℕ) (i j : ℕ) → j ≡ length xs + i → get_or (xs ++ ys) j 0 ≡ get_or ys i 0
get_or-append [] ys i j e = ap (λ k. get_or ys k 0) (e ∙ omega arith)
get_or-append (x ∷ xs) ys i zero e = absurd (omega arith)
get_or-append (x ∷ xs) ys i (suc j) e = get_or-append xs ys i j (omega arith)

-- A 32-bit integer appended to any payload is read back at the payload's end, whatever follows it.
try_read_int32_le-append_int32 :
    (payload rest : List ℕ) (v : ℕ)
    → v < 2 ^ 32
    → try_read_int32_le (append_int32 payload v ++ rest) (length payload) ≡ some v
unfolding try_read_int32_le append_int32
try_read_int32_le-append_int32 payload rest v h = rw (append_assoc payload (int32_bytes v) rest) (
    rw
      (
        get_or-append payload (int32_bytes v ++ rest) 0 (length payload) (omega arith),
        get_or-append payload (int32_bytes v ++ rest) 1 (length payload + 1) refl,
        get_or-append payload (int32_bytes v ++ rest) 2 (length payload + 2) refl,
        get_or-append payload (int32_bytes v ++ rest) 3 (length payload + 3) refl,
        ge→ltb (length (payload ++ (int32_bytes v ++ rest))) (length payload + 4)
            (omega (arith, length-append payload (int32_bytes v ++ rest))),
      )
      (ap some (bytes_int32-int32_bytes v h)))

-- A read fails exactly when its four bytes do not all lie inside the array.
try_read_int32_le-none :
    (bytes : List ℕ) (offset : ℕ)
    → (try_read_int32_le bytes offset ≡ none) ↔ (length bytes < offset + 4)
unfolding try_read_int32_le
try_read_int32_le-none bytes offset = ground arith
