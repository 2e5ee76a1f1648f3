-- ===== src/Actuators/Io/Bits.antt =====
-- The bits of a byte in Equipment2015/Actuators/CMmceIo.cpp.
use vision_motion_framework.Prelude.{
  ℕ, zero, suc, ◌<◌, ◌≡◌, refl, Bool, true, false, not, ◌&&◌, ◌==◌, ltb, ltb→lt, if◌then◌else◌,
  arith,
}
use vision_motion_framework.Actuators.Io.{with_bit, has_bit}

-- A test of every number under a bound.
holds_under : (ℕ → Bool) → ℕ → Bool
holds_under test zero = true
holds_under test (suc bound) = if test bound then holds_under test bound else false

holds_under_lem :
    (test : ℕ → Bool) (bound v : ℕ) → v < bound → holds_under test bound ≡ true → test v ≡ true
unfolding holds_under
holds_under_lem test zero v below tested = elim below [ ]
holds_under_lem test (suc bound) v below tested = ground (arith, holds_under_lem test bound v)

abbrev agree : Bool → Bool → Bool
agree true b = b
agree false b = not b

agree→eq : (a b : Bool) → agree a b ≡ true → a ≡ b
agree→eq true true e = refl
agree→eq true false e = cc
agree→eq false true e = cc
agree→eq false false e = refl

abbrev bit_law : Bool → ℕ → ℕ → ℕ → Bool
bit_law b m k j =
    agree (has_bit j (with_bit b k m)) (if k == j then b else has_bit j m)
    && ltb (with_bit b k m) 256

abbrev holds_at : Bool → ℕ → ℕ → Bool
holds_at b m k = holds_under (bit_law b m k) 8

abbrev holds_in : Bool → ℕ → Bool
holds_in b m = holds_under (holds_at b m) 8

bit_table : (b : Bool) → holds_under (holds_in b) 256 ≡ true
unfolding holds_under with_bit has_bit
bit_table true = refl
bit_table false = refl

bit_law_holds : (b : Bool) (m k j : ℕ) → m < 256 → k < 8 → j < 8 → bit_law b m k j ≡ true
bit_law_holds b m k j hm hk hj =
    let of_byte = holds_under_lem (holds_in b) 256 m hm (bit_table b) in
    let of_bit = holds_under_lem (holds_at b m) 8 k hk of_byte in
    holds_under_lem (bit_law b m k) 8 j hj of_bit

both : (a b : Bool) → a && b ≡ true → (a ≡ true) × (b ≡ true)
both true b e = (refl, e)
both false b e = cc

-- Of a byte whose bit k was written, bit k reads so and the others as before.
pub has_bit-with_bit :
    (b : Bool) (m k j : ℕ)
    → m < 256
    → k < 8
    → j < 8
    → has_bit j (with_bit b k m) ≡ (if k == j then b else has_bit j m)
has_bit-with_bit b m k j hm hk hj = agree→eq _ _ (both _ _ (bit_law_holds b m k j hm hk hj)).0

pub with_bit-lt : (b : Bool) (m k : ℕ) → m < 256 → k < 8 → with_bit b k m < 256
with_bit-lt b m k hm hk = ltb→lt _ _ (both _ _ (bit_law_holds b m k 0 hm hk (omega arith))).1
