-- ===== src/Actuators/Dio.antt =====
-- The interface Equipment2015/Actuators/IDio.h: digital inputs and outputs by channel, with what its
-- clients rely on.
use vision_motion_framework.Prelude.{◌≡◌, Bool, true, if◌then◌else◌, Option, some, ℤ}

-- A call that is `none` leaves the language's rules. `S` is the state of the card.
pub record Dio (S : Type 0) : Type 0 where
  pub out : ℤ → Bool → S → Option S
  pub out_status : ℤ → S → Option Bool
  pub in_status : ℤ → S → Option Bool
  pub is_valid : S → Bool
  pub is_channel : ℤ → Bool
  pub is_same : ℤ → ℤ → Bool
  -- An output that is set reads back so, and nothing else changes.
  pub out_lem :
      (c : ℤ) (b : Bool) (s : S)
      → is_valid s ≡ true
      → is_channel c ≡ true
      → (s' : S) × (out c b s ≡ some s')
        × (is_valid s' ≡ true)
        × ((d : ℤ)
            → is_channel d ≡ true
            → out_status d s' ≡ (if is_same c d then some b else out_status d s))
        × ((d : ℤ) → in_status d s' ≡ in_status d s)
  pub is_same-self : (c : ℤ) → is_channel c ≡ true → is_same c c ≡ true
  pub in_total :
      (c : ℤ) (s : S)
      → is_valid s ≡ true
      → is_channel c ≡ true
      → (b : Bool) × (in_status c s ≡ some b)
