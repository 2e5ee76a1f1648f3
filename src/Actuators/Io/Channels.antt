-- ===== src/Actuators/Io/Channels.antt =====
-- Equipment2015/Actuators/CMmceIo.cpp as an implementation of Equipment2015/Actuators/IDio.h.
use vision_motion_framework.Prelude.{
  ℕ, zero, suc, ◌*◌, ◌/◌, ◌%◌, ◌<◌, ◌≡◌, refl, sym, ap, ◌∙◌, Bool, true, false, ◌&&◌, ◌==◌, ltb,
  leb, ltb→lt, if◌then◌else◌, Bool-cases, inl, inr, Option, none, some, List, [], ◌∷◌, length,
  length-append, length-replicate, ◌-◌, length-set, get_elem?-set, replicate, get_elem?, set, ℤ,
  pos, negsuc, arith,
}
use vision_motion_framework.Actuators.Dio.{Dio}
use vision_motion_framework.Actuators.Io.{
  MmceIo, total_bytes, with_bit, has_bit, out, read_at, status_in, out_status, in_status,
  store_inputs,
}
use vision_motion_framework.Actuators.Io.Bits.{has_bit-with_bit, with_bit-lt}

abbrev pub are_bytes : List ℕ → Bool
are_bytes [] = true
are_bytes (b ∷ bs) = ltb b 256 && are_bytes bs

abbrev pub is_valid : MmceIo → Bool
is_valid io =
    leb total_bytes (length io.input_buffer)
    && (length io.output_buffer == total_bytes && are_bytes io.output_buffer)

abbrev pub is_channel : ℤ → Bool
is_channel (pos n) = ltb n (total_bytes * 8)
is_channel (negsuc n) = false

abbrev pub is_same : ℤ → ℤ → Bool
is_same (pos n) (pos m) = n == m
is_same _ _ = false

byte_at :
    (xs : List ℕ) (i : ℕ)
    → are_bytes xs ≡ true
    → i < length xs
    → (m : ℕ) × (get_elem? xs i ≡ some m) × (m < 256)
byte_at [] i a h = absurd (omega arith)
byte_at (x ∷ xs) zero a h = (x, refl, ground arith)
byte_at (x ∷ xs) (suc i) a h = byte_at xs i (ground arith) (omega arith)

element_at : (xs : List ℕ) (i : ℕ) → i < length xs → (m : ℕ) × (get_elem? xs i ≡ some m)
element_at [] i h = absurd (omega arith)
element_at (x ∷ xs) zero h = (x, refl)
element_at (x ∷ xs) (suc i) h = element_at xs i (omega arith)

are_bytes-set :
    (xs : List ℕ) (i v : ℕ) → are_bytes xs ≡ true → v < 256 → are_bytes (set xs i v) ≡ true
are_bytes-set [] i v a h = refl
are_bytes-set (x ∷ xs) zero v a h = ground arith
are_bytes-set (x ∷ xs) (suc i) v a h = ground (arith, are_bytes-set xs i v)

status_in-pos :
    (buffer : List ℕ) (n : ℕ)
    → n < total_bytes * 8
    → status_in buffer (pos n) ≡ read_at n (get_elem? buffer (n / 8))
status_in-pos buffer n h = ground arith

-- A channel of the buffer behind a write.
read_written :
    (xs : List ℕ) (n d m : ℕ) (b : Bool)
    → n / 8 < length xs
    → get_elem? xs (n / 8) ≡ some m
    → m < 256
    → read_at d (get_elem? (set xs (n / 8) (with_bit b (n % 8) m)) (d / 8))
      ≡ (if n == d then some b else read_at d (get_elem? xs (d / 8)))
read_written xs n d m b inside at h =
    ap (read_at d) (get_elem?-set xs (n / 8) (d / 8) (with_bit b (n % 8) m) inside)
    ∙ elim (Bool-cases (n / 8 == d / 8)) [
      | inl same ↦ rw same (
          ap some (has_bit-with_bit b m (n % 8) (d % 8) h (omega arith) (omega arith))
          ∙ go (n % 8 == d % 8) refl same)
      | inr other ↦
          rw other
            (ap (λ t. if t then some b else read_at d (get_elem? xs (d / 8))) (sym (apart other)))
    ]
  where
    apart : (n / 8 == d / 8) ≡ false → (n == d) ≡ false
    apart e = ground arith

    byte : (n / 8 == d / 8) ≡ true → get_elem? xs (d / 8) ≡ some m
    byte e = ground arith

    go :
        (t : Bool)
        → (n % 8 == d % 8) ≡ t
        → (n / 8 == d / 8) ≡ true
        → some (if t then b else has_bit (d % 8) m)
          ≡ (if n == d then some b else read_at d (get_elem? xs (d / 8)))
    go true e same = ground arith
    go false e same = ground (arith, byte)

pub out_law :
    (c : ℤ) (b : Bool) (io : MmceIo)
    → is_valid io ≡ true
    → is_channel c ≡ true
    → (io' : MmceIo) × (out c b io ≡ some io')
      × (is_valid io' ≡ true)
      × ((d : ℤ)
          → is_channel d ≡ true
          → out_status d io' ≡ (if is_same c d then some b else out_status d io))
      × ((d : ℤ) → in_status d io' ≡ in_status d io)
unfolding out out_status in_status
out_law (negsuc n) b io v h = cc
out_law (pos n) b io v h =
    let inside : n / 8 < length io.output_buffer = ground arith in
    let (m, at, small) = byte_at io.output_buffer (n / 8) (ground arith) inside in
    let buffer = set io.output_buffer (n / 8) (with_bit b (n % 8) m) in
    let bytes : are_bytes buffer ≡ true =
      are_bytes-set io.output_buffer (n / 8) (with_bit b (n % 8) m) (ground arith)
        (with_bit-lt b m (n % 8) small (omega arith)) in
    let sized : length buffer ≡ length io.output_buffer =
      length-set io.output_buffer (n / 8) (with_bit b (n % 8) m) in
    (
      record io { output_buffer = buffer },
      rw at (ground arith),
      ground arith,
      reads m at small inside,
      λ d. refl,
    )
  where
    reads :
        (m : ℕ)
        → get_elem? io.output_buffer (n / 8) ≡ some m
        → m < 256
        → n / 8 < length io.output_buffer
        → (d : ℤ) → is_channel d ≡ true
        → status_in (set io.output_buffer (n / 8) (with_bit b (n % 8) m)) d
          ≡ (if is_same (pos n) d then some b else status_in io.output_buffer d)
    reads m at small inside (negsuc d) e = cc
    reads m at small inside (pos d) e =
        status_in-pos (set io.output_buffer (n / 8) (with_bit b (n % 8) m)) d (ltb→lt _ _ e)
        ∙ read_written io.output_buffer n d m b inside at small
        ∙ ap (λ t. if n == d then some b else t)
            (sym (status_in-pos io.output_buffer d (ltb→lt _ _ e)))

pub in_law :
    (c : ℤ) (io : MmceIo)
    → is_valid io ≡ true
    → is_channel c ≡ true
    → (b : Bool) × (in_status c io ≡ some b)
unfolding in_status
in_law (negsuc n) io v h = cc
in_law (pos n) io v h =
    let (m, at) = element_at io.input_buffer (n / 8) (ground arith) in
    (has_bit (n % 8) m, status_in-pos io.input_buffer n (ltb→lt _ _ h) ∙ ap (read_at n) at)

pub same_self : (c : ℤ) → is_channel c ≡ true → is_same c c ≡ true
same_self (pos n) h = ground arith
same_self (negsuc n) h = cc

unfoldable pub mmce_dio : Dio MmceIo
mmce_dio = record {
  out = out;
  out_status = out_status;
  in_status = in_status;
  is_valid = is_valid;
  is_channel = is_channel;
  is_same = is_same;
  out_lem = out_law;
  is_same-self = same_self;
  in_total = in_law;
}

-- What happens to a card: its owner sets an output, or its thread stores what the hardware answered.
pub data Operation : Type 0 where
  set_output : ℤ → Bool → Operation
  answered : List ℕ → Operation

abbrev pub run_operations : List Operation → MmceIo → Option MmceIo
run_operations [] io = some io
run_operations (set_output c b ∷ os) io = elim (out c b io) [
  | none ↦ none
  | some io' ↦ run_operations os io'
]
run_operations (answered bytes ∷ os) io = run_operations os (store_inputs bytes io)

abbrev pub AreChannels : List Operation → Type 0
AreChannels [] = Unit {0}
AreChannels (set_output c b ∷ os) = (is_channel c ≡ true) × AreChannels os
AreChannels (answered bytes ∷ os) = AreChannels os

-- What was last written to a channel, or what it was before.
abbrev pub last_written : ℤ → List Operation → Option Bool → Option Bool
last_written d [] b = b
last_written d (set_output c b ∷ os) b' = last_written d os (if is_same c d then some b else b')
last_written d (answered bytes ∷ os) b = last_written d os b

store_inputs-valid :
    (bytes : List ℕ) (io : MmceIo) → is_valid io ≡ true → is_valid (store_inputs bytes io) ≡ true
unfolding store_inputs
store_inputs-valid bytes io v = ground (
  arith,
  length-append bytes (replicate (total_bytes - length bytes) 0),
  length-replicate {A = ℕ} (total_bytes - length bytes) 0,
)

outputs_of :
    (bytes : List ℕ) (d : ℤ) (io : MmceIo) → out_status d (store_inputs bytes io) ≡ out_status d io
unfolding store_inputs out_status
outputs_of bytes d io = refl

-- From a valid card on, outputs on its channels can be set at any time between the rounds of its thread,
-- and then every channel reads what was last written to it, or what it read at first.
pub run_operations-last :
    (os : List Operation) (io : MmceIo)
    → is_valid io ≡ true
    → AreChannels os
    → (io' : MmceIo) × (run_operations os io ≡ some io')
      × (is_valid io' ≡ true)
      × ((d : ℤ) → is_channel d ≡ true → out_status d io' ≡ last_written d os (out_status d io))
run_operations-last [] io v all = (io, refl, v, λ d h. refl)
run_operations-last (set_output c b ∷ os) io v (h, all) =
    let (io', set, v', reads, kept) = out_law c b io v h in
    let (last, run, valid, reads') = run_operations-last os io' v' all in
    (
      last,
      ap (λ o. elim o [ none ↦ none | some io' ↦ run_operations os io' ]) set ∙ run,
      valid,
      λ d on. reads' d on ∙ ap (last_written d os) (reads d on),
    )
run_operations-last (answered bytes ∷ os) io v all =
    let (last, run, valid, reads) =
      run_operations-last os (store_inputs bytes io) (store_inputs-valid bytes io v) all in
    (last, run, valid, λ d on. reads d on ∙ ap (last_written d os) (same d))
  where
    same : (d : ℤ) → out_status d (store_inputs bytes io) ≡ out_status d io
    same d = outputs_of bytes d io
