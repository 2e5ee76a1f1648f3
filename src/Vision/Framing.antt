-- ===== src/Vision/Framing.antt =====
-- What cutting a byte stream into frames means, and the loop over the framer's `next_frame`
-- (VisionCom/Include/FixedLengthFramer.h).
use vision_motion_framework.Prelude.{
  ℕ, zero, suc, ◌≤◌, ◌<◌, ◌≡◌, refl, sym, ap, ◌∙◌, ltb, inl, inr, none, some, List, [], ◌∷◌, ◌++◌,
  append_assoc, length, take, drop, length-append, take-append-drop, length-take, length-drop,
  arith, Bool-cases, ltb→ge, ltb→lt,
}
use vision_motion_framework.Vision.Framer.{Framer, next_frame, drain, with_frame}

abbrev pub concat : List (List ℕ) → List ℕ
concat [] = []
concat (xs ∷ xss) = xs ++ concat xss

abbrev pub AllLength : ℕ → List (List ℕ) → Type 0
AllLength n [] = Unit {0}
AllLength n (xs ∷ xss) = (length xs ≡ n) × AllLength n xss

-- `bytes` is made of `frames`, each of n bytes, and of a rest that is too short for one more.
pub record Cuts (n : ℕ) (bytes : List ℕ) (frames : List (List ℕ)) (rest : List ℕ) : Type 0 where
  pub whole : bytes ≡ concat frames ++ rest
  pub sized : AllLength n frames
  pub short : length rest < n

pub take-concat :
    (n : ℕ) (xs ys : List ℕ) → length xs ≡ n → (take n (xs ++ ys) ≡ xs) × (drop n (xs ++ ys) ≡ ys)
take-concat zero [] ys h = (refl, refl)
take-concat zero (x ∷ xs) ys h = absurd (omega arith)
take-concat (suc n) [] ys h = absurd (omega arith)
take-concat (suc n) (x ∷ xs) ys h =
    let (t, d) = take-concat n xs ys (omega arith) in (ap (◌∷◌ x) t, d)

pub next_frame-short : (f : Framer) → length f.buffer < f.packet_size → next_frame f ≡ none
unfolding next_frame
next_frame-short f h = ground arith

-- The framer after one frame was taken off.
abbrev pub cut : Framer → Framer
cut f = record f { buffer = drop f.packet_size f.buffer }

pub next_frame-full :
    (f : Framer)
    → f.packet_size ≤ length f.buffer
    → next_frame f ≡ some (take f.packet_size f.buffer, cut f)
unfolding next_frame
next_frame-full f h = ground arith

pub drain-short :
    (fuel : ℕ) (f : Framer) → length f.buffer < f.packet_size → drain (suc fuel) f ≡ some ([], f)
unfolding drain
drain-short fuel f h = rw (next_frame-short f h, drain)

pub drain-full :
    (fuel : ℕ) (f : Framer)
    → f.packet_size ≤ length f.buffer
    → drain (suc fuel) f ≡ with_frame (take f.packet_size f.buffer) (drain fuel (cut f))
unfolding drain
drain-full fuel f h = rw (next_frame-full f h, drain)

-- The loop ends with enough fuel, and cuts the buffer.
pub drain-Cuts :
    (fuel : ℕ) (f : Framer)
    → 0 < f.packet_size
    → length f.buffer < fuel
    → (frames : List (List ℕ)) × (f' : Framer) × (drain fuel f ≡ some (frames, f'))
      × Cuts f.packet_size f.buffer frames f'.buffer
      × (f'.packet_size ≡ f.packet_size)
drain-Cuts zero f p h = absurd (omega arith)
drain-Cuts (suc fuel) f p h = elim (Bool-cases (ltb (length f.buffer) f.packet_size)) [
  | inl small ↦ (
    [],
    f,
    drain-short fuel f (ltb→lt _ _ small),
    record { whole = refl; sized = tt; short = ltb→lt _ _ small },
    refl,
  )
  | inr large ↦
      let full = ltb→ge _ _ large in
      let (frames, f', e, cuts, same) =
        drain-Cuts fuel (cut f) p (omega (arith, length-drop f.packet_size f.buffer)) in
      (
        take f.packet_size f.buffer ∷ frames,
        f',
        rw (drain-full fuel f full, e) refl,
        record {
          whole =
              sym (take-append-drop f.packet_size f.buffer)
              ∙ rw (cuts.whole) (sym (append_assoc (take f.packet_size f.buffer) _ _));
          sized = (omega (arith, length-take f.packet_size f.buffer), cuts.sized);
          short = cuts.short;
        },
        same,
      )
]

append-injective :
    (xs ys us vs : List ℕ) → length xs ≡ length ys → xs ++ us ≡ ys ++ vs → (xs ≡ ys) × (us ≡ vs)
append-injective [] [] us vs l e = (refl, e)
append-injective [] (y ∷ ys) us vs l e = absurd (omega arith)
append-injective (x ∷ xs) [] us vs l e = absurd (omega arith)
append-injective (x ∷ xs) (y ∷ ys) us vs l e =
    let (p, q) = append-injective xs ys us vs (omega arith) (ap (drop 1) e) in (cc, q)

-- A stream is cut in one way only.
pub Cuts-unique :
    (n : ℕ) (bytes : List ℕ) (xss yss : List (List ℕ)) (r s : List ℕ)
    → Cuts n bytes xss r
    → Cuts n bytes yss s
    → (xss ≡ yss) × (r ≡ s)
Cuts-unique n bytes [] [] r s c d = (refl, sym c.whole ∙ d.whole)
Cuts-unique n bytes [] (y ∷ yss) r s c d = absurd (
    omega (
      arith,
      c.short,
      d.sized.0,
      ap length (sym c.whole ∙ d.whole),
      length-append y (concat yss),
      length-append (y ++ concat yss) s,
    ))
Cuts-unique n bytes (x ∷ xss) [] r s c d = absurd (
    omega (
      arith,
      d.short,
      c.sized.0,
      ap length (sym d.whole ∙ c.whole),
      length-append x (concat xss),
      length-append (x ++ concat xss) r,
    ))
Cuts-unique n bytes (x ∷ xss) (y ∷ yss) r s c d =
    let (p, rest) = append-injective x y _ _ (omega arith) e in
    let (q, r≡s) =
      Cuts-unique n (concat xss ++ r) xss yss r s
        (record { whole = refl; sized = c.sized.1; short = c.short })
        (record { whole = rest; sized = d.sized.1; short = d.short }) in
    (cc, r≡s)
  where
    e : x ++ (concat xss ++ r) ≡ y ++ (concat yss ++ s)
    e = sym (append_assoc x (concat xss) r) ∙ sym c.whole ∙ d.whole ∙ append_assoc y (concat yss) s
