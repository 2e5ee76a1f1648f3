-- ===== src/Processor/Layout/Texts.antt =====
-- Texts in the fields of a packet's body, DVH_Library/include/VisionPacketSLT.h: what is written into a
-- field is read from it.
use mathlib.Core.Option.{some-injective}
use vision_motion_framework.Prelude.{
  ℕ, zero, suc, ◌+◌, ◌<◌, ◌≡◌, refl, ap, sym, ◌∙◌, false, ◌==◌, some, List, [], ◌∷◌, ◌++◌, length,
  take, drop, arith, take-append, take-length, Bool-cases, inl, inr, length-take, map, get_elem?,
  length-append, ◌*◌,
}
use vision_motion_framework.Processor.Layout.{
  str_len, until_nul, pad, field, c_string, text_at, concat,
}

abbrev NoNul : List ℕ → Type 0
NoNul [] = Unit {0}
NoNul (b ∷ bs) = (b == 0 ≡ false) × NoNul bs

until_nul-NoNul : (bs : List ℕ) → NoNul (until_nul bs)
unfolding until_nul
until_nul-NoNul [] = tt
until_nul-NoNul (b ∷ bs) = elim (Bool-cases (b == 0)) [
  | inl e ↦ rw e tt
  | inr e ↦ rw e (e, until_nul-NoNul bs)
]

take-NoNul : (n : ℕ) (bs : List ℕ) → NoNul bs → NoNul (take n bs)
take-NoNul zero bs h = tt
take-NoNul (suc n) [] h = tt
take-NoNul (suc n) (b ∷ bs) (e, h) = (e, take-NoNul n bs h)

c_string-pad : (n : ℕ) (bs : List ℕ) → NoNul bs → length bs < n → c_string (pad n bs) ≡ some bs
unfolding c_string pad
c_string-pad zero bs h l = absurd (omega arith)
c_string-pad (suc n) [] h l = refl
c_string-pad (suc n) (b ∷ bs) (e, h) l = rw (e, c_string-pad n bs h (omega arith)) refl

length-pad : (n : ℕ) (bs : List ℕ) → length (pad n bs) ≡ n
unfolding pad
length-pad zero bs = refl
length-pad (suc n) [] = ap suc (length-pad n [])
length-pad (suc n) (b ∷ bs) = ap suc (length-pad n bs)

-- What a field keeps of a text.
abbrev pub kept : List ℕ → List ℕ
kept text = take 63 (until_nul text)

pub length-field : (text : List ℕ) → length (field text) ≡ str_len
unfolding field
length-field text = length-pad str_len _

c_string-field : (text : List ℕ) → c_string (field text) ≡ some (kept text)
unfolding field
c_string-field text =
    c_string-pad str_len (kept text) (take-NoNul 63 (until_nul text) (until_nul-NoNul text))
      (omega (arith, length-take 63 (until_nul text)))

drop-past : (xs ys : List ℕ) (o : ℕ) → drop (length xs + o) (xs ++ ys) ≡ drop o ys
drop-past [] ys o = ap (λ n. drop n ys) (omega arith)
drop-past (x ∷ xs) ys o =
    ap (λ n. drop n (x ∷ (xs ++ ys))) (suc_add (length xs) o) ∙ drop-past xs ys o
  where
    suc_add : (a b : ℕ) → suc a + b ≡ suc (a + b)
    suc_add a b = omega arith

pub text_at-past :
    (i o : ℕ) (xs ys : List ℕ) → text_at (length xs + o) i (xs ++ ys) ≡ text_at o i ys
unfolding text_at
text_at-past zero o xs ys = ap (λ bs. c_string (take str_len bs)) (drop-past xs ys o)
text_at-past (suc i) o xs ys =
    ap (λ n. text_at n i (xs ++ ys)) (moved (length xs) o) ∙ text_at-past i (o + str_len) xs ys
  where
    moved : (a b : ℕ) → a + b + str_len ≡ a + (b + str_len)
    moved a b = omega arith

-- The first field, and the ones behind it.
first_text : (text : List ℕ) (rest : List ℕ) → text_at 0 0 (field text ++ rest) ≡ some (kept text)
unfolding text_at
first_text text rest =
    ap c_string (
      take-append str_len (field text) rest (omega (arith, length-field text))
      ∙ ap (λ n. take n (field text)) (sym (length-field text))
      ∙ take-length (field text))
    ∙ c_string-field text

next_text :
    (i : ℕ) (text : List ℕ) (rest : List ℕ)
    → text_at 0 (suc i) (field text ++ rest) ≡ text_at 0 i rest
unfolding text_at
next_text i text rest =
    ap (λ n. text_at n i (field text ++ rest)) (at_length (length (field text)) (length-field text))
    ∙ text_at-past i 0 (field text) rest
  where
    at_length : (n : ℕ) → n ≡ str_len → 0 + str_len ≡ n + 0
    at_length n e = omega arith

-- Every field of a row of fields is read back.
pub text_at-fields :
    (texts : List (List ℕ)) (i : ℕ) (text : List ℕ)
    → get_elem? texts i ≡ some text
    → text_at 0 i (concat (map field texts)) ≡ some (kept text)
text_at-fields [] i text e = cc
text_at-fields (t ∷ ts) zero text e =
    first_text t (concat (map field ts)) ∙ ap (λ t. some (kept t)) (some-injective _ _ e)
text_at-fields (t ∷ ts) (suc i) text e =
    next_text i t (concat (map field ts)) ∙ text_at-fields ts i text e

pub length-fields :
    (texts : List (List ℕ)) → length (concat (map field texts)) ≡ str_len * length texts
length-fields [] = refl
length-fields (t ∷ ts) =
    omega (arith, length-append (field t) (concat (map field ts)), length-field t, length-fields ts)
