-- ===== src/Vision/Stream.antt =====
-- A stream that arrives in pieces (VisionCom/Include/FixedLengthFramer.h): TCP may split and join
-- the packets of the vision computer in any way.
use vision_motion_framework.Prelude.{
  ℕ, ◌≤◌, ◌<◌, ◌≡◌, refl, sym, ap, ◌∙◌, Option, none, some, List, [], ◌∷◌, ◌++◌, append_assoc,
  append-nil, length, length-append, arith, subst,
}
use vision_motion_framework.Vision.Framer.{Framer, feed_bytes, drain}
use vision_motion_framework.Vision.Framing.{concat, AllLength, Cuts, drain-Cuts, Cuts-unique}

-- The framer is fed piece by piece, and every frame that a piece completes is taken off at once.
unfoldable pub receive : ℕ → List (List ℕ) → Framer → Option (List (List ℕ) × Framer)
receive fuel [] f = some ([], f)
receive fuel (piece ∷ pieces) f = elim (drain fuel (feed_bytes piece f)) [
  | none ↦ none
  | some (frames, f') ↦ elim (receive fuel pieces f') [
    | none ↦ none
    | some (more, f'') ↦ some (frames ++ more, f'')
  ]
]

AllLength-append :
    (n : ℕ) (xss yss : List (List ℕ)) → AllLength n xss → AllLength n yss → AllLength n (xss ++ yss)
AllLength-append n [] yss a b = b
AllLength-append n (xs ∷ xss) yss a b = (a.0, AllLength-append n xss yss a.1 b)

concat-append : (xss yss : List (List ℕ)) → concat (xss ++ yss) ≡ concat xss ++ concat yss
concat-append [] yss = refl
concat-append (xs ∷ xss) yss =
    ap (◌++◌ xs) (concat-append xss yss) ∙ sym (append_assoc xs (concat xss) (concat yss))

-- Cutting a longer stream goes on from the rest of the shorter one.
Cuts-extend :
    (n : ℕ) (bytes more : List ℕ) (xss yss : List (List ℕ)) (r s : List ℕ)
    → Cuts n bytes xss r
    → Cuts n (r ++ more) yss s
    → Cuts n (bytes ++ more) (xss ++ yss) s
Cuts-extend n bytes more xss yss r s c d = record {
  whole =
      ap (λ t. t ++ more) c.whole
      ∙ append_assoc (concat xss) r more
      ∙ ap (◌++◌ (concat xss)) d.whole
      ∙ sym (append_assoc (concat xss) (concat yss) s)
      ∙ ap (λ t. t ++ s) (sym (concat-append xss yss));
  sized = AllLength-append n xss yss c.sized d.sized;
  short = d.short;
}

Cuts-whole-length :
    (n : ℕ) (xss : List (List ℕ)) (r bytes : List ℕ) → Cuts n bytes xss r → length r ≤ length bytes
Cuts-whole-length n xss r bytes c = omega (arith, ap length c.whole, length-append (concat xss) r)

receive-Cuts :
    (fuel : ℕ) (pieces : List (List ℕ)) (f : Framer)
    → length f.buffer < f.packet_size
    → length (f.buffer ++ concat pieces) < fuel
    → (frames : List (List ℕ)) × (f' : Framer) × (receive fuel pieces f ≡ some (frames, f'))
      × Cuts f.packet_size (f.buffer ++ concat pieces) frames f'.buffer
      × (f'.packet_size ≡ f.packet_size)
unfolding receive feed_bytes
receive-Cuts fuel [] f short enough =
    ([], f, refl, record { whole = append-nil f.buffer; sized = tt; short = short }, refl)
receive-Cuts fuel (piece ∷ pieces) f short enough =
    let lengths = length-append f.buffer (piece ++ concat pieces) in
    let lengths' = length-append f.buffer piece in
    let (frames, f', e, cuts, same) =
      drain-Cuts fuel (record f { buffer = f.buffer ++ piece }) (omega arith)
        (omega (arith, length-append piece (concat pieces))) in
    let longer = Cuts-whole-length f.packet_size frames f'.buffer (f.buffer ++ piece) cuts in
    let (more, f'', e', cuts', same') = receive-Cuts fuel pieces f' (omega (arith, cuts.short)) (
      omega (
        arith,
        longer,
        length-append f'.buffer (concat pieces),
        length-append piece (concat pieces),
      )) in
    (
      frames ++ more,
      f'',
      rw (e, receive) (rw (e', receive) refl),
      subst (λ t. Cuts f.packet_size t (frames ++ more) f''.buffer)
          (append_assoc f.buffer piece (concat pieces))
          (Cuts-extend f.packet_size _ (concat pieces) frames more f'.buffer f''.buffer cuts
            (subst (λ n. Cuts n (f'.buffer ++ concat pieces) more f''.buffer) same cuts')),
      same' ∙ same,
    )

-- However a stream is split into pieces, feeding them one by one gives exactly the frames, and the
-- rest, that feeding the whole stream at once gives; and the loops end. The framer starts with less
-- than one frame in its buffer, and the fuel exceeds the bytes that there are.
pub receive-drain :
    (fuel : ℕ) (pieces : List (List ℕ)) (f : Framer)
    → length f.buffer < f.packet_size
    → length (f.buffer ++ concat pieces) < fuel
    → (frames : List (List ℕ)) × (f' : Framer) × (receive fuel pieces f ≡ some (frames, f'))
      × (drain fuel (feed_bytes (concat pieces) f) ≡ some (frames, f'))
      × Cuts f.packet_size (f.buffer ++ concat pieces) frames f'.buffer
unfolding feed_bytes
receive-drain fuel pieces f short enough =
    let (frames, f', e, cuts, same) = receive-Cuts fuel pieces f short enough in
    let (frames', f'', e', cuts', same') =
      drain-Cuts fuel (record f { buffer = f.buffer ++ concat pieces }) (omega arith) enough in
    let (p, q) = Cuts-unique f.packet_size _ frames' frames f''.buffer f'.buffer cuts' cuts in
    (frames, f', e, e' ∙ ground (arith, p, q), cuts)
