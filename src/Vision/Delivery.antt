-- ===== src/Vision/Delivery.antt =====
-- What one `recv` puts into the packet queue of VisionCom/Src/VisionController.cpp, when the client
-- of VisionCom/Src/VisionTcpClient.cpp and the controller share one framer.
use vision_motion_framework.Prelude.{
  ℕ, zero, suc, ◌≤◌, ◌<◌, ◌≡◌, refl, ap, ◌∙◌, true, some, List, [], ◌++◌, length, take, drop, ap₂,
  length-append, length-take, length-drop, pos, arith, subst,
}
use vision_motion_framework.Vision.Framer.{Framer, feed_bytes}
use vision_motion_framework.Vision.Framing.{
  Cuts, Cuts-unique, cut, next_frame-short, next_frame-full, drain-Cuts, take-concat,
}
use vision_motion_framework.Vision.Link.{
  Link, handle_transport_data, run_callback, recv_frames, recv_once, bytes_in,
}

-- All the bytes that are there when `recv` has returned `raw`.
abbrev pub stream : List ℕ → Link → List ℕ
stream raw l = let f = l.framer in f.buffer ++ raw

abbrev pub IsReceiving : Link → Type 0
IsReceiving l = (l.callback_enabled ≡ true) × (l.callback_set ≡ true)

-- The store after a `recv` that left `rest` in the framer and added `frames` to the queue.
abbrev pub received : List (List ℕ) → List ℕ → Link → Link
received frames rest l =
    let f = l.framer in
    record l { framer = record f { buffer = rest }; packet_queue = l.packet_queue ++ frames }

recv_frames-none :
    (fuel inner : ℕ) (out : List ℕ) (l : Link)
    → length l.framer.buffer < l.framer.packet_size
    → recv_frames (suc fuel) inner out l ≡ some (out, l)
unfolding recv_frames
recv_frames-none fuel inner out l short = rw (next_frame-short l.framer short, recv_frames)

recv_frames-some :
    (fuel inner : ℕ) (out : List ℕ) (l l' : Link)
    → l.framer.packet_size ≤ length l.framer.buffer
    → run_callback inner
        (take l.framer.packet_size l.framer.buffer)
        (record l { framer = cut l.framer })
      ≡ some l'
    → recv_frames (suc fuel) inner out l
      ≡ recv_frames fuel inner (take l.framer.packet_size l.framer.buffer) l'
unfolding recv_frames
recv_frames-some fuel inner out l l' full e =
    rw (next_frame-full l.framer full, recv_frames) (rw (e, recv_frames) refl)

recv_once-recv_frames :
    (fuel : ℕ) (raw out : List ℕ) (l l' : Link)
    → recv_frames fuel fuel [] (record l { framer = feed_bytes raw l.framer }) ≡ some (out, l')
    → recv_once fuel (bytes_in raw) l ≡ some (pos (length out), out, l')
unfolding recv_once
recv_once-recv_frames fuel raw out l l' e = rw (e, recv_once) refl

-- Too few bytes for a frame stay in the framer.
pub recv_once-short :
    (fuel : ℕ) (raw : List ℕ) (l : Link)
    → length (stream raw l) < l.framer.packet_size
    → recv_once (suc fuel) (bytes_in raw) l
      ≡ some (pos 0, [], record l { framer = feed_bytes raw l.framer })
unfolding feed_bytes
recv_once-short fuel raw l short =
    recv_once-recv_frames (suc fuel) raw [] l _
      (recv_frames-none fuel (suc fuel) [] (record l { framer = feed_bytes raw l.framer }) short)

handle_transport_data-Cuts :
    (fuel : ℕ) (raw : List ℕ) (l : Link)
    → 0 < l.framer.packet_size
    → length (l.framer.buffer ++ raw) < fuel
    → (frames : List (List ℕ)) × (rest : List ℕ) × (handle_transport_data fuel raw l
        ≡ some (received frames rest l))
      × Cuts l.framer.packet_size (l.framer.buffer ++ raw) frames rest
unfolding handle_transport_data feed_bytes
handle_transport_data-Cuts fuel raw l p h =
    let f = l.framer in
    let (frames, f', e, cuts, same) = drain-Cuts fuel (record f { buffer = f.buffer ++ raw }) p h in
    (frames, f'.buffer, rw (e, handle_transport_data) (ground (arith, same)), cuts)

run_callback-on :
    (fuel : ℕ) (frame : List ℕ) (l : Link)
    → IsReceiving l
    → run_callback fuel frame l ≡ handle_transport_data fuel frame l
unfolding run_callback
run_callback-on fuel frame l on = ground arith

-- On a link whose callback is set and enabled, with a frame or more at hand and more fuel than
-- bytes, `recv_once` takes off the first frame, and its callback feeds that frame
-- to the same framer again, behind all the other bytes: the queue gets the frames of the stream with
-- its first frame moved to the end.
pub recv_once-rotates :
    (fuel : ℕ) (raw : List ℕ) (l : Link)
    → IsReceiving l
    → 0 < l.framer.packet_size
    → l.framer.packet_size ≤ length (stream raw l)
    → length (stream raw l) < fuel
    → let n = l.framer.packet_size in
      let bytes = stream raw l in
      (frames : List (List ℕ)) × (rest : List ℕ) × (recv_once fuel (bytes_in raw) l
        ≡ some (pos n, take n bytes, received frames rest l))
      × Cuts n (drop n bytes ++ take n bytes) frames rest
unfolding feed_bytes
recv_once-rotates zero raw l on p full enough = absurd (omega arith)
recv_once-rotates (suc zero) raw l on p full enough = absurd (omega arith)
recv_once-rotates (suc (suc fuel)) raw l on p full enough =
    let n = l.framer.packet_size in
    let bytes = stream raw l in
    let f : Framer = record { buffer = drop n bytes; packet_size = n } in
    let k = suc (suc fuel) in
    let (frames, rest, e, cuts) =
      handle_transport_data-Cuts k (take n bytes) (record l { framer = f }) p
        (omega (
          arith,
          length-append (drop n bytes) (take n bytes),
          length-take n bytes,
          length-drop n bytes,
        )) in
    let steps =
      recv_frames-some (suc fuel) k [] (record l { framer = feed_bytes raw l.framer })
        (received frames rest l) full
        (run_callback-on k (take n bytes) (record l { framer = f }) on ∙ e)
      ∙ recv_frames-none fuel k (take n bytes) (received frames rest l) cuts.short in
    let size : length (take n bytes) ≡ n = omega (arith, length-take n bytes) in
    (
      frames,
      rest,
      recv_once-recv_frames k raw (take n bytes) l _ steps
          ∙ ap (λ t. some (pos t, take n bytes, received frames rest l)) size,
      cuts,
    )

-- The same, with the cut of the rotated stream given.
pub recv_once-Cuts :
    (fuel : ℕ) (raw first others : List ℕ) (frames : List (List ℕ)) (rest : List ℕ) (l : Link)
    → IsReceiving l
    → stream raw l ≡ first ++ others
    → length first ≡ l.framer.packet_size
    → length (stream raw l) < fuel
    → Cuts l.framer.packet_size (others ++ first) frames rest
    → recv_once fuel (bytes_in raw) l
      ≡ some (pos l.framer.packet_size, first, received frames rest l)
recv_once-Cuts fuel raw first others frames rest l on e whole enough cuts =
    let n = l.framer.packet_size in
    let (frames', rest', e', cuts') =
      recv_once-rotates fuel raw l on (omega (arith, cuts.short))
        (omega (arith, ap length e, length-append first others)) enough in
    let (t, d) = take-concat n first others whole in
    let te : take n (stream raw l) ≡ first = ap (take n) e ∙ t in
    let de : drop n (stream raw l) ≡ others = ap (drop n) e ∙ d in
    let (p, q) =
      Cuts-unique n (others ++ first) frames' frames rest' rest
        (subst (λ x. Cuts n x frames' rest') (ap₂ (λ x y. x ++ y) de te) cuts') cuts in
    e' ∙ cc (te, p, q)
