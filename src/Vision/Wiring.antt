-- ===== src/Vision/Wiring.antt =====
-- Three ways in which bytes can be at hand when `RecvOnce` of VisionCom/Src/VisionTcpClient.cpp runs
-- under the wiring of VisionCom/Src/VisionController.cpp.
use vision_motion_framework.Prelude.{
  ℕ, ◌+◌, ◌-◌, ◌<◌, ◌≡◌, refl, ap, sym, ◌∙◌, some, List, [], ◌∷◌, ◌++◌, append_assoc, append-nil,
  length, take, drop, length-append, length-take, length-drop, take-append-drop, pos, arith,
}
use vision_motion_framework.Vision.Packet.{
  SecsPacket, IsWord, to_byte_array, header_size, length-to_byte_array,
  header_of_bytes-to_byte_array, drop-to_byte_array,
}
use vision_motion_framework.Vision.Link.{
  Link, recv_once, bytes_in, process_packets, packets_of, with_body_length,
}
use vision_motion_framework.Vision.Delivery.{stream, IsReceiving, received, recv_once-Cuts}

-- On a link whose callback is set and enabled, with exactly one frame at hand and more fuel than
-- bytes, the wiring is right: the frame is queued, and nothing is left over.
recv_once_one_frame :
    (fuel : ℕ) (raw : List ℕ) (l : Link)
    → IsReceiving l
    → 0 < l.framer.packet_size
    → length (stream raw l) ≡ l.framer.packet_size
    → length (stream raw l) < fuel
    → recv_once fuel (bytes_in raw) l
      ≡ some (pos l.framer.packet_size, stream raw l, received (stream raw l ∷ []) [] l)
recv_once_one_frame fuel raw l on p one enough =
    recv_once-Cuts fuel raw (stream raw l) [] (stream raw l ∷ []) [] l on
      (sym (append-nil (stream raw l))) one enough
      (record {
        whole = sym (append-nil (stream raw l ++ []) ∙ append-nil (stream raw l));
        sized = (one, tt);
        short = p;
      })

-- On a link whose callback is set and enabled, with two whole frames at hand and more fuel than
-- bytes, the second frame is queued before the first.
recv_once_swaps :
    (fuel : ℕ) (raw first second : List ℕ) (l : Link)
    → IsReceiving l
    → 0 < l.framer.packet_size
    → stream raw l ≡ first ++ second
    → length first ≡ l.framer.packet_size
    → length second ≡ l.framer.packet_size
    → length (stream raw l) < fuel
    → recv_once fuel (bytes_in raw) l
      ≡ some (pos l.framer.packet_size, first, received (second ∷ first ∷ []) [] l)
recv_once_swaps fuel raw first second l on p e one two enough =
    recv_once-Cuts fuel raw first second (second ∷ first ∷ []) [] l on e one enough (record {
      whole = sym (append-nil (second ++ (first ++ [])) ∙ ap (◌++◌ second) (append-nil first));
      sized = (two, (one, tt));
      short = p;
    })

-- On a link whose callback is set and enabled, with a whole frame and the beginning of the next at
-- hand and more fuel than bytes, the frame itself is not what is queued: the queue gets the beginning
-- of the second frame, filled up with bytes of the first, and the rest of the first frame stays in the
-- framer.
pub recv_once_misframes :
    (fuel : ℕ) (raw frame part : List ℕ) (l : Link)
    → IsReceiving l
    → stream raw l ≡ frame ++ part
    → length frame ≡ l.framer.packet_size
    → 0 < length part
    → length part < l.framer.packet_size
    → length (stream raw l) < fuel
    → let n = l.framer.packet_size - length part in
      recv_once fuel (bytes_in raw) l
      ≡ some
          (pos l.framer.packet_size, frame, received ((part ++ take n frame) ∷ []) (drop n frame) l)
recv_once_misframes fuel raw frame part l on e whole some_part short enough =
    let n = l.framer.packet_size - length part in
    recv_once-Cuts fuel raw frame part ((part ++ take n frame) ∷ []) (drop n frame) l on e whole
      enough
      (record {
        whole =
            ap (◌++◌ part) (sym (take-append-drop n frame))
            ∙ sym (append_assoc part (take n frame) (drop n frame))
            ∙ ap (λ t. t ++ drop n frame) (sym (append-nil (part ++ take n frame)));
        sized = (omega (arith, length-append part (take n frame), length-take n frame), tt);
        short = omega (arith, length-drop n frame);
      })

packets_of-append :
    (xss yss : List (List ℕ)) → packets_of (xss ++ yss) ≡ packets_of xss ++ packets_of yss
unfolding packets_of
packets_of-append [] yss = refl
packets_of-append (xs ∷ xss) yss = ground (arith, packets_of-append xss yss)

packets_of-to_byte_array :
    (p : SecsPacket)
    → IsWord p.header
    → packets_of (to_byte_array p ∷ []) ≡ (with_body_length p.header (length p.body), p.body) ∷ []
unfolding packets_of
packets_of-to_byte_array p w =
    rw (header_of_bytes-to_byte_array p w, drop-to_byte_array p, length-to_byte_array p)
      (ground arith)

-- On a link whose callback is set and enabled and whose framer is empty, a packet that fills one frame
-- and whose header fields are 32-bit patterns, written by `to_byte_array` and received with more fuel
-- than bytes, comes out of the next `process_packets` behind what was queued before: with its message
-- id, stream and function, its body, and the body's size as its length. The queue is then empty.
pub process_packets-recv_once :
    (fuel : ℕ) (p : SecsPacket) (l : Link)
    → IsReceiving l
    → IsWord p.header
    → l.framer.buffer ≡ []
    → l.framer.packet_size ≡ header_size + length p.body
    → header_size + length p.body < fuel
    → (l' : Link) × (recv_once fuel (bytes_in (to_byte_array p)) l
        ≡ some (pos l.framer.packet_size, to_byte_array p, l'))
      × (process_packets l' ≡ (
        packets_of l.packet_queue ++ (with_body_length p.header (length p.body), p.body) ∷ [],
        record l' { packet_queue = [] },
      ))
unfolding process_packets
process_packets-recv_once fuel p l on w empty size enough =
    let n = length-to_byte_array p in
    let at_hand : stream (to_byte_array p) l ≡ to_byte_array p =
      ap (λ t. t ++ to_byte_array p) empty in
    (
      received (to_byte_array p ∷ []) [] l,
      recv_once-Cuts fuel (to_byte_array p) (to_byte_array p) [] (to_byte_array p ∷ []) [] l on
          (at_hand ∙ sym (append-nil (to_byte_array p))) (omega arith)
          (omega (arith, ap length at_hand))
          (record {
            whole = sym (append-nil (to_byte_array p ++ []) ∙ append-nil (to_byte_array p));
            sized = (omega arith, tt);
            short = omega arith;
          }),
      rw (packets_of-append l.packet_queue (to_byte_array p ∷ []), packets_of-to_byte_array p w)
          refl,
    )
