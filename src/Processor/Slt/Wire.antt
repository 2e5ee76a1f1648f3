-- ===== src/Processor/Slt/Wire.antt =====
-- A measurement from the bytes on the wire to the tasks: VisionCom/Src/VisionController.cpp under
-- DVH_Library/src/VisionSLTProcessor.cpp.
use vision_motion_framework.Prelude.{
  ℕ, ◌^◌, ◌<◌, none, ◌≡◌, refl, ◌∙◌, ap, some, List, [], ◌∷◌, ◌++◌, length, map, pos, arith,
}
use vision_motion_framework.Vision.Bytes.{int32_bytes}
use vision_motion_framework.Vision.Packet.{
  SecsPacketHeader, IsWord, to_byte_array, secs_packet, set_body, set_op_code, set_sub_code,
  set_correlation_id,
}
use vision_motion_framework.Vision.Dispatcher.{new, register_handler, on_receive, find, assign}
use vision_motion_framework.Vision.Link.{
  Link, recv_once, bytes_in, process_packets, packets_of, with_body_length,
}
use vision_motion_framework.Vision.Delivery.{IsReceiving}
use vision_motion_framework.Vision.Wiring.{process_packets-recv_once}
use vision_motion_framework.Vat.World.{measure}
use vision_motion_framework.Processor.Store.{Store, get_latest_data}
use vision_motion_framework.Processor.Layout.{MeasureBody, measure_bytes, field}
use vision_motion_framework.Processor.Layout.Texts.{kept, length-fields}
use vision_motion_framework.Processor.Slt.{
  Processor, Incoming, handlers, measure_packet, run_handler, deliver, receive, receive_all,
  on_measure, with_store,
}
use vision_motion_framework.Processor.Slt.Measured.{on_measure-measure_bytes}

-- A packet of the queue as the dispatcher hands it on.
abbrev pub incoming : SecsPacketHeader × List ℕ → Incoming
incoming (header, body) = record { stream = header.s; function = header.f; body = body }

-- The reply with the status OK whose ten fields were written with texts.
abbrev pub reply_with : ℕ → List (List ℕ) → MeasureBody
reply_with id texts = record { data_id = id; status = 0; c_data = map field texts }

length-measure_bytes :
    (id : ℕ) (texts : List (List ℕ))
    → length texts ≡ 10
    → length (measure_bytes (reply_with id texts)) ≡ 648
unfolding measure_bytes int32_bytes
length-measure_bytes id texts ten = omega (arith, length-fields texts, ten)

measure_packet-IsWord : (b : MeasureBody) → b.data_id < 2 ^ 32 → IsWord (measure_packet b).header
unfolding measure_packet set_body set_op_code set_sub_code set_correlation_id secs_packet
measure_packet-IsWord b small = record {
  msg_id_fits = small;
  s_fits = omega arith;
  f_fits = omega arith;
  length_fits = omega arith;
}

measure_packet-body : (b : MeasureBody) → (measure_packet b).body ≡ measure_bytes b
unfolding measure_packet set_body
measure_packet-body b = refl

module _ (to_string : ℕ → List ℕ) where
  receive_measurement :
      (b : MeasureBody) (n : ℕ) (p : Processor)
      → receive to_string
          (incoming (with_body_length (measure_packet b).header n, (measure_packet b).body))
          p
        ≡ with_store to_string p (on_measure to_string (measure_bytes b) p.store)
  unfolding receive deliver run_handler on_receive handlers register_handler new find assign
      measure_packet set_body set_op_code set_sub_code set_correlation_id secs_packet
  receive_measurement b n p = refl

  receive_all-measurement :
      (b : MeasureBody) (n : ℕ) (p : Processor) (s : Store)
      → on_measure to_string (measure_bytes b) p.store ≡ some s
      → receive_all to_string
          (incoming (with_body_length (measure_packet b).header n, (measure_packet b).body) ∷ [])
          p
        ≡ some (record p { store = s })
  unfolding receive_all
  receive_all-measurement b n p s e =
      ap (λ o. elim o [ none ↦ none | some q ↦ some q ])
        (receive_measurement b n p ∙ ap (with_store to_string p) e)

  -- A measure reply with the status OK and ten fields that were written with texts, sent as one packet over
  -- a link whose callback is set and enabled, whose framer and queue are empty and whose frames have 664
  -- bytes, reaches the tasks: `recv_once`, with more fuel than bytes, takes it as one frame, and when the
  -- packets of the queue are processed, the tasks read the four texts of the measurement, each cut at its
  -- first zero byte and to 63 bytes.
  pub measured_over_link :
      (fuel id : ℕ) (error x y z : List ℕ) (rest : List (List ℕ)) (l : Link) (p : Processor)
      → length rest ≡ 6
      → id < 2 ^ 32
      → IsReceiving l
      → l.framer.buffer ≡ []
      → l.packet_queue ≡ []
      → l.framer.packet_size ≡ 664
      → 664 < fuel
      → let sent = to_byte_array (measure_packet (reply_with id (error ∷ x ∷ y ∷ z ∷ rest))) in
        (l' : Link) × (p' : Processor) × (recv_once fuel (bytes_in sent) l
          ≡ some (pos l.framer.packet_size, sent, l'))
        × (receive_all to_string (map incoming (process_packets l').0) p ≡ some p')
        × (get_latest_data measure p'.store
            ≡ ("Error Description", kept error)
              ∷ ("XOffset", kept x)
              ∷ ("YOffset", kept y)
              ∷ ("ZFocus", kept z)
              ∷ [])
  unfolding packets_of
  measured_over_link fuel id error x y z rest l p six small on empty idle size enough =
      let b = reply_with id (error ∷ x ∷ y ∷ z ∷ rest) in
      let n = length-measure_bytes id (error ∷ x ∷ y ∷ z ∷ rest) (omega (arith, six)) in
      let n' : length (measure_packet b).body ≡ 648 = ap length (measure_packet-body b) ∙ n in
      let (l', taken, packets) =
        process_packets-recv_once fuel (measure_packet b) l on (measure_packet-IsWord b small) empty
          (omega arith) (omega arith) in
      let (s, stored, read) = on_measure-measure_bytes to_string id error x y z rest p.store six in
      let packet : SecsPacketHeader × List ℕ = (
        with_body_length (measure_packet b).header (length (measure_packet b).body),
        (measure_packet b).body,
      ) in
      let handed : (process_packets l').0 ≡ packet ∷ [] =
        ap packets_in packets ∙ ap (λ frames. packets_of frames ++ packet ∷ []) idle in
      (
        l',
        record p { store = s },
        taken,
        ap (λ ps. receive_all to_string (map incoming ps) p) handed
            ∙ receive_all-measurement b (length (measure_packet b).body) p s stored,
        read,
      )
    where
      packets_in : List (SecsPacketHeader × List ℕ) × Link → List (SecsPacketHeader × List ℕ)
      packets_in (packets, l) = packets
