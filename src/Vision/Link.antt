-- ===== src/Vision/Link.antt =====
-- The receiving path of VisionCom/Src/VisionController.cpp over VisionCom/Src/VisionTcpClient.cpp,
-- as `VisionController::Impl` wires them: `SetFramer` hands the transport the very framer object that
-- `m_framer` of the controller points to. So there is one framer, and the store has it once.
-- A `while` over the framer takes fuel; `none` means that the fuel ran out.
use vision_motion_framework.Prelude.{
  ℕ, zero, suc, ◌-◌, Bool, true, false, ◌&&◌, ltb, if◌then◌else◌, Option, none, some, List, [], ◌∷◌,
  ◌++◌, length, drop, ℤ, pos, neg,
}
use vision_motion_framework.Vision.Framer.{
  Framer, fixed_length_framer, feed_bytes, next_frame, drain, default_packet_size,
}
use vision_motion_framework.Vision.Packet.{SecsPacketHeader, header_size, header_of_bytes}

-- `callback_set` says that `m_recvCb` holds the controller's handler and is not empty.
pub record Link : Type 0 where
  pub framer : Framer
  pub connected : Bool
  pub client_running : Bool
  pub callback_enabled : Bool
  pub callback_set : Bool
  pub running : Bool
  pub packet_queue : List (List ℕ)

unfoldable pub new : Link
unfolding fixed_length_framer
new = record {
  framer = fixed_length_framer default_packet_size;
  connected = false;
  client_running = false;
  callback_enabled = false;
  callback_set = false;
  running = false;
  packet_queue = [];
}

-- The client's `SetReceiveCallback`, with the handler or with an empty function.
unfoldable pub set_receive_callback : Bool → Link → Link
set_receive_callback cb l = record l { callback_set = cb; callback_enabled = cb }

unfoldable pub start_receiving : Link → Link
unfolding set_receive_callback
start_receiving l =
    if l.running
    then l
    else record (set_receive_callback true (record l { running = true })) { client_running = true }

unfoldable pub stop_receiving : Link → Link
unfolding set_receive_callback
stop_receiving l = set_receive_callback false (record l { running = false })

unfoldable pub handle_transport_data : ℕ → List ℕ → Link → Option Link
handle_transport_data fuel raw l = elim (drain fuel (feed_bytes raw l.framer)) [
  | none ↦ none
  | some (frames, framer) ↦
      some (record l { framer = framer; packet_queue = l.packet_queue ++ frames })
]

unfoldable pub run_callback : ℕ → List ℕ → Link → Option Link
run_callback fuel frame l =
    if l.callback_enabled && l.callback_set then handle_transport_data fuel frame l else some l

-- The loop of `RecvOnce`; `out` is the caller's `outBytes`.
unfoldable pub recv_frames : ℕ → ℕ → List ℕ → Link → Option (List ℕ × Link)
recv_frames zero inner out l = none
recv_frames (suc fuel) inner out l = elim (next_frame l.framer) [
  | none ↦ some (out, l)
  | some (frame, framer) ↦ elim (run_callback inner frame (record l { framer = framer })) [
    | none ↦ none
    | some l' ↦ recv_frames fuel inner frame l'
  ]
]

-- What the system's `recv` returns: some bytes, 0 at the end of the stream, or an error.
pub data Received : Type 0 where
  bytes_in : List ℕ → Received
  closed : Received
  would_block : Received
  failed : ℕ → Received

-- `RecvOnce` on a valid socket: the return value, `outBytes` and the store.
unfoldable pub recv_once : ℕ → Received → Link → Option (ℤ × List ℕ × Link)
recv_once fuel (bytes_in raw) l =
    elim (recv_frames fuel fuel [] (record l { framer = feed_bytes raw l.framer })) [
      | none ↦ none
      | some (out, l') ↦ some (pos (length out), out, l')
    ]
recv_once fuel closed l = some (pos 0, [], record l { connected = false })
recv_once fuel would_block l = some (pos 0, [], l)
recv_once fuel (failed err) l = some (neg err, [], record l { connected = false })

-- A frame of the queue as `ProcessPackets` hands it to the dispatcher; too short ones are dropped.
abbrev pub with_body_length : SecsPacketHeader → ℕ → SecsPacketHeader
with_body_length h n = record h { length_field = n }

unfoldable pub packets_of : List (List ℕ) → List (SecsPacketHeader × List ℕ)
packets_of [] = []
packets_of (frame ∷ frames) =
    if ltb (length frame) header_size
    then packets_of frames
    else (
      with_body_length (header_of_bytes frame) (length frame - header_size),
      drop header_size frame,
    )
      ∷ packets_of frames

-- `PacketThread`: the whole queue is taken, and its packets are dispatched in order.
unfoldable pub process_packets : Link → List (SecsPacketHeader × List ℕ) × Link
unfolding packets_of
process_packets l = (packets_of l.packet_queue, record l { packet_queue = [] })
