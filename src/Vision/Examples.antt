-- ===== src/Vision/Examples.antt =====
-- Concrete runs of VisionCom: small packets, a connected link, a client, a dispatcher.
use vision_motion_framework.Prelude.{
  ℕ, ◌≡◌, refl, Bool, true, false, none, some, List, [], ◌∷◌, ◌++◌, pos, arith,
}
use vision_motion_framework.Vision.Framer.{Framer, feed_bytes, drain}
use vision_motion_framework.Vision.Framing.{Cuts}
use vision_motion_framework.Vision.Stream.{receive, receive-drain}
use vision_motion_framework.Vision.Bytes.{int32_bytes}
use vision_motion_framework.Vision.Packet.{
  SecsPacketHeader, SecsPacket, header_bytes, to_byte_array, from_byte_array, set_body, secs_packet,
  IsWord, from_byte_array-to_byte_array,
}
use vision_motion_framework.Vision.Dispatcher.{Dispatcher}
use vision_motion_framework.Vision.Link.{
  Link, recv_once, bytes_in, process_packets, packets_of, with_body_length,
}
use vision_motion_framework.Vision.Delivery.{received, recv_once-rotates}
use vision_motion_framework.Vision.Wiring.{recv_once_misframes, process_packets-recv_once}
use vision_motion_framework.Vision.Client.{Client, Sent, taken, send_packet_async, vision_ok}
use vision_motion_framework.Vision.Scheduler.{
  Scheduler, waiting, busy, gone, request_stop, worker_turn, Steps, here, starts, turns, finishes,
  worker_scheduler, start,
}
use vision_motion_framework.Vision.Scheduler.Threads.{Sized, worker_scheduler-Sized}
use vision_motion_framework.Vision.Scheduler.Shutdown.{accepted-taken, request_stop-drains}
use vision_motion_framework.Vision.Sending.{send_packet_async-Accepts}

abbrev framer_of_two : Framer
framer_of_two = record { buffer = []; packet_size = 2 }

abbrev pieces : List (List ℕ)
pieces = (1 ∷ []) ∷ (2 ∷ 3 ∷ 4 ∷ []) ∷ (5 ∷ []) ∷ []

receive-drain_example :
    (frames : List (List ℕ)) × (f' : Framer) × (receive 9 pieces framer_of_two ≡ some (frames, f'))
    × (drain 9 (feed_bytes (1 ∷ 2 ∷ 3 ∷ 4 ∷ 5 ∷ []) framer_of_two) ≡ some (frames, f'))
    × Cuts 2 (1 ∷ 2 ∷ 3 ∷ 4 ∷ 5 ∷ []) frames f'.buffer
receive-drain_example = receive-drain 9 pieces framer_of_two (omega arith) (omega arith)

abbrev header : SecsPacketHeader
header = record { msg_id = 1; s = 2; f = 41; length_field = 0 }

abbrev packet : SecsPacket
packet = record { header = header; body = 65 ∷ [] }

header-IsWord : IsWord header
header-IsWord = ground arith

from_byte_array-to_byte_array_example :
    from_byte_array (to_byte_array packet) secs_packet ≡ (true, set_body (65 ∷ []) packet)
from_byte_array-to_byte_array_example =
    from_byte_array-to_byte_array packet secs_packet header-IsWord (omega arith)

abbrev dispatcher : Dispatcher ℕ
dispatcher = record {
  handlers = record { s = 1; f = 2; handler = some 100 } ∷ [];
  scheduler = false;
}

abbrev link_of : ℕ → Link
link_of n = record {
  framer = record { buffer = []; packet_size = n };
  connected = true;
  client_running = true;
  callback_enabled = true;
  callback_set = true;
  running = true;
  packet_queue = [];
}

recv_once-rotates_example :
    (frames : List (List ℕ)) × (rest : List ℕ) × (recv_once 9
        (bytes_in (1 ∷ 2 ∷ 3 ∷ 4 ∷ 5 ∷ []))
        (link_of 2)
      ≡ some (pos 2, 1 ∷ 2 ∷ [], received frames rest (link_of 2)))
    × Cuts 2 (3 ∷ 4 ∷ 5 ∷ 1 ∷ 2 ∷ []) frames rest
recv_once-rotates_example =
    recv_once-rotates 9 (1 ∷ 2 ∷ 3 ∷ 4 ∷ 5 ∷ []) (link_of 2) (refl, refl) (omega arith)
      (omega arith) (omega arith)

recv_once_misframes_example :
    recv_once 9 (bytes_in (1 ∷ 2 ∷ 3 ∷ [])) (link_of 2)
    ≡ some (pos 2, 1 ∷ 2 ∷ [], received ((3 ∷ 1 ∷ []) ∷ []) (2 ∷ []) (link_of 2))
recv_once_misframes_example =
    recv_once_misframes 9 (1 ∷ 2 ∷ 3 ∷ []) (1 ∷ 2 ∷ []) (3 ∷ []) (link_of 2) (refl, refl) refl refl
      (omega arith) (omega arith) (omega arith)

process_packets-recv_once_example :
    (l' : Link) × (recv_once 30 (bytes_in (to_byte_array packet)) (link_of 17)
      ≡ some (pos 17, to_byte_array packet, l'))
    × (process_packets l'
        ≡ ((with_body_length header 1, 65 ∷ []) ∷ [], record l' { packet_queue = [] }))
unfolding packets_of
process_packets-recv_once_example =
    process_packets-recv_once 30 packet (link_of 17) (refl, refl) header-IsWord refl refl
      (omega arith)

-- A system that takes one byte at a time.
abbrev slow : ℕ → ℕ → Sent
slow offset left = taken 1

abbrev client : Bool → Client
client up = record {
  sock = none;
  listen_sock = some 9;
  running = up;
  connected = up;
  callback_enabled = false;
}

send_packet_async-Accepts_example :
    send_packet_async 30 slow packet (some (client true)) ≡ some (vision_ok, to_byte_array packet)
unfolding to_byte_array header_bytes int32_bytes
send_packet_async-Accepts_example =
    send_packet_async-Accepts 30 slow packet (client true)
      (λ offset left some_left. (1, refl, omega arith, omega arith)) refl (omega arith)
      (omega arith)

abbrev one_task : Scheduler ℕ
one_task = record { threads = waiting ∷ []; queue = 7 ∷ []; running = true; thread_count = 1 }

abbrev shut_down : Scheduler ℕ
shut_down = record { threads = gone ∷ []; queue = []; running = false; thread_count = 1 }

shut_down-Steps : Steps (request_stop one_task) [] (7 ∷ []) shut_down
unfolding request_stop worker_turn
shut_down-Steps = turns 0 gone refl refl (finishes 0 7 refl (turns 0 (busy 7) refl refl here))

accepted-taken_example : (request_stop one_task).queue ++ [] ≡ (7 ∷ []) ++ []
accepted-taken_example =
    accepted-taken (request_stop one_task) shut_down [] (7 ∷ []) shut_down-Steps

request_stop-drains_example : (rest : List ℕ) × (7 ∷ [] ≡ (7 ∷ []) ++ rest)
request_stop-drains_example =
    request_stop-drains one_task shut_down [] (7 ∷ []) refl shut_down-Steps refl (λ e. cc)

worker_scheduler-Sized_example : Sized {T = ℕ} 2 (start (start (worker_scheduler 2)))
worker_scheduler-Sized_example =
    worker_scheduler-Sized 2 (start (start (worker_scheduler 2))) [] [] (starts (starts here))
