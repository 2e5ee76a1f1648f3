-- ===== src/Processor/Examples.antt =====
-- A concrete request for a measurement, and its reply.
pub mod Memory
use vision_motion_framework.Prelude.{
  ℕ, ◌<◌, ◌≡◌, refl, pos, arith, true, false, Option, none, some, List, [], ◌∷◌, map, ◌++◌,
  replicate, ◌++◌,
}
use vision_motion_framework.Vision.Packet.{to_byte_array}
use vision_motion_framework.Vision.Link.{Link, recv_once, bytes_in, process_packets}
use vision_motion_framework.Vision.Bytes.{int32_bytes, bytes_int32}
use vision_motion_framework.Vision.Dispatcher.{new, register_handler, on_receive, find, assign}
use vision_motion_framework.Vat.World.{measure, insp_ready}
use vision_motion_framework.Processor.Store.{Store, is_valid, get_latest_data, empty_store}
use vision_motion_framework.Processor.Layout.{
  measure_bytes, field, int_at, text_at, c_string, until_nul,
}
use vision_motion_framework.Processor.Slt.{
  Processor, slt_processor, Incoming, handlers, run_handler, deliver, receive, receive_all,
  request_measure, request_insp_ready, measure_packet, on_measure, store_measure,
}
use vision_motion_framework.Processor.Slt.Validity.{
  last_reply, measure_answered, insp_ready_unanswered,
}
use vision_motion_framework.Processor.Slt.Wire.{incoming, reply_with, measured_over_link}

abbrev no_digits : ℕ → List ℕ
no_digits n = []

abbrev no_number : List ℕ → Option ℕ
no_number text = some 3

-- "1.5" and "-2".
abbrev x_text : List ℕ
x_text = 49 ∷ 46 ∷ 53 ∷ []

abbrev y_text : List ℕ
y_text = 45 ∷ 50 ∷ []

abbrev wire : Link
wire = record {
  framer = record { buffer = []; packet_size = 664 };
  connected = true;
  client_running = true;
  callback_enabled = true;
  callback_set = true;
  running = true;
  packet_queue = [];
}

measured_over_link_example :
    (l' : Link) × (p' : Processor) × (recv_once 700
        (bytes_in (
          to_byte_array
            (measure_packet (reply_with 3 ([] ∷ x_text ∷ y_text ∷ [] ∷ replicate 6 [])))))
        wire
      ≡ some (
        pos 664,
        to_byte_array (measure_packet (reply_with 3 ([] ∷ x_text ∷ y_text ∷ [] ∷ replicate 6 []))),
        l',
      ))
    × (receive_all no_digits (map incoming (process_packets l').0) slt_processor ≡ some p')
    × (get_latest_data measure p'.store
        ≡ ("Error Description", [])
          ∷ ("XOffset", x_text)
          ∷ ("YOffset", y_text)
          ∷ ("ZFocus", [])
          ∷ [])
unfolding until_nul
measured_over_link_example =
    measured_over_link no_digits 700 3 [] x_text y_text [] (replicate 6 []) wire slt_processor refl
      (omega arith) (refl, refl) refl refl refl (omega arith)

abbrev failed_reply : Incoming
failed_reply = record {
  stream = 107;
  function = 9;
  body = int32_bytes 3 ++ (int32_bytes 1 ++ replicate 640 0);
}

abbrev good_reply : Incoming
good_reply = record {
  stream = 107;
  function = 9;
  body = int32_bytes 3 ++ (int32_bytes 0 ++ replicate 640 0);
}

abbrev recipe_reply : Incoming
recipe_reply = record { stream = 2; function = 42; body = replicate 12 0 }

abbrev replies : List Incoming
replies = failed_reply ∷ recipe_reply ∷ good_reply ∷ []

abbrev asked : Processor
asked = (request_measure no_number true [] slt_processor).1

abbrev or_new : Option Processor → Processor
or_new none = slt_processor
or_new (some p) = p

abbrev measured : Processor
measured = or_new (receive_all no_digits replies asked)

measure_answered_example : is_valid measure measured.store ≡ last_reply false replies
unfolding receive_all receive deliver run_handler on_receive handlers register_handler new find
    assign on_measure store_measure text_at c_string int32_bytes int_at bytes_int32
measure_answered_example =
    measure_answered no_digits no_number true [] slt_processor replies measured refl

abbrev ready_asked : Processor
ready_asked = (request_insp_ready true [] slt_processor).1

abbrev ready_unanswered : Processor
ready_unanswered = or_new (receive_all no_digits replies ready_asked)

insp_ready_unanswered_example : is_valid insp_ready ready_unanswered.store ≡ false
unfolding receive_all receive deliver run_handler on_receive handlers register_handler new find
    assign on_measure store_measure text_at c_string int32_bytes int_at bytes_int32
insp_ready_unanswered_example =
    insp_ready_unanswered no_digits true [] slt_processor replies ready_unanswered refl
