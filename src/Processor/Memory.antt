-- ===== src/Processor/Memory.antt =====
-- DVH_Library/src/VisionMemoryProcessor.cpp: its requests and what it does with the replies. Its structures
-- are not cleared before they are filled: `stale` is what the ten fields hold before. A request answers
-- and a packet is kept as in DVH_Library/src/VisionSLTProcessor.cpp.
pub mod Validity
use Prim.Native.String.{String}
use vision_motion_framework.Prelude.{
  ℕ, zero, suc, ◌+◌, ◌-◌, Bool, true, false, ◌==◌, ltb, if◌then◌else◌, Option, none, some, List, [],
  ◌∷◌, ◌++◌, length, get_or, set, take, drop,
}
use vision_motion_framework.Vision.Bytes.{int32_bytes}
use vision_motion_framework.Vision.Packet.{
  SecsPacket, secs_packet, set_body, set_op_code, set_sub_code, set_correlation_id,
}
use vision_motion_framework.Vision.Dispatcher.{
  Delivery, dropped, called, scheduled, Dispatcher, new, register_handler, on_receive,
}
use vision_motion_framework.Vat.World.{
  VatCommand, set_cok, insp_ready, measure, device_check, light_command,
}
use vision_motion_framework.Processor.Store.{
  DataMap, value, Store, set_latest_data, clear_latest_data,
}
use vision_motion_framework.Processor.Layout.{
  str_len, until_nul, concat, MeasureBody, measure_size, int_at, text_at,
}
use vision_motion_framework.Processor.Slt.{
  Processor, Requested, answered, threw, cleared, send, number_or_zero, send_measure, Incoming,
}

-- What `strncpy_s` with `_TRUNCATE` makes of a field: behind the terminating zero it stays as it was.
unfoldable pub written : List ℕ → List ℕ → List ℕ
written text old =
    let kept = take (str_len - 1) (until_nul text) in kept ++ (0 ∷ drop (length kept + 1) old)

unfoldable pub write_param : ℕ → Option (List ℕ) → List (List ℕ) → List (List ℕ)
write_param i none fields = fields
write_param i (some text) fields = set fields i (written text (get_or fields i []))

unfoldable pub recipe_params : DataMap → List (List ℕ) → List (List ℕ)
recipe_params params stale = write_param 7 (value "picker_pitch_y" params) (
    write_param 6 (value "picker_pitch_x" params) (
      write_param 5 (value "cok_type" params) (
        write_param 4 (value "device_size_y" params) (
          write_param 3 (value "device_size_x" params) (
            write_param 2 (value "pcd_mode" params)
              (write_param 1 (value "recipe_name" params) stale))))))

-- CPacketBody_S2F41 with the command 1000 and seven parameters.
unfoldable pub recipe_packet : List (List ℕ) → DataMap → SecsPacket
recipe_packet stale params =
    set_body (int32_bytes 1000 ++ (int32_bytes 7 ++ concat (recipe_params params stale)))
      (set_sub_code 41 (set_op_code 2 (set_correlation_id 1000 secs_packet)))

unfoldable pub request_set_cok : Bool → List (List ℕ) → DataMap → Processor → Requested × Processor
request_set_cok ok stale params p = send ok (recipe_packet stale params) (cleared set_cok p)

unfoldable pub request_insp_ready :
    Bool → List (List ℕ) → DataMap → Processor → Requested × Processor
request_insp_ready ok stale params p = send ok (recipe_packet stale params) (cleared insp_ready p)

unfoldable pub measure_params : DataMap → List (List ℕ) → List (List ℕ)
measure_params params stale =
    write_param 3 (value "nFovDirection" params)
      (write_param 1 (value "bSaveImage" params) (write_param 0 (value "nMovePart" params) stale))

abbrev pub measure_body_of : List (List ℕ) → DataMap → Option ℕ → Option ℕ → Option MeasureBody
measure_body_of stale params (some camera) (some kind) =
    some (record { data_id = camera; status = kind; c_data = measure_params params stale })
measure_body_of stale params _ _ = none

unfoldable pub measure_body : (List ℕ → Option ℕ) → List (List ℕ) → DataMap → Option MeasureBody
measure_body stoi stale params =
    measure_body_of stale params (number_or_zero stoi (value "CameraID" params))
      (number_or_zero stoi (value "InspectionType" params))

unfoldable pub request_measure :
    (List ℕ → Option ℕ) → Bool → List (List ℕ) → DataMap → Processor → Requested × Processor
request_measure stoi ok stale params p =
    send_measure ok (measure_body stoi stale params) (cleared measure p)

abbrev pub request_device_check : DataMap → Processor → Requested × Processor
request_device_check params p = (answered false, p)

abbrev pub request_light : DataMap → Processor → Requested × Processor
request_light params p = (answered false, p)

-- CPacketBody_S2F41.
abbrev pub recipe_size : ℕ
recipe_size = 648

abbrev pub with_text : String → Option (List ℕ) → Option DataMap → Option DataMap
with_text key (some text) (some values) = some ((key, text) ∷ values)
with_text key _ _ = none

-- The texts from field i on under their keys; `none` if one of them has no end.
unfoldable pub read_texts : ℕ → List String → List ℕ → Option DataMap
read_texts i [] body = some []
read_texts i (key ∷ keys) body = with_text key (text_at 8 i body) (read_texts (suc i) keys body)

abbrev pub keep : VatCommand → Store → Option DataMap → Option Store
keep command s none = none
keep command s (some values) = some (set_latest_data command values s)

abbrev pub recipe_keys : List String
recipe_keys = "Result" ∷ "ServerIndex" ∷ "CamStatus" ∷ "CamType" ∷ []

abbrev pub measure_keys : List String
measure_keys = "ZFocusValue" ∷ "XOffset" ∷ "YOffset" ∷ "Angle" ∷ "AutoVisionSetting" ∷ []

abbrev on_recipe : VatCommand → List ℕ → Store → Option Store
on_recipe command body s =
    let stored = keep command s (read_texts 0 recipe_keys body) in
    if ltb (length body) recipe_size then some (clear_latest_data command s) else stored

unfoldable pub on_set_cok : List ℕ → Store → Option Store
on_set_cok body s = on_recipe set_cok body s

unfoldable pub on_insp_ready : List ℕ → Store → Option Store
on_insp_ready body s = on_recipe insp_ready body s

unfoldable pub on_measure : List ℕ → Store → Option Store
on_measure body s =
    let stored = keep measure s (read_texts 0 measure_keys body) in
    if ltb (length body) measure_size
    then some (clear_latest_data measure s)
    else if int_at 4 body == 1
    then stored
    else some (clear_latest_data measure s)

abbrev pub on_device_check : List ℕ → Store → Store
on_device_check body s = clear_latest_data device_check s

abbrev pub on_light : List ℕ → Store → Store
on_light body s = clear_latest_data light_command s

-- The handlers that the constructor registers: for the measurement, and for S2F42.
pub data Handler : Type 0 where
  measure_handler recipe_handler : Handler

unfoldable pub handlers : Dispatcher Handler
handlers =
    register_handler 2 42 (some recipe_handler) (register_handler 107 9 (some measure_handler) new)

unfoldable pub on_recipe_reply : List ℕ → Store → Option Store
on_recipe_reply body s = elim (on_set_cok body s) [ none ↦ none | some s' ↦ on_insp_ready body s' ]

unfoldable pub run_handler : Handler → List ℕ → Store → Option Store
run_handler measure_handler body s = on_measure body s
run_handler recipe_handler body s = on_recipe_reply body s

unfoldable pub deliver : Delivery Handler → Store → Option Store
deliver dropped s = some s
deliver (called m) s = run_handler m.handler m.body s
deliver (scheduled m) s = run_handler m.handler m.body s

abbrev pub with_store : Processor → Option Store → Option Processor
with_store p none = none
with_store p (some s) = some (record p { store = s })

unfoldable pub receive : Incoming → Processor → Option Processor
receive m p = with_store p (deliver (on_receive m.stream m.function m.body 0 handlers) p.store)

-- `none` once a reply has left the language's rules.
unfoldable pub receive_all : List Incoming → Processor → Option Processor
receive_all [] p = some p
receive_all (m ∷ ms) p = elim (receive m p) [ none ↦ none | some p' ↦ receive_all ms p' ]
