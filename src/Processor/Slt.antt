-- ===== src/Processor/Slt.antt =====
-- DVH_Library/src/VisionSLTProcessor.cpp: its requests and what it does with the replies. `std::stoi` and `std::to_string` are arguments; `std::stoi` answers `none` where it throws.
pub mod Replies
pub mod Validity
pub mod Measured
pub mod Wire
use Prim.Native.String.{String}
use vision_motion_framework.Prelude.{
  ℕ, zero, suc, ◌+◌, ◌-◌, Bool, true, false, ◌==◌, ltb, if◌then◌else◌, Option, none, some, List, [],
  ◌∷◌, ◌++◌, length, get_or, set, take, drop, replicate,
}
use vision_motion_framework.Vision.Bytes.{int32_bytes, bytes_int32}
use vision_motion_framework.Vision.Packet.{
  SecsPacket, secs_packet, set_body, set_op_code, set_sub_code, set_correlation_id,
}
use vision_motion_framework.Vision.Dispatcher.{
  Message, Delivery, dropped, called, scheduled, Dispatcher, new, register_handler, on_receive,
}
use vision_motion_framework.Vat.World.{
  VatCommand, set_cok, insp_ready, measure, device_check, light_command,
}
use vision_motion_framework.Processor.Store.{
  DataMap, value, Store, empty_store, set_latest_data, clear_latest_data,
}
use vision_motion_framework.Processor.Layout.{
  str_len, data_size, empty_field, field, concat, MeasureBody, cleared_measure_body, set_data,
  measure_bytes, measure_size, acknowledge_size, device_check_size, int_at, text_at,
}

pub record Processor : Type 0 where
  pub store : Store
  -- The packets that were given to SendPacketAsync, the latest last.
  pub sent : List SecsPacket

unfoldable pub slt_processor : Processor
slt_processor = record { store = empty_store; sent = [] }

-- A request answers whether the packet was sent, or ends by an exception.
pub data Requested : Type 0 where
  answered : Bool → Requested
  threw : Requested

abbrev pub cleared : VatCommand → Processor → Processor
cleared command p = record p { store = clear_latest_data command p.store }

abbrev pub send : Bool → SecsPacket → Processor → Requested × Processor
send ok packet p = (answered ok, record p { sent = p.sent ++ (packet ∷ []) })

-- A field of an integer that stays 0 if the parameter is missing.
abbrev pub number_or_zero : (List ℕ → Option ℕ) → Option (List ℕ) → Option ℕ
number_or_zero stoi none = some 0
number_or_zero stoi (some text) = stoi text

unfoldable pub measure_texts : DataMap → MeasureBody → MeasureBody
measure_texts params b =
    set_data 3 (value "nFovDirection" params)
      (set_data 1 (value "bSaveImage" params) (set_data 0 (value "nMovePart" params) b))

abbrev pub measure_body_of : DataMap → Option ℕ → Option ℕ → Option MeasureBody
measure_body_of params (some camera) (some kind) =
    some (measure_texts params (record cleared_measure_body { data_id = camera; status = kind }))
measure_body_of params _ _ = none

unfoldable pub measure_body : (List ℕ → Option ℕ) → DataMap → Option MeasureBody
measure_body stoi params =
    measure_body_of params (number_or_zero stoi (value "CameraID" params))
      (number_or_zero stoi (value "InspectionType" params))

unfoldable pub measure_packet : MeasureBody → SecsPacket
measure_packet b =
    set_body (measure_bytes b)
      (set_sub_code 9 (set_op_code 107 (set_correlation_id b.data_id secs_packet)))

abbrev pub send_measure : Bool → Option MeasureBody → Processor → Requested × Processor
send_measure ok none p = (threw, p)
send_measure ok (some b) p = send ok (measure_packet b) p

-- `ok` says that SendPacketAsync answers VisionOK.
unfoldable pub request_measure :
    (List ℕ → Option ℕ) → Bool → DataMap → Processor → Requested × Processor
request_measure stoi ok params p = send_measure ok (measure_body stoi params) (cleared measure p)

abbrev pub param_or_empty : Option (List ℕ) → List ℕ
param_or_empty none = empty_field
param_or_empty (some text) = field text

-- The bytes of CPacketBody_S2F41 with the command 1000 and seven parameters.
unfoldable pub recipe_bytes : DataMap → List ℕ
recipe_bytes params =
    int32_bytes 1000
    ++ (int32_bytes 7
        ++ concat (
            empty_field
            ∷ param_or_empty (value "recipe_name" params)
            ∷ param_or_empty (value "pcd_mode" params)
            ∷ param_or_empty (value "device_size_x" params)
            ∷ param_or_empty (value "device_size_y" params)
            ∷ param_or_empty (value "cok_type" params)
            ∷ param_or_empty (value "picker_pitch_x" params)
            ∷ param_or_empty (value "picker_pitch_y" params)
            ∷ empty_field
            ∷ empty_field
            ∷ []))

unfoldable pub recipe_packet : DataMap → SecsPacket
recipe_packet params =
    set_body (recipe_bytes params)
      (set_sub_code 41 (set_op_code 2 (set_correlation_id 1000 secs_packet)))

unfoldable pub request_set_cok : Bool → DataMap → Processor → Requested × Processor
request_set_cok ok params p = send ok (recipe_packet params) (cleared set_cok p)

unfoldable pub request_insp_ready : Bool → DataMap → Processor → Requested × Processor
request_insp_ready ok params p = send ok (recipe_packet params) (cleared insp_ready p)

abbrev pub request_device_check : DataMap → Processor → Requested × Processor
request_device_check params p = (answered false, p)

abbrev pub request_light : DataMap → Processor → Requested × Processor
request_light params p = (answered false, p)

pub data Handler : Type 0 where
  measure_handler set_cok_handler device_check_handler : Handler

unfoldable pub handlers : Dispatcher Handler
handlers = register_handler 2 4 (some device_check_handler) (
    register_handler 2 42 (some set_cok_handler)
      (register_handler 107 9 (some measure_handler) new))

-- A message of the vision computer.
pub record Incoming : Type 0 where
  pub stream : ℕ
  pub function : ℕ
  pub body : List ℕ

module _ (to_string : ℕ → List ℕ) where
  -- The three numbers of CPacketBody_S2F42; the key of the last one differs.
  abbrev pub acknowledged : String → List ℕ → DataMap
  acknowledged key body =
      ("MsgID", to_string (int_at 0 body))
      ∷ ("PCIndex", to_string (int_at 4 body))
      ∷ (key, to_string (int_at 8 body))
      ∷ []

  abbrev pub on_acknowledge : VatCommand → String → List ℕ → Store → Store
  on_acknowledge command key body s =
      if ltb (length body) acknowledge_size
      then clear_latest_data command s
      else set_latest_data command (acknowledged key body) s

  unfoldable pub on_set_cok : List ℕ → Store → Store
  on_set_cok body s = on_acknowledge set_cok "Status" body s

  unfoldable pub on_insp_ready : List ℕ → Store → Store
  on_insp_ready body s = on_acknowledge insp_ready "Result" body s

  unfoldable pub on_light : List ℕ → Store → Store
  on_light body s = on_acknowledge light_command "Status" body s

  -- A text that has no end leaves the language's rules: `none`.
  abbrev pub with_texts :
      Option (List ℕ) → Option (List ℕ) → (List ℕ → List ℕ → Option Store) → Option Store
  with_texts (some a) (some b) f = f a b
  with_texts _ _ f = none

  unfoldable pub store_measure : List ℕ → Store → Option Store
  store_measure body s = with_texts (text_at 8 0 body) (text_at 8 1 body) λ error x.
      with_texts (text_at 8 2 body) (text_at 8 3 body) λ y z. some (
        set_latest_data measure
          (("Error Description", error) ∷ ("XOffset", x) ∷ ("YOffset", y) ∷ ("ZFocus", z) ∷ []) s)

  unfoldable pub on_measure : List ℕ → Store → Option Store
  on_measure body s =
      let stored = store_measure body s in
      if ltb (length body) measure_size
      then some (clear_latest_data measure s)
      else if int_at 4 body == 0
      then stored
      else some (clear_latest_data measure s)

  unfoldable pub store_device_check : List ℕ → Store → Option Store
  store_device_check body s = with_texts (text_at 12 0 body) (text_at 12 1 body) λ error result.
      some (
        set_latest_data device_check
          (("MsgID", to_string (int_at 0 body))
            ∷ ("Status", to_string (int_at 4 body))
            ∷ ("Data Count", to_string (int_at 8 body))
            ∷ ("Error Description", error)
            ∷ ("Device Check Result Data", result)
            ∷ [])
          s)

  unfoldable pub on_device_check : List ℕ → Store → Option Store
  on_device_check body s =
      let stored = store_device_check body s in
      if ltb (length body) device_check_size
      then some (clear_latest_data device_check s)
      else stored

  -- The handlers that the constructor registers, each of them by the member that it calls.
  unfoldable pub run_handler : Handler → List ℕ → Store → Option Store
  run_handler measure_handler body s = on_measure body s
  run_handler set_cok_handler body s = some (on_set_cok body s)
  run_handler device_check_handler body s = on_device_check body s

  unfoldable pub deliver : Delivery Handler → Store → Option Store
  deliver dropped s = some s
  deliver (called m) s = run_handler m.handler m.body s
  deliver (scheduled m) s = run_handler m.handler m.body s

  abbrev pub with_store : Processor → Option Store → Option Processor
  with_store p none = none
  with_store p (some s) = some (record p { store = s })

  unfoldable pub receive : Incoming → Processor → Option Processor
  receive m p = with_store p (deliver (on_receive m.stream m.function m.body 0 handlers) p.store)

  -- `none` once a reply has left the language's rules.
  unfoldable pub receive_all : List Incoming → Processor → Option Processor
  receive_all [] p = some p
  receive_all (m ∷ ms) p = elim (receive m p) [ none ↦ none | some p' ↦ receive_all ms p' ]
