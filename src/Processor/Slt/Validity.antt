-- ===== src/Processor/Slt/Validity.antt =====
-- When an answer of the vision is valid for the tasks: DVH_Library/src/VisionSLTProcessor.cpp over any
-- messages.
use mathlib.Core.Option.{some-injective}
use vision_motion_framework.Prelude.{
  ℕ, ◌≡◌, refl, sym, ◌∙◌, ap, Bool, true, false, ◌&&◌, ◌==◌, if◌then◌else◌, Option, none, some,
  List, [], ◌∷◌, arith,
}
use vision_motion_framework.Vision.Dispatcher.{
  handler_of, find, assign, new, register_handler, on_receive,
}
use vision_motion_framework.Vat.World.{measure, insp_ready, set_cok, device_check, VatCommand}
use vision_motion_framework.Processor.Store.{
  Store, DataMap, is_valid, is_same, is_valid-clear_latest_data,
}
use vision_motion_framework.Processor.Layout.{MeasureBody}
use vision_motion_framework.Processor.Slt.{
  Processor, measure_handler, set_cok_handler, device_check_handler, handlers, Incoming, receive,
  receive_all, with_store, request_measure, request_insp_ready, send_measure, cleared, measure_body,
}
use vision_motion_framework.Processor.Slt.Replies.{is_measurement, is_measure, deliver-valid}

abbrev pub is_measure_reply : Incoming → Bool
is_measure_reply m = 107 == m.stream && 9 == m.function

-- Whether the last reply to a measure request, or the flag at first, was a measurement.
abbrev pub last_reply : Bool → List Incoming → Bool
last_reply b [] = b
last_reply b (m ∷ ms) = last_reply (if is_measure_reply m then is_measurement m.body else b) ms

handler-lookup :
    (s f : ℕ)
    → handler_of (find s f handlers.handlers) ≡ (
        if 107 == s && 9 == f
        then some measure_handler
        else if 2 == s && 42 == f
        then some set_cok_handler
        else if 2 == s && 4 == f
        then some device_check_handler
        else none)
unfolding find handlers register_handler assign new
handler-lookup s f = ground arith

abbrev by_reply : VatCommand → Incoming → Store → Bool → Bool
by_reply c m s b =
    if b then (if is_same measure c then is_measurement m.body else is_valid c s) else is_valid c s

module _ (to_string : ℕ → List ℕ) where
  with_store-some :
      (p p' : Processor) (o : Option Store)
      → with_store to_string p o ≡ some p'
      → (s : Store) × (o ≡ some s) × (p'.store ≡ s)
  with_store-some p p' none e = cc
  with_store-some p p' (some s) e = (s, refl, ap (λ q. store_of q) (sym (some-injective _ _ e)))
    where
      store_of : Processor → Store
      store_of q = q.store

  measure-lookup :
      (m : Incoming)
      → is_measure (handler_of (find m.stream m.function handlers.handlers)) ≡ is_measure_reply m
  measure-lookup m =
      ap is_measure (handler-lookup m.stream m.function)
      ∙ go (is_measure_reply m) (2 == m.stream && 42 == m.function)
          (2 == m.stream && 4 == m.function)
    where
      go :
          (a b c : Bool)
          → is_measure (
              if a
              then some measure_handler
              else if b
              then some set_cok_handler
              else if c
              then some device_check_handler
              else none)
            ≡ a
      go true b c = refl
      go false true c = refl
      go false false true = refl
      go false false false = refl

  receive-valid :
      (c : VatCommand) (m : Incoming) (p p' : Processor)
      → is_same set_cok c ≡ false
      → is_same device_check c ≡ false
      → receive to_string m p ≡ some p'
      → is_valid c p'.store ≡ (
          if is_measure_reply m
          then (if is_same measure c then is_measurement m.body else is_valid c p.store)
          else is_valid c p.store)
  unfolding receive on_receive handlers register_handler new
  receive-valid c m p p' other other' e =
      let (s', d, kept) = with_store-some p p' _ e in
      ap (is_valid c) kept
      ∙ deliver-valid to_string c (handler_of (find m.stream m.function handlers.handlers)) m
          p.store s' other other' d
      ∙ ap (by_reply c m p.store) (measure-lookup m)

  receive_all-step :
      (m : Incoming) (ms : List Incoming) (p p' : Processor)
      → receive_all to_string (m ∷ ms) p ≡ some p'
      → (q : Processor) × (receive to_string m p ≡ some q) × (receive_all to_string ms q ≡ some p')
  unfolding receive_all
  receive_all-step m ms p p' e = go (receive to_string m p) refl e
    where
      go :
          (o : Option Processor)
          → receive to_string m p ≡ o
          → elim o [ none ↦ none | some q ↦ receive_all to_string ms q ] ≡ some p'
          → (q : Processor) × (receive to_string m p ≡ some q)
            × (receive_all to_string ms q ≡ some p')
      go none at e = cc
      go (some q) at e = (q, at, e)

  receive_none :
      (c : VatCommand) (p p' : Processor)
      → receive_all to_string [] p ≡ some p'
      → is_valid c p'.store ≡ is_valid c p.store
  unfolding receive_all
  receive_none c p p' e = ap (valid c) (sym (some-injective _ _ e))
    where
      valid : VatCommand → Processor → Bool
      valid c p = is_valid c p.store

  receive_all-measure :
      (ms : List Incoming) (p p' : Processor)
      → receive_all to_string ms p ≡ some p'
      → is_valid measure p'.store ≡ last_reply (is_valid measure p.store) ms
  receive_all-measure [] p p' e = receive_none measure p p' e
  receive_all-measure (m ∷ ms) p p' e =
      let (q, one, rest) = receive_all-step m ms p p' e in
      receive_all-measure ms q p' rest
      ∙ ap (λ b. last_reply b ms) (receive-valid measure m p q refl refl one)

  receive_all-insp_ready :
      (ms : List Incoming) (p p' : Processor)
      → receive_all to_string ms p ≡ some p'
      → is_valid insp_ready p'.store ≡ is_valid insp_ready p.store
  receive_all-insp_ready [] p p' e = receive_none insp_ready p p' e
  receive_all-insp_ready (m ∷ ms) p p' e =
      let (q, one, rest) = receive_all-step m ms p p' e in
      receive_all-insp_ready ms q p' rest
      ∙ receive-valid insp_ready m p q refl refl one
      ∙ same (is_measure_reply m) (is_valid insp_ready p.store)
    where
      same : (b x : Bool) → (if b then x else x) ≡ x
      same true x = refl
      same false x = refl

  request_measure-valid :
      (stoi : List ℕ → Option ℕ) (ok : Bool) (params : DataMap) (p : Processor)
      → is_valid measure (request_measure stoi ok params p).1.store ≡ false
  unfolding request_measure
  request_measure-valid stoi ok params p = go (measure_body stoi params)
    where
      go :
          (b : Option MeasureBody)
          → is_valid measure (send_measure ok b (cleared measure p)).1.store ≡ false
      go none = is_valid-clear_latest_data measure measure p.store
      go (some b) = is_valid-clear_latest_data measure measure p.store

  -- A measurement is valid for the tasks exactly when the last reply to a measure request that was
  -- received since the last request has 648 bytes at least and the status OK; before any reply it is not,
  -- whether or not the request could be sent. The replies are ones whose texts end.
  pub measure_answered :
      (stoi : List ℕ → Option ℕ) (ok : Bool) (params : DataMap) (p : Processor) (ms : List Incoming)
      (p' : Processor)
      → receive_all to_string ms (request_measure stoi ok params p).1 ≡ some p'
      → is_valid measure p'.store ≡ last_reply false ms
  measure_answered stoi ok params p ms p' e =
      receive_all-measure ms _ p' e
      ∙ ap (λ b. last_reply b ms) (request_measure-valid stoi ok params p)

  -- A request for the readiness of the inspection is never answered: whatever messages come behind it, its
  -- answer is not valid, since no message is handed to OnInspReady. The replies are ones whose texts end.
  pub insp_ready_unanswered :
      (ok : Bool) (params : DataMap) (p : Processor) (ms : List Incoming) (p' : Processor)
      → receive_all to_string ms (request_insp_ready ok params p).1 ≡ some p'
      → is_valid insp_ready p'.store ≡ false
  unfolding request_insp_ready
  insp_ready_unanswered ok params p ms p' e =
      receive_all-insp_ready ms _ p' e ∙ is_valid-clear_latest_data insp_ready insp_ready p.store
