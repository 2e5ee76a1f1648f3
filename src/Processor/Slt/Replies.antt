-- ===== src/Processor/Slt/Replies.antt =====
-- What one reply changes: the handlers of DVH_Library/src/VisionSLTProcessor.cpp.
use Prim.Native.String.{String}
use mathlib.Core.Option.{some-injective}
use vision_motion_framework.Prelude.{
  ℕ, ◌≡◌, sym, ◌∙◌, ap, Bool, true, false, not, ◌&&◌, ◌==◌, ltb, if◌then◌else◌, Option, none, some,
  List, ◌∷◌, length,
}
use vision_motion_framework.Vision.Dispatcher.{hand_to}
use vision_motion_framework.Vat.World.{measure, set_cok, device_check, VatCommand}
use vision_motion_framework.Processor.Store.{
  Store, DataMap, is_valid, is_same, set_latest_data, clear_latest_data, is_valid-set_latest_data,
  is_valid-clear_latest_data,
}
use vision_motion_framework.Processor.Layout.{
  measure_size, acknowledge_size, device_check_size, int_at, text_at,
}
use vision_motion_framework.Processor.Slt.{
  Handler, measure_handler, set_cok_handler, device_check_handler, Incoming, run_handler, deliver,
  with_texts, on_measure, store_measure, on_set_cok, on_device_check, store_device_check,
  acknowledged,
}

-- A reply with a measurement: long enough, and with the status OK.
abbrev pub is_measurement : List ℕ → Bool
is_measurement body = not (ltb (length body) measure_size) && int_at 4 body == 0

abbrev pub is_measure_handler : Handler → Bool
is_measure_handler measure_handler = true
is_measure_handler _ = false

abbrev pub is_measure : Option Handler → Bool
is_measure none = false
is_measure (some h) = is_measure_handler h

abbrev pick : VatCommand → Store → Bool → Bool → Bool
pick c s v b = if b then v else is_valid c s

module _ (to_string : ℕ → List ℕ) where
  with_texts-some :
      (o o' : Option (List ℕ)) (f : List ℕ → List ℕ → Option Store) (s : Store)
      → with_texts to_string o o' f ≡ some s
      → (a : List ℕ) × (b : List ℕ) × (f a b ≡ some s)
  with_texts-some none o' f s e = cc
  with_texts-some (some a) none f s e = cc
  with_texts-some (some a) (some b) f s e = (a, b, e)

  is_valid_after :
      (c command : VatCommand) (e : String × List ℕ) (es : DataMap) (s s' : Store)
      → some (set_latest_data command (e ∷ es) s) ≡ some s'
      → is_valid c s' ≡ (if is_same command c then true else is_valid c s)
  is_valid_after c command e es s s' h =
      ap (is_valid c) (sym (some-injective _ _ h)) ∙ is_valid-set_latest_data command c e es s

  is_valid_cleared :
      (c command : VatCommand) (s s' : Store)
      → some (clear_latest_data command s) ≡ some s'
      → is_valid c s' ≡ (if is_same command c then false else is_valid c s)
  is_valid_cleared c command s s' h =
      ap (is_valid c) (sym (some-injective _ _ h)) ∙ is_valid-clear_latest_data command c s

  store_measure-valid :
      (c : VatCommand) (body : List ℕ) (s s' : Store)
      → store_measure to_string body s ≡ some s'
      → is_valid c s' ≡ (if is_same measure c then true else is_valid c s)
  unfolding store_measure
  store_measure-valid c body s s' e =
      let (error, x, e) = with_texts-some (text_at 8 0 body) (text_at 8 1 body) _ s' e in
      let (y, z, e) = with_texts-some (text_at 8 2 body) (text_at 8 3 body) _ s' e in
      is_valid_after c measure _ _ s s' e

  on_measure-valid :
      (c : VatCommand) (body : List ℕ) (s s' : Store)
      → on_measure to_string body s ≡ some s'
      → is_valid c s' ≡ (if is_same measure c then is_measurement body else is_valid c s)
  unfolding on_measure
  on_measure-valid c body s s' e = go (ltb (length body) measure_size) (int_at 4 body == 0) e
    where
      go :
          (short fine : Bool)
          → (if short
              then some (clear_latest_data measure s)
              else if fine
              then store_measure to_string body s
              else some (clear_latest_data measure s))
            ≡ some s'
          → is_valid c s' ≡ (if is_same measure c then (not short && fine) else is_valid c s)
      go true fine e = is_valid_cleared c measure s s' e
      go false true e = store_measure-valid c body s s' e
      go false false e = is_valid_cleared c measure s s' e

  store_device_check-valid :
      (c : VatCommand) (body : List ℕ) (s s' : Store)
      → store_device_check to_string body s ≡ some s'
      → is_valid c s' ≡ (if is_same device_check c then true else is_valid c s)
  unfolding store_device_check
  store_device_check-valid c body s s' e =
      let (error, result, e) = with_texts-some (text_at 12 0 body) (text_at 12 1 body) _ s' e in
      is_valid_after c device_check _ _ s s' e

  on_device_check-valid :
      (c : VatCommand) (body : List ℕ) (s s' : Store)
      → on_device_check to_string body s ≡ some s'
      → is_same device_check c ≡ false
      → is_valid c s' ≡ is_valid c s
  unfolding on_device_check
  on_device_check-valid c body s s' e other = go (ltb (length body) device_check_size) e
    where
      go :
          (short : Bool)
          → (if short
              then some (clear_latest_data device_check s)
              else store_device_check to_string body s)
            ≡ some s'
          → is_valid c s' ≡ is_valid c s
      go true e = is_valid_cleared c device_check s s' e ∙ ap (pick c s false) other
      go false e = store_device_check-valid c body s s' e ∙ ap (pick c s true) other

  on_set_cok-valid :
      (c : VatCommand) (body : List ℕ) (s : Store)
      → is_same set_cok c ≡ false
      → is_valid c (on_set_cok to_string body s) ≡ is_valid c s
  unfolding on_set_cok
  on_set_cok-valid c body s other = go (ltb (length body) acknowledge_size)
    where
      go :
          (short : Bool)
          → is_valid c (
              if short
              then clear_latest_data set_cok s
              else set_latest_data set_cok (acknowledged to_string "Status" body) s)
            ≡ is_valid c s
      go true = is_valid-clear_latest_data set_cok c s ∙ ap (pick c s false) other
      go false = is_valid-set_latest_data set_cok c _ _ s ∙ ap (pick c s true) other

  -- A command that only measure replies concern, or none.
  run_handler-valid :
      (c : VatCommand) (h : Handler) (body : List ℕ) (s s' : Store)
      → is_same set_cok c ≡ false
      → is_same device_check c ≡ false
      → run_handler to_string h body s ≡ some s'
      → is_valid c s' ≡ (
          if is_measure_handler h
          then (if is_same measure c then is_measurement body else is_valid c s)
          else is_valid c s)
  unfolding run_handler
  run_handler-valid c measure_handler body s s' other other' e = on_measure-valid c body s s' e
  run_handler-valid c set_cok_handler body s s' other other' e =
      ap (is_valid c) (sym (some-injective _ _ e)) ∙ on_set_cok-valid c body s other
  run_handler-valid c device_check_handler body s s' other other' e =
      on_device_check-valid c body s s' e other'

  pub deliver-valid :
      (c : VatCommand) (h : Option Handler) (m : Incoming) (s s' : Store)
      → is_same set_cok c ≡ false
      → is_same device_check c ≡ false
      → deliver to_string (hand_to false h m.stream m.function m.body 0) s ≡ some s'
      → is_valid c s' ≡ (
          if is_measure h
          then (if is_same measure c then is_measurement m.body else is_valid c s)
          else is_valid c s)
  unfolding deliver
  deliver-valid c none m s s' other other' e = ap (is_valid c) (sym (some-injective _ _ e))
  deliver-valid c (some h) m s s' other other' e = run_handler-valid c h m.body s s' other other' e
