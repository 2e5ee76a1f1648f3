-- ===== src/Processor/Memory/Validity.antt =====
-- When an answer of the vision is valid for the tasks: DVH_Library/src/VisionMemoryProcessor.cpp over
-- any messages.
use Prim.Native.String.{String}
use mathlib.Core.Option.{some-injective}
use vision_motion_framework.Prelude.{
  ℕ, ◌≡◌, refl, sym, ◌∙◌, ap, subst, Bool, true, false, not, ◌&&◌, ◌==◌, ltb, if◌then◌else◌, Option,
  none, some, List, [], ◌∷◌, length, arith,
}
use vision_motion_framework.Vision.Dispatcher.{
  handler_of, find, assign, new, register_handler, on_receive, hand_to,
}
use vision_motion_framework.Vat.World.{measure, insp_ready, set_cok, VatCommand}
use vision_motion_framework.Processor.Store.{
  Store, DataMap, is_valid, is_same, clear_latest_data, is_valid-set_latest_data,
  is_valid-clear_latest_data,
}
use vision_motion_framework.Processor.Layout.{measure_size, int_at, text_at}
use vision_motion_framework.Processor.Slt.{Processor, Incoming}
use vision_motion_framework.Processor.Memory.{
  Handler, measure_handler, recipe_handler, handlers, with_text, read_texts, keep, recipe_keys,
  recipe_size, on_set_cok, on_insp_ready, on_measure, on_recipe_reply, run_handler, deliver,
  with_store, receive, receive_all, request_set_cok,
}

-- What one message makes of the validity of a command that was valid as the flag says.
abbrev pub is_measurement : List ℕ → Bool
is_measurement body = not (ltb (length body) measure_size) && int_at 4 body == 1

abbrev pub is_whole : List ℕ → Bool
is_whole body = not (ltb (length body) recipe_size)

abbrev pub is_measure_reply : Incoming → Bool
is_measure_reply m = 107 == m.stream && 9 == m.function

abbrev pub is_recipe_reply : Incoming → Bool
is_recipe_reply m = 2 == m.stream && 42 == m.function

-- Whether the last recipe reply, or the flag at first, was whole.
abbrev pub last_recipe : Bool → List Incoming → Bool
last_recipe b [] = b
last_recipe b (m ∷ ms) = last_recipe (if is_recipe_reply m then is_whole m.body else b) ms

-- Whether the last measure reply, or the flag at first, was a measurement.
abbrev pub last_measure : Bool → List Incoming → Bool
last_measure b [] = b
last_measure b (m ∷ ms) = last_measure (if is_measure_reply m then is_measurement m.body else b) ms

abbrev Now : Store → Bool → Bool → Bool → Type 0
Now s cok ready found =
    (is_valid set_cok s ≡ cok) × (is_valid insp_ready s ≡ ready) × (is_valid measure s ≡ found)

keep-valid :
    (c command : VatCommand) (key : String) (keys : List String) (body : List ℕ) (s s' : Store)
    → keep command s (read_texts 0 (key ∷ keys) body) ≡ some s'
    → is_valid c s' ≡ (if is_same command c then true else is_valid c s)
unfolding read_texts
keep-valid c command key keys body s s' e = go (text_at 8 0 body) (read_texts 1 keys body) e
  where
    go :
        (t : Option (List ℕ)) (rest : Option DataMap)
        → keep command s (with_text key t rest) ≡ some s'
        → is_valid c s' ≡ (if is_same command c then true else is_valid c s)
    go none rest e = cc
    go (some text) none e = cc
    go (some text) (some values) e =
        ap (is_valid c) (sym (some-injective _ _ e))
        ∙ is_valid-set_latest_data command c (key, text) values s

cleared-valid :
    (c command : VatCommand) (s s' : Store)
    → some (clear_latest_data command s) ≡ some s'
    → is_valid c s' ≡ (if is_same command c then false else is_valid c s)
cleared-valid c command s s' e =
    ap (is_valid c) (sym (some-injective _ _ e)) ∙ is_valid-clear_latest_data command c s

-- A reply that is stored if it is long enough and fine, and otherwise clears the command.
stored-valid :
    (c command : VatCommand) (key : String) (keys : List String) (body : List ℕ) (short fine : Bool)
    (s s' : Store)
    → (if short
        then some (clear_latest_data command s)
        else if fine
        then keep command s (read_texts 0 (key ∷ keys) body)
        else some (clear_latest_data command s))
      ≡ some s'
    → is_valid c s' ≡ (if is_same command c then (not short && fine) else is_valid c s)
stored-valid c command key keys body true fine s s' e = cleared-valid c command s s' e
stored-valid c command key keys body false true s s' e = keep-valid c command key keys body s s' e
stored-valid c command key keys body false false s s' e = cleared-valid c command s s' e

on_measure-valid :
    (c : VatCommand) (body : List ℕ) (s s' : Store)
    → on_measure body s ≡ some s'
    → is_valid c s' ≡ (if is_same measure c then is_measurement body else is_valid c s)
unfolding on_measure
on_measure-valid c body s s' e =
    stored-valid c measure _ _ body (ltb (length body) measure_size) (int_at 4 body == 1) s s' e

recipe-valid :
    (c command : VatCommand) (body : List ℕ) (s s' : Store)
    → (if ltb (length body) recipe_size
        then some (clear_latest_data command s)
        else keep command s (read_texts 0 recipe_keys body))
      ≡ some s'
    → is_valid c s' ≡ (if is_same command c then is_whole body else is_valid c s)
recipe-valid c command body s s' e = go (ltb (length body) recipe_size) e
  where
    go :
        (short : Bool)
        → (if short
            then some (clear_latest_data command s)
            else keep command s (read_texts 0 recipe_keys body))
          ≡ some s'
        → is_valid c s' ≡ (if is_same command c then not short else is_valid c s)
    go true e = cleared-valid c command s s' e
    go false e = keep-valid c command _ _ body s s' e

on_recipe_reply-valid :
    (body : List ℕ) (s s' : Store)
    → on_recipe_reply body s ≡ some s'
    → Now s' (is_whole body) (is_whole body) (is_valid measure s)
unfolding on_recipe_reply on_set_cok on_insp_ready
on_recipe_reply-valid body s s' e = go (on_set_cok body s) refl e
  where
    go :
        (o : Option Store)
        → on_set_cok body s ≡ o
        → elim o [ none ↦ none | some q ↦ on_insp_ready body q ] ≡ some s'
        → Now s' (is_whole body) (is_whole body) (is_valid measure s)
    go none at e = cc
    go (some q) at e = (
      recipe-valid set_cok insp_ready body q s' e ∙ recipe-valid set_cok set_cok body s q at,
      recipe-valid insp_ready insp_ready body q s' e,
      recipe-valid measure insp_ready body q s' e ∙ recipe-valid measure set_cok body s q at,
    )

-- What the handler of a message makes of the store.
abbrev After : Option Handler → List ℕ → Store → Store → Type 0
After none body s s' = Now s' (is_valid set_cok s) (is_valid insp_ready s) (is_valid measure s)
After (some measure_handler) body s s' =
    Now s' (is_valid set_cok s) (is_valid insp_ready s) (is_measurement body)
After (some recipe_handler) body s s' = Now s' (is_whole body) (is_whole body) (is_valid measure s)

deliver-After :
    (h : Option Handler) (m : Incoming) (s s' : Store)
    → deliver (hand_to false h m.stream m.function m.body 0) s ≡ some s'
    → After h m.body s s'
unfolding deliver run_handler
deliver-After none m s s' e =
    let same = sym (some-injective _ _ e) in
    (ap (is_valid set_cok) same, ap (is_valid insp_ready) same, ap (is_valid measure) same)
deliver-After (some measure_handler) m s s' e = (
  on_measure-valid set_cok m.body s s' e,
  on_measure-valid insp_ready m.body s s' e,
  on_measure-valid measure m.body s s' e,
)
deliver-After (some recipe_handler) m s s' e = on_recipe_reply-valid m.body s s' e

handler-lookup :
    (s f : ℕ)
    → handler_of (find s f handlers.handlers) ≡ (
        if 107 == s && 9 == f
        then some measure_handler
        else if 2 == s && 42 == f
        then some recipe_handler
        else none)
unfolding find handlers register_handler assign new
handler-lookup s f = ground arith

one_reply : (m : Incoming) → is_measure_reply m ≡ true → is_recipe_reply m ≡ false
one_reply m e = ground arith

-- The validity of the three commands behind one message.
abbrev Step : Incoming → Store → Store → Type 0
Step m s s' =
    Now s' (if is_recipe_reply m then is_whole m.body else is_valid set_cok s)
      (if is_recipe_reply m then is_whole m.body else is_valid insp_ready s)
      (if is_measure_reply m then is_measurement m.body else is_valid measure s)

with_store-some :
    (p p' : Processor) (o : Option Store)
    → with_store p o ≡ some p'
    → (s : Store) × (o ≡ some s) × (p'.store ≡ s)
with_store-some p p' none e = cc
with_store-some p p' (some s) e = (s, refl, ap (λ q. store_of q) (sym (some-injective _ _ e)))
  where
    store_of : Processor → Store
    store_of q = q.store

After-Step :
    (m : Incoming) (s s' : Store)
    → After (handler_of (find m.stream m.function handlers.handlers)) m.body s s'
    → Step m s s'
After-Step m s s' after =
    go (is_measure_reply m) (is_recipe_reply m) (one_reply m)
      (subst (λ h. After h m.body s s') (handler-lookup m.stream m.function) after)
  where
    go :
        (a b : Bool)
        → (a ≡ true → b ≡ false)
        → After
            (if a then some measure_handler else if b then some recipe_handler else none)
            m.body
            s
            s'
        → Now s'
            (if b then is_whole m.body else is_valid set_cok s)
            (if b then is_whole m.body else is_valid insp_ready s)
            (if a then is_measurement m.body else is_valid measure s)
    go true true one after = let e = one refl in cc
    go true false one after = after
    go false true one after = after
    go false false one after = after

receive-Step : (m : Incoming) (p p' : Processor) → receive m p ≡ some p' → Step m p.store p'.store
unfolding receive on_receive handlers register_handler new
receive-Step m p p' e =
    let (s', d, kept) = with_store-some p p' _ e in
    subst (Step m p.store) (sym kept) (
      After-Step m p.store s'
        (deliver-After (handler_of (find m.stream m.function handlers.handlers)) m p.store s' d))

receive_all-step :
    (m : Incoming) (ms : List Incoming) (p p' : Processor)
    → receive_all (m ∷ ms) p ≡ some p'
    → (q : Processor) × (receive m p ≡ some q) × (receive_all ms q ≡ some p')
unfolding receive_all
receive_all-step m ms p p' e = go (receive m p) refl e
  where
    go :
        (o : Option Processor)
        → receive m p ≡ o
        → elim o [ none ↦ none | some q ↦ receive_all ms q ] ≡ some p'
        → (q : Processor) × (receive m p ≡ some q) × (receive_all ms q ≡ some p')
    go none at e = cc
    go (some q) at e = (q, at, e)

receive_all-valid :
    (ms : List Incoming) (p p' : Processor)
    → receive_all ms p ≡ some p'
    → Now p'.store
        (last_recipe (is_valid set_cok p.store) ms)
        (last_recipe (is_valid insp_ready p.store) ms)
        (last_measure (is_valid measure p.store) ms)
unfolding receive_all
receive_all-valid [] p p' e =
    let same = ap (λ q. store_of q) (sym (some-injective _ _ e)) in
    (ap (is_valid set_cok) same, ap (is_valid insp_ready) same, ap (is_valid measure) same)
  where
    store_of : Processor → Store
    store_of q = q.store
receive_all-valid (m ∷ ms) p p' e =
    let (q, one, rest) = receive_all-step m ms p p' e in
    let (cok, ready, found) = receive-Step m p q one in
    let (cok', ready', found') = receive_all-valid ms q p' rest in
    (
      cok' ∙ ap (λ b. last_recipe b ms) cok,
      ready' ∙ ap (λ b. last_recipe b ms) ready,
      found' ∙ ap (λ b. last_measure b ms) found,
    )

-- Behind a request to set the recipe, and whatever messages follow it: the request is answered exactly
-- when the last reply S2F42 since has 648 bytes at least, whether or not it could be sent and whatever
-- stood in the uncleared structure; that same reply also decides whether the inspection counts as ready,
-- although its readiness was not asked for; and the measurement is valid exactly when the last measure
-- reply has 648 bytes at least and the status 1, or no such reply came and it was valid before. The replies
-- are ones whose texts end.
pub set_cok_answered :
    (ok : Bool) (stale : List (List ℕ)) (params : DataMap) (p : Processor) (ms : List Incoming)
    (p' : Processor)
    → receive_all ms (request_set_cok ok stale params p).1 ≡ some p'
    → (is_valid set_cok p'.store ≡ last_recipe false ms)
      × (is_valid insp_ready p'.store ≡ last_recipe (is_valid insp_ready p.store) ms)
      × (is_valid measure p'.store ≡ last_measure (is_valid measure p.store) ms)
unfolding request_set_cok
set_cok_answered ok stale params p ms p' e =
    let (cok, ready, found) = receive_all-valid ms _ p' e in
    (
      cok ∙ ap (λ b. last_recipe b ms) (is_valid-clear_latest_data set_cok set_cok p.store),
      ready ∙ ap (λ b. last_recipe b ms) (is_valid-clear_latest_data set_cok insp_ready p.store),
      found ∙ ap (λ b. last_measure b ms) (is_valid-clear_latest_data set_cok measure p.store),
    )
