-- ===== src/Vision/Dispatcher.antt =====
-- VisionCom/Src/VisionMsgDispatcher.cpp: handlers by stream and function, a received message handed
-- to its handler at once, or to a scheduler if there is one. A handler is a value of any type `H`;
-- an empty `std::function` is `none`. What a handler does is not the dispatcher's, so a delivery is
-- returned as a value.
use vision_motion_framework.Prelude.{
  ℕ, ◌≡◌, Bool, true, false, ◌&&◌, ◌==◌, if◌then◌else◌, Option, none, some, List, [], ◌∷◌, arith,
}
use vision_motion_framework.Vision.Packet.{SecsPacketHeader}

pub record Message (H : Type 0) : Type 0 where
  pub handler : H
  pub s : ℕ
  pub f : ℕ
  pub body : List ℕ
  pub server_index : ℕ

pub data Delivery (H : Type 0) : Type 0 where
  dropped : Delivery H
  called : Message H → Delivery H
  scheduled : Message H → Delivery H

pub record Entry (H : Type 0) : Type 0 where
  pub s : ℕ
  pub f : ℕ
  pub handler : Option H

pub record Dispatcher (H : Type 0) : Type 0 where
  pub handlers : List (Entry H)
  pub scheduler : Bool

module _ {H : Type 0} where
  unfoldable pub new : Dispatcher H
  new = record { handlers = []; scheduler = false }

  unfoldable pub set_scheduler : Bool → Dispatcher H → Dispatcher H
  set_scheduler scheduler d = record d { scheduler = scheduler }

  unfoldable pub find : ℕ → ℕ → List (Entry H) → Option (Entry H)
  find s f [] = none
  find s f (e ∷ es) = if e.s == s && e.f == f then some e else find s f es

  unfoldable pub assign : ℕ → ℕ → Option H → List (Entry H) → List (Entry H)
  assign s f h [] = record { s = s; f = f; handler = h } ∷ []
  assign s f h (e ∷ es) =
      if e.s == s && e.f == f then record e { handler = h } ∷ es else e ∷ assign s f h es

  unfoldable pub erase : ℕ → ℕ → List (Entry H) → List (Entry H)
  erase s f [] = []
  erase s f (e ∷ es) = if e.s == s && e.f == f then erase s f es else e ∷ erase s f es

  unfoldable pub register_handler : ℕ → ℕ → Option H → Dispatcher H → Dispatcher H
  register_handler s f h d = record d { handlers = assign s f h d.handlers }

  unfoldable pub unregister_handler : ℕ → ℕ → Dispatcher H → Dispatcher H
  unregister_handler s f d = record d { handlers = erase s f d.handlers }

  abbrev pub is_found : Option (Entry H) → Bool
  is_found none = false
  is_found (some e) = true

  unfoldable pub has_handler : ℕ → ℕ → Dispatcher H → Bool
  has_handler s f d = is_found (find s f d.handlers)

  abbrev pub handler_of : Option (Entry H) → Option H
  handler_of none = none
  handler_of (some e) = e.handler

  abbrev pub hand_to : Bool → Option H → ℕ → ℕ → List ℕ → ℕ → Delivery H
  hand_to scheduler none s f body index = dropped
  hand_to true (some h) s f body index =
      scheduled (record { handler = h; s = s; f = f; body = body; server_index = index })
  hand_to false (some h) s f body index =
      called (record { handler = h; s = s; f = f; body = body; server_index = index })

  unfoldable pub on_receive : ℕ → ℕ → List ℕ → ℕ → Dispatcher H → Delivery H
  on_receive s f body server_index d =
      hand_to d.scheduler (handler_of (find s f d.handlers)) s f body server_index

  unfoldable pub dispatch : SecsPacketHeader → List ℕ → Dispatcher H → Delivery H
  unfolding on_receive
  dispatch header body d = on_receive header.s header.f body 0 d

  -- The handler table is a map from stream and function to handlers.
  pub find-assign :
      (s f s' f' : ℕ) (h : Option H) (es : List (Entry H))
      → handler_of (find s' f' (assign s f h es))
        ≡ (if s == s' && f == f' then h else handler_of (find s' f' es))
  unfolding find assign
  find-assign s f s' f' h [] = ground arith
  find-assign s f s' f' h (e ∷ es) = ground (arith, find-assign s f s' f' h es)

  pub find-erase :
      (s f s' f' : ℕ) (es : List (Entry H))
      → find s' f' (erase s f es) ≡ (if s == s' && f == f' then none else find s' f' es)
  unfolding find erase
  find-erase s f s' f' [] = ground arith
  find-erase s f s' f' (e ∷ es) = ground (arith, find-erase s f s' f' es)

  -- Registering a handler changes what happens to messages of its stream and function, and to no
  -- others: those reach the new handler with the message's own stream, function, body and server,
  -- through the scheduler if there is one, and all others are treated as before.
  on_receive-register_handler :
      (s f s' f' : ℕ) (h : H) (body : List ℕ) (index : ℕ) (d : Dispatcher H)
      → on_receive s' f' body index (register_handler s f (some h) d) ≡ (
          if s == s' && f == f'
          then hand_to d.scheduler (some h) s' f' body index
          else on_receive s' f' body index d)
  unfolding on_receive register_handler
  on_receive-register_handler s f s' f' h body index d =
      ground (arith, find-assign s f s' f' (some h) d.handlers)

  -- After a handler is taken out, its messages are dropped, `has_handler` denies it, and all other
  -- streams and functions are as before.
  on_receive-unregister_handler :
      (s f s' f' : ℕ) (body : List ℕ) (index : ℕ) (d : Dispatcher H)
      → (on_receive s' f' body index (unregister_handler s f d)
          ≡ (if s == s' && f == f' then dropped else on_receive s' f' body index d))
        × (has_handler s' f' (unregister_handler s f d)
            ≡ (if s == s' && f == f' then false else has_handler s' f' d))
  unfolding on_receive unregister_handler has_handler
  on_receive-unregister_handler s f s' f' body index d = (
    ground (arith, find-erase s f s' f' d.handlers),
    ground (arith, find-erase s f s' f' d.handlers),
  )
