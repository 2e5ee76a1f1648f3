-- ===== src/Repository/Async/Order.antt =====
-- What DVH_Library/src/AsyncDataRepository.cpp does with the writes that it accepts.
use vision_motion_framework.Prelude.{
  ℕ, ◌≡◌, ◌≢◌, inl, inr, sym, ap, ◌∙◌, Bool, true, false, List, [], ◌∷◌, ◌++◌, append-nil,
  append_assoc, arith,
}
use mathlib.Core.List.{map-append}
use vision_motion_framework.Repository.Async.{
  Write, Writer, idle, saving, ended, AsyncRepository, Handled, all_empty, after_attempt,
  handled_by, Reaches, here, accepts, stops, takes, attempts, skips, returns,
}
use vision_motion_framework.Repository.Async.Queued.{
  Kind, of_kind, queued, taken, in_hand, writes, of_kind-append, writer-accept, in_hand-accept,
  take_or_end-cases, nothing_queued, queued-stop, in_hand-writer, in_hand-at, in_hand-take,
  taken-attempt,
}

module _ {D : Type 0} where
  -- A step of the thread that handles `done` and leaves `w` of what it had taken.
  in_hand-step :
      (k : Kind) (u : AsyncRepository D) (v w : Writer D) (h done : List (Handled D))
      → u.writer ≡ v
      → of_kind k (taken v) ≡ of_kind k (writes done) ++ of_kind k (taken w)
      → of_kind k (writes h) ++ in_hand k u
        ≡ of_kind k (writes (h ++ done)) ++ in_hand k (record u { writer = w })
  in_hand-step k u v w h done at split =
      ap (λ t. of_kind k (writes h) ++ t)
        (in_hand-at k u v at
          ∙ ap (λ t. t ++ queued k u) split
          ∙ append_assoc (of_kind k (writes done)) (of_kind k (taken w)) (queued k u)
          ∙ ap (λ t. of_kind k (writes done) ++ t) (sym (in_hand-writer k u w)))
      ∙ sym (append_assoc (of_kind k (writes h)) (of_kind k (writes done)) _)
      ∙ ap (λ t. t ++ in_hand k (record u { writer = w }))
          (sym (of_kind-append k (writes h) (writes done))
            ∙ ap (of_kind k) (sym (map-append (λ (x : Handled D). x.write) h done)))

  -- Of each kind, what was in hand at first and what was accepted since is what was handled since and
  -- what is in hand, each write once and in the order in which it was accepted.
  pub accepted-handled :
      (k : Kind) (inner : Bool) (r u : AsyncRepository D) (a : List (Write D))
      (h : List (Handled D)) (l : List (Write D × Bool))
      → Reaches inner r a h l u
      → in_hand k r ++ of_kind k a ≡ of_kind k (writes h) ++ in_hand k u
  accepted-handled k inner r u _ _ _ here = append-nil (in_hand k r)
  accepted-handled k inner r u _ h l (accepts {a = a} {u = v} c steps) =
      ap (λ t. in_hand k r ++ t) (of_kind-append k a (c ∷ []))
      ∙ sym (append_assoc (in_hand k r) (of_kind k a) (of_kind k (c ∷ [])))
      ∙ ap (λ t. t ++ of_kind k (c ∷ [])) (accepted-handled k inner r v a h l steps)
      ∙ append_assoc (of_kind k (writes h)) (in_hand k v) (of_kind k (c ∷ []))
      ∙ ap (λ t. of_kind k (writes h) ++ t) (sym (in_hand-accept k c v))
  accepted-handled k inner r u a h l (stops {u = v} steps) =
      accepted-handled k inner r v a h l steps
      ∙ ap (λ q. of_kind k (writes h) ++ (of_kind k (taken v.writer) ++ q)) (sym (queued-stop k v))
  accepted-handled k inner r u a h l (takes {u = v} still e steps) =
      accepted-handled k inner r v a h l steps
      ∙ ap (λ t. of_kind k (writes h) ++ t) (sym (in_hand-take k v u still e))
  accepted-handled k inner r u a _ _ (attempts {h = h} {l = l} {u = v} ok c cs n on at steps) =
      accepted-handled k inner r v a h l steps
      ∙ in_hand-step k v (saving (c ∷ cs) n) (after_attempt ok c cs n) h (handled_by ok c n) at
          (taken-attempt k ok c cs n)
  accepted-handled k inner r u a _ l (skips {h = h} {u = v} c cs n off at steps) =
      accepted-handled k inner r v a h l steps
      ∙ in_hand-step k v (saving (c ∷ cs) n) (saving cs 0) h
          (record { write = c; failures = 0; saved = false } ∷ []) at (of_kind-append k (c ∷ []) cs)
  accepted-handled k inner r u a h l (returns {u = v} n at steps) =
      accepted-handled k inner r v a h l steps
      ∙ ap (λ t. of_kind k (writes h) ++ t)
          (in_hand-at k v (saving [] n) at ∙ sym (in_hand-writer k v idle))

  after_attempt-ne-ended :
      (ok : Bool) (c : Write D) (cs : List (Write D)) (n : ℕ) → after_attempt ok c cs n ≢ ended
  unfolding after_attempt
  after_attempt-ne-ended ok c cs n e = ground arith

  -- Once a thread that had not left its loop has left it, of each kind everything that was in hand at first has been handled, before anything that was accepted since.
  pub ended-drains :
      (k : Kind) (inner : Bool) (r u : AsyncRepository D) (a : List (Write D))
      (h : List (Handled D)) (l : List (Write D × Bool))
      → Reaches inner r a h l u
      → r.writer ≢ ended
      → u.writer ≡ ended
      → (since : List (Write D)) × (of_kind k (writes h) ≡ in_hand k r ++ since)
  ended-drains k inner r u _ _ _ here on off = absurd (on off)
  ended-drains k inner r u _ h l (accepts {a = a} {u = v} c steps) on off =
      ended-drains k inner r v a h l steps on (sym (writer-accept c v) ∙ off)
  ended-drains k inner r u a h l (stops {u = v} steps) on off =
      ended-drains k inner r v a h l steps on off
  ended-drains k inner r u a h l (takes {u = v} still e steps) on off =
      elim (take_or_end-cases v u e) [
        | inl (end, empty) ↦ (
          of_kind k a,
          sym (
              accepted-handled k inner r v a h l steps
              ∙ ap (λ t. of_kind k (writes h) ++ t)
                  (in_hand-at k v idle still ∙ nothing_queued_at k empty)
              ∙ append-nil (of_kind k (writes h))),
        )
        | inr all ↦ cc
      ]
    where
      nothing_queued_at : (k : Kind) → all_empty v ≡ true → queued k v ≡ []
      nothing_queued_at k e = nothing_queued k v e
  ended-drains k inner r u a _ _ (attempts ok c cs n on' at steps) on off =
      absurd (after_attempt-ne-ended ok c cs n off)
  ended-drains k inner r u a _ l (skips c cs n off' at steps) on off = cc
  ended-drains k inner r u a h l (returns n at steps) on off = cc
