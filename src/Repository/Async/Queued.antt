-- ===== src/Repository/Async/Queued.antt =====
-- The writes of one kind in DVH_Library/src/AsyncDataRepository.cpp: between the kinds their order is not
-- kept.
use mathlib.Core.Option.{some-injective}
use vision_motion_framework.Prelude.{
  ℕ, ◌+◌, ◌≡◌, ◌⊎◌, inl, inr, not, ◌&&◌, ◌||◌, refl, sym, ap, ◌∙◌, Bool, true, false, ◌==◌,
  if◌then◌else◌, none, some, List, [], ◌∷◌, ◌++◌, map, append-nil, append_assoc,
}
use mathlib.Core.List.{map-append}
use vision_motion_framework.Repository.Async.{
  PendingZPoint, PendingResult, PendingStatus, Write, save_z_focus_point, save_z_focus_result,
  update_sequence_run_status, Writer, idle, saving, ended, AsyncRepository, Handled, accept,
  begin_stop, is_empty, all_empty, queued_writes, take_queues, take_or_end, after_attempt,
  handled_by, max_retries,
}

pub data Kind : Type 0 where
  points results statuses : Kind

module _ {D : Type 0} where
  abbrev pub is_of : Kind → Write D → Bool
  is_of points (save_z_focus_point p) = true
  is_of results (save_z_focus_result p) = true
  is_of statuses (update_sequence_run_status p) = true
  is_of k c = false

  abbrev pub of_kind : Kind → List (Write D) → List (Write D)
  of_kind k [] = []
  of_kind k (c ∷ cs) = let rest = of_kind k cs in if is_of k c then c ∷ rest else rest

  abbrev pub queued : Kind → AsyncRepository D → List (Write D)
  queued points r = map save_z_focus_point r.point_queue
  queued results r = map save_z_focus_result r.result_queue
  queued statuses r = map update_sequence_run_status r.status_queue

  abbrev pub taken : Writer D → List (Write D)
  taken idle = []
  taken (saving cs n) = cs
  taken ended = []

  -- The writes of a kind that are not done with.
  abbrev pub in_hand : Kind → AsyncRepository D → List (Write D)
  in_hand k r = of_kind k (taken r.writer) ++ queued k r

  abbrev pub writes : List (Handled D) → List (Write D)
  writes h = map (λ (x : Handled D). x.write) h

  pub of_kind-append :
      (k : Kind) (xs ys : List (Write D)) → of_kind k (xs ++ ys) ≡ of_kind k xs ++ of_kind k ys
  of_kind-append k [] ys = refl
  of_kind-append k (c ∷ xs) ys = go (is_of k c) (of_kind-append k xs ys)
    where
      go :
          (b : Bool)
          → of_kind k (xs ++ ys) ≡ of_kind k xs ++ of_kind k ys
          → (if b then c ∷ of_kind k (xs ++ ys) else of_kind k (xs ++ ys))
            ≡ (if b then c ∷ of_kind k xs else of_kind k xs) ++ of_kind k ys
      go true rest = ap (◌∷◌ c) rest
      go false rest = rest

  of_kind-map :
      {A : Type 0} (k : Kind) (f : A → Write D) (b : Bool)
      → ((x : A) → is_of k (f x) ≡ b)
      → (xs : List A) → of_kind k (map f xs) ≡ (if b then map f xs else [])
  of_kind-map k f true all [] = refl
  of_kind-map k f false all [] = refl
  of_kind-map k f true all (x ∷ xs) = rw (all x) (ap (◌∷◌ (f x)) (of_kind-map k f true all xs))
  of_kind-map k f false all (x ∷ xs) = rw (all x) (of_kind-map k f false all xs)

  of_kind-queued_writes :
      (k : Kind) (r : AsyncRepository D) → of_kind k (queued_writes r) ≡ queued k r
  of_kind-queued_writes k r =
      of_kind-append k (queued points r) (queued results r ++ queued statuses r)
      ∙ ap (λ t. of_kind k (queued points r) ++ t)
          (of_kind-append k (queued results r) (queued statuses r))
      ∙ go k
    where
      go :
          (k : Kind)
          → of_kind k (queued points r)
              ++ (of_kind k (queued results r) ++ of_kind k (queued statuses r))
            ≡ queued k r
      go points =
          rw
            (
              of_kind-map points save_z_focus_point true (λ x. refl) r.point_queue,
              of_kind-map points save_z_focus_result false (λ x. refl) r.result_queue,
              of_kind-map points update_sequence_run_status false (λ x. refl) r.status_queue,
            )
            (append-nil _)
      go results =
          rw
            (
              of_kind-map results save_z_focus_point false (λ x. refl) r.point_queue,
              of_kind-map results save_z_focus_result true (λ x. refl) r.result_queue,
              of_kind-map results update_sequence_run_status false (λ x. refl) r.status_queue,
            )
            (append-nil _)
      go statuses =
          rw
            (
              of_kind-map statuses save_z_focus_point false (λ x. refl) r.point_queue,
              of_kind-map statuses save_z_focus_result false (λ x. refl) r.result_queue,
              of_kind-map statuses update_sequence_run_status true (λ x. refl) r.status_queue,
            )
            refl

  pub queued-accept :
      (k : Kind) (c : Write D) (r : AsyncRepository D)
      → queued k (accept c r) ≡ queued k r ++ of_kind k (c ∷ [])
  unfolding accept
  queued-accept points (save_z_focus_point p) r =
      map-append save_z_focus_point r.point_queue (p ∷ [])
  queued-accept points (save_z_focus_result p) r = sym (append-nil (queued points r))
  queued-accept points (update_sequence_run_status p) r = sym (append-nil (queued points r))
  queued-accept results (save_z_focus_point p) r = sym (append-nil (queued results r))
  queued-accept results (save_z_focus_result p) r =
      map-append save_z_focus_result r.result_queue (p ∷ [])
  queued-accept results (update_sequence_run_status p) r = sym (append-nil (queued results r))
  queued-accept statuses (save_z_focus_point p) r = sym (append-nil (queued statuses r))
  queued-accept statuses (save_z_focus_result p) r = sym (append-nil (queued statuses r))
  queued-accept statuses (update_sequence_run_status p) r =
      map-append update_sequence_run_status r.status_queue (p ∷ [])

  pub writer-accept : (c : Write D) (r : AsyncRepository D) → (accept c r).writer ≡ r.writer
  unfolding accept
  writer-accept (save_z_focus_point p) r = refl
  writer-accept (save_z_focus_result p) r = refl
  writer-accept (update_sequence_run_status p) r = refl

  pub in_hand-accept :
      (k : Kind) (c : Write D) (r : AsyncRepository D)
      → in_hand k (accept c r) ≡ in_hand k r ++ of_kind k (c ∷ [])
  in_hand-accept k c r =
      ap (λ w. of_kind k (taken w) ++ queued k (accept c r)) (writer-accept c r)
      ∙ ap (λ q. of_kind k (taken r.writer) ++ q) (queued-accept k c r)
      ∙ sym (append_assoc (of_kind k (taken r.writer)) (queued k r) (of_kind k (c ∷ [])))

  -- The thread under the lock either ends, with nothing queued, or takes everything.
  pub take_or_end-cases :
      (u v : AsyncRepository D)
      → take_or_end u ≡ some v
      → ((v ≡ record u { writer = ended }) × (all_empty u ≡ true)) ⊎ (v ≡ take_queues u)
  unfolding take_or_end
  take_or_end-cases u v e = go u.stop_requested (all_empty u) refl e
    where
      go :
          (stop empty : Bool)
          → all_empty u ≡ empty
          → (if not (stop || not empty)
              then none
              else if stop && empty
              then some (record u { writer = ended })
              else some (take_queues u))
            ≡ some v
          → ((v ≡ record u { writer = ended }) × (all_empty u ≡ true)) ⊎ (v ≡ take_queues u)
      go true true at e = inl (sym (some-injective _ _ e), at)
      go true false at e = inr (sym (some-injective _ _ e))
      go false true at e = cc
      go false false at e = inr (sym (some-injective _ _ e))

  pub nothing_queued : (k : Kind) (u : AsyncRepository D) → all_empty u ≡ true → queued k u ≡ []
  nothing_queued k u e = go k u.point_queue u.result_queue u.status_queue e
    where
      go :
          (k : Kind) (p : List (PendingZPoint D)) (q : List (PendingResult D))
          (s : List PendingStatus)
          → is_empty p && (is_empty q && is_empty s) ≡ true
          → queued k (record u { point_queue = p; result_queue = q; status_queue = s }) ≡ []
      go points [] q s e = refl
      go points (x ∷ p) q s e = cc
      go results [] [] s e = refl
      go results [] (x ∷ q) s e = cc
      go results (x ∷ p) q s e = cc
      go statuses [] [] [] e = refl
      go statuses [] [] (x ∷ s) e = cc
      go statuses [] (x ∷ q) s e = cc
      go statuses (x ∷ p) q s e = cc

  pub queued-writer :
      (k : Kind) (u : AsyncRepository D) (w : Writer D)
      → queued k (record u { writer = w }) ≡ queued k u
  queued-writer points u w = refl
  queued-writer results u w = refl
  queued-writer statuses u w = refl

  pub queued-stop : (k : Kind) (u : AsyncRepository D) → queued k (begin_stop u) ≡ queued k u
  queued-stop points u = refl
  queued-stop results u = refl
  queued-stop statuses u = refl

  pub in_hand-writer :
      (k : Kind) (u : AsyncRepository D) (w : Writer D)
      → in_hand k (record u { writer = w }) ≡ of_kind k (taken w) ++ queued k u
  in_hand-writer k u w = ap (λ q. of_kind k (taken w) ++ q) (queued-writer k u w)

  pub in_hand-at :
      (k : Kind) (u : AsyncRepository D) (w : Writer D)
      → u.writer ≡ w
      → in_hand k u ≡ of_kind k (taken w) ++ queued k u
  in_hand-at k u w at = ap (λ v. of_kind k (taken v) ++ queued k u) at

  pub in_hand-take :
      (k : Kind) (u v : AsyncRepository D)
      → u.writer ≡ idle
      → take_or_end u ≡ some v
      → in_hand k v ≡ in_hand k u
  in_hand-take k u v still e = elim (take_or_end-cases u v e) [
    | inl (end, empty) ↦
        ap (in_hand k) end ∙ in_hand-writer k u ended ∙ sym (in_hand-at k u idle still)
    | inr all ↦ ap (in_hand k) all ∙ go k ∙ sym (in_hand-at k u idle still)
  ]
    where
      go : (k : Kind) → in_hand k (take_queues u) ≡ queued k u
      go points = append-nil _ ∙ of_kind-queued_writes points u
      go results = append-nil _ ∙ of_kind-queued_writes results u
      go statuses = append-nil _ ∙ of_kind-queued_writes statuses u

  -- An attempt leaves what it did not finish.
  pub taken-attempt :
      (k : Kind) (ok : Bool) (c : Write D) (cs : List (Write D)) (n : ℕ)
      → of_kind k (c ∷ cs)
        ≡ of_kind k (writes (handled_by ok c n)) ++ of_kind k (taken (after_attempt ok c cs n))
  unfolding handled_by after_attempt
  taken-attempt k true c cs n = of_kind-append k (c ∷ []) cs
  taken-attempt k false c cs n = go (n + 1 == max_retries)
    where
      go :
          (b : Bool)
          → of_kind k (c ∷ cs)
            ≡ of_kind k (
                writes
                  (if b then record { write = c; failures = n + 1; saved = false } ∷ [] else []))
              ++ of_kind k (taken (if b then saving cs 0 else saving (c ∷ cs) (n + 1)))
      go true = of_kind-append k (c ∷ []) cs
      go false = refl
