-- ===== src/Vision/Scheduler/Shutdown.antt =====
-- What VisionCom/Src/WorkerScheduler.cpp does with the tasks that it accepts.
use vision_motion_framework.Prelude.{
  ℕ, zero, suc, ◌≤◌, ◌≡◌, refl, sym, ap, ◌∙◌, ◌≢◌, Bool, true, false, if◌then◌else◌, some, List, [],
  ◌∷◌, ◌++◌, append-nil, append_assoc, set, subst, ap₂, length, length-append, arith,
}
use vision_motion_framework.Vision.Scheduler.{
  Worker, waiting, busy, gone, Scheduler, start, enqueue, request_stop, all_gone, join_threads,
  worker_turn, put, taken_by, made, Steps, here, starts, enqueues, stops, joins, turns, finishes,
}

module _ {T : Type 0} where
  start-queue : (s : Scheduler T) → (start s).queue ≡ s.queue
  unfolding start
  start-queue s = ground arith

  turn-queue :
      (u v : Scheduler T) (w : Worker T)
      → worker_turn u ≡ some (w, v)
      → u.queue ≡ taken_by w ++ v.queue
  unfolding worker_turn
  turn-queue u v w e = ground arith

  -- The tasks are taken in the order in which they were accepted, each of them once: what was queued at
  -- first and what was accepted since is what was taken since and what is still queued.
  pub accepted-taken :
      (s u : Scheduler T) (a k : List T) → Steps s a k u → s.queue ++ a ≡ k ++ u.queue
  unfolding enqueue request_stop join_threads
  accepted-taken s u _ _ here = append-nil s.queue
  accepted-taken s u a k (starts {u = v} steps) =
      accepted-taken s v a k steps ∙ ap (λ q. k ++ q) (sym (start-queue v))
  accepted-taken s u _ k (enqueues {a = a} {u = v} t steps) =
      sym (append_assoc s.queue a (t ∷ []))
      ∙ ap (λ q. q ++ (t ∷ [])) (accepted-taken s v a k steps)
      ∙ append_assoc k v.queue (t ∷ [])
  accepted-taken s u a k (stops {u = v} steps) = accepted-taken s v a k steps
  accepted-taken s u a k (joins {u = v} all steps) = accepted-taken s v a k steps
  accepted-taken s u a _ (turns {k = k} {u = v} {v = v'} i w at turn steps) =
      accepted-taken s v a k steps
      ∙ ap (λ q. k ++ q) (turn-queue v v' w turn)
      ∙ sym (append_assoc k (taken_by w) v'.queue)
  accepted-taken s u a k (finishes {u = v} i t at steps) = accepted-taken s v a k steps

  abbrev pub has_gone : List (Worker T) → Bool
  has_gone [] = false
  has_gone (gone ∷ ws) = true
  has_gone (waiting ∷ ws) = has_gone ws
  has_gone (busy t ∷ ws) = has_gone ws

  has_gone-set :
      (ws : List (Worker T)) (i : ℕ) (w : Worker T)
      → w ≢ gone
      → has_gone (set ws i w) ≡ true
      → has_gone ws ≡ true
  has_gone-set [] i w n h = h
  has_gone-set (gone ∷ ws) i w n h = refl
  has_gone-set (waiting ∷ ws) zero gone n h = absurd (n refl)
  has_gone-set (waiting ∷ ws) zero waiting n h = h
  has_gone-set (waiting ∷ ws) zero (busy t) n h = h
  has_gone-set (busy x ∷ ws) zero gone n h = absurd (n refl)
  has_gone-set (busy x ∷ ws) zero waiting n h = h
  has_gone-set (busy x ∷ ws) zero (busy t) n h = h
  has_gone-set (waiting ∷ ws) (suc i) w n h = has_gone-set ws i w n h
  has_gone-set (busy t ∷ ws) (suc i) w n h = has_gone-set ws i w n h

  made-has_gone : (n : ℕ) (ws : List (Worker T)) → has_gone (made n ws) ≡ true → has_gone ws ≡ true
  made-has_gone zero [] h = h
  made-has_gone (suc n) [] h = made-has_gone n [] h
  made-has_gone n (w ∷ ws) h = h

  start-has_gone : (s : Scheduler T) → has_gone (start s).threads ≡ true → has_gone s.threads ≡ true
  unfolding start
  start-has_gone s h = go s.running h
    where
      go :
          (b : Bool)
          → has_gone
              (if b
                then s
                else record s { running = true; threads = made s.thread_count s.threads }).threads
            ≡ true
          → has_gone s.threads ≡ true
      go true h = h
      go false h = made-has_gone s.thread_count s.threads h

  turn-threads :
      (u v : Scheduler T) (w : Worker T) → worker_turn u ≡ some (w, v) → v.threads ≡ u.threads
  unfolding worker_turn
  turn-threads u v w e = ground arith

  -- A thread leaves its loop only when nothing is queued.
  turn-gone : (u v : Scheduler T) → worker_turn u ≡ some (gone, v) → u.queue ≡ []
  unfolding worker_turn
  turn-gone u v e = ground arith

  has_gone-turn :
      (u v : Scheduler T) (w : Worker T) (i : ℕ)
      → worker_turn u ≡ some (w, v)
      → w ≢ gone
      → has_gone (put i w v).threads ≡ true
      → has_gone u.threads ≡ true
  has_gone-turn u v w i turn n h =
      subst (λ ws. has_gone ws ≡ true) (turn-threads u v w turn) (has_gone-set v.threads i w n h)

  left-taken :
      (s u : Scheduler T) (a k : List T)
      → has_gone s.threads ≡ false
      → Steps s a k u
      → has_gone u.threads ≡ true
      → length s.queue ≤ length k
  unfolding enqueue request_stop join_threads
  left-taken s u _ _ none_gone here h = absurd (ground arith)
  left-taken s u a k none_gone (starts {u = v} steps) h =
      left-taken s v a k none_gone steps (start-has_gone v h)
  left-taken s u _ k none_gone (enqueues {a = a} {u = v} t steps) h =
      left-taken s v a k none_gone steps h
  left-taken s u a k none_gone (stops {u = v} steps) h = left-taken s v a k none_gone steps h
  left-taken s u a k none_gone (joins {u = v} all steps) h = absurd (ground arith)
  left-taken s u a _ none_gone (turns {k = k} {u = v} {v = v'} i (busy t) at turn steps) h = omega (
    arith,
    left-taken s v a k none_gone steps (has_gone-turn v v' (busy t) i turn (λ e. cc) h),
    length-append k (t ∷ []),
  )
  left-taken s u a _ none_gone (turns {k = k} {u = v} {v = v'} i waiting at turn steps) h = omega (
    arith,
    left-taken s v a k none_gone steps (has_gone-turn v v' waiting i turn (λ e. cc) h),
    length-append k [],
  )
  left-taken s u a _ none_gone (turns {k = k} {u = v} {v = v'} i gone at turn steps) h = omega (
    arith,
    ap length (accepted-taken s v a k steps),
    ap length (turn-gone v v' turn),
    length-append s.queue a,
    length-append k v.queue,
    length-append k [],
  )
  left-taken s u a k none_gone (finishes {u = v} i t at steps) h =
      left-taken s v a k none_gone steps (has_gone-set v.threads i waiting (λ e. cc) h)

  all_gone-has_gone : (ws : List (Worker T)) → all_gone ws ≡ true → ws ≢ [] → has_gone ws ≡ true
  all_gone-has_gone [] all some_thread = absurd (some_thread refl)
  all_gone-has_gone (gone ∷ ws) all some_thread = refl
  all_gone-has_gone (waiting ∷ ws) all some_thread = cc
  all_gone-has_gone (busy t ∷ ws) all some_thread = cc

  prefix_of_append :
      (xs ys k zs : List T)
      → xs ++ ys ≡ k ++ zs
      → length xs ≤ length k
      → (rest : List T) × (k ≡ xs ++ rest)
  prefix_of_append [] ys k zs e h = (k, refl)
  prefix_of_append (x ∷ xs) ys [] zs e h = absurd (omega arith)
  prefix_of_append (x ∷ xs) ys (y ∷ k) zs e h =
      let head : y ≡ x = cc in
      let tail : xs ++ ys ≡ k ++ zs = cc in
      let (rest, f) = prefix_of_append xs ys k zs tail (omega arith) in
      (rest, ap₂ (λ z zs. z ∷ zs) head f)

  -- Stopping drains the queue: if no thread had left its loop when the stop was requested, and all threads,
  -- of which there are some, have left it later, then every task that was queued at the request has been
  -- taken since, in order and before any other.
  pub request_stop-drains :
      (s u : Scheduler T) (a k : List T)
      → has_gone s.threads ≡ false
      → Steps (request_stop s) a k u
      → all_gone u.threads ≡ true
      → u.threads ≢ []
      → (rest : List T) × (k ≡ s.queue ++ rest)
  unfolding request_stop
  request_stop-drains s u a k none_gone steps all some_thread =
      prefix_of_append s.queue a k u.queue (accepted-taken (request_stop s) u a k steps) (
        left-taken (request_stop s) u a k none_gone steps
          (all_gone-has_gone u.threads all some_thread))
