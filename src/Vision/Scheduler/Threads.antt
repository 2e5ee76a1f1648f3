-- ===== src/Vision/Scheduler/Threads.antt =====
-- How many threads VisionCom/Src/WorkerScheduler.cpp has.
use vision_motion_framework.Prelude.{
  length-set, ℕ, zero, suc, ◌≡◌, refl, ◌⊎◌, inl, inr, Bool, true, false, if◌then◌else◌, some, List,
  [], ◌∷◌, replicate, length, arith,
}
use vision_motion_framework.Vision.Scheduler.{
  Worker, waiting, Scheduler, start, enqueue, request_stop, join_threads, worker_turn, put, made,
  Steps, here, starts, enqueues, stops, joins, turns, finishes, worker_scheduler,
}

length-replicate : {A : Type 0} (n : ℕ) (a : A) → length (replicate n a) ≡ n
length-replicate zero a = refl
length-replicate (suc n) a = omega (arith, length-replicate n a)

module _ {T : Type 0} (n : ℕ) where
  abbrev pub Sized : Scheduler T → Type 0
  Sized s = (s.thread_count ≡ n) × ((length s.threads ≡ 0) ⊎ (length s.threads ≡ n))

  made-length :
      (count : ℕ) (ws : List (Worker T))
      → count ≡ n
      → (length ws ≡ 0) ⊎ (length ws ≡ n)
      → length (made count ws) ≡ n
  made-length count [] e h = omega (arith, length-replicate {A = Worker T} count waiting, e)
  made-length count (w ∷ ws) e (inl none_yet) = absurd (omega (arith, none_yet))
  made-length count (w ∷ ws) e (inr all) = all

  start-Sized : (s : Scheduler T) → Sized s → Sized (start s)
  unfolding start
  start-Sized s i = go s.running
    where
      go :
          (b : Bool)
          → Sized (
              if b then s else record s { running = true; threads = made s.thread_count s.threads })
      go true = i
      go false = (i.0, inr (made-length s.thread_count s.threads i.0 i.1))

  put-Sized : (i : ℕ) (w : Worker T) (s : Scheduler T) → Sized s → Sized (put i w s)
  put-Sized i w s h = ground (arith, length-set s.threads i w)

  turn-Sized : (u v : Scheduler T) (w : Worker T) → worker_turn u ≡ some (w, v) → Sized u → Sized v
  unfolding worker_turn
  turn-Sized u v w e h = ground arith

  -- From its construction on, whatever callers and threads do and in any order, the scheduler has no
  -- threads or exactly the number that it was made for: starting it twice, and starting it again while
  -- it is being stopped, adds none.
  pub worker_scheduler-Sized :
      (u : Scheduler T) (a k : List T) → Steps (worker_scheduler n) a k u → Sized u
  unfolding worker_scheduler enqueue request_stop join_threads
  worker_scheduler-Sized u _ _ here = (refl, inl refl)
  worker_scheduler-Sized u a k (starts {u = v} steps) =
      start-Sized v (worker_scheduler-Sized v a k steps)
  worker_scheduler-Sized u _ k (enqueues {a = a} {u = v} t steps) =
      worker_scheduler-Sized v a k steps
  worker_scheduler-Sized u a k (stops {u = v} steps) = worker_scheduler-Sized v a k steps
  worker_scheduler-Sized u a k (joins {u = v} all steps) =
      ((worker_scheduler-Sized v a k steps).0, inl refl)
  worker_scheduler-Sized u a _ (turns {k = k} {u = v} {v = v'} i w at turn steps) =
      put-Sized i w v' (turn-Sized v v' w turn (worker_scheduler-Sized v a k steps))
  worker_scheduler-Sized u a k (finishes {u = v} i t at steps) =
      put-Sized i waiting v (worker_scheduler-Sized v a k steps)
