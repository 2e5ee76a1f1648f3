-- ===== src/Vision/Scheduler.antt =====
-- VisionCom/Src/WorkerScheduler.cpp: a queue of tasks and the threads that take them. What is done
-- under the lock is one step, and the steps of the threads and of the callers come in any order.
-- An empty `std::function` is a task too, of which the thread makes no call.
pub mod Shutdown
pub mod Threads
use vision_motion_framework.Prelude.{
  ℕ, ◌≡◌, Bool, true, false, ◌&&◌, ◌||◌, if◌then◌else◌, Option, none, some, List, [], ◌∷◌, ◌++◌,
  get_elem?, set, replicate, ℤ,
}

-- Where a thread stands in `RunWorker`: before or in its wait, at a task that it has taken, or behind
-- the loop.
pub data Worker (T : Type 0) : Type 0 where
  waiting : Worker T
  busy : T → Worker T
  gone : Worker T

pub record Scheduler (T : Type 0) : Type 0 where
  pub threads : List (Worker T)
  pub queue : List T
  pub running : Bool
  pub thread_count : ℕ

module _ {T : Type 0} where
  unfoldable pub worker_scheduler : ℕ → Scheduler T
  worker_scheduler count = record {
    threads = [];
    queue = [];
    running = false;
    thread_count = count;
  }

  -- The threads are made only if there are none.
  abbrev pub made : ℕ → List (Worker T) → List (Worker T)
  made count [] = replicate count waiting
  made count (w ∷ ws) = w ∷ ws

  unfoldable pub start : Scheduler T → Scheduler T
  start s =
      if s.running then s else record s { running = true; threads = made s.thread_count s.threads }

  unfoldable pub enqueue : T → Scheduler T → Scheduler T
  enqueue t s = record s { queue = s.queue ++ (t ∷ []) }

  -- The delay is not looked at.
  unfoldable pub schedule : T → ℤ → Scheduler T → Scheduler T
  unfolding enqueue
  schedule t delay_ms s = enqueue t s

  -- The first part of `Stop`, under the lock.
  unfoldable pub request_stop : Scheduler T → Scheduler T
  request_stop s = record s { running = false }

  abbrev pub all_gone : List (Worker T) → Bool
  all_gone [] = true
  all_gone (gone ∷ ws) = all_gone ws
  all_gone (waiting ∷ ws) = false
  all_gone (busy t ∷ ws) = false

  -- The rest of `Stop`, which waits until every thread has left its loop.
  unfoldable pub join_threads : Scheduler T → Scheduler T
  join_threads s = record s { threads = [] }

  -- A waiting thread that gets the lock: `none` if it has to wait on, or what becomes of it.
  unfoldable pub worker_turn : Scheduler T → Option (Worker T × Scheduler T)
  worker_turn s = elim s.queue [
    | [] ↦ if s.running then none else some (gone, s)
    | t ∷ queue ↦ some (busy t, record s { queue = queue })
  ]

  abbrev pub put : ℕ → Worker T → Scheduler T → Scheduler T
  put i w s = record s { threads = set s.threads i w }

  abbrev pub taken_by : Worker T → List T
  taken_by waiting = []
  taken_by (busy t) = t ∷ []
  taken_by gone = []

  -- From the first state, the tasks of the first list were accepted and those of the second one
  -- taken, in this order, and the scheduler is now in the last state.
  pub data Steps (s : Scheduler T) : List T → List T → Scheduler T → Type 0 where
    here : Steps s [] [] s
    starts : {a k : List T} {u : Scheduler T} → Steps s a k u → Steps s a k (start u)
    enqueues :
        {a k : List T} {u : Scheduler T} (t : T)
        → Steps s a k u
        → Steps s (a ++ (t ∷ [])) k (enqueue t u)
    stops : {a k : List T} {u : Scheduler T} → Steps s a k u → Steps s a k (request_stop u)
    joins :
        {a k : List T} {u : Scheduler T}
        → all_gone u.threads ≡ true
        → Steps s a k u
        → Steps s a k (join_threads u)
    turns :
        {a k : List T} {u v : Scheduler T} (i : ℕ) (w : Worker T)
        → get_elem? u.threads i ≡ some waiting
        → worker_turn u ≡ some (w, v)
        → Steps s a k u
        → Steps s a (k ++ taken_by w) (put i w v)
    finishes :
        {a k : List T} {u : Scheduler T} (i : ℕ) (t : T)
        → get_elem? u.threads i ≡ some (busy t)
        → Steps s a k u
        → Steps s a k (put i waiting u)
