-- ===== src/Repository/Async.antt =====
-- DVH_Library/src/AsyncDataRepository.cpp: three kinds of writes are queued, and a thread hands them to an
-- inner repository, up to three times each. Each operation under the lock is one step, and so is each
-- call of the inner repository, which answers as it will.
pub mod Queued
pub mod Order
pub mod Attempts
use Prim.Native.String.{String}
use vision_motion_framework.Prelude.{
  ℕ, ◌+◌, ◌≡◌, Bool, true, false, ◌||◌, ◌&&◌, not, ◌==◌, if◌then◌else◌, Option, none, some, List,
  [], ◌∷◌, ◌++◌, map, ℤ,
}

pub record PendingZPoint (D : Type 0) : Type 0 where
  pub run_id : ℤ
  pub z_position : D
  pub score : D
  pub sample_count : ℤ
  pub extra_json : String

pub record PendingResult (D : Type 0) : Type 0 where
  pub cam_index : ℤ
  pub location_id : ℤ
  pub pkg_id : ℤ
  pub new_focus : D

pub record PendingStatus : Type 0 where
  pub run_id : ℤ
  pub status : String
  pub result_summary_json : String

-- A call of one of the three methods that are queued.
pub data Write (D : Type 0) : Type 0 where
  save_z_focus_point : PendingZPoint D → Write D
  save_z_focus_result : PendingResult D → Write D
  update_sequence_run_status : PendingStatus → Write D

-- The thread waits, or works through what it took, with the number of failed attempts at the first of
-- it, or has left its loop.
pub data Writer (D : Type 0) : Type 0 where
  idle : Writer D
  saving : List (Write D) → ℕ → Writer D
  ended : Writer D

pub record AsyncRepository (D : Type 0) : Type 0 where
  pub point_queue : List (PendingZPoint D)
  pub result_queue : List (PendingResult D)
  pub status_queue : List PendingStatus
  pub stop_requested : Bool
  pub writer : Writer D

-- A write that is done with: how many attempts failed, and whether one succeeded.
pub record Handled (D : Type 0) : Type 0 where
  pub write : Write D
  pub failures : ℕ
  pub saved : Bool

abbrev pub max_retries : ℕ
max_retries = 3

abbrev pub is_empty : {A : Type 0} → List A → Bool
is_empty [] = true
is_empty (x ∷ xs) = false

module _ {D : Type 0} where
  unfoldable pub async_repository : AsyncRepository D
  async_repository = record {
    point_queue = [];
    result_queue = [];
    status_queue = [];
    stop_requested = false;
    writer = idle;
  }

  -- The three methods; each answers StorageSuccess.
  unfoldable pub accept : Write D → AsyncRepository D → AsyncRepository D
  accept (save_z_focus_point p) r = record r { point_queue = r.point_queue ++ (p ∷ []) }
  accept (save_z_focus_result p) r = record r { result_queue = r.result_queue ++ (p ∷ []) }
  accept (update_sequence_run_status p) r = record r { status_queue = r.status_queue ++ (p ∷ []) }

  -- The destructor before it joins the thread.
  abbrev pub begin_stop : AsyncRepository D → AsyncRepository D
  begin_stop r = record r { stop_requested = true }

  abbrev pub all_empty : AsyncRepository D → Bool
  all_empty r = is_empty r.point_queue && (is_empty r.result_queue && is_empty r.status_queue)

  -- What the thread takes: it saves all points first, then all results, then all statuses.
  abbrev pub queued_writes : AsyncRepository D → List (Write D)
  queued_writes r =
      map save_z_focus_point r.point_queue
      ++ (map save_z_focus_result r.result_queue ++ map update_sequence_run_status r.status_queue)

  abbrev pub take_queues : AsyncRepository D → AsyncRepository D
  take_queues r = record r {
    point_queue = [];
    result_queue = [];
    status_queue = [];
    writer = saving (queued_writes r) 0;
  }

  -- The part of the loop under the lock; `none` while the thread goes on waiting.
  unfoldable pub take_or_end : AsyncRepository D → Option (AsyncRepository D)
  take_or_end r =
      if not (r.stop_requested || not (all_empty r))
      then none
      else if r.stop_requested && all_empty r
      then some (record r { writer = ended })
      else some (take_queues r)

  -- Behind an attempt that answered `ok`, with this many failures before it.
  unfoldable pub after_attempt : Bool → Write D → List (Write D) → ℕ → Writer D
  after_attempt ok c cs n =
      if ok
      then saving cs 0
      else if n + 1 == max_retries
      then saving cs 0
      else saving (c ∷ cs) (n + 1)

  -- What the attempt finished.
  unfoldable pub handled_by : Bool → Write D → ℕ → List (Handled D)
  handled_by ok c n =
      if ok
      then record { write = c; failures = n; saved = true } ∷ []
      else if n + 1 == max_retries
      then record { write = c; failures = n + 1; saved = false } ∷ []
      else []

  -- From the first state, the writes of the first list were accepted, those of the second one handled,
  -- and the attempts of the third one made, in this order, and the repository is now in the last state.
  -- `inner` says that there is an inner repository.
  pub data Reaches (inner : Bool) (r : AsyncRepository D)
      : List (Write D) → List (Handled D) → List (Write D × Bool) → AsyncRepository D → Type 0 where
    here : Reaches inner r [] [] [] r
    accepts :
        {a : List (Write D)} {h : List (Handled D)} {l : List (Write D × Bool)}
        {u : AsyncRepository D} (c : Write D)
        → Reaches inner r a h l u
        → Reaches inner r (a ++ (c ∷ [])) h l (accept c u)
    stops :
        {a : List (Write D)} {h : List (Handled D)} {l : List (Write D × Bool)}
        {u : AsyncRepository D}
        → Reaches inner r a h l u
        → Reaches inner r a h l (begin_stop u)
    takes :
        {a : List (Write D)} {h : List (Handled D)} {l : List (Write D × Bool)}
        {u v : AsyncRepository D}
        → u.writer ≡ idle
        → take_or_end u ≡ some v
        → Reaches inner r a h l u
        → Reaches inner r a h l v
    attempts :
        {a : List (Write D)} {h : List (Handled D)} {l : List (Write D × Bool)}
        {u : AsyncRepository D} (ok : Bool) (c : Write D) (cs : List (Write D)) (n : ℕ)
        → inner ≡ true
        → u.writer ≡ saving (c ∷ cs) n
        → Reaches inner r a h l u
        → Reaches inner r a
            (h ++ handled_by ok c n)
            (l ++ ((c, ok) ∷ []))
            (record u { writer = after_attempt ok c cs n })
    skips :
        {a : List (Write D)} {h : List (Handled D)} {l : List (Write D × Bool)}
        {u : AsyncRepository D} (c : Write D) (cs : List (Write D)) (n : ℕ)
        → inner ≡ false
        → u.writer ≡ saving (c ∷ cs) n
        → Reaches inner r a h l u
        → Reaches inner r a
            (h ++ (record { write = c; failures = 0; saved = false } ∷ []))
            l
            (record u { writer = saving cs 0 })
    returns :
        {a : List (Write D)} {h : List (Handled D)} {l : List (Write D × Bool)}
        {u : AsyncRepository D} (n : ℕ)
        → u.writer ≡ saving [] n
        → Reaches inner r a h l u
        → Reaches inner r a h l (record u { writer = idle })
