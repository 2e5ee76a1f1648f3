-- ===== src/Vat/Runner.antt =====
-- DVH_Library/src/AsyncSequenceRunner.cpp: one thread that runs one sequence. What is done under the lock,
-- each report and each store of the flag is one step; the steps of the thread, of the one thread that calls
-- Start and WaitForCompletion, and of any callers of Stop, SetResultSink and of SetStopRequested of a context
-- come in any order. Two threads in Start could both wait in `join` for the same thread, which is undefined
-- behaviour of std::thread. `none` for a step of the thread is the end of the process by std::terminate.
-- A sequence `Q` and a context `C` are values of any type.
pub mod Paired
pub mod Reports
pub mod Stopping
use Prim.Native.String.{String}
use vision_motion_framework.Prelude.{
  ◌≡◌, Bool, true, false, if◌then◌else◌, ◌&&◌, Option, none, some, List, [], ◌∷◌, ℤ, pos, negsuc,
}

-- `aborted_exception` carries the exception's text.
pub data Status : Type 0 where
  started completed aborted_unknown : Status
  aborted_exception : String → Status

unfoldable pub request_id : Status → ℤ
request_id started = pos 0
request_id completed = pos 1
request_id (aborted_exception text) = negsuc 0
request_id aborted_unknown = negsuc 0

-- How `Execute` ends; its Boolean result is not looked at.
pub data Ended : Type 0 where
  returned : Bool → Ended
  threw : String → Ended
  threw_unknown : Ended

unfoldable pub status_of : Ended → Status
status_of (returned result) = completed
status_of (threw text) = aborted_exception text
status_of threw_unknown = aborted_unknown

-- What `NotifyVisionResult` does: it returns, or throws any exception.
pub data Answer : Type 0 where
  takes refuses_unknown : Answer
  refuses : String → Answer

-- What a handler of the exception reports.
abbrev pub raised_by : Answer → Option Status
raised_by takes = none
raised_by (refuses text) = some (aborted_exception text)
raised_by refuses_unknown = some aborted_unknown

-- Where the thread stands: there is none, Start is about to make it, it has not reported yet, it runs the
-- sequence, it has caught an exception of the sink and is about to report it, it has reported the end, it
-- has cleared the flag and can be joined.
pub data Thread : Type 0 where
  absent launching created executing reported finished : Thread
  catching : Status → Thread

-- `delivered` says whether there was a sink, `refused` whether it threw.
pub record Report (Q : Type 0) : Type 0 where
  pub sequence : Q
  pub status : Status
  pub delivered : Bool
  pub refused : Bool

pub record Runner (Q C : Type 0) : Type 0 where
  pub thread : Thread
  pub running : Bool
  pub current_seq : Option Q
  pub current_ctx : Option C
  pub result_sink : Bool
  -- What a caller in Start has brought, who has let go of the lock to join the thread.
  pub joining : Option (Q × Option C)
  -- The latest first.
  pub reports : List (Report Q)
  -- The calls of `SetStopRequested` of the contexts, the latest first.
  pub flag_calls : List (C × Bool)

-- A join returns at once.
abbrev pub is_over : Thread → Bool
is_over absent = true
is_over finished = true
is_over _ = false

-- The sequence is executed only on a context.
abbrev pub end_of : {C : Type 0} → Option C → Ended → Ended
end_of none ended = returned true
end_of (some c) ended = ended

abbrev pub stop_context : {C : Type 0} → Option C → List (C × Bool) → List (C × Bool)
stop_context none cs = cs
stop_context (some c) cs = (c, true) ∷ cs

abbrev pub is_some : {A : Type 0} → Option A → Bool
is_some none = false
is_some (some a) = true

abbrev pub is_completed : Status → Bool
is_completed completed = true
is_completed _ = false

module _ {Q C : Type 0} where
  unfoldable pub async_sequence_runner : Runner Q C
  async_sequence_runner = record {
    thread = absent;
    running = false;
    current_seq = none;
    current_ctx = none;
    result_sink = false;
    joining = none;
    reports = [];
    flag_calls = [];
  }

  unfoldable pub set_result_sink : Bool → Runner Q C → Runner Q C
  set_result_sink sink r = record r { result_sink = sink }

  -- The exception that a report meets; without a sequence nothing is reported.
  abbrev pub raised : Answer → Runner Q C → Option Status
  raised answer r = if is_some r.current_seq && r.result_sink then raised_by answer else none

  unfoldable pub send_result : Status → Answer → Runner Q C → Runner Q C
  send_result status answer r = elim r.current_seq [
    | none ↦ r
    | some q ↦ record r {
      reports =
          record {
            sequence = q;
            status = status;
            delivered = r.result_sink;
            refused = is_some (raised answer r);
          }
          ∷ r.reports;
    }
  ]

  -- The end of the block of Start under the lock; the flag is not tested again behind the join.
  unfoldable pub claim : Q → Option C → Runner Q C → Runner Q C
  claim q ctx r = record r {
    thread = launching;
    running = true;
    current_seq = some q;
    current_ctx = ctx;
    joining = none;
  }

  -- Start up to the join, or to the end of the block if there is no thread to join; `none` is the answer
  -- false.
  unfoldable pub enter : Option Q → Option C → Runner Q C → Option (Runner Q C)
  unfolding claim
  enter none ctx r = none
  enter (some q) ctx r =
      if r.running
      then none
      else some
          (elim r.thread [ absent ↦ claim q ctx r | _ ↦ record r { joining = some (q, ctx) } ])

  -- The rest of Start: the thread is made, or its constructor throws and Start answers false.
  unfoldable pub launch : Bool → Runner Q C → Runner Q C
  launch true r = record r { thread = created }
  launch false r = record r {
    thread = absent;
    running = false;
    current_seq = none;
    current_ctx = none;
  }

  -- The thread's first report, which no handler guards.
  unfoldable pub begin : Answer → Runner Q C → Option (Runner Q C)
  unfolding send_result
  begin answer r = elim (raised answer r) [
    | none ↦ let s = send_result started answer r in some (record s { thread = executing })
    | some status ↦ none
  ]

  -- Behind a report of the end. An exception is caught only in the `try`, where "completed" is reported.
  abbrev pub after_report : Bool → Option Status → Runner Q C → Option (Runner Q C)
  after_report guarded none r = some (record r { thread = reported })
  after_report true (some status) r = some (record r { thread = catching status })
  after_report false (some status) r = none

  unfoldable pub finish : Ended → Answer → Runner Q C → Option (Runner Q C)
  unfolding send_result status_of
  finish ended answer r =
      let status = status_of (end_of r.current_ctx ended) in
      after_report (is_completed status) (raised answer r) (send_result status answer r)

  -- The handler of what the sink threw at "completed".
  unfoldable pub report_failure : Status → Answer → Runner Q C → Option (Runner Q C)
  unfolding send_result
  report_failure status answer r =
      after_report false (raised answer r) (send_result status answer r)

  unfoldable pub clear_flag : Runner Q C → Runner Q C
  clear_flag r = record r { thread = finished; running = false }

  -- WaitForCompletion behind its loop, when the thread, if there is one, has been joined.
  unfoldable pub complete : Runner Q C → Runner Q C
  complete r = record r { thread = absent; running = false; current_seq = none; current_ctx = none }

  unfoldable pub stop : Runner Q C → Runner Q C
  stop r =
      if r.running then record r { flag_calls = stop_context r.current_ctx r.flag_calls } else r

  -- `SetStopRequested` of a context, by anyone who holds it.
  unfoldable pub set_flag : C → Bool → Runner Q C → Runner Q C
  set_flag c up r = record r { flag_calls = (c, up) ∷ r.flag_calls }

  pub data Steps (r : Runner Q C) : Runner Q C → Type 0 where
    here : Steps r r
    enters :
        {u v : Runner Q C} (seq : Option Q) (ctx : Option C)
        → u.joining ≡ none
        → enter seq ctx u ≡ some v
        → Steps r u
        → Steps r v
    joins :
        {u : Runner Q C} (q : Q) (ctx : Option C)
        → u.joining ≡ some (q, ctx)
        → is_over u.thread ≡ true
        → Steps r u
        → Steps r (claim q ctx u)
    launches :
        {u : Runner Q C} (made : Bool) → u.thread ≡ launching → Steps r u → Steps r (launch made u)
    begins :
        {u v : Runner Q C} (answer : Answer)
        → u.thread ≡ created
        → begin answer u ≡ some v
        → Steps r u
        → Steps r v
    finishes :
        {u v : Runner Q C} (ended : Ended) (answer : Answer)
        → u.thread ≡ executing
        → finish ended answer u ≡ some v
        → Steps r u
        → Steps r v
    catches :
        {u v : Runner Q C} (status : Status) (answer : Answer)
        → u.thread ≡ catching status
        → report_failure status answer u ≡ some v
        → Steps r u
        → Steps r v
    clears : {u : Runner Q C} → u.thread ≡ reported → Steps r u → Steps r (clear_flag u)
    completes :
        {u : Runner Q C}
        → u.joining ≡ none
        → is_over u.thread ≡ true
        → Steps r u
        → Steps r (complete u)
    stops : {u : Runner Q C} → Steps r u → Steps r (stop u)
    sets_sink : {u : Runner Q C} (sink : Bool) → Steps r u → Steps r (set_result_sink sink u)
    sets_flag : {u : Runner Q C} (c : C) (up : Bool) → Steps r u → Steps r (set_flag c up u)
