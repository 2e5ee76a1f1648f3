-- ===== src/Vat/Runner/Stopping.antt =====
-- What a stop request does to the runs of AsyncSequenceRunner.cpp and to a sequence of VatSequence.cpp.
use vision_motion_framework.Prelude.{
  ℕ, suc, ◌≡◌, ◌≢◌, ◌⊎◌, inr, Bool, true, false, not, Option, some, List, [], ◌∷◌, arith,
}
use vision_motion_framework.Vat.Sequence.{Task, Host, execute, loop}
use vision_motion_framework.Vat.Runner.{
  Runner, async_sequence_runner, set_result_sink, send_result, enter, claim, launch, begin, finish,
  report_failure, clear_flag, complete, stop, set_flag, is_over, Steps, here, enters, joins,
  launches, begins, finishes, catches, clears, completes, stops, sets_sink, sets_flag, Ended,
  Answer, Status,
}
use vision_motion_framework.Vat.Runner.Reports.{runner-Consistent}

-- The stop flag of the context is up: the latest call for this context has set it.
abbrev pub IsUp : {C : Type 0} → C → List (C × Bool) → Type 0
IsUp c [] = ⊥
IsUp c ((d, true) ∷ ds) = (d ≡ c) ⊎ IsUp c ds
IsUp c ((d, false) ∷ ds) = (d ≢ c) × IsUp c ds

module _ {Q C : Type 0} where
  -- No one else puts the flag of the context down in these steps.
  abbrev pub IsLeft : (c : C) {u v : Runner Q C} → Steps u v → Type 0
  IsLeft c here = Unit {0}
  IsLeft c (enters seq ctx alone e steps) = IsLeft c steps
  IsLeft c (joins q ctx at e steps) = IsLeft c steps
  IsLeft c (launches made e steps) = IsLeft c steps
  IsLeft c (begins answer at e steps) = IsLeft c steps
  IsLeft c (finishes ended answer at e steps) = IsLeft c steps
  IsLeft c (catches status answer at e steps) = IsLeft c steps
  IsLeft c (clears e steps) = IsLeft c steps
  IsLeft c (completes alone e steps) = IsLeft c steps
  IsLeft c (stops steps) = IsLeft c steps
  IsLeft c (sets_sink sink steps) = IsLeft c steps
  IsLeft c (sets_flag d true steps) = IsLeft c steps
  IsLeft c (sets_flag d false steps) = (d ≢ c) × IsLeft c steps

module _ {Q C : Type 0} (c : C) where
  -- What a step of the runner itself does not touch.
  abbrev Same : Runner Q C → Runner Q C → Type 0
  Same u v = v.flag_calls ≡ u.flag_calls

  claim-Same : (q : Q) (ctx : Option C) (u : Runner Q C) → Same u (claim q ctx u)
  unfolding claim
  claim-Same q ctx u = ground arith

  enter-Same :
      (seq : Option Q) (ctx : Option C) (u v : Runner Q C) → enter seq ctx u ≡ some v → Same u v
  unfolding enter claim
  enter-Same seq ctx u v e = ground arith

  launch-Same : (made : Bool) (u : Runner Q C) → Same u (launch made u)
  unfolding launch
  launch-Same made u = ground arith

  begin-Same : (answer : Answer) (u v : Runner Q C) → begin answer u ≡ some v → Same u v
  unfolding begin send_result
  begin-Same answer u v e = ground arith

  finish-Same :
      (ended : Ended) (answer : Answer) (u v : Runner Q C)
      → finish ended answer u ≡ some v
      → Same u v
  unfolding finish send_result
  finish-Same ended answer u v e = ground arith

  catch-Same :
      (status : Status) (answer : Answer) (u v : Runner Q C)
      → report_failure status answer u ≡ some v
      → Same u v
  unfolding report_failure send_result
  catch-Same status answer u v e = ground arith

  stop-stays : (u : Runner Q C) → IsUp c u.flag_calls → IsUp c (stop u).flag_calls
  unfolding stop
  stop-stays u i = ground arith

  kept : (u v : Runner Q C) → Same u v → IsUp c u.flag_calls → IsUp c v.flag_calls
  kept u v same i = rw same i

  Steps-stays :
      (u v : Runner Q C) (steps : Steps u v)
      → IsLeft c steps
      → IsUp c u.flag_calls
      → IsUp c v.flag_calls
  unfolding clear_flag complete set_result_sink set_flag
  Steps-stays u v here l i = i
  Steps-stays u v (enters {u = w} seq ctx alone e steps) l i =
      kept w v (enter-Same seq ctx w v e) (Steps-stays u w steps l i)
  Steps-stays u v (joins {u = w} q ctx at e steps) l i =
      kept w v (claim-Same q ctx w) (Steps-stays u w steps l i)
  Steps-stays u v (launches {u = w} made e steps) l i =
      kept w v (launch-Same made w) (Steps-stays u w steps l i)
  Steps-stays u v (begins {u = w} answer at e steps) l i =
      kept w v (begin-Same answer w v e) (Steps-stays u w steps l i)
  Steps-stays u v (finishes {u = w} ended answer at e steps) l i =
      kept w v (finish-Same ended answer w v e) (Steps-stays u w steps l i)
  Steps-stays u v (catches {u = w} status answer at e steps) l i =
      kept w v (catch-Same status answer w v e) (Steps-stays u w steps l i)
  Steps-stays u v (clears {u = w} e steps) l i = Steps-stays u w steps l i
  Steps-stays u v (completes {u = w} alone e steps) l i = Steps-stays u w steps l i
  Steps-stays u v (stops {u = w} steps) l i = stop-stays w (Steps-stays u w steps l i)
  Steps-stays u v (sets_sink {u = w} sink steps) l i = Steps-stays u w steps l i
  Steps-stays u v (sets_flag {u = w} d true steps) l i = inr (Steps-stays u w steps l i)
  Steps-stays u v (sets_flag {u = w} d false steps) l i = (l.0, Steps-stays u w steps l.1 i)

  stop-IsUp :
      (u : Runner Q C) → u.running ≡ true → u.current_ctx ≡ some c → IsUp c (stop u).flag_calls
  unfolding stop
  stop-IsUp u e at = ground arith

  -- A stop that is requested while a run on a context is going on raises the stop flag of this context.
  -- Unless someone else puts it down, it stays up, whatever the runner does, of which one thread calls Start
  -- and WaitForCompletion: also when Start takes the same context for a later run.
  pub stop_stays :
      (u v : Runner Q C) (after : Steps (stop u) v)
      → Steps async_sequence_runner u
      → is_over u.thread ≡ false
      → u.current_ctx ≡ some c
      → IsLeft c after
      → IsUp c v.flag_calls
  stop_stays u v after before going at left =
      let i = runner-Consistent u before in
      let f : u.running ≡ not (is_over u.thread) = i.flag in
      Steps-stays (stop u) v after left (stop-IsUp u (ground (arith, f, going)) at)

-- A sequence whose context has the stop flag up runs no task and answers false, in any round of its
-- loop: the flag is not cleared by the sequence's own reset, which is the hypothesis.
pub execute_stopped :
    {S : Type 0} (host : Host S) (tasks : List (Option (Task S))) (fuel : ℕ) (s : S)
    → host.stop_requested s ≡ true
    → host.stop_requested (host.set_abort_requested false s) ≡ host.stop_requested s
    → execute host tasks (suc fuel) s ≡ some (false, host.set_abort_requested false s)
unfolding execute loop
execute_stopped host tasks fuel s up kept = ground arith
