-- ===== src/Vat/Runner/Reports.antt =====
-- What AsyncSequenceRunner.cpp reports of its runs, and when it takes a new one.
use vision_motion_framework.Prelude.{
  ◌≡◌, refl, ◌↔◌, Bool, true, false, not, Option, none, some, List, [], ◌∷◌, arith, ap, subst, ◌∙◌,
}
use vision_motion_framework.Vat.Runner.{
  Status, completed, launching, created, executing, catching, reported, Report, Runner,
  async_sequence_runner, Answer, set_result_sink, send_result, enter, claim, launch, begin, finish,
  after_report, end_of, status_of, is_completed, report_failure, clear_flag, complete, stop,
  set_flag, is_over, is_some, raised, Steps, here, enters, joins, launches, begins, finishes,
  catches, clears, completes, stops, sets_sink, sets_flag, Ended,
}
use vision_motion_framework.Vat.Runner.Paired.{
  is_final, Paired, Reported, end-Paired, second-Paired, caught-Reported, raised-is_failure,
}

end_of-is_final :
    {C : Type 0} (ctx : Option C) (ended : Ended) → is_final (status_of (end_of ctx ended)) ≡ true
unfolding status_of
end_of-is_final ctx ended = ground arith

completed-when : (status : Status) → is_completed status ≡ true → status ≡ completed
completed-when status e = ground arith

module _ {Q C : Type 0} where
  pub record Consistent (r : Runner Q C) : Type 0 where
    pub flag : r.running ≡ not (is_over r.thread)
    pub alone : is_some r.joining ≡ true → r.running ≡ false
    pub paired : Reported r.thread r.current_seq r.reports

  enter-Consistent :
      (seq : Option Q) (ctx : Option C) (u v : Runner Q C)
      → enter seq ctx u ≡ some v
      → Consistent u
      → Consistent v
  unfolding enter claim
  enter-Consistent seq ctx u v e i = ground arith

  claim-Consistent :
      (q : Q) (ctx : Option C) (u : Runner Q C)
      → is_over u.thread ≡ true
      → Consistent u
      → Consistent (claim q ctx u)
  unfolding claim
  claim-Consistent q ctx u e i = ground arith

  launch-Consistent :
      (made : Bool) (u : Runner Q C)
      → u.thread ≡ launching
      → Consistent u
      → Consistent (launch made u)
  unfolding launch
  launch-Consistent made u e i = ground arith

  begin-Consistent :
      (answer : Answer) (u v : Runner Q C)
      → u.thread ≡ created
      → begin answer u ≡ some v
      → Consistent u
      → Consistent v
  unfolding begin send_result
  begin-Consistent answer u v at e i = ground arith

  after-Consistent :
      (guarded : Bool) (m : Option Status) (w v : Runner Q C)
      → after_report guarded m w ≡ some v
      → w.running ≡ true
      → is_some w.joining ≡ false
      → (m ≡ none → Reported reported w.current_seq w.reports)
      → ((status : Status)
          → guarded ≡ true
          → m ≡ some status
          → Reported (catching status) w.current_seq w.reports)
      → Consistent v
  after-Consistent guarded none w v e run free ended caught = ground (arith, ended refl)
  after-Consistent true (some status) w v e run free ended caught =
      ground (arith, caught status refl refl)
  after-Consistent false (some status) w v e run free ended caught = cc

  sent-running :
      (status : Status) (answer : Answer) (u : Runner Q C)
      → ((send_result status answer u).running ≡ u.running)
        × ((send_result status answer u).joining ≡ u.joining)
  unfolding send_result
  sent-running status answer u = ground arith

  free : (u : Runner Q C) → Consistent u → u.running ≡ true → is_some u.joining ≡ false
  free u i run = ground arith

  finish-Consistent :
      (ended : Ended) (answer : Answer) (u v : Runner Q C)
      → u.thread ≡ executing
      → finish ended answer u ≡ some v
      → Consistent u
      → Consistent v
  unfolding finish
  finish-Consistent ended answer u v at e i =
      by_reports u.current_seq u.reports refl refl
        (subst (λ th. Reported th u.current_seq u.reports) at i.paired)
    where
      status : Status
      status = status_of (end_of u.current_ctx ended)

      run : u.running ≡ true
      run = ground (arith, i.flag)

      by_reports :
          (seq : Option Q) (rs : List (Report Q))
          → u.current_seq ≡ seq
          → u.reports ≡ rs
          → Reported executing seq rs
          → Consistent v
      by_reports none rs g r p = absurd p
      by_reports (some q) [] g r p = absurd p
      by_reports (some q) (s ∷ rs) g r (st, p) =
          let kept = sent-running status answer u in
          after-Consistent (is_completed status) (raised answer u) (send_result status answer u) v e
            (kept.0 ∙ run) (ap is_some kept.1 ∙ free u i run)
            (λ n.
              end-Paired status answer u q s rs g r (end_of-is_final u.current_ctx ended) st p n)
            (λ failure guarded n.
              caught-Reported status answer u failure q s rs g r
                (raised-is_failure answer u failure n) (completed-when status guarded) st p n)

  catch-Consistent :
      (status : Status) (answer : Answer) (u v : Runner Q C)
      → u.thread ≡ catching status
      → report_failure status answer u ≡ some v
      → Consistent u
      → Consistent v
  unfolding report_failure
  catch-Consistent status answer u v at e i =
      by_reports u.current_seq u.reports refl refl
        (subst (λ th. Reported th u.current_seq u.reports) at i.paired)
    where
      run : u.running ≡ true
      run = ground (arith, i.flag)

      by_reports :
          (seq : Option Q) (rs : List (Report Q))
          → u.current_seq ≡ seq
          → u.reports ≡ rs
          → Reported (catching status) seq rs
          → Consistent v
      by_reports none rs g r p = absurd p
      by_reports (some q) [] g r p = absurd p
      by_reports (some q) (s ∷ []) g r p = absurd p
      by_reports (some q) (c ∷ (s ∷ rs)) g r (f, re, st, p) =
          let kept = sent-running status answer u in
          after-Consistent false (raised answer u) (send_result status answer u) v e (kept.0 ∙ run)
            (ap is_some kept.1 ∙ free u i run)
            (λ n. second-Paired status answer u q c s rs g r f re st p n) (λ failure guarded n. cc)

  clear-Consistent :
      (u : Runner Q C) → u.thread ≡ reported → Consistent u → Consistent (clear_flag u)
  unfolding clear_flag
  clear-Consistent u e i = ground arith

  complete-Consistent :
      (u : Runner Q C)
      → u.joining ≡ none
      → is_over u.thread ≡ true
      → Consistent u
      → Consistent (complete u)
  unfolding complete
  complete-Consistent u alone e i = ground arith

  stop-Consistent : (u : Runner Q C) → Consistent u → Consistent (stop u)
  unfolding stop
  stop-Consistent u i = ground arith

  pub runner-Consistent : (u : Runner Q C) → Steps async_sequence_runner u → Consistent u
  unfolding async_sequence_runner set_result_sink set_flag Paired
  runner-Consistent u here = record { flag = refl; alone = λ e. cc; paired = tt }
  runner-Consistent u (enters {u = v} seq ctx single e steps) =
      enter-Consistent seq ctx v u e (runner-Consistent v steps)
  runner-Consistent u (joins {u = v} q ctx at e steps) =
      claim-Consistent q ctx v e (runner-Consistent v steps)
  runner-Consistent u (launches {u = v} made e steps) =
      launch-Consistent made v e (runner-Consistent v steps)
  runner-Consistent u (begins {u = v} answer at e steps) =
      begin-Consistent answer v u at e (runner-Consistent v steps)
  runner-Consistent u (finishes {u = v} ended answer at e steps) =
      finish-Consistent ended answer v u at e (runner-Consistent v steps)
  runner-Consistent u (catches {u = v} status answer at e steps) =
      catch-Consistent status answer v u at e (runner-Consistent v steps)
  runner-Consistent u (clears {u = v} e steps) = clear-Consistent v e (runner-Consistent v steps)
  runner-Consistent u (completes {u = v} alone e steps) =
      complete-Consistent v alone e (runner-Consistent v steps)
  runner-Consistent u (stops {u = v} steps) = stop-Consistent v (runner-Consistent v steps)
  runner-Consistent u (sets_sink {u = v} sink steps) =
      let i = runner-Consistent v steps in
      record { flag = i.flag; alone = i.alone; paired = i.paired }
  runner-Consistent u (sets_flag {u = v} c up steps) =
      let i = runner-Consistent v steps in
      record { flag = i.flag; alone = i.alone; paired = i.paired }

  -- From a new runner on, when one thread calls Start and WaitForCompletion, in any order of its steps, of
  -- those of the thread and of any callers of the other operations, and whenever the sink throws: each run
  -- that is over has reported its start, which no sink refused, and then one end of the same sequence, which no
  -- sink refused, before the next run reported anything; only when the sink threw at "completed" there
  -- are two ends, and the second one is a failure. The run that is going on has reported as much of this as
  -- its thread has done.
  pub runner-Reported :
      (u : Runner Q C) → Steps async_sequence_runner u → Reported u.thread u.current_seq u.reports
  runner-Reported u steps = (runner-Consistent u steps).paired

  refused_when :
      (q : Q) (ctx : Option C) (u : Runner Q C) → enter (some q) ctx u ≡ none → u.running ≡ true
  unfolding enter
  refused_when q ctx u e = ground arith

  when_running :
      (q : Q) (ctx : Option C) (u : Runner Q C) → u.running ≡ true → enter (some q) ctx u ≡ none
  unfolding enter
  when_running q ctx u e = ground arith

  -- From a new runner on, when one thread calls Start and WaitForCompletion, in any order of its steps and
  -- those of the others: Start refuses a sequence exactly while a run is going on; and when Start has let go
  -- of the lock to join, which it does not test again, still no run is going on, so that the one it then
  -- takes is the only one.
  pub enter_refuses :
      (u : Runner Q C) (q : Q) (ctx : Option C)
      → Steps async_sequence_runner u
      → ((enter (some q) ctx u ≡ none) ↔ (is_over u.thread ≡ false))
        × (is_some u.joining ≡ true → (is_over u.thread ≡ true) × (u.running ≡ false))
  enter_refuses u q ctx steps =
      let i = runner-Consistent u steps in
      let f : u.running ≡ not (is_over u.thread) = i.flag in
      (
        (
          λ e. ground (arith, refused_when q ctx u e, f),
          λ e. when_running q ctx u (ground (arith, f, e)),
        ),
        λ e. ground (arith, f, i.alone e),
      )
