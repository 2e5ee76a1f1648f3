-- ===== src/Vat/Runner/Paired.antt =====
-- What a list of reports of AsyncSequenceRunner.cpp says of the runs.
use vision_motion_framework.Prelude.{
  ◌≡◌, refl, ◌⊎◌, inl, inr, Bool, true, false, Option, none, some, List, [], ◌∷◌, arith, ap, sym,
  subst,
}
use vision_motion_framework.Vat.Runner.{
  Status, started, completed, aborted_unknown, aborted_exception, Thread, absent, launching,
  created, executing, catching, reported, finished, Report, Runner, Answer, send_result, is_some,
  raised,
}

abbrev pub is_final : Status → Bool
is_final started = false
is_final completed = true
is_final (aborted_exception text) = true
is_final aborted_unknown = true

abbrev pub is_failure : Status → Bool
is_failure (aborted_exception text) = true
is_failure aborted_unknown = true
is_failure _ = false

module _ {Q : Type 0} where
  -- A report of the start, which no sink refused.
  abbrev pub Starts : Q → Report Q → Type 0
  Starts q s = (s.status ≡ started) × (s.sequence ≡ q) × (s.refused ≡ false)

  -- A report that the sequence is completed, at which the sink threw.
  abbrev pub IsRefused : Q → Report Q → Type 0
  IsRefused q e = (e.status ≡ completed) × (e.sequence ≡ q) × (e.refused ≡ true)

  -- The reports of runs that are over. Each run has reported its start and then one end, neither refused by a sink;
  -- only if the sink threw at "completed" there are two ends, and the second one is a failure.
  unfoldable pub Paired : List (Report Q) → Type 0
  Paired [] = Unit {0}
  Paired (e ∷ []) = ⊥
  Paired (e ∷ (s ∷ [])) = (is_final e.status ≡ true) × (e.refused ≡ false) × Starts e.sequence s
  Paired (e ∷ (s ∷ (t ∷ rs))) =
      ((is_final e.status ≡ true) × (e.refused ≡ false) × Starts e.sequence s × Paired (t ∷ rs))
      ⊎ ((is_failure e.status ≡ true)
          × (e.refused ≡ false)
          × IsRefused e.sequence s
          × Starts e.sequence t
          × Paired rs)

  -- The reports while the thread stands there, and runs the sequence that is set.
  abbrev pub Reported : Thread → Option Q → List (Report Q) → Type 0
  Reported executing (some q) (s ∷ rs) = Starts q s × Paired rs
  Reported executing _ _ = ⊥
  Reported (catching status) (some q) (e ∷ (s ∷ rs)) =
      (is_failure status ≡ true) × IsRefused q e × Starts q s × Paired rs
  Reported (catching status) _ _ = ⊥
  Reported reported (some q) rs = Paired rs
  Reported reported none rs = ⊥
  Reported created (some q) rs = Paired rs
  Reported created none rs = ⊥
  Reported launching (some q) rs = Paired rs
  Reported launching none rs = ⊥
  Reported absent seq rs = Paired rs
  Reported finished seq rs = Paired rs

  -- A run that has ended.
  one_end :
      (e s : Report Q) (rs : List (Report Q))
      → is_final e.status ≡ true
      → e.refused ≡ false
      → Starts e.sequence s
      → Paired rs
      → Paired (e ∷ (s ∷ rs))
  unfolding Paired
  one_end e s [] f t st p = (f, t, st)
  one_end e s (r ∷ rs) f t st p = inl (f, t, st, p)

  two_ends :
      (e c s : Report Q) (rs : List (Report Q))
      → is_failure e.status ≡ true
      → e.refused ≡ false
      → IsRefused e.sequence c
      → Starts e.sequence s
      → Paired rs
      → Paired (e ∷ (c ∷ (s ∷ rs)))
  unfolding Paired
  two_ends e c s rs f t re st p = inr (f, t, re, st, p)

module _ {Q C : Type 0} where
  -- The report of an end, behind the start of the same run.
  module _ (status : Status) (answer : Answer) (u : Runner Q C) where
    abbrev pub report : Q → Report Q
    report q = record {
      sequence = q;
      status = status;
      delivered = u.result_sink;
      refused = is_some (raised answer u);
    }

    pub send_result-some :
        (q : Q)
        → u.current_seq ≡ some q
        → send_result status answer u ≡ record u { reports = report q ∷ u.reports }
    unfolding send_result
    send_result-some q e = ground arith

    -- It ends the run.
    pub end-Paired :
        (q : Q) (s : Report Q) (rs : List (Report Q))
        → u.current_seq ≡ some q
        → u.reports ≡ s ∷ rs
        → is_final status ≡ true
        → Starts q s
        → Paired rs
        → raised answer u ≡ none
        → Reported reported
            (send_result status answer u).current_seq
            (send_result status answer u).reports
    end-Paired q s rs g r f st p n = rw (send_result-some q g) (
        subst (λ seq. Reported reported seq (report q ∷ u.reports)) (sym g)
          (subst (λ es. Paired (report q ∷ es)) (sym r)
            (one_end (report q) s rs f (ap is_some n) st p)))

    -- It ends a run whose "completed" the sink has refused.
    pub second-Paired :
        (q : Q) (c s : Report Q) (rs : List (Report Q))
        → u.current_seq ≡ some q
        → u.reports ≡ c ∷ (s ∷ rs)
        → is_failure status ≡ true
        → IsRefused q c
        → Starts q s
        → Paired rs
        → raised answer u ≡ none
        → Reported reported
            (send_result status answer u).current_seq
            (send_result status answer u).reports
    second-Paired q c s rs g r f re st p n = rw (send_result-some q g) (
        subst (λ seq. Reported reported seq (report q ∷ u.reports)) (sym g)
          (subst (λ es. Paired (report q ∷ es)) (sym r)
            (two_ends (report q) c s rs f (ap is_some n) re st p)))

    -- The sink has refused "completed".
    pub caught-Reported :
        (failure : Status) (q : Q) (s : Report Q) (rs : List (Report Q))
        → u.current_seq ≡ some q
        → u.reports ≡ s ∷ rs
        → is_failure failure ≡ true
        → status ≡ completed
        → Starts q s
        → Paired rs
        → raised answer u ≡ some failure
        → Reported
            (catching failure)
            (send_result status answer u).current_seq
            (send_result status answer u).reports
    caught-Reported failure q s rs g r f c st p n = rw (send_result-some q g) (
        subst (λ seq. Reported (catching failure) seq (report q ∷ u.reports)) (sym g)
          (subst (λ es. Reported (catching failure) (some q) (report q ∷ es)) (sym r)
            (f, (c, refl, ap is_some n), st, p)))

  pub raised-is_failure :
      (answer : Answer) (u : Runner Q C) (failure : Status)
      → raised answer u ≡ some failure
      → is_failure failure ≡ true
  raised-is_failure answer u failure e = ground arith
