-- ===== src/Vat/Sequence/Meaning.antt =====
-- What DVH_Library/src/VatSequence.cpp computes, as a relation without fuel.
use mathlib.Core.Option.{some-injective}
use vision_motion_framework.Prelude.{
  ℕ, zero, suc, ◌≡◌, refl, sym, ◌∙◌, ◌↔◌, ◌⊎◌, inl, inr, Bool, true, false, Option, none, some,
  List, get_elem?, Bool-cases, subst,
}
use vision_motion_framework.Vat.Task.{tr_keep, tr_next, tr_prev, tr_done, tr_error}
use vision_motion_framework.Vat.Sequence.{
  Returned, result, threw, Task, Host, is_stopped, wait_unless_stopped, previous, run_task, at_task,
  after_task, loop, execute,
}

module _ {S : Type 0} (host : Host S) (tasks : List (Option (Task S))) where
  -- From task `idx` and state s the sequence ends with this result and state. A stop request is
  -- honoured before each task; a missing task is passed over; every result of a task has its rule.
  pub data Ends : ℕ → S → Bool → S → Type 0 where
    stops : {idx : ℕ} {s : S} → is_stopped host s ≡ true → Ends idx s false s
    finishes :
        {idx : ℕ} {s : S}
        → is_stopped host s ≡ false
        → get_elem? tasks idx ≡ none
        → Ends idx s true s
    passes :
        {idx : ℕ} {s t : S} {b : Bool}
        → is_stopped host s ≡ false
        → get_elem? tasks idx ≡ some none
        → Ends (suc idx) s b t
        → Ends idx s b t
    keeps :
        {idx : ℕ} {s u t : S} {b : Bool} (task : Task S)
        → is_stopped host s ≡ false
        → get_elem? tasks idx ≡ some (some task)
        → run_task host task s ≡ (result tr_keep, u)
        → Ends idx (wait_unless_stopped host u) b t
        → Ends idx s b t
    advances :
        {idx : ℕ} {s u t : S} {b : Bool} (task : Task S)
        → is_stopped host s ≡ false
        → get_elem? tasks idx ≡ some (some task)
        → run_task host task s ≡ (result tr_next, u)
        → Ends (suc idx) u b t
        → Ends idx s b t
    goes_back :
        {idx : ℕ} {s u t : S} {b : Bool} (task : Task S)
        → is_stopped host s ≡ false
        → get_elem? tasks idx ≡ some (some task)
        → run_task host task s ≡ (result tr_prev, u)
        → Ends (previous host idx) u b t
        → Ends idx s b t
    is_done :
        {idx : ℕ} {s u : S} (task : Task S)
        → is_stopped host s ≡ false
        → get_elem? tasks idx ≡ some (some task)
        → run_task host task s ≡ (result tr_done, u)
        → Ends idx s true u
    fails :
        {idx : ℕ} {s u : S} (task : Task S)
        → is_stopped host s ≡ false
        → get_elem? tasks idx ≡ some (some task)
        → (run_task host task s ≡ (result tr_error, u)) ⊎ (run_task host task s ≡ (threw, u))
        → Ends idx s false u

  module _ (fuel : ℕ) (b : Bool) (t : S)
      (again : (idx : ℕ) (s : S) → loop host tasks fuel idx s ≡ some (b, t) → Ends idx s b t)
      (idx : ℕ) (s : S) (going : is_stopped host s ≡ false) where
    after_task-Ends :
        (task : Task S)
        → get_elem? tasks idx ≡ some (some task)
        → (r : Returned × S) → run_task host task s ≡ r
        → after_task host tasks (loop host tasks fuel) idx r ≡ some (b, t)
        → Ends idx s b t
    after_task-Ends task at (result tr_keep, u) ran e = keeps task going at ran (again _ _ e)
    after_task-Ends task at (result tr_next, u) ran e = advances task going at ran (again _ _ e)
    after_task-Ends task at (result tr_prev, u) ran e = goes_back task going at ran (again _ _ e)
    after_task-Ends task at (result tr_done, u) ran e =
        subst (λ o. Ends idx s o.0 o.1) (some-injective _ _ e) (is_done task going at ran)
    after_task-Ends task at (result tr_error, u) ran e =
        subst (λ o. Ends idx s o.0 o.1) (some-injective _ _ e) (fails task going at (inl ran))
    after_task-Ends task at (threw, u) ran e =
        subst (λ o. Ends idx s o.0 o.1) (some-injective _ _ e) (fails task going at (inr ran))

    at_task-Ends :
        (o : Option (Option (Task S)))
        → get_elem? tasks idx ≡ o
        → at_task host tasks (loop host tasks fuel) idx o s ≡ some (b, t)
        → Ends idx s b t
    at_task-Ends none at e =
        subst (λ o. Ends idx s o.0 o.1) (some-injective _ _ e) (finishes going at)
    at_task-Ends (some none) at e = passes going at (again _ _ e)
    at_task-Ends (some (some task)) at e = after_task-Ends task at (run_task host task s) refl e

  pub loop-stopped :
      (fuel idx : ℕ) (s : S)
      → is_stopped host s ≡ true
      → loop host tasks (suc fuel) idx s ≡ some (false, s)
  unfolding loop
  loop-stopped fuel idx s stop = rw (stop, loop) refl

  pub loop-going :
      (fuel idx : ℕ) (s : S)
      → is_stopped host s ≡ false
      → loop host tasks (suc fuel) idx s
        ≡ at_task host tasks (loop host tasks fuel) idx (get_elem? tasks idx) s
  unfolding loop
  loop-going fuel idx s going = rw (going, loop) refl

  loop-Ends :
      (fuel idx : ℕ) (s : S) (b : Bool) (t : S)
      → loop host tasks fuel idx s ≡ some (b, t)
      → Ends idx s b t
  unfolding loop
  loop-Ends zero idx s b t e = cc
  loop-Ends (suc fuel) idx s b t e = elim (Bool-cases (is_stopped host s)) [
    | inl stop ↦
        subst (λ o. Ends idx s o.0 o.1)
          (some-injective _ _ (sym (loop-stopped fuel idx s stop) ∙ e)) (stops stop)
    | inr going ↦
        at_task-Ends fuel b t (λ idx' s' e'. loop-Ends fuel idx' s' b t e') idx s going
          (get_elem? tasks idx) refl (sym (loop-going fuel idx s going) ∙ e)
  ]

  Returns : ℕ → S → Bool → S → Type 0
  Returns idx s b t = (fuel : ℕ) × (loop host tasks fuel idx s ≡ some (b, t))

  -- One round more than the loop needs behind the task.
  task_round :
      (idx idx' : ℕ) (s u t : S) (b : Bool) (task : Task S) (r : Returned) (v : S)
      → is_stopped host s ≡ false
      → get_elem? tasks idx ≡ some (some task)
      → run_task host task s ≡ (r, v)
      → ((fuel : ℕ)
          → after_task host tasks (loop host tasks fuel) idx (r, v) ≡ loop host tasks fuel idx' u)
      → Returns idx' u b t
      → Returns idx s b t
  unfolding Returns
  task_round idx idx' s u t b task r v going at ran same (fuel, e) =
      (suc fuel, loop-going fuel idx s going ∙ rw at (rw ran (same fuel ∙ e)))

  Ends-loop : {idx : ℕ} {s t : S} {b : Bool} → Ends idx s b t → Returns idx s b t
  unfolding Returns
  Ends-loop {idx} {s} (stops stop) = (1, loop-stopped 0 idx s stop)
  Ends-loop {idx} {s} (finishes going at) = (1, loop-going 0 idx s going ∙ rw at refl)
  Ends-loop {idx} {s} (passes going at more) =
      let (fuel, e) = Ends-loop more in (suc fuel, loop-going fuel idx s going ∙ rw at e)
  Ends-loop (keeps task going at ran more) =
      task_round _ _ _ _ _ _ task _ _ going at ran (λ fuel. refl) (Ends-loop more)
  Ends-loop (advances task going at ran more) =
      task_round _ _ _ _ _ _ task _ _ going at ran (λ fuel. refl) (Ends-loop more)
  Ends-loop (goes_back task going at ran more) =
      task_round _ _ _ _ _ _ task _ _ going at ran (λ fuel. refl) (Ends-loop more)
  Ends-loop {idx} {s} (is_done task going at ran) =
      (1, loop-going 0 idx s going ∙ rw at (rw ran refl))
  Ends-loop {idx} {s} (fails task going at (inl ran)) =
      (1, loop-going 0 idx s going ∙ rw at (rw ran refl))
  Ends-loop {idx} {s} (fails task going at (inr ran)) =
      (1, loop-going 0 idx s going ∙ rw at (rw ran refl))

  -- `Execute` returns b in state t, for some amount of fuel, exactly when the sequence ends so from its
  -- first task with the sequence's own stop flag cleared.
  pub execute-Ends :
      (s : S) (b : Bool) (t : S)
      → ((fuel : ℕ) × (execute host tasks fuel s ≡ some (b, t)))
        ↔ Ends 0 (host.set_abort_requested false s) b t
  unfolding execute Returns
  execute-Ends s b t = (λ r. loop-Ends r.0 0 _ b t r.1, λ ends. Ends-loop ends)
