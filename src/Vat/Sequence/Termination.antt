-- ===== src/Vat/Sequence/Termination.antt =====
-- When the `while (true)` of DVH_Library/src/VatSequence.cpp comes to an end: the tasks say how many rounds
-- they still want (`left`), and the fuel is counted from that.
use native.Mathlib.Numerals.{unary_clauses}
use vision_motion_framework.Prelude.{
  ℕ, zero, suc, ◌+◌, ◌*◌, ◌≤◌, ◌<◌, ◌≡◌, refl, ap, ◌∙◌, inl, inr, Bool, true, false, Option, none,
  some, List, get_elem?, length, arith, Bool-cases, get_elem?-none,
}
use vision_motion_framework.Vat.Task.{tr_keep, tr_next, tr_prev, tr_done, tr_error}
use vision_motion_framework.Vat.Sequence.{
  Returned, result, threw, Task, Host, is_stopped, wait_unless_stopped, run_task, at_task,
  after_task, loop, execute,
}
use vision_motion_framework.Vat.Sequence.Meaning.{loop-stopped, loop-going}

module _ {S : Type 0} (host : Host S) (tasks : List (Option (Task S))) (left : S → ℕ)
    (bound : ℕ) where
  -- A task that keeps brings `left` down, one that moves on leaves at most `bound`, and none goes back.
  abbrev pub Allowed : S → Returned × S → Type 0
  Allowed s (result tr_keep, u) = left (wait_unless_stopped host u) < left s
  Allowed s (result tr_next, u) = left u ≤ bound
  Allowed s (result tr_prev, u) = ⊥
  Allowed s (result tr_done, u) = Unit
  Allowed s (result tr_error, u) = Unit
  Allowed s (threw, u) = Unit

  abbrev pub Progresses : Type 0
  Progresses =
      (idx : ℕ) (task : Task S) (s : S)
      → get_elem? tasks idx ≡ some (some task)
      → Allowed s (run_task host task s)

  -- The rounds of k tasks.
  abbrev pub rounds : ℕ → ℕ
  rounds zero = 0
  rounds (suc k) = suc bound + rounds k

  rounds-mul : (k : ℕ) → rounds k ≡ k * suc bound
  rounds-mul zero = omega arith
  rounds-mul (suc k) = simp unary_clauses (rw (rounds-mul k) (omega arith))

  abbrev pub Finishes : ℕ → ℕ → S → Type 0
  Finishes fuel idx s = (o : Bool × S) × (loop host tasks fuel idx s ≡ some o)

  module _ (fuel k idx : ℕ) (s : S) (inside : length tasks ≤ suc k + idx)
      (enough : rounds (suc k) + left s < suc fuel)
      (again : (k' idx' : ℕ) (s' : S)
        → length tasks ≤ k' + idx'
        → rounds k' + left s' < fuel
        → Finishes fuel idx' s') where
    after_task-Finishes :
        (r : Returned × S)
        → Allowed s r
        → (o : Bool × S) × (after_task host tasks (loop host tasks fuel) idx r ≡ some o)
    after_task-Finishes (result tr_keep, u) ok =
        again (suc k) idx _ inside (omega (arith, ok, enough))
    after_task-Finishes (result tr_next, u) ok =
        again k (suc idx) u (omega (arith, inside)) (omega (arith, ok, enough))
    after_task-Finishes (result tr_prev, u) ok = absurd ok
    after_task-Finishes (result tr_done, u) ok = ((true, u), refl)
    after_task-Finishes (result tr_error, u) ok = ((false, u), refl)
    after_task-Finishes (threw, u) ok = ((false, u), refl)

    at_task-Finishes :
        Progresses
        → (t : Option (Option (Task S))) → get_elem? tasks idx ≡ t
        → (o : Bool × S) × (at_task host tasks (loop host tasks fuel) idx t s ≡ some o)
    at_task-Finishes ok none at = ((true, s), refl)
    at_task-Finishes ok (some none) at =
        again k (suc idx) s (omega (arith, inside)) (omega (arith, enough))
    at_task-Finishes ok (some (some task)) at =
        after_task-Finishes (run_task host task s) (ok idx task s at)

  loop-Finishes :
      Progresses
      → (fuel k idx : ℕ) (s : S) → length tasks ≤ k + idx
      → rounds k + left s < fuel
      → Finishes fuel idx s
  loop-Finishes ok zero k idx s inside enough = absurd (omega (arith, enough))
  loop-Finishes ok (suc fuel) zero idx s inside enough = elim (Bool-cases (is_stopped host s)) [
    | inl stop ↦ ((false, s), loop-stopped host tasks fuel idx s stop)
    | inr going ↦ (
      (true, s),
      loop-going host tasks fuel idx s going
          ∙ ap (λ o. at_task host tasks (loop host tasks fuel) idx o s)
              (get_elem?-none tasks idx (omega (arith, inside))),
    )
  ]
  loop-Finishes ok (suc fuel) (suc k) idx s inside enough = elim (Bool-cases (is_stopped host s)) [
    | inl stop ↦ ((false, s), loop-stopped host tasks fuel idx s stop)
    | inr going ↦
        let (o, e) =
          at_task-Finishes fuel k idx s inside enough (loop-Finishes ok fuel) ok
            (get_elem? tasks idx) refl in
        (o, loop-going host tasks fuel idx s going ∙ e)
  ]

  -- When every task that returns KEEP brings `left` down, every task that returns NEXT leaves it at most
  -- `bound` and no task returns PREV, the loop of `Execute` returns: (bound + 1) rounds for each task
  -- and the rounds the state wants at the start are fuel enough.
  execute-Finishes :
      Progresses
      → (fuel : ℕ) (s : S)
      → length tasks * suc bound + left (host.set_abort_requested false s) < fuel
      → (o : Bool × S) × (execute host tasks fuel s ≡ some o)
  unfolding execute
  execute-Finishes ok fuel s enough =
      loop-Finishes ok fuel (length tasks) 0 _ (omega arith) (rw (rounds-mul (length tasks)) enough)
