-- ===== src/Vat/Sequence/Keeping.antt =====
-- What every run of DVH_Library/src/VatSequence.cpp keeps, from what each of its tasks keeps.
use vision_motion_framework.Prelude.{
  ℕ, suc, ◌≡◌, Bool, true, Option, none, some, List, get_elem?, subst,
}
use vision_motion_framework.Vat.Task.{tr_keep, tr_next, tr_prev, tr_done, tr_error}
use vision_motion_framework.Vat.Sequence.{
  Returned, result, threw, Task, Host, wait_unless_stopped, previous, run_task,
}
use vision_motion_framework.Vat.Sequence.Meaning.{
  Ends, stops, finishes, passes, keeps, advances, goes_back, is_done, fails,
}

-- `Inv` speaks of the index of the next task.
module _ {S : Type 0} (host : Host S) (tasks : List (Option (Task S))) (Inv : ℕ → S → Type 0) where
  -- What a task leaves to the next round. None may say DONE.
  abbrev pub Keeps : ℕ → Returned × S → Type 0
  Keeps idx (result tr_keep, u) = Inv idx (wait_unless_stopped host u)
  Keeps idx (result tr_next, u) = Inv (suc idx) u
  Keeps idx (result tr_prev, u) = Inv (previous host idx) u
  Keeps idx (result tr_done, u) = ⊥
  Keeps idx (result tr_error, u) = Unit {0}
  Keeps idx (threw, u) = Unit {0}

  abbrev pub Finished : S → Type 0
  Finished t = (idx : ℕ) × (get_elem? tasks idx ≡ none) × Inv idx t

  module _
      (passed : (idx : ℕ) (s : S) → get_elem? tasks idx ≡ some none → Inv idx s → Inv (suc idx) s)
      (kept : (idx : ℕ) (task : Task S) (s : S)
        → get_elem? tasks idx ≡ some (some task)
        → Inv idx s
        → Keeps idx (run_task host task s)) where
    -- A sequence that ends with success has come past its last task.
    pub Ends-Finished :
        {idx : ℕ} {s : S} {b : Bool} {t : S}
        → Ends host tasks idx s b t
        → b ≡ true
        → Inv idx s
        → Finished t
    Ends-Finished (stops stop) e i = cc
    Ends-Finished {idx} (finishes going at) e i = (idx, at, i)
    Ends-Finished {idx} {s} (passes going at ends) e i = Ends-Finished ends e (passed idx s at i)
    Ends-Finished {idx} {s} (keeps task going at ran ends) e i =
        Ends-Finished ends e (subst (Keeps idx) ran (kept idx task s at i))
    Ends-Finished {idx} {s} (advances task going at ran ends) e i =
        Ends-Finished ends e (subst (Keeps idx) ran (kept idx task s at i))
    Ends-Finished {idx} {s} (goes_back task going at ran ends) e i =
        Ends-Finished ends e (subst (Keeps idx) ran (kept idx task s at i))
    Ends-Finished {idx} {s} (is_done task going at ran) e i =
        absurd (subst (Keeps idx) ran (kept idx task s at i))
    Ends-Finished (fails task going at failed) e i = cc
