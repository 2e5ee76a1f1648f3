-- ===== src/Vat/Sequence.antt =====
-- DVH_Library/src/VatSequence.cpp: the loop that runs the tasks of a sequence. All that the loop shares
-- with its tasks and with other threads is a host state `S`; a task is any function on it, and what
-- other threads do while a task runs, or while the loop waits, is part of these functions.
pub mod Meaning
pub mod Termination
pub mod Keeping
use Prim.Native.String.{String}
use vision_motion_framework.Prelude.{
  ℕ, zero, suc, Bool, true, false, ◌||◌, if◌then◌else◌, Option, none, some, List, [], ◌∷◌, ◌++◌,
  get_elem?,
}
use vision_motion_framework.Vat.Task.{TaskResult, tr_keep, tr_next, tr_prev, tr_done, tr_error}

-- What `curTask->Execute` gives back: a result, or any exception.
pub data Returned : Type 0 where
  result : TaskResult → Returned
  threw : Returned

pub record Task (S : Type 0) : Type 0 where
  pub name : String
  pub run : S → Returned × S

-- The stop flag of the context, the sequence's own flag and task name, and the timed wait.
pub record Host (S : Type 0) : Type 0 where
  pub stop_requested : S → Bool
  pub abort_requested : S → Bool
  pub set_abort_requested : Bool → S → S
  pub set_task_name : String → S → S
  pub wait : S → S

-- `AddTask`; a null pointer is `none`.
unfoldable pub add_task :
    {S : Type 0} → Option (Task S) → List (Option (Task S)) → List (Option (Task S))
add_task task tasks = tasks ++ (task ∷ [])

module _ {S : Type 0} (host : Host S) where
  unfoldable pub abort : S → S
  abort s = host.set_abort_requested true s

  -- The two tests of a flag, the context's first.
  abbrev pub is_stopped : S → Bool
  is_stopped s = host.stop_requested s || host.abort_requested s

  abbrev pub wait_unless_stopped : S → S
  wait_unless_stopped s = if is_stopped s then s else host.wait s

  -- `--idx`, but not below the first task.
  abbrev pub previous : ℕ → ℕ
  previous zero = zero
  previous (suc idx) = idx

  -- One task is run.
  abbrev pub run_task : Task S → S → Returned × S
  run_task task s = task.run (host.set_task_name task.name s)

  module _ (tasks : List (Option (Task S))) where
    -- How the loop goes on behind a task: it ends with a result, or goes round again.
    abbrev pub after_task : (ℕ → S → Option (Bool × S)) → ℕ → Returned × S → Option (Bool × S)
    after_task again idx (result tr_keep, s) = again idx (wait_unless_stopped s)
    after_task again idx (result tr_next, s) = again (suc idx) s
    after_task again idx (result tr_prev, s) = again (previous idx) s
    after_task again idx (result tr_done, s) = some (true, s)
    after_task again idx (result tr_error, s) = some (false, s)
    after_task again idx (threw, s) = some (false, s)

    abbrev pub at_task :
        (ℕ → S → Option (Bool × S)) → ℕ → Option (Option (Task S)) → S → Option (Bool × S)
    at_task again idx none s = some (true, s)
    at_task again idx (some none) s = again (suc idx) s
    at_task again idx (some (some task)) s = after_task again idx (run_task task s)

    -- The `while (true)`, on fuel: `none` means that the fuel ran out.
    unfoldable pub loop : ℕ → ℕ → S → Option (Bool × S)
    loop zero idx s = none
    loop (suc fuel) idx s = elim (is_stopped s) [
      | true ↦ some (false, s)
      | false ↦ at_task (λ idx' s'. loop fuel idx' s') idx (get_elem? tasks idx) s
    ]

    unfoldable pub execute : ℕ → S → Option (Bool × S)
    execute fuel s = loop fuel 0 (host.set_abort_requested false s)
