-- ===== src/Load1/PcdSequence/Success.antt =====
-- What the sequence of CLoad1PCDSequenceBuilder.h has done when VatSequence.cpp says that it succeeded.
use mathlib.Core.Option.{some-injective}
use vision_motion_framework.Prelude.{
  ℕ, zero, suc, ◌≡◌, refl, Bool, true, Option, none, some, List, get_elem?, arith, subst,
}
use vision_motion_framework.Vat.Context.{Context}
use vision_motion_framework.Vat.World.{Env, Log}
use vision_motion_framework.Vat.Task.{new_world}
use vision_motion_framework.Vat.Sequence.{Task, Host, run_task, add_task, execute}
use vision_motion_framework.Vat.Sequence.Meaning.{execute-Ends}
use vision_motion_framework.Vat.Sequence.Keeping.{Keeps, Finished, Ends-Finished}
use vision_motion_framework.Load1.PcdSequence.{Line, new_line, build_sequence, line_host}
use vision_motion_framework.Load1.PcdSequence.Measures.{Measures, AtStart, Inv}
use vision_motion_framework.Load1.PcdSequence.Steps.{start_task-Keeps, pitch_task-Keeps}

module _ {D : Type 0} (env : Env D) where
  module _ (act : Bool) (others : Log D → Context D → Context D) (aborts : Log D → Bool) where
    abbrev the_host : Host (Line D)
    the_host = line_host env act others aborts

    abbrev the_tasks : List (Option (Task (Line D)))
    the_tasks = build_sequence env act others aborts

    tasks-Keeps :
        (idx : ℕ) (task : Task (Line D)) (s : Line D)
        → get_elem? the_tasks idx ≡ some (some task)
        → Inv env idx s
        → Keeps the_host the_tasks (Inv env) idx (run_task the_host task s)
    unfolding build_sequence add_task
    tasks-Keeps zero task s at i =
        subst (λ t. Keeps the_host the_tasks (Inv env) 0 (run_task the_host t s))
          (some-injective _ _ (some-injective _ _ at)) (start_task-Keeps env act others aborts s i)
    tasks-Keeps (suc zero) task s at i =
        subst (λ t. Keeps the_host the_tasks (Inv env) 1 (run_task the_host t s))
          (some-injective _ _ (some-injective _ _ at)) (pitch_task-Keeps env act others aborts s i)
    tasks-Keeps (suc (suc n)) task s at i = cc

    passed :
        (idx : ℕ) (s : Line D)
        → get_elem? the_tasks idx ≡ some none
        → Inv env idx s
        → Inv env (suc idx) s
    unfolding build_sequence add_task
    passed zero s at i = cc
    passed (suc zero) s at i = cc
    passed (suc (suc n)) s at i = cc

    Finished-Measures : (t : Line D) → Finished the_host the_tasks (Inv env) t → Measures env t
    unfolding build_sequence add_task
    Finished-Measures t (zero, at, i) = cc
    Finished-Measures t (suc zero, at, i) = cc
    Finished-Measures t (suc (suc n), at, i) = i

    new-AtStart : (c : Context D) → AtStart env (new_line env act others aborts c)
    unfolding new_world
    new-AtStart c = record { moving = ground arith; resting = refl; pulse = λ at measured. cc }

    -- When the sequence of the start task and the pitch task, run by the loop from new tasks on any
    -- context, ends with success, whatever other threads do to the context before each poll of a task:
    -- every command to travel of both tasks was given while the tool was confirmed at the height 0, the
    -- last two readings of the pulses are the start and the end pulse of the pitch task, and its pulse
    -- distance and scale are those that belong to them.
    pub pcd_sequence-Measures :
        (fuel : ℕ) (c : Context D) (t : Line D)
        → execute the_host the_tasks fuel (new_line env act others aborts c) ≡ some (true, t)
        → Measures env t
    pcd_sequence-Measures fuel c t ran = Finished-Measures t (
        Ends-Finished the_host the_tasks (Inv env) passed tasks-Keeps
          ((execute-Ends the_host the_tasks (new_line env act others aborts c) true t).0
            (fuel, ran))
          refl (new-AtStart c))
