-- ===== src/Vat/Polling/Keeping.antt =====
-- Repeated polls of one task (DVH_Library/include/NonBlockingTaskBase.h) between which the other threads
-- may change the context in everything but its positions.
use vision_motion_framework.Prelude.{Bool, Option, none, some, List, [], ◌∷◌}
use vision_motion_framework.Vat.Context.{Context}
use vision_motion_framework.Vat.World.{World, M, Outcome, ret, throw, undefined}
use vision_motion_framework.Vat.Task.{TaskResult}
use vision_motion_framework.Vat.Polling.{Poll, Leaves, LeavesSome, resume}

module _ {S T D : Type 0} where
  abbrev pub resume_keeping : Context D → World S T D → World S T D
  resume_keeping c w =
      let old = w.ctx in resume (record c { vision_positions = old.vision_positions }) w

  unfoldable pub run_keeping :
      (Bool → M (World S T D) TaskResult) → List (Poll D) → World S T D → Option (World S T D)
  run_keeping poll [] w = some w
  run_keeping poll (p ∷ ps) w = elim (poll p.actuator (resume_keeping p.context w)) [
    | ret r w' ↦ run_keeping poll ps w'
    | throw e w' ↦ run_keeping poll ps w'
    | undefined ↦ none
  ]

  pub Leaves-run_keeping :
      (Inv : World S T D → Type 0) (poll : Bool → M (World S T D) TaskResult)
      → ((c : Context D) (w : World S T D) → Inv w → Inv (resume_keeping c w))
      → ((act : Bool) (w : World S T D) → Inv w → Leaves Inv (poll act w))
      → (ps : List (Poll D)) (w : World S T D) → Inv w
      → LeavesSome Inv (run_keeping poll ps w)
  unfolding run_keeping
  Leaves-run_keeping Inv poll res step [] w i = i
  Leaves-run_keeping Inv poll res step (p ∷ ps) w i =
      go (poll p.actuator (resume_keeping p.context w)) (step p.actuator _ (res p.context w i))
        (Leaves-run_keeping Inv poll res step ps)
    where
      go :
          (o : Outcome (World S T D) TaskResult)
          → Leaves Inv o
          → ((w : World S T D) → Inv w → LeavesSome Inv (run_keeping poll ps w))
          → LeavesSome Inv (elim o [
            | ret r w' ↦ run_keeping poll ps w'
            | throw e w' ↦ run_keeping poll ps w'
            | undefined ↦ none
          ])
      go (ret r w') l rest = rest w' l
      go (throw e w') l rest = rest w' l
      go undefined l rest = tt
