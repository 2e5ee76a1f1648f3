-- ===== src/Vat/Polling.antt =====
-- Repeated polls of one task (DVH_Library/include/NonBlockingTaskBase.h), and the rule by which an
-- invariant of its handlers holds over all of them.
pub mod Keeping
use Prim.Native.String.{String}
use vision_motion_framework.Prelude.{
  ◌≡◌, refl, ap, ◌≢◌, ◌⊎◌, Bool, true, false, if◌then◌else◌, Option, none, some, List, [], ◌∷◌, inl,
  inr, arith,
}
use vision_motion_framework.Vat.Context.{Context, set_last_error}
use vision_motion_framework.Vat.World.{
  World, common_error, Outcome, ret, throw, undefined, M, ◌>>=◌, deref,
}
use vision_motion_framework.Vat.Task.{
  TaskResult, execute, catch_as, poll_after, tr_error, or_fail, given_or_fail, set_error_and_return,
}
pub use vision_motion_framework.Vat.Outcomes.{
  Leaves, LeavesSome, Leaves-bind, ret-result, bind-ret, bind-after, deref-ret, or_fail-ret,
  given_or_fail-ret, Leaves-deref, Leaves-or_fail, Leaves-given_or_fail,
}

-- One poll: whether there is an actuator, and the context as the other threads left it.
pub record Poll (D : Type 0) : Type 0 where
  pub actuator : Bool
  pub context : Context D

module _ {S T D : Type 0} where
  abbrev pub resume : Context D → World S T D → World S T D
  resume c w = record w { ctx = c }

  -- The object after some polls; `none` once a poll was undefined.
  unfoldable pub run :
      (Bool → M (World S T D) TaskResult) → List (Poll D) → World S T D → Option (World S T D)
  run poll [] w = some w
  run poll (p ∷ ps) w = elim (poll p.actuator (resume p.context w)) [
    | ret r w' ↦ run poll ps w'
    | throw e w' ↦ run poll ps w'
    | undefined ↦ none
  ]

  pub Leaves-run :
      (Inv : World S T D → Type 0) (poll : Bool → M (World S T D) TaskResult)
      → ((c : Context D) (w : World S T D) → Inv w → Inv (resume c w))
      → ((act : Bool) (w : World S T D) → Inv w → Leaves Inv (poll act w))
      → (ps : List (Poll D)) (w : World S T D) → Inv w
      → LeavesSome Inv (run poll ps w)
  unfolding run
  Leaves-run Inv poll res step [] w i = i
  Leaves-run Inv poll res step (p ∷ ps) w i =
      go (poll p.actuator (resume p.context w)) (step p.actuator _ (res p.context w i))
        (Leaves-run Inv poll res step ps)
    where
      go :
          (o : Outcome (World S T D) TaskResult)
          → Leaves Inv o
          → ((w : World S T D) → Inv w → LeavesSome Inv (run poll ps w))
          → LeavesSome Inv (elim o [
            | ret r w' ↦ run poll ps w'
            | throw e w' ↦ run poll ps w'
            | undefined ↦ none
          ])
      go (ret r w') l rest = rest w' l
      go (throw e w') l rest = rest w' l
      go undefined l rest = tt

  abbrev pub Started : (World S T D → Type 0) → World S T D → Type 0
  Started Inv w = Inv w × (w.initialized ≡ true)

  module _ (Inv : World S T D → Type 0)
      (fails : (message : String) (w : World S T D)
        → Inv w
        → Inv (record w { state = common_error; ctx = set_last_error message w.ctx })) where
    Leaves-catch_as :
        (prefix : String) (o : Outcome (World S T D) TaskResult)
        → Leaves Inv o
        → Leaves Inv (catch_as prefix o)
    Leaves-catch_as prefix (ret r w) l = l
    Leaves-catch_as prefix (throw e w) l = fails _ w l
    Leaves-catch_as prefix undefined l = tt

    Leaves-poll_after :
        (on_poll : M (World S T D) TaskResult)
        → ((w : World S T D) → Started Inv w → Leaves Inv (on_poll w))
        → (o : Outcome (World S T D) (Unit {0})) → Leaves (Started Inv) o
        → Leaves Inv (poll_after on_poll o)
    Leaves-poll_after on_poll polls (ret u w) l = Leaves-catch_as _ (on_poll w) (polls w l)
    Leaves-poll_after on_poll polls (throw e w) l = fails _ w l.0
    Leaves-poll_after on_poll polls undefined l = tt

    if_Leaves :
        (b : Bool) (o o' : Outcome (World S T D) TaskResult)
        → Leaves Inv o
        → Leaves Inv o'
        → Leaves Inv (if b then o else o')
    if_Leaves true o o' l l' = l
    if_Leaves false o o' l l' = l'

    -- `Execute` keeps what the initialisation and the handlers keep, if a failed task meets it.
    -- The handlers run on initialised objects only.
    pub Leaves-execute_failing :
        (on_initialize : M (World S T D) (Unit {0})) (on_poll : M (World S T D) TaskResult)
        → ((w : World S T D)
            → Inv w
            → w.initialized ≡ false
            → Leaves (Started Inv) (on_initialize (record w { initialized = true })))
        → ((w : World S T D) → Started Inv w → Leaves Inv (on_poll w))
        → (w : World S T D) → Inv w
        → Leaves Inv (execute on_initialize on_poll w)
    unfolding execute
    Leaves-execute_failing on_initialize on_poll init polls w i =
        if_Leaves (stopped w.ctx) _ _ (fails _ w i) (by_flag w.initialized refl)
      where
        stopped : Context D → Bool
        stopped c = c.stop_requested

        by_flag :
            (old : Bool)
            → w.initialized ≡ old
            → Leaves Inv (
                if old
                then poll_after on_poll (ret tt w)
                else poll_after on_poll (on_initialize (record w { initialized = true })))
        by_flag true e = Leaves-poll_after on_poll polls (ret tt w) (i, e)
        by_flag false e = Leaves-poll_after on_poll polls _ (init w i e)

  -- The same for an invariant that does not look at the context of a failed task.
  pub Leaves-execute :
      (Inv : World S T D → Type 0)
      → ((c : Context D) (w : World S T D)
          → Inv w
          → Inv (record w { state = common_error; ctx = c }))
      → (on_initialize : M (World S T D) (Unit {0})) (on_poll : M (World S T D) TaskResult)
      → ((w : World S T D)
          → Inv w
          → w.initialized ≡ false
          → Leaves (Started Inv) (on_initialize (record w { initialized = true })))
      → ((w : World S T D) → Started Inv w → Leaves Inv (on_poll w))
      → (w : World S T D) → Inv w
      → Leaves Inv (execute on_initialize on_poll w)
  Leaves-execute Inv fails =
      Leaves-execute_failing Inv (λ message w. fails (set_last_error message w.ctx) w)

  -- A poll that did not fail ran the handler of the state, the first time behind the initialisation.
  abbrev pub Ran :
      M (World S T D) (Unit {0})
      → M (World S T D) TaskResult
      → World S T D
      → TaskResult
      → World S T D
      → Type 0
  Ran on_initialize on_poll w r w' =
      ((w.initialized ≡ true) × (on_poll w ≡ ret r w'))
      ⊎ ((u : World S T D) × (w.initialized ≡ false)
          × (on_initialize (record w { initialized = true }) ≡ ret tt u)
          × (on_poll u ≡ ret r w'))

  catch_as-ret :
      (prefix : String) (o : Outcome (World S T D) TaskResult) (r : TaskResult) (w : World S T D)
      → r ≢ tr_error
      → catch_as prefix o ≡ ret r w
      → o ≡ ret r w
  catch_as-ret prefix (ret r' w') r w ok e = e
  catch_as-ret prefix (throw what w') r w ok e = absurd (ok (ground arith))
  catch_as-ret prefix undefined r w ok e = cc

  poll_after-ret :
      (on_poll : M (World S T D) TaskResult) (o : Outcome (World S T D) (Unit {0})) (r : TaskResult)
      (w : World S T D)
      → r ≢ tr_error
      → poll_after on_poll o ≡ ret r w
      → (u : World S T D) × (o ≡ ret tt u) × (on_poll u ≡ ret r w)
  poll_after-ret on_poll (ret tt u) r w ok e = (u, refl, catch_as-ret _ (on_poll u) r w ok e)
  poll_after-ret on_poll (throw what u) r w ok e = absurd (ok (ground arith))
  poll_after-ret on_poll undefined r w ok e = cc

  pub execute-Ran :
      (on_initialize : M (World S T D) (Unit {0})) (on_poll : M (World S T D) TaskResult)
      (w : World S T D) (r : TaskResult) (w' : World S T D)
      → r ≢ tr_error
      → execute on_initialize on_poll w ≡ ret r w'
      → Ran on_initialize on_poll w r w'
  unfolding execute
  execute-Ran on_initialize on_poll w r w' ok e = by_flags (stopped w.ctx) w.initialized refl e
    where
      stopped : Context D → Bool
      stopped c = c.stop_requested

      by_flags :
          (stop old : Bool)
          → w.initialized ≡ old
          → (if stop
              then ret tr_error (record w {
                state = common_error;
                ctx = set_last_error "NonBlockingTaskBase: Stop requested" w.ctx;
              })
              else if old
              then poll_after on_poll (ret tt w)
              else poll_after on_poll (on_initialize (record w { initialized = true })))
            ≡ ret r w'
          → Ran on_initialize on_poll w r w'
      by_flags true old i e = absurd (ok (ground arith))
      by_flags false true i e = inl (i, catch_as-ret _ (on_poll w) r w' ok e)
      by_flags false false i e =
          let (u, p, q) = poll_after-ret on_poll _ r w' ok e in inr (u, i, p, q)
