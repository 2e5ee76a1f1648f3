-- ===== src/Load1/MoveToStart/Arrival.antt =====
-- What CLoad1MoveToStartPositionTask.cpp guarantees to the sequence that polls it.
use vision_motion_framework.Prelude.{
  ◌≡◌, refl, ◌⊎◌, inl, inr, Bool, true, false, Option, none, some, List, [], arith, get_elem?,
  subst,
}
use vision_motion_framework.Vat.Context.{Context}
use vision_motion_framework.Vat.World.{
  Env, substep, TaskState, uninitialized, common_error, Outcome, ret, throw, undefined,
}
use vision_motion_framework.Vat.Task.{
  TaskResult, tr_keep, tr_next, tr_prev, tr_done, tr_error, new_world,
}
use vision_motion_framework.Vat.Polling.{Poll, run, LeavesSome, Ran, execute-Ran, resume}
use vision_motion_framework.Vat.Travel.{IsUp, TravelsUp, IsAt, is_some, WaitsInTime}
use vision_motion_framework.Load1.MoveToStart.{
  TaskWorld, Substep, initial_fields, on_initialize, on_poll, poll, poll_in,
  move_target_position_xy, idle, move_safe_z, move_origin, move_target_position_z, complete_move,
  handle_move_safe_z, handle_move_origin, handle_move_target_position_xy,
  handle_move_target_position_z, handle_complete_move,
}
use vision_motion_framework.Load1.MoveToStart.Safety.{
  Inv, run-Inv, resume-Inv, run_some-Inv, is_waiting,
}

module _ {D : Type 0} (env : Env D) where
  -- The tool stands at the position, in the plane and in height.
  abbrev pub HasArrived : TaskWorld D → Type 0
  HasArrived w =
      IsAt w.fields.target_position w.log
      × ((z : D) × (get_elem? w.fields.target_position 2 ≡ some z) × IsUp z w.log)

  -- What holds of a result, for the object before and after the poll.
  abbrev pub Promises : TaskWorld D → TaskResult → TaskWorld D → Type 0
  Promises w tr_next w' = HasArrived w'
  Promises w tr_keep w' = w'.state ≡ w.state → WaitsInTime w.deadline w.log w'.log
  Promises w tr_error w' = Unit {0}
  Promises w tr_prev w' = ⊥
  Promises w tr_done w' = ⊥

  abbrev OutcomePromises : TaskWorld D → Outcome (TaskWorld D) TaskResult → Type 0
  OutcomePromises w (ret r w') = Promises w r w'
  OutcomePromises w (throw e w') = Unit {0}
  OutcomePromises w undefined = Unit {0}

  module _ (act : Bool) (w : TaskWorld D) where
    safe_z-Promises :
        w.state ≡ substep move_safe_z → OutcomePromises w (handle_move_safe_z env act w)
    unfolding handle_move_safe_z
    safe_z-Promises e = ground arith

    origin-Promises :
        w.state ≡ substep move_origin
        → is_some w.deadline ≡ true
        → OutcomePromises w (handle_move_origin env act w)
    unfolding handle_move_origin
    origin-Promises e i = ground arith

    target_xy-Promises :
        w.state ≡ substep move_target_position_xy
        → is_some w.deadline ≡ true
        → OutcomePromises w (handle_move_target_position_xy env act w)
    unfolding handle_move_target_position_xy
    target_xy-Promises e i = ground arith

    target_z-Promises :
        w.state ≡ substep move_target_position_z
        → is_some w.deadline ≡ true
        → OutcomePromises w (handle_move_target_position_z env act w)
    unfolding handle_move_target_position_z
    target_z-Promises e i = ground arith

    complete-Promises :
        w.state ≡ substep complete_move
        → is_some w.deadline ≡ true
        → IsAt w.fields.target_position w.log
        → OutcomePromises w (handle_complete_move env act w)
    unfolding handle_complete_move
    complete-Promises e i a = ground arith

  poll_in-Promises :
      (act : Bool) (w : TaskWorld D) (s : TaskState Substep)
      → w.state ≡ s
      → Inv env w
      → OutcomePromises w (poll_in env act s w)
  poll_in-Promises act w (substep idle) e i = tt
  poll_in-Promises act w (substep move_safe_z) e i = safe_z-Promises act w e
  poll_in-Promises act w (substep move_origin) e i =
      origin-Promises act w e (ground (arith, i.timed))
  poll_in-Promises act w (substep move_target_position_xy) e i =
      target_xy-Promises act w e (ground (arith, i.timed))
  poll_in-Promises act w (substep move_target_position_z) e i =
      target_z-Promises act w e (ground (arith, i.timed))
  poll_in-Promises act w (substep complete_move) e i =
      complete-Promises act w e (ground (arith, i.timed)) (i.placed e)
  poll_in-Promises act w uninitialized e i = tt
  poll_in-Promises act w common_error e i = tt

  initialize-state :
      (w u : TaskWorld D) → on_initialize env w ≡ ret tt u → u.state ≡ substep move_safe_z
  unfolding on_initialize
  initialize-state w u e = ground arith

  safe_z_result :
      (act : Bool) (u : TaskWorld D) (r : TaskResult) (w' : TaskWorld D)
      → handle_move_safe_z env act u ≡ ret r w'
      → (r ≡ tr_error) ⊎ ((r ≡ tr_keep) × (w'.state ≡ substep move_origin))
  unfolding handle_move_safe_z
  safe_z_result act u r w' e = ground arith

  -- The first poll leaves every state that waits.
  first-Promises :
      (act : Bool) (w u : TaskWorld D) (r : TaskResult) (w' : TaskWorld D)
      → is_waiting env w.state ≡ false
      → on_initialize env (record w { initialized = true }) ≡ ret tt u
      → on_poll env act u ≡ ret r w'
      → Promises w r w'
  unfolding on_poll
  first-Promises act w u r w' unmoved init polled =
      elim (safe_z_result act u r w'
        (subst (λ s. poll_in env act s u ≡ ret r w') (initialize-state _ u init) polled)) [
          | inl failed ↦ rw failed tt
          | inr (kept, next) ↦ rw kept (λ same. ground (arith, same))
        ]

  Ran-Promises :
      (act : Bool) (w : TaskWorld D) (r : TaskResult) (w' : TaskWorld D)
      → Inv env w
      → Ran (on_initialize env) (on_poll env act) w r w'
      → Promises w r w'
  unfolding on_poll
  Ran-Promises act w r w' i (inl (old, polled)) =
      subst (OutcomePromises w) polled (poll_in-Promises act w w.state refl i)
  Ran-Promises act w r w' i (inr (u, new, init, polled)) =
      first-Promises act w u r w' (i.fresh new) init polled

  poll-Promises :
      (act : Bool) (w : TaskWorld D) (r : TaskResult) (w' : TaskWorld D)
      → Inv env w
      → poll env act w ≡ ret r w'
      → Promises w r w'
  unfolding poll
  poll-Promises act w tr_error w' i e = tt
  poll-Promises act w tr_keep w' i e =
      Ran-Promises act w _ w' i
        (execute-Ran (on_initialize env) (on_poll env act) w _ w' (λ n. cc) e)
  poll-Promises act w tr_next w' i e =
      Ran-Promises act w _ w' i
        (execute-Ran (on_initialize env) (on_poll env act) w _ w' (λ n. cc) e)
  poll-Promises act w tr_prev w' i e =
      Ran-Promises act w _ w' i
        (execute-Ran (on_initialize env) (on_poll env act) w _ w' (λ n. cc) e)
  poll-Promises act w tr_done w' i e =
      Ran-Promises act w _ w' i
        (execute-Ran (on_initialize env) (on_poll env act) w _ w' (λ n. cc) e)

  -- However often the task was polled, with or without an actuator, whatever the actuator and the
  -- clock answered, and whatever the other threads did to the context: no command to travel in the
  -- plane was given unless the actuator had confirmed the height 0 and the tool had not been sent up
  -- or down since.
  run-TravelsUp :
      (ps : List (Poll D)) (c : Context D)
      → LeavesSome
          (λ w. TravelsUp env.zero w.log)
          (run (poll env) ps (new_world initial_fields c []))
  run-TravelsUp ps c = weaken (run (poll env) ps (new_world initial_fields c [])) (run-Inv env ps c)
    where
      weaken :
          (o : Option (TaskWorld D))
          → LeavesSome (Inv env) o
          → LeavesSome (λ w. TravelsUp env.zero w.log) o
      weaken none l = tt
      weaken (some w) l = l.safe

  -- After any polls, the next one keeps the promises of its result: it says NEXT only if the actuator
  -- has confirmed the target position in the plane and its height, and neither has been commanded away
  -- since; it says KEEP in an unchanged state only if in this poll the actuator has been asked once and
  -- has denied that the tool is there, and the clock, read in this poll and behind that question, was
  -- before the deadline of the state; and it never says PREV or DONE.
  pub run-Promises :
      (ps : List (Poll D)) (c c' : Context D) (act : Bool) (w : TaskWorld D) (r : TaskResult)
      (w' : TaskWorld D)
      → run (poll env) ps (new_world initial_fields c []) ≡ some w
      → poll env act (resume c' w) ≡ ret r w'
      → Promises w r w'
  run-Promises ps c c' act w r w' ran polled =
      poll-Promises act (resume c' w) r w' (resume-Inv env c' w (run_some-Inv env ps c w ran))
        polled
