-- ===== src/Load1/PcdSequence/Start.antt =====
-- What a poll of CLoad1MoveToStartPositionTask.cpp leaves to the other task of the sequence.
use vision_motion_framework.Prelude.{◌≡◌, inl, inr, Bool, true, arith, subst}
use vision_motion_framework.Vat.World.{
  Env, substep, TaskState, uninitialized, common_error, Outcome, ret, throw, undefined,
}
use vision_motion_framework.Vat.Task.{TaskResult, tr_keep, tr_next, tr_prev, tr_done, tr_error}
use vision_motion_framework.Vat.Polling.{Leaves, Leaves-execute, Started, Ran, execute-Ran}
use vision_motion_framework.Load1.Backlash.{Axis}
use vision_motion_framework.Load1.PcdScanning.Pulses.{LastPulse}
use vision_motion_framework.Load1.MoveToStart.{
  TaskWorld, Substep, on_initialize, on_poll, poll, poll_in, move_target_position_xy, idle,
  move_safe_z, move_origin, move_target_position_z, complete_move, handle_move_safe_z,
  handle_move_origin, handle_move_target_position_xy, handle_move_target_position_z,
  handle_complete_move,
}

module _ {D : Type 0} (env : Env D) where
  -- The task reads no pulses.
  module _ (a : Axis) (p : D) where
    abbrev Pulse : TaskWorld D → Type 0
    Pulse w = LastPulse a p w.log

    poll_in-Pulse :
        (act : Bool) (w : TaskWorld D) (s : TaskState Substep)
        → Pulse w
        → Leaves Pulse (poll_in env act s w)
    unfolding handle_move_safe_z handle_move_origin handle_move_target_position_xy
        handle_move_target_position_z handle_complete_move
    poll_in-Pulse act w (substep idle) i = i
    poll_in-Pulse act w (substep move_safe_z) i = ground arith
    poll_in-Pulse act w (substep move_origin) i = ground arith
    poll_in-Pulse act w (substep move_target_position_xy) i = ground arith
    poll_in-Pulse act w (substep move_target_position_z) i = ground arith
    poll_in-Pulse act w (substep complete_move) i = ground arith
    poll_in-Pulse act w uninitialized i = i
    poll_in-Pulse act w common_error i = i

    init-Pulse :
        (w : TaskWorld D)
        → Pulse w
        → Leaves (Started Pulse) (on_initialize env (record w { initialized = true }))
    unfolding on_initialize
    init-Pulse w i = ground arith

    pub poll-Pulse :
        (act : Bool) (w : TaskWorld D)
        → LastPulse a p w.log
        → Leaves (λ w'. LastPulse a p w'.log) (poll env act w)
    unfolding poll on_poll
    poll-Pulse act w i =
        Leaves-execute Pulse (λ c w i. i) (on_initialize env) (on_poll env act)
          (λ w i _. init-Pulse w i) (λ w i. poll_in-Pulse act w w.state i.0) w i

  -- Where the task stands behind its result.
  abbrev pub Rests : TaskResult → TaskWorld D → Type 0
  Rests tr_next w' = (w'.state ≡ substep move_safe_z) × (w'.initialized ≡ true)
  Rests tr_prev w' = ⊥
  Rests tr_done w' = ⊥
  Rests tr_keep w' = Unit {0}
  Rests tr_error w' = Unit {0}

  abbrev OutcomeRests : Outcome (TaskWorld D) TaskResult → Type 0
  OutcomeRests (ret r w') = Rests r w'
  OutcomeRests (throw e w') = Unit {0}
  OutcomeRests undefined = Unit {0}

  poll_in-Rests :
      (act : Bool) (w : TaskWorld D) (s : TaskState Substep)
      → w.initialized ≡ true
      → OutcomeRests (poll_in env act s w)
  unfolding handle_move_safe_z handle_move_origin handle_move_target_position_xy
      handle_move_target_position_z handle_complete_move
  poll_in-Rests act w (substep idle) old = tt
  poll_in-Rests act w (substep move_safe_z) old = ground arith
  poll_in-Rests act w (substep move_origin) old = ground arith
  poll_in-Rests act w (substep move_target_position_xy) old = ground arith
  poll_in-Rests act w (substep move_target_position_z) old = ground arith
  poll_in-Rests act w (substep complete_move) old = ground arith
  poll_in-Rests act w uninitialized old = tt
  poll_in-Rests act w common_error old = tt

  initialize-old :
      (w u : TaskWorld D)
      → on_initialize env (record w { initialized = true }) ≡ ret tt u
      → u.initialized ≡ true
  unfolding on_initialize
  initialize-old w u e = ground arith

  Ran-Rests :
      (act : Bool) (w : TaskWorld D) (r : TaskResult) (w' : TaskWorld D)
      → Ran (on_initialize env) (on_poll env act) w r w'
      → Rests r w'
  unfolding on_poll
  Ran-Rests act w r w' (inl (old, polled)) =
      subst OutcomeRests polled (poll_in-Rests act w w.state old)
  Ran-Rests act w r w' (inr (u, new, init, polled)) =
      subst OutcomeRests polled (poll_in-Rests act u u.state (initialize-old w u init))

  pub poll-Rests :
      (act : Bool) (w : TaskWorld D) (r : TaskResult) (w' : TaskWorld D)
      → poll env act w ≡ ret r w'
      → Rests r w'
  unfolding poll
  poll-Rests act w tr_error w' e = tt
  poll-Rests act w tr_keep w' e = tt
  poll-Rests act w tr_next w' e =
      Ran-Rests act w _ w' (execute-Ran (on_initialize env) (on_poll env act) w _ w' (λ n. cc) e)
  poll-Rests act w tr_prev w' e =
      Ran-Rests act w _ w' (execute-Ran (on_initialize env) (on_poll env act) w _ w' (λ n. cc) e)
  poll-Rests act w tr_done w' e =
      Ran-Rests act w _ w' (execute-Ran (on_initialize env) (on_poll env act) w _ w' (λ n. cc) e)
