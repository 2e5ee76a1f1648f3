-- ===== src/Load1/Backlash/Travel.antt =====
-- At what height CLoad1PerformBacklashScanningTask.cpp travels.
use vision_motion_framework.Prelude.{
  ◌<◌, ◌≡◌, refl, Bool, true, false, some, List, [], ◌∷◌, length, length-append, arith, subst,
}
use vision_motion_framework.Vat.Context.{Context}
use vision_motion_framework.Vat.World.{
  Env, Log, moved_z, substep, TaskState, uninitialized, common_error,
}
use vision_motion_framework.Vat.Task.{new_world}
use vision_motion_framework.Vat.Polling.{
  Poll, run, Leaves, LeavesSome, Leaves-run, Leaves-execute, resume, Started,
}
use vision_motion_framework.Vat.Travel.{IsUp}
use vision_motion_framework.Load1.Backlash.{
  Substep, move_safe_z, move_origin, move_start, move_zero, move_end, move_focus_z, vision_request,
  vision_wait, calculate_backlash, save_backlash_result, initial_fields, TaskWorld, on_initialize,
  request, measured, handle_move_safe_z, handle_move_origin, handle_move_start, handle_move_zero,
  handle_move_end, handle_move_focus_z, handle_vision_request, handle_vision_wait,
  handle_calculate_backlash, poll_in, on_poll, poll, difference,
}

-- The last command that moved the tool up or down sent it to the height z.
abbrev pub IsSentTo : {D : Type 0} → D → Log D → Type 0
IsSentTo z [] = ⊥
IsSentTo z (moved_z d ok ∷ es) = d ≡ z
IsSentTo z (_ ∷ es) = IsSentTo z es

-- The states whose handlers travel behind the start position.
abbrev pub travels : TaskState Substep → Bool
travels (substep move_start) = true
travels (substep move_zero) = true
travels (substep move_end) = true
travels _ = false

abbrev is_low : TaskState Substep → Bool
is_low (substep vision_request) = true
is_low (substep vision_wait) = true
is_low _ = false

-- A measurement is under way.
abbrev is_open : TaskState Substep → Bool
is_open uninitialized = false
is_open common_error = false
is_open (substep save_backlash_result) = false
is_open (substep s) = true

-- The state behind the start position has been set.
abbrev is_started : TaskState Substep → Bool
is_started (substep move_zero) = true
is_started (substep move_end) = true
is_started (substep move_focus_z) = true
is_started (substep vision_request) = true
is_started (substep vision_wait) = true
is_started _ = false

module _ {D : Type 0} (env : Env D) where
  pub record Inv (w : TaskWorld D) : Type 0 where
    pub counted : length w.fields.backlash_results ≡ w.fields.current_speed_index
    pub speeds_set : is_open w.state ≡ true → length w.fields.speed_list ≡ 3
    pub under_way : is_open w.state ≡ true → w.fields.current_speed_index < 3
    pub complete : w.state ≡ substep save_backlash_result → w.fields.current_speed_index ≡ 3
    pub first : w.state ≡ substep move_safe_z → w.fields.next_state_after_safe_z ≡ move_origin
    pub unmeasured : w.state ≡ substep move_safe_z → w.fields.is_start_measured ≡ false
    pub origin_unmeasured : w.state ≡ substep move_origin → w.fields.is_start_measured ≡ false
    pub second : is_started w.state ≡ true → w.fields.next_state_after_safe_z ≡ move_start
    pub measured_end : w.state ≡ substep move_end → w.fields.is_start_measured ≡ true
    pub up : travels w.state ≡ true → w.fields.is_start_measured ≡ false → IsUp env.zero w.log
    pub down :
        travels w.state ≡ true
        → w.fields.is_start_measured ≡ true
        → IsSentTo w.fields.focus_position_z w.log
    pub low : is_low w.state ≡ true → IsSentTo w.fields.focus_position_z w.log

  module _ (act : Bool) (w : TaskWorld D) where
    safe_z-Inv : w.state ≡ substep move_safe_z → Inv w → Leaves Inv (handle_move_safe_z env act w)
    unfolding handle_move_safe_z
    safe_z-Inv e i = ground arith

    origin-Inv : w.state ≡ substep move_origin → Inv w → Leaves Inv (handle_move_origin env act w)
    unfolding handle_move_origin
    origin-Inv e i = ground arith

    start-Inv : w.state ≡ substep move_start → Inv w → Leaves Inv (handle_move_start env act w)
    unfolding handle_move_start
    start-Inv e i = ground arith

    zero-Inv : w.state ≡ substep move_zero → Inv w → Leaves Inv (handle_move_zero env act w)
    unfolding handle_move_zero
    zero-Inv e i = ground arith

    end-Inv : w.state ≡ substep move_end → Inv w → Leaves Inv (handle_move_end env act w)
    unfolding handle_move_end
    end-Inv e i = ground arith

    focus_z-Inv :
        w.state ≡ substep move_focus_z → Inv w → Leaves Inv (handle_move_focus_z env act w)
    unfolding handle_move_focus_z
    focus_z-Inv e i = ground arith

    request-Inv :
        w.state ≡ substep vision_request → Inv w → Leaves Inv (handle_vision_request env act w)
    unfolding handle_vision_request request
    request-Inv e i = ground arith

    wait-Inv : w.state ≡ substep vision_wait → Inv w → Leaves Inv (handle_vision_wait env act w)
    unfolding handle_vision_wait measured
    wait-Inv e i = ground arith

  calculate-Inv :
      (w : TaskWorld D)
      → w.state ≡ substep calculate_backlash
      → Inv w
      → Leaves Inv (handle_calculate_backlash env w)
  unfolding handle_calculate_backlash
  calculate-Inv w e i = ground (
    arith,
    length-append w.fields.backlash_results
        (difference env w.fields.scan_axis w.fields.start_offset w.fields.end_offset ∷ []),
  )

  poll_in-Inv :
      (act : Bool) (w : TaskWorld D) (s : TaskState Substep)
      → w.state ≡ s
      → Inv w
      → Leaves Inv (poll_in env act s w)
  poll_in-Inv act w (substep move_safe_z) e i = safe_z-Inv act w e i
  poll_in-Inv act w (substep move_origin) e i = origin-Inv act w e i
  poll_in-Inv act w (substep move_start) e i = start-Inv act w e i
  poll_in-Inv act w (substep move_zero) e i = zero-Inv act w e i
  poll_in-Inv act w (substep move_end) e i = end-Inv act w e i
  poll_in-Inv act w (substep move_focus_z) e i = focus_z-Inv act w e i
  poll_in-Inv act w (substep vision_request) e i = request-Inv act w e i
  poll_in-Inv act w (substep vision_wait) e i = wait-Inv act w e i
  poll_in-Inv act w (substep calculate_backlash) e i = calculate-Inv w e i
  poll_in-Inv act w (substep save_backlash_result) e i = i
  poll_in-Inv act w uninitialized e i = i
  poll_in-Inv act w common_error e i = i

  init-Inv :
      (w : TaskWorld D)
      → Inv w
      → Leaves (Started Inv) (on_initialize env (record w { initialized = true }))
  unfolding on_initialize
  init-Inv w i = ground arith

  fails-Inv :
      (c : Context D) (w : TaskWorld D) → Inv w → Inv (record w { state = common_error; ctx = c })
  fails-Inv c w i = ground arith

  poll-Inv : (act : Bool) (w : TaskWorld D) → Inv w → Leaves Inv (poll env act w)
  unfolding poll on_poll
  poll-Inv act w i =
      Leaves-execute Inv fails-Inv (on_initialize env) (on_poll env act) (λ w i _. init-Inv w i)
        (λ w i. poll_in-Inv act w w.state refl i.0) w i

  new-Inv : (c : Context D) → Inv (new_world (initial_fields env) c [])
  unfolding new_world
  new-Inv c = ground arith

  pub resume-Inv : (c : Context D) (w : TaskWorld D) → Inv w → Inv (resume c w)
  resume-Inv c w i = ground arith

  pub run_some-Inv :
      (ps : List (Poll D)) (c : Context D) (w : TaskWorld D)
      → run (poll env) ps (new_world (initial_fields env) c []) ≡ some w
      → Inv w
  run_some-Inv ps c w ran =
      subst (LeavesSome Inv) ran (Leaves-run Inv (poll env) resume-Inv poll-Inv ps _ (new-Inv c))

  -- After any polls, in a state whose handler travels behind the start position: while the start is not
  -- measured, the actuator has confirmed the height 0 and the tool has not been sent up or down since; once
  -- the start is measured, the tool was last sent to the focus height, so that it travels lowered.
  pub backlash_run-Heights :
      (ps : List (Poll D)) (c : Context D) (w : TaskWorld D)
      → run (poll env) ps (new_world (initial_fields env) c []) ≡ some w
      → travels w.state ≡ true
      → (w.fields.is_start_measured ≡ false → IsUp env.zero w.log)
        × (w.fields.is_start_measured ≡ true → IsSentTo w.fields.focus_position_z w.log)
  backlash_run-Heights ps c w ran moving =
      let i = run_some-Inv ps c w ran in (i.up moving, i.down moving)
