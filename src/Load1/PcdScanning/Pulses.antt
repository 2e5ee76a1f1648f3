-- ===== src/Load1/PcdScanning/Pulses.antt =====
-- Which readings CLoad1PerformPCDScanningTask.cpp computes its result from.
use vision_motion_framework.Prelude.{
  ◌≡◌, refl, Bool, true, false, some, List, [], ◌∷◌, get_elem?, arith, subst,
}
use vision_motion_framework.Vat.Context.{Context}
use vision_motion_framework.Vat.World.{
  Env, Log, got_pulse, substep, TaskState, uninitialized, common_error,
}
use vision_motion_framework.Vat.Task.{new_world}
use vision_motion_framework.Vat.Polling.{
  Poll, run, Leaves, LeavesSome, Leaves-run, Leaves-execute, resume, Started,
}
use vision_motion_framework.Load1.Backlash.{Axis}
use vision_motion_framework.Load1.PcdScanning.{
  Substep, move_safe_z, move_origin, move_target_position_xy, move_focus_position_z, vision_request,
  vision_wait, calculate_pcd, save_pcd_result, initial_fields, TaskWorld, Fields, on_initialize,
  measured, read_pulse, handle_move_safe_z, handle_move_origin, handle_move_target_position_xy,
  handle_move_focus_position_z, handle_vision_request, handle_vision_wait, handle_calculate_pcd,
  poll_in, on_poll, poll, axis_index, pulse_distance, scale_of,
}

-- The last reading of the pulses has this one for the axis.
abbrev pub LastPulse : {D : Type 0} → Axis → D → Log D → Type 0
LastPulse a p [] = ⊥
LastPulse a p (got_pulse ps ∷ es) = get_elem? ps (axis_index a) ≡ some p
LastPulse a p (_ ∷ es) = LastPulse a p es

-- The last two readings of the pulses have these two for the axis, the earlier one first.
abbrev pub LastTwoPulses : {D : Type 0} → Axis → D → D → Log D → Type 0
LastTwoPulses a p q [] = ⊥
LastTwoPulses a p q (got_pulse ps ∷ es) = (get_elem? ps (axis_index a) ≡ some q) × LastPulse a p es
LastTwoPulses a p q (_ ∷ es) = LastTwoPulses a p q es

-- The states before the second reading.
abbrev is_scanning : TaskState Substep → Bool
is_scanning uninitialized = false
is_scanning common_error = false
is_scanning (substep calculate_pcd) = false
is_scanning (substep save_pcd_result) = false
is_scanning (substep s) = true

abbrev has_both : TaskState Substep → Bool
has_both (substep calculate_pcd) = true
has_both (substep save_pcd_result) = true
has_both _ = false

module _ {D : Type 0} (env : Env D) where
  -- The results that belong to the pulses.
  abbrev pub HasResults : Fields D → Type 0
  HasResults t =
      (t.pulse_distance_result
        ≡ pulse_distance env t.scan_pitch t.start_axis_pulse t.end_axis_pulse)
      × (t.scale_result ≡ scale_of env t.pulse_distance_result)

  pub record Inv (w : TaskWorld D) : Type 0 where
    pub start :
        is_scanning w.state ≡ true
        → w.fields.is_start_offset_measured ≡ true
        → LastPulse w.fields.scan_axis w.fields.start_axis_pulse w.log
    pub both :
        has_both w.state ≡ true
        → LastTwoPulses w.fields.scan_axis w.fields.start_axis_pulse w.fields.end_axis_pulse w.log
    pub results : w.state ≡ substep save_pcd_result → HasResults w.fields

  module _ (act : Bool) (w : TaskWorld D) where
    safe_z-Inv : w.state ≡ substep move_safe_z → Inv w → Leaves Inv (handle_move_safe_z env act w)
    unfolding handle_move_safe_z
    safe_z-Inv e i = ground arith

    origin-Inv : w.state ≡ substep move_origin → Inv w → Leaves Inv (handle_move_origin env act w)
    unfolding handle_move_origin
    origin-Inv e i = ground arith

    target_xy-Inv :
        w.state ≡ substep move_target_position_xy
        → Inv w
        → Leaves Inv (handle_move_target_position_xy env act w)
    unfolding handle_move_target_position_xy
    target_xy-Inv e i = ground arith

    focus_z-Inv :
        w.state ≡ substep move_focus_position_z
        → Inv w
        → Leaves Inv (handle_move_focus_position_z env act w)
    unfolding handle_move_focus_position_z
    focus_z-Inv e i = ground arith

    request-Inv :
        w.state ≡ substep vision_request → Inv w → Leaves Inv (handle_vision_request env act w)
    unfolding handle_vision_request
    request-Inv e i = ground arith

    wait-Inv : w.state ≡ substep vision_wait → Inv w → Leaves Inv (handle_vision_wait env act w)
    unfolding handle_vision_wait measured read_pulse
    wait-Inv e i = ground arith

  calculate-Inv :
      (w : TaskWorld D)
      → w.state ≡ substep calculate_pcd
      → Inv w
      → Leaves Inv (handle_calculate_pcd env w)
  unfolding handle_calculate_pcd
  calculate-Inv w e i = ground arith

  poll_in-Inv :
      (act : Bool) (w : TaskWorld D) (s : TaskState Substep)
      → w.state ≡ s
      → Inv w
      → Leaves Inv (poll_in env act s w)
  poll_in-Inv act w (substep move_safe_z) e i = safe_z-Inv act w e i
  poll_in-Inv act w (substep move_origin) e i = origin-Inv act w e i
  poll_in-Inv act w (substep move_target_position_xy) e i = target_xy-Inv act w e i
  poll_in-Inv act w (substep move_focus_position_z) e i = focus_z-Inv act w e i
  poll_in-Inv act w (substep vision_request) e i = request-Inv act w e i
  poll_in-Inv act w (substep vision_wait) e i = wait-Inv act w e i
  poll_in-Inv act w (substep calculate_pcd) e i = calculate-Inv w e i
  poll_in-Inv act w (substep save_pcd_result) e i = i
  poll_in-Inv act w uninitialized e i = i
  poll_in-Inv act w common_error e i = i

  init-Inv :
      (w : TaskWorld D)
      → Inv w
      → Leaves (Started Inv) (on_initialize env (record w { initialized = true }))
  unfolding on_initialize
  init-Inv w i = ground arith

  fails-Inv :
      (c : Context D) (w : TaskWorld D) → Inv w → Inv (record w { state = common_error; ctx = c })
  fails-Inv c w i = ground arith

  pub poll-Inv : (act : Bool) (w : TaskWorld D) → Inv w → Leaves Inv (poll env act w)
  unfolding poll on_poll
  poll-Inv act w i =
      Leaves-execute Inv fails-Inv (on_initialize env) (on_poll env act) (λ w i _. init-Inv w i)
        (λ w i. poll_in-Inv act w w.state refl i.0) w i

  new-Inv : (c : Context D) → Inv (new_world (initial_fields env) c [])
  unfolding new_world
  new-Inv c = ground arith

  pub resume-Inv : (c : Context D) (w : TaskWorld D) → Inv w → Inv (resume c w)
  resume-Inv c w i = ground arith

  pub run_some-Inv :
      (ps : List (Poll D)) (c : Context D) (w : TaskWorld D)
      → run (poll env) ps (new_world (initial_fields env) c []) ≡ some w
      → Inv w
  run_some-Inv ps c w ran =
      subst (LeavesSome Inv) ran (Leaves-run Inv (poll env) resume-Inv poll-Inv ps _ (new-Inv c))
