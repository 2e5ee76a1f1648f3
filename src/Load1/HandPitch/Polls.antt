-- ===== src/Load1/HandPitch/Polls.antt =====
-- What holds between any polls of CLoad1PerformHandPitchScanningTask.cpp.
use vision_motion_framework.Prelude.{
  ◌≡◌, refl, Bool, true, false, some, List, [], arith, subst, pos,
}
use vision_motion_framework.Vat.Context.{Context, get_param_as, convert}
use vision_motion_framework.Vat.World.{Env, substep, TaskState, uninitialized, common_error}
use vision_motion_framework.Vat.Task.{new_world}
use vision_motion_framework.Vat.Polling.{
  Poll, run, Leaves, LeavesSome, Leaves-run, Leaves-execute, resume, Started,
}
use vision_motion_framework.Load1.HandPitch.{
  Substep, move_safe_z, move_origin, move_hand_pitch, move_focus_position_z, vision_request,
  vision_wait, return_home, save_hand_pitch_result, TaskWorld, initial_fields, on_initialize,
  handle_save_hand_pitch_result, save_results, poll_in, on_poll, poll,
}
use vision_motion_framework.Load1.HandPitch.Offsets.{save_rows-with_results}
use vision_motion_framework.Load1.HandPitch.Places.{targets, places-with_results}
use vision_motion_framework.Load1.HandPitch.Readings.{read_offsets-with_results, offsets}
use vision_motion_framework.Load1.HandPitch.Visited.{
  Inv, safe_z-Inv, origin-Inv, hand_pitch-Inv, focus_z-Inv, request-Inv, home-Inv,
}
use vision_motion_framework.Load1.HandPitch.Measured.{wait-Inv}

module _ {D : Type 0} (env : Env D) where
  save-Inv :
      (w : TaskWorld D) (repo : Bool)
      → w.initialized ≡ true
      → w.state ≡ substep save_hand_pitch_result
      → Inv env w
      → Leaves (Inv env) (save_results env repo w)
  unfolding save_results
  save-Inv w false old e i = ground arith
  save-Inv w true old e i =
      let c = w.ctx in
      let hand = get_param_as (convert env.parse_int) "HandID" (pos 0) c.seq_params in
      let pkg = get_param_as (convert env.parse_int) "PkgID" (pos 0) c.seq_params in
      let t = w.fields in
      ground (
        arith,
        save_rows-with_results env hand pkg t.picker_max_row 0 w,
        places-with_results env hand pkg t t.picker_max_row 0 w.log,
        read_offsets-with_results env hand pkg t t.picker_max_row 0 w.log,
      )

  poll_in-Inv :
      (act : Bool) (w : TaskWorld D) (s : TaskState Substep)
      → w.state ≡ s
      → Started (Inv env) w
      → Leaves (Inv env) (poll_in env act s w)
  unfolding handle_save_hand_pitch_result
  poll_in-Inv act w (substep move_safe_z) e (i, old) = safe_z-Inv env act w old e i
  poll_in-Inv act w (substep move_origin) e (i, old) = origin-Inv env act w old e i
  poll_in-Inv act w (substep move_hand_pitch) e (i, old) = hand_pitch-Inv env act w old e i
  poll_in-Inv act w (substep move_focus_position_z) e (i, old) = focus_z-Inv env act w old e i
  poll_in-Inv act w (substep vision_request) e (i, old) = request-Inv env act w old e i
  poll_in-Inv act w (substep vision_wait) e (i, old) = wait-Inv env act w old e i
  poll_in-Inv act w (substep return_home) e (i, old) = home-Inv env act w old e i
  poll_in-Inv act w (substep save_hand_pitch_result) e (i, old) = save-Inv w w.ctx.repo old e i
  poll_in-Inv act w uninitialized e (i, old) = i
  poll_in-Inv act w common_error e (i, old) = i

  init-Inv :
      (w : TaskWorld D)
      → Inv env w
      → w.initialized ≡ false
      → Leaves (Started (Inv env)) (on_initialize env (record w { initialized = true }))
  unfolding on_initialize targets offsets
  init-Inv w i new = ground (arith, i.fresh new)

  fails-Inv :
      (c : Context D) (w : TaskWorld D)
      → Inv env w
      → Inv env (record w { state = common_error; ctx = c })
  fails-Inv c w i = ground arith

  poll-Inv : (act : Bool) (w : TaskWorld D) → Inv env w → Leaves (Inv env) (poll env act w)
  unfolding poll on_poll
  poll-Inv act w i =
      Leaves-execute (Inv env) fails-Inv (on_initialize env) (on_poll env act) init-Inv
        (λ w i. poll_in-Inv act w w.state refl i) w i

  new-Inv : (c : Context D) → Inv env (new_world (initial_fields env) c [])
  unfolding new_world targets offsets
  new-Inv c = ground arith

  pub resume-Inv : (c : Context D) (w : TaskWorld D) → Inv env w → Inv env (resume c w)
  resume-Inv c w i = ground arith

  pub run_some-Inv :
      (ps : List (Poll D)) (c : Context D) (w : TaskWorld D)
      → run (poll env) ps (new_world (initial_fields env) c []) ≡ some w
      → Inv env w
  run_some-Inv ps c w ran =
      subst (LeavesSome (Inv env)) ran
        (Leaves-run (Inv env) (poll env) resume-Inv poll-Inv ps _ (new-Inv c))
