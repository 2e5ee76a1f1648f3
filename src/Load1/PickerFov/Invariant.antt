-- ===== src/Load1/PickerFov/Invariant.antt =====
-- What the handlers of CLoad1PerformPickerFOVScanningTask.cpp keep true between two polls.
use vision_motion_framework.Prelude.{
  ◌≡◌, refl, Bool, true, false, some, List, [], ◌∷◌, arith, subst,
}
use vision_motion_framework.Vat.Context.{Context, set_seq_param, set_last_error}
use vision_motion_framework.Vat.World.{Env, substep, TaskState, uninitialized, common_error, narrow}
use vision_motion_framework.Vat.Task.{new_world}
use vision_motion_framework.Vat.Polling.{
  Poll, run, Leaves, LeavesSome, Leaves-run, Leaves-execute, resume, Started,
}
use vision_motion_framework.Vat.Travel.{IsUp, TravelsUp}
use vision_motion_framework.Vat.Readings.{place_of, Reading, readings}
use vision_motion_framework.Load1.PickerFov.{
  Substep, move_safe_z, move_origin, move_scan_position, move_focus_position_z, vision_request,
  vision_wait, save_result, return_home, PickerDirection, center, front_right, Fields, TaskWorld,
  initial_fields, on_initialize, scan_target, handle_move_safe_z, handle_move_origin,
  handle_move_scan_position, handle_move_focus_position_z, handle_vision_request,
  handle_vision_wait, measured, handle_return_home, handle_save_result, poll_in, on_poll, poll,
}

-- The second measurement has been kept, or has not.
abbrev pub is_complete : TaskState Substep → Bool
is_complete (substep save_result) = true
is_complete (substep return_home) = true
is_complete _ = false

abbrev is_scanning : TaskState Substep → Bool
is_scanning uninitialized = false
is_scanning common_error = false
is_scanning (substep save_result) = false
is_scanning (substep return_home) = false
is_scanning (substep s) = true

abbrev is_low : TaskState Substep → Bool
is_low (substep vision_request) = true
is_low (substep vision_wait) = true
is_low _ = false

module _ {D : Type 0} (env : Env D) where
  -- The reading that belongs to the kept offset of the centre, and to that of the front right.
  abbrev pub center_reading : Fields D → Reading D
  center_reading t = (some (scan_target env center t, narrow), t.center_offset)

  abbrev pub front_right_reading : Fields D → Reading D
  front_right_reading t = (some (scan_target env front_right t, narrow), t.front_right_offset)

  abbrev read_before : PickerDirection → Fields D → List (Reading D)
  read_before center t = []
  read_before front_right t = center_reading t ∷ []

  pub record Inv (w : TaskWorld D) : Type 0 where
    pub fresh : w.initialized ≡ false → w.log ≡ []
    pub started : is_complete w.state ≡ true → w.initialized ≡ true
    pub safe : TravelsUp env.zero w.log
    pub up : w.state ≡ substep move_scan_position → IsUp env.zero w.log
    pub placed :
        is_low w.state ≡ true
        → place_of w.log ≡ some (scan_target env w.fields.current_scan_direction w.fields, narrow)
    pub scanning :
        is_scanning w.state ≡ true
        → readings env w.log ≡ read_before w.fields.current_scan_direction w.fields
    pub complete :
        is_complete w.state ≡ true
        → readings env w.log ≡ front_right_reading w.fields ∷ center_reading w.fields ∷ []

  module _ (act : Bool) (w : TaskWorld D) (old : w.initialized ≡ true) where
    safe_z-Inv : w.state ≡ substep move_safe_z → Inv w → Leaves Inv (handle_move_safe_z env act w)
    unfolding handle_move_safe_z set_last_error set_seq_param
    safe_z-Inv e i = ground arith

    origin-Inv : w.state ≡ substep move_origin → Inv w → Leaves Inv (handle_move_origin env act w)
    unfolding handle_move_origin set_last_error set_seq_param
    origin-Inv e i = ground arith

    scan-Inv :
        w.state ≡ substep move_scan_position
        → Inv w
        → Leaves Inv (handle_move_scan_position env act w)
    unfolding handle_move_scan_position set_last_error set_seq_param
    scan-Inv e i = ground arith

    focus-Inv :
        w.state ≡ substep move_focus_position_z
        → Inv w
        → Leaves Inv (handle_move_focus_position_z env act w)
    unfolding handle_move_focus_position_z set_last_error set_seq_param
    focus-Inv e i = ground arith

    request-Inv :
        w.state ≡ substep vision_request → Inv w → Leaves Inv (handle_vision_request env act w)
    unfolding handle_vision_request set_last_error set_seq_param
    request-Inv e i = ground arith

    wait-Inv : w.state ≡ substep vision_wait → Inv w → Leaves Inv (handle_vision_wait env act w)
    unfolding handle_vision_wait measured set_last_error set_seq_param
    wait-Inv e i = ground arith

    home-Inv : w.state ≡ substep return_home → Inv w → Leaves Inv (handle_return_home env act w)
    unfolding handle_return_home set_last_error set_seq_param
    home-Inv e i = ground arith

  save-Inv :
      (w : TaskWorld D)
      → w.initialized ≡ true
      → w.state ≡ substep save_result
      → Inv w
      → Leaves Inv (handle_save_result env w)
  unfolding handle_save_result set_last_error set_seq_param
  save-Inv w old e i = ground arith

  poll_in-Inv :
      (act : Bool) (w : TaskWorld D) (s : TaskState Substep)
      → w.state ≡ s
      → Started Inv w
      → Leaves Inv (poll_in env act s w)
  poll_in-Inv act w (substep move_safe_z) e (i, old) = safe_z-Inv act w old e i
  poll_in-Inv act w (substep move_origin) e (i, old) = origin-Inv act w old e i
  poll_in-Inv act w (substep move_scan_position) e (i, old) = scan-Inv act w old e i
  poll_in-Inv act w (substep move_focus_position_z) e (i, old) = focus-Inv act w old e i
  poll_in-Inv act w (substep vision_request) e (i, old) = request-Inv act w old e i
  poll_in-Inv act w (substep vision_wait) e (i, old) = wait-Inv act w old e i
  poll_in-Inv act w (substep return_home) e (i, old) = home-Inv act w old e i
  poll_in-Inv act w (substep save_result) e (i, old) = save-Inv w old e i
  poll_in-Inv act w uninitialized e (i, old) = ground arith
  poll_in-Inv act w common_error e (i, old) = ground arith

  init-Inv :
      (w : TaskWorld D)
      → Inv w
      → w.initialized ≡ false
      → Leaves (Started Inv) (on_initialize env (record w { initialized = true }))
  unfolding on_initialize
  init-Inv w i new = ground (arith, i.fresh new)

  fails-Inv :
      (c : Context D) (w : TaskWorld D) → Inv w → Inv (record w { state = common_error; ctx = c })
  fails-Inv c w i = ground arith

  poll-Inv : (act : Bool) (w : TaskWorld D) → Inv w → Leaves Inv (poll env act w)
  unfolding poll on_poll
  poll-Inv act w i =
      Leaves-execute Inv fails-Inv (on_initialize env) (on_poll env act) init-Inv
        (λ w i. poll_in-Inv act w w.state refl i) w i

  new-Inv : (c : Context D) → Inv (new_world (initial_fields env) c [])
  unfolding new_world
  new-Inv c = ground arith

  pub resume-Inv : (c : Context D) (w : TaskWorld D) → Inv w → Inv (resume c w)
  resume-Inv c w i = ground arith

  pub run_some-Inv :
      (ps : List (Poll D)) (c : Context D) (w : TaskWorld D)
      → run (poll env) ps (new_world (initial_fields env) c []) ≡ some w
      → Inv w
  run_some-Inv ps c w ran =
      subst (LeavesSome Inv) ran (Leaves-run Inv (poll env) resume-Inv poll-Inv ps _ (new-Inv c))
