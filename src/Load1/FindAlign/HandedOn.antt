-- ===== src/Load1/FindAlign/HandedOn.antt =====
-- What CLoad1FindAlignPosTask.cpp hands on and stores, over any number of polls between which no one else
-- changes the positions of the context.
use vision_motion_framework.Prelude.{
  ◌≡◌, refl, sym, ap, ◌++◌, ◌≢◌, inl, inr, Bool, true, false, Option, none, some, List, [], arith,
  subst, ◌∙◌, ℤ,
}
use vision_motion_framework.Vat.Context.{
  Context, VisionPosition, peek_vision_position, set_last_error, is_vision_position_empty,
}
use vision_motion_framework.Vat.World.{
  Env, substep, TaskState, uninitialized, common_error, ret, M, get, ◌>>=◌, ◌>>◌,
}
use vision_motion_framework.Vat.Access.{pop_position}
use vision_motion_framework.Vat.Task.{TaskResult, new_world, tr_next}
use vision_motion_framework.Vat.Polling.{
  Poll, Leaves, LeavesSome, Leaves-execute_failing, bind-ret, Started, Ran, execute-Ran,
}
use vision_motion_framework.Vat.Polling.Keeping.{run_keeping, resume_keeping, Leaves-run_keeping}
use vision_motion_framework.Load1.FindAlign.{
  Substep, move_safe_z, move_origin, move_calibration_pos_xy, move_focus_pos_z, vision_request,
  vision_wait, save_calibration_result, initial_fields, initialize_at, TaskWorld, on_initialize,
  read_parameters, measured, handle_move_safe_z, handle_move_origin, handle_move_calibration_xy,
  handle_move_focus_z, handle_vision_request, handle_vision_wait, finish, store, put_back, align,
  align_next, handle_save_calibration_result, poll_in, on_poll, poll,
}
use vision_motion_framework.Load1.FindAlign.Ids.{ids, id_of, last_id, back-last_id}
use vision_motion_framework.Load1.FindAlign.Positions.{
  Inv, AllSavedFor, safe_z-Inv, origin-Inv, calibration_xy-Inv, focus_z-Inv, request-Inv, wait-Inv,
  save-Inv,
}

module _ {D : Type 0} (env : Env D) (all : List ℤ) (l : ℤ) where
  poll_in-Inv :
      (act : Bool) (w : TaskWorld D) (s : TaskState Substep)
      → Started (Inv env all l) w
      → Leaves (Inv env all l) (poll_in env act s w)
  poll_in-Inv act w (substep move_safe_z) i = safe_z-Inv env all l act w i.0
  poll_in-Inv act w (substep move_origin) i = origin-Inv env all l act w i.0
  poll_in-Inv act w (substep move_calibration_pos_xy) i = calibration_xy-Inv env all l act w i.0
  poll_in-Inv act w (substep move_focus_pos_z) i = focus_z-Inv env all l act w i.0
  poll_in-Inv act w (substep vision_request) i = request-Inv env all l act w i.0
  poll_in-Inv act w (substep vision_wait) i = wait-Inv env all l act w i.0
  poll_in-Inv act w (substep save_calibration_result) i = save-Inv env all l w i
  poll_in-Inv act w uninitialized i = i.0
  poll_in-Inv act w common_error i = i.0

  initialize_at-Inv :
      (p : Option (VisionPosition D)) (w : TaskWorld D)
      → Inv env all l w
      → id_of p ≡ some l
      → Leaves (Started (Inv env all l)) (initialize_at env p (record w { initialized = true }))
  unfolding read_parameters
  initialize_at-Inv none w i e = cc
  initialize_at-Inv (some p) w i e = ground (arith, e)

  init-Inv :
      (w : TaskWorld D)
      → Inv env all l w
      → Leaves (Started (Inv env all l)) (on_initialize env (record w { initialized = true }))
  unfolding on_initialize peek_vision_position
  init-Inv w i =
      initialize_at-Inv (peek_vision_position w.ctx) w i
        (back-last_id w.ctx.vision_positions ∙ i.last)

  fails-Inv :
      (message : _) (w : TaskWorld D)
      → Inv env all l w
      → Inv env all l (record w { state = common_error; ctx = set_last_error message w.ctx })
  unfolding set_last_error
  fails-Inv message w i = ground arith

  poll-Inv :
      (act : Bool) (w : TaskWorld D) → Inv env all l w → Leaves (Inv env all l) (poll env act w)
  unfolding poll on_poll
  poll-Inv act w i =
      Leaves-execute_failing (Inv env all l) fails-Inv (on_initialize env) (on_poll env act)
        (λ w i _. init-Inv w i) (λ w i. poll_in-Inv act w w.state i) w i

  new-Inv :
      (c : Context D)
      → ids c.vision_positions ≡ all
      → last_id all ≡ some l
      → Inv env all l (new_world initial_fields c [])
  unfolding new_world
  new-Inv c e last = record {
    conserved = e;
    last = ap last_id e ∙ last;
    aimed = λ old. cc;
    saved = tt;
  }

  resume-Inv :
      (c : Context D) (w : TaskWorld D) → Inv env all l w → Inv env all l (resume_keeping c w)
  resume-Inv c w i = ground arith

  run-Inv :
      (ps : List (Poll D)) (c : Context D)
      → ids c.vision_positions ≡ all
      → last_id all ≡ some l
      → LeavesSome (Inv env all l) (run_keeping (poll env) ps (new_world initial_fields c []))
  run-Inv ps c e last =
      Leaves-run_keeping (Inv env all l) (poll env) resume-Inv poll-Inv ps _ (new-Inv c e last)

module _ {D : Type 0} (env : Env D) where
  module _ (act : Bool) (w w' : TaskWorld D) where
    safe_z-next : handle_move_safe_z env act w ≢ ret tr_next w'
    unfolding handle_move_safe_z
    safe_z-next e = ground arith

    origin-next : handle_move_origin env act w ≢ ret tr_next w'
    unfolding handle_move_origin
    origin-next e = ground arith

    calibration_xy-next : handle_move_calibration_xy env act w ≢ ret tr_next w'
    unfolding handle_move_calibration_xy
    calibration_xy-next e = ground arith

    focus_z-next : handle_move_focus_z env act w ≢ ret tr_next w'
    unfolding handle_move_focus_z
    focus_z-next e = ground arith

    request-next : handle_vision_request env act w ≢ ret tr_next w'
    unfolding handle_vision_request
    request-next e = ground arith

    wait-next : handle_vision_wait env act w ≢ ret tr_next w'
    unfolding handle_vision_wait measured
    wait-next e = ground arith

  finish-Empty :
      (empty : Bool) (w w' : TaskWorld D)
      → finish env empty w ≡ ret tr_next w'
      → w'.fields.aligned_positions ≡ []
  finish-Empty true w w' e =
      let (a, u, put, rest) = bind-ret (put_back env w.fields.aligned_positions) _ w _ w' e in
      cleared u rest
    where
      cleared :
          (u : TaskWorld D)
          → ret tr_next
              (record u { fields = (let t = w.fields in record t { aligned_positions = [] }) })
            ≡ ret tr_next w'
          → w'.fields.aligned_positions ≡ []
      cleared u rest = ground arith
  finish-Empty false w w' e = ground arith

  align-Empty :
      (w w' : TaskWorld D) → align_next env w ≡ ret tr_next w' → w'.fields.aligned_positions ≡ []
  unfolding align_next
  align-Empty w w' e =
      let last : M (TaskWorld D) TaskResult =
        get >>= λ w. finish env (is_vision_position_empty w.ctx) in
      let (p, u, popped, e) = bind-ret pop_position (λ p. align env p >> last) w _ w' e in
      let (a, v, aligned, e) = bind-ret (align env p) (λ _. last) u _ w' e in
      finish-Empty (is_vision_position_empty v.ctx) v w' e

  save-Empty :
      (w w' : TaskWorld D)
      → handle_save_calibration_result env w ≡ ret tr_next w'
      → w'.fields.aligned_positions ≡ []
  unfolding handle_save_calibration_result
  save-Empty w w' e =
      let (a, u, stored, rest) = bind-ret (store env w.ctx.repo) (λ _. align_next env) w _ w' e in
      align-Empty u w' rest

  poll_in-Empty :
      (act : Bool) (w : TaskWorld D) (s : TaskState Substep) (w' : TaskWorld D)
      → poll_in env act s w ≡ ret tr_next w'
      → w'.fields.aligned_positions ≡ []
  poll_in-Empty act w (substep move_safe_z) w' e = absurd (safe_z-next act w w' e)
  poll_in-Empty act w (substep move_origin) w' e = absurd (origin-next act w w' e)
  poll_in-Empty act w (substep move_calibration_pos_xy) w' e =
      absurd (calibration_xy-next act w w' e)
  poll_in-Empty act w (substep move_focus_pos_z) w' e = absurd (focus_z-next act w w' e)
  poll_in-Empty act w (substep vision_request) w' e = absurd (request-next act w w' e)
  poll_in-Empty act w (substep vision_wait) w' e = absurd (wait-next act w w' e)
  poll_in-Empty act w (substep save_calibration_result) w' e = save-Empty w w' e
  poll_in-Empty act w uninitialized w' e = cc
  poll_in-Empty act w common_error w' e = cc

  Ran-Empty :
      (act : Bool) (w w' : TaskWorld D)
      → Ran (on_initialize env) (on_poll env act) w tr_next w'
      → w'.fields.aligned_positions ≡ []
  unfolding on_poll
  Ran-Empty act w w' (inl (old, polled)) = poll_in-Empty act w w.state w' polled
  Ran-Empty act w w' (inr (u, new, init, polled)) = poll_in-Empty act u u.state w' polled

  -- While no one else changes the positions of the context, of which there is one at least, a poll of the
  -- aligning task, after any polls, that returns NEXT has put all positions back: the context has the
  -- positions of the same locations, in the same order, as at the start.
  pub align_next-ids :
      (ps : List (Poll D)) (c c' : Context D) (act : Bool) (l : ℤ) (w w' : TaskWorld D)
      → last_id (ids c.vision_positions) ≡ some l
      → run_keeping (poll env) ps (new_world initial_fields c []) ≡ some w
      → poll env act (resume_keeping c' w) ≡ ret tr_next w'
      → ids w'.ctx.vision_positions ≡ ids c.vision_positions
  unfolding poll
  align_next-ids ps c c' act l w w' last ran polled =
      let i = subst (LeavesSome (Inv env _ l)) ran (run-Inv env _ l ps c refl last) in
      let j = poll-Inv env _ l act _ (resume-Inv env _ l c' w i) in
      let empty =
        Ran-Empty act _ w'
          (execute-Ran (on_initialize env) (on_poll env act) _ tr_next w' (λ n. cc) polled) in
      let k : Inv env (ids c.vision_positions) l w' = subst (Leaves (Inv env _ l)) polled j in
      ap (λ ps. ids (ps ++ w'.ctx.vision_positions)) (sym empty) ∙ k.conserved

  -- While no one else changes the positions of the context, of which there is one at least, every result
  -- that the aligning task stores bears the location of the last position: no other location is ever
  -- stored.
  pub align_run-AllSavedFor :
      (ps : List (Poll D)) (c : Context D) (l : ℤ)
      → last_id (ids c.vision_positions) ≡ some l
      → LeavesSome
          (λ w. AllSavedFor l w.log)
          (run_keeping (poll env) ps (new_world initial_fields c []))
  align_run-AllSavedFor ps c l last =
      weaken (run_keeping (poll env) ps (new_world initial_fields c []))
        (run-Inv env _ l ps c refl last)
    where
      weaken :
          (o : Option (TaskWorld D))
          → LeavesSome (Inv env (ids c.vision_positions) l) o
          → LeavesSome (λ w. AllSavedFor l w.log) o
      weaken none i = tt
      weaken (some w) i = i.saved
