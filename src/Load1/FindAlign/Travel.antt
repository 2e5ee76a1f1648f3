-- ===== src/Load1/FindAlign/Travel.antt =====
-- Travel in CLoad1FindAlignPosTask.cpp, over any number of polls.
use vision_motion_framework.Prelude.{
  ◌≡◌, refl, Bool, true, false, Option, none, some, List, [], ◌∷◌, ◌++◌, arith, append_assoc,
  append-nil, subst, sym,
}
use vision_motion_framework.Vat.Context.{
  Context, VisionPosition, add_vision_position, is_vision_position_empty,
}
use vision_motion_framework.Vat.World.{Env, substep, TaskState, uninitialized, common_error, ret}
use vision_motion_framework.Vat.Access.{pop_position}
use vision_motion_framework.Vat.Task.{new_world}
use vision_motion_framework.Vat.Polling.{
  Poll, run, Leaves, LeavesSome, Leaves-run, Leaves-execute, Leaves-bind, resume, Started,
}
use vision_motion_framework.Vat.Travel.{IsUp, TravelsUp}
use vision_motion_framework.Load1.FindAlign.{
  Substep, move_safe_z, move_origin, move_calibration_pos_xy, move_focus_pos_z, vision_request,
  vision_wait, save_calibration_result, initial_fields, TaskWorld, on_initialize, read_parameters,
  measured, handle_move_safe_z, handle_move_origin, handle_move_calibration_xy, handle_move_focus_z,
  handle_vision_request, handle_vision_wait, put_back, finish, store, align, align_next,
  handle_save_calibration_result, poll_in, on_poll, poll,
}

module _ {D : Type 0} (env : Env D) where
  -- The positions are added one by one, in order.
  pub put_back-ret :
      (ps : List (VisionPosition D)) (w : TaskWorld D)
      → put_back env ps w
        ≡ ret tt (record w {
          ctx = (let c = w.ctx in record c { vision_positions = c.vision_positions ++ ps });
        })
  unfolding put_back add_vision_position
  put_back-ret [] w = rw (append-nil w.ctx.vision_positions) refl
  put_back-ret (p ∷ ps) w =
      rw (put_back-ret ps _, append_assoc w.ctx.vision_positions (p ∷ []) ps) refl

  record Inv (w : TaskWorld D) : Type 0 where
    pub safe : TravelsUp env.zero w.log
    pub up : w.state ≡ substep move_calibration_pos_xy → IsUp env.zero w.log

  module _ (act : Bool) (w : TaskWorld D) where
    safe_z-Inv : Inv w → Leaves Inv (handle_move_safe_z env act w)
    unfolding handle_move_safe_z
    safe_z-Inv i = ground arith

    origin-Inv : Inv w → Leaves Inv (handle_move_origin env act w)
    unfolding handle_move_origin
    origin-Inv i = ground arith

    calibration_xy-Inv :
        Inv w → IsUp env.zero w.log → Leaves Inv (handle_move_calibration_xy env act w)
    unfolding handle_move_calibration_xy
    calibration_xy-Inv i u = ground arith

    focus_z-Inv : Inv w → Leaves Inv (handle_move_focus_z env act w)
    unfolding handle_move_focus_z
    focus_z-Inv i = ground arith

    request-Inv :
        w.state ≡ substep vision_request → Inv w → Leaves Inv (handle_vision_request env act w)
    unfolding handle_vision_request
    request-Inv e i = ground arith

    wait-Inv : w.state ≡ substep vision_wait → Inv w → Leaves Inv (handle_vision_wait env act w)
    unfolding handle_vision_wait measured
    wait-Inv e i = ground arith

  abbrev There : TaskWorld D → Type 0
  There w = (w.state ≡ substep save_calibration_result) × Inv w

  put_back-There :
      (ps : List (VisionPosition D)) (w : TaskWorld D) → There w → Leaves There (put_back env ps w)
  put_back-There ps w (e, i) =
      subst (Leaves There) (sym (put_back-ret ps w))
        (e, record { safe = i.safe; up = λ at. i.up at })

  finish-Inv : (empty : Bool) (w : TaskWorld D) → There w → Leaves Inv (finish env empty w)
  finish-Inv true w t =
      Leaves-bind There Inv (put_back env w.fields.aligned_positions) _ w (put_back-There _ w t)
        (λ u t. t.1) (λ a u t. ground (arith, t.1))
  finish-Inv false w t = ground (arith, t.1)

  store-There : (repo : Bool) (w : TaskWorld D) → There w → Leaves There (store env repo w)
  store-There repo w t = ground (arith, t.1)

  pop-There : (w : TaskWorld D) → There w → Leaves There (pop_position w)
  pop-There w (e, i) = (e, record { safe = i.safe; up = λ at. i.up at })

  align-There :
      (p : Option (VisionPosition D)) (w : TaskWorld D) → There w → Leaves There (align env p w)
  align-There p w (e, i) = (e, record { safe = i.safe; up = λ at. i.up at })

  align-Inv : (w : TaskWorld D) → There w → Leaves Inv (align_next env w)
  unfolding align_next
  align-Inv w t =
      Leaves-bind There Inv pop_position _ w (pop-There w t) (λ u t. t.1)
        (λ p u t.
          Leaves-bind There Inv (align env p) _ u (align-There p u t) (λ u t. t.1)
            (λ a v t. finish-Inv (is_vision_position_empty v.ctx) v t))

  save-Inv : (w : TaskWorld D) → There w → Leaves Inv (handle_save_calibration_result env w)
  unfolding handle_save_calibration_result
  save-Inv w t =
      Leaves-bind There Inv (store env w.ctx.repo) (λ _. align_next env) w (store-There _ w t)
        (λ u t. t.1) (λ a u t. align-Inv u t)

  poll_in-Inv :
      (act : Bool) (w : TaskWorld D) (s : TaskState Substep)
      → w.state ≡ s
      → Inv w
      → Leaves Inv (poll_in env act s w)
  poll_in-Inv act w (substep move_safe_z) e i = safe_z-Inv act w i
  poll_in-Inv act w (substep move_origin) e i = origin-Inv act w i
  poll_in-Inv act w (substep move_calibration_pos_xy) e i = calibration_xy-Inv act w i (i.up e)
  poll_in-Inv act w (substep move_focus_pos_z) e i = focus_z-Inv act w i
  poll_in-Inv act w (substep vision_request) e i = request-Inv act w e i
  poll_in-Inv act w (substep vision_wait) e i = wait-Inv act w e i
  poll_in-Inv act w (substep save_calibration_result) e i = save-Inv w (e, i)
  poll_in-Inv act w uninitialized e i = i
  poll_in-Inv act w common_error e i = i

  init-Inv :
      (w : TaskWorld D)
      → Inv w
      → Leaves (Started Inv) (on_initialize env (record w { initialized = true }))
  unfolding on_initialize read_parameters
  init-Inv w i = ground arith

  fails-Inv :
      (c : Context D) (w : TaskWorld D) → Inv w → Inv (record w { state = common_error; ctx = c })
  fails-Inv c w i = ground arith

  poll-Inv : (act : Bool) (w : TaskWorld D) → Inv w → Leaves Inv (poll env act w)
  unfolding poll on_poll
  poll-Inv act w i =
      Leaves-execute Inv fails-Inv (on_initialize env) (on_poll env act) (λ w i _. init-Inv w i)
        (λ w i. poll_in-Inv act w w.state refl i.0) w i

  new-Inv : (c : Context D) → Inv (new_world initial_fields c [])
  unfolding new_world
  new-Inv c = ground arith

  resume-Inv : (c : Context D) (w : TaskWorld D) → Inv w → Inv (resume c w)
  resume-Inv c w i = ground arith

  -- However often the aligning task was polled and whatever it was answered, no command to travel in the
  -- plane was given unless the actuator had confirmed the height 0 and the tool had not been sent up or
  -- down since.
  align_run-TravelsUp :
      (ps : List (Poll D)) (c : Context D)
      → LeavesSome
          (λ w. TravelsUp env.zero w.log)
          (run (poll env) ps (new_world initial_fields c []))
  align_run-TravelsUp ps c =
      weaken (run (poll env) ps (new_world initial_fields c []))
        (Leaves-run Inv (poll env) resume-Inv poll-Inv ps _ (new-Inv c))
    where
      weaken :
          (o : Option (TaskWorld D))
          → LeavesSome Inv o
          → LeavesSome (λ w. TravelsUp env.zero w.log) o
      weaken none l = tt
      weaken (some w) l = l.safe
