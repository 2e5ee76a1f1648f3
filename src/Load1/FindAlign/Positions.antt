-- ===== src/Load1/FindAlign/Positions.antt =====
-- Which positions CLoad1FindAlignPosTask.cpp hands on and stores, while no one else changes the positions
-- of the context.
use vision_motion_framework.Prelude.{
  ◌≡◌, refl, sym, inl, inr, ap, Bool, true, false, Option, none, some, List, [], ◌∷◌, ◌++◌, arith,
  append-nil, subst, ℤ, ◌∙◌,
}
use vision_motion_framework.Vat.Context.{
  VisionPosition, back, pop_vision_position, peek_vision_position, is_vision_position_empty,
  set_last_error, set_seq_param,
}
use vision_motion_framework.Vat.World.{Env, Log, ◌>>=◌, saved_calibration}
use vision_motion_framework.Vat.Access.{pop_position}
use vision_motion_framework.Vat.Polling.{Leaves, Leaves-bind, Started, bind-after}
use vision_motion_framework.Load1.FindAlign.{
  TaskWorld, measured, handle_move_safe_z, handle_move_origin, handle_move_calibration_xy,
  handle_move_focus_z, handle_vision_request, handle_vision_wait, put_back, finish, store, align,
  align_next, handle_save_calibration_result,
}
use vision_motion_framework.Load1.FindAlign.Travel.{put_back-ret}
use vision_motion_framework.Load1.FindAlign.Ids.{
  ids, id_of, last_id, back-last_id, LastOf, front_or, aligned_after, align-conserves, none_left,
  some_left,
}

-- Every result that was stored bears the location l.
abbrev pub AllSavedFor : {D : Type 0} → ℤ → Log D → Type 0
AllSavedFor l [] = Unit {0}
AllSavedFor l (saved_calibration camera location pkg x y ∷ es) = (location ≡ l) × AllSavedFor l es
AllSavedFor l (_ ∷ es) = AllSavedFor l es

module _ {D : Type 0} (env : Env D) (all : List ℤ) (l : ℤ) where
  pub record Inv (w : TaskWorld D) : Type 0 where
    pub conserved : ids (w.fields.aligned_positions ++ w.ctx.vision_positions) ≡ all
    pub last : last_id (ids w.ctx.vision_positions) ≡ some l
    pub aimed : w.initialized ≡ true → w.fields.location_id ≡ l
    pub saved : AllSavedFor l w.log

  module _ (act : Bool) (w : TaskWorld D) where
    pub safe_z-Inv : Inv w → Leaves Inv (handle_move_safe_z env act w)
    unfolding handle_move_safe_z set_last_error set_seq_param
    safe_z-Inv i = ground arith

    pub origin-Inv : Inv w → Leaves Inv (handle_move_origin env act w)
    unfolding handle_move_origin set_last_error set_seq_param
    origin-Inv i = ground arith

    pub calibration_xy-Inv : Inv w → Leaves Inv (handle_move_calibration_xy env act w)
    unfolding handle_move_calibration_xy set_last_error set_seq_param
    calibration_xy-Inv i = ground arith

    pub focus_z-Inv : Inv w → Leaves Inv (handle_move_focus_z env act w)
    unfolding handle_move_focus_z set_last_error set_seq_param
    focus_z-Inv i = ground arith

    pub request-Inv : Inv w → Leaves Inv (handle_vision_request env act w)
    unfolding handle_vision_request set_last_error set_seq_param
    request-Inv i = ground arith

    pub wait-Inv : Inv w → Leaves Inv (handle_vision_wait env act w)
    unfolding handle_vision_wait measured set_last_error set_seq_param
    wait-Inv i = ground arith

  store-Inv :
      (repo : Bool) (w : TaskWorld D) → Started Inv w → Leaves (Started Inv) (store env repo w)
  store-Inv repo w i = ground arith

  -- Between the pop and the rest.
  record Aligned (w : TaskWorld D) : Type 0 where
    pub old : w.initialized ≡ true
    pub conserved : ids (w.fields.aligned_positions ++ w.ctx.vision_positions) ≡ all
    pub last : LastOf l w.fields.aligned_positions w.ctx.vision_positions
    pub aimed : w.fields.location_id ≡ l
    pub saved : AllSavedFor l w.log

  pop-Aligned : (w : TaskWorld D) → Started Inv w → Leaves Aligned ((pop_position >>= align env) w)
  unfolding pop_vision_position aligned_after front_or
  pop-Aligned w (i, old) =
      let (c, e) =
        align-conserves all l w.fields.aligned_positions w.fields.target_position
          w.ctx.vision_positions i.conserved i.last in
      record { old = old; conserved = c; last = e; aimed = i.aimed old; saved = i.saved }

  all-Inv :
      (w : TaskWorld D)
      → Aligned w
      → w.ctx.vision_positions ≡ []
      → last_id (ids w.fields.aligned_positions) ≡ some l
      → Leaves Inv (finish env true w)
  all-Inv w a e last =
      let back = w.fields.aligned_positions in
      let i : Inv (record w {
        fields = (let t = w.fields in record t { aligned_positions = [] });
        ctx = (let c = w.ctx in record c { vision_positions = c.vision_positions ++ back });
      }) =
        record {
          conserved =
              ap (λ ps. ids (ps ++ back)) e
              ∙ ap ids (sym (append-nil back))
              ∙ ap (λ ps. ids (back ++ ps)) (sym e)
              ∙ a.conserved;
          last = ap (λ ps. last_id (ids (ps ++ back))) e ∙ last;
          aimed = λ old. a.aimed;
          saved = a.saved;
        } in
      subst (Leaves Inv) (sym (bind-after (put_back env back) _ w _ tt (put_back-ret env back w))) i

  peek-Inv :
      (p : Option (VisionPosition D)) (w : TaskWorld D)
      → Aligned w
      → last_id (ids w.ctx.vision_positions) ≡ some l
      → peek_vision_position w.ctx ≡ p
      → id_of p ≡ some l
      → Leaves Inv (finish env false w)
  peek-Inv none w a last e at = cc
  peek-Inv (some p) w a last e at = rw e (ground (arith, at, last, a.conserved, a.aimed, a.saved))

  finish-Inv :
      (ps : List (VisionPosition D)) (w : TaskWorld D)
      → Aligned w
      → w.ctx.vision_positions ≡ ps
      → LastOf l w.fields.aligned_positions ps
      → Leaves Inv (finish env (is_vision_position_empty w.ctx) w)
  unfolding is_vision_position_empty LastOf ids last_id peek_vision_position
  finish-Inv [] w a e (inl (_, last)) =
      subst (λ b. Leaves Inv (finish env b w)) (sym (none_left w.ctx e)) (all-Inv w a e last)
  finish-Inv [] w a e (inr last) = cc
  finish-Inv (p ∷ ps) w a e (inl (empty, _)) = cc
  finish-Inv (p ∷ ps) w a e (inr last) =
      subst (λ b. Leaves Inv (finish env b w)) (sym (some_left w.ctx p ps e))
        (peek-Inv (back w.ctx.vision_positions) w a (ap (λ ps. last_id (ids ps)) e ∙ last) refl
          (back-last_id w.ctx.vision_positions ∙ ap (λ ps. last_id (ids ps)) e ∙ last))

  align-Inv : (w : TaskWorld D) → Started Inv w → Leaves Inv (align_next env w)
  unfolding align_next pop_vision_position aligned_after front_or
  align-Inv w (i, old) =
      let (c, e) =
        align-conserves all l w.fields.aligned_positions w.fields.target_position
          w.ctx.vision_positions i.conserved i.last in
      finish-Inv _ _ (pop-Aligned w (i, old)) refl e

  pub save-Inv :
      (w : TaskWorld D) → Started Inv w → Leaves Inv (handle_save_calibration_result env w)
  unfolding handle_save_calibration_result
  save-Inv w i =
      Leaves-bind (Started Inv) Inv (store env w.ctx.repo) (λ _. align_next env) w (store-Inv _ w i)
        (λ u i. i.0) (λ a u i. align-Inv u i)
