-- ===== src/Load1/PcdScanning/HandedOn.antt =====
-- What CLoad1PerformPCDScanningTask.cpp leaves to the tasks before it when it sends the sequence back.
use vision_motion_framework.Prelude.{
  ◌≡◌, refl, ◌≢◌, ◌⊎◌, inl, inr, Bool, true, false, Option, none, some, List, [], ◌∷◌, ◌++◌, set,
  get_elem?, pos, ltb_ℤ, arith, subst,
}
use vision_motion_framework.Vat.Context.{
  VisionPosition, back, front, behind, peek_vision_position, pop_vision_position,
  add_vision_position,
}
use vision_motion_framework.Vat.World.{Env, substep, TaskState, uninitialized, common_error, ret}
use vision_motion_framework.Vat.Task.{tr_prev}
use vision_motion_framework.Vat.Polling.{Ran, execute-Ran}
use vision_motion_framework.Load1.FindAlign.{no_position, position_or}
use vision_motion_framework.Load1.PcdScanning.{
  Substep, move_safe_z, move_origin, move_target_position_xy, move_focus_position_z, vision_request,
  vision_wait, calculate_pcd, save_pcd_result, TaskWorld, on_initialize, measured, read_pulse,
  handle_move_safe_z, handle_move_origin, handle_move_target_position_xy,
  handle_move_focus_position_z, handle_vision_request, handle_vision_wait, handle_calculate_pcd,
  handle_save_pcd_result, poll_in, on_poll, poll, shifted,
}
use vision_motion_framework.Load1.PcdScanning.Pulses.{LastPulse}

-- A position whose first two coordinates are the place.
abbrev pub StandsAt : {D : Type 0} → D × D → Option (VisionPosition D) → Type 0
StandsAt (x, y) none = ⊥
StandsAt (x, y) (some p) = (get_elem? p.pos 0 ≡ some x) × (get_elem? p.pos 1 ≡ some y)

module _ {D : Type 0} where
  back-append :
      (ps : List (VisionPosition D)) (p : VisionPosition D) → back (ps ++ (p ∷ [])) ≡ some p
  unfolding back
  back-append [] p = refl
  back-append (q ∷ []) p = refl
  back-append (q ∷ (r ∷ ps)) p = back-append (r ∷ ps) p

  -- Unless the position has fewer than two coordinates.
  set-StandsAt :
      (ps : List (VisionPosition D)) (p : VisionPosition D) (place : D × D)
      → (get_elem? p.pos 0 ≡ none)
        ⊎ ((get_elem? p.pos 1 ≡ none)
            ⊎ StandsAt place
                (back (ps ++ (record p { pos = set (set p.pos 0 place.0) 1 place.1 } ∷ []))))
  set-StandsAt ps p (x, y) = by_places p.pos refl
    where
      by_places :
          (zs : List D)
          → p.pos ≡ zs
          → (get_elem? p.pos 0 ≡ none)
            ⊎ ((get_elem? p.pos 1 ≡ none)
                ⊎ StandsAt (x, y) (back (ps ++ (record p { pos = set (set p.pos 0 x) 1 y } ∷ []))))
      by_places [] e = inl (rw e refl)
      by_places (z ∷ []) e = inr (inl (rw e refl))
      by_places (z ∷ (z' ∷ zs)) e =
          inr
            (inr (rw (back-append ps (record p { pos = set (set p.pos 0 x) 1 y }), e) (refl, refl)))

  module _ (env : Env D) where
    pub record IsHandedOn (w w' : TaskWorld D) : Type 0 where
      pub inspected : ltb_ℤ (pos w.fields.inspection_count) w.fields.max_inspection_count ≡ false
      pub first : w.fields.is_start_offset_measured ≡ false
      pub once : w'.fields.is_start_offset_measured ≡ true
      pub recounted : w'.fields.inspection_count ≡ 0
      pub asks_again : w'.state ≡ substep vision_request
      pub read : LastPulse w'.fields.scan_axis w'.fields.start_axis_pulse w'.log
      pub target :
          w'.fields.target_position
          ≡ shifted env w.fields.scan_axis w.fields.target_position w.fields.scan_pitch
      pub place : StandsAt w'.fields.target_position (peek_vision_position w'.ctx)

    module _ (act : Bool) (w w' : TaskWorld D) where
      safe_z-prev : handle_move_safe_z env act w ≢ ret tr_prev w'
      unfolding handle_move_safe_z
      safe_z-prev e = ground arith

      origin-prev : handle_move_origin env act w ≢ ret tr_prev w'
      unfolding handle_move_origin
      origin-prev e = ground arith

      target_xy-prev : handle_move_target_position_xy env act w ≢ ret tr_prev w'
      unfolding handle_move_target_position_xy
      target_xy-prev e = ground arith

      focus_z-prev : handle_move_focus_position_z env act w ≢ ret tr_prev w'
      unfolding handle_move_focus_position_z
      focus_z-prev e = ground arith

      request-prev : handle_vision_request env act w ≢ ret tr_prev w'
      unfolding handle_vision_request
      request-prev e = ground arith

      calculate-prev : handle_calculate_pcd env w ≢ ret tr_prev w'
      unfolding handle_calculate_pcd
      calculate-prev e = ground arith

      save-prev : handle_save_pcd_result env w ≢ ret tr_prev w'
      save-prev e = ground arith

      wait-inspected :
          handle_vision_wait env act w ≡ ret tr_prev w'
          → (ltb_ℤ (pos w.fields.inspection_count) w.fields.max_inspection_count ≡ false)
            × (w.fields.is_start_offset_measured ≡ false)
      unfolding handle_vision_wait measured read_pulse
      wait-inspected e = ground arith

      wait-counts :
          handle_vision_wait env act w ≡ ret tr_prev w'
          → (w'.fields.is_start_offset_measured ≡ true) × (w'.fields.inspection_count ≡ 0)
      unfolding handle_vision_wait measured read_pulse
      wait-counts e = ground arith

      wait-asks : handle_vision_wait env act w ≡ ret tr_prev w' → w'.state ≡ substep vision_request
      unfolding handle_vision_wait measured read_pulse
      wait-asks e = ground arith

      wait-reads :
          handle_vision_wait env act w ≡ ret tr_prev w'
          → LastPulse w'.fields.scan_axis w'.fields.start_axis_pulse w'.log
      unfolding handle_vision_wait measured read_pulse
      wait-reads e = ground arith

      wait-moves :
          handle_vision_wait env act w ≡ ret tr_prev w'
          → (w'.fields.target_position
              ≡ shifted env w.fields.scan_axis w.fields.target_position w.fields.scan_pitch)
            × StandsAt w'.fields.target_position (peek_vision_position w'.ctx)
      unfolding handle_vision_wait measured read_pulse peek_vision_position pop_vision_position
          add_vision_position
      wait-moves e = ground (
        arith,
        set-StandsAt (behind w.ctx.vision_positions)
            (position_or (front w.ctx.vision_positions) no_position)
            (shifted env w.fields.scan_axis w.fields.target_position w.fields.scan_pitch),
      )

      wait-IsHandedOn : handle_vision_wait env act w ≡ ret tr_prev w' → IsHandedOn w w'
      wait-IsHandedOn e =
          let i = wait-inspected e in
          let c = wait-counts e in
          let m = wait-moves e in
          record {
            inspected = i.0;
            first = i.1;
            once = c.0;
            recounted = c.1;
            asks_again = wait-asks e;
            read = wait-reads e;
            target = m.0;
            place = m.1;
          }

    poll_in-IsHandedOn :
        (act : Bool) (w : TaskWorld D) (s : TaskState Substep) (w' : TaskWorld D)
        → poll_in env act s w ≡ ret tr_prev w'
        → IsHandedOn w w'
    poll_in-IsHandedOn act w (substep move_safe_z) w' e = absurd (safe_z-prev act w w' e)
    poll_in-IsHandedOn act w (substep move_origin) w' e = absurd (origin-prev act w w' e)
    poll_in-IsHandedOn act w (substep move_target_position_xy) w' e =
        absurd (target_xy-prev act w w' e)
    poll_in-IsHandedOn act w (substep move_focus_position_z) w' e = absurd (focus_z-prev act w w' e)
    poll_in-IsHandedOn act w (substep vision_request) w' e = absurd (request-prev act w w' e)
    poll_in-IsHandedOn act w (substep vision_wait) w' e = wait-IsHandedOn act w w' e
    poll_in-IsHandedOn act w (substep calculate_pcd) w' e = absurd (calculate-prev act w w' e)
    poll_in-IsHandedOn act w (substep save_pcd_result) w' e = absurd (save-prev act w w' e)
    poll_in-IsHandedOn act w uninitialized w' e = cc
    poll_in-IsHandedOn act w common_error w' e = cc

    initialize-state :
        (w u : TaskWorld D) → on_initialize env w ≡ ret tt u → u.state ≡ substep vision_request
    unfolding on_initialize
    initialize-state w u e = ground arith

    -- A poll of the pitch task returns PREV only when all inspections of the first mark have been made and
    -- its pulse had not been kept before: the pulse of the scanned axis in the last reading is kept as the
    -- start's, the target is moved by the pitch along that axis, and it is the place of the last position of
    -- the context, which the tasks before this one travel to.
    pub pcd_prev-IsHandedOn :
        (act : Bool) (w w' : TaskWorld D) → poll env act w ≡ ret tr_prev w' → IsHandedOn w w'
    unfolding poll on_poll
    pcd_prev-IsHandedOn act w w' polled =
        by_case (execute-Ran (on_initialize env) (on_poll env act) w tr_prev w' (λ n. cc) polled)
      where
        by_case : Ran (on_initialize env) (on_poll env act) w tr_prev w' → IsHandedOn w w'
        by_case (inl (old, polled)) = poll_in-IsHandedOn act w w.state w' polled
        by_case (inr (u, new, init, polled)) = absurd (
            request-prev act u w' (
              subst (λ s. poll_in env act s u ≡ ret tr_prev w') (initialize-state _ u init) polled))
