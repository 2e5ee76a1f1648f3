-- ===== src/Load1/HandPitch/Results.antt =====
-- What CLoad1PerformHandPitchScanningTask.cpp leaves when it ends.
use vision_motion_framework.Prelude.{
  ◌≡◌, refl, ◌≢◌, inl, inr, ◌*◌, Bool, true, false, some, List, [], length, arith, subst, pos, ℤ,
}
use vision_motion_framework.Vat.Context.{Context, get_param_as, convert}
use vision_motion_framework.Vat.World.{Env, substep, TaskState, uninitialized, common_error, ret}
use vision_motion_framework.Vat.Task.{new_world, tr_next}
use vision_motion_framework.Vat.Polling.{Poll, run, resume, Ran, execute-Ran}
use vision_motion_framework.Load1.HandPitch.{
  Substep, move_safe_z, move_origin, move_hand_pitch, move_focus_position_z, vision_request,
  vision_wait, return_home, save_hand_pitch_result, TaskWorld, initial_fields, on_initialize,
  handle_move_safe_z, handle_move_origin, handle_move_hand_pitch, handle_move_focus_position_z,
  handle_vision_request, keep_offset_at, measured, handle_vision_wait, handle_return_home,
  handle_save_hand_pitch_result, save_results, poll_in, on_poll, poll,
}
use vision_motion_framework.Load1.HandPitch.Offsets.{save_rows-with_results, with_results}
use vision_motion_framework.Load1.HandPitch.Places.{places, targets}
use vision_motion_framework.Load1.HandPitch.Readings.{read_offsets, offsets}
use vision_motion_framework.Load1.HandPitch.Visited.{Inv}
use vision_motion_framework.Load1.HandPitch.Polls.{resume-Inv, run_some-Inv}

module _ {D : Type 0} (env : Env D) where
  -- The parameters that the results bear.
  abbrev pub hand_of : Context D → ℤ
  hand_of c = get_param_as (convert env.parse_int) "HandID" (pos 0) c.seq_params

  abbrev pub package_of : Context D → ℤ
  package_of c = get_param_as (convert env.parse_int) "PkgID" (pos 0) c.seq_params

  -- What a poll that ends the task has behind it, and what it does.
  pub record IsPitchScanned (c : Context D) (w w' : TaskWorld D) : Type 0 where
    pub count : length w.fields.scan_points ≡ 4 * w.fields.picker_max_row
    pub visited : places env w.log ≡ targets w.fields.scan_points (length w.fields.scan_points)
    pub read : read_offsets env w.log ≡ offsets w.fields.scan_points (length w.fields.scan_points)
    pub stored :
        w'.log
        ≡ with_results env (hand_of c) (package_of c) w.fields w.fields.picker_max_row 0 w.log

  module _ (act : Bool) (w w' : TaskWorld D) where
    safe_z-next : handle_move_safe_z env act w ≢ ret tr_next w'
    unfolding handle_move_safe_z
    safe_z-next e = ground arith

    origin-next : handle_move_origin env act w ≢ ret tr_next w'
    unfolding handle_move_origin
    origin-next e = ground arith

    hand_pitch-next : handle_move_hand_pitch env act w ≢ ret tr_next w'
    unfolding handle_move_hand_pitch
    hand_pitch-next e = ground arith

    focus_z-next : handle_move_focus_position_z env act w ≢ ret tr_next w'
    unfolding handle_move_focus_position_z
    focus_z-next e = ground arith

    request-next : handle_vision_request env act w ≢ ret tr_next w'
    unfolding handle_vision_request
    request-next e = ground arith

    wait-next : handle_vision_wait env act w ≢ ret tr_next w'
    unfolding handle_vision_wait measured keep_offset_at
    wait-next e = ground arith

    home-next : handle_return_home env act w ≢ ret tr_next w'
    unfolding handle_return_home
    home-next e = ground arith

  save-IsPitchScanned :
      (w w' : TaskWorld D) (repo : Bool)
      → w.state ≡ substep save_hand_pitch_result
      → Inv env w
      → save_results env repo w ≡ ret tr_next w'
      → IsPitchScanned w.ctx w w'
  unfolding save_results
  save-IsPitchScanned w w' false at i e = ground arith
  save-IsPitchScanned w w' true at i e = ground (
    arith,
    e,
    save_rows-with_results env (hand_of w.ctx) (package_of w.ctx) w.fields.picker_max_row 0 w,
  )

  poll_in-IsPitchScanned :
      (act : Bool) (w : TaskWorld D) (s : TaskState Substep) (w' : TaskWorld D)
      → w.state ≡ s
      → Inv env w
      → poll_in env act s w ≡ ret tr_next w'
      → IsPitchScanned w.ctx w w'
  unfolding handle_save_hand_pitch_result
  poll_in-IsPitchScanned act w (substep move_safe_z) w' at i e = absurd (safe_z-next act w w' e)
  poll_in-IsPitchScanned act w (substep move_origin) w' at i e = absurd (origin-next act w w' e)
  poll_in-IsPitchScanned act w (substep move_hand_pitch) w' at i e =
      absurd (hand_pitch-next act w w' e)
  poll_in-IsPitchScanned act w (substep move_focus_position_z) w' at i e =
      absurd (focus_z-next act w w' e)
  poll_in-IsPitchScanned act w (substep vision_request) w' at i e = absurd (request-next act w w' e)
  poll_in-IsPitchScanned act w (substep vision_wait) w' at i e = absurd (wait-next act w w' e)
  poll_in-IsPitchScanned act w (substep return_home) w' at i e = absurd (home-next act w w' e)
  poll_in-IsPitchScanned act w (substep save_hand_pitch_result) w' at i e =
      save-IsPitchScanned w w' w.ctx.repo at i e
  poll_in-IsPitchScanned act w uninitialized w' at i e = cc
  poll_in-IsPitchScanned act w common_error w' at i e = cc

  initialize-state :
      (w u : TaskWorld D) → on_initialize env w ≡ ret tt u → u.state ≡ substep move_safe_z
  unfolding on_initialize
  initialize-state w u e = ground arith

  -- A poll of the hand pitch task, after any polls, returns NEXT only behind one measurement at the place
  -- and in the pitch of each of the points, in their order, of which there are four for each row of
  -- pickers, and each point then has the offset that the vision gave in its own measurement. The poll stores
  -- two results for each row, the first and the last column's: the narrow and the wide offset of the last
  -- point of that picker, and it makes no other call.
  pub hand_pitch_next-IsPitchScanned :
      (ps : List (Poll D)) (c c' : Context D) (act : Bool) (w w' : TaskWorld D)
      → run (poll env) ps (new_world (initial_fields env) c []) ≡ some w
      → poll env act (resume c' w) ≡ ret tr_next w'
      → IsPitchScanned c' w w'
  unfolding poll on_poll
  hand_pitch_next-IsPitchScanned ps c c' act w w' ran polled =
      by_case (
        execute-Ran (on_initialize env) (on_poll env act) (resume c' w) tr_next w' (λ n. cc) polled)
    where
      i : Inv env (resume c' w)
      i = resume-Inv env c' w (run_some-Inv env ps c w ran)

      again : IsPitchScanned c' (resume c' w) w' → IsPitchScanned c' w w'
      again s = record { count = s.count; visited = s.visited; read = s.read; stored = s.stored }

      by_case :
          Ran (on_initialize env) (on_poll env act) (resume c' w) tr_next w'
          → IsPitchScanned c' w w'
      by_case (inl (old, polled)) =
          again (poll_in-IsPitchScanned act (resume c' w) w.state w' refl i polled)
      by_case (inr (u, new, init, polled)) = absurd (
          safe_z-next act u w'
            (subst (λ s. poll_in env act s u ≡ ret tr_next w') (initialize-state _ u init) polled))
