-- ===== src/Load1/PickerFov/Results.antt =====
-- What CLoad1PerformPickerFOVScanningTask.cpp leaves in the context.
use Prim.Native.String.{String}
use vision_motion_framework.Prelude.{
  ◌≡◌, refl, ◌≢◌, inl, inr, Bool, true, false, some, List, [], ◌∷◌, arith, subst,
}
use vision_motion_framework.Vat.Context.{
  Context, StringMap, assign, get_param, get_param-assign, set_seq_param,
}
use vision_motion_framework.Vat.World.{Env, substep, ret}
use vision_motion_framework.Vat.Task.{new_world, tr_keep}
use vision_motion_framework.Vat.Polling.{Poll, run, resume, Ran, execute-Ran}
use vision_motion_framework.Vat.Travel.{TravelsUp}
use vision_motion_framework.Vat.Readings.{readings}
use vision_motion_framework.Load1.PickerFov.{
  save_result, TaskWorld, initial_fields, on_initialize, offset_delta, handle_save_result, poll_in,
  on_poll, poll,
}
use vision_motion_framework.Load1.PickerFov.Invariant.{
  center_reading, front_right_reading, Inv, resume-Inv, run_some-Inv,
}

-- The six assignments, and what is read behind them.
abbrev with_results : String → String → String → String → String → String → StringMap → StringMap
with_results a b c d e f m = assign "PickerFOVFrontRightDeltaY" f (
    assign "PickerFOVFrontRightDeltaX" e (
      assign "PickerFOVFrontRightOffsetY" d (
        assign "PickerFOVFrontRightOffsetX" c
          (assign "PickerFOVCenterOffsetY" b (assign "PickerFOVCenterOffsetX" a m)))))

with_results-read :
    (a b c d e f : String) (m : StringMap)
    → (get_param "PickerFOVCenterOffsetX" (with_results a b c d e f m) ≡ a)
      × (get_param "PickerFOVCenterOffsetY" (with_results a b c d e f m) ≡ b)
      × (get_param "PickerFOVFrontRightOffsetX" (with_results a b c d e f m) ≡ c)
      × (get_param "PickerFOVFrontRightOffsetY" (with_results a b c d e f m) ≡ d)
      × (get_param "PickerFOVFrontRightDeltaX" (with_results a b c d e f m) ≡ e)
      × (get_param "PickerFOVFrontRightDeltaY" (with_results a b c d e f m) ≡ f)
with_results-read a b c d e f m = (
  simp (get_param-assign),
  simp (get_param-assign),
  simp (get_param-assign),
  simp (get_param-assign),
  simp (get_param-assign),
  simp (get_param-assign),
)

module _ {D : Type 0} (env : Env D) where
  -- The parameters under two keys are the texts of two numbers.
  abbrev pub HasPair : Context D → String → String → D × D → Type 0
  HasPair c key_x key_y (x, y) =
      (get_param key_x c.seq_params ≡ env.format_double x)
      × (get_param key_y c.seq_params ≡ env.format_double y)

  -- Both readings have been taken, on a safe way, and are those of the task's members.
  pub record IsScanned (w : TaskWorld D) : Type 0 where
    pub taken :
        readings env w.log ≡ front_right_reading env w.fields ∷ center_reading env w.fields ∷ []
    pub safe : TravelsUp env.zero w.log

  pub record IsSaved (w : TaskWorld D) : Type 0 where
    pub scanned : IsScanned w
    pub center_saved :
        HasPair w.ctx "PickerFOVCenterOffsetX" "PickerFOVCenterOffsetY" w.fields.center_offset
    pub front_right_saved :
        HasPair w.ctx "PickerFOVFrontRightOffsetX" "PickerFOVFrontRightOffsetY"
          w.fields.front_right_offset
    pub delta_saved :
        HasPair w.ctx "PickerFOVFrontRightDeltaX" "PickerFOVFrontRightDeltaY"
          (offset_delta env w.fields.front_right_offset w.fields.center_offset)

  save-IsSaved :
      (w w' : TaskWorld D)
      → w.state ≡ substep save_result
      → Inv env w
      → handle_save_result env w ≡ ret tr_keep w'
      → IsSaved w'
  unfolding handle_save_result set_seq_param
  save-IsSaved w w' e i k =
      let t = w.fields in
      let delta = offset_delta env t.front_right_offset t.center_offset in
      let c = w.ctx in
      ground (
        arith,
        with_results-read (env.format_double t.center_offset.0)
            (env.format_double t.center_offset.1) (env.format_double t.front_right_offset.0)
            (env.format_double t.front_right_offset.1) (env.format_double delta.0)
            (env.format_double delta.1) c.seq_params,
      )

  -- A poll of the picker task that finds it, after any polls, about to save and returns KEEP has written
  -- the offset at the centre, the one at the front right and their difference, as texts, under their keys.
  -- They are the offsets of two readings that the vision gave while the actuator had confirmed the centre
  -- and the place an interval behind it, the only readings taken, and every command to travel was given
  -- at the height 0.
  pub picker_fov_keep-IsSaved :
      (ps : List (Poll D)) (c c' : Context D) (act : Bool) (w w' : TaskWorld D)
      → run (poll env) ps (new_world (initial_fields env) c []) ≡ some w
      → w.state ≡ substep save_result
      → poll env act (resume c' w) ≡ ret tr_keep w'
      → IsSaved w'
  unfolding poll on_poll
  picker_fov_keep-IsSaved ps c c' act w w' ran at polled =
      by_case (
        execute-Ran (on_initialize env) (on_poll env act) (resume c' w) tr_keep w' (λ n. cc) polled)
    where
      i : Inv env (resume c' w)
      i = resume-Inv env c' w (run_some-Inv env ps c w ran)

      not_new : w.initialized ≡ true → w.initialized ≢ false
      not_new old new = cc

      by_case : Ran (on_initialize env) (on_poll env act) (resume c' w) tr_keep w' → IsSaved w'
      by_case (inl (old, polled)) =
          save-IsSaved (resume c' w) w' at i
            (subst (λ s. poll_in env act s (resume c' w) ≡ ret tr_keep w') at polled)
      by_case (inr (u, new, init, polled)) = absurd (not_new (i.started (rw at refl)) new)
