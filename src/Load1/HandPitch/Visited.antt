-- ===== src/Load1/HandPitch/Visited.antt =====
-- What holds between the polls of the task, and with it at which places CLoad1PerformHandPitchScanningTask.cpp takes its measurements.
use vision_motion_framework.Prelude.{
  ◌≡◌, ◌≤◌, refl, ◌*◌, Bool, true, false, Option, none, some, List, [], ◌∷◌, length, get_elem?,
  arith,
}
use vision_motion_framework.Vat.World.{
  Env, moved_z, substep, TaskState, uninitialized, common_error,
}
use vision_motion_framework.Vat.Polling.{Leaves}
use vision_motion_framework.Load1.HandPitch.{
  Substep, move_safe_z, move_origin, move_hand_pitch, move_focus_position_z, vision_request,
  vision_wait, return_home, save_hand_pitch_result, HandPitchScanPoint, TaskWorld,
  build_scan_points, plane, handle_move_safe_z, handle_move_origin, handle_move_hand_pitch,
  handle_move_focus_position_z, handle_vision_request, handle_return_home,
}
use vision_motion_framework.Vat.Readings.{place_of}
use vision_motion_framework.Load1.HandPitch.Readings.{read_offsets, offsets}
use vision_motion_framework.Load1.HandPitch.Places.{
  places, target_at, targets, target_at-get, length-build,
}

-- The points have been built.
abbrev is_built : TaskState Substep → Bool
is_built uninitialized = false
is_built common_error = false
is_built (substep move_safe_z) = false
is_built (substep s) = true

abbrev is_low : TaskState Substep → Bool
is_low (substep vision_request) = true
is_low (substep vision_wait) = true
is_low _ = false

abbrev is_done : TaskState Substep → Bool
is_done (substep return_home) = true
is_done (substep save_hand_pitch_result) = true
is_done _ = false

module _ {D : Type 0} (env : Env D) where
  pub record Inv (w : TaskWorld D) : Type 0 where
    pub fresh : w.initialized ≡ false → w.log ≡ []
    pub visited : places env w.log ≡ targets w.fields.scan_points w.fields.current_scan_index
    pub read : read_offsets env w.log ≡ offsets w.fields.scan_points w.fields.current_scan_index
    pub shape :
        w.fields.is_scan_points_built ≡ true
        → length w.fields.scan_points ≡ 4 * w.fields.picker_max_row
    pub unbuilt : w.fields.is_scan_points_built ≡ false → w.fields.current_scan_index ≡ 0
    pub built : is_built w.state ≡ true → w.fields.is_scan_points_built ≡ true
    pub within :
        w.fields.is_scan_points_built ≡ true
        → w.fields.current_scan_index ≤ length w.fields.scan_points
    pub aimed :
        w.state ≡ substep move_focus_position_z
        → target_at w.fields.scan_points w.fields.current_scan_index
          ≡ some (plane w.fields.current_target_position, w.fields.current_pitch_mode)
    pub low :
        is_low w.state ≡ true
        → place_of w.log ≡ target_at w.fields.scan_points w.fields.current_scan_index
    pub complete :
        is_done w.state ≡ true → w.fields.current_scan_index ≡ length w.fields.scan_points

  module _ (act : Bool) (w : TaskWorld D) (old : w.initialized ≡ true) where
    pub safe_z-Inv :
        w.state ≡ substep move_safe_z → Inv w → Leaves Inv (handle_move_safe_z env act w)
    unfolding handle_move_safe_z build_scan_points targets offsets
    safe_z-Inv e i =
        by_place (get_elem? place 0) (get_elem? place 1) (get_elem? place 2) refl refl refl
      where
        place : List D
        place = env.position (moved_z env.zero (env.move_z w.log env.zero) ∷ w.log)

        by_place :
            (a b c : Option D)
            → get_elem? place 0 ≡ a
            → get_elem? place 1 ≡ b
            → get_elem? place 2 ≡ c
            → Leaves Inv (handle_move_safe_z env act w)
        by_place none b c e₀ e₁ e₂ = ground arith
        by_place (some x) none c e₀ e₁ e₂ = ground arith
        by_place (some x) (some y) none e₀ e₁ e₂ = ground arith
        by_place (some x) (some y) (some z) e₀ e₁ e₂ = ground (
          arith,
          length-build env
              (let t = w.fields in record t { center_position = (x, y); focus_position_z = z }),
        )

    pub origin-Inv :
        w.state ≡ substep move_origin → Inv w → Leaves Inv (handle_move_origin env act w)
    unfolding handle_move_origin
    origin-Inv e i = ground arith

    pub hand_pitch-Inv :
        w.state ≡ substep move_hand_pitch → Inv w → Leaves Inv (handle_move_hand_pitch env act w)
    unfolding handle_move_hand_pitch
    hand_pitch-Inv e i = by_point (get_elem? w.fields.scan_points w.fields.current_scan_index) refl
      where
        by_point :
            (p : Option (HandPitchScanPoint D))
            → get_elem? w.fields.scan_points w.fields.current_scan_index ≡ p
            → Leaves Inv (handle_move_hand_pitch env act w)
        by_point none at = ground arith
        by_point (some p) at =
            ground (arith, target_at-get w.fields.scan_points w.fields.current_scan_index p at)

    pub focus_z-Inv :
        w.state ≡ substep move_focus_position_z
        → Inv w
        → Leaves Inv (handle_move_focus_position_z env act w)
    unfolding handle_move_focus_position_z
    focus_z-Inv e i = ground arith

    pub request-Inv :
        w.state ≡ substep vision_request → Inv w → Leaves Inv (handle_vision_request env act w)
    unfolding handle_vision_request
    request-Inv e i = ground arith

    pub home-Inv : w.state ≡ substep return_home → Inv w → Leaves Inv (handle_return_home env act w)
    unfolding handle_return_home
    home-Inv e i = ground arith
