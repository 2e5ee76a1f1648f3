-- ===== src/Load1/FovScanning/Waiting.antt =====
-- HandleVisionWait of CLoad1PerformFOVScanningTask.cpp keeps what the other handlers keep.
use Prim.Native.String.{String}
use vision_motion_framework.Prelude.{if◌then◌else◌, not, ◌≡◌, refl, Bool, true, false, arith}
use vision_motion_framework.Vat.Context.{Context, set_last_error, is_vision_position_empty}
use vision_motion_framework.Vat.World.{Env, substep, set_light_state, M, pure, ◌>>=◌, ◌>>◌}
use vision_motion_framework.Vat.Task.{when, or_fail, is_deadline_expired, TaskResult, tr_keep}
use vision_motion_framework.Vat.Access.{get_offsets, is_valid}
use vision_motion_framework.Vat.Polling.{Leaves, Leaves-bind, Started}
use vision_motion_framework.Load1.FovScanning.{
  vision_wait, TaskWorld, scan_next, go_home, go_back, go_on, before_right_side, measured,
  handle_vision_wait,
}
use vision_motion_framework.Load1.FovScanning.Invariant.{Inv}

module _ {D : Type 0} (env : Env D) where
  Waiting : TaskWorld D → Type 0
  Waiting w = Started (Inv env) w × (w.state ≡ substep vision_wait)

  module _ (act : Bool) (w : TaskWorld D) where
    next-Inv :
        Waiting w
        → before_right_side w.fields.current_scan_direction ≡ true
        → Leaves (Inv env) (scan_next env act w)
    unfolding Waiting
    next-Inv i e = ground arith

    home_next-Inv :
        Waiting w
        → before_right_side w.fields.current_scan_direction ≡ false
        → Leaves (Inv env) (go_home env act w)
    unfolding Waiting
    home_next-Inv i e = ground arith

    back-Inv : Waiting w → Leaves (Inv env) (go_back env act w)
    unfolding Waiting
    back-Inv i = ground arith

    go_on-Inv :
        (before empty : Bool)
        → before_right_side w.fields.current_scan_direction ≡ before
        → Waiting w
        → Leaves (Inv env) (go_on env act before empty w)
    go_on-Inv true empty e i = next-Inv i e
    go_on-Inv false true e i = home_next-Inv i e
    go_on-Inv false false e i = back-Inv i

  module _ (act : Bool) where
    offsets-Waiting : (w : TaskWorld D) → Waiting w → Leaves Waiting (get_offsets env w)
    unfolding Waiting
    offsets-Waiting w i = ground arith

    light-Waiting :
        (on : Bool) (w : TaskWorld D)
        → Waiting w
        → Leaves Waiting (when on (set_light_state env w.fields.camera_id false) w)
    unfolding Waiting
    light-Waiting on w i = ground arith

    decided :
        (w : TaskWorld D)
        → Waiting w
        → Leaves (Inv env) (
            go_on env act
              (before_right_side w.fields.current_scan_direction)
              (is_vision_position_empty w.ctx)
              w)
    decided w i = go_on-Inv act w _ _ refl i

    measured-Inv : (w : TaskWorld D) → Waiting w → Leaves (Inv env) (measured env act w)
    unfolding measured Waiting
    measured-Inv w i =
        Leaves-bind Waiting (Inv env) (get_offsets env) _ w (offsets-Waiting w i) (λ u r. r.0.0)
          (λ a u r. lit act u r)
      where
        lit :
            (on : Bool) (u : TaskWorld D)
            → Waiting u
            → Leaves (Inv env) (
                (when on (set_light_state env u.fields.camera_id false)
                    >> go_on env act
                        (before_right_side u.fields.current_scan_direction)
                        (is_vision_position_empty u.ctx))
                  u)
        lit true u r = go_on-Inv act _ _ _ refl (light-Waiting true u r)
        lit false u r = decided u r

    expired-Waiting : (w : TaskWorld D) → Waiting w → Leaves Waiting (is_deadline_expired env w)
    unfolding Waiting
    expired-Waiting w i = ground arith

    valid-Waiting : (w : TaskWorld D) → Waiting w → Leaves Waiting (is_valid env w)
    unfolding Waiting
    valid-Waiting w i = ground arith

    or_fail-Inv :
        (b : Bool) (message : String) (m : M (TaskWorld D) TaskResult) (w : TaskWorld D)
        → Waiting w
        → (Waiting w → Leaves (Inv env) (m w))
        → Leaves (Inv env) (or_fail b message m w)
    unfolding Waiting set_last_error
    or_fail-Inv true message m w i l = l i
    or_fail-Inv false message m w i l = ground arith

    if_measured-Inv :
        (b : Bool) (w : TaskWorld D)
        → Waiting w
        → Leaves (Inv env) ((if b then measured env act else pure tr_keep) w)
    unfolding Waiting
    if_measured-Inv true w i = measured-Inv w i
    if_measured-Inv false w i = i.0.0

    ask : M (TaskWorld D) TaskResult
    ask = is_valid env >>= λ valid. if valid then measured env act else pure tr_keep

    ask-Inv : (w : TaskWorld D) → Waiting w → Leaves (Inv env) (ask w)
    unfolding ask Waiting
    ask-Inv w i =
        Leaves-bind Waiting (Inv env) (is_valid env) _ w (valid-Waiting w i) (λ u r. r.0.0)
          λ valid u r. if_measured-Inv valid u r

    has : Context D → Bool
    has c = c.processor

    pub wait-Inv :
        (w : TaskWorld D)
        → w.state ≡ substep vision_wait
        → Started (Inv env) w
        → Leaves (Inv env) (handle_vision_wait env act w)
    unfolding handle_vision_wait Waiting ask has
    wait-Inv w e i =
        Leaves-bind Waiting (Inv env) (is_deadline_expired env) _ w (expired-Waiting w (i, e))
          (λ u r. r.0.0)
          λ expired u r.
            or_fail-Inv (not expired) _ _ u r
              λ r. or_fail-Inv (has u.ctx) "No Vision Processor" ask u r (ask-Inv u)
