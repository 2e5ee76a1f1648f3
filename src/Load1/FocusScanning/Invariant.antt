-- ===== src/Load1/FocusScanning/Invariant.antt =====
-- What the handlers of CLoad1PerformFocusScanningTask.cpp keep true between two polls.
use vision_motion_framework.Prelude.{
  ◌≡◌, Bool, true, false, Option, none, some, List, [], ◌∷◌, arith, ℤ,
}
use vision_motion_framework.Vat.Context.{
  VisionPosition, is_vision_position_empty, pop_vision_position,
}
use vision_motion_framework.Vat.World.{Env, substep, logged, loaded_group, M}
use vision_motion_framework.Vat.Task.{TaskResult, set_error_and_return}
use vision_motion_framework.Vat.Polling.{
  Leaves, Leaves-bind, Leaves-or_fail, Leaves-given_or_fail, Leaves-deref,
}
use vision_motion_framework.Load1.FocusScanning.{
  move_down, move_wait, vision_request, vision_wait, return_home, save_focus_result, TaskWorld,
  handle_move_down, handle_move_wait, handle_vision_request, handle_vision_wait, handle_return_home,
  handle_save_focus_result, save_focus, save_location, save_locations, save_targets, save_results,
  save_height, save_position, save_popped, unless_failed, after_saving, next_or_again,
}
use vision_motion_framework.Load1.FocusScanning.Stages.{IsLowered, IsAsked, IsAnswered, IsSentBack}

module _ {D : Type 0} (env : Env D) where
  pub record Inv (w : TaskWorld D) : Type 0 where
    pub lowered : w.state ≡ substep vision_request → IsLowered w.log
    pub asked : w.state ≡ substep vision_wait → IsAsked w.log
    pub answered : w.state ≡ substep return_home → IsAnswered w.log
    pub sent_back : w.state ≡ substep save_focus_result → IsSentBack env.zero w.log

  module _ (act : Bool) (w : TaskWorld D) where
    pub down-Inv : w.state ≡ substep move_down → Inv w → Leaves Inv (handle_move_down env act w)
    unfolding handle_move_down
    down-Inv e i = ground arith

    pub wait-Inv : w.state ≡ substep move_wait → Inv w → Leaves Inv (handle_move_wait env act w)
    unfolding handle_move_wait
    wait-Inv e i = ground arith

    pub request-Inv :
        w.state ≡ substep vision_request → Inv w → Leaves Inv (handle_vision_request env act w)
    unfolding handle_vision_request
    request-Inv e i = ground arith

    pub vision-Inv :
        w.state ≡ substep vision_wait → Inv w → Leaves Inv (handle_vision_wait env act w)
    unfolding handle_vision_wait
    vision-Inv e i = ground arith

    pub home-Inv : w.state ≡ substep return_home → Inv w → Leaves Inv (handle_return_home env act w)
    unfolding handle_return_home
    home-Inv e i = ground arith

  -- The object while it stores.
  record Storing (w : TaskWorld D) : Type 0 where
    pub there : w.state ≡ substep save_focus_result
    pub sent : IsSentBack env.zero w.log

  Storing-Inv : (w : TaskWorld D) → Storing w → Inv w
  Storing-Inv w s = ground arith

  module _ (camera pkg : ℤ) where
    focus-Storing :
        (z : D) (location : ℤ) (w : TaskWorld D)
        → Storing w
        → Leaves Storing (save_focus env camera location pkg z w)
    unfolding save_focus
    focus-Storing z location w s = ground arith

    location-Storing :
        (z : D) (location : ℤ) (w : TaskWorld D)
        → Storing w
        → Leaves Storing (save_location env camera pkg z location w)
    unfolding save_location save_focus
    location-Storing z location w s = ground arith

    unless-Storing :
        (rest : M (TaskWorld D) _) (o : Option _) (w : TaskWorld D)
        → ((w : TaskWorld D) → Storing w → Leaves Storing (rest w))
        → Storing w
        → Leaves Storing (unless_failed env rest o w)
    unless-Storing rest none w more s = more w s
    unless-Storing rest (some t) w more s = s

    locations-Storing :
        (z : D) (locations : List ℤ) (w : TaskWorld D)
        → Storing w
        → Leaves Storing (save_locations env camera pkg z locations w)
    unfolding save_locations
    locations-Storing z [] w s = s
    locations-Storing z (location ∷ locations) w s =
        Leaves-bind Storing Storing (save_location env camera pkg z location) _ w
          (location-Storing z location w s) (λ u s. s)
          (λ o u s. unless-Storing _ o u (locations-Storing z locations) s)

    targets-Storing :
        (above : Bool) (z : D) (w : TaskWorld D)
        → Storing w
        → Leaves Storing (save_targets env above camera pkg z w)
    unfolding save_targets save_focus
    targets-Storing false z w s = s
    targets-Storing true z w s = ground arith

  after-Inv :
      (rest : M (TaskWorld D) TaskResult) (o : Option _) (w : TaskWorld D)
      → ((w : TaskWorld D) → Storing w → Leaves Inv (rest w))
      → Storing w
      → Leaves Inv (after_saving env o rest w)
  after-Inv rest none w more s = more w s
  after-Inv rest (some t) w more s = ground arith

  next-Inv : (empty : Bool) (w : TaskWorld D) → Storing w → Leaves Inv (next_or_again env empty w)
  next-Inv empty w s = ground arith

  results-Inv :
      (z : D) (group : List ℤ) (w : TaskWorld D)
      → Storing w
      → Leaves Inv (save_results env z group w)
  unfolding save_results
  results-Inv z group w s =
      let w₁ = record w { fields = (let t = w.fields in record t { location_ids = group }) } in
      Leaves-bind Storing Inv (save_targets env _ _ _ z) _ w₁
        (targets-Storing _ _ _ z w₁ (record { there = s.there; sent = s.sent })) Storing-Inv
        (λ o u s.
          after-Inv _ o u
            (λ u s.
              Leaves-bind Storing Inv (save_locations env _ _ z group) _ u
                (locations-Storing _ _ z group u s) Storing-Inv
                (λ o v s. after-Inv _ o v (λ v s. next-Inv (is_vision_position_empty v.ctx) v s) s))
            s)

  failed-Inv : (message : _) (w : TaskWorld D) → Leaves Inv (set_error_and_return message w)
  failed-Inv message w = ground arith

  height-Inv : (z : D) (w : TaskWorld D) → Storing w → Leaves Inv (save_height env z w)
  unfolding save_height
  height-Inv z w s =
      let answer = env.load_group w.log w.fields.camera_id in
      let u = logged (loaded_group w.fields.camera_id answer) w in
      Leaves-given_or_fail Inv _ u (failed-Inv _ u) answer (save_results env z)
        (λ group. results-Inv z group u (record { there = s.there; sent = s.sent }))

  position-Inv :
      (p : VisionPosition D) (w : TaskWorld D) → Storing w → Leaves Inv (save_position env p w)
  unfolding save_position
  position-Inv p w s = Leaves-deref Inv _ (save_height env) w (λ z. height-Inv z w s)

  pub save-Inv :
      (w : TaskWorld D)
      → w.state ≡ substep save_focus_result
      → Inv w
      → Leaves Inv (handle_save_focus_result env w)
  unfolding handle_save_focus_result save_popped
  save-Inv w e i =
      let (popped, c) = pop_vision_position w.ctx in
      let u = record w { ctx = c } in
      Leaves-or_fail Inv _ w (failed-Inv _ w) _ (save_popped env) (
        Leaves-given_or_fail Inv _ u (failed-Inv _ u) popped (save_position env)
          (λ p. position-Inv p u (record { there = e; sent = i.sent_back e })))
