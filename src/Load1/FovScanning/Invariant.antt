-- ===== src/Load1/FovScanning/Invariant.antt =====
-- What the handlers of CLoad1PerformFOVScanningTask.cpp keep true between two polls.
use vision_motion_framework.Prelude.{
  ℕ, ◌<◌, ◌≡◌, refl, ap, ◌⊎◌, Bool, true, false, List, [], ◌∷◌, arith,
}
use vision_motion_framework.Vat.World.{Env, Log, requested, substep}
use vision_motion_framework.Vat.Polling.{Leaves, Leaves-bind, Started}
use vision_motion_framework.Vat.Travel.{IsUp, TravelsUp, IsAt}
use vision_motion_framework.Load1.FovScanning.{
  move_safe_z, move_origin, move_scan_position, move_focus_position_z, vision_request, vision_wait,
  return_home, FovDirection, center, rear, front, left_side, right_side, is_center, Fields,
  TaskWorld, target_xy, take_center, lift, handle_move_safe_z, handle_move_origin,
  handle_move_scan_position, handle_move_focus_position_z, handle_vision_request,
  handle_return_home,
}

-- A vision request was accepted while the tool was confirmed at the place p and at the height z.
abbrev pub MeasuredAt : {D : Type 0} → List D → D → Log D → Type 0
MeasuredAt p z [] = ⊥
MeasuredAt p z (requested c ps true ∷ es) = (IsAt p es × IsUp z es) ⊎ MeasuredAt p z es
MeasuredAt p z (_ ∷ es) = MeasuredAt p z es

module _ {D : Type 0} (env : Env D) where
  abbrev pub place : FovDirection → Fields D → List D
  place center t = t.center_position_x ∷ t.center_position_y ∷ []
  place rear t = t.center_position_x ∷ env.add t.center_position_y t.fov_interval ∷ []
  place front t = t.center_position_x ∷ env.sub t.center_position_y t.fov_interval ∷ []
  place left_side t = env.sub t.center_position_x t.fov_interval ∷ t.center_position_y ∷ []
  place right_side t = env.add t.center_position_x t.fov_interval ∷ t.center_position_y ∷ []

  abbrev pub Measured : FovDirection → TaskWorld D → Type 0
  Measured d w = MeasuredAt (place d w.fields) w.fields.focus_position_z w.log

  abbrev pub index : FovDirection → ℕ
  index center = 0
  index rear = 1
  index front = 2
  index left_side = 3
  index right_side = 4

  abbrev pub All : TaskWorld D → Type 0
  All w = Measured rear w × Measured front w × Measured left_side w × Measured right_side w

  pub record Inv (w : TaskWorld D) : Type 0 where
    pub safe : TravelsUp env.zero w.log
    pub rear_done : 1 < index w.fields.current_scan_direction → Measured rear w
    pub front_done : 2 < index w.fields.current_scan_direction → Measured front w
    pub left_done : 3 < index w.fields.current_scan_direction → Measured left_side w
    pub up : w.state ≡ substep move_scan_position → IsUp env.zero w.log
    pub off_center :
        (w.state ≡ substep move_origin)
          ⊎ (w.state ≡ substep move_scan_position)
          ⊎ (w.state ≡ substep move_focus_position_z)
        → is_center w.fields.current_scan_direction ≡ false
    pub aimed :
        w.state ≡ substep move_focus_position_z
        → target_xy env w.fields ≡ place w.fields.current_scan_direction w.fields
    pub placed :
        w.state ≡ substep vision_request
        → is_center w.fields.current_scan_direction ≡ false
        → IsAt (place w.fields.current_scan_direction w.fields) w.log
    pub asked :
        w.state ≡ substep vision_wait
        → is_center w.fields.current_scan_direction ≡ false
        → Measured w.fields.current_scan_direction w
    pub complete : w.state ≡ substep return_home → All w

  Ready : TaskWorld D → Type 0
  Ready w =
      Started Inv w
      × (w.state ≡ substep move_safe_z)
      × (is_center w.fields.current_scan_direction ≡ false)

  take_center-Ready :
      (d : FovDirection) (w : TaskWorld D)
      → w.fields.current_scan_direction ≡ d
      → w.state ≡ substep move_safe_z
      → Started Inv w
      → Leaves Ready (take_center env d w)
  unfolding Ready
  take_center-Ready center w e at i = ground arith
  take_center-Ready rear w e at i = (i, at, ap is_center e)
  take_center-Ready front w e at i = (i, at, ap is_center e)
  take_center-Ready left_side w e at i = (i, at, ap is_center e)
  take_center-Ready right_side w e at i = (i, at, ap is_center e)

  lift-Inv : (w : TaskWorld D) → Ready w → Leaves Inv (lift env w)
  unfolding Ready lift
  lift-Inv w i = ground arith

  module _ (act : Bool) (w : TaskWorld D) where
    pub safe_z-Inv :
        w.state ≡ substep move_safe_z → Started Inv w → Leaves Inv (handle_move_safe_z env act w)
    unfolding handle_move_safe_z Ready
    safe_z-Inv at i = go act
      where
        go : (act : Bool) → Leaves Inv (handle_move_safe_z env act w)
        go false = ground arith
        go true =
            Leaves-bind Ready Inv (take_center env w.fields.current_scan_direction) (λ _. lift env)
              w (take_center-Ready w.fields.current_scan_direction w refl at i) (λ u r. r.0.0)
              (λ a u r. lift-Inv u r)

    pub origin-Inv :
        w.state ≡ substep move_origin → Started Inv w → Leaves Inv (handle_move_origin env act w)
    unfolding handle_move_origin
    origin-Inv e i = ground arith

    pub scan-Inv :
        w.state ≡ substep move_scan_position
        → Started Inv w
        → Leaves Inv (handle_move_scan_position env act w)
    unfolding handle_move_scan_position
    scan-Inv e i = ground arith

    pub focus-Inv :
        w.state ≡ substep move_focus_position_z
        → Started Inv w
        → Leaves Inv (handle_move_focus_position_z env act w)
    unfolding handle_move_focus_position_z
    focus-Inv e i = ground arith

    pub request-Inv :
        w.state ≡ substep vision_request
        → Started Inv w
        → Leaves Inv (handle_vision_request env act w)
    unfolding handle_vision_request
    request-Inv e i = ground arith

    pub home-Inv :
        w.state ≡ substep return_home → Started Inv w → Leaves Inv (handle_return_home env act w)
    unfolding handle_return_home
    home-Inv e i = ground arith
