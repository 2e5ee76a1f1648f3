-- ===== src/Load1/PcdSequence/NextMark.antt =====
-- Where the sequence of CLoad1PCDSequenceBuilder.h goes when its pitch task has sent it back.
use vision_motion_framework.Prelude.{
  ◌≡◌, refl, Bool, true, Option, none, some, List, get_elem?, arith, subst, sym,
}
use vision_motion_framework.Vat.Context.{VisionPosition, peek_vision_position}
use vision_motion_framework.Vat.World.{Env, substep, ret}
use vision_motion_framework.Vat.Task.{tr_keep, tr_prev, execute}
use vision_motion_framework.Vat.Polling.{resume}
use vision_motion_framework.Load1.Backlash.{Axis, axis_x, axis_y}
use vision_motion_framework.Load1.MoveToStart
use vision_motion_framework.Load1.PcdScanning
use vision_motion_framework.Load1.PcdScanning.{shifted}
use vision_motion_framework.Load1.PcdScanning.Pulses.{LastPulse}
use vision_motion_framework.Load1.PcdScanning.HandedOn.{StandsAt, IsHandedOn, pcd_prev-IsHandedOn}

module _ {D : Type 0} (env : Env D) where
  -- A position whose place is this one, moved by the pitch along the axis.
  abbrev pub IsMovedTo : Axis → D → D × D → List D → Type 0
  IsMovedTo axis_x pitch (x, y) p =
      (get_elem? p 0 ≡ some (env.add x pitch)) × (get_elem? p 1 ≡ some y)
  IsMovedTo axis_y pitch (x, y) p =
      (get_elem? p 0 ≡ some x) × (get_elem? p 1 ≡ some (env.add y pitch))

  shifted-IsMovedTo :
      (a : Axis) (pitch : D) (place : D × D) (p : VisionPosition D)
      → StandsAt (shifted env a place pitch) (some p)
      → IsMovedTo a pitch place p.pos
  shifted-IsMovedTo axis_x pitch place p s = s
  shifted-IsMovedTo axis_y pitch place p s = s

  -- The start task, about to begin, takes the last position of the context.
  start_target :
      (act : Bool) (v v' : MoveToStart.TaskWorld D) (p : VisionPosition D)
      → v.state ≡ substep MoveToStart.move_safe_z
      → v.initialized ≡ true
      → peek_vision_position v.ctx ≡ some p
      → MoveToStart.poll env act v ≡ ret tr_keep v'
      → v'.fields.target_position ≡ p.pos
  unfolding MoveToStart.poll MoveToStart.on_poll MoveToStart.handle_move_safe_z execute
  start_target act v v' p at old top e = ground arith

  -- When the pitch task sends the sequence back, the start task, which stands at its beginning and is polled
  -- next on the context that the pitch task left, takes as its target a position whose place is the target
  -- that the pitch task had, moved by the pitch along the scanned axis and not along the other one; and the
  -- pulse that the pitch task keeps as the start's is the scanned axis's in the last reading.
  pub pcd_prev-IsMovedTo :
      (act act' : Bool) (w w' : PcdScanning.TaskWorld D) (v v' : MoveToStart.TaskWorld D)
      → PcdScanning.poll env act w ≡ ret tr_prev w'
      → v.state ≡ substep MoveToStart.move_safe_z
      → v.initialized ≡ true
      → MoveToStart.poll env act' (resume w'.ctx v) ≡ ret tr_keep v'
      → IsMovedTo w.fields.scan_axis w.fields.scan_pitch w.fields.target_position
          v'.fields.target_position
        × LastPulse w'.fields.scan_axis w'.fields.start_axis_pulse w'.log
  pcd_prev-IsMovedTo act act' w w' v v' prev at old e =
      (by_position (peek_vision_position w'.ctx) refl, handed.read)
    where
      handed : IsHandedOn env w w'
      handed = pcd_prev-IsHandedOn env act w w' prev

      t : PcdScanning.Fields D
      t = w.fields

      there :
          StandsAt
            (shifted env t.scan_axis t.target_position t.scan_pitch)
            (peek_vision_position w'.ctx)
      there =
          subst (λ place. StandsAt place (peek_vision_position w'.ctx)) handed.target handed.place

      by_position :
          (o : Option (VisionPosition D))
          → peek_vision_position w'.ctx ≡ o
          → IsMovedTo t.scan_axis t.scan_pitch t.target_position v'.fields.target_position
      by_position none top = absurd (subst (StandsAt _) top there)
      by_position (some p) top =
          subst (IsMovedTo t.scan_axis t.scan_pitch t.target_position)
            (sym (start_target act' (resume w'.ctx v) v' p at old top e))
            (shifted-IsMovedTo t.scan_axis t.scan_pitch t.target_position p
              (subst (StandsAt _) top there))
