-- ===== src/Load1/PcdSequence/Handover.antt =====
-- What one task of CLoad1PCDSequenceBuilder.h may rely on when the other one has been polled.
use Prim.Native.String.{String}
use vision_motion_framework.Prelude.{◌≡◌, refl, Bool, true, false, ◌||◌, if◌then◌else◌, arith, ap}
use vision_motion_framework.Vat.Context.{Context}
use vision_motion_framework.Vat.World.{Env, Log, substep, TaskState, uninitialized, common_error}
use vision_motion_framework.Vat.Task.{tr_next}
use vision_motion_framework.Load1.MoveToStart
use vision_motion_framework.Load1.MoveToStart.Safety
use vision_motion_framework.Load1.PcdScanning
use vision_motion_framework.Load1.PcdScanning.Pulses
use vision_motion_framework.Load1.PcdScanning.Pulses.{LastPulse}
use vision_motion_framework.Load1.PcdScanning.Travel
use vision_motion_framework.Load1.PcdScanning.Results.{IsScanned}
use vision_motion_framework.Load1.PcdScanning.HandedOn.{IsHandedOn}
use vision_motion_framework.Load1.PcdSequence.{Line, put_start, put_pitch}
use vision_motion_framework.Load1.PcdSequence.Start.{Rests}
use vision_motion_framework.Load1.PcdSequence.Measures.{rests, seen, Measures, AtStart, AtPitch}

-- The pitch task waits while the start task is polled.
abbrev pub Waits : {D : Type 0} → Line D → MoveToStart.TaskWorld D → Type 0
Waits s w =
    s.pitch.state ≡ substep PcdScanning.vision_request
    → s.pitch.fields.is_start_offset_measured ≡ true
    → LastPulse s.pitch.fields.scan_axis s.pitch.fields.start_axis_pulse w.log

module _ {D : Type 0} (env : Env D) where
  pub put_start-AtStart :
      (s : Line D) (w : MoveToStart.TaskWorld D)
      → rests s.pitch.state ≡ true
      → Safety.Inv env w
      → Waits s w
      → AtStart env (put_start s w)
  put_start-AtStart s w r i p = record { moving = i; resting = r; pulse = p }

  rests-Inv :
      (t : TaskState PcdScanning.Substep) (s : Line D) (w : MoveToStart.TaskWorld D)
      → s.pitch.state ≡ t
      → rests t ≡ true
      → Safety.Inv env w
      → Waits s w
      → Pulses.Inv env (seen (put_start s w) s.pitch)
        × Travel.Inv env (seen (put_start s w) s.pitch)
  rests-Inv (substep PcdScanning.vision_request) s w e r i p = (ground arith, ground arith)
  rests-Inv uninitialized s w e r i p = (ground arith, ground arith)
  rests-Inv (substep PcdScanning.move_safe_z) s w e r i p = cc
  rests-Inv (substep PcdScanning.move_origin) s w e r i p = cc
  rests-Inv (substep PcdScanning.move_target_position_xy) s w e r i p = cc
  rests-Inv (substep PcdScanning.move_focus_position_z) s w e r i p = cc
  rests-Inv (substep PcdScanning.vision_wait) s w e r i p = cc
  rests-Inv (substep PcdScanning.calculate_pcd) s w e r i p = cc
  rests-Inv (substep PcdScanning.save_pcd_result) s w e r i p = cc
  rests-Inv common_error s w e r i p = cc

  pub put_start-AtPitch :
      (s : Line D) (w : MoveToStart.TaskWorld D)
      → rests s.pitch.state ≡ true
      → Safety.Inv env w
      → Waits s w
      → Rests env tr_next w
      → AtPitch env (put_start s w)
  put_start-AtPitch s w r i p rest =
      let both = rests-Inv s.pitch.state s w refl r i p in
      record {
        scanning = both.0;
        travelling = both.1;
        arrived = rest.0;
        old = rest.1;
        patient = i.patient;
      }

  -- The invariant does not speak of the flag and the name.
  pub aside-AtPitch :
      (s : Line D) (aborted : Bool) (name : String)
      → AtPitch env s
      → AtPitch env (record s { aborted = aborted; task_name = name })
  aside-AtPitch s aborted name i = record {
    scanning = i.scanning;
    travelling = i.travelling;
    arrived = i.arrived;
    old = i.old;
    patient = i.patient;
  }

  -- The wait of the loop.
  module _ (act : Bool) (others : Log D → Context D → Context D) (aborts : Log D → Bool)
      (s : Line D) where
    abbrev pub waits_if : Bool → Line D
    waits_if b = if b then s else record s { aborted = s.aborted || aborts s.log }

    pub waits_if-AtStart : (b : Bool) → AtStart env s → AtStart env (waits_if b)
    waits_if-AtStart true i = i
    waits_if-AtStart false i = record { moving = i.moving; resting = i.resting; pulse = i.pulse }

    pub waits_if-AtPitch : (b : Bool) → AtPitch env s → AtPitch env (waits_if b)
    waits_if-AtPitch true i = i
    waits_if-AtPitch false i = aside-AtPitch s _ _ i

  pub put_pitch-AtPitch :
      (s : Line D) (w : PcdScanning.TaskWorld D)
      → AtPitch env s
      → Pulses.Inv env w
      → Travel.Inv env w
      → AtPitch env (put_pitch s w)
  put_pitch-AtPitch s w i pulses travel = record {
    scanning = pulses;
    travelling = travel;
    arrived = i.arrived;
    old = i.old;
    patient = i.patient;
  }

  pub put_pitch-Measures :
      (s : Line D) (v w : PcdScanning.TaskWorld D)
      → Travel.Inv env w
      → IsScanned env v w
      → Measures env (put_pitch s w)
  put_pitch-Measures s v w travel scanned = record {
    safe = travel.safe;
    pulses = scanned.0;
    results = scanned.1;
  }

  arrived-Inv :
      (s : Line D) (w : PcdScanning.TaskWorld D)
      → AtPitch env s
      → Travel.Inv env w
      → Safety.Inv env (seen (put_pitch s w) s.start)
  arrived-Inv s w i travel =
      let still : Safety.is_waiting env s.start.state ≡ false =
        ap (Safety.is_waiting env) i.arrived in
      record {
        safe = travel.safe;
        up = λ e. cc;
        placed = λ e. cc;
        patient = i.patient;
        timed = λ e. cc;
        fresh = λ e. still;
      }

  pub put_pitch-AtStart :
      (s : Line D) (v w : PcdScanning.TaskWorld D)
      → AtPitch env s
      → Travel.Inv env w
      → IsHandedOn env v w
      → AtStart env (put_pitch s w)
  put_pitch-AtStart s v w i travel handed = record {
    moving = arrived-Inv s w i travel;
    resting = ap rests handed.asks_again;
    pulse = λ at measured. handed.read;
  }
