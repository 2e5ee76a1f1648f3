-- ===== src/Load1/PcdSequence/Measures.antt =====
-- What the tasks of CLoad1PCDSequenceBuilder.h leave to each other, and what they leave in the end.
use vision_motion_framework.Prelude.{ℕ, zero, suc, ◌≡◌, Bool, true, false, ltb_ℤ, pos}
use vision_motion_framework.Vat.World.{Env, substep, TaskState, uninitialized, World}
use vision_motion_framework.Vat.Travel.{TravelsUp}
use vision_motion_framework.Load1.MoveToStart
use vision_motion_framework.Load1.MoveToStart.Safety
use vision_motion_framework.Load1.PcdScanning
use vision_motion_framework.Load1.PcdScanning.Pulses
use vision_motion_framework.Load1.PcdScanning.Pulses.{LastPulse, LastTwoPulses, HasResults}
use vision_motion_framework.Load1.PcdScanning.Travel
use vision_motion_framework.Load1.PcdSequence.{Line}

-- The pitch task before its first poll, or about to ask the vision.
abbrev pub rests : TaskState PcdScanning.Substep → Bool
rests uninitialized = true
rests (substep PcdScanning.vision_request) = true
rests _ = false

-- An object with the calls of the whole sequence.
abbrev pub seen : {D T U : Type 0} → Line D → World T U D → World T U D
seen s w = record w { log = s.log }

module _ {D : Type 0} (env : Env D) where
  -- Every command to travel was given at the height 0; the last two readings of the pulses are the start's
  -- and the end's of the pitch task, and its results are those that belong to them.
  pub record Measures (s : Line D) : Type 0 where
    pub safe : TravelsUp env.zero s.log
    pub pulses :
        let t = s.pitch.fields in
        LastTwoPulses t.scan_axis t.start_axis_pulse t.end_axis_pulse s.log
    pub results : HasResults env s.pitch.fields

  pub record AtStart (s : Line D) : Type 0 where
    pub moving : Safety.Inv env (seen s s.start)
    pub resting : rests s.pitch.state ≡ true
    pub pulse :
        s.pitch.state ≡ substep PcdScanning.vision_request
        → s.pitch.fields.is_start_offset_measured ≡ true
        → LastPulse s.pitch.fields.scan_axis s.pitch.fields.start_axis_pulse s.log

  pub record AtPitch (s : Line D) : Type 0 where
    pub scanning : Pulses.Inv env (seen s s.pitch)
    pub travelling : Travel.Inv env (seen s s.pitch)
    pub arrived : s.start.state ≡ substep MoveToStart.move_safe_z
    pub old : s.start.initialized ≡ true
    pub patient : ltb_ℤ (pos 0) s.start.fields.move_timeout_ms ≡ true

  abbrev pub Inv : ℕ → Line D → Type 0
  Inv zero s = AtStart s
  Inv (suc zero) s = AtPitch s
  Inv (suc (suc n)) s = Measures s
