-- ===== src/Load1/PcdSequence/Steps.antt =====
-- What the tasks of CLoad1PCDSequenceBuilder.h, run once by VatSequence.cpp, leave to the next round.
use vision_motion_framework.Prelude.{◌≡◌, ◌≢◌, refl, Bool, true, Option, List}
use vision_motion_framework.Vat.Context.{Context}
use vision_motion_framework.Vat.World.{Env, Log, substep, Outcome, ret, throw, undefined}
use vision_motion_framework.Vat.Task.{TaskResult, tr_keep, tr_next, tr_prev, tr_done, tr_error}
use vision_motion_framework.Vat.Polling.{Leaves}
use vision_motion_framework.Vat.Sequence.{Task, Host, run_task}
use vision_motion_framework.Vat.Sequence.Keeping.{Keeps}
use vision_motion_framework.Load1.MoveToStart
use vision_motion_framework.Load1.MoveToStart.Safety
use vision_motion_framework.Load1.PcdScanning
use vision_motion_framework.Load1.PcdScanning.Pulses
use vision_motion_framework.Load1.PcdScanning.Pulses.{LastPulse}
use vision_motion_framework.Load1.PcdScanning.Travel
use vision_motion_framework.Load1.PcdScanning.Results.{IsScanned, poll-IsScanned}
use vision_motion_framework.Load1.PcdScanning.HandedOn.{IsHandedOn, pcd_prev-IsHandedOn}
use vision_motion_framework.Load1.PcdSequence.{
  Line, with_shared, put_start, put_pitch, returned_by, start_task, pitch_task, build_sequence,
  line_host,
}
use vision_motion_framework.Load1.PcdSequence.Start.{Rests, poll-Pulse, poll-Rests}
use vision_motion_framework.Load1.PcdSequence.Pitch.{poll-done}
use vision_motion_framework.Load1.PcdSequence.Measures.{rests, seen, AtStart, AtPitch, Inv}
use vision_motion_framework.Load1.PcdSequence.Handover.{
  Waits, put_start-AtStart, put_start-AtPitch, put_pitch-AtPitch, put_pitch-Measures,
  put_pitch-AtStart, aside-AtPitch, waits_if-AtStart, waits_if-AtPitch,
}

module _ {D : Type 0} (env : Env D) where
  module _ (act : Bool) (others : Log D → Context D → Context D) (aborts : Log D → Bool) where
    Leaves-Waits :
        (s : Line D) (o : Outcome (MoveToStart.TaskWorld D) TaskResult)
        → (s.pitch.state ≡ substep PcdScanning.vision_request
            → s.pitch.fields.is_start_offset_measured ≡ true
            → Leaves
                (λ w. LastPulse s.pitch.fields.scan_axis s.pitch.fields.start_axis_pulse w.log)
                o)
        → Leaves (Waits s) o
    Leaves-Waits s (ret r w) p = p
    Leaves-Waits s (throw e w) p = p
    Leaves-Waits s undefined p = tt

    -- A poll of the start task, and what it leaves behind by its result.
    start_outcome-Keeps :
        (s : Line D) (o : Outcome (MoveToStart.TaskWorld D) TaskResult)
        → rests s.pitch.state ≡ true
        → Leaves (Safety.Inv env) o
        → Leaves (Waits s) o
        → ((r : TaskResult) (w : MoveToStart.TaskWorld D) → o ≡ ret r w → Rests env r w)
        → Keeps
            (line_host env act others aborts)
            (build_sequence env act others aborts)
            (Inv env)
            0
            (returned_by o (put_start s) s)
    start_outcome-Keeps s (ret tr_keep w) r i p rest =
        waits_if-AtStart env act others aborts (put_start s w) _ (put_start-AtStart env s w r i p)
    start_outcome-Keeps s (ret tr_next w) r i p rest =
        put_start-AtPitch env s w r i p (rest tr_next w refl)
    start_outcome-Keeps s (ret tr_prev w) r i p rest = absurd (rest tr_prev w refl)
    start_outcome-Keeps s (ret tr_done w) r i p rest = absurd (rest tr_done w refl)
    start_outcome-Keeps s (ret tr_error w) r i p rest = tt
    start_outcome-Keeps s (throw e w) r i p rest = tt
    start_outcome-Keeps s undefined r i p rest = tt

    pitch_outcome-Keeps :
        (s : Line D) (v : PcdScanning.TaskWorld D)
        (o : Outcome (PcdScanning.TaskWorld D) TaskResult)
        → AtPitch env s
        → Leaves (Pulses.Inv env) o
        → Leaves (Travel.Inv env) o
        → ((w : PcdScanning.TaskWorld D) → o ≡ ret tr_next w → IsScanned env v w)
        → ((w : PcdScanning.TaskWorld D) → o ≡ ret tr_prev w → IsHandedOn env v w)
        → ((w : PcdScanning.TaskWorld D) → o ≢ ret tr_done w)
        → Keeps
            (line_host env act others aborts)
            (build_sequence env act others aborts)
            (Inv env)
            1
            (returned_by o (put_pitch s) s)
    pitch_outcome-Keeps s v (ret tr_keep w) i p t scanned handed done =
        waits_if-AtPitch env act others aborts (put_pitch s w) _ (put_pitch-AtPitch env s w i p t)
    pitch_outcome-Keeps s v (ret tr_next w) i p t scanned handed done =
        put_pitch-Measures env s v w t (scanned w refl)
    pitch_outcome-Keeps s v (ret tr_prev w) i p t scanned handed done =
        put_pitch-AtStart env s v w i t (handed w refl)
    pitch_outcome-Keeps s v (ret tr_done w) i p t scanned handed done = done w refl
    pitch_outcome-Keeps s v (ret tr_error w) i p t scanned handed done = tt
    pitch_outcome-Keeps s v (throw e w) i p t scanned handed done = tt
    pitch_outcome-Keeps s v undefined i p t scanned handed done = tt

    abbrev the_host : Host (Line D)
    the_host = line_host env act others aborts

    abbrev the_tasks : List (Option (Task (Line D)))
    the_tasks = build_sequence env act others aborts

    pub start_task-Keeps :
        (s : Line D)
        → AtStart env s
        → Keeps the_host the_tasks
            (Inv env)
            0
            (run_task the_host (start_task env act others aborts) s)
    start_task-Keeps s i =
        let u : Line D = record s { task_name = "Task_MoveToStartPosition" } in
        let w = with_shared env act others aborts u s.start in
        start_outcome-Keeps u (MoveToStart.poll env act w) i.resting
          (Safety.poll-Inv env act w
            (Safety.resume-Inv env (others s.log s.ctx) (seen s s.start) i.moving))
          (Leaves-Waits u (MoveToStart.poll env act w) λ at measured.
            poll-Pulse env s.pitch.fields.scan_axis s.pitch.fields.start_axis_pulse act w
              (i.pulse at measured))
          (λ r w' e. poll-Rests env act w r w' e)

    pub pitch_task-Keeps :
        (s : Line D)
        → AtPitch env s
        → Keeps the_host the_tasks
            (Inv env)
            1
            (run_task the_host (pitch_task env act others aborts) s)
    pitch_task-Keeps s i =
        let u : Line D = record s { task_name = "Task_PerformPCDScanning" } in
        let v = with_shared env act others aborts u s.pitch in
        let p = Pulses.resume-Inv env (others s.log s.ctx) (seen s s.pitch) i.scanning in
        pitch_outcome-Keeps u v (PcdScanning.poll env act v) (aside-AtPitch env s _ _ i)
          (Pulses.poll-Inv env act v p)
          (Travel.poll-Inv env act v
            (Travel.resume-Inv env (others s.log s.ctx) (seen s s.pitch) i.travelling))
          (λ w e. poll-IsScanned env act v w p e) (λ w e. pcd_prev-IsHandedOn env act v w e)
          (λ w e. poll-done env act v w e)
