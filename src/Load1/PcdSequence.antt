-- ===== src/Load1/PcdSequence.antt =====
-- Equipment2015/DVH_VAT/Load1/Sequences/CLoad1PCDSequenceBuilder.h: the start task and the pitch task as the
-- two tasks of a sequence, on one context and with one log of all calls. Before each poll other threads
-- may change the context in any way, and while the loop waits they may ask the sequence to abort.
pub mod Start
pub mod Pitch
pub mod Measures
pub mod Handover
pub mod Steps
pub mod Success
pub mod NextMark
use Prim.Native.String.{String}
use vision_motion_framework.Prelude.{Bool, false, ◌||◌, Option, some, List, [], ◌∷◌}
use vision_motion_framework.Vat.Context.{Context}
use vision_motion_framework.Vat.World.{World, Env, Log, Outcome, ret, throw, undefined}
use vision_motion_framework.Vat.Task.{TaskResult, new_world}
use vision_motion_framework.Vat.Sequence.{Returned, result, threw, Task, Host, add_task}
use vision_motion_framework.Load1.MoveToStart
use vision_motion_framework.Load1.PcdScanning

-- What the two tasks and the loop work on. `aborted` is the sequence's own flag.
pub record Line (D : Type 0) : Type 0 where
  pub ctx : Context D
  pub log : Log D
  pub start : MoveToStart.TaskWorld D
  pub pitch : PcdScanning.TaskWorld D
  pub aborted : Bool
  pub task_name : String

-- Undefined behaviour, about which nothing can be said, is taken for an exception.
abbrev pub returned_by : {W S : Type 0} → Outcome W TaskResult → (W → S) → S → Returned × S
returned_by (ret r w) put s = (result r, put w)
returned_by (throw e w) put s = (threw, put w)
returned_by undefined put s = (threw, s)

abbrev pub put_start : {D : Type 0} → Line D → MoveToStart.TaskWorld D → Line D
put_start s w = record s { start = w; ctx = w.ctx; log = w.log }

abbrev pub put_pitch : {D : Type 0} → Line D → PcdScanning.TaskWorld D → Line D
put_pitch s w = record s { pitch = w; ctx = w.ctx; log = w.log }

module _ {D : Type 0} (env : Env D) (act : Bool) (others : Log D → Context D → Context D)
    (aborts : Log D → Bool) where
  abbrev pub new_line : Context D → Line D
  new_line c = record {
    ctx = c;
    log = [];
    start = new_world MoveToStart.initial_fields c [];
    pitch = new_world (PcdScanning.initial_fields env) c [];
    aborted = false;
    task_name = "";
  }

  -- A task's object with what it shares with the others.
  abbrev pub with_shared : {T U : Type 0} → Line D → World T U D → World T U D
  with_shared s w = record w { ctx = others s.log s.ctx; log = s.log }

  abbrev pub start_task : Task (Line D)
  start_task = record {
    name = "Task_MoveToStartPosition";
    run = λ s. returned_by (MoveToStart.poll env act (with_shared s s.start)) (put_start s) s;
  }

  abbrev pub pitch_task : Task (Line D)
  pitch_task = record {
    name = "Task_PerformPCDScanning";
    run = λ s. returned_by (PcdScanning.poll env act (with_shared s s.pitch)) (put_pitch s) s;
  }

  unfoldable pub build_sequence : List (Option (Task (Line D)))
  unfolding add_task
  build_sequence = add_task (some pitch_task) (add_task (some start_task) [])

  abbrev pub line_host : Host (Line D)
  line_host = record {
    stop_requested = λ s. let c = s.ctx in c.stop_requested;
    abort_requested = λ s. s.aborted;
    set_abort_requested = λ b s. record s { aborted = b };
    set_task_name = λ name s. record s { task_name = name };
    wait = λ s. record s { aborted = s.aborted || aborts s.log };
  }
