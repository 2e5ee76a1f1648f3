-- ===== src/Vat/Task.antt =====
-- DVH_Library/include/NonBlockingTaskBase.h: the frame in which every task of a sequence runs.
use Prim.Native.String
use Prim.Native.String.{String}
use vision_motion_framework.Prelude.{
  ◌+◌, Bool, true, false, leb, if◌then◌else◌, Option, none, some, List, ℤ, pos, ltb_ℤ, pos_part,
}
use vision_motion_framework.Vat.Context.{Context, set_last_error}
use vision_motion_framework.Vat.World.{
  World, Env, TaskState, uninitialized, common_error, substep, Outcome, ret, throw, undefined, M,
  pure, modify, get, ◌>>=◌, ◌>>◌, read_now, logged, read_clock,
}

pub data TaskResult : Type 0 where
  tr_keep tr_next tr_prev tr_done tr_error : TaskResult

module _ {S T D : Type 0} where
  -- The base part of a task's constructor.
  unfoldable pub new_world :
      T → Context D → List (vision_motion_framework.Vat.World.Event D) → World S T D
  new_world fields ctx log = record {
    state = uninitialized;
    initialized = false;
    deadline = none;
    fields = fields;
    ctx = ctx;
    log = log;
  }

  abbrev pub enter_state : S → M (World S T D) (Unit {0})
  enter_state s = modify λ w. record w { state = substep s; deadline = none }

  abbrev pub enter_common_state : TaskState S → M (World S T D) (Unit {0})
  enter_common_state s = modify λ w. record w { state = s; deadline = none }

  abbrev pub abort : World S T D → World S T D
  abort w = record w { state = common_error }

  abbrev pub set_error_and_return : String → M (World S T D) TaskResult
  set_error_and_return message w =
      ret tr_error
        (record w { state = common_error; deadline = none; ctx = set_last_error message w.ctx })

  module _ (env : Env D) where
    -- The clock is read only for a positive timeout, which the first argument says.
    abbrev pub enter_until : Bool → S → ℤ → M (World S T D) (Unit {0})
    enter_until true s timeout_ms = do
      now ← read_now env
      modify λ w. record w { state = substep s; deadline = some (now + pos_part timeout_ms) }
    enter_until false s timeout_ms = enter_state s

    abbrev pub enter_state_with_timeout : S → ℤ → M (World S T D) (Unit {0})
    enter_state_with_timeout s timeout_ms = enter_until (ltb_ℤ (pos 0) timeout_ms) s timeout_ms

    abbrev pub is_deadline_expired : M (World S T D) Bool
    is_deadline_expired w = elim w.deadline [
      | none ↦ ret false w
      | some deadline ↦
          let now = env.clock w.log in ret (leb deadline now) (logged (read_clock now) w)
    ]

    -- `if (IsDeadlineExpired()) return SetErrorAndReturn(..); return TR_KEEP;`
    abbrev pub keep_until_deadline : String → M (World S T D) TaskResult
    keep_until_deadline message = do
      expired ← is_deadline_expired
      if expired then set_error_and_return message else pure tr_keep

    -- The same under `if (!arrived)`, before the rest.
    abbrev pub or_wait : Bool → String → M (World S T D) TaskResult → M (World S T D) TaskResult
    or_wait arrived message rest = if arrived then rest else keep_until_deadline message

  -- `if (!condition) return SetErrorAndReturn(..);` before the rest.
  abbrev pub or_fail : Bool → String → M (World S T D) TaskResult → M (World S T D) TaskResult
  or_fail condition message rest = if condition then rest else set_error_and_return message

  -- The same for a value that a call may fail to give.
  abbrev pub given_or_fail :
      {A : Type 0}
      → Option A
      → String
      → (A → M (World S T D) TaskResult)
      → M (World S T D) TaskResult
  given_or_fail none message rest = set_error_and_return message
  given_or_fail (some a) message rest = rest a

  abbrev pub when : Bool → M (World S T D) (Unit {0}) → M (World S T D) (Unit {0})
  when true m = m
  when false m = pure tt

  -- The `catch` blocks of `Execute`.
  abbrev pub catch_as : String → Outcome (World S T D) TaskResult → Outcome (World S T D) TaskResult
  catch_as prefix (ret r w) = ret r w
  catch_as prefix (throw what w) =
      ret tr_error
        (record w { state = common_error; ctx = set_last_error (String.◌++◌ prefix what) w.ctx })
  catch_as prefix undefined = undefined

  -- `OnInitialize` has no result, and `OnPoll` runs behind it only if it did not throw.
  abbrev pub poll_after :
      M (World S T D) TaskResult
      → Outcome (World S T D) (Unit {0})
      → Outcome (World S T D) TaskResult
  poll_after on_poll (ret _ w) = catch_as "NonBlockingTaskBase: exception in OnPoll: " (on_poll w)
  poll_after on_poll (throw what w) =
      catch_as "NonBlockingTaskBase: exception in OnInitialize: " (throw what w)
  poll_after on_poll undefined = undefined

  unfoldable pub execute :
      M (World S T D) (Unit {0}) → M (World S T D) TaskResult → M (World S T D) TaskResult
  unfolding set_last_error
  execute on_initialize on_poll w =
      if w.ctx.stop_requested
      then ret tr_error (record w {
        state = common_error;
        ctx = set_last_error "NonBlockingTaskBase: Stop requested" w.ctx;
      })
      else if w.initialized
      then poll_after on_poll (ret tt w)
      else poll_after on_poll (on_initialize (record w { initialized = true }))
