-- ===== src/Vat/Examples/Runs.antt =====
-- A concrete run of a sequence by the runner: sequences and contexts are numbers.
use vision_motion_framework.Prelude.{ℕ, ◌≡◌, refl, ◌↔◌, true, false, Option, none, some}
use vision_motion_framework.Vat.Runner.{
  Runner, async_sequence_runner, enter, claim, launch, begin, finish, report_failure, clear_flag,
  stop, is_over, is_some, Steps, here, enters, joins, launches, begins, finishes, catches, clears,
  sets_sink, set_result_sink, send_result, status_of, returned, takes, refuses, aborted_exception,
}
use vision_motion_framework.Vat.Runner.Reports.{runner-Reported, enter_refuses}
use vision_motion_framework.Vat.Runner.Paired.{Reported}
use vision_motion_framework.Vat.Runner.Stopping.{IsUp, IsLeft, stop_stays}

abbrev or_new : Option (Runner ℕ ℕ) → Runner ℕ ℕ
or_new none = async_sequence_runner
or_new (some r) = r

abbrev claimed : Runner ℕ ℕ
claimed = or_new (enter (some 5) (some 1) (set_result_sink true async_sequence_runner))

abbrev begun : Runner ℕ ℕ
begun = or_new (begin takes (launch true claimed))

begun-Steps : Steps async_sequence_runner begun
unfolding enter claim launch begin send_result async_sequence_runner set_result_sink
begun-Steps =
    begins takes refl refl
      (launches true refl (enters (some 5) (some 1) refl refl (sets_sink true here)))

-- The sink throws at "completed", and takes the failure.
abbrev caught : Runner ℕ ℕ
caught = or_new (finish (returned true) (refuses "sink") begun)

abbrev failed : Runner ℕ ℕ
failed = or_new (report_failure (aborted_exception "sink") takes caught)

failed-Steps : Steps async_sequence_runner failed
unfolding enter claim launch begin finish report_failure status_of send_result async_sequence_runner
    set_result_sink
failed-Steps =
    catches (aborted_exception "sink") takes refl refl
      (finishes (returned true) (refuses "sink") refl refl begun-Steps)

begun-is_over : is_over begun.thread ≡ false
unfolding enter claim launch begin send_result async_sequence_runner set_result_sink
begun-is_over = refl

begun-current_ctx : begun.current_ctx ≡ some 1
unfolding enter begin launch claim send_result set_result_sink async_sequence_runner
begun-current_ctx = refl

-- Start has let go of the lock behind the end of that run.
abbrev waiting : Runner ℕ ℕ
waiting = or_new (enter (some 6) (some 1) (clear_flag failed))

waiting-Steps : Steps async_sequence_runner waiting
unfolding enter claim launch begin finish report_failure clear_flag status_of send_result
    async_sequence_runner set_result_sink
waiting-Steps = enters (some 6) (some 1) refl refl (clears refl failed-Steps)

runner-Reported_example : Reported failed.thread failed.current_seq failed.reports
runner-Reported_example = runner-Reported failed failed-Steps

enter_refuses_example :
    ((enter (some 7) (some 1) waiting ≡ none) ↔ (is_over waiting.thread ≡ false))
    × (is_some waiting.joining ≡ true → (is_over waiting.thread ≡ true) × (waiting.running ≡ false))
enter_refuses_example = enter_refuses waiting 7 (some 1) waiting-Steps

-- The same context is taken again, behind the stop and the end of the stopped run.
abbrev stopped_run : Runner ℕ ℕ
stopped_run = clear_flag (or_new (finish (returned false) takes (stop begun)))

abbrev entered : Runner ℕ ℕ
entered = or_new (enter (some 6) (some 1) stopped_run)

later-Steps : Steps (stop begun) (claim 6 (some 1) entered)
unfolding enter claim launch begin finish clear_flag stop status_of send_result
    async_sequence_runner set_result_sink
later-Steps = joins 6 (some 1) refl refl (
    enters (some 6) (some 1) refl refl
      (clears refl (finishes (returned false) takes refl refl here)))

later-IsLeft : IsLeft 1 later-Steps
unfolding later-Steps
later-IsLeft = tt

stop_stays_example : IsUp 1 (claim 6 (some 1) entered).flag_calls
stop_stays_example =
    stop_stays 1 begun (claim 6 (some 1) entered) later-Steps begun-Steps begun-is_over
      begun-current_ctx later-IsLeft
