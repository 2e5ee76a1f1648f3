-- ===== src/Repository/Examples.antt =====
-- A write that is saved at the second attempt, and the end of the thread.
use vision_motion_framework.Prelude.{ℕ, ◌≡◌, refl, true, false, pos, List, [], ◌∷◌, ◌++◌}
use vision_motion_framework.Repository.Async.{
  Write, save_z_focus_result, AsyncRepository, idle, ended, Handled, take_or_end, after_attempt,
  handled_by, Reaches, here, stops, takes, attempts, returns,
}
use vision_motion_framework.Repository.Async.Queued.{results, of_kind, in_hand, writes}
use vision_motion_framework.Repository.Async.Order.{accepted-handled, ended-drains}
use vision_motion_framework.Repository.Async.Attempts.{
  all_attempts, unfinished, AllSettled, attempts_made,
}

abbrev focus : Write ℕ
focus =
    save_z_focus_result
      (record { cam_index = pos 1; location_id = pos 2; pkg_id = pos 3; new_focus = 40 })

abbrev queued_once : AsyncRepository ℕ
queued_once = record {
  point_queue = [];
  result_queue =
      record { cam_index = pos 1; location_id = pos 2; pkg_id = pos 3; new_focus = 40 } ∷ [];
  status_queue = [];
  stop_requested = false;
  writer = idle;
}

abbrev empty_queues : AsyncRepository ℕ
empty_queues = record {
  point_queue = [];
  result_queue = [];
  status_queue = [];
  stop_requested = true;
  writer = ended;
}

abbrev saved_focus : List (Handled ℕ)
saved_focus = record { write = focus; failures = 1; saved = true } ∷ []

-- The thread takes the write, fails once, saves it, and ends on request.
saved_at_second :
    Reaches true queued_once [] saved_focus ((focus, false) ∷ (focus, true) ∷ []) empty_queues
unfolding take_or_end after_attempt handled_by
saved_at_second = takes refl refl (
    stops (
      returns 0 refl (
        attempts true focus [] 1 refl refl
          (attempts false focus [] 0 refl refl (takes refl refl here)))))

accepted-handled_example :
    in_hand results queued_once ++ of_kind results []
    ≡ of_kind results (writes saved_focus) ++ in_hand results empty_queues
accepted-handled_example =
    accepted-handled results true queued_once empty_queues [] saved_focus
      ((focus, false) ∷ (focus, true) ∷ []) saved_at_second

ended-drains_example :
    (since : List (Write ℕ)) × (of_kind results (writes saved_focus)
      ≡ in_hand results queued_once ++ since)
ended-drains_example =
    ended-drains results true queued_once empty_queues [] saved_focus
      ((focus, false) ∷ (focus, true) ∷ []) saved_at_second (λ e. cc) refl

attempts_made_example :
    ((focus, false) ∷ (focus, true) ∷ []
      ≡ all_attempts saved_focus ++ unfinished empty_queues.writer)
    × AllSettled saved_focus
attempts_made_example =
    attempts_made queued_once empty_queues [] saved_focus ((focus, false) ∷ (focus, true) ∷ []) refl
      saved_at_second
