-- ===== src/Processor/Examples/Memory.antt =====
-- A concrete request to the memory device, and messages behind it.
use vision_motion_framework.Prelude.{
  ℕ, ◌≡◌, refl, true, false, Option, none, some, List, [], ◌∷◌, ◌++◌, replicate,
}
use vision_motion_framework.Vision.Bytes.{int32_bytes, bytes_int32}
use vision_motion_framework.Vision.Dispatcher.{new, register_handler, on_receive, find, assign}
use vision_motion_framework.Vat.World.{measure, insp_ready, set_cok}
use vision_motion_framework.Processor.Store.{is_valid}
use vision_motion_framework.Processor.Layout.{int_at, text_at, c_string}
use vision_motion_framework.Processor.Slt.{Processor, slt_processor, Incoming}
use vision_motion_framework.Processor.Memory.{
  handlers, run_handler, deliver, receive, receive_all, request_set_cok, read_texts, on_set_cok,
  on_insp_ready, on_measure, on_recipe_reply,
}
use vision_motion_framework.Processor.Memory.Validity.{last_recipe, last_measure, set_cok_answered}

abbrev recipe_answer : Incoming
recipe_answer = record { stream = 2; function = 42; body = replicate 648 0 }

abbrev measurement : Incoming
measurement = record {
  stream = 107;
  function = 9;
  body = int32_bytes 3 ++ (int32_bytes 1 ++ replicate 640 0);
}

abbrev short_measurement : Incoming
short_measurement = record { stream = 107; function = 9; body = int32_bytes 3 }

abbrev answers : List Incoming
answers = short_measurement ∷ recipe_answer ∷ measurement ∷ []

abbrev stale_fields : List (List ℕ)
stale_fields = replicate 10 (replicate 64 205)

-- Of the parameters only the name of the recipe is given.
abbrev recipe_asked : Processor
recipe_asked =
    (request_set_cok true stale_fields (("recipe_name", 65 ∷ 66 ∷ []) ∷ []) slt_processor).1

abbrev or_unused : Option Processor → Processor
or_unused none = slt_processor
or_unused (some p) = p

abbrev recipe_answered : Processor
recipe_answered = or_unused (receive_all answers recipe_asked)

set_cok_answered_example :
    (is_valid set_cok recipe_answered.store ≡ last_recipe false answers)
    × (is_valid insp_ready recipe_answered.store
        ≡ last_recipe (is_valid insp_ready slt_processor.store) answers)
    × (is_valid measure recipe_answered.store
        ≡ last_measure (is_valid measure slt_processor.store) answers)
unfolding receive_all receive deliver run_handler on_receive handlers register_handler new find
    assign on_recipe_reply on_set_cok on_insp_ready on_measure read_texts text_at c_string
    int32_bytes int_at bytes_int32
set_cok_answered_example =
    set_cok_answered true stale_fields (("recipe_name", 65 ∷ 66 ∷ []) ∷ []) slt_processor answers
      recipe_answered refl
