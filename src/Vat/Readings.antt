-- ===== src/Vat/Readings.antt =====
-- What the vision has said, and where: the calls of the actuator (DVH_Library/include/IVatActuator.h) and
-- of the vision processor (IVisionProcessor.h) in the log of a task.
use vision_motion_framework.Prelude.{Bool, true, false, ◌&&◌, Option, none, some, List, [], ◌∷◌}
use vision_motion_framework.Vat.World.{
  Env, Log, Offset, absent, number, malformed, moved, checked, read_data, PitchStatus,
}

-- The place and the pitch that the actuator has confirmed, if no command to travel has come since.
abbrev pub place_of : {D : Type 0} → Log D → Option (List D × PitchStatus)
place_of [] = none
place_of (moved q s ok ∷ es) = none
place_of (checked q s true ∷ es) = some (q, s)
place_of (_ ∷ es) = place_of es

abbrev pub is_readable : {D : Type 0} → Offset D → Bool
is_readable absent = true
is_readable (number x) = true
is_readable malformed = false

abbrev pub offset_value : {D : Type 0} → D → Offset D → D
offset_value zero_offset absent = zero_offset
offset_value zero_offset (number x) = x
offset_value zero_offset malformed = zero_offset

-- A reading is the confirmed place, if any, and the two offsets.
abbrev pub Reading : Type 0 → Type 0
Reading D = Option (List D × PitchStatus) × (D × D)

abbrev add_reading : {D : Type 0} → Bool → Reading D → List (Reading D) → List (Reading D)
add_reading true r rs = r ∷ rs
add_reading false r rs = rs

-- All readings, the last one first; vision data with a malformed offset is none.
abbrev pub readings : {D : Type 0} → Env D → Log D → List (Reading D)
readings env [] = []
readings env (read_data ∷ es) =
    add_reading (is_readable (env.x_offset es) && is_readable (env.y_offset es))
      (
        place_of es,
        (offset_value env.zero (env.x_offset es), offset_value env.zero (env.y_offset es)),
      )
      (readings env es)
readings env (_ ∷ es) = readings env es
