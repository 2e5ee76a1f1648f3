-- ===== src/Load1/FocusScanning/Stages.antt =====
-- What the log of CLoad1PerformFocusScanningTask.cpp shows of a measurement.
use vision_motion_framework.Prelude.{◌≡◌, ◌⊎◌, true, false, [], ◌∷◌}
use vision_motion_framework.Vat.World.{Log, moved_z, checked_z, requested, asked_validity}

-- The actuator has confirmed a height, and no command has moved the tool up or down since.
abbrev pub IsLowered : {D : Type 0} → Log D → Type 0
IsLowered [] = ⊥
IsLowered (moved_z d ok ∷ es) = ⊥
IsLowered (checked_z d true ∷ es) = Unit {0}
IsLowered (_ ∷ es) = IsLowered es

-- The vision has accepted a request there.
abbrev pub IsAsked : {D : Type 0} → Log D → Type 0
IsAsked [] = ⊥
IsAsked (moved_z d ok ∷ es) = ⊥
IsAsked (requested c ps true ∷ es) = IsLowered es ⊎ IsAsked es
IsAsked (_ ∷ es) = IsAsked es

-- The vision has said that it has an answer.
abbrev pub IsAnswered : {D : Type 0} → Log D → Type 0
IsAnswered [] = ⊥
IsAnswered (moved_z d ok ∷ es) = ⊥
IsAnswered (asked_validity true ∷ es) = IsAsked es ⊎ IsAnswered es
IsAnswered (_ ∷ es) = IsAnswered es

-- Then the tool was sent to the height z, and that was the last command that moved it up or down.
abbrev pub IsSentBack : {D : Type 0} → D → Log D → Type 0
IsSentBack z [] = ⊥
IsSentBack z (moved_z d true ∷ es) = (d ≡ z) × IsAnswered es
IsSentBack z (moved_z d false ∷ es) = ⊥
IsSentBack z (_ ∷ es) = IsSentBack z es
