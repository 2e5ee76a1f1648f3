-- ===== src/Vision/Framer.antt =====
-- VisionCom/Include/FixedLengthFramer.h: bytes go in by `feed_bytes` in chunks of any size, and
-- `next_frame` cuts frames of `packet_size` bytes off the front of the buffer.
use vision_motion_framework.Prelude.{
  ℕ, zero, suc, ltb, if◌then◌else◌, Option, none, some, List, [], ◌∷◌, ◌++◌, length, take, drop,
}

pub record Framer : Type 0 where
  pub buffer : List ℕ
  pub packet_size : ℕ

-- The default of the constructor's argument, which the controller passes too.
abbrev pub default_packet_size : ℕ
default_packet_size = 664

unfoldable pub fixed_length_framer : ℕ → Framer
fixed_length_framer packet_size = record { buffer = []; packet_size = packet_size }

unfoldable pub feed_bytes : List ℕ → Framer → Framer
feed_bytes bytes f = record f { buffer = f.buffer ++ bytes }

-- `none` is the answer false, with the framer and the caller's frame as they were.
unfoldable pub next_frame : Framer → Option (List ℕ × Framer)
next_frame f =
    if ltb (length f.buffer) f.packet_size
    then none
    else some (take f.packet_size f.buffer, record f { buffer = drop f.packet_size f.buffer })

unfoldable pub set_packet_size : ℕ → Framer → Framer
set_packet_size size f = record f { packet_size = size }

abbrev pub with_frame : List ℕ → Option (List (List ℕ) × Framer) → Option (List (List ℕ) × Framer)
with_frame frame none = none
with_frame frame (some (frames, f)) = some (frame ∷ frames, f)

-- The loop `while (NextFrame(frame))` of the callers, on fuel: `none` means that the fuel ran out.
unfoldable pub drain : ℕ → Framer → Option (List (List ℕ) × Framer)
drain zero f = none
drain (suc fuel) f = elim (next_frame f) [
  | none ↦ some ([], f)
  | some (frame, f') ↦ with_frame frame (drain fuel f')
]
