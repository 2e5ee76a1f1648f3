-- ===== src/Actuators/Io.antt =====
-- Equipment2015/Actuators/CMmceIo.cpp: sixteen bytes of inputs and of outputs, eight channels to a
-- byte. The lock is held throughout an operation, so each is one step.
pub mod Bits
pub mod Channels
use Prim.Native.Nat.{bit_and, bit_or}
use vision_motion_framework.Prelude.{
  ℕ, ◌+◌, ◌-◌, ◌*◌, ◌/◌, ◌%◌, ◌^◌, Bool, true, false, not, ◌==◌, leb, ltb, if◌then◌else◌, Option,
  none, some, List, [], ◌++◌, length, replicate, get_elem?, set, ℤ, pos, negsuc,
}

abbrev pub total_bytes : ℕ
total_bytes = 16

pub record MmceIo : Type 0 where
  pub input_buffer : List ℕ
  pub output_buffer : List ℕ

unfoldable pub mmce_io : MmceIo
mmce_io = record { input_buffer = replicate total_bytes 0; output_buffer = replicate total_bytes 0 }

-- A byte with the bit k set or cleared; `~bit` has 32 bits, and the byte is cut off.
unfoldable pub with_bit : Bool → ℕ → ℕ → ℕ
with_bit true k m = bit_or m (2 ^ k) % 256
with_bit false k m = bit_and m (2 ^ 32 - 1 - 2 ^ k) % 256

unfoldable pub has_bit : ℕ → ℕ → Bool
has_bit k m = not (bit_and m (2 ^ k) == 0)

abbrev pub write_at : Bool → ℕ → MmceIo → Option ℕ → Option MmceIo
write_at b n io none = none
write_at b n io (some m) =
    some (record io { output_buffer = set io.output_buffer (n / 8) (with_bit b (n % 8) m) })

-- A negative channel is a shift by a negative number, or an index out of range: `none`.
unfoldable pub out : ℤ → Bool → MmceIo → Option MmceIo
out (negsuc n) b io = none
out (pos n) b io =
    if leb (total_bytes * 8) n
    then some io
    else write_at b n io (get_elem? io.output_buffer (n / 8))

abbrev pub read_at : ℕ → Option ℕ → Option Bool
read_at n none = none
read_at n (some m) = some (has_bit (n % 8) m)

abbrev pub status_in : List ℕ → ℤ → Option Bool
status_in buffer (negsuc n) = none
status_in buffer (pos n) =
    if leb (total_bytes * 8) n then some false else read_at n (get_elem? buffer (n / 8))

unfoldable pub out_status : ℤ → MmceIo → Option Bool
out_status c io = status_in io.output_buffer c

unfoldable pub in_status : ℤ → MmceIo → Option Bool
in_status c io = status_in io.input_buffer c

-- What the source has in place of the hardware: as many zeros as there are outputs.
unfoldable pub update_hardware_and_wait : List ℕ → List ℕ
update_hardware_and_wait outputs = replicate (length outputs) 0

-- The new inputs, filled up with zeros if the hardware answered fewer bytes.
unfoldable pub store_inputs : List ℕ → MmceIo → MmceIo
store_inputs answer io = record io {
  input_buffer =
      if length answer == length io.input_buffer
      then answer
      else if ltb (length answer) total_bytes
      then answer ++ replicate (total_bytes - length answer) 0
      else answer;
}

-- A round of the thread: the outputs are copied, and later the answer is stored.
unfoldable pub io_round : MmceIo → MmceIo → MmceIo
io_round before io = store_inputs (update_hardware_and_wait before.output_buffer) io
