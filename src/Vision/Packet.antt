-- ===== src/Vision/Packet.antt =====
-- VisionCom/Include/SECSIPacket.h and VisionCom/Src/SECSIPacket.cpp: a packet is a header of four
-- 32-bit integers and a body. `memcpy` of the header is its sixteen bytes in the order of the fields,
-- the lowest byte of each first (the program runs on x86). An `int` field is its bit pattern.
use vision_motion_framework.Prelude.{
  ℕ, ◌+◌, ◌<◌, ◌^◌, ◌≡◌, refl, Bool, true, false, ltb, if◌then◌else◌, List, [], ◌++◌, length,
  get_or, drop, word32, signed32, ltb_ℤ, arith, length-append, pos, ◌⊎◌, ◌↔◌,
}
use vision_motion_framework.Vision.Bytes.{int32_bytes, bytes_int32, bytes_int32-int32_bytes}

pub record SecsPacketHeader : Type 0 where
  pub msg_id : ℕ
  pub s : ℕ
  pub f : ℕ
  pub length_field : ℕ

pub record SecsPacket : Type 0 where
  pub header : SecsPacketHeader
  pub body : List ℕ

-- `sizeof(SECSPacketHeader)`.
abbrev pub header_size : ℕ
header_size = 16

unfoldable pub secs_packet : SecsPacket
secs_packet = record { header = record { msg_id = 0; s = 0; f = 0; length_field = 0 }; body = [] }

unfoldable pub header_bytes : SecsPacketHeader → List ℕ
unfolding int32_bytes
header_bytes h =
    int32_bytes h.msg_id ++ (int32_bytes h.s ++ (int32_bytes h.f ++ int32_bytes h.length_field))

abbrev int32_at : List ℕ → ℕ → ℕ
int32_at raw i =
    bytes_int32 (get_or raw i 0) (get_or raw (i + 1) 0) (get_or raw (i + 2) 0)
      (get_or raw (i + 3) 0)

unfoldable pub header_of_bytes : List ℕ → SecsPacketHeader
header_of_bytes raw = record {
  msg_id = int32_at raw 0;
  s = int32_at raw 4;
  f = int32_at raw 8;
  length_field = int32_at raw 12;
}

unfoldable pub to_byte_array : SecsPacket → List ℕ
to_byte_array p =
    let total_len = word32 (header_size + length p.body) in
    header_bytes (record p.header { length_field = total_len }) ++ p.body

-- The header is overwritten before the length is checked.
unfoldable pub from_byte_array : List ℕ → SecsPacket → Bool × SecsPacket
from_byte_array raw p =
    let header = header_of_bytes raw in
    if ltb (length raw) header_size
    then (false, p)
    else if ltb_ℤ (signed32 (word32 (length raw))) (signed32 header.length_field)
    then (false, record p { header = header })
    else (true, record { header = header; body = drop header_size raw })

unfoldable pub get_op_code : SecsPacket → ℕ
get_op_code p = p.header.s

unfoldable pub set_op_code : ℕ → SecsPacket → SecsPacket
set_op_code code p = let h = p.header in record p { header = record h { s = code } }

unfoldable pub get_sub_code : SecsPacket → ℕ
get_sub_code p = p.header.f

unfoldable pub set_sub_code : ℕ → SecsPacket → SecsPacket
set_sub_code code p = let h = p.header in record p { header = record h { f = code } }

unfoldable pub get_correlation_id : SecsPacket → ℕ
get_correlation_id p = p.header.msg_id

unfoldable pub set_correlation_id : ℕ → SecsPacket → SecsPacket
set_correlation_id id p = let h = p.header in record p { header = record h { msg_id = id } }

unfoldable pub set_body : List ℕ → SecsPacket → SecsPacket
set_body body p =
    let h = p.header in
    record { header = record h { length_field = word32 (header_size + length body) }; body = body }

-- Every field is a 32-bit pattern.
pub record IsWord (h : SecsPacketHeader) : Type 0 where
  pub msg_id_fits : h.msg_id < 2 ^ 32
  pub s_fits : h.s < 2 ^ 32
  pub f_fits : h.f < 2 ^ 32
  pub length_fits : h.length_field < 2 ^ 32

pub header_of_bytes-header_bytes :
    (h : SecsPacketHeader) (rest : List ℕ) → IsWord h → header_of_bytes (header_bytes h ++ rest) ≡ h
unfolding header_of_bytes header_bytes
header_of_bytes-header_bytes h rest w = rw (
  bytes_int32-int32_bytes h.msg_id w.msg_id_fits,
  bytes_int32-int32_bytes h.s w.s_fits,
  bytes_int32-int32_bytes h.f w.f_fits,
  bytes_int32-int32_bytes h.length_field w.length_fits,
)

pub length-header_bytes : (h : SecsPacketHeader) → length (header_bytes h) ≡ header_size
unfolding header_bytes
length-header_bytes h = refl

pub drop-header_bytes :
    (h : SecsPacketHeader) (rest : List ℕ) → drop header_size (header_bytes h ++ rest) ≡ rest
unfolding header_bytes
drop-header_bytes h rest = refl

pub length-to_byte_array : (p : SecsPacket) → length (to_byte_array p) ≡ header_size + length p.body
unfolding to_byte_array
length-to_byte_array p = omega (arith, length-append (header_bytes _) p.body, length-header_bytes _)

-- The header that `to_byte_array` writes.
abbrev pub sent_header : SecsPacket → SecsPacketHeader
sent_header p = let h = p.header in record h { length_field = word32 (header_size + length p.body) }

pub header_of_bytes-to_byte_array :
    (p : SecsPacket) → IsWord p.header → header_of_bytes (to_byte_array p) ≡ sent_header p
unfolding to_byte_array
header_of_bytes-to_byte_array p w = header_of_bytes-header_bytes (sent_header p) p.body (record {
  msg_id_fits = w.msg_id_fits;
  s_fits = w.s_fits;
  f_fits = w.f_fits;
  length_fits = omega arith;
})

pub drop-to_byte_array : (p : SecsPacket) → drop header_size (to_byte_array p) ≡ p.body
unfolding to_byte_array
drop-to_byte_array p = drop-header_bytes (sent_header p) p.body

-- A packet that was written is read back whole, into any packet, with its length field set to the
-- number of bytes; its fields are 32-bit patterns, and it has fewer than 2 ^ 31 bytes.
pub from_byte_array-to_byte_array :
    (p q : SecsPacket)
    → IsWord p.header
    → header_size + length p.body < 2 ^ 31
    → from_byte_array (to_byte_array p) q ≡ (true, set_body p.body p)
unfolding from_byte_array set_body
from_byte_array-to_byte_array p q w small =
    rw (header_of_bytes-to_byte_array p w, drop-to_byte_array p, length-to_byte_array p)
      (ground arith)

-- Bytes, fewer than 2 ^ 31, are refused exactly when they are too few for a header, or fewer than the header's length
-- field says; a refusal keeps the body. A refusal of the first kind changes nothing at all.
from_byte_array_refuses :
    (raw : List ℕ) (p : SecsPacket)
    → length raw < 2 ^ 31
    → (((from_byte_array raw p).0 ≡ false) ↔ (
        (length raw < header_size)
        ⊎ ((ltb_ℤ (pos (length raw)) (signed32 (header_of_bytes raw).length_field)) ≡ true)))
      × ((from_byte_array raw p).0 ≡ false → (from_byte_array raw p).1.body ≡ p.body)
      × (length raw < header_size → (from_byte_array raw p).1 ≡ p)
unfolding from_byte_array
from_byte_array_refuses raw p small = (ground arith, ground arith, ground arith)
