-- ===== src/Wire/Length.antt =====
-- The remaining-length codec of main/mqtt_parser.c, and the length of the first packet in a buffer.
pub mod Encode
pub mod Decode
use mqtt_broker_esp.Wire.Read.{Parsed, ParseError, ok, err, fault}
use mqtt_broker_esp.Prelude.{
  ℕ, ◌+◌, ◌-◌, ◌*◌, ◌/◌, ◌%◌, ◌^◌, ◌<◌, List, [], ◌∷◌, Acc, dite, dec_lt, lt_wf, arith, ltb, leb,
  ◌==◌, if◌then◌else◌, drop, bit_and, bit_or,
}

-- `mqtt_decode_remaining_length`: 0, -1, or the value with the bytes consumed.
pub data Decoded : Type 0 where
  need_more bad_length out_of_buffer : Decoded
  decoded : (value consumed : ℕ) → Decoded

-- The list is `buf + i`; `buf_len` counts from `buf`.
unfoldable pub decode_loop : List ℕ → (buf_len i val multiplier : ℕ) → Decoded
decode_loop [] buf_len i val multiplier =
    if leb buf_len i then need_more else if leb 4 i then bad_length else out_of_buffer
decode_loop (b ∷ buf) buf_len i val multiplier =
    let val' = (val + bit_and b 0x7F * multiplier % 2 ^ 32) % 2 ^ 32 in
    let rest = decode_loop buf buf_len (i + 1) val' (multiplier * 128 % 2 ^ 32) in
    if leb buf_len i
    then need_more
    else if leb 4 i
    then bad_length
    else if bit_and b 0x80 == 0
    then decoded val' (i + 1)
    else rest

unfoldable pub decode_remaining_length : List ℕ → ℕ → Decoded
unfolding decode_loop
decode_remaining_length buf buf_len = decode_loop buf buf_len 0 0 1

pub quotient_shrinks : (v : ℕ) → 0 < v / 128 → v / 128 < v
quotient_shrinks v h = omega arith

-- The `do … while (value > 0)` loop.
encode_loop : (v : ℕ) → Acc ◌<◌ v → List ℕ
encode_loop v (Acc.intro _ smaller) =
    dite (dec_lt 0 (v / 128))
      (λ more. bit_or (v % 128) 0x80 ∷ encode_loop (v / 128) (smaller _ (quotient_shrinks v more)))
      (λ _. (v % 128) ∷ [])

unfoldable pub encode_remaining_length : ℕ → List ℕ
unfolding encode_loop lt_wf dec_lt
encode_remaining_length v = encode_loop v (lt_wf.apply v)

-- `mqtt_packet_length`: 1, -1, or 0 with the total length.
pub data Frame : Type 0 where
  incomplete bad_frame outside : Frame
  complete : (pkt_len : ℕ) → Frame

abbrev pub frame_of : ℕ → Decoded → Frame
frame_of buf_len need_more = incomplete
frame_of buf_len bad_length = bad_frame
frame_of buf_len out_of_buffer = outside
frame_of buf_len (decoded remaining rl_bytes) =
    let pkt_len = 1 + rl_bytes + remaining in
    if ltb buf_len pkt_len then incomplete else complete pkt_len

unfoldable pub packet_length : List ℕ → ℕ → Frame
unfolding decode_remaining_length
packet_length buf buf_len =
    if ltb buf_len 2
    then incomplete
    else frame_of buf_len (decode_remaining_length (drop 1 buf) (buf_len - 1))

unfoldable pub packet_type : ℕ → ℕ
packet_type byte0 = bit_and byte0 0xF0

-- How every parser skips the fixed header: the remaining length and the bytes that it takes.
abbrev pub header_of : ParseError → Decoded → Parsed (ℕ × ℕ)
header_of e (decoded remaining rl_bytes) = ok (remaining, rl_bytes)
header_of e out_of_buffer = fault
header_of e _ = err e

unfoldable pub skip_header : ParseError → List ℕ → ℕ → Parsed (ℕ × ℕ)
skip_header e pkt pkt_len = header_of e (decode_remaining_length (drop 1 pkt) (pkt_len - 1))
