-- ===== src/Wire/Length/Decode.antt =====
-- What `mqtt_decode_remaining_length` and `mqtt_packet_length` do.
use mqtt_broker_esp.Prelude.{
  ℕ, zero, suc, ◌+◌, ◌-◌, ◌*◌, ◌/◌, ◌%◌, ◌^◌, ◌<◌, ◌≤◌, ◌≡◌, ◌≢◌, ap, List, [], ◌∷◌, ◌++◌, arith,
  ltb, low_bits, top_bit, length, bit_and, drop, Bool-cases, inl, inr, refl,
}
use native.Mathlib.Nat.{div-add-mod}
use mqtt_broker_esp.Wire.Length.{
  Decoded, need_more, bad_length, out_of_buffer, decoded, decode_loop, decode_remaining_length,
  encode_remaining_length, complete, frame_of, packet_length,
}
use mqtt_broker_esp.Wire.Length.Encode.{groups, encode-groups}

-- One round of the loop on a last byte and on a byte with the continuation bit.
last_byte :
    (w n i val m : ℕ) (rest : List ℕ)
    → w < 128
    → i < n
    → i < 4
    → val + w * m < 2 ^ 32
    → decode_loop (w ∷ rest) n i val m ≡ decoded (val + w * m) (i + 1)
unfolding decode_loop
last_byte w n i val m rest hw hn hi fits = ground (arith, low_bits w, top_bit w)

inner_byte :
    (g n i val m : ℕ) (rest : List ℕ)
    → g < 128
    → i < n
    → i < 4
    → val + g * m < 2 ^ 32
    → m * 128 < 2 ^ 32
    → decode_loop ((g + 128) ∷ rest) n i val m ≡ decode_loop rest n (i + 1) (val + g * m) (m * 128)
unfolding decode_loop
inner_byte g n i val m rest hg hn hi fits hm = ground (arith, low_bits (g + 128), top_bit (g + 128))

-- The largest multiplier with which `k` more groups may follow.
room : ℕ → ℕ
room zero = 2 ^ 21
room (suc k) = room k / 128

room_le : (k : ℕ) → room k ≤ 2 ^ 21
unfolding room
room_le zero = omega arith
room_le (suc k) = omega (arith, room_le k)

split_group : (v m : ℕ) → v * m ≡ v % 128 * m + v / 128 * (m * 128)
split_group v m = omega (arith, ap (λ t. t * m) (div-add-mod v 128))

-- `val` has been read and `v * m` is still to come.
decode-groups :
    (k v n i val m : ℕ) (rest : List ℕ)
    → k + i < 4
    → v < 128 ^ suc k
    → val + v * m < 2 ^ 28
    → m ≤ room k
    → i + length (groups k v) ≤ n
    → decode_loop (groups k v ++ rest) n i val m ≡ decoded (val + v * m) (i + length (groups k v))
unfolding groups room
decode-groups zero v n i val m rest hi hv fits hm hn = ground (arith, last_byte v n i val m rest)
decode-groups (suc k) v n i val m rest hi hv fits hm hn = ground (
  arith,
  last_byte v n i val m rest,
  room_le k,
  split_group v m,
  inner_byte (v % 128) n i val m (groups k (v / 128) ++ rest),
  decode-groups k (v / 128) n (i + 1) (val + v % 128 * m) (m * 128) rest (omega arith)
      (omega arith),
)

-- Decoding an encoded number below 2^28, with all its bytes in the buffer, gives the number
-- back and consumes its bytes, whatever follows them.
pub decode-encode :
    (v n : ℕ) (rest : List ℕ)
    → v < 2 ^ 28
    → length (encode_remaining_length v) ≤ n
    → decode_remaining_length (encode_remaining_length v ++ rest) n
      ≡ decoded v (length (encode_remaining_length v))
unfolding decode_remaining_length room
decode-encode v n rest h hn =
    rw (encode-groups v h) (
      ground (arith, encode-groups v h, decode-groups 3 v n 0 0 1 rest (omega arith) (omega arith)))

pub decode_loop-ne-out :
    (buf : List ℕ) (n i val m : ℕ) → n ≤ i + length buf → decode_loop buf n i val m ≢ out_of_buffer
unfolding decode_loop
decode_loop-ne-out [] n i val m h = ground arith
decode_loop-ne-out (b ∷ buf) n i val m h = ground (
  arith,
  decode_loop-ne-out buf n (i + 1) ((val + bit_and b 0x7F * m % 2 ^ 32) % 2 ^ 32)
      (m * 128 % 2 ^ 32),
)

-- A result does not depend on the bytes behind the ones consumed, nor on how many there are.
pub decode_loop_prefix :
    (buf : List ℕ) (n n' i val m v c : ℕ)
    → decode_loop buf n i val m ≡ decoded v c
    → c ≤ n'
    → (decode_loop buf n' i val m ≡ decoded v c) × (i < c) × (c ≤ n) × (c ≤ 4)
unfolding decode_loop
decode_loop_prefix [] n n' i val m v c e h = ground arith
decode_loop_prefix (b ∷ buf) n n' i val m v c e h = ground (
  arith,
  decode_loop_prefix buf n n' (i + 1) ((val + bit_and b 0x7F * m % 2 ^ 32) % 2 ^ 32)
      (m * 128 % 2 ^ 32) v c,
)

-- A complete packet: its header decodes, within the packet, and the three lengths add up.
pub record IsPacket (buf : List ℕ) (pkt_len remaining rl_bytes : ℕ) : Type 0 where
  pub header : decode_remaining_length (drop 1 buf) (pkt_len - 1) ≡ decoded remaining rl_bytes
  pub total : pkt_len ≡ 1 + rl_bytes + remaining
  pub rl_in : (1 ≤ rl_bytes) × (rl_bytes ≤ 4)

complete-header :
    (buf : List ℕ) (buf_len n : ℕ) (d : Decoded)
    → decode_remaining_length (drop 1 buf) (buf_len - 1) ≡ d
    → frame_of buf_len d ≡ complete n
    → (remaining rl_bytes : ℕ) × IsPacket buf n remaining rl_bytes × (n ≤ buf_len)
unfolding decode_remaining_length
complete-header buf buf_len n need_more e f = cc
complete-header buf buf_len n bad_length e f = cc
complete-header buf buf_len n out_of_buffer e f = cc
complete-header buf buf_len n (decoded v c) e f =
    let p = decode_loop_prefix (drop 1 buf) (buf_len - 1) (n - 1) 0 0 1 v c e (ground arith) in
    (v, c, record { header = p.0; total = ground arith; rl_in = (p.1, p.3) }, ground arith)

-- What `mqtt_packet_length` reports as complete is a packet that lies in the buffer.
pub packet_length-IsPacket :
    (buf : List ℕ) (buf_len n : ℕ)
    → packet_length buf buf_len ≡ complete n
    → (remaining rl_bytes : ℕ) × IsPacket buf n remaining rl_bytes × (n ≤ buf_len)
unfolding packet_length
packet_length-IsPacket buf buf_len n h = elim (Bool-cases (ltb buf_len 2)) [
  | inl short ↦ cc (rw (short) at h)
  | inr long ↦ complete-header buf buf_len n _ refl (rw (long) at h)
]
