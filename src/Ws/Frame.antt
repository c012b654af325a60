-- ===== src/Ws/Frame.antt =====
-- main/portal_ws.c: the frames of RFC 6455. The client's are read from the socket, those to the client
-- are built in a buffer.
pub mod RoundTrip
use mqtt_broker_esp.Prelude.{
  ℕ, zero, suc, ◌+◌, ◌*◌, ◌/◌, ◌%◌, ◌^◌, List, [], ◌∷◌, ◌++◌, length, take, get_or, Bool, true,
  false, not, ltb, leb, ◌==◌, if◌then◌else◌, Option, none, some, bit_and, bit_or, bit_xor,
}
use mqtt_broker_esp.Ws.Socket.{Turn, recv_n}

abbrev pub rx_buf_size : ℕ
rx_buf_size = 2048

abbrev pub tx_buf_size : ℕ
tx_buf_size = 1024

abbrev pub op_text : ℕ
op_text = 1

abbrev pub op_bin : ℕ
op_bin = 2

abbrev pub op_close : ℕ
op_close = 8

abbrev pub op_ping : ℕ
op_ping = 9

abbrev pub op_pong : ℕ
op_pong = 10

-- `ctx->rx[i] ^= mask[i & 3]`, from offset `i` on.
unfoldable pub unmask : (mask : List ℕ) (i : ℕ) → List ℕ → List ℕ
unmask mask i [] = []
unmask mask i (b ∷ bytes) = bit_xor b (get_or mask (bit_and i 3) 0) ∷ unmask mask (i + 1) bytes

infixl 5 ◌>>=◌ ◌>>◌
abbrev pub ◌>>=◌ {ℓ κ} : {A : Type ℓ} {B : Type κ} → Option A → (A → Option B) → Option B
none >>= f = none
some a >>= f = f a

abbrev pub ◌>>◌ {ℓ} : {B : Type ℓ} → Option (Unit {0}) → Option B → Option B
m >> k = m >>= λ _. k

-- `if (!test) return -1;`
abbrev pub require : Bool → Option (Unit {0})
require true = some tt
require false = none

-- A received frame: the opcode and the unmasked payload in `ctx->rx`.
pub record Frame : Type 0 where
  pub opcode : ℕ
  pub payload : List ℕ

-- The two bytes of an extended length.
abbrev pub two_byte_length : Option (List ℕ × List Turn) → Option (ℕ × List Turn)
two_byte_length received = do
  (ext, turns) ← received
  some (bit_or (get_or ext 0 0 * 2 ^ 8) (get_or ext 1 0), turns)

-- The length of the payload, where `len` is that of the second byte.
unfoldable pub payload_length : (len : ℕ) → List Turn → Option (ℕ × List Turn)
unfolding recv_n
payload_length len turns =
    if len == 126
    then two_byte_length (recv_n 2 turns)
    else if len == 127
    then none
    else some (len, turns)

unfoldable pub recv_frame : List Turn → Option (Frame × List Turn)
unfolding recv_n payload_length unmask
recv_frame turns = do
  (hdr, turns) ← recv_n 2 turns
  let fin = not (bit_and (get_or hdr 0 0) 0x80 == 0)
  let opcode = bit_and (get_or hdr 0 0) 0x0F
  let masked = not (bit_and (get_or hdr 1 0) 0x80 == 0)
  require masked
  require fin
  require (bit_and (get_or hdr 0 0) 0x70 == 0)
  (len, turns) ← payload_length (bit_and (get_or hdr 1 0) 0x7F) turns
  require (leb len rx_buf_size)
  (mask, turns) ← recv_n 4 turns
  (rx, turns) ← recv_n len turns
  some (record { opcode = opcode; payload = unmask mask 0 rx }, turns)

-- A text frame in a buffer of `out_cap` bytes; `none` is -1.
unfoldable pub build_text_frame : (out_cap : ℕ) → List ℕ → Option (List ℕ)
build_text_frame out_cap payload =
    let len = length payload in
    if ltb len 126
    then (if ltb out_cap (2 + len) then none else some (bit_or 0x80 op_text ∷ len % 256 ∷ payload))
    else if leb len 0xFFFF
    then (if ltb out_cap (4 + len)
        then none
        else some
            (bit_or 0x80 op_text ∷ 126 ∷ bit_and (len / 2 ^ 8) 0xFF ∷ bit_and len 0xFF ∷ payload))
    else none

-- What `send_text` hands to `send_all`, if anything.
unfoldable pub text_frame : List ℕ → Option (List ℕ)
unfolding build_text_frame
text_frame payload = build_text_frame (tx_buf_size + 16) payload

-- The frame that `send_close` sends.
unfoldable pub close_frame : (code : ℕ) → List ℕ
close_frame code = bit_or 0x80 op_close ∷ 2 ∷ code / 2 ^ 8 % 256 ∷ bit_and code 0xFF ∷ []

-- The frame that `send_pong` sends.
unfoldable pub pong_frame : List ℕ → List ℕ
pong_frame payload =
    let len = if ltb 125 (length payload) then 125 else length payload in
    bit_or 0x80 op_pong ∷ len % 256 ∷ take len payload
