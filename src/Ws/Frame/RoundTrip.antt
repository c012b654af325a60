-- ===== src/Ws/Frame/RoundTrip.antt =====
-- main/portal_ws.c: a frame that a client masks and sends is received, however its bytes arrive.
use mqtt_broker_esp.Prelude.{
  ℕ, zero, suc, ◌+◌, ◌*◌, ◌/◌, ◌%◌, ◌≤◌, ◌<◌, ◌≡◌, refl, ap, ◌∙◌, List, [], ◌∷◌, ◌++◌, length,
  get_or, All, true, false, ltb, leb, ◌==◌, ==_iff, if◌then◌else◌, Option, none, some, arith,
  Bool-cases, inl, inr, bit_and, bit_or, bit_xor, every_below, every_below→at, low_bits, top_bit,
  low_nibble, join_bytes, append_assoc, length-append, take-append, drop-append,
}
use mqtt_broker_esp.Ws.Socket.{Turn, recv_n}
use mqtt_broker_esp.Ws.Socket.Stream.{stream, view, split_at, recv_n-split_at}
use mqtt_broker_esp.Ws.Frame.{rx_buf_size, unmask, Frame, payload_length, recv_frame}

received :
    (r : Option (List ℕ × List Turn)) (bytes rest : List ℕ)
    → view r ≡ some (bytes, rest)
    → (left : List Turn) × (r ≡ some (bytes, left)) × (stream left ≡ rest)
received none bytes rest e = cc
received (some (got, turns)) bytes rest e = (turns, cc, cc)

-- `recv_n` on a stream that starts with the bytes.
pub recv_n-append :
    (bytes rest : List ℕ) (turns : List Turn)
    → stream turns ≡ bytes ++ rest
    → (left : List Turn) × (recv_n (length bytes) turns ≡ some (bytes, left)) × (stream left ≡ rest)
unfolding split_at
recv_n-append bytes rest turns e =
    let enough : ltb (length (bytes ++ rest)) (length bytes) ≡ false =
      ground (arith, length-append bytes rest) in
    let whole : split_at (length bytes) (bytes ++ rest) ≡ some (bytes, rest) =
      rw (enough, take-append bytes rest, drop-append bytes rest) refl in
    received (recv_n (length bytes) turns) bytes rest
      (recv_n-split_at (length bytes) turns ∙ ap (split_at (length bytes)) e ∙ whole)

bit_xor_twice : (b k : ℕ) → b < 256 → k < 256 → bit_xor (bit_xor b k) k ≡ b
unfolding every_below
bit_xor_twice b k hb hk =
    let row : every_below 256 (λ j. bit_xor (bit_xor b j) j == b) ≡ true =
      every_below→at 256 (λ c. every_below 256 (λ j. bit_xor (bit_xor c j) j == c)) b refl hb in
    (==_iff (bit_xor (bit_xor b k) k) b).0
      (every_below→at 256 (λ j. bit_xor (bit_xor b j) j == b) k row hk)

abbrev IsByte : ℕ → Type 0
IsByte b = b < 256

mask_byte : (mask : List ℕ) (i : ℕ) → All IsByte mask → get_or mask i 0 < 256
mask_byte [] i h = omega arith
mask_byte (m ∷ mask) zero h = h.0
mask_byte (m ∷ mask) (suc i) h = mask_byte mask i h.1

-- Masking is its own inverse.
unmask-unmask :
    (mask : List ℕ) (i : ℕ) (bytes : List ℕ)
    → All IsByte mask
    → All IsByte bytes
    → unmask mask i (unmask mask i bytes) ≡ bytes
unfolding unmask
unmask-unmask mask i [] h k = refl
unmask-unmask mask i (b ∷ bytes) h k =
    ap (λ t. t ∷ unmask mask (i + 1) (unmask mask (i + 1) bytes))
      (bit_xor_twice b (get_or mask (bit_and i 3) 0) k.0 (mask_byte mask (bit_and i 3) h))
    ∙ ap (λ t. b ∷ t) (unmask-unmask mask (i + 1) bytes h k.1)

length-unmask :
    (mask : List ℕ) (i : ℕ) (bytes : List ℕ) → length (unmask mask i bytes) ≡ length bytes
unfolding unmask
length-unmask mask i [] = refl
length-unmask mask i (b ∷ bytes) = ap suc (length-unmask mask (i + 1) bytes)

-- The second byte of a masked frame, and the bytes of an extended length.
abbrev pub second_byte : (len : ℕ) → ℕ
second_byte len = if ltb len 126 then 128 + len else 254

abbrev pub length_bytes : (len : ℕ) → List ℕ
length_bytes len = if ltb len 126 then [] else len / 256 ∷ len % 256 ∷ []

payload_length-length_bytes :
    (len : ℕ) (rest : List ℕ) (turns : List Turn)
    → len < 65536
    → stream turns ≡ length_bytes len ++ rest
    → (left : List Turn) × (payload_length (bit_and (second_byte len) 0x7F) turns
        ≡ some (len, left))
      × (stream left ≡ rest)
unfolding payload_length
payload_length-length_bytes len rest turns h e = elim (Bool-cases (ltb len 126)) [
  | inl short ↦
      let low : bit_and (128 + len) 0x7F ≡ len =
        low_bits (128 + len) (ground arith) ∙ ground arith in
      let is_126 : (len == 126) ≡ false = ground arith in
      let is_127 : (len == 127) ≡ false = ground arith in
      rw (short, low, is_126, is_127) (turns, refl, rw short at e)
  | inr long ↦
      let bytes : List ℕ = len / 256 ∷ len % 256 ∷ [] in
      let (left, got, behind) = recv_n-append bytes rest turns (rw long at e) in
      let joined : bit_or (len / 256 * 256) (len % 256) ≡ len =
        join_bytes (len / 256) (len % 256) (omega arith) ∙ omega arith in
      rw long (left, rw (got, joined) refl, behind)
]

mask_70_table : every_below 16 (λ op. bit_and (128 + op) 0x70 == 0) ≡ true
unfolding every_below
mask_70_table = refl

second_byte_masked : (len : ℕ) → bit_and (second_byte len) 0x80 ≡ 128
second_byte_masked len = elim (Bool-cases (ltb len 126)) [
  | inl short ↦ rw short (top_bit (128 + len) (ground arith) ∙ ground arith)
  | inr long ↦ rw long refl
]

-- A final masked frame as RFC 6455 has it.
unfoldable pub client_frame : Frame → (mask : List ℕ) → List ℕ
client_frame f mask =
    let len = length f.payload in
    (128 + f.opcode) ∷ second_byte len ∷ (length_bytes len ++ (mask ++ unmask mask 0 f.payload))

lt_of_fits : (n : ℕ) → n ≤ rx_buf_size → n < 65536
lt_of_fits n h = omega arith

leb_fits : (n : ℕ) → n ≤ rx_buf_size → leb n rx_buf_size ≡ true
leb_fits n h = ground arith

-- The parts of a frame, each received from where the one before has ended.
recv_frame-parts :
    (f : Frame) (mask rx : List ℕ) (turns t1 t2 t3 t4 : List Turn)
    → f.opcode < 16
    → length f.payload ≤ rx_buf_size
    → length rx ≡ length f.payload
    → unmask mask 0 rx ≡ f.payload
    → recv_n 2 turns ≡ some ((128 + f.opcode) ∷ second_byte (length f.payload) ∷ [], t1)
    → payload_length (bit_and (second_byte (length f.payload)) 0x7F) t1
      ≡ some (length f.payload, t2)
    → recv_n 4 t2 ≡ some (mask, t3)
    → recv_n (length rx) t3 ≡ some (rx, t4)
    → recv_frame turns ≡ some (f, t4)
unfolding recv_frame
recv_frame-parts f mask rx turns t1 t2 t3 t4 hop hlen same unmasked e1 e2 e3 e4 =
    let op : ℕ = f.opcode in
    let fin : bit_and (128 + op) 0x80 ≡ 128 = top_bit (128 + op) (omega arith) ∙ omega arith in
    let reserved : (bit_and (128 + op) 0x70 == 0) ≡ true =
      every_below→at 16 (λ op. bit_and (128 + op) 0x70 == 0) op mask_70_table hop in
    let code : bit_and (128 + op) 0x0F ≡ op = low_nibble (128 + op) (omega arith) ∙ omega arith in
    let fits : leb (length f.payload) rx_buf_size ≡ true = leb_fits (length f.payload) hlen in
    let last : recv_n (length f.payload) t3 ≡ some (rx, t4) = rw same at e4 in
    rw
      (e1, second_byte_masked (length f.payload), fin, reserved, e2, fits, e3, last, code, unmasked)
      refl

-- A masked frame of at most 2048 bytes of payload is received with its opcode and its payload, and
-- what follows it stays, whatever the pieces in which the bytes arrive and the interruptions.
pub recv_frame-client_frame :
    (f : Frame) (mask rest : List ℕ) (turns : List Turn)
    → f.opcode < 16
    → length mask ≡ 4
    → All IsByte mask
    → All IsByte f.payload
    → length f.payload ≤ rx_buf_size
    → stream turns ≡ client_frame f mask ++ rest
    → (left : List Turn) × (recv_frame turns ≡ some (f, left)) × (stream left ≡ rest)
unfolding client_frame
recv_frame-client_frame f mask rest turns hop h4 hm hp hlen e =
    let len : ℕ = length f.payload in
    let rx : List ℕ = unmask mask 0 f.payload in
    let hdr : List ℕ = (128 + f.opcode) ∷ second_byte len ∷ [] in
    let (t1, e1, s1) = recv_n-append hdr ((length_bytes len ++ (mask ++ rx)) ++ rest) turns e in
    let regrouped =
      append_assoc (length_bytes len) (mask ++ rx) rest
      ∙ ap (λ t. length_bytes len ++ t) (append_assoc mask rx rest) in
    let (t2, e2, s2) =
      payload_length-length_bytes len (mask ++ (rx ++ rest)) t1 (lt_of_fits len hlen)
        (s1 ∙ regrouped) in
    let (t3, e3, s3) = recv_n-append mask (rx ++ rest) t2 s2 in
    let (t4, e4, s4) = recv_n-append rx rest t3 s3 in
    (
      t4,
      recv_frame-parts f mask rx turns t1 t2 t3 t4 hop hlen (length-unmask mask 0 f.payload)
          (unmask-unmask mask 0 f.payload hm hp) e1 e2 (rw h4 at e3) e4,
      s4,
    )
