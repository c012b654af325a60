-- ===== src/Wire/Read.antt =====
-- The helpers of main/mqtt_parser.c. A C pointer into a buffer is the list of the bytes from it to
-- the end of the buffer's contents, `p + n` is `drop n p`, and a read past the end is `fault`.
pub mod Safe
use mqtt_broker_esp.Prelude.{
  ℕ, ◌+◌, ◌-◌, ◌*◌, ◌%◌, ◌/◌, List, [], ◌∷◌, Bool, true, false, length, take, drop, ltb,
  if◌then◌else◌, bit_and, bit_or,
}

-- How a parser refuses a packet: -1, or the CONNACK return code.
pub data ParseError : Type 0 where
  malformed bad_protocol id_rejected bad_creds : ParseError

-- What a parser does: it returns a value, refuses, or reads outside the buffer (which C leaves
-- undefined).
pub data Parsed {ℓ} (A : Type ℓ) : Type ℓ where
  ok : A → Parsed A
  err : ParseError → Parsed A
  fault : Parsed A

infixl 5 ◌>>=◌ ◌>>◌
abbrev pub ◌>>=◌ {ℓ κ} : {A : Type ℓ} {B : Type κ} → Parsed A → (A → Parsed B) → Parsed B
ok a >>= f = f a
err e >>= f = err e
fault >>= f = fault

abbrev pub ◌>>◌ {ℓ} : {B : Type ℓ} → Parsed (Unit {0}) → Parsed B → Parsed B
m >> k = m >>= λ _. k

-- `if (!test) return e;`
abbrev pub require : Bool → ParseError → Parsed (Unit {0})
require true e = ok tt
require false e = err e

-- `if (consumed < 0) return e;`
abbrev pub or_return {ℓ} : {A : Type ℓ} → ParseError → Parsed A → Parsed A
or_return e (ok a) = ok a
or_return e (err _) = err e
or_return e fault = fault

unfoldable pub read_u8 : List ℕ → Parsed ℕ
read_u8 [] = fault
read_u8 (b ∷ rest) = ok b

unfoldable pub read_u16 : List ℕ → Parsed ℕ
read_u16 [] = fault
read_u16 (h ∷ []) = fault
read_u16 (h ∷ l ∷ rest) = ok (bit_or (h * 256) l % 65536)

unfoldable pub write_u16 : ℕ → List ℕ
write_u16 v = (v / 256 % 256) ∷ bit_and v 0xFF ∷ []

-- `memcpy(out, src, n)`
unfoldable pub copy_bytes : ℕ → List ℕ → Parsed (List ℕ)
copy_bytes n src = if ltb (length src) n then fault else ok (take n src)

-- The string's first byte on and its length; 2 + length bytes are consumed.
unfoldable pub read_utf8_string : List ℕ → ℕ → Parsed (List ℕ × ℕ)
unfolding read_u16
read_utf8_string buf buf_len = if ltb buf_len 2 then err malformed else do
  len ← read_u16 buf
  if ltb buf_len (2 + len) then err malformed else ok (drop 2 buf, len)

-- The C idiom `len < cap - 1 ? len : cap - 1`.
abbrev pub copy_len : ℕ → ℕ → ℕ
copy_len cap len = if ltb len (cap - 1) then len else cap - 1

abbrev pub max_topic_len : ℕ
max_topic_len = 128

abbrev pub max_client_id_len : ℕ
max_client_id_len = 64

abbrev pub max_subs_per_pkt : ℕ
max_subs_per_pkt = 32
