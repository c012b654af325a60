-- ===== src/Wire/Connect.antt =====
-- `mqtt_parse_connect` of main/mqtt_parser.c. A `char` array with its length field is the list of
-- the bytes copied into it.
pub mod Safety
use mqtt_broker_esp.Prelude.{
  ℕ, ◌+◌, ◌-◌, ◌/◌, List, [], ◌∷◌, Bool, true, false, ◌&&◌, not, take, drop, ltb, leb, ◌==◌,
  if◌then◌else◌, bytes_eq, bit_and,
}
use mqtt_broker_esp.Wire.Read.{
  Parsed, ok, err, ◌>>=◌, ◌>>◌, require, or_return, ParseError, bad_protocol, id_rejected,
  bad_creds, read_u8, read_u16, copy_bytes, read_utf8_string, copy_len, max_topic_len,
  max_client_id_len,
}
use mqtt_broker_esp.Wire.Length.{skip_header}

pub record Connect : Type 0 where
  pub client_id : List ℕ
  pub keep_alive : ℕ
  pub connect_flags : ℕ
  pub clean_session : Bool
  pub has_will : Bool
  pub has_username : Bool
  pub has_password : Bool
  pub username : List ℕ
  pub password : List ℕ

-- The bytes still to parse: the pointer `payload` and `payload_len`.
abbrev pub Cursor : Type 0
Cursor = List ℕ × ℕ

abbrev pub advance : Cursor → ℕ → Cursor
advance p n = (drop n p.0, p.1 - n)

-- `(flags >> k) & 0x01`, with `2 ^ k` given.
abbrev pub flag : ℕ → ℕ → Bool
flag flags weight = bit_and (flags / weight) 0x01 == 1

-- One length-prefixed string that is copied into an array of `cap` bytes.
unfoldable pub read_field : ParseError → ℕ → Cursor → Parsed (List ℕ × Cursor)
read_field e cap p = do
  (str, slen) ← or_return e (read_utf8_string p.0 p.1)
  copied ← copy_bytes (copy_len cap slen) str
  ok (copied, advance p (2 + slen))

-- The same, where the packet has the string at all.
unfoldable pub read_optional : Bool → ParseError → ℕ → Cursor → Parsed (List ℕ × Cursor)
unfolding read_field
read_optional present e cap p = if present then read_field e cap p else ok ([], p)

unfoldable pub skip_string : ParseError → Cursor → Parsed Cursor
skip_string e p = do (str, slen) ← or_return e (read_utf8_string p.0 p.1); ok (advance p (2 + slen))

unfoldable pub read_client_id : Bool → Cursor → Parsed (List ℕ × Cursor)
read_client_id clean_session p = do
  (str, slen) ← or_return id_rejected (read_utf8_string p.0 p.1)
  require (not (slen == 0 && not clean_session)) id_rejected
  copied ← copy_bytes (copy_len max_client_id_len slen) str
  ok (copied, advance p (2 + slen))

-- Will topic and will message.
unfoldable pub skip_two_strings : Cursor → Parsed Cursor
unfolding skip_string
skip_two_strings p = do p ← skip_string bad_protocol p; skip_string bad_protocol p

unfoldable pub skip_will : Bool → Cursor → Parsed Cursor
unfolding skip_two_strings
skip_will has_will p = if has_will then skip_two_strings p else ok p

abbrev mqtt_name : List ℕ
mqtt_name = b'M' ∷ b'Q' ∷ b'T' ∷ b'T' ∷ []

-- The variable header up to the flags: "MQTT", level 4, reserved bit clear.
unfoldable pub read_flags : List ℕ → Parsed ℕ
unfolding read_u8 copy_bytes bytes_eq
read_flags var = do
  v0 ← read_u8 var
  require (v0 == 0x00) bad_protocol
  v1 ← read_u8 (drop 1 var)
  require (v1 == 0x04) bad_protocol
  name ← copy_bytes 4 (drop 2 var)
  require (bytes_eq name mqtt_name) bad_protocol
  level ← read_u8 (drop 6 var)
  require (level == 0x04) bad_protocol
  flags ← read_u8 (drop 7 var)
  require (bit_and flags 0x01 == 0) bad_protocol
  ok flags

-- The payload, once the flags and the keep-alive are known.
unfoldable pub parse_connect_payload : ℕ → ℕ → Cursor → Parsed Connect
unfolding read_client_id skip_will read_optional
parse_connect_payload flags keep_alive p = do
  let clean_session = flag flags 2
  let has_will = flag flags 4
  let has_username = flag flags 128
  let has_password = flag flags 64
  (client_id, p) ← read_client_id clean_session p
  p ← skip_will has_will p
  (username, p) ← read_optional has_username bad_creds max_topic_len p
  (password, p) ← read_optional has_password bad_creds max_topic_len p
  ok (record {
    client_id = client_id;
    keep_alive = keep_alive;
    connect_flags = flags;
    clean_session = clean_session;
    has_will = has_will;
    has_username = has_username;
    has_password = has_password;
    username = username;
    password = password;
  })

unfoldable pub parse_connect : List ℕ → ℕ → Parsed Connect
unfolding skip_header read_flags read_u16 parse_connect_payload
parse_connect pkt pkt_len = do
  require (leb 2 pkt_len) bad_protocol
  (var_len, rl_bytes) ← skip_header bad_protocol pkt pkt_len
  let var = drop (1 + rl_bytes) pkt
  require (leb 10 var_len) bad_protocol
  flags ← read_flags var
  keep_alive ← read_u16 (drop 8 var)
  parse_connect_payload flags keep_alive (drop 10 var, var_len - 10)
