-- ===== src/Wire/Connect/Safety.antt =====
-- `mqtt_parse_connect` on a complete packet reads inside it, and its results fit their arrays.
use mqtt_broker_esp.Prelude.{
  ℕ, ◌+◌, ◌-◌, ◌≤◌, ◌<◌, ◌≡◌, refl, List, [], Bool, false, ◌&&◌, not, length, drop, leb, ◌==◌,
  length-drop, arith, bytes_eq, bit_and,
}
use mqtt_broker_esp.Wire.Read.{
  ParseError, max_topic_len, max_client_id_len, bad_protocol, bad_creds, id_rejected,
}
use mqtt_broker_esp.Wire.Read.Safe.{
  Safe, returns, Safe-bind, Safe-if, Safe-require, Safe-or_return, Safe-read_u8, Safe-read_u16,
  Safe-copy_bytes, Safe-copy_string, Safe-read_utf8_string, Safe-weaken,
}
use mqtt_broker_esp.Wire.Length.Decode.{IsPacket}
use mqtt_broker_esp.Wire.Connect.{
  Connect, Cursor, advance, flag, read_field, read_optional, skip_string, read_client_id, skip_will,
  mqtt_name, read_flags, parse_connect_payload, parse_connect,
}

-- The cursor stays inside the buffer.
abbrev IsInside : Cursor → Type 0
IsInside p = p.1 ≤ length p.0

-- What the parser keeps of a string: at most `cap - 1` bytes.
abbrev Fits : ℕ → List ℕ × Cursor → Type 0
Fits cap r = (length r.0 < cap) × IsInside r.1

advance-IsInside : (p : Cursor) (n : ℕ) → IsInside p → IsInside (advance p n)
advance-IsInside p n h = omega (arith, length-drop n p.0)

Safe-read_field :
    (e : ParseError) (cap : ℕ) (p : Cursor)
    → 0 < cap
    → IsInside p
    → Safe (Fits cap) (read_field e cap p)
unfolding read_field
Safe-read_field e cap p hc h =
    Safe-bind (Safe-or_return e (Safe-read_utf8_string p.0 p.1 h)) λ s hs.
      Safe-bind (Safe-copy_string cap s.1 s.0 hc hs.2)
        λ c hcopy. returns (hcopy.0, advance-IsInside p (2 + s.1) h)

Safe-read_optional :
    (b : Bool) (e : ParseError) (cap : ℕ) (p : Cursor)
    → 0 < cap
    → IsInside p
    → Safe (λ r. Fits cap r × (b ≡ false → r.0 ≡ [])) (read_optional b e cap p)
unfolding read_optional
Safe-read_optional b e cap p hc h =
    Safe-if b (λ t. Safe-weaken (Safe-read_field e cap p hc h) (λ r f. (f, λ n. cc)))
      (λ n. returns ((hc, h), λ _. refl))

Safe-skip_string : (e : ParseError) (p : Cursor) → IsInside p → Safe IsInside (skip_string e p)
unfolding skip_string
Safe-skip_string e p h =
    Safe-bind (Safe-or_return e (Safe-read_utf8_string p.0 p.1 h))
      λ s hs. returns (advance-IsInside p (2 + s.1) h)

Safe-skip_will : (b : Bool) (p : Cursor) → IsInside p → Safe IsInside (skip_will b p)
unfolding skip_will
Safe-skip_will b p h =
    Safe-if b
      (λ _.
        Safe-bind (Safe-skip_string bad_protocol p h) (λ q hq. Safe-skip_string bad_protocol q hq))
      (λ _. returns h)

Safe-read_client_id :
    (clean : Bool) (p : Cursor)
    → IsInside p
    → Safe
        (λ r. Fits max_client_id_len r × (clean ≡ false → 0 < length r.0))
        (read_client_id clean p)
unfolding read_client_id
Safe-read_client_id clean p h =
    Safe-bind (Safe-or_return id_rejected (Safe-read_utf8_string p.0 p.1 h)) λ s hs.
      Safe-bind (Safe-require (not (s.1 == 0 && not clean)) id_rejected) λ _ named.
        Safe-bind (Safe-copy_string max_client_id_len s.1 s.0 (omega arith) hs.2)
          λ c hc. returns ((hc.0, advance-IsInside p (2 + s.1) h), λ persistent. ground arith)

Safe-read_flags : (var : List ℕ) → 10 ≤ length var → Safe (λ _. Unit {0}) (read_flags var)
unfolding read_flags
Safe-read_flags var h = Safe-bind (Safe-read_u8 var (omega arith)) λ v0 _.
    Safe-bind (Safe-require (v0 == 0x00) bad_protocol) λ _ _.
      Safe-bind (Safe-read_u8 (drop 1 var) (omega (arith, length-drop 1 var))) λ v1 _.
        Safe-bind (Safe-require (v1 == 0x04) bad_protocol) λ _ _.
          Safe-bind (Safe-copy_bytes 4 (drop 2 var) (omega (arith, length-drop 2 var))) λ name _.
            Safe-bind (Safe-require (bytes_eq name mqtt_name) bad_protocol) λ _ _.
              Safe-bind (Safe-read_u8 (drop 6 var) (omega (arith, length-drop 6 var))) λ level _.
                Safe-bind (Safe-require (level == 0x04) bad_protocol) λ _ _.
                  Safe-bind (Safe-read_u8 (drop 7 var) (omega (arith, length-drop 7 var)))
                    λ flags _.
                      Safe-bind (Safe-require (bit_and flags 0x01 == 0) bad_protocol)
                        λ _ _. returns tt

-- What a broker may rely on in a CONNECT that the parser accepts.
pub record IsAccepted (c : Connect) : Type 0 where
  pub id_fits : length c.client_id < max_client_id_len
  pub named : c.clean_session ≡ false → 0 < length c.client_id
  pub keep_alive_fits : c.keep_alive < 65536
  pub username_fits : length c.username < max_topic_len
  pub password_fits : length c.password < max_topic_len
  pub no_username : c.has_username ≡ false → c.username ≡ []
  pub no_password : c.has_password ≡ false → c.password ≡ []

Safe-parse_connect_payload :
    (flags keep_alive : ℕ) (p : Cursor)
    → keep_alive < 65536
    → IsInside p
    → Safe IsAccepted (parse_connect_payload flags keep_alive p)
unfolding parse_connect_payload
Safe-parse_connect_payload flags keep_alive p hk h =
    Safe-bind (Safe-read_client_id (flag flags 2) p h) λ r hr.
      Safe-bind (Safe-skip_will (flag flags 4) r.1 hr.0.1) λ q hq.
        Safe-bind (Safe-read_optional (flag flags 128) bad_creds max_topic_len q (omega arith) hq)
          λ u hu.
            Safe-bind
              (Safe-read_optional (flag flags 64) bad_creds max_topic_len u.1 (omega arith) hu.0.1)
              λ w hw. returns (record {
                id_fits = hr.0.0;
                named = hr.1;
                keep_alive_fits = hk;
                username_fits = hu.0.0;
                password_fits = hw.0.0;
                no_username = hu.1;
                no_password = hw.1;
              })

-- On a complete packet the CONNECT parser never reads outside the buffer. It refuses the
-- packet, or returns fields that fit their arrays.
pub parse_connect-Safe :
    (pkt : List ℕ) (pkt_len remaining rl_bytes : ℕ)
    → IsPacket pkt pkt_len remaining rl_bytes
    → pkt_len ≤ length pkt
    → Safe IsAccepted (parse_connect pkt pkt_len)
unfolding parse_connect
parse_connect-Safe pkt pkt_len remaining rl_bytes v h = rw v.header (
    Safe-bind (Safe-require (leb 2 pkt_len) bad_protocol) λ _ _.
      Safe-bind (Safe-require (leb 10 remaining) bad_protocol) λ _ big.
        let var : List ℕ = drop (1 + rl_bytes) pkt in
        let room : remaining ≤ length var =
          omega (arith, v.total, length-drop (1 + rl_bytes) pkt) in
        Safe-bind (Safe-read_flags var (ground arith)) λ flags _.
          Safe-bind (Safe-read_u16 (drop 8 var) (ground (arith, length-drop 8 var))) λ keep hk.
            Safe-parse_connect_payload flags keep (drop 10 var, remaining - 10) hk
              (omega (arith, length-drop 10 var)))
