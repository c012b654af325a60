-- ===== src/Wire/Publish.antt =====
-- `mqtt_parse_publish` and `mqtt_parse_ack` of main/mqtt_parser.c.
pub mod Safety
pub mod Body
pub mod RoundTrip
use mqtt_broker_esp.Prelude.{
  ℕ, ◌+◌, ◌-◌, ◌/◌, List, Bool, drop, leb, ltb, ◌==◌, if◌then◌else◌, bit_and,
}
use mqtt_broker_esp.Wire.Read.{
  Parsed, ok, ◌>>=◌, ◌>>◌, require, malformed, read_u8, read_u16, copy_bytes, copy_len,
  max_topic_len,
}
use mqtt_broker_esp.Wire.Length.{skip_header}

-- `mqtt_publish_t`; `payload` points into the receive buffer.
pub record Publish : Type 0 where
  pub topic : List ℕ
  pub payload : List ℕ
  pub payload_len : ℕ
  pub qos : ℕ
  pub retain : Bool
  pub dup : Bool
  pub packet_id : ℕ

-- The packet identifier, where the QoS has one, and the offset of the payload.
unfoldable pub read_packet_id : ℕ → List ℕ → ℕ → ℕ → Parsed (ℕ × ℕ)
read_packet_id qos var var_len offset =
    let some_id : Parsed (ℕ × ℕ) = do
      require (leb (offset + 2) var_len) malformed
      packet_id ← read_u16 (drop offset var)
      ok (packet_id, offset + 2)
    in if ltb 0 qos then some_id else ok (0, offset)

unfoldable pub parse_publish : List ℕ → ℕ → Parsed Publish
parse_publish pkt pkt_len = do
  require (leb 2 pkt_len) malformed
  byte0 ← read_u8 pkt
  let dup = bit_and (byte0 / 8) 0x01 == 1
  let qos = bit_and (byte0 / 2) 0x03
  let retain = bit_and byte0 0x01 == 1
  (var_len, rl_bytes) ← skip_header malformed pkt pkt_len
  let var = drop (1 + rl_bytes) pkt
  require (leb 2 var_len) malformed
  topic_len ← read_u16 var
  require (leb (2 + topic_len) var_len) malformed
  topic ← copy_bytes (copy_len max_topic_len topic_len) (drop 2 var)
  (packet_id, offset) ← read_packet_id qos var var_len (2 + topic_len)
  ok (record {
    topic = topic;
    payload = drop offset var;
    payload_len = if ltb offset var_len then var_len - offset else 0;
    qos = qos;
    retain = retain;
    dup = dup;
    packet_id = packet_id;
  })

unfoldable pub parse_ack : List ℕ → ℕ → Parsed ℕ
unfolding skip_header read_u16
parse_ack pkt pkt_len = do
  require (leb 4 pkt_len) malformed
  (remaining, rl_bytes) ← skip_header malformed pkt pkt_len
  require (leb 2 remaining) malformed
  require (leb (1 + rl_bytes + 2) pkt_len) malformed
  read_u16 (drop (1 + rl_bytes) pkt)
