-- ===== src/Wire/Subscribe.antt =====
-- `mqtt_parse_subscribe` and `mqtt_parse_unsubscribe` of main/mqtt_parser.c.
pub mod Safety
use mqtt_broker_esp.Prelude.{
  ℕ, zero, suc, ◌+◌, ◌-◌, List, [], ◌∷◌, Bool, not, drop, leb, ltb, ◌==◌, if◌then◌else◌, length,
  bit_and,
}
use mqtt_broker_esp.Wire.Read.{
  Parsed, ok, err, ◌>>=◌, ◌>>◌, require, malformed, read_u8, read_u16, copy_bytes, read_utf8_string,
  copy_len, max_topic_len, max_subs_per_pkt,
}
use mqtt_broker_esp.Wire.Length.{skip_header}

-- `mqtt_sub_topic_t`
pub record SubTopic : Type 0 where
  pub topic : List ℕ
  pub qos : ℕ

-- `count` and the arrays: the list of the entries filled in.
pub record Subscribe : Type 0 where
  pub packet_id : ℕ
  pub topics : List SubTopic

pub record Unsubscribe : Type 0 where
  pub packet_id : ℕ
  pub topics : List (List ℕ)

-- One topic filter with its QoS byte, and what follows: the pointer and `payload_len`.
unfoldable pub read_sub_topic : List ℕ → ℕ → Parsed (SubTopic × List ℕ × ℕ)
unfolding read_utf8_string read_u8 copy_bytes
read_sub_topic payload payload_len = do
  (str, slen) ← read_utf8_string payload payload_len
  let payload = drop (2 + slen) payload
  let payload_len = payload_len - (2 + slen)
  require (leb 1 payload_len) malformed
  qos ← read_u8 payload
  copied ← copy_bytes (copy_len max_topic_len slen) str
  ok (record { topic = copied; qos = bit_and qos 0x03 }, drop 1 payload, payload_len - 1)

-- The loop `while (payload_len > 0 && count < MQTT_MAX_SUBS_PER_PKT)`; `room` entries are free.
unfoldable pub read_sub_topics : ℕ → List ℕ → ℕ → Parsed (List SubTopic)
unfolding read_sub_topic
read_sub_topics zero payload payload_len = ok []
read_sub_topics (suc room) payload payload_len =
    let more : Parsed (List SubTopic) = do
      (t, payload, payload_len) ← read_sub_topic payload payload_len
      ts ← read_sub_topics room payload payload_len
      ok (t ∷ ts)
    in if payload_len == 0 then ok [] else more

abbrev any_of {ℓ} : {A : Type ℓ} → List A → Bool
any_of xs = not (length xs == 0)

unfoldable pub parse_subscribe : List ℕ → ℕ → Parsed Subscribe
unfolding skip_header read_u16 read_sub_topics
parse_subscribe pkt pkt_len = do
  (var_len, rl_bytes) ← skip_header malformed pkt pkt_len
  let var = drop (1 + rl_bytes) pkt
  require (leb 2 var_len) malformed
  packet_id ← read_u16 var
  topics ← read_sub_topics max_subs_per_pkt (drop 2 var) (var_len - 2)
  require (any_of topics) malformed
  ok (record { packet_id = packet_id; topics = topics })

unfoldable pub read_unsub_topic : List ℕ → ℕ → Parsed (List ℕ × List ℕ × ℕ)
unfolding read_utf8_string copy_bytes
read_unsub_topic payload payload_len = do
  (str, slen) ← read_utf8_string payload payload_len
  copied ← copy_bytes (copy_len max_topic_len slen) str
  ok (copied, drop (2 + slen) payload, payload_len - (2 + slen))

unfoldable pub read_unsub_topics : ℕ → List ℕ → ℕ → Parsed (List (List ℕ))
unfolding read_unsub_topic
read_unsub_topics zero payload payload_len = ok []
read_unsub_topics (suc room) payload payload_len =
    let more : Parsed (List (List ℕ)) = do
      (t, payload, payload_len) ← read_unsub_topic payload payload_len
      ts ← read_unsub_topics room payload payload_len
      ok (t ∷ ts)
    in if payload_len == 0 then ok [] else more

unfoldable pub parse_unsubscribe : List ℕ → ℕ → Parsed Unsubscribe
unfolding skip_header read_u16 read_unsub_topics
parse_unsubscribe pkt pkt_len = do
  (var_len, rl_bytes) ← skip_header malformed pkt pkt_len
  let var = drop (1 + rl_bytes) pkt
  require (leb 2 var_len) malformed
  packet_id ← read_u16 var
  topics ← read_unsub_topics max_subs_per_pkt (drop 2 var) (var_len - 2)
  require (any_of topics) malformed
  ok (record { packet_id = packet_id; topics = topics })
