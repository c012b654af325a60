-- ===== src/Wire/Subscribe/Safety.antt =====
-- `mqtt_parse_subscribe` and `mqtt_parse_unsubscribe` on a complete packet.
use mqtt_broker_esp.Prelude.{
  ℕ, zero, suc, ◌+◌, ◌-◌, ◌≤◌, ◌<◌, List, length, drop, leb, ◌==◌, length-drop, arith, All,
  two_bits,
}
use mqtt_broker_esp.Wire.Read.{malformed, max_topic_len, max_subs_per_pkt}
use mqtt_broker_esp.Wire.Read.Safe.{
  Safe, returns, Safe-bind, Safe-if, Safe-require, Safe-read_u8, Safe-read_u16, Safe-copy_string,
  Safe-read_utf8_string,
}
use mqtt_broker_esp.Wire.Length.Decode.{IsPacket}
use mqtt_broker_esp.Wire.Subscribe.{
  SubTopic, Subscribe, Unsubscribe, read_sub_topic, read_sub_topics, any_of, parse_subscribe,
  read_unsub_topic, read_unsub_topics, parse_unsubscribe,
}

-- A topic filter as the broker stores it, and a QoS of two bits.
abbrev pub FitsSub : SubTopic → Type 0
FitsSub t = (length t.topic < max_topic_len) × (t.qos < 4)

abbrev pub FitsTopic : List ℕ → Type 0
FitsTopic t = length t < max_topic_len

Safe-read_sub_topic :
    (payload : List ℕ) (payload_len : ℕ)
    → payload_len ≤ length payload
    → Safe (λ r. FitsSub r.0 × (r.2 ≤ length r.1)) (read_sub_topic payload payload_len)
unfolding read_sub_topic
Safe-read_sub_topic payload payload_len h =
    Safe-bind (Safe-read_utf8_string payload payload_len h) λ s hs.
      let after : List ℕ = drop (2 + s.1) payload in
      let left : ℕ = payload_len - (2 + s.1) in
      let rest : left ≤ length after = omega (arith, length-drop (2 + s.1) payload) in
      Safe-bind (Safe-require (leb 1 left) malformed) λ _ more.
        Safe-bind (Safe-read_u8 after (ground arith)) λ qos _.
          Safe-bind (Safe-copy_string max_topic_len s.1 s.0 (omega arith) hs.2)
            λ c hc. returns ((hc.0, two_bits qos), omega (arith, rest, length-drop 1 after))

Safe-read_sub_topics :
    (room : ℕ) (payload : List ℕ) (payload_len : ℕ)
    → payload_len ≤ length payload
    → Safe (λ ts. All FitsSub ts × (length ts ≤ room)) (read_sub_topics room payload payload_len)
unfolding read_sub_topics
Safe-read_sub_topics zero payload payload_len h = returns (tt, omega arith)
Safe-read_sub_topics (suc room) payload payload_len h =
    Safe-if (payload_len == 0) (λ _. returns (tt, omega arith))
      λ _. Safe-bind (Safe-read_sub_topic payload payload_len h) λ r hr.
        Safe-bind (Safe-read_sub_topics room r.1 r.2 hr.1)
          λ ts hts. returns ((hr.0, hts.0), omega (arith, hts.1))

-- What the broker may rely on: between 1 and 32 filters, each of at most 127 bytes.
pub record IsSubscribe (s : Subscribe) : Type 0 where
  pub id_fits : s.packet_id < 65536
  pub topics_fit : All FitsSub s.topics
  pub some_topic : 1 ≤ length s.topics
  pub topics_few : length s.topics ≤ max_subs_per_pkt

-- On a complete packet the SUBSCRIBE parser never reads outside the buffer. It refuses the packet,
-- or returns 1 to 32 filters of at most 127 bytes each, with QoS below 4.
pub parse_subscribe-Safe :
    (pkt : List ℕ) (pkt_len remaining rl_bytes : ℕ)
    → IsPacket pkt pkt_len remaining rl_bytes
    → pkt_len ≤ length pkt
    → Safe IsSubscribe (parse_subscribe pkt pkt_len)
unfolding parse_subscribe
parse_subscribe-Safe pkt pkt_len remaining rl_bytes v h = rw v.header (
    Safe-bind (Safe-require (leb 2 remaining) malformed) λ _ big.
      let var : List ℕ = drop (1 + rl_bytes) pkt in
      let room : remaining ≤ length var = omega (arith, v.total, length-drop (1 + rl_bytes) pkt) in
      Safe-bind (Safe-read_u16 var (ground arith)) λ id hid.
        Safe-bind
          (Safe-read_sub_topics max_subs_per_pkt (drop 2 var) (remaining - 2)
            (omega (arith, room, length-drop 2 var)))
          λ ts hts. Safe-bind (Safe-require (any_of ts) malformed) λ _ any. returns (record {
            id_fits = hid;
            topics_fit = hts.0;
            some_topic = ground arith;
            topics_few = hts.1;
          }))

Safe-read_unsub_topic :
    (payload : List ℕ) (payload_len : ℕ)
    → payload_len ≤ length payload
    → Safe (λ r. FitsTopic r.0 × (r.2 ≤ length r.1)) (read_unsub_topic payload payload_len)
unfolding read_unsub_topic
Safe-read_unsub_topic payload payload_len h =
    Safe-bind (Safe-read_utf8_string payload payload_len h) λ s hs.
      Safe-bind (Safe-copy_string max_topic_len s.1 s.0 (omega arith) hs.2)
        λ c hc. returns (hc.0, omega (arith, length-drop (2 + s.1) payload))

Safe-read_unsub_topics :
    (room : ℕ) (payload : List ℕ) (payload_len : ℕ)
    → payload_len ≤ length payload
    → Safe
        (λ ts. All FitsTopic ts × (length ts ≤ room))
        (read_unsub_topics room payload payload_len)
unfolding read_unsub_topics
Safe-read_unsub_topics zero payload payload_len h = returns (tt, omega arith)
Safe-read_unsub_topics (suc room) payload payload_len h =
    Safe-if (payload_len == 0) (λ _. returns (tt, omega arith))
      λ _. Safe-bind (Safe-read_unsub_topic payload payload_len h) λ r hr.
        Safe-bind (Safe-read_unsub_topics room r.1 r.2 hr.1)
          λ ts hts. returns ((hr.0, hts.0), omega (arith, hts.1))

pub record IsUnsubscribe (s : Unsubscribe) : Type 0 where
  pub id_fits : s.packet_id < 65536
  pub topics_fit : All FitsTopic s.topics
  pub some_topic : 1 ≤ length s.topics
  pub topics_few : length s.topics ≤ max_subs_per_pkt

-- On a complete packet the UNSUBSCRIBE parser never reads outside the buffer. It refuses the
-- packet, or returns 1 to 32 filters of at most 127 bytes each.
pub parse_unsubscribe-Safe :
    (pkt : List ℕ) (pkt_len remaining rl_bytes : ℕ)
    → IsPacket pkt pkt_len remaining rl_bytes
    → pkt_len ≤ length pkt
    → Safe IsUnsubscribe (parse_unsubscribe pkt pkt_len)
unfolding parse_unsubscribe
parse_unsubscribe-Safe pkt pkt_len remaining rl_bytes v h = rw v.header (
    Safe-bind (Safe-require (leb 2 remaining) malformed) λ _ big.
      let var : List ℕ = drop (1 + rl_bytes) pkt in
      let room : remaining ≤ length var = omega (arith, v.total, length-drop (1 + rl_bytes) pkt) in
      Safe-bind (Safe-read_u16 var (ground arith)) λ id hid.
        Safe-bind
          (Safe-read_unsub_topics max_subs_per_pkt (drop 2 var) (remaining - 2)
            (omega (arith, room, length-drop 2 var)))
          λ ts hts. Safe-bind (Safe-require (any_of ts) malformed) λ _ any. returns (record {
            id_fits = hid;
            topics_fit = hts.0;
            some_topic = ground arith;
            topics_few = hts.1;
          }))
