-- ===== src/Wire/Publish/Safety.antt =====
-- `mqtt_parse_publish` on a complete packet, and `mqtt_parse_ack` on any buffer.
use mqtt_broker_esp.Prelude.{
  ℕ, ◌+◌, ◌-◌, ◌≤◌, ◌<◌, ◌≡◌, ◌/◌, refl, List, length, drop, leb, ltb, length-drop, arith, two_bits,
}
use mqtt_broker_esp.Wire.Read.{malformed, max_topic_len}
use mqtt_broker_esp.Wire.Read.Safe.{
  Safe, returns, refuses, Safe-bind, Safe-if, Safe-require, Safe-read_u8, Safe-read_u16,
  Safe-copy_string,
}
use mqtt_broker_esp.Wire.Length.{
  decode_remaining_length, Decoded, need_more, bad_length, out_of_buffer, decoded, skip_header,
}
use mqtt_broker_esp.Wire.Length.Decode.{IsPacket, decode_loop-ne-out}
use mqtt_broker_esp.Wire.Publish.{Publish, read_packet_id, parse_publish, parse_ack}

Safe-read_packet_id :
    (qos : ℕ) (var : List ℕ) (var_len offset : ℕ)
    → var_len ≤ length var
    → offset ≤ var_len
    → Safe
        (λ r. (r.0 < 65536) × (r.1 ≤ var_len) × (qos ≡ 0 → r.0 ≡ 0))
        (read_packet_id qos var var_len offset)
unfolding read_packet_id
Safe-read_packet_id qos var var_len offset h ho =
    Safe-if (ltb 0 qos)
      (λ pos. Safe-bind (Safe-require (leb (offset + 2) var_len) malformed) λ _ fits.
        Safe-bind (Safe-read_u16 (drop offset var) (ground (arith, length-drop offset var)))
          λ id hid. returns (hid, ground arith, λ z. absurd (ground arith)))
      (λ _. returns (omega arith, ho, λ _. refl))

-- What the broker may rely on in a PUBLISH that the parser accepts.
pub record IsPublish (p : Publish) : Type 0 where
  pub topic_fits : length p.topic < max_topic_len
  pub payload_in : p.payload_len ≤ length p.payload
  pub qos_bits : p.qos < 4
  pub id_fits : p.packet_id < 65536
  pub no_id : p.qos ≡ 0 → p.packet_id ≡ 0

-- On a complete packet the PUBLISH parser never reads outside the buffer. It refuses the packet, or
-- returns a topic of at most 127 bytes and a payload that lies in the buffer.
pub parse_publish-Safe :
    (pkt : List ℕ) (pkt_len remaining rl_bytes : ℕ)
    → IsPacket pkt pkt_len remaining rl_bytes
    → pkt_len ≤ length pkt
    → Safe IsPublish (parse_publish pkt pkt_len)
unfolding parse_publish skip_header
parse_publish-Safe pkt pkt_len remaining rl_bytes v h = rw v.header (
    Safe-bind (Safe-require (leb 2 pkt_len) malformed) λ _ _.
      Safe-bind (Safe-read_u8 pkt (omega (arith, v.total, v.rl_in))) λ byte0 _.
        Safe-bind (Safe-require (leb 2 remaining) malformed) λ _ big.
          let var : List ℕ = drop (1 + rl_bytes) pkt in
          let room : remaining ≤ length var =
            omega (arith, v.total, length-drop (1 + rl_bytes) pkt) in
          Safe-bind (Safe-read_u16 var (ground arith)) λ len hlen.
            Safe-bind (Safe-require (leb (2 + len) remaining) malformed) λ _ fits.
              Safe-bind
                (Safe-copy_string max_topic_len len (drop 2 var) (omega arith)
                  (ground (arith, length-drop 2 var)))
                λ t ht.
                  Safe-bind (Safe-read_packet_id _ var remaining (2 + len) room (ground arith))
                    λ r hr. returns (record {
                      topic_fits = ht.0;
                      payload_in = ground (arith, length-drop r.1 var);
                      qos_bits = two_bits (byte0 / 2);
                      id_fits = hr.0;
                      no_id = hr.2;
                    }))

-- The header of a packet whose buffer holds all of `pkt_len` never reads outside it.
Safe-skip_header :
    (pkt : List ℕ) (pkt_len : ℕ)
    → 1 ≤ pkt_len
    → pkt_len ≤ length pkt
    → Safe (λ _. Unit {0}) (skip_header malformed pkt pkt_len)
unfolding skip_header decode_remaining_length
Safe-skip_header pkt pkt_len h hl = by_result _ refl
  where
    by_result :
        (d : Decoded)
        → decode_remaining_length (drop 1 pkt) (pkt_len - 1) ≡ d
        → Safe (λ _. Unit {0}) (skip_header malformed pkt pkt_len)
    by_result need_more e = rw e refuses
    by_result bad_length e = rw e refuses
    by_result out_of_buffer e =
        absurd
          (decode_loop-ne-out (drop 1 pkt) (pkt_len - 1) 0 0 1 (omega (arith, length-drop 1 pkt)) e)
    by_result (decoded v c) e = rw e (returns tt)

-- `mqtt_parse_ack` never reads outside a buffer of `pkt_len` bytes, complete packet or not.
pub parse_ack-Safe :
    (pkt : List ℕ) (pkt_len : ℕ)
    → pkt_len ≤ length pkt
    → Safe (λ id. id < 65536) (parse_ack pkt pkt_len)
unfolding parse_ack
parse_ack-Safe pkt pkt_len h = Safe-bind (Safe-require (leb 4 pkt_len) malformed) λ _ four.
    Safe-bind (Safe-skip_header pkt pkt_len (ground arith) h) λ hd _.
      Safe-bind (Safe-require (leb 2 hd.0) malformed) λ _ _.
        Safe-bind (Safe-require (leb (1 + hd.1 + 2) pkt_len) malformed)
          λ _ fits. Safe-read_u16 (drop (1 + hd.1) pkt) (ground (arith, length-drop (1 + hd.1) pkt))
