-- ===== src/Wire/Tests.antt =====
-- The parsers and builders on small packets.
use mqtt_broker_esp.Prelude.{ℕ, ◌≡◌, refl, List, [], ◌∷◌, ◌++◌, true, false, some, arith}
use mqtt_broker_esp.Wire.Read.{ok, write_u16}
use mqtt_broker_esp.Wire.Length.{
  complete, decode_loop, decode_remaining_length, encode_remaining_length, packet_length,
}
use mqtt_broker_esp.Wire.Length.Decode.{IsPacket}
use mqtt_broker_esp.Wire.Publish.{parse_publish}
use mqtt_broker_esp.Wire.Publish.Body.{read_back}
use mqtt_broker_esp.Wire.Publish.RoundTrip.{parse-build_publish}
use mqtt_broker_esp.Wire.Build.{build_publish_ex, publish_remaining, fixed_header, packet_id_field}

abbrev topic_ab : List ℕ
topic_ab = b'a' ∷ b'/' ∷ b'b' ∷ []

abbrev hi : List ℕ
hi = b'h' ∷ b'i' ∷ []

-- A QoS 1 PUBLISH of "hi" on "a/b" under identifier 258, sent again.
abbrev publish_packet : List ℕ
publish_packet = 0x3A ∷ 9 ∷ 0 ∷ 3 ∷ b'a' ∷ b'/' ∷ b'b' ∷ 1 ∷ 2 ∷ b'h' ∷ b'i' ∷ []

built : build_publish_ex 64 topic_ab hi 1 false true 258 ≡ some publish_packet
unfolding build_publish_ex fixed_header publish_remaining packet_id_field encode_remaining_length
    write_u16
built = refl

parse-build_publish_example :
    (packet_length (publish_packet ++ 0xFF ∷ []) 12 ≡ complete 11)
    × (parse_publish (publish_packet ++ 0xFF ∷ []) 11
        ≡ ok (read_back topic_ab hi (0xFF ∷ []) 1 false true 258))
parse-build_publish_example =
    parse-build_publish 64 topic_ab hi (0xFF ∷ []) 1 false true 258 12 publish_packet (omega arith)
      (omega arith) (omega arith) built (omega arith)

publish_packet-IsPacket : IsPacket publish_packet 11 9 1
publish_packet-IsPacket = record {
  header = unfold decode_remaining_length decode_loop in refl;
  total = refl;
  rl_in = omega arith;
}

-- CONNECT with client identifier "c", clean session, keep-alive 60.
abbrev connect_packet : List ℕ
connect_packet = 0x10 ∷ 13 ∷ 0 ∷ 4 ∷ b'M' ∷ b'Q' ∷ b'T' ∷ b'T' ∷ 4 ∷ 2 ∷ 0 ∷ 60 ∷ 0 ∷ 1 ∷ b'c' ∷ []

-- SUBSCRIBE to "a/b" at QoS 1 under identifier 7.
abbrev subscribe_packet : List ℕ
subscribe_packet = 0x82 ∷ 8 ∷ 0 ∷ 7 ∷ 0 ∷ 3 ∷ b'a' ∷ b'/' ∷ b'b' ∷ 1 ∷ []
