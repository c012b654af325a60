-- ===== src/Wire/Build.antt =====
-- The packet builders of main/mqtt_parser.c: the bytes that each writes to `buf`.
use mqtt_broker_esp.Prelude.{
  ℕ, ◌+◌, ◌*◌, ◌^◌, ◌%◌, List, [], ◌∷◌, ◌++◌, Bool, false, ◌&&◌, Option, none, some, length, ltb,
  if◌then◌else◌, bit_and, bit_or,
}
use mqtt_broker_esp.Wire.Read.{write_u16}
use mqtt_broker_esp.Wire.Length.{encode_remaining_length}

unfoldable pub build_connack : ℕ → ℕ → List ℕ
build_connack session_present return_code =
    0x20 ∷ 0x02 ∷ bit_and session_present 0x01 ∷ return_code ∷ []

unfoldable pub build_suback : ℕ → List ℕ → List ℕ
unfolding encode_remaining_length write_u16
build_suback packet_id return_codes =
    0x90
    ∷ (encode_remaining_length (2 + length return_codes) ++ (write_u16 packet_id ++ return_codes))

unfoldable pub build_unsuback : ℕ → List ℕ
unfolding write_u16
build_unsuback packet_id = 0xB0 ∷ 0x02 ∷ write_u16 packet_id

unfoldable pub build_ack : ℕ → ℕ → List ℕ
unfolding write_u16
build_ack type_byte packet_id = type_byte ∷ 0x02 ∷ write_u16 packet_id

abbrev pub pkt_puback : ℕ
pkt_puback = 0x40

abbrev pub pkt_pubrec : ℕ
pkt_pubrec = 0x50

abbrev pub pkt_pubrel : ℕ
pkt_pubrel = 0x62

abbrev pub pkt_pubcomp : ℕ
pkt_pubcomp = 0x70

unfoldable pub build_puback : ℕ → List ℕ
unfolding build_ack
build_puback packet_id = build_ack pkt_puback packet_id

unfoldable pub build_pubrec : ℕ → List ℕ
unfolding build_ack
build_pubrec packet_id = build_ack pkt_pubrec packet_id

unfoldable pub build_pubrel : ℕ → List ℕ
unfolding build_ack
build_pubrel packet_id = build_ack pkt_pubrel packet_id

unfoldable pub build_pubcomp : ℕ → List ℕ
unfolding build_ack
build_pubcomp packet_id = build_ack pkt_pubcomp packet_id

unfoldable pub build_pingresp : List ℕ
build_pingresp = 0xD0 ∷ 0x00 ∷ []

-- The first byte of a PUBLISH.
unfoldable pub fixed_header : ℕ → Bool → Bool → ℕ
fixed_header qos retain dup =
    let fh = if ltb 0 qos && dup then bit_or 0x30 0x08 else 0x30 in
    let fh = bit_or fh (bit_and qos 0x03 * 2 % 256) in if retain then bit_or fh 0x01 else fh

unfoldable pub packet_id_field : ℕ → ℕ → List ℕ
packet_id_field qos packet_id = if ltb 0 qos then write_u16 packet_id else []

-- The value of the remaining length, a `uint32_t`.
unfoldable pub publish_remaining : List ℕ → List ℕ → ℕ → ℕ
publish_remaining topic payload qos =
    let remaining = (2 + length topic + length payload) % 2 ^ 32 in
    if ltb 0 qos then (remaining + 2) % 2 ^ 32 else remaining

-- The topic and the payload are the bytes that the pointers and lengths give; -1 is `none`.
unfoldable pub build_publish_ex :
    (buf_size : ℕ) (topic payload : List ℕ) (qos : ℕ) (retain dup : Bool) (packet_id : ℕ)
    → Option (List ℕ)
build_publish_ex buf_size topic payload qos retain dup packet_id =
    let remaining = publish_remaining topic payload qos in
    let rl_buf = encode_remaining_length remaining in
    if ltb 2 qos
    then none
    else if ltb buf_size (1 + length rl_buf + remaining)
    then none
    else some (
        fixed_header qos retain dup
        ∷ (rl_buf
            ++ (write_u16 (length topic) ++ (topic ++ (packet_id_field qos packet_id ++ payload)))))

unfoldable pub build_publish : ℕ → List ℕ → List ℕ → Bool → Option (List ℕ)
build_publish buf_size topic payload retain =
    build_publish_ex buf_size topic payload 0 retain false 0
