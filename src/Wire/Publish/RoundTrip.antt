-- ===== src/Wire/Publish/RoundTrip.antt =====
-- What the builders write is what `mqtt_packet_length` and the parsers read.
use mqtt_broker_esp.Prelude.{
  ℕ, ◌+◌, ◌^◌, ◌≤◌, ◌<◌, ◌≡◌, refl, ap, List, [], ◌∷◌, ◌++◌, Bool, ◌↔◌, some, length, arith,
  length-append, append_assoc,
}
use mqtt_broker_esp.Wire.Read.{ok, malformed, write_u16, max_topic_len}
use mqtt_broker_esp.Wire.Read.Safe.{read_u16-write_u16, length-write_u16, bind-ok}
use mqtt_broker_esp.Wire.Length.{encode_remaining_length, complete, packet_length}
use mqtt_broker_esp.Wire.Publish.{parse_publish, parse_ack}
use mqtt_broker_esp.Wire.Publish.Body.{
  body, header_len, read_back, packet_length-built, skip_header-built, parse_publish-body,
  build_publish_ex-parts, publish_remaining_lem,
}
use mqtt_broker_esp.Wire.Build.{
  fixed_header, packet_id_field, publish_remaining, build_publish_ex, build_ack,
}

length-body :
    (topic payload : List ℕ) (qos packet_id : ℕ)
    → length (body topic qos packet_id payload) ≡ header_len qos topic + length payload
unfolding packet_id_field
length-body topic payload qos packet_id = ground (
  arith,
  length-append (write_u16 (length topic)) (topic ++ (packet_id_field qos packet_id ++ payload)),
  length-append topic (packet_id_field qos packet_id ++ payload),
  length-append (packet_id_field qos packet_id) payload,
  length-write_u16 packet_id,
  length-write_u16 (length topic),
)

-- A PUBLISH of `r` bytes after its header, with `more` behind it in the buffer.
framed :
    (topic payload more : List ℕ) (qos : ℕ) (retain dup : Bool) (packet_id r : ℕ) (out : List ℕ)
    → out
      ≡ fixed_header qos retain dup
        ∷ (encode_remaining_length r ++ body topic qos packet_id payload)
    → r ≡ header_len qos topic + length payload
    → (length out ≡ 1 + length (encode_remaining_length r) + r)
      × (out ++ more
          ≡ fixed_header qos retain dup
            ∷ (encode_remaining_length r ++ body topic qos packet_id (payload ++ more)))
framed topic payload more qos retain dup packet_id r out e er = (
  omega (
    arith,
    ap length e,
    length-append (encode_remaining_length r) (body topic qos packet_id payload),
    length-body topic payload qos packet_id,
  ),
  rw e (simp append_assoc),
)

-- A PUBLISH with a topic of at most 127 bytes, a payload below 2^27 bytes and a 16-bit identifier
-- that the builder wrote is found complete by `mqtt_packet_length`, whatever follows it in the
-- buffer, and `mqtt_parse_publish` reads back the topic, the payload and its length, the QoS, the
-- flags (DUP only above QoS 0) and the identifier (0 at QoS 0).
pub parse-build_publish :
    (buf_size : ℕ) (topic payload more : List ℕ) (qos : ℕ) (retain dup : Bool) (packet_id n : ℕ)
    (out : List ℕ)
    → length topic < max_topic_len
    → length payload < 2 ^ 27
    → packet_id < 65536
    → build_publish_ex buf_size topic payload qos retain dup packet_id ≡ some out
    → length out ≤ n
    → (packet_length (out ++ more) n ≡ complete (length out))
      × (parse_publish (out ++ more) (length out)
          ≡ ok (read_back topic payload more qos retain dup packet_id))
parse-build_publish buf_size topic payload more qos retain dup packet_id n out ht hp hid built hn =
    let r = publish_remaining topic payload qos in
    let parts = build_publish_ex-parts buf_size topic payload qos retain dup packet_id out built in
    let er = publish_remaining_lem topic payload qos ht hp in
    let small : r < 2 ^ 28 = ground arith in
    let f = framed topic payload more qos retain dup packet_id r out parts.1 er in
    (
      rw (f.1, f.0) (packet_length-built (fixed_header qos retain dup) r n _ small (omega arith)),
      rw (f.1) (
          parse_publish-body topic payload more qos retain dup packet_id r _ ht parts.0 hid small er
            f.0),
    )

-- The builder writes a packet exactly when the QoS is at most 2 and the whole packet fits the buffer.
pub build_publish_ex_iff :
    (buf_size : ℕ) (topic payload : List ℕ) (qos : ℕ) (retain dup : Bool) (packet_id : ℕ)
    → ((out : List ℕ) × (build_publish_ex buf_size topic payload qos retain dup packet_id
          ≡ some out))
      ↔ ((qos ≤ 2)
          × (1
                + length (encode_remaining_length (publish_remaining topic payload qos))
                + publish_remaining topic payload qos
              ≤ buf_size))
unfolding build_publish_ex
build_publish_ex_iff buf_size topic payload qos retain dup packet_id = (
  λ h.
      let p = build_publish_ex-parts buf_size topic payload qos retain dup packet_id h.0 h.1 in
      (p.0, p.2),
  λ h. (
    fixed_header qos retain dup
        ∷ (encode_remaining_length (publish_remaining topic payload qos)
            ++ body topic qos packet_id payload),
    ground arith,
  ),
)

encode_two : encode_remaining_length 2 ≡ 2 ∷ []
unfolding encode_remaining_length
encode_two = refl

-- An acknowledgement frame with a 16-bit identifier is a complete packet of four bytes, and
-- `mqtt_parse_ack` reads its identifier back, whatever follows it in the buffer.
pub parse-build_ack :
    (type_byte packet_id n : ℕ) (more : List ℕ)
    → packet_id < 65536
    → 4 ≤ n
    → (packet_length (build_ack type_byte packet_id ++ more) n ≡ complete 4)
      × (parse_ack (build_ack type_byte packet_id ++ more) 4 ≡ ok packet_id)
unfolding build_ack parse_ack
parse-build_ack type_byte packet_id n more h hn =
    let id_bytes : List ℕ = write_u16 packet_id ++ more in
    (
      (rw encode_two at
          (packet_length-built type_byte 2 n id_bytes (omega arith) (rw encode_two hn))),
      bind-ok _
          (rw encode_two at
            (skip_header-built malformed type_byte 2 4 id_bytes (omega arith) (rw encode_two)))
          (read_u16-write_u16 packet_id more h),
    )
