-- ===== src/Wire/Publish/Body.antt =====
-- The parts of a PUBLISH as main/mqtt_parser.c writes and reads them.
use mqtt_broker_esp.Prelude.{
  ℕ, zero, suc, ◌+◌, ◌-◌, ◌/◌, ◌^◌, ◌≤◌, ◌<◌, ◌≡◌, refl, ◌∙◌, ap, subst, List, ◌∷◌, ◌++◌, Bool,
  true, false, ◌&&◌, some, length, drop, leb, ltb, ◌==◌, if◌then◌else◌, arith, bit_and,
  length-append, drop-append, append_assoc,
}
use mqtt_broker_esp.Wire.Read.{
  ParseError, ok, malformed, read_u8, read_u16, write_u16, copy_bytes, copy_len, max_topic_len,
}
use mqtt_broker_esp.Wire.Read.Safe.{
  read_u16-write_u16, length-write_u16, copy_bytes-append, bind-ok, require-ok,
}
use mqtt_broker_esp.Wire.Length.{skip_header, encode_remaining_length, packet_length, complete}
use mqtt_broker_esp.Wire.Length.Encode.{encode-groups, length-groups}
use mqtt_broker_esp.Wire.Length.Decode.{decode-encode}
use mqtt_broker_esp.Wire.Publish.{Publish, read_packet_id, parse_publish}
use mqtt_broker_esp.Wire.Build.{fixed_header, packet_id_field, publish_remaining, build_publish_ex}

drop-header : (fh : ℕ) (rl x : List ℕ) → drop (1 + length rl) (fh ∷ (rl ++ x)) ≡ x
drop-header fh rl x =
    subst (λ n. drop n (fh ∷ (rl ++ x)) ≡ x) {x = length (fh ∷ rl)} (omega arith)
      (drop-append (fh ∷ rl) x)

pub encode_bounds :
    (r : ℕ)
    → r < 2 ^ 28
    → (1 ≤ length (encode_remaining_length r)) × (length (encode_remaining_length r) ≤ 4)
encode_bounds r h = rw (encode-groups r h) (length-groups 3 r)

-- A packet that is put together from a header byte, its remaining length and that many bytes.
pub skip_header-built :
    (e : ParseError) (fh r n : ℕ) (x : List ℕ)
    → r < 2 ^ 28
    → n ≡ 1 + length (encode_remaining_length r) + r
    → skip_header e (fh ∷ (encode_remaining_length r ++ x)) n
      ≡ ok (r, length (encode_remaining_length r))
unfolding skip_header
skip_header-built e fh r n x h hn = rw (decode-encode r (n - 1) x h (omega arith))

pub packet_length-built :
    (fh r n : ℕ) (x : List ℕ)
    → r < 2 ^ 28
    → 1 + length (encode_remaining_length r) + r ≤ n
    → packet_length (fh ∷ (encode_remaining_length r ++ x)) n
      ≡ complete (1 + length (encode_remaining_length r) + r)
unfolding packet_length
packet_length-built fh r n x h hn =
    ground (arith, encode_bounds r h, decode-encode r (n - 1) x h (omega arith))

-- The bits of the first byte.
fixed_header_bits :
    (qos : ℕ) (retain dup : Bool)
    → qos ≤ 2
    → (bit_and (fixed_header qos retain dup / 2) 0x03 ≡ qos)
      × ((bit_and (fixed_header qos retain dup) 0x01 == 1) ≡ retain)
      × ((bit_and (fixed_header qos retain dup / 8) 0x01 == 1) ≡ (ltb 0 qos && dup))
unfolding fixed_header
fixed_header_bits zero true dup h = (refl, refl, refl)
fixed_header_bits zero false dup h = (refl, refl, refl)
fixed_header_bits (suc zero) true true h = (refl, refl, refl)
fixed_header_bits (suc zero) true false h = (refl, refl, refl)
fixed_header_bits (suc zero) false true h = (refl, refl, refl)
fixed_header_bits (suc zero) false false h = (refl, refl, refl)
fixed_header_bits (suc (suc zero)) true true h = (refl, refl, refl)
fixed_header_bits (suc (suc zero)) true false h = (refl, refl, refl)
fixed_header_bits (suc (suc zero)) false true h = (refl, refl, refl)
fixed_header_bits (suc (suc zero)) false false h = (refl, refl, refl)
fixed_header_bits (suc (suc (suc qos))) retain dup h = absurd (omega arith)

-- What stands behind the remaining length, up to the payload.
abbrev pub body : List ℕ → ℕ → ℕ → List ℕ → List ℕ
body topic qos packet_id tail =
    write_u16 (length topic) ++ (topic ++ (packet_id_field qos packet_id ++ tail))

-- What is read back: the payload pointer with whatever follows it, and the packet identifier that
-- a QoS above 0 has.
abbrev pub read_back : List ℕ → List ℕ → List ℕ → ℕ → Bool → Bool → ℕ → Publish
read_back topic payload more qos retain dup packet_id = record {
  topic = topic;
  payload = payload ++ more;
  payload_len = length payload;
  qos = qos;
  retain = retain;
  dup = ltb 0 qos && dup;
  packet_id = if ltb 0 qos then packet_id else 0;
}

copy_len_topic : (len : ℕ) → len < max_topic_len → copy_len max_topic_len len ≡ len
copy_len_topic len h = ground arith

drop-body :
    (topic x : List ℕ) → drop (2 + length topic) (write_u16 (length topic) ++ (topic ++ x)) ≡ x
drop-body topic x = rw (← append_assoc (write_u16 (length topic)) topic x) (
    subst (λ n. drop n ((write_u16 (length topic) ++ topic) ++ x) ≡ x)
      {x = length (write_u16 (length topic) ++ topic)}
      (omega
        (arith, length-append (write_u16 (length topic)) topic, length-write_u16 (length topic)))
      (drop-append (write_u16 (length topic) ++ topic) x))

pub drop-two : (v : ℕ) (x : List ℕ) → drop 2 (write_u16 v ++ x) ≡ x
unfolding write_u16
drop-two v x = refl

-- The length that the variable header takes.
abbrev pub header_len : ℕ → List ℕ → ℕ
header_len qos topic = if ltb 0 qos then 4 + length topic else 2 + length topic

pos_test : (q : ℕ) → ltb 0 (suc q) ≡ true
pos_test q = ground arith

read_packet_id-body :
    (topic payload : List ℕ) (qos packet_id var_len : ℕ)
    → packet_id < 65536
    → header_len qos topic ≤ var_len
    → read_packet_id qos (body topic qos packet_id payload) var_len (2 + length topic)
      ≡ ok (if ltb 0 qos then packet_id else 0, header_len qos topic)
unfolding read_packet_id packet_id_field
read_packet_id-body topic payload zero packet_id var_len h e = refl
read_packet_id-body topic payload (suc q) packet_id var_len h e = rw pos_test (
    let field : List ℕ = write_u16 packet_id ++ payload in
    bind-ok _ (require-ok (leb (2 + length topic + 2) var_len) malformed (ground arith)) (
      bind-ok _ (ap read_u16 (drop-body topic field) ∙ read_u16-write_u16 packet_id payload h)
        (ap (λ (n : ℕ). ok (packet_id, n)) (omega arith))))

-- The payload begins where the variable header ends.
drop-header_len :
    (topic payload : List ℕ) (qos packet_id : ℕ)
    → drop (header_len qos topic) (body topic qos packet_id payload) ≡ payload
unfolding packet_id_field write_u16
drop-header_len topic payload zero packet_id = drop-body topic payload
drop-header_len topic payload (suc q) packet_id =
    let front : List ℕ = write_u16 (length topic) ++ (topic ++ write_u16 packet_id) in
    rw (pos_test, ← append_assoc topic (write_u16 packet_id) payload)
      (subst (λ n. drop n (front ++ payload) ≡ payload) {x = length front}
        (omega (arith, length-append topic (write_u16 packet_id))) (drop-append front payload))

pub parse_publish-body :
    (topic payload more : List ℕ) (qos : ℕ) (retain dup : Bool) (packet_id r n : ℕ)
    → length topic < max_topic_len
    → qos ≤ 2
    → packet_id < 65536
    → r < 2 ^ 28
    → r ≡ header_len qos topic + length payload
    → n ≡ 1 + length (encode_remaining_length r) + r
    → parse_publish
        (fixed_header qos retain dup
          ∷ (encode_remaining_length r ++ body topic qos packet_id (payload ++ more)))
        n
      ≡ ok (read_back topic payload more qos retain dup packet_id)
unfolding parse_publish read_u8
parse_publish-body topic payload more qos retain dup packet_id r n ht hq hid hr er en =
    let fh = fixed_header qos retain dup in
    let bits = fixed_header_bits qos retain dup hq in
    let tail = body topic qos packet_id (payload ++ more) in
    bind-ok _ (require-ok (leb 2 n) malformed (ground arith)) (
      bind-ok _ (skip_header-built malformed fh r n tail hr en) (
        rw (drop-header fh (encode_remaining_length r) tail, bits.0, bits.1, bits.2)
          (bind-ok _ (require-ok (leb 2 r) malformed (ground arith)) (
            bind-ok _ (read_u16-write_u16 (length topic) _ (omega arith)) (
              bind-ok _ (require-ok (leb (2 + length topic) r) malformed (ground arith)) (
                bind-ok _ (topic_copied tail_bytes) (
                  bind-ok _
                    (read_packet_id-body topic (payload ++ more) qos packet_id r hid (omega arith))
                    (rw (drop-header_len topic (payload ++ more) qos packet_id, payload_left)
                      refl))))))))
  where
    tail_bytes : List ℕ
    tail_bytes = packet_id_field qos packet_id ++ (payload ++ more)

    topic_copied :
        (x : List ℕ)
        → copy_bytes
            (copy_len max_topic_len (length topic))
            (drop 2 (write_u16 (length topic) ++ (topic ++ x)))
          ≡ ok topic
    topic_copied x = rw (copy_len_topic (length topic) ht) (
        ap (copy_bytes (length topic)) (drop-two (length topic) (topic ++ x))
        ∙ copy_bytes-append topic x)

    payload_left :
        (if ltb (header_len qos topic) r then r - header_len qos topic else 0) ≡ length payload
    payload_left = ground arith

-- What `mqtt_build_publish_ex` wrote, if it wrote anything, in parts.
pub build_publish_ex-parts :
    (buf_size : ℕ) (topic payload : List ℕ) (qos : ℕ) (retain dup : Bool) (packet_id : ℕ)
    (out : List ℕ)
    → build_publish_ex buf_size topic payload qos retain dup packet_id ≡ some out
    → (qos ≤ 2)
      × (out
          ≡ fixed_header qos retain dup
            ∷ (encode_remaining_length (publish_remaining topic payload qos)
                ++ body topic qos packet_id payload))
      × (1
            + length (encode_remaining_length (publish_remaining topic payload qos))
            + publish_remaining topic payload qos
          ≤ buf_size)
unfolding build_publish_ex
build_publish_ex-parts buf_size topic payload qos retain dup packet_id out e = ground arith

pub publish_remaining_lem :
    (topic payload : List ℕ) (qos : ℕ)
    → length topic < max_topic_len
    → length payload < 2 ^ 27
    → publish_remaining topic payload qos ≡ header_len qos topic + length payload
unfolding publish_remaining
publish_remaining_lem topic payload qos ht hp = ground arith
