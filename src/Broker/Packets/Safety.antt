-- ===== src/Broker/Packets/Safety.antt =====
-- No handler reads outside the receive buffer of its client, whatever a client sends.
use mqtt_broker_esp.Prelude.{
  ℕ, zero, suc, ◌+◌, ◌-◌, ◌≤◌, ◌<◌, ◌≡◌, ◌≢◌, refl, List, [], ◌∷◌, length, drop, if◌then◌else◌,
  ◌&&◌, not, length-drop, ltb, ◌==◌, arith, if-holds,
}
use mqtt_broker_esp.Wire.Read.{Parsed, ok, err, fault, ◌>>=◌}
use mqtt_broker_esp.Wire.Read.Safe.{Safe, returns, refuses, Safe-ne-fault}
use mqtt_broker_esp.Wire.Length.{
  Frame, incomplete, bad_frame, outside, complete, packet_length, packet_type, Decoded, need_more,
  bad_length, out_of_buffer, decoded, decode_remaining_length, frame_of,
}
use mqtt_broker_esp.Wire.Length.Decode.{IsPacket, packet_length-IsPacket, decode_loop-ne-out}
use mqtt_broker_esp.Wire.Connect.{Connect}
use mqtt_broker_esp.Wire.Connect.Safety.{parse_connect-Safe}
use mqtt_broker_esp.Wire.Subscribe.Safety.{parse_subscribe-Safe, parse_unsubscribe-Safe}
use mqtt_broker_esp.Wire.Publish.{Publish}
use mqtt_broker_esp.Wire.Publish.Safety.{IsPublish, parse_publish-Safe, parse_ack-Safe}
use mqtt_broker_esp.Broker.{Broker, Env, client_of, client_disconnect, is_open}
use mqtt_broker_esp.Broker.Handlers.{
  handle_connect, handle_subscribe, handle_unsubscribe, connect_result, subscribe_result,
  unsubscribe_result, auth_ok,
}
use mqtt_broker_esp.Broker.Packets.{
  publish_result, handle_publish, handle_puback, puback_result, dispatch, first_byte, handle_packet,
  go_on, by_frame, process_loop, process_client_data,
}

abbrev Returns : Parsed Broker → Type 0
Returns m = m ≢ fault

ok-Returns : (b : Broker) → Returns (ok b)
ok-Returns b = λ q. cc

module _ (env : Env) (b : Broker) (idx : ℕ) where
  connect_result-Returns : (p : Parsed Connect) → p ≢ fault → Returns (connect_result env b idx p)
  connect_result-Returns (ok conn) h =
      if-holds Returns (auth_ok env.auth conn) (λ _ e. cc) (λ _ e. cc)
  connect_result-Returns (err e) h = λ q. cc
  connect_result-Returns fault h = absurd (h refl)

  -- The payload that the broker reads is the one that the parser has found in the buffer.
  publish_result-Returns :
      (p : Parsed Publish) → Safe IsPublish p → Returns (publish_result env b idx p)
  publish_result-Returns p (returns {a = q} v) =
      if-holds Returns (q.qos == 2) (λ _ e. cc)
        (λ _.
          if-holds Returns (ltb (length q.payload) q.payload_len)
            (λ outside. absurd (ground (arith, v.payload_in))) (λ _ e. cc))
  publish_result-Returns p refuses = λ q. cc

  subscribe_result-Returns : (p : Parsed _) → p ≢ fault → Returns (subscribe_result env b idx p)
  subscribe_result-Returns (ok p) h = λ q. cc
  subscribe_result-Returns (err e) h = λ q. cc
  subscribe_result-Returns fault h = absurd (h refl)

  unsubscribe_result-Returns : (p : Parsed _) → p ≢ fault → Returns (unsubscribe_result env b idx p)
  unsubscribe_result-Returns (ok p) h = λ q. cc
  unsubscribe_result-Returns (err e) h = λ q. cc
  unsubscribe_result-Returns fault h = absurd (h refl)

  puback_result-Returns : (p : Parsed ℕ) → p ≢ fault → Returns (puback_result env b idx p)
  puback_result-Returns (ok p) h = λ q. cc
  puback_result-Returns (err e) h = λ q. cc
  puback_result-Returns fault h = absurd (h refl)

  module _ (pkt : List ℕ) (n remaining rl_bytes : ℕ) (v : IsPacket pkt n remaining rl_bytes)
      (hn : n ≤ length pkt) where
    dispatch-Returns : (pkt_type : ℕ) → Returns (dispatch env b idx pkt_type pkt n)
    unfolding dispatch handle_connect handle_publish handle_subscribe handle_unsubscribe
        handle_puback
    dispatch-Returns pkt_type =
        if-holds Returns (pkt_type == 0x10)
          (λ _.
            connect_result-Returns _
              (Safe-ne-fault (parse_connect-Safe pkt n remaining rl_bytes v hn)))
          λ _.
            if-holds Returns (pkt_type == 0x30)
              (λ _.
                if-holds Returns (client_of b idx).authenticated
                  (λ _. publish_result-Returns _ (parse_publish-Safe pkt n remaining rl_bytes v hn))
                  (λ _ e. cc))
              λ _.
                if-holds Returns (pkt_type == 0x80)
                  (λ _.
                    if-holds Returns (client_of b idx).authenticated
                      (λ _.
                        subscribe_result-Returns _
                          (Safe-ne-fault (parse_subscribe-Safe pkt n remaining rl_bytes v hn)))
                      (λ _ e. cc))
                  λ _.
                    if-holds Returns (pkt_type == 0xA0)
                      (λ _.
                        unsubscribe_result-Returns _
                          (Safe-ne-fault (parse_unsubscribe-Safe pkt n remaining rl_bytes v hn)))
                      λ _.
                        if-holds Returns (pkt_type == 0xC0) (λ _ e. cc)
                          λ _.
                            if-holds Returns (pkt_type == 0xE0) (λ _ e. cc)
                              λ _.
                                if-holds Returns (pkt_type == 0x40)
                                  (λ _.
                                    puback_result-Returns _
                                      (Safe-ne-fault (parse_ack-Safe pkt n hn)))
                                  (λ _ e. cc)

bind-Returns :
    {A : Type 0} {m : Parsed A} {f : A → Parsed Broker}
    → m ≢ fault
    → ((a : A) → m ≡ ok a → Returns (f a))
    → Returns (m >>= f)
bind-Returns {m = ok a} h k = k a refl
bind-Returns {m = err e} h k = λ q. cc
bind-Returns {m = fault} h k = absurd (h refl)

frame_of-ne-outside : (n : ℕ) (d : Decoded) → d ≢ out_of_buffer → frame_of n d ≢ outside
frame_of-ne-outside n need_more h = λ q. cc
frame_of-ne-outside n bad_length h = λ q. cc
frame_of-ne-outside n out_of_buffer h = absurd (h refl)
frame_of-ne-outside n (decoded v c) h =
    if-holds (λ f. f ≢ outside) (ltb n (1 + c + v)) (λ _ q. cc) (λ _ q. cc)

-- On the bytes received, `mqtt_packet_length` stays inside them.
packet_length-ne-outside : (buf : List ℕ) → packet_length buf (length buf) ≢ outside
unfolding packet_length decode_remaining_length
packet_length-ne-outside buf =
    if-holds (λ f. f ≢ outside) (ltb (length buf) 2) (λ _ q. cc)
      λ _.
        frame_of-ne-outside (length buf) (decode_remaining_length (drop 1 buf) (length buf - 1)) (
          decode_loop-ne-out (drop 1 buf) (length buf - 1) 0 0 1 (omega (arith, length-drop 1 buf)))

first_byte-ne-fault : (buf : List ℕ) → 0 < length buf → first_byte buf ≢ fault
first_byte-ne-fault [] h = absurd (omega arith)
first_byte-ne-fault (x ∷ buf) h = λ q. cc

module _ (env : Env) where
  handle_packet-Returns :
      (b : Broker) (idx n : ℕ)
      → packet_length (client_of b idx).recv (length (client_of b idx).recv) ≡ complete n
      → Returns (handle_packet env b idx n)
  unfolding handle_packet
  handle_packet-Returns b idx n e =
      let (remaining, rl_bytes, v, hn) = packet_length-IsPacket _ _ n e in
      bind-Returns
        {f = λ x.
          if not (client_of b idx).connected && not (packet_type x == 0x10)
          then ok (client_disconnect b idx)
          else dispatch env b idx (packet_type x) (client_of b idx).recv n}
        (first_byte-ne-fault (client_of b idx).recv (omega (arith, hn, v.total)))
        λ byte0 _.
          if-holds Returns (not (client_of b idx).connected && not (packet_type byte0 == 0x10))
            (λ _. ok-Returns _)
            λ _.
              dispatch-Returns env b idx (client_of b idx).recv n remaining rl_bytes v hn
                (packet_type byte0)

  frame_Returns :
      (b : Broker) (idx : ℕ) (next : Broker → Parsed Broker)
      → ((b' : Broker) → Returns (next b'))
      → (f : Frame) → packet_length (client_of b idx).recv (length (client_of b idx).recv) ≡ f
      → Returns (by_frame b idx (λ n. handle_packet env b idx n >>= go_on next idx n) f)
  frame_Returns b idx next h incomplete e = λ q. cc
  frame_Returns b idx next h bad_frame e = λ q. cc
  frame_Returns b idx next h outside e = absurd (packet_length-ne-outside _ e)
  frame_Returns b idx next h (complete n) e =
      bind-Returns (handle_packet-Returns b idx n e)
        λ b' _. if-holds Returns (is_open (client_of b' idx).fd) (λ _. h _) (λ _ q. cc)

  process_loop-Returns : (fuel : ℕ) (b : Broker) (idx : ℕ) → Returns (process_loop env fuel b idx)
  unfolding process_loop
  process_loop-Returns zero b idx = λ q. cc
  process_loop-Returns (suc fuel) b idx =
      if-holds Returns (length (client_of b idx).recv == 0) (λ _ q. cc)
        (λ _.
          frame_Returns b idx (λ b'. process_loop env fuel b' idx)
            (λ b'. process_loop-Returns fuel b' idx) _ refl)

  -- Whatever bytes a client has sent, and whatever the outside answers, no parser and no handler of
  -- the loop over its packets reads outside the receive buffer, the payload of a PUBLISH included.
  pub process_client_data-Returns : (b : Broker) (idx : ℕ) → process_client_data env b idx ≢ fault
  unfolding process_client_data
  process_client_data-Returns b idx = process_loop-Returns _ b idx
