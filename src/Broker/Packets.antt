-- ===== src/Broker/Packets.antt =====
-- The handlers of PUBLISH, PINGREQ, DISCONNECT and PUBACK, and the loop over the received bytes.
pub mod Safety
pub mod Kept
pub mod Enough
use mqtt_broker_esp.Prelude.{
  ℕ, zero, suc, ◌+◌, ◌-◌, ◌%◌, ◌^◌, List, [], ◌∷◌, Bool, true, false, ◌&&◌, not, length, take, drop,
  get_or, set, ltb, ◌==◌, if◌then◌else◌, Option, none, some,
}
use mqtt_broker_esp.Wire.Read.{Parsed, ok, err, fault, ◌>>=◌}
use mqtt_broker_esp.Wire.Length.{
  Frame, incomplete, bad_frame, outside, complete, packet_length, packet_type,
}
use mqtt_broker_esp.Wire.Publish.{Publish, parse_publish, parse_ack}
use mqtt_broker_esp.Wire.Build.{build_puback, build_pingresp}
use mqtt_broker_esp.Inflight.{inflight_ack}
use mqtt_broker_esp.Broker.{
  Client, Broker, Env, client_of, put_client, is_open, client_disconnect, client_send, touch,
}
use mqtt_broker_esp.Broker.Fanout.{handle_publish_internal}
use mqtt_broker_esp.Broker.Handlers.{handle_connect, handle_subscribe, handle_unsubscribe}

-- The processed packet is removed from the buffer, unless the client is gone.
abbrev pub consume : Broker → ℕ → (pkt_len : ℕ) → Broker
consume b idx pkt_len =
    let c = client_of b idx in put_client b idx (record c { recv = drop pkt_len c.recv })

abbrev pub first_byte : List ℕ → Parsed ℕ
first_byte [] = fault
first_byte (b ∷ buf) = ok b

abbrev pub go_on : (Broker → Parsed Broker) → ℕ → (pkt_len : ℕ) → Broker → Parsed Broker
go_on next idx pkt_len b =
    if is_open (client_of b idx).fd then next (consume b idx pkt_len) else ok b

-- What the start of the buffer is; `rest` handles a complete packet and goes on.
abbrev pub by_frame : Broker → ℕ → (rest : ℕ → Parsed Broker) → Frame → Parsed Broker
by_frame b idx rest incomplete = ok b
by_frame b idx rest bad_frame = ok (client_disconnect b idx)
by_frame b idx rest outside = fault
by_frame b idx rest (complete pkt_len) = rest pkt_len

module _ (env : Env) where
  -- A PUBLISH that the parser accepts, its payload in the buffer.
  unfoldable pub publish_accepted : Broker → ℕ → Publish → Broker
  unfolding handle_publish_internal client_send touch
  publish_accepted b idx p =
      let c = client_of b idx in
      let b1 = put_client b idx (record c { published = (c.published + 1) % 2 ^ 32 }) in
      let b2 =
        handle_publish_internal env b1 p.topic (take p.payload_len p.payload) p.retain p.qos in
      let b3 = if p.qos == 1 then client_send env b2 idx (build_puback p.packet_id) else b2 in
      touch env b3 idx

  -- A payload that goes on behind the buffer is a read outside it.
  abbrev pub publish_result : Broker → ℕ → Parsed Publish → Parsed Broker
  publish_result b idx (ok p) =
      if p.qos == 2
      then ok b
      else if ltb (length p.payload) p.payload_len
      then fault
      else ok (publish_accepted b idx p)
  publish_result b idx (err e) = ok b
  publish_result b idx fault = fault

  unfoldable pub handle_publish : Broker → ℕ → (pkt : List ℕ) (pkt_len : ℕ) → Parsed Broker
  unfolding parse_publish publish_accepted
  handle_publish b idx pkt pkt_len =
      if (client_of b idx).authenticated
      then publish_result b idx (parse_publish pkt pkt_len)
      else ok (client_disconnect b idx)

  unfoldable pub handle_pingreq : Broker → ℕ → Broker
  unfolding client_send touch
  handle_pingreq b idx = touch env (client_send env b idx build_pingresp) idx

  unfoldable pub handle_disconnect : Broker → ℕ → Broker
  unfolding client_disconnect
  handle_disconnect b idx = client_disconnect b idx

  abbrev pub puback_result : Broker → ℕ → Parsed ℕ → Parsed Broker
  puback_result b idx (ok pkid) =
      ok (touch env (record b { inflight = inflight_ack b.inflight idx pkid }) idx)
  puback_result b idx (err e) = ok (touch env b idx)
  puback_result b idx fault = fault

  -- `case 0x40`
  unfoldable pub handle_puback : Broker → ℕ → (pkt : List ℕ) (pkt_len : ℕ) → Parsed Broker
  unfolding parse_ack inflight_ack touch
  handle_puback b idx pkt pkt_len = puback_result b idx (parse_ack pkt pkt_len)

  -- The switch on the packet type.
  unfoldable pub dispatch : Broker → ℕ → (pkt_type : ℕ) (pkt : List ℕ) (pkt_len : ℕ) → Parsed Broker
  unfolding handle_connect handle_publish handle_subscribe handle_unsubscribe handle_pingreq
      handle_disconnect handle_puback
  dispatch b idx pkt_type pkt pkt_len =
      if pkt_type == 0x10
      then handle_connect env b idx pkt pkt_len
      else if pkt_type == 0x30
      then handle_publish b idx pkt pkt_len
      else if pkt_type == 0x80
      then handle_subscribe env b idx pkt pkt_len
      else if pkt_type == 0xA0
      then handle_unsubscribe env b idx pkt pkt_len
      else if pkt_type == 0xC0
      then ok (handle_pingreq b idx)
      else if pkt_type == 0xE0
      then ok (handle_disconnect b idx)
      else if pkt_type == 0x40
      then handle_puback b idx pkt pkt_len
      else ok b

  -- A complete packet at the start of the buffer.
  unfoldable pub handle_packet : Broker → ℕ → (pkt_len : ℕ) → Parsed Broker
  unfolding packet_type dispatch
  handle_packet b idx pkt_len =
      let c = client_of b idx in
      first_byte c.recv >>= λ byte0.
      if not c.connected && not (packet_type byte0 == 0x10)
      then ok (client_disconnect b idx)
      else dispatch b idx (packet_type byte0) c.recv pkt_len

  -- The loop, on as many rounds as there are bytes.
  unfoldable pub process_loop : (fuel : ℕ) → Broker → ℕ → Parsed Broker
  unfolding handle_packet packet_length
  process_loop zero b idx = ok b
  process_loop (suc n) b idx =
      let rest : ℕ → Parsed Broker = λ pkt_len.
        handle_packet b idx pkt_len >>= go_on (λ b'. process_loop n b' idx) idx pkt_len in
      if length (client_of b idx).recv == 0
      then ok b
      else by_frame b idx rest
          (packet_length (client_of b idx).recv (length (client_of b idx).recv))

  unfoldable pub process_client_data : Broker → ℕ → Parsed Broker
  unfolding process_loop
  process_client_data b idx = process_loop (length (client_of b idx).recv) b idx
