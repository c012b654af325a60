-- ===== src/Broker/Packets/Kept.antt =====
-- main/mqtt_broker.c: no handler of a packet lengthens the received bytes of a client.
use mqtt_broker_esp.Prelude.{
  ℕ, ◌+◌, refl, List, [], ◌∷◌, ◌&&◌, not, ◌==◌, ltb, length, take, if-holds, if◌then◌else◌, Option,
  none, some, ◌%◌, ◌^◌,
}
use mqtt_broker_esp.Wire.Read.{Parsed, ok, err, fault, ◌>>=◌}
use mqtt_broker_esp.Wire.Length.{packet_type}
use mqtt_broker_esp.Wire.Connect.{Connect}
use mqtt_broker_esp.Wire.Subscribe.{SubTopic, Subscribe, Unsubscribe}
use mqtt_broker_esp.Wire.Publish.{Publish, parse_publish}
use mqtt_broker_esp.Wire.Build.{build_puback, build_pingresp}
use mqtt_broker_esp.Broker.{
  Broker, Env, client_of, put_client, client_disconnect, client_send, tick,
}
use mqtt_broker_esp.Broker.Fanout.{handle_publish_internal}
use mqtt_broker_esp.Broker.Received.{
  Holds, Holds-put_client, Holds-client_disconnect, Holds-client_send, Holds-touch,
  Holds-handle_publish_internal, Holds-retain_deliver,
}
use mqtt_broker_esp.Broker.Handlers.{
  accept_client, refuse_client, auth_ok, connect_result, handle_connect, suback_failure,
  deliver_granted, subscribe_result, handle_subscribe, unsubscribe_result, handle_unsubscribe,
  find_duplicate, disconnect_found, c_string,
}
use mqtt_broker_esp.Broker.Packets.{
  publish_accepted, publish_result, handle_publish, handle_pingreq, handle_disconnect,
  puback_result, handle_puback, dispatch, first_byte, handle_packet,
}

-- A handler that returns a broker has left at most `n` bytes of client `j`.
abbrev pub Leaves : (j n : ℕ) → Parsed Broker → Type 0
Leaves j n (ok b) = Holds j n b
Leaves j n (err e) = Unit
Leaves j n fault = Unit

module _ (j n : ℕ) where
  Holds-disconnect_found :
      (b : Broker) (found : Option ℕ) → Holds j n b → Holds j n (disconnect_found b found)
  Holds-disconnect_found b none h = h
  Holds-disconnect_found b (some i) h = Holds-client_disconnect j n b i h

  module _ (env : Env) where
    Holds-accept_client :
        (b : Broker) (i : ℕ) (conn : Connect) → Holds j n b → Holds j n (accept_client env b i conn)
    unfolding accept_client
    Holds-accept_client b i conn h =
        let b' : Broker =
          disconnect_found b (find_duplicate b.clients 0 i (c_string conn.client_id)) in
        Holds-put_client j n (tick (tick b')) i _ (Holds-disconnect_found b _ h) refl

    Holds-refuse_client :
        (b : Broker) (i rc : ℕ) → Holds j n b → Holds j n (refuse_client env b i rc)
    unfolding refuse_client
    Holds-refuse_client b i rc h =
        Holds-client_disconnect j n _ i (Holds-client_send j n env b i _ h)

    Leaves-connect_result :
        (b : Broker) (i : ℕ) (p : Parsed Connect)
        → Holds j n b
        → Leaves j n (connect_result env b i p)
    Leaves-connect_result b i (ok conn) h =
        if-holds (Leaves j n) (auth_ok env.auth conn)
          (λ _. Holds-client_send j n env _ i _ (Holds-accept_client b i conn h))
          (λ _. Holds-refuse_client b i _ h)
    Leaves-connect_result b i (err e) h = Holds-refuse_client b i _ h
    Leaves-connect_result b i fault h = tt

    Holds-deliver_granted :
        (ts : List SubTopic) (rcs : List ℕ) (b : Broker) (i : ℕ)
        → Holds j n b
        → Holds j n (deliver_granted env b i ts rcs)
    unfolding deliver_granted
    Holds-deliver_granted [] rcs b i h = h
    Holds-deliver_granted (t ∷ ts) [] b i h = h
    Holds-deliver_granted (t ∷ ts) (rc ∷ rcs) b i h = Holds-deliver_granted ts rcs _ i (
        if-holds (Holds j n) (rc == suback_failure) (λ _. h)
          (λ _. Holds-retain_deliver j n env b i t.topic h))

    Leaves-subscribe_result :
        (b : Broker) (i : ℕ) (p : Parsed Subscribe)
        → Holds j n b
        → Leaves j n (subscribe_result env b i p)
    Leaves-subscribe_result b i (ok p) h =
        Holds-touch j n env _ i
          (Holds-deliver_granted p.topics _ _ i (Holds-client_send j n env _ i _ h))
    Leaves-subscribe_result b i (err e) h = Holds-client_disconnect j n b i h
    Leaves-subscribe_result b i fault h = tt

    Leaves-unsubscribe_result :
        (b : Broker) (i : ℕ) (p : Parsed Unsubscribe)
        → Holds j n b
        → Leaves j n (unsubscribe_result env b i p)
    Leaves-unsubscribe_result b i (ok p) h =
        Holds-touch j n env _ i (Holds-client_send j n env _ i _ h)
    Leaves-unsubscribe_result b i (err e) h = Holds-client_disconnect j n b i h
    Leaves-unsubscribe_result b i fault h = tt

    Holds-publish_accepted :
        (b : Broker) (i : ℕ) (p : Publish) → Holds j n b → Holds j n (publish_accepted env b i p)
    unfolding publish_accepted
    Holds-publish_accepted b i p h =
        let c = client_of b i in
        let b1 : Broker = put_client b i (record c { published = (c.published + 1) % 2 ^ 32 }) in
        let b2 : Broker =
          handle_publish_internal env b1 p.topic (take p.payload_len p.payload) p.retain p.qos in
        let routed =
          Holds-handle_publish_internal j n env b1 p.topic (take p.payload_len p.payload) p.retain
            p.qos (Holds-put_client j n b i _ h refl) in
        Holds-touch j n env
          (if p.qos == 1 then client_send env b2 i (build_puback p.packet_id) else b2) i
          (if-holds (Holds j n) (p.qos == 1) (λ _. Holds-client_send j n env b2 i _ routed)
            (λ _. routed))

    Leaves-publish_result :
        (b : Broker) (i : ℕ) (p : Parsed Publish)
        → Holds j n b
        → Leaves j n (publish_result env b i p)
    Leaves-publish_result b i (ok p) h =
        if-holds (Leaves j n) (p.qos == 2) (λ _. h)
          (λ _.
            if-holds (Leaves j n) (ltb (length p.payload) p.payload_len) (λ _. tt)
              (λ _. Holds-publish_accepted b i p h))
    Leaves-publish_result b i (err e) h = h
    Leaves-publish_result b i fault h = tt

    Leaves-puback_result :
        (b : Broker) (i : ℕ) (p : Parsed ℕ) → Holds j n b → Leaves j n (puback_result env b i p)
    Leaves-puback_result b i (ok pkid) h = Holds-touch j n env _ i h
    Leaves-puback_result b i (err e) h = Holds-touch j n env b i h
    Leaves-puback_result b i fault h = tt

    Leaves-dispatch :
        (b : Broker) (i pkt_type : ℕ) (pkt : List ℕ) (pkt_len : ℕ)
        → Holds j n b
        → Leaves j n (dispatch env b i pkt_type pkt pkt_len)
    unfolding dispatch handle_connect handle_publish handle_subscribe handle_unsubscribe
        handle_pingreq handle_disconnect handle_puback
    Leaves-dispatch b i pkt_type pkt pkt_len h =
        let gone = Holds-client_disconnect j n b i h in
        if-holds (Leaves j n) (pkt_type == 0x10) (λ _. Leaves-connect_result b i _ h)
          λ _.
            if-holds (Leaves j n) (pkt_type == 0x30)
              (λ _.
                if-holds (Leaves j n) (client_of b i).authenticated
                  (λ _. Leaves-publish_result b i (parse_publish pkt pkt_len) h) (λ _. gone))
              λ _.
                if-holds (Leaves j n) (pkt_type == 0x80)
                  (λ _.
                    if-holds (Leaves j n) (client_of b i).authenticated
                      (λ _. Leaves-subscribe_result b i _ h) (λ _. gone))
                  λ _.
                    if-holds (Leaves j n) (pkt_type == 0xA0)
                      (λ _. Leaves-unsubscribe_result b i _ h)
                      λ _.
                        if-holds (Leaves j n) (pkt_type == 0xC0)
                          (λ _.
                            Holds-touch j n env (client_send env b i build_pingresp) i
                              (Holds-client_send j n env b i _ h))
                          λ _.
                            if-holds (Leaves j n) (pkt_type == 0xE0) (λ _. gone)
                              λ _.
                                if-holds (Leaves j n) (pkt_type == 0x40)
                                  (λ _. Leaves-puback_result b i _ h) (λ _. h)

    Leaves-first :
        (b : Broker) (i pkt_len : ℕ) (recv : List ℕ)
        → Holds j n b
        → Leaves j n (
            first_byte recv >>= λ byte0.
            if not (client_of b i).connected && not (packet_type byte0 == 0x10)
            then ok (client_disconnect b i)
            else dispatch env b i (packet_type byte0) (client_of b i).recv pkt_len)
    Leaves-first b i pkt_len [] h = tt
    Leaves-first b i pkt_len (byte0 ∷ recv) h =
        if-holds (Leaves j n) (not (client_of b i).connected && not (packet_type byte0 == 0x10))
          (λ _. Holds-client_disconnect j n b i h)
          (λ _. Leaves-dispatch b i (packet_type byte0) (client_of b i).recv pkt_len h)

    pub Leaves-handle_packet :
        (b : Broker) (i pkt_len : ℕ) → Holds j n b → Leaves j n (handle_packet env b i pkt_len)
    unfolding handle_packet
    Leaves-handle_packet b i pkt_len h = Leaves-first b i pkt_len (client_of b i).recv h
