-- ===== src/Broker/Fanout.antt =====
-- Routing a message to its subscribers, and the retries of QoS 1 messages.
use mqtt_broker_esp.Prelude.{
  ℕ, zero, suc, ◌+◌, ◌-◌, ◌*◌, ◌%◌, ◌^◌, List, [], ◌∷◌, Bool, true, false, ◌&&◌, length, take,
  get_or, set, min, leb, ◌==◌, if◌then◌else◌, Option, none, some,
}
use mqtt_broker_esp.Wire.Build.{build_publish, build_publish_ex}
use mqtt_broker_esp.Topic.{topic_matches}
use mqtt_broker_esp.Inflight.{
  Slot, Enqueued, row_of, retry_initial_ms, retry_max_ms, retry_max, per_client_max,
  inflight_free_slot, inflight_enqueue,
}
use mqtt_broker_esp.Retain.{Retained, retain_store}
use mqtt_broker_esp.Echo.{echo_track}
use mqtt_broker_esp.Tester.{tester_fanout}
use mqtt_broker_esp.Broker.{
  Sub, Broker, Env, client_of, put_client, is_ready, tick, client_send, write_send_buf, buf_size,
}

-- A slot that is not in use.
abbrev pub no_slot : Slot
no_slot = record {
  active = false;
  retries = 0;
  retain = false;
  packet_id = 0;
  next_retry_ms = 0;
  topic = [];
  payload = [];
}

abbrev pub slot_of : Broker → (client_idx slot : ℕ) → Slot
slot_of b client_idx slot = get_or (row_of b.inflight client_idx) slot no_slot

abbrev pub put_slot : Broker → (client_idx slot : ℕ) → Slot → Broker
put_slot b client_idx slot e = record b {
  inflight = record b.inflight {
    rows = set b.inflight.rows client_idx (set (row_of b.inflight client_idx) slot e);
  };
}

abbrev no_sub : Sub
no_sub = record { active = false; client_idx = 0; topic = []; qos = 0 }

abbrev pub sub_of : Broker → ℕ → Sub
sub_of b i = get_or b.subs i no_sub

-- Exponential backoff: 15 s, 30 s, 60 s, 60 s, 60 s.
unfoldable pub retry_delay : (retries : ℕ) → ℕ
retry_delay retries = min (retry_initial_ms * 2 ^ (retries - 1)) retry_max_ms

-- The slot at a retry.
abbrev pub retried : (now : ℕ) → Slot → Slot
retried now e = record e {
  retries = e.retries + 1;
  next_retry_ms = now + retry_delay (e.retries + 1);
}

module _ (env : Env) where
  abbrev pub send_built : Broker → ℕ → Option (List ℕ) → Broker → Broker
  send_built b idx none otherwise = otherwise
  send_built b idx (some out) otherwise = client_send env (write_send_buf b out) idx out

  unfoldable pub inflight_transmit : Broker → (client_idx slot : ℕ) (dup : Bool) → Broker
  unfolding client_send
  inflight_transmit b client_idx slot dup =
      let e = slot_of b client_idx slot in
      send_built b client_idx
        (build_publish_ex (buf_size b) e.topic e.payload 1 e.retain dup e.packet_id)
        (record b { inflight = inflight_free_slot b.inflight client_idx slot })

  -- One slot in the walk.
  unfoldable pub walk_slot : (now : ℕ) → Broker → (client_idx slot : ℕ) → Broker
  unfolding inflight_transmit
  walk_slot now b ci slot =
      let e = slot_of b ci slot in
      if e.active && leb e.next_retry_ms now
      then if leb retry_max e.retries
        then record b {
          inflight =
              inflight_free_slot (record b.inflight { dropped = (b.inflight.dropped + 1) % 2 ^ 32 })
                ci slot;
        }
        else inflight_transmit (put_slot b ci slot (retried now e)) ci slot true
      else b

  unfoldable pub walk_slots : (count now : ℕ) → Broker → (client_idx slot : ℕ) → Broker
  unfolding walk_slot
  walk_slots zero now b ci slot = b
  walk_slots (suc n) now b ci slot = walk_slots n now (walk_slot now b ci slot) ci (slot + 1)

  unfoldable pub walk_clients : (count now : ℕ) → Broker → ℕ → Broker
  unfolding walk_slots
  walk_clients zero now b ci = b
  walk_clients (suc n) now b ci =
      let b' = if is_ready (client_of b ci) then walk_slots per_client_max now b ci 0 else b in
      walk_clients n now b' (ci + 1)

  unfoldable pub inflight_walk : Broker → (now : ℕ) → Broker
  unfolding walk_clients
  inflight_walk b now = walk_clients (length b.clients) now b 0

  -- The result of `inflight_enqueue`: the packet goes out from its slot, or at QoS 0.
  abbrev pub send_queued : Broker → ℕ → (q0_len : ℕ) → Enqueued → Broker
  send_queued b ci q0_len (t, current, none) =
      client_send env
        (put_client (record b { inflight = t }) ci
          (record (client_of b ci) { next_packet_id = current }))
        ci (take q0_len b.send_buf)
  send_queued b ci q0_len (t, current, some slot) =
      inflight_transmit
        (put_client (record b { inflight = t }) ci
          (record (client_of b ci) { next_packet_id = current }))
        ci slot false

  -- Delivery to one client; `qos` is the effective one.
  unfoldable pub deliver :
      (now q0_len : ℕ) (topic payload : List ℕ) (qos : ℕ) → Broker → (client_idx : ℕ) → Broker
  unfolding client_send inflight_transmit inflight_enqueue
  deliver now q0_len topic payload qos b ci =
      if qos == 0
      then client_send env b ci (take q0_len b.send_buf)
      else send_queued (tick b) ci q0_len (
          inflight_enqueue b.inflight ci (env.alloc_ok b.calls) topic payload false now
            (client_of b ci).next_packet_id)

  -- One subscription in the routing loop.
  unfoldable pub route_sub :
      (now q0_len : ℕ) (topic payload : List ℕ) (pub_qos : ℕ) → Broker → Sub → Broker
  unfolding deliver
  route_sub now q0_len topic payload pub_qos b s =
      if s.active && topic_matches s.topic topic && is_ready (client_of b s.client_idx)
      then deliver now q0_len topic payload (min pub_qos s.qos) b s.client_idx
      else b

  -- The loop over `s_subs`, which reads each subscription as the sends before it left it.
  unfoldable pub route :
      (count : ℕ) (now q0_len : ℕ) (topic payload : List ℕ) (pub_qos : ℕ)
      → Broker
      → (i : ℕ) → Broker
  unfolding route_sub
  route zero now q0_len topic payload pub_qos b i = b
  route (suc n) now q0_len topic payload pub_qos b i =
      route n now q0_len topic payload pub_qos
        (route_sub now q0_len topic payload pub_qos b (sub_of b i)) (i + 1)

  abbrev pub store_retained : Broker → (topic payload : List ℕ) (retain : Bool) → Broker
  store_retained b topic payload retain =
      if retain && env.retain_enabled
      then record (tick b) {
        retained =
            retain_store (env.memory b.calls) (env.alloc_ok b.calls) (env.now b.calls) topic payload
              b.retained;
      }
      else b

  -- The hooks behind the routing: the tester, the Berry runtime, echo detection.
  unfoldable pub after_fanout : Broker → (topic payload : List ℕ) (retain : Bool) → Broker
  unfolding tester_fanout echo_track
  after_fanout b topic payload retain = record (tick b) {
    tester = tester_fanout b.tester topic payload retain (env.takes b.calls);
    berry = if env.has_topic_subs b.calls then (topic, payload) ∷ b.berry else b.berry;
    echo = (echo_track b.echo (env.now b.calls) (env.ntp_now b.calls) topic).0;
  }

  abbrev pub fanout :
      Broker → (topic payload : List ℕ) (retain : Bool) (pub_qos : ℕ) → Option (List ℕ) → Broker
  fanout b topic payload retain pub_qos none = b
  fanout b topic payload retain pub_qos (some q0) =
      let b' = tick (write_send_buf b q0) in
      after_fanout (route (length b'.subs) (env.now b.calls) (length q0) topic payload pub_qos b' 0)
        topic payload retain

  unfoldable pub handle_publish_internal :
      Broker → (topic payload : List ℕ) (retain : Bool) (pub_qos : ℕ) → Broker
  unfolding route after_fanout
  handle_publish_internal b topic payload retain pub_qos =
      let b' = store_retained b topic payload retain in
      fanout b' topic payload retain pub_qos (build_publish (buf_size b') topic payload false)

  -- `retain_deliver`: the messages of the list, one after the other.
  unfoldable pub deliver_retained : Broker → ℕ → (filter : List ℕ) → List Retained → Broker
  unfolding client_send
  deliver_retained b ci filter [] = b
  deliver_retained b ci filter (r ∷ rs) =
      let built = build_publish (buf_size b) r.topic r.payload true in
      let b' = if topic_matches filter r.topic then deliver_built b ci built else b in
      deliver_retained b' ci filter rs
    where
      deliver_built : Broker → ℕ → Option (List ℕ) → Broker
      deliver_built b ci none = b
      deliver_built b ci (some out) =
          if is_ready (client_of b ci)
          then client_send env (write_send_buf b out) ci out
          else write_send_buf b out

  unfoldable pub retain_deliver : Broker → ℕ → (filter : List ℕ) → Broker
  unfolding deliver_retained
  retain_deliver b ci filter = deliver_retained b ci filter b.retained.messages
