-- ===== src/Broker/Received.antt =====
-- main/mqtt_broker.c: no send, routing or handler lengthens the received bytes of a client, which only
-- the reading from its socket does.
use mqtt_broker_esp.Prelude.{
  ℕ, zero, suc, ◌+◌, ◌≤◌, ◌≡◌, refl, ap, List, [], ◌∷◌, length, get_or, set, true, false, ◌&&◌,
  ◌==◌, min, if-holds, Option, none, some, arith, Bool-cases, inl, inr, Bool, Option-cases,
}
use mqtt_broker_esp.Topic.{topic_matches}
use mqtt_broker_esp.Retain.{Retained}
use mqtt_broker_esp.Inflight.{Enqueued}
use mqtt_broker_esp.Wire.Build.{build_publish}
use mqtt_broker_esp.Broker.{
  Client, Sub, Broker, Env, client_of, put_client, is_ready, is_open, tick, client_disconnect,
  client_send, send_cut, touch, write_send_buf, buf_size,
}
use mqtt_broker_esp.Broker.Fanout.{
  sub_of, send_built, inflight_transmit, send_queued, deliver, route_sub, route, store_retained,
  after_fanout, fanout, handle_publish_internal, deliver_retained, retain_deliver,
}

-- At most `n` bytes of client `j` are in its buffer.
abbrev pub Holds : (j n : ℕ) → Broker → Type 0
Holds j n b = length (client_of b j).recv ≤ n

-- Another record at one place, seen from any place.
get_or-set-holds :
    (j n : ℕ) (cs : List Client) (i : ℕ) (c d : Client)
    → length (get_or cs j d).recv ≤ n
    → (i ≡ j → length c.recv ≤ n)
    → length (get_or (set cs i c) j d).recv ≤ n
get_or-set-holds j n [] i c d h k = h
get_or-set-holds zero n (x ∷ cs) zero c d h k = k refl
get_or-set-holds (suc j) n (x ∷ cs) zero c d h k = h
get_or-set-holds zero n (x ∷ cs) (suc i) c d h k = h
get_or-set-holds (suc j) n (x ∷ cs) (suc i) c d h k =
    get_or-set-holds j n cs i c d h (λ e. k (ap suc e))

module _ (j n : ℕ) where
  -- A client is written back with another record that has the same bytes.
  pub Holds-put_client :
      (b : Broker) (i : ℕ) (c : Client)
      → Holds j n b
      → c.recv ≡ (client_of b i).recv
      → Holds j n (put_client b i c)
  Holds-put_client b i c h e = get_or-set-holds j n b.clients i c _ h (λ same. rw (e, same) h)

  pub Holds-client_disconnect :
      (b : Broker) (i : ℕ) → Holds j n b → Holds j n (client_disconnect b i)
  unfolding client_disconnect
  Holds-client_disconnect b i h =
      if-holds (Holds j n) (is_open (client_of b i).fd)
        (λ _. get_or-set-holds j n b.clients i _ _ h (λ _. omega arith)) (λ _. h)

  module _ (env : Env) where
    Holds-send_cut :
        (b : Broker) (i : ℕ) (bytes : List ℕ) (cut : Option ℕ)
        → Holds j n b
        → Holds j n (send_cut env b i bytes cut)
    Holds-send_cut b i bytes none h = h
    Holds-send_cut b i bytes (some k) h = Holds-client_disconnect _ i h

    pub Holds-client_send :
        (b : Broker) (i : ℕ) (bytes : List ℕ) → Holds j n b → Holds j n (client_send env b i bytes)
    unfolding client_send
    Holds-client_send b i bytes h =
        if-holds (Holds j n) (is_open (client_of b i).fd)
          (λ _. Holds-send_cut (tick b) i bytes (env.cut b.calls) h) (λ _. h)

    pub Holds-touch : (b : Broker) (i : ℕ) → Holds j n b → Holds j n (touch env b i)
    unfolding touch
    Holds-touch b i h = Holds-put_client (tick b) i _ h refl

    Holds-send_built :
        (b : Broker) (i : ℕ) (built : Option (List ℕ)) (otherwise : Broker)
        → Holds j n b
        → Holds j n otherwise
        → Holds j n (send_built env b i built otherwise)
    Holds-send_built b i none otherwise h k = k
    Holds-send_built b i (some out) otherwise h k = Holds-client_send _ i out h

    Holds-inflight_transmit :
        (b : Broker) (i slot : ℕ) → Holds j n b → Holds j n (inflight_transmit env b i slot false)
    unfolding inflight_transmit
    Holds-inflight_transmit b i slot h = Holds-send_built b i _ _ h h

    Holds-send_queued :
        (b : Broker) (i q0_len : ℕ) (r : Enqueued)
        → Holds j n b
        → Holds j n (send_queued env b i q0_len r)
    Holds-send_queued b i q0_len (t, current, none) h =
        Holds-client_send _ i _ (Holds-put_client (record b { inflight = t }) i _ h refl)
    Holds-send_queued b i q0_len (t, current, some slot) h =
        Holds-inflight_transmit _ i slot (Holds-put_client (record b { inflight = t }) i _ h refl)

    module _ (now q0_len : ℕ) (topic payload : List ℕ) where
      Holds-route_sub :
          (pub_qos : ℕ) (b : Broker) (s : Sub)
          → Holds j n b
          → Holds j n (route_sub env now q0_len topic payload pub_qos b s)
      unfolding route_sub deliver
      Holds-route_sub pub_qos b s h =
          if-holds (Holds j n)
            (s.active && topic_matches s.topic topic && is_ready (client_of b s.client_idx))
            (λ _.
              if-holds (Holds j n) (min pub_qos s.qos == 0) (λ _. Holds-client_send b _ _ h)
                (λ _. Holds-send_queued (tick b) s.client_idx q0_len _ h))
            (λ _. h)

      Holds-route :
          (count pub_qos : ℕ) (b : Broker) (i : ℕ)
          → Holds j n b
          → Holds j n (route env count now q0_len topic payload pub_qos b i)
      unfolding route
      Holds-route zero pub_qos b i h = h
      Holds-route (suc count) pub_qos b i h =
          Holds-route count pub_qos _ (i + 1) (Holds-route_sub pub_qos b (sub_of b i) h)

    Holds-fanout :
        (b : Broker) (topic payload : List ℕ) (retain : Bool) (pub_qos : ℕ) (q0 : Option (List ℕ))
        → Holds j n b
        → Holds j n (fanout env b topic payload retain pub_qos q0)
    unfolding after_fanout
    Holds-fanout b topic payload retain pub_qos none h = h
    Holds-fanout b topic payload retain pub_qos (some q0) h =
        Holds-route (env.now b.calls) (length q0) topic payload _ pub_qos _ 0 h

    Holds-store_retained :
        (b : Broker) (topic payload : List ℕ) (retain : Bool)
        → Holds j n b
        → Holds j n (store_retained env b topic payload retain)
    Holds-store_retained b topic payload retain h =
        elim (Bool-cases (retain && env.retain_enabled)) [ inl on ↦ rw on h | inr off ↦ rw off h ]

    pub Holds-handle_publish_internal :
        (b : Broker) (topic payload : List ℕ) (retain : Bool) (pub_qos : ℕ)
        → Holds j n b
        → Holds j n (handle_publish_internal env b topic payload retain pub_qos)
    unfolding handle_publish_internal
    Holds-handle_publish_internal b topic payload retain pub_qos h =
        let b' : Broker = store_retained env b topic payload retain in
        Holds-fanout b' topic payload retain pub_qos
          (build_publish (buf_size b') topic payload false)
          (Holds-store_retained b topic payload retain h)

    Holds-deliver_retained :
        (rs : List Retained) (b : Broker) (i : ℕ) (filter : List ℕ)
        → Holds j n b
        → Holds j n (deliver_retained env b i filter rs)
    unfolding deliver_retained
    Holds-deliver_retained [] b i filter h = h
    Holds-deliver_retained (r ∷ rs) b i filter h =
        let built : Option (List ℕ) = build_publish (buf_size b) r.topic r.payload true in
        Holds-deliver_retained rs _ i filter (
          if-holds (Holds j n) (topic_matches filter r.topic)
            (λ _. elim (Option-cases built) [
              | inl refused ↦ rw refused h
              | inr (out, made) ↦ rw made (
                  if-holds (Holds j n) (is_ready (client_of b i))
                    (λ _. Holds-client_send (write_send_buf b out) i out h) (λ _. h))
            ])
            (λ _. h))

    pub Holds-retain_deliver :
        (b : Broker) (i : ℕ) (filter : List ℕ)
        → Holds j n b
        → Holds j n (retain_deliver env b i filter)
    unfolding retain_deliver
    Holds-retain_deliver b i filter h = Holds-deliver_retained b.retained.messages b i filter h
