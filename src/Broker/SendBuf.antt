-- ===== src/Broker/SendBuf.antt =====
-- The packet for QoS 0 subscribers is built once, in the buffer that QoS 1 packets are built in too.
use mqtt_broker_esp.Prelude.{
  ℕ, zero, suc, ◌≤◌, ◌≡◌, ◌≢◌, refl, List, [], ◌∷◌, ◌++◌, Bool, true, length, take, drop, none,
  some, arith, ap, false,
}
use mqtt_broker_esp.Wire.Build.{build_publish, build_publish_ex, fixed_header}
use mqtt_broker_esp.Wire.Publish.Body.{build_publish_ex-parts}
use mqtt_broker_esp.Broker.{Broker, Env, client_of, is_open, client_send, buf_size}
use mqtt_broker_esp.Broker.Fanout.{slot_of, inflight_transmit, deliver}

headers_differ : (r : Bool) → fixed_header 1 r false ≢ fixed_header 0 false false
unfolding fixed_header
headers_differ true e = omega arith
headers_differ false e = omega arith

build_publish-parts :
    (size : ℕ) (topic payload q0 : List ℕ)
    → build_publish size topic payload false ≡ some q0
    → (rest : List ℕ) × (q0 ≡ fixed_header 0 false false ∷ rest)
unfolding build_publish
build_publish-parts size topic payload q0 e =
    (_, (build_publish_ex-parts size topic payload 0 false false 0 q0 e).1)

same_head :
    {q0 q1 r0 r1 : List ℕ} {h0 h1 : ℕ}
    → q0 ≡ h0 ∷ r0
    → q1 ≡ h1 ∷ r1
    → take (length q0) q1 ≡ q0
    → h1 ≡ h0
same_head {r0} {r1} {h0} {h1} e0 e1 e =
    let cons : h1 ∷ take (length r0) r1 ≡ h0 ∷ r0 = rw (e0, e1) at e in cc

take-front : (n : ℕ) (xs ys : List ℕ) → n ≤ length xs → take n (xs ++ ys) ≡ take n xs
take-front zero xs ys h = refl
take-front (suc n) [] ys h = absurd (omega arith)
take-front (suc n) (x ∷ xs) ys h = ap (λ t. x ∷ t) (take-front n xs ys (omega arith))

module _ (env : Env) (b : Broker) (ci slot cj now : ℕ) (q0 q1 : List ℕ) where
  -- When the sends succeed, both clients are open, both packets fit the buffer and the QoS 1 packet is
  -- no shorter, a QoS 0 delivery of a message right after its QoS 1 delivery to another client sends
  -- the first bytes of the QoS 1 packet, as many as the QoS 0 packet has: these are not the QoS 0
  -- packet.
  pub qos0_after_qos1 :
      ((k : ℕ) → env.cut k ≡ none)
      → is_open (client_of b ci).fd ≡ true
      → is_open (client_of b cj).fd ≡ true
      → let e = slot_of b ci slot in
        build_publish (buf_size b) e.topic e.payload false ≡ some q0
        → build_publish_ex (buf_size b) e.topic e.payload 1 e.retain false e.packet_id ≡ some q1
        → length q0 ≤ length q1
        → ((deliver env now
              (length q0)
              e.topic
              e.payload
              0
              (inflight_transmit env b ci slot false)
              cj).sent
            ≡ (cj, take (length q0) q1) ∷ (ci, q1) ∷ b.sent)
          × (take (length q0) q1 ≢ q0)
  unfolding deliver inflight_transmit client_send
  qos0_after_qos1 cut oi oj b0 b1 shorter = (
    rw (b1, oi, cut, oj, cut, take-front (length q0) q1 (drop (length q1) b.send_buf) shorter) refl,
    λ e. headers_differ (slot_of b ci slot).retain (
        same_head
          (build_publish-parts (buf_size b) (slot_of b ci slot).topic (slot_of b ci slot).payload q0
            b0).1
          (build_publish_ex-parts _ _ _ 1 _ false _ q1 b1).1 e),
  )
