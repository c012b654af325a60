-- ===== src/Broker/Packets/Enough.antt =====
-- main/mqtt_broker.c: the loop over the received packets ends by itself.
use mqtt_broker_esp.Prelude.{
  ℕ, zero, suc, ◌+◌, ◌-◌, ◌≤◌, ◌≡◌, refl, List, [], ◌∷◌, length, length-drop, get_or, set, ◌==◌,
  true, arith, Bool-cases, inl, inr,
}
use mqtt_broker_esp.Wire.Read.{Parsed, ok, err, fault, ◌>>=◌}
use mqtt_broker_esp.Wire.Length.{Frame, incomplete, bad_frame, outside, complete, packet_length}
use mqtt_broker_esp.Wire.Length.Decode.{packet_length-IsPacket}
use mqtt_broker_esp.Broker.{Client, Broker, Env, client_of, is_open}
use mqtt_broker_esp.Broker.Received.{Holds}
use mqtt_broker_esp.Broker.Packets.{
  handle_packet, consume, go_on, by_frame, process_loop, process_client_data,
}
use mqtt_broker_esp.Broker.Packets.Kept.{Leaves, Leaves-handle_packet}

-- A record where it has been written, if there is such a place.
length-recv_set :
    (n : ℕ) (cs : List Client) (i : ℕ) (c d : Client)
    → length d.recv ≤ n
    → length c.recv ≤ n
    → length (get_or (set cs i c) i d).recv ≤ n
length-recv_set n [] i c d h k = h
length-recv_set n (x ∷ cs) zero c d h k = k
length-recv_set n (x ∷ cs) (suc i) c d h k = length-recv_set n cs i c d h k

-- A packet taken off the buffer leaves less in it.
consume-Holds : (b : Broker) (idx n m : ℕ) → Holds idx (n + m) b → Holds idx m (consume b idx n)
consume-Holds b idx n m h =
    length-recv_set m b.clients idx _ _ (omega arith)
      (omega (arith, length-drop n (client_of b idx).recv))

bind-same :
    (j n : ℕ) (m : Parsed Broker) (k k' : Broker → Parsed Broker)
    → Leaves j n m
    → ((b : Broker) → Holds j n b → k b ≡ k' b)
    → (m >>= k) ≡ (m >>= k')
bind-same j n (ok b) k k' h same = same b h
bind-same j n (err e) k k' h same = refl
bind-same j n fault k k' h same = refl

frame_same :
    (b : Broker) (idx : ℕ) (rest rest' : ℕ → Parsed Broker) (f : Frame)
    → ((n : ℕ) → f ≡ complete n → rest n ≡ rest' n)
    → by_frame b idx rest f ≡ by_frame b idx rest' f
frame_same b idx rest rest' incomplete same = refl
frame_same b idx rest rest' bad_frame same = refl
frame_same b idx rest rest' outside same = refl
frame_same b idx rest rest' (complete n) same = same n refl

go_on-same :
    (next next' : Broker → Parsed Broker) (idx n : ℕ) (b : Broker)
    → next (consume b idx n) ≡ next' (consume b idx n)
    → go_on next idx n b ≡ go_on next' idx n b
go_on-same next next' idx n b same = elim (Bool-cases (is_open (client_of b idx).fd)) [
  | inl on ↦ rw on same
  | inr off ↦ rw off refl
]

module _ (env : Env) (idx : ℕ) where
  process_loop-stable :
      (f g : ℕ) (b : Broker)
      → length (client_of b idx).recv ≤ f
      → length (client_of b idx).recv ≤ g
      → process_loop env f b idx ≡ process_loop env g b idx
  unfolding process_loop
  process_loop-stable zero zero b h k = refl
  process_loop-stable zero (suc g) b h k =
      let empty : (length (client_of b idx).recv == 0) ≡ true = ground arith in rw empty refl
  process_loop-stable (suc f) zero b h k =
      let empty : (length (client_of b idx).recv == 0) ≡ true = ground arith in rw empty refl
  process_loop-stable (suc f) (suc g) b h k =
      let recv : List ℕ = (client_of b idx).recv in
      let size : ℕ = length recv in
      let next : ℕ → Broker → Parsed Broker = λ fuel b'. process_loop env fuel b' idx in
      elim (Bool-cases (size == 0)) [
        | inl empty ↦ rw empty refl
        | inr more ↦ rw more (
            frame_same b idx (λ n. handle_packet env b idx n >>= go_on (next f) idx n)
              (λ n. handle_packet env b idx n >>= go_on (next g) idx n) (packet_length recv size)
              λ n e.
                let (remaining, rl_bytes, v, hn) = packet_length-IsPacket recv size n e in
                bind-same idx size (handle_packet env b idx n) (go_on (next f) idx n)
                  (go_on (next g) idx n) (Leaves-handle_packet idx size env b idx n (omega arith))
                  λ b' left.
                    let room = consume-Holds b' idx n (size - n) (omega arith) in
                    go_on-same (next f) (next g) idx n b' (
                      process_loop-stable f g (consume b' idx n) (omega (arith, room, v.total))
                        (omega (arith, room, v.total))))
      ]

  -- The loop over the packets that a client has sent ends by itself: with any larger bound on its rounds
  -- it has the same result, whatever the outside answers.
  pub process_loop-process_client_data :
      (fuel : ℕ) (b : Broker)
      → length (client_of b idx).recv ≤ fuel
      → process_loop env fuel b idx ≡ process_client_data env b idx
  unfolding process_client_data
  process_loop-process_client_data fuel b h = process_loop-stable fuel _ b h (omega arith)
