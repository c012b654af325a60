-- ===== src/Broker/Tests.antt =====
-- A broker with two clients, and the handlers on it.
use mqtt_broker_esp.Prelude.{
  ℕ, zero, suc, ◌+◌, ◌≡◌, ◌≢◌, ◌⊎◌, refl, List, [], ◌∷◌, true, false, take, replicate, none, some,
  arith, All,
}
use mqtt_broker_esp.Wire.Read.{fault, write_u16}
use mqtt_broker_esp.Wire.Length.{encode_remaining_length}
use mqtt_broker_esp.Wire.Subscribe.{SubTopic}
use mqtt_broker_esp.Wire.Build.{
  build_publish, build_publish_ex, fixed_header, packet_id_field, publish_remaining,
}
use mqtt_broker_esp.Inflight.{Slot, row_of, holds_id}
use mqtt_broker_esp.Inflight.Bytes.{RowOk, row_bytes, table_bytes}
use mqtt_broker_esp.Inflight.Valid.{IsValid}
use mqtt_broker_esp.Broker.{Client, Sub, Broker, Env, no_auth, client_of, client_disconnect}
use mqtt_broker_esp.Broker.Handlers.{subscribe_topic, suback_failure}
use mqtt_broker_esp.Broker.Fanout.{no_slot, inflight_transmit, deliver}
use mqtt_broker_esp.Broker.Packets.{process_loop, process_client_data}
use mqtt_broker_esp.Broker.Packets.Enough.{process_loop-process_client_data}
use mqtt_broker_esp.Broker.Packets.Safety.{process_client_data-Returns}
use mqtt_broker_esp.Broker.Disconnect.{IsGone, SameFor, client_disconnect_lem}
use mqtt_broker_esp.Broker.Subscriptions.{sub_qos, IsApart, subscribe_topic_lem}
use mqtt_broker_esp.Broker.SendBuf.{qos0_after_qos1}

abbrev letter_a : List ℕ
letter_a = b'a' ∷ []

abbrev sends_succeed : Env
sends_succeed = record {
  now = λ k. 1000 + k;
  ntp_now = λ k. 2000 + k;
  memory = λ k. record { struct_size = 32; psram_total = 8388608; free_heap = 200000 };
  alloc_ok = λ k. true;
  cut = λ k. none;
  takes = λ k i. true;
  has_topic_subs = λ k. false;
  retain_enabled = true;
  auth = no_auth;
}

-- A client that has sent a PINGREQ and a byte more.
abbrev client : ℕ → Client
client n = record {
  fd = some n;
  client_id = n ∷ [];
  recv = 0xC0 ∷ 0 ∷ 0x30 ∷ [];
  keep_alive = 60;
  last_activity = 900;
  connected_at = 500;
  published = 0;
  next_packet_id = 5;
  connected = true;
  authenticated = true;
}

abbrev queued : Slot
queued = record no_slot { active = true; packet_id = 5; topic = letter_a; payload = b'x' ∷ [] }

abbrev both_subscribed : List Sub
both_subscribed =
    record { active = true; client_idx = 0; topic = letter_a; qos = 1 }
    ∷ record { active = true; client_idx = 1; topic = letter_a; qos = 0 }
    ∷ record { active = false; client_idx = 0; topic = []; qos = 0 }
    ∷ []

abbrev broker : Broker
broker = record {
  clients = client 40 ∷ client 41 ∷ [];
  subs = both_subscribed;
  num_connected = 2;
  inflight = record {
    rows = (queued ∷ replicate 19 no_slot) ∷ replicate 20 no_slot ∷ [];
    bytes = 2;
    dropped = 0;
    cap_skips = 0;
  };
  retained = record { messages = []; bytes = 0; count = 0 };
  echo = record { entries = []; enabled = true; min_count = 3; window_sec = 10 };
  tester = record {
    inited = false;
    consumers = [];
    queue = [];
    seq = 0;
    consumer_count = 0;
    events_published = 0;
    events_dropped = 0;
    publish_requests = 0;
    publish_rejected = 0;
    streams = [];
  };
  send_buf = replicate 16 0;
  sent = [];
  berry = [];
  calls = 0;
}

free_row :
    (n : ℕ)
    → RowOk (replicate n no_slot)
      × (holds_id (replicate n no_slot) 5 ≡ false)
      × (row_bytes (replicate n no_slot) ≡ 0)
unfolding holds_id row_bytes
free_row zero = (tt, refl, refl)
free_row (suc n) = ((λ e. absurd (cc), (free_row n).0), (free_row n).1, (free_row n).2)

broker-IsValid : IsValid broker.inflight
broker-IsValid = record {
  rows_ok = (
    ((λ e. (omega arith, omega arith, (free_row 19).1), (free_row 19).0), refl),
    (((free_row 20).0, refl), tt),
  );
  bytes_right = unfold table_bytes row_bytes in refl;
  within_cap = omega arith;
}

client_disconnect_lem_example :
    IsGone (client_disconnect broker 0) 0
    × IsValid (client_disconnect broker 0).inflight
    × (client_of (client_disconnect broker 0) 1 ≡ client_of broker 1)
    × SameFor 0 broker.subs (client_disconnect broker 0).subs
    × (row_of (client_disconnect broker 0).inflight 1 ≡ row_of broker.inflight 1)
client_disconnect_lem_example =
    client_disconnect_lem broker 0 1 refl broker-IsValid (omega arith) (omega arith)
      (λ e. omega arith)

process_client_data-Returns_example : process_client_data sends_succeed broker 0 ≢ fault
process_client_data-Returns_example = process_client_data-Returns sends_succeed broker 0

-- The PINGREQ is handled and the byte behind it stays.
process_loop-process_client_data_example :
    process_loop sends_succeed 9 broker 0 ≡ process_client_data sends_succeed broker 0
process_loop-process_client_data_example =
    process_loop-process_client_data sends_succeed 0 9 broker (omega arith)

abbrev asked : SubTopic
asked = record { topic = letter_a; qos = 2 }

subscribe_topic_lem_example :
    let r = subscribe_topic both_subscribed 1 asked in
    (((r.1 ≡ suback_failure)
        × (r.0 ≡ both_subscribed)
        × (sub_qos both_subscribed 1 letter_a ≡ none)
        × All (λ s. s.active ≡ true) both_subscribed)
      ⊎ ((r.1 ≡ 1) × (sub_qos r.0 1 letter_a ≡ some 1)))
    × ((j : ℕ) (u : List ℕ)
        → IsApart 1 j letter_a u
        → sub_qos r.0 j u ≡ sub_qos both_subscribed j u)
subscribe_topic_lem_example = subscribe_topic_lem both_subscribed 1 asked

abbrev q0_packet : List ℕ
q0_packet = 0x30 ∷ 4 ∷ 0 ∷ 1 ∷ b'a' ∷ b'x' ∷ []

abbrev q1_packet : List ℕ
q1_packet = 0x32 ∷ 6 ∷ 0 ∷ 1 ∷ b'a' ∷ 0 ∷ 5 ∷ b'x' ∷ []

q0_built : build_publish 16 letter_a (b'x' ∷ []) false ≡ some q0_packet
unfolding build_publish build_publish_ex fixed_header publish_remaining packet_id_field
    encode_remaining_length write_u16
q0_built = refl

q1_built : build_publish_ex 16 letter_a (b'x' ∷ []) 1 false false 5 ≡ some q1_packet
unfolding build_publish_ex fixed_header publish_remaining packet_id_field encode_remaining_length
    write_u16
q1_built = refl

qos0_after_qos1_example :
    ((deliver sends_succeed 1000 6 letter_a
        (b'x' ∷ [])
        0
        (inflight_transmit sends_succeed broker 0 0 false)
        1).sent
      ≡ (1, take 6 q1_packet) ∷ (0, q1_packet) ∷ [])
    × (take 6 q1_packet ≢ q0_packet)
qos0_after_qos1_example =
    qos0_after_qos1 sends_succeed broker 0 0 1 1000 q0_packet q1_packet (λ k. refl) refl refl
      q0_built q1_built (omega arith)
