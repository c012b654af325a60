-- ===== src/Tester/Tests.antt =====
-- A request to publish on an idle tester.
use mqtt_broker_esp.Prelude.{ℕ, ◌≡◌, ◌≢◌, ◌≤◌, ◌<◌, ◌↔◌, ◌++◌, [], ◌∷◌, true, false, if◌then◌else◌}
use mqtt_broker_esp.Tester.{Tester, broker_publish_local}
use mqtt_broker_esp.Tester.Queue.{IsTopicName, broker_publish_local_lem}

abbrev letter_a : ℕ
letter_a = b'a'

abbrev idle : Tester
idle = record {
  inited = true;
  consumers = [];
  queue = [];
  seq = 0;
  consumer_count = 0;
  events_published = 0;
  events_dropped = 0;
  publish_requests = 0;
  publish_rejected = 0;
  streams = [];
}

broker_publish_local_lem_example :
    let r = broker_publish_local idle (letter_a ∷ []) (7 ∷ []) 1 false in
    ((r.1 ≡ true) ↔ (
      (true ≡ true)
      × (0 < 8)
      × (1 ≤ 1)
      × (letter_a ≢ b'$')
      × (1 ≤ 128)
      × IsTopicName (letter_a ∷ [])
      × (1 ≤ 1024)
      × (1 ≤ 1)))
    × (r.0.queue ≡ (
        if r.1
        then []
          ++ (record { topic = letter_a ∷ []; payload = 7 ∷ []; retain = false; qos = 1 } ∷ [])
        else []))
broker_publish_local_lem_example = broker_publish_local_lem idle (letter_a ∷ []) (7 ∷ []) 1 false
