-- ===== src/Tester.antt =====
-- The tester of main/mqtt_broker.c: consumers of published messages, and the queue of requests to
-- publish that other tasks fill. What a FreeRTOS queue or stream buffer answers is an argument.
pub mod Queue
mod Tests
use mqtt_broker_esp.Prelude.{
  ℕ, zero, suc, ◌+◌, ◌-◌, ◌%◌, ◌^◌, List, [], ◌∷◌, ◌++◌, Bool, true, false, ◌&&◌, ◌||◌, not, length,
  take, get_or, set, ltb, leb, ◌==◌, if◌then◌else◌, Option, none, some,
}

abbrev pub max_consumers : ℕ
max_consumers = 2

abbrev pub max_topic_len : ℕ
max_topic_len = 128

abbrev pub max_payload_len : ℕ
max_payload_len = 1024

abbrev queue_len : ℕ
queue_len = 8

-- `tester_pub_req_t`
pub record Request : Type 0 where
  pub topic : List ℕ
  pub payload : List ℕ
  pub retain : Bool
  pub qos : ℕ

-- `broker_tester_event_t`
pub record Event : Type 0 where
  pub seq : ℕ
  pub topic : List ℕ
  pub payload : List ℕ
  pub retain : Bool
  pub truncated : Bool

-- The statics. A consumer that is not active is `none`, else it is its stream buffer. `streams` is
-- what was written to the stream buffers, the newest first.
pub record Tester : Type 0 where
  pub inited : Bool
  pub consumers : List (Option ℕ)
  pub queue : List Request
  pub seq : ℕ
  pub consumer_count : ℕ
  pub events_published : ℕ
  pub events_dropped : ℕ
  pub publish_requests : ℕ
  pub publish_rejected : ℕ
  pub streams : List (ℕ × Event)

abbrev pub is_active : Option ℕ → Bool
is_active none = false
is_active (some sb) = true

-- The first consumer that is not active.
unfoldable pub free_consumer : List (Option ℕ) → ℕ → Option ℕ
free_consumer [] i = none
free_consumer (none ∷ cs) i = some i
free_consumer (some sb ∷ cs) i = free_consumer cs (i + 1)

abbrev pub register_at : Tester → ℕ → Option ℕ → Tester × Option ℕ
register_at t handle none = (t, none)
register_at t handle (some slot) = (
  record t {
    consumers = set t.consumers slot (some handle);
    consumer_count = (t.consumer_count + 1) % 2 ^ 32;
  },
  some slot,
)

abbrev register_handle : Tester → Option ℕ → Tester × Option ℕ
register_handle t none = (t, none)
register_handle t (some handle) = register_at t handle (free_consumer t.consumers 0)

unfoldable pub broker_tester_register : Tester → Option ℕ → Tester × Option ℕ
unfolding free_consumer
broker_tester_register t handle = if t.inited then register_handle t handle else (t, none)

unfoldable pub broker_tester_unregister : Tester → ℕ → Tester
broker_tester_unregister t slot =
    if leb max_consumers slot
    then t
    else if is_active (get_or t.consumers slot none)
    then record t {
      consumers = set t.consumers slot none;
      consumer_count = if ltb 0 t.consumer_count then t.consumer_count - 1 else t.consumer_count;
    }
    else t

unfoldable pub broker_tester_consumer_count : List (Option ℕ) → ℕ
broker_tester_consumer_count [] = 0
broker_tester_consumer_count (c ∷ cs) =
    if is_active c then suc (broker_tester_consumer_count cs) else broker_tester_consumer_count cs

-- No character that a topic name may not hold: '#', '+' and NUL.
unfoldable pub is_topic_name : List ℕ → Bool
is_topic_name [] = true
is_topic_name (c ∷ cs) =
    if (c == b'#') || ((c == b'+') || (c == 0)) then false else is_topic_name cs

unfoldable pub broker_enqueue_publish :
    Tester → (topic payload : List ℕ) (qos : ℕ) (retain : Bool) → Tester × Bool
unfolding is_topic_name
broker_enqueue_publish t topic payload qos retain =
    if not t.inited
    then (t, false)
    else if (length topic == 0) || ltb max_topic_len (length topic)
    then (t, false)
    else if ltb max_payload_len (length payload)
    then (t, false)
    else if ltb 1 qos
    then (t, false)
    else if not (is_topic_name topic)
    then (t, false)
    else if ltb (length t.queue) queue_len
    then (
      record t {
        queue =
            t.queue
            ++ (record { topic = topic; payload = payload; retain = retain; qos = qos } ∷ []);
      },
      true,
    )
    else (record t { publish_rejected = (t.publish_rejected + 1) % 2 ^ 32 }, false)

unfoldable pub broker_tester_request_publish :
    Tester → (topic payload : List ℕ) (retain : Bool) → Tester × Bool
unfolding broker_enqueue_publish
broker_tester_request_publish t topic payload retain =
    broker_enqueue_publish t topic payload 0 retain

unfoldable pub broker_publish_local :
    Tester → (topic payload : List ℕ) (qos : ℕ) (retain : Bool) → Tester × Bool
unfolding broker_enqueue_publish
broker_publish_local t [] payload qos retain = (t, false)
broker_publish_local t (c ∷ topic) payload qos retain =
    if c == b'$' then (t, false) else broker_enqueue_publish t (c ∷ topic) payload qos retain

-- One event for one consumer; `sent` says whether the stream buffer took all of it.
unfoldable pub send_event : Tester → Event → Option ℕ → (sent : Bool) → Tester
send_event t ev none sent = t
send_event t ev (some sb) sent =
    if sent
    then record t { streams = (sb, ev) ∷ t.streams }
    else record t { events_dropped = (t.events_dropped + 1) % 2 ^ 32 }

unfoldable pub send_events : Tester → Event → List (Option ℕ) → (sent : ℕ → Bool) → ℕ → Tester
unfolding send_event
send_events t ev [] sent i = t
send_events t ev (c ∷ cs) sent i = send_events (send_event t ev c (sent i)) ev cs sent (i + 1)

abbrev pub event_of : Tester → (topic payload : List ℕ) (retain : Bool) → Event
event_of t topic payload retain = record {
  seq = (t.seq + 1) % 2 ^ 32;
  topic = take max_topic_len topic;
  payload = take max_payload_len payload;
  retain = retain;
  truncated = ltb max_payload_len (length payload);
}

unfoldable pub tester_fanout :
    Tester → (topic payload : List ℕ) (retain : Bool) (sent : ℕ → Bool) → Tester
unfolding send_events broker_tester_consumer_count
tester_fanout t topic payload retain sent =
    if not t.inited
    then t
    else if broker_tester_consumer_count t.consumers == 0
    then t
    else send_events
        (record t {
          seq = (t.seq + 1) % 2 ^ 32;
          events_published = (t.events_published + 1) % 2 ^ 32;
        })
        (event_of t topic payload retain) t.consumers sent 0
