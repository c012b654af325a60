-- ===== src/Tester/Queue.antt =====
-- Which requests to publish the queue takes.
use mqtt_broker_esp.Prelude.{
  ℕ, ◌≤◌, ◌<◌, ◌≡◌, ◌≢◌, refl, List, [], ◌∷◌, ◌++◌, Bool, true, length, get_or, ◌↔◌, if◌then◌else◌,
  All, arith,
}
use mqtt_broker_esp.Tester.{
  Tester, is_topic_name, broker_enqueue_publish, broker_publish_local,
  broker_tester_request_publish,
}

-- A topic name holds no wildcard and no NUL.
abbrev pub IsTopicName : List ℕ → Type 0
IsTopicName topic = All (λ c. (c ≢ b'#') × (c ≢ b'+') × (c ≢ 0)) topic

is_topic_name_iff : (topic : List ℕ) → (is_topic_name topic ≡ true) ↔ IsTopicName topic
unfolding is_topic_name
is_topic_name_iff [] = (λ h. tt, λ h. refl)
is_topic_name_iff (c ∷ cs) =
    let ih = is_topic_name_iff cs in
    (
      λ h. ((λ e. ground arith, λ e. ground arith, λ e. ground arith), ih.0 (ground arith)),
      λ h. ground (arith, ih.1 h.1),
    )

-- `broker_publish_local` takes a request exactly when the tester runs and its queue has room, the
-- topic is a name of 1 to 128 bytes that does not begin with '$', the payload has at most 1024
-- bytes, and the QoS is 0 or 1. A request that is taken goes to the end of the queue; one that is
-- not leaves the queue as it was.
pub broker_publish_local_lem :
    (t : Tester) (topic payload : List ℕ) (qos : ℕ) (retain : Bool)
    → let r = broker_publish_local t topic payload qos retain in
      ((r.1 ≡ true) ↔ (
        (t.inited ≡ true)
        × (length t.queue < 8)
        × (1 ≤ length topic)
        × (get_or topic 0 0 ≢ b'$')
        × (length topic ≤ 128)
        × IsTopicName topic
        × (length payload ≤ 1024)
        × (qos ≤ 1)))
      × (r.0.queue ≡ (
          if r.1
          then t.queue
            ++ (record { topic = topic; payload = payload; retain = retain; qos = qos } ∷ [])
          else t.queue))
unfolding broker_publish_local broker_enqueue_publish
broker_publish_local_lem t [] payload qos retain =
    ((λ h. absurd (cc), λ h. absurd (omega (arith, h.2))), refl)
broker_publish_local_lem t (c ∷ cs) payload qos retain =
    let name = is_topic_name_iff (c ∷ cs) in
    (
      (
        λ h. (
          ground arith,
          ground arith,
          omega arith,
          λ e. ground arith,
          ground arith,
          name.0 (ground arith),
          ground arith,
          ground arith,
        ),
        λ h. ground (arith, name.1 h.5),
      ),
      ground arith,
    )

-- A request leaves the tester running, and its consumers as they are.
pub inited-broker_publish_local :
    (t : Tester) (topic payload : List ℕ) (qos : ℕ) (retain : Bool)
    → (broker_publish_local t topic payload qos retain).0.inited ≡ t.inited
unfolding broker_publish_local broker_enqueue_publish
inited-broker_publish_local t [] payload qos retain = refl
inited-broker_publish_local t (c ∷ cs) payload qos retain = ground arith

pub consumers-broker_tester_request_publish :
    (t : Tester) (topic payload : List ℕ) (retain : Bool)
    → (broker_tester_request_publish t topic payload retain).0.consumers ≡ t.consumers
unfolding broker_tester_request_publish broker_enqueue_publish
consumers-broker_tester_request_publish t topic payload retain = ground arith
