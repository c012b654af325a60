-- ===== src/Broker/Handlers.antt =====
-- The handlers of CONNECT, SUBSCRIBE and UNSUBSCRIBE, and the enforcement of the keep-alive.
use mqtt_broker_esp.Prelude.{
  ℕ, zero, suc, ◌+◌, ◌-◌, ◌*◌, List, [], ◌∷◌, Bool, true, false, ◌&&◌, not, length, set, ltb, ◌==◌,
  bytes_eq, if◌then◌else◌, Option, none, some,
}
use mqtt_broker_esp.Wire.Read.{
  Parsed, ok, err, fault, ParseError, malformed, bad_protocol, id_rejected, bad_creds,
}
use mqtt_broker_esp.Wire.Connect.{Connect, parse_connect}
use mqtt_broker_esp.Wire.Subscribe.{
  SubTopic, Subscribe, Unsubscribe, parse_subscribe, parse_unsubscribe,
}
use mqtt_broker_esp.Wire.Build.{build_connack, build_suback, build_unsuback}
use mqtt_broker_esp.Broker.{
  Client, Sub, Broker, Env, Auth, no_auth, username_only, credentials, client_of, put_client,
  is_ready, tick, client_disconnect, client_send, touch, find_free_sub,
}
use mqtt_broker_esp.Broker.Fanout.{retain_deliver}

-- The C string in an array: the bytes before the NUL.
unfoldable pub c_string : List ℕ → List ℕ
c_string [] = []
c_string (c ∷ cs) = if c == 0 then [] else c ∷ c_string cs

-- `user_ok && pass_ok`, which without a configured password is never set.
unfoldable pub auth_ok : Auth → Connect → Bool
auth_ok no_auth conn = true
auth_ok (username_only u) conn =
    let user_ok = conn.has_username && bytes_eq conn.username u in
    let pass_ok = false in user_ok && pass_ok
auth_ok (credentials u p) conn =
    if conn.has_username && conn.has_password
    then bytes_eq conn.username u && bytes_eq conn.password p
    else false

-- The first other client that is connected under the identifier.
unfoldable pub find_duplicate : List Client → (i idx : ℕ) → List ℕ → Option ℕ
find_duplicate [] i idx id = none
find_duplicate (c ∷ cs) i idx id =
    if not (i == idx) && c.connected && bytes_eq c.client_id id
    then some i
    else find_duplicate cs (i + 1) idx id

abbrev pub disconnect_found : Broker → Option ℕ → Broker
disconnect_found b none = b
disconnect_found b (some i) = client_disconnect b i

abbrev pub return_code : ParseError → ℕ
return_code malformed = 1
return_code bad_protocol = 1
return_code id_rejected = 2
return_code bad_creds = 4

abbrev pub suback_failure : ℕ
suback_failure = 0x80

-- The subscription that a client has under a filter.
abbrev pub is_sub : ℕ → List ℕ → Sub → Bool
is_sub idx topic s = s.active && (s.client_idx == idx) && bytes_eq s.topic topic

-- The first subscription that a client has under a filter gets the QoS granted now.
unfoldable pub regrant : List Sub → ℕ → List ℕ → (granted : ℕ) → Option (List Sub)
regrant [] idx topic granted = none
regrant (s ∷ ss) idx topic granted =
    if is_sub idx topic s
    then some (record s { qos = granted } ∷ ss)
    else keep (regrant ss idx topic granted)
  where
    keep : Option (List Sub) → Option (List Sub)
    keep none = none
    keep (some rest) = some (s ∷ rest)

abbrev pub new_sub : ℕ → List ℕ → (granted : ℕ) → Sub
new_sub idx topic granted = record { active = true; client_idx = idx; topic = topic; qos = granted }

abbrev pub subscribe_new : List Sub → Sub → Option ℕ → List Sub × ℕ
subscribe_new subs s none = (subs, suback_failure)
subscribe_new subs s (some slot) = (set subs slot s, s.qos)

abbrev pub granted_qos : ℕ → ℕ
granted_qos qos = if ltb 1 qos then 1 else qos

-- One topic filter of a SUBSCRIBE, with its return code.
unfoldable pub subscribe_topic : List Sub → ℕ → SubTopic → List Sub × ℕ
unfolding regrant find_free_sub
subscribe_topic subs idx t =
    let granted = granted_qos t.qos in update granted (regrant subs idx t.topic granted)
  where
    update : ℕ → Option (List Sub) → List Sub × ℕ
    update granted (some subs') = (subs', granted)
    update granted none = subscribe_new subs (new_sub idx t.topic granted) (find_free_sub subs 0)

unfoldable pub subscribe_topics : List Sub → ℕ → List SubTopic → List Sub × List ℕ
unfolding subscribe_topic
subscribe_topics subs idx [] = (subs, [])
subscribe_topics subs idx (t ∷ ts) =
    let r = subscribe_topic subs idx t in
    let rest = subscribe_topics r.0 idx ts in (rest.0, r.1 ∷ rest.1)

-- The first subscription that a client has under a filter is removed.
unfoldable pub unsubscribe_topic : List Sub → ℕ → List ℕ → List Sub
unsubscribe_topic [] idx topic = []
unsubscribe_topic (s ∷ ss) idx topic =
    if is_sub idx topic s
    then record s { active = false } ∷ ss
    else s ∷ unsubscribe_topic ss idx topic

unfoldable pub unsubscribe_topics : List Sub → ℕ → List (List ℕ) → List Sub
unfolding unsubscribe_topic
unsubscribe_topics subs idx [] = subs
unsubscribe_topics subs idx (t ∷ ts) = unsubscribe_topics (unsubscribe_topic subs idx t) idx ts

module _ (env : Env) where
  -- The client is taken in; the two readings of the clock are calls of their own.
  unfoldable pub accept_client : Broker → ℕ → Connect → Broker
  unfolding find_duplicate c_string client_disconnect
  accept_client b idx conn =
      let id = c_string conn.client_id in
      let b' = disconnect_found b (find_duplicate b.clients 0 idx id) in
      let c = record (client_of b' idx) {
        client_id = id;
        keep_alive = conn.keep_alive;
        connected = true;
        authenticated = true;
        last_activity = env.now b'.calls;
        connected_at = env.now (b'.calls + 1);
      } in
      record (put_client (tick (tick b')) idx c) { num_connected = b'.num_connected + 1 }

  unfoldable pub refuse_client : Broker → ℕ → (rc : ℕ) → Broker
  unfolding client_send
  refuse_client b idx rc = client_disconnect (client_send env b idx (build_connack 0 rc)) idx

  abbrev pub connect_result : Broker → ℕ → Parsed Connect → Parsed Broker
  connect_result b idx (ok conn) =
      if auth_ok env.auth conn
      then ok (client_send env (accept_client b idx conn) idx (build_connack 0 0))
      else ok (refuse_client b idx (return_code bad_creds))
  connect_result b idx (err e) = ok (refuse_client b idx (return_code e))
  connect_result b idx fault = fault

  unfoldable pub handle_connect : Broker → ℕ → (pkt : List ℕ) (pkt_len : ℕ) → Parsed Broker
  unfolding parse_connect accept_client refuse_client auth_ok
  handle_connect b idx pkt pkt_len = connect_result b idx (parse_connect pkt pkt_len)

  -- The retained messages for the filters that were granted.
  unfoldable pub deliver_granted : Broker → ℕ → List SubTopic → (return_codes : List ℕ) → Broker
  unfolding retain_deliver
  deliver_granted b idx [] rcs = b
  deliver_granted b idx (t ∷ ts) [] = b
  deliver_granted b idx (t ∷ ts) (rc ∷ rcs) =
      let b' = if rc == suback_failure then b else retain_deliver env b idx t.topic in
      deliver_granted b' idx ts rcs

  abbrev pub subscribe_result : Broker → ℕ → Parsed Subscribe → Parsed Broker
  subscribe_result b idx (ok p) =
      let r = subscribe_topics b.subs idx p.topics in
      let b' = client_send env (record b { subs = r.0 }) idx (build_suback p.packet_id r.1) in
      ok (touch env (deliver_granted b' idx p.topics r.1) idx)
  subscribe_result b idx (err e) = ok (client_disconnect b idx)
  subscribe_result b idx fault = fault

  unfoldable pub handle_subscribe : Broker → ℕ → (pkt : List ℕ) (pkt_len : ℕ) → Parsed Broker
  unfolding parse_subscribe subscribe_topics deliver_granted touch
  handle_subscribe b idx pkt pkt_len =
      if (client_of b idx).authenticated
      then subscribe_result b idx (parse_subscribe pkt pkt_len)
      else ok (client_disconnect b idx)

  abbrev pub unsubscribe_result : Broker → ℕ → Parsed Unsubscribe → Parsed Broker
  unsubscribe_result b idx (ok p) =
      let b' = record b { subs = unsubscribe_topics b.subs idx p.topics } in
      ok (touch env (client_send env b' idx (build_unsuback p.packet_id)) idx)
  unsubscribe_result b idx (err e) = ok (client_disconnect b idx)
  unsubscribe_result b idx fault = fault

  unfoldable pub handle_unsubscribe : Broker → ℕ → (pkt : List ℕ) (pkt_len : ℕ) → Parsed Broker
  unfolding parse_unsubscribe unsubscribe_topics touch
  handle_unsubscribe b idx pkt pkt_len = unsubscribe_result b idx (parse_unsubscribe pkt pkt_len)

abbrev grace_sec : ℕ
grace_sec = 10

abbrev is_expired : (now : ℕ) → Client → Bool
is_expired now c = ltb ((c.keep_alive + grace_sec) * 1000) (now - c.last_activity)

unfoldable pub keepalive_from : (count now : ℕ) → Broker → ℕ → Broker
unfolding client_disconnect
keepalive_from zero now b i = b
keepalive_from (suc n) now b i =
    let c = client_of b i in
    let b' =
      if is_ready c && not (c.keep_alive == 0) && is_expired now c
      then client_disconnect b i
      else b in
    keepalive_from n now b' (i + 1)

unfoldable pub check_keepalive : Broker → (now : ℕ) → Broker
unfolding keepalive_from
check_keepalive b now = keepalive_from (length b.clients) now b 0
