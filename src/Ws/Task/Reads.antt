-- ===== src/Ws/Task/Reads.antt =====
-- main/portal_ws.c reads the requests that the page of main/portal.c sends.
use mqtt_broker_esp.Prelude.{
  ℕ, ◌+◌, ◌≤◌, ◌<◌, ◌≡◌, refl, ap, ◌∙◌, List, [], ◌∷◌, ◌++◌, length, Bool, true, false, bytes_eq,
  none, some, codes, arith,
}
use mqtt_broker_esp.Tester.{max_topic_len, max_payload_len}
use mqtt_broker_esp.Timers.Json.Strings.{escape_all, quoted}
use mqtt_broker_esp.Ws.Json.{json_skip_ws, json_find_key, json_parse_bool, starts_with}
use mqtt_broker_esp.Ws.Json.Decode.{json_decode_string-quoted}
use mqtt_broker_esp.Ws.Json.Find.{
  Found, Found-open, Found-comma, Found-colon, Found-past, Found-key, json_find_key-Found,
}
use mqtt_broker_esp.Ws.Task.{
  asks, topic_request, with_topic, with_payload, payload_or_empty, retain_of, read_request,
}

abbrev word : Bool → List ℕ
word true = codes "true"
word false = codes "false"

-- `{"action":"publish","topic":t,"payload":p,"retain":r,"qos":q}`, as the page of main/portal.c has
-- JSON.stringify write it; the part behind each key.
abbrev behind_retain : (retain : Bool) (qos : ℕ) → List ℕ
behind_retain retain qos =
    word retain ++ (b',' ∷ (quoted (codes "qos") ++ (b':' ∷ qos ∷ b'}' ∷ [])))

abbrev behind_payload : (payload : List ℕ) (retain : Bool) (qos : ℕ) → List ℕ
behind_payload payload retain qos =
    quoted payload ++ (b',' ∷ (quoted (codes "retain") ++ (b':' ∷ behind_retain retain qos)))

abbrev behind_topic : (topic payload : List ℕ) (retain : Bool) (qos : ℕ) → List ℕ
behind_topic topic payload retain qos =
    quoted topic
    ++ (b',' ∷ (quoted (codes "payload") ++ (b':' ∷ behind_payload payload retain qos)))

abbrev pub page_request : (topic payload : List ℕ) (retain : Bool) (qos : ℕ) → List ℕ
page_request topic payload retain qos =
    b'{'
    ∷ (quoted (codes "action")
        ++ (b':'
            ∷ (quoted (codes "publish")
                ++ (b','
                    ∷ (quoted (codes "topic") ++ (b':' ∷ behind_topic topic payload retain qos))))))

module _ (topic payload : List ℕ) (retain : Bool) (qos : ℕ) where
  -- The search for a key reaches the string of the first one.
  to_topic :
      (key rest : List ℕ)
      → bytes_eq (codes "action") key ≡ false
      → Found key true
          (quoted (codes "topic") ++ (b':' ∷ behind_topic topic payload retain qos))
          rest
      → Found key false (page_request topic payload retain qos) rest
  unfolding escape_all
  to_topic key rest other f = Found-open key _ rest false (
      Found-past key _ rest true (codes "action") other (
        Found-colon key _ rest true
          (Found-past key _ rest false (codes "publish") refl (Found-comma key _ rest false f))))

  find_topic :
      json_find_key (page_request topic payload retain qos) (codes "topic")
      ≡ some (behind_topic topic payload retain qos)
  unfolding escape_all bytes_eq
  find_topic =
      json_find_key-Found (codes "topic") _ _
        (to_topic (codes "topic") _ refl (Found-key (codes "topic") _ (codes "topic") refl))

  to_payload :
      (key rest : List ℕ)
      → bytes_eq (codes "action") key ≡ false
      → bytes_eq (codes "topic") key ≡ false
      → Found key true (quoted (codes "payload") ++ (b':' ∷ behind_payload payload retain qos)) rest
      → Found key false (page_request topic payload retain qos) rest
  unfolding escape_all
  to_payload key rest h k f = to_topic key rest h (
      Found-past key _ rest true (codes "topic") k (
        Found-colon key _ rest true
          (Found-past key _ rest false topic refl (Found-comma key _ rest false f))))

  find_payload :
      json_find_key (page_request topic payload retain qos) (codes "payload")
      ≡ some (behind_payload payload retain qos)
  unfolding escape_all bytes_eq
  find_payload = json_find_key-Found (codes "payload") _ _ (
      to_payload (codes "payload") _ refl refl
        (Found-key (codes "payload") _ (codes "payload") refl))

  find_retain :
      json_find_key (page_request topic payload retain qos) (codes "retain")
      ≡ some (behind_retain retain qos)
  unfolding escape_all bytes_eq
  find_retain = json_find_key-Found (codes "retain") _ _ (
      to_payload (codes "retain") _ refl refl (
        Found-past (codes "retain") _ _ true (codes "payload") refl (
          Found-colon (codes "retain") _ _ true (
            Found-past (codes "retain") _ _ false payload refl (
              Found-comma (codes "retain") _ _ false
                (Found-key (codes "retain") _ (codes "retain") refl))))))

parse_retain : (retain : Bool) (qos : ℕ) → json_parse_bool (behind_retain retain qos) ≡ some retain
unfolding json_parse_bool json_skip_ws starts_with
parse_retain true qos = refl
parse_retain false qos = refl

skip_none : (s rest : List ℕ) → json_skip_ws (quoted s ++ rest) ≡ quoted s ++ rest
unfolding json_skip_ws
skip_none s rest = refl

-- A request of the page is read as it was meant, whatever bytes stand in its topic and its payload:
-- names of keys, quotes and control characters too. The topic has 1 to 128 bytes, the payload at most
-- 1024. The QoS that the page sends is not read.
pub read_request-page_request :
    (topic payload : List ℕ) (retain : Bool) (qos : ℕ)
    → 0 < length topic
    → length topic ≤ max_topic_len
    → length payload ≤ max_payload_len
    → read_request (page_request topic payload retain qos) ≡ asks topic payload retain
unfolding read_request
read_request-page_request [] payload retain qos h0 h1 h2 = absurd (omega arith)
read_request-page_request (c ∷ topic) payload retain qos h0 h1 h2 =
    let json : List ℕ = page_request (c ∷ topic) payload retain qos in
    ap (topic_request json) (find_topic (c ∷ topic) payload retain qos)
    ∙ ap (with_topic json)
        (json_decode_string-quoted (max_topic_len + 1) (c ∷ topic) _ (omega arith))
    ∙ ap (λ p. with_payload json (c ∷ topic) (payload_or_empty p))
        (find_payload (c ∷ topic) payload retain qos)
    ∙ ap (with_payload json (c ∷ topic))
        (json_decode_string-quoted (max_payload_len + 1) payload _ (omega arith))
    ∙ ap (λ p. asks (c ∷ topic) payload (retain_of p)) (find_retain (c ∷ topic) payload retain qos)
    ∙ ap (λ r. asks (c ∷ topic) payload (elim r [ none ↦ false | some b ↦ b ]))
        (parse_retain retain qos)
