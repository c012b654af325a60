-- ===== src/Ws/Task.antt =====
-- main/portal_ws.c: the task of a client of the web tester, with the requests to publish that it takes
-- and the events that it sends.
pub mod Reads
pub mod Replies
pub mod Rate
pub mod Ends
use mqtt_broker_esp.Prelude.{
  ℕ, ◌+◌, ◌-◌, ◌*◌, List, [], ◌∷◌, ◌++◌, length, take, Bool, true, false, ltb, leb, ◌==◌,
  if◌then◌else◌, Option, none, some, codes,
}
use mqtt_broker_esp.Tester.{
  Tester, Event, max_topic_len, max_payload_len, broker_tester_request_publish,
  broker_tester_unregister,
}
use mqtt_broker_esp.Timers.Json.{decimal}
use mqtt_broker_esp.Ws.Socket.{Turn, Sending, send_all}
use mqtt_broker_esp.Ws.Frame.{
  Frame, op_text, op_bin, op_close, op_ping, op_pong, recv_frame, text_frame, close_frame,
  pong_frame,
}
use mqtt_broker_esp.Ws.Json.{
  json_skip_ws, json_find_key, json_decode_string, json_parse_bool, json_encode_string,
}

abbrev pub rate_pub_per_sec : ℕ
rate_pub_per_sec = 20

abbrev pub rate_window_ms : ℕ
rate_window_ms = 1000

abbrev pub idle_timeout_ms : ℕ
idle_timeout_ms = 5 * 60 * 1000

-- `ws_ctx_t`, with the broker's side of the tester. `inbox` and `answers` are what the socket will do,
-- `out` the bytes that it has taken. `sb_live` and `fd_open` say that the stream buffer is not deleted
-- and the socket is not closed.
pub record Ctx : Type 0 where
  pub inbox : List Turn
  pub answers : List Sending
  pub out : List ℕ
  pub broker_slot : ℕ
  pub rate_window_start_ms : ℕ
  pub rate_count : ℕ
  pub last_activity : ℕ
  pub tester : Tester
  pub sb_live : Bool
  pub fd_open : Bool

-- `send_all(ctx->fd, ...)`, whose result the task ignores.
abbrev pub send : Ctx → List ℕ → Ctx
send ctx bytes = record ctx {
  out = ctx.out ++ (send_all bytes ctx.answers).bytes;
  answers = (send_all bytes ctx.answers).answers;
}

abbrev pub send_if_built : Ctx → Option (List ℕ) → Ctx
send_if_built ctx none = ctx
send_if_built ctx (some frame) = send ctx frame

unfoldable pub send_text : Ctx → List ℕ → Ctx
unfolding send_all text_frame
send_text ctx payload = send_if_built ctx (text_frame payload)

-- What a request asks for, or the text of the refusal.
pub data Request : Type 0 where
  asks : (topic payload : List ℕ) (retain : Bool) → Request
  refused : List ℕ → Request

-- The literals with the lengths that the calls of `send_text` give.
abbrev pub missing_topic : List ℕ
missing_topic = take 24 (codes "{\"error\":\"missing_topic\"}")

abbrev pub bad_topic : List ℕ
bad_topic = take 20 (codes "{\"error\":\"bad_topic\"}")

abbrev pub bad_payload : List ℕ
bad_payload = take 22 (codes "{\"error\":\"bad_payload\"}")

abbrev pub rate_limit : List ℕ
rate_limit = codes "{\"error\":\"rate_limit\"}"

abbrev pub queue_full_or_invalid : List ℕ
queue_full_or_invalid = take 33 (codes "{\"error\":\"queue_full_or_invalid\"}")

abbrev pub binary_unsupported : List ℕ
binary_unsupported = take 29 (codes "{\"error\":\"binary_unsupported\"}")

-- Only a valid value after the key sets the flag.
abbrev pub retain_of : Option (List ℕ) → Bool
retain_of none = false
retain_of (some p) = elim (json_parse_bool p) [ none ↦ false | some r ↦ r ]

abbrev pub with_payload : (json topic : List ℕ) → Option (List ℕ × List ℕ) → Request
with_payload json topic none = refused bad_payload
with_payload json topic (some (payload, rest)) =
    asks topic payload (retain_of (json_find_key json (codes "retain")))

abbrev pub payload_or_empty : Option (List ℕ) → Option (List ℕ × List ℕ)
payload_or_empty none = some ([], [])
payload_or_empty (some p) = json_decode_string (json_skip_ws p) (max_payload_len + 1)

abbrev pub with_topic : (json : List ℕ) → Option (List ℕ × List ℕ) → Request
with_topic json none = refused bad_topic
with_topic json (some ([], rest)) = refused bad_topic
with_topic json (some (c ∷ topic, rest)) =
    with_payload json (c ∷ topic) (payload_or_empty (json_find_key json (codes "payload")))

abbrev pub topic_request : (json : List ℕ) → Option (List ℕ) → Request
topic_request json none = refused missing_topic
topic_request json (some p) =
    with_topic json (json_decode_string (json_skip_ws p) (max_topic_len + 1))

-- What `handle_publish_request` reads from the text.
unfoldable pub read_request : (json : List ℕ) → Request
unfolding json_find_key json_decode_string json_parse_bool
read_request json = topic_request json (json_find_key json (codes "topic"))

abbrev pub answer : Ctx → Tester × Bool → Ctx
answer ctx (tester, ok) =
    if ok
    then record ctx { tester = tester }
    else send_text (record ctx { tester = tester }) queue_full_or_invalid

abbrev pub serve : Ctx → Request → Ctx
serve ctx (asks topic payload retain) =
    answer ctx (broker_tester_request_publish ctx.tester topic payload retain)
serve ctx (refused text) = send_text ctx text

-- A window that is over starts again.
abbrev pub with_window : Ctx → (now : ℕ) → Ctx
with_window ctx now =
    if leb rate_window_ms (now - ctx.rate_window_start_ms)
    then record ctx { rate_window_start_ms = now; rate_count = 0 }
    else ctx

unfoldable pub handle_publish_request : Ctx → (json : List ℕ) (now : ℕ) → Ctx
unfolding read_request send_text
handle_publish_request ctx json now =
    let ctx = with_window ctx now in
    if leb rate_pub_per_sec ctx.rate_count
    then send_text ctx rate_limit
    else serve (record ctx { rate_count = ctx.rate_count + 1 }) (read_request json)

-- The text of an event between its two encoded strings.
abbrev pub event_text : Event → (topic_enc payload_enc : List ℕ) → List ℕ
event_text ev topic_enc payload_enc =
    codes "{\"t\":\""
    ++ (topic_enc
        ++ (codes "\",\"p\":\""
            ++ (payload_enc
                ++ (codes "\",\"r\":"
                    ++ ((if ev.retain then b'1' else b'0')
                        ∷ (codes ",\"s\":"
                            ++ decimal 10 ev.seq (
                                (if ev.truncated then codes ",\"trunc\":true" else [])
                                ++ codes "}")))))))

-- `msg` has 3072 bytes, the last of them for the NUL.
abbrev pub send_event_text : Ctx → List ℕ → Ctx
send_event_text ctx msg = if leb 3072 (length msg) then ctx else send_text ctx msg

abbrev pub send_encoded : Ctx → Event → (topic_enc payload_enc : Option (List ℕ)) → Ctx
send_encoded ctx ev none pn = ctx
send_encoded ctx ev (some tn) none = ctx
send_encoded ctx ev (some tn) (some pn) = send_event_text ctx (event_text ev tn pn)

unfoldable pub emit_event : Ctx → Event → Ctx
unfolding json_encode_string decimal send_text
emit_event ctx ev =
    send_encoded ctx ev (json_encode_string ev.topic (max_topic_len * 6 + 4))
      (json_encode_string ev.payload (max_payload_len * 6 + 4))

-- What the task finds when it comes round: an event in the stream buffer, what `select` answers, the
-- socket readable, with the readings of the clock; or what other tasks have done to the tester.
pub data Look : Type 0 where
  event : Event → (now : ℕ) → Look
  select_fails select_interrupted : Look
  idle : (now : ℕ) → Look
  readable : (now published_at : ℕ) → Look
  others : Tester → Look

-- What follows `done:`.
unfoldable pub finish : Ctx → Ctx
unfolding broker_tester_unregister
finish ctx = record ctx {
  tester = broker_tester_unregister ctx.tester ctx.broker_slot;
  sb_live = false;
  fd_open = false;
}

-- The task goes on, or has ended.
pub data Task : Type 0 where
  running ended : Ctx → Task

abbrev pub dispatch : Ctx → Frame → (now : ℕ) → Task
dispatch ctx f now =
    if f.opcode == op_text
    then running (handle_publish_request ctx f.payload now)
    else if f.opcode == op_bin
    then running (send_text ctx binary_unsupported)
    else if f.opcode == op_ping
    then running (send ctx (pong_frame f.payload))
    else if f.opcode == op_pong
    then running ctx
    else if f.opcode == op_close
    then ended (finish (send ctx (close_frame 1000)))
    else ended (finish ctx)

abbrev pub on_frame : Ctx → (now published_at : ℕ) → Option (Frame × List Turn) → Task
on_frame ctx now published_at none = ended (finish ctx)
on_frame ctx now published_at (some (f, inbox)) =
    dispatch (record ctx { inbox = inbox; last_activity = now }) f published_at

-- One round of the loop.
unfoldable pub ws_turn : Ctx → Look → Task
unfolding emit_event recv_frame handle_publish_request finish send_text pong_frame close_frame
ws_turn ctx (event ev now) = running (record (emit_event ctx ev) { last_activity = now })
ws_turn ctx select_fails = ended (finish ctx)
ws_turn ctx select_interrupted = running ctx
ws_turn ctx (idle now) =
    if ltb idle_timeout_ms (now - ctx.last_activity)
    then ended (finish (send ctx (close_frame 1000)))
    else running ctx
ws_turn ctx (readable now published_at) = on_frame ctx now published_at (recv_frame ctx.inbox)
ws_turn ctx (others tester) = running (record ctx { tester = tester })

-- The loop over what it finds.
unfoldable pub ws_loop : Task → List Look → Task
unfolding ws_turn
ws_loop task [] = task
ws_loop (ended ctx) (look ∷ looks) = ended ctx
ws_loop (running ctx) (look ∷ looks) = ws_loop (ws_turn ctx look) looks

-- The task from its greeting on.
unfoldable pub ws_task : Ctx → List Look → Task
unfolding ws_loop send_text
ws_task ctx looks = ws_loop (running (send_text ctx (codes "{\"hello\":true}"))) looks
