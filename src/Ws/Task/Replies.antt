-- ===== src/Ws/Task/Replies.antt =====
-- main/portal_ws.c: the events of the web tester that fit a frame.
use mqtt_broker_esp.Prelude.{
  ℕ, ◌+◌, ◌*◌, ◌/◌, ◌%◌, ◌^◌, ◌≤◌, ◌≡◌, refl, ap, ◌∙◌, List, ◌∷◌, length, Bool, true, false, ltb,
  leb, if◌then◌else◌, Option, none, some, arith, Bool-cases, inl, inr, bit_and, low_byte,
}
use mqtt_broker_esp.Tester.{Event, max_topic_len, max_payload_len}
use mqtt_broker_esp.Timers.Json.Strings.{escape_all}
use mqtt_broker_esp.Ws.Frame.{text_frame}
use mqtt_broker_esp.Ws.Json.{json_encode_string}
use mqtt_broker_esp.Ws.Json.Encode.{json_encode_string-escape_all}
use mqtt_broker_esp.Ws.Task.{
  Ctx, send, send_text, event_text, send_event_text, send_encoded, emit_event,
}

-- An unmasked text frame as RFC 6455 has it, for less than 65536 bytes.
unfoldable pub server_frame : List ℕ → List ℕ
server_frame text =
    let len = length text in
    0x81 ∷ (if ltb len 126 then len ∷ text else 126 ∷ len / 256 ∷ len % 256 ∷ text)

none_anyway : (b : Bool) → ◌≡◌ {A = Option (List ℕ)} (if b then none else none) none
none_anyway true = refl
none_anyway false = refl

text_frame-server_frame :
    (text : List ℕ)
    → text_frame text ≡ (if leb (length text) 1036 then some (server_frame text) else none)
unfolding text_frame server_frame
text_frame-server_frame text = elim (Bool-cases (ltb (length text) 126)) [
  | inl short ↦
      let room : ltb 1040 (2 + length text) ≡ false = ground arith in
      let sent : leb (length text) 1036 ≡ true = ground arith in
      let byte : length text % 256 ≡ length text = ground arith in rw (short, room, sent, byte) refl
  | inr long ↦ elim (Bool-cases (leb (length text) 1036)) [
    | inl fits ↦
        let few : leb (length text) 0xFFFF ≡ true = ground arith in
        let room : ltb 1040 (4 + length text) ≡ false = ground arith in
        let high : bit_and (length text / 2 ^ 8) 0xFF ≡ length text / 256 =
          low_byte (length text / 256) (ground arith) ∙ ground arith in
        let low : bit_and (length text) 0xFF ≡ length text % 256 =
          low_byte (length text) (ground arith) in
        rw (long, few, room, fits, high, low) refl
    | inr large ↦
        let full : ltb 1040 (4 + length text) ≡ true = ground arith in
        rw (long, large, full) (none_anyway (leb (length text) 0xFFFF))
  ]
]

send_event_text_lem :
    (ctx : Ctx) (text : List ℕ)
    → send_event_text ctx text
      ≡ (if leb (length text) 1036 then send ctx (server_frame text) else ctx)
unfolding send_text
send_event_text_lem ctx text = elim (Bool-cases (leb (length text) 1036)) [
  | inl fits ↦
      let room : leb 3072 (length text) ≡ false = ground arith in
      rw (room, text_frame-server_frame text, fits) refl
  | inr large ↦ elim (Bool-cases (leb 3072 (length text))) [
    | inl over ↦ rw (over, large) refl
    | inr under ↦ rw (under, text_frame-server_frame text, large) refl
  ]
]

-- An event whose text has at most 1036 bytes, its topic and payload encoded in full, is sent as one
-- text frame. A longer one is dropped without a word, though it is within the sizes of the tester.
pub emit_event_lem :
    (ctx : Ctx) (ev : Event)
    → length ev.topic ≤ max_topic_len
    → length ev.payload ≤ max_payload_len
    → let text = event_text ev (escape_all ev.topic) (escape_all ev.payload) in
      emit_event ctx ev ≡ (if leb (length text) 1036 then send ctx (server_frame text) else ctx)
unfolding emit_event
emit_event_lem ctx ev ht hp =
    ap (λ tn. send_encoded ctx ev tn (json_encode_string ev.payload (max_payload_len * 6 + 4)))
      (json_encode_string-escape_all max_topic_len ev.topic ht)
    ∙ ap (send_encoded ctx ev (some (escape_all ev.topic)))
        (json_encode_string-escape_all max_payload_len ev.payload hp)
    ∙ send_event_text_lem ctx (event_text ev (escape_all ev.topic) (escape_all ev.payload))
