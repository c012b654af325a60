-- ===== src/Ws/Json/Encode.antt =====
-- `json_encode_string` of main/portal_ws.c has room in the arrays of `emit_event`.
use mqtt_broker_esp.Prelude.{
  ℕ, ◌+◌, ◌*◌, ◌≤◌, ◌≡◌, sym, ap, ◌∙◌, List, [], ◌∷◌, ◌++◌, length, false, leb, some, arith,
  append_assoc, append-nil, length-append,
}
use mqtt_broker_esp.Timers.Json.{escape_of}
use mqtt_broker_esp.Timers.Json.Strings.{escape_all}
use mqtt_broker_esp.Ws.Json.{encode_from, json_encode_string}

length-escape_of_le : (c : ℕ) → length (escape_of c) ≤ 6
length-escape_of_le c = ground arith

encode_from-escape_all :
    (size : ℕ) (out s : List ℕ)
    → length out + 6 * length s + 2 ≤ size
    → encode_from size out s ≡ some (out ++ escape_all s)
unfolding encode_from escape_all
encode_from-escape_all size out [] h =
    let room : leb size (length out) ≡ false = ground arith in
    rw room (ap some (sym (append-nil out)))
encode_from-escape_all size out (c ∷ s) h =
    let room : leb size (length out + 7) ≡ false = ground arith in
    let more =
      encode_from-escape_all size (out ++ escape_of c) s
        (omega (arith, length-append out (escape_of c), length-escape_of_le c)) in
    rw room (more ∙ ap some (append_assoc out (escape_of c) (escape_all s)))

-- An array of six bytes for each byte of the text and four more takes the encoded text.
pub json_encode_string-escape_all :
    (n : ℕ) (s : List ℕ) → length s ≤ n → json_encode_string s (n * 6 + 4) ≡ some (escape_all s)
unfolding json_encode_string
json_encode_string-escape_all n s h = encode_from-escape_all (n * 6 + 4) [] s (omega arith)
