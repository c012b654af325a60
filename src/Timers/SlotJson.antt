-- ===== src/Timers/SlotJson.antt =====
-- main/timers.c: one slot as a JSON object, read and written.
pub mod Fields
pub mod RoundTrip
pub mod Written
pub mod Enough
use mqtt_broker_esp.Prelude.{
  ℕ, zero, suc, ◌+◌, List, [], ◌∷◌, ◌++◌, length, Bool, true, false, ◌&&◌, ◌||◌, not, ltb, leb,
  ◌==◌, if◌then◌else◌, bytes_eq, Option, none, some, ℤ, pos, negsuc, pos_part, ltb_ℤ,
}
use mqtt_broker_esp.Timers.{
  Slot, empty_slot, topic_max, payload_max, label_max, timers_days_from_string,
  timers_days_to_string,
}
use mqtt_broker_esp.Timers.Json.{
  ◌>>=◌, ◌>>◌, require, skip_ws, parse_json_string, parse_json_int, skip_json_value, put,
  append_json_string, decimal,
}

-- The bytes before the NUL.
unfoldable pub c_string : List ℕ → List ℕ
c_string [] = []
c_string (c ∷ cs) = let rest = c_string cs in if c == 0 then [] else c ∷ rest

abbrev pub is_zero : ℤ → Bool
is_zero (pos n) = n == 0
is_zero (negsuc n) = false

-- An integer from 0 to `limit`.
abbrev pub in_range : ℤ → (limit : ℕ) → Bool
in_range (pos n) limit = leb n limit
in_range (negsuc n) limit = false

abbrev pub flag_field : (Bool → Slot) → List ℕ → Option (Slot × List ℕ)
flag_field put_in text = do (iv, text) ← parse_json_int text; some (put_in (not (is_zero iv)), text)

abbrev pub number_field : (limit : ℕ) → (ℕ → Slot) → List ℕ → Option (Slot × List ℕ)
number_field limit put_in text = do
  (iv, text) ← parse_json_int text
  require (in_range iv limit)
  some (put_in (pos_part iv), text)

abbrev pub string_field : (out_size : ℕ) → (List ℕ → Slot) → List ℕ → Option (Slot × List ℕ)
string_field out_size put_in text = do
  (str, text) ← parse_json_string text out_size
  some (put_in str, text)

abbrev pub days_field : Slot → List ℕ → Option (Slot × List ℕ)
days_field s text = do
  (dbuf, text) ← parse_json_string text 9
  m ← timers_days_from_string (c_string dbuf)
  some (record s { days = m }, text)

-- `strcmp` with the compact key and with the long one.
abbrev pub is_key : (key short long : List ℕ) → Bool
is_key key short long = bytes_eq key short || bytes_eq key long

abbrev pub key_arm : List ℕ
key_arm = b'a' ∷ b'r' ∷ b'm' ∷ []

abbrev pub key_repeat : List ℕ
key_repeat = b'r' ∷ b'e' ∷ b'p' ∷ b'e' ∷ b'a' ∷ b't' ∷ []

abbrev pub key_retain : List ℕ
key_retain = b'r' ∷ b'e' ∷ b't' ∷ b'a' ∷ b'i' ∷ b'n' ∷ []

abbrev pub key_qos : List ℕ
key_qos = b'q' ∷ b'o' ∷ b's' ∷ []

abbrev pub key_window : List ℕ
key_window = b'w' ∷ b'i' ∷ b'n' ∷ b'd' ∷ b'o' ∷ b'w' ∷ []

abbrev pub key_min : List ℕ
key_min = b'm' ∷ b'i' ∷ b'n' ∷ []

abbrev pub key_days : List ℕ
key_days = b'd' ∷ b'a' ∷ b'y' ∷ b's' ∷ []

abbrev pub key_topic : List ℕ
key_topic = b't' ∷ b'o' ∷ b'p' ∷ b'i' ∷ b'c' ∷ []

abbrev pub key_payload : List ℕ
key_payload = b'p' ∷ b'a' ∷ b'y' ∷ b'l' ∷ b'o' ∷ b'a' ∷ b'd' ∷ []

abbrev pub key_label : List ℕ
key_label = b'l' ∷ b'a' ∷ b'b' ∷ b'e' ∷ b'l' ∷ []

unfoldable pub read_field : (key : List ℕ) → Slot → List ℕ → Option (Slot × List ℕ)
unfolding c_string
read_field key s text =
    if is_key key (b'a' ∷ []) key_arm
    then flag_field (λ v. record s { arm = v }) text
    else if is_key key (b'r' ∷ []) key_repeat
    then flag_field (λ v. record s { repeat = v }) text
    else if is_key key (b'r' ∷ b't' ∷ []) key_retain
    then flag_field (λ v. record s { retain = v }) text
    else if is_key key (b'q' ∷ []) key_qos
    then number_field 1 (λ n. record s { qos = n }) text
    else if is_key key (b'w' ∷ []) key_window
    then number_field 15 (λ n. record s { window = n }) text
    else if is_key key (b'h' ∷ b'm' ∷ []) key_min
    then number_field 1439 (λ n. record s { minute_of_day = n }) text
    else if is_key key (b'd' ∷ []) key_days
    then days_field s text
    else if is_key key (b't' ∷ b'p' ∷ []) key_topic
    then string_field (topic_max + 1) (λ t. record s { topic = c_string t }) text
    else if is_key key (b'p' ∷ b'l' ∷ []) key_payload
    then string_field (payload_max + 1) (λ p. record s { payload = p }) text
    else if is_key key (b'l' ∷ []) key_label
    then string_field (label_max + 1) (λ l. record s { label = c_string l }) text
    else skip_json_value text >>= λ text. some (s, text)

-- The text behind a given byte.
abbrev pub expect : (byte : ℕ) → List ℕ → Option (List ℕ)
expect byte [] = none
expect byte (c ∷ cs) = if c == byte then some cs else none

-- A key, its colon and its value.
unfoldable pub read_member : Slot → List ℕ → Option (Slot × List ℕ)
unfolding read_field c_string
read_member s text = do
  (key, text) ← parse_json_string (skip_ws text) 16
  text ← expect b':' (skip_ws text)
  read_field (c_string key) s (skip_ws text)

abbrev pub after_member :
    (more : Slot → List ℕ → Option (Slot × List ℕ)) → Slot → List ℕ → Option (Slot × List ℕ)
after_member more s [] = none
after_member more s (c ∷ cs) =
    let next = more s cs in if c == b',' then next else if c == b'}' then some (s, cs) else none

-- The loop of `parse_slot_object`; every turn takes a byte at least. It ends with success at the end
-- of the text too.
unfoldable pub read_members : (fuel : ℕ) → Slot → List ℕ → Option (Slot × List ℕ)
unfolding read_member
read_members zero s text = none
read_members (suc fuel) s [] = some (s, [])
read_members (suc fuel) s (c ∷ cs) = do
  (s, text) ← read_member s (c ∷ cs)
  after_member (read_members fuel) s (skip_ws text)

abbrev pub open_slot : List ℕ → Option (Slot × List ℕ)
open_slot [] = some (empty_slot, [])
open_slot (c ∷ cs) =
    let members = read_members (suc (suc (length cs))) empty_slot (c ∷ cs) in
    if c == b'}' then some (empty_slot, cs) else members

unfoldable pub parse_slot_object : List ℕ → Option (Slot × List ℕ)
unfolding read_members
parse_slot_object text = do text ← expect b'{' (skip_ws text); open_slot (skip_ws text)

-- `timers_parse_slot_json`: what follows the object is not looked at.
unfoldable pub timers_parse_slot_json : List ℕ → Option Slot
unfolding parse_slot_object
timers_parse_slot_json json = parse_slot_object json >>= λ r. some r.0

abbrev pub is_empty_list : List ℕ → Bool
is_empty_list [] = true
is_empty_list (c ∷ cs) = false

-- The test for a slot that is written as `{}`.
abbrev pub is_blank : Slot → Bool
is_blank s =
    not s.arm
    && is_empty_list s.topic
    && is_empty_list s.label
    && is_empty_list s.payload
    && (s.days == 0)
    && (s.minute_of_day == 0)
    && (s.window == 0)
    && not s.repeat
    && not s.retain
    && (s.qos == 0)

abbrev pub flag_char : Bool → ℕ
flag_char b = if b then b'1' else b'0'

-- The object up to the days, before a text: the first format string of the slot.
unfoldable pub slot_head : Slot → List ℕ → List ℕ
slot_head s text =
    b'{'
    ∷ b'"'
    ∷ b'a'
    ∷ b'"'
    ∷ b':'
    ∷ flag_char s.arm
    ∷ b','
    ∷ b'"'
    ∷ b'r'
    ∷ b'"'
    ∷ b':'
    ∷ flag_char s.repeat
    ∷ b','
    ∷ b'"'
    ∷ b'r'
    ∷ b't'
    ∷ b'"'
    ∷ b':'
    ∷ flag_char s.retain
    ∷ b','
    ∷ b'"'
    ∷ b'q'
    ∷ b'"'
    ∷ b':'
    ∷ decimal 5 s.qos (
        b','
        ∷ b'"'
        ∷ b'w'
        ∷ b'"'
        ∷ b':'
        ∷ decimal 5 s.window (
            b','
            ∷ b'"'
            ∷ b'h'
            ∷ b'm'
            ∷ b'"'
            ∷ b':'
            ∷ decimal 5 s.minute_of_day (
                b','
                ∷ b'"'
                ∷ b'd'
                ∷ b'"'
                ∷ b':'
                ∷ b'"'
                ∷ (timers_days_to_string s.days ++ (b'"' ∷ text)))))

abbrev pub put_string_field : (bufsz : ℕ) → (buf key str : List ℕ) → Option (List ℕ)
put_string_field bufsz buf key str =
    if is_empty_list str
    then some buf
    else put bufsz buf (b',' ∷ b'"' ∷ (key ++ (b'"' ∷ b':' ∷ []))) >>= λ buf.
        append_json_string bufsz buf str

-- The body of the loop of `serialize_blob`, for one slot.
unfoldable pub put_slot : (bufsz : ℕ) → (buf : List ℕ) → Slot → Option (List ℕ)
unfolding append_json_string slot_head
put_slot bufsz buf s = if is_blank s then put bufsz buf (b'{' ∷ b'}' ∷ []) else do
  buf ← put bufsz buf (slot_head s [])
  buf ← put_string_field bufsz buf (b't' ∷ b'p' ∷ []) s.topic
  buf ← put_string_field bufsz buf (b'p' ∷ b'l' ∷ []) s.payload
  buf ← put_string_field bufsz buf (b'l' ∷ []) s.label
  put bufsz buf (b'}' ∷ [])
