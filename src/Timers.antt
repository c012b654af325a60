-- ===== src/Timers.antt =====
-- main/timers.c and timers.h: the slots, their day masks and their validation. A C string is the list
-- of its bytes before the NUL; a payload is the list of its `payload_len` bytes.
pub mod Json
pub mod SlotJson
pub mod Blob
pub mod Store
pub mod Schedule
pub mod Durable
pub mod Edit
pub mod Once
pub mod Again
mod Tests
use mqtt_broker_esp.Prelude.{
  ℕ, zero, suc, ◌+◌, ◌*◌, ◌^◌, List, [], ◌∷◌, length, Bool, true, false, ◌&&◌, ◌||◌, not, ltb, ◌==◌,
  if◌then◌else◌, Option, none, some, bit_and, bit_or,
}

abbrev pub slot_count : ℕ
slot_count = 16

abbrev pub topic_max : ℕ
topic_max = 128

abbrev pub payload_max : ℕ
payload_max = 256

abbrev pub label_max : ℕ
label_max = 24

-- `timer_slot_t`
pub record Slot : Type 0 where
  pub arm : Bool
  pub repeat : Bool
  pub retain : Bool
  pub qos : ℕ
  pub days : ℕ
  pub window : ℕ
  pub minute_of_day : ℕ
  pub topic : List ℕ
  pub payload : List ℕ
  pub label : List ℕ

abbrev pub empty_slot : Slot
empty_slot = record {
  arm = false;
  repeat = false;
  retain = false;
  qos = 0;
  days = 0;
  window = 0;
  minute_of_day = 0;
  topic = [];
  payload = [];
  label = [];
}

-- The bits of the string's characters, from bit `i` on.
unfoldable pub mask_of : List ℕ → (bit : ℕ) → ℕ
mask_of [] bit = 0
mask_of (c ∷ cs) bit =
    let rest = mask_of cs (2 * bit) in
    if not (c == b'-') && not (c == b'0') then bit_or bit rest else rest

unfoldable pub timers_days_from_string : List ℕ → Option ℕ
timers_days_from_string s = if length s == 7 then some (mask_of s 1) else none

unfoldable pub letters_of : (mask bit : ℕ) → List ℕ → List ℕ
letters_of mask bit [] = []
letters_of mask bit (c ∷ cs) =
    (if bit_and mask bit == 0 then b'-' else c) ∷ letters_of mask (2 * bit) cs

unfoldable pub timers_days_to_string : (mask : ℕ) → List ℕ
timers_days_to_string mask = letters_of mask 1 (b'S' ∷ b'M' ∷ b'T' ∷ b'W' ∷ b'T' ∷ b'F' ∷ b'S' ∷ [])

unfoldable pub has_plain_bytes : List ℕ → Bool
has_plain_bytes [] = true
has_plain_bytes (c ∷ cs) =
    not (c == b'#') && not (c == b'+') && not (ltb c 0x20) && has_plain_bytes cs

abbrev pub is_sys : List ℕ → Bool
is_sys [] = false
is_sys (c ∷ cs) = c == b'$'

unfoldable pub topic_is_valid_publish : List ℕ → Bool
topic_is_valid_publish t =
    if (length t == 0) || ltb topic_max (length t)
    then false
    else if is_sys t
    then false
    else has_plain_bytes t

-- The messages of `timers_validate`, in its order.
pub data Complaint : Type 0 where
  qos_range : Complaint
  window_range : Complaint
  time_range : Complaint
  days_bits : Complaint
  topic_required : Complaint
  topic_too_long : Complaint
  topic_invalid : Complaint
  no_day : Complaint
  payload_too_long : Complaint
  label_too_long : Complaint

abbrev pub check_sizes : Slot → Option Complaint
check_sizes s =
    if ltb payload_max (length s.payload)
    then some payload_too_long
    else if ltb label_max (length s.label)
    then some label_too_long
    else none

-- `none` is ESP_OK.
unfoldable pub timers_validate : Slot → Option Complaint
unfolding topic_is_valid_publish
timers_validate s =
    if ltb 1 s.qos
    then some qos_range
    else if ltb 15 s.window
    then some window_range
    else if ltb 1439 s.minute_of_day
    then some time_range
    else if not (bit_and s.days 0x80 == 0)
    then some days_bits
    else if not s.arm
    then check_sizes s
    else if length s.topic == 0
    then some topic_required
    else if ltb topic_max (length s.topic)
    then some topic_too_long
    else if not (topic_is_valid_publish s.topic)
    then some topic_invalid
    else if s.days == 0
    then some no_day
    else check_sizes s
