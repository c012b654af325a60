-- ===== src/Timers/Blob.antt =====
-- main/timers.c: all slots and the master switch as the JSON text that is stored.
pub mod RoundTrip
use mqtt_broker_esp.Prelude.{
  ℕ, zero, suc, ◌+◌, List, [], ◌∷◌, ◌++◌, length, set, replicate, Bool, true, false, not, ltb, ◌==◌,
  if◌then◌else◌, bytes_eq, Option, none, some,
}
use mqtt_broker_esp.Timers.{Slot, empty_slot, slot_count}
use mqtt_broker_esp.Timers.Json.{
  ◌>>=◌, ◌>>◌, require, skip_ws, parse_json_string, parse_json_int, skip_json_value, put,
}
use mqtt_broker_esp.Timers.SlotJson.{
  c_string, is_zero, is_key, expect, flag_char, parse_slot_object, put_slot,
}

abbrev pub empty_slots : List Slot
empty_slots = replicate slot_count empty_slot

-- The master switch and `s_slots`.
pub record Config : Type 0 where
  pub master : Bool
  pub slots : List Slot

abbrev pub default_config : Config
default_config = record { master = true; slots = empty_slots }

-- A slot beyond the last is dropped.
abbrev pub after_slot :
    (more : List ℕ → ℕ → List Slot → Option (List Slot × List ℕ))
    → (idx : ℕ) → List Slot
    → List ℕ
    → Option (List Slot × List ℕ)
after_slot more idx slots [] = none
after_slot more idx slots (c ∷ cs) =
    let next = more (skip_ws cs) (suc idx) slots in
    if c == b',' then next else if c == b']' then some (slots, cs) else none

-- The loop over the array; every turn takes a byte at least. It ends at the end of the text too.
unfoldable pub read_slots :
    (fuel : ℕ) → List ℕ → (idx : ℕ) → List Slot → Option (List Slot × List ℕ)
unfolding skip_ws
read_slots zero text idx slots = none
read_slots (suc fuel) [] idx slots = some (slots, [])
read_slots (suc fuel) (c ∷ cs) idx slots = do
  (tmp, text) ← parse_slot_object (c ∷ cs)
  after_slot (read_slots fuel) idx (set slots idx tmp) (skip_ws text)

abbrev pub open_array : List Slot → List ℕ → Option (List Slot × List ℕ)
open_array slots [] = some (slots, [])
open_array slots (c ∷ cs) =
    let entries = read_slots (suc (suc (length cs))) (c ∷ cs) 0 slots in
    if c == b']' then some (slots, cs) else entries

abbrev pub version_field : Config → List ℕ → Option (Config × List ℕ)
version_field c text = do (iv, text) ← parse_json_int text; some (c, text)

abbrev pub master_field : Config → List ℕ → Option (Config × List ℕ)
master_field c text = do
  (iv, text) ← parse_json_int text
  some (record c { master = not (is_zero iv) }, text)

abbrev pub slots_field : Config → List ℕ → Option (Config × List ℕ)
slots_field c text = do
  text ← expect b'[' text
  (slots, text) ← open_array c.slots (skip_ws text)
  some (record c { slots = slots }, text)

abbrev pub key_master : List ℕ
key_master = b'm' ∷ b'a' ∷ b's' ∷ b't' ∷ b'e' ∷ b'r' ∷ []

abbrev pub key_timers : List ℕ
key_timers = b't' ∷ b'i' ∷ b'm' ∷ b'e' ∷ b'r' ∷ b's' ∷ []

unfoldable pub read_blob_field : (key : List ℕ) → Config → List ℕ → Option (Config × List ℕ)
unfolding skip_ws read_slots
read_blob_field key c text =
    if bytes_eq key (b'v' ∷ [])
    then version_field c text
    else if is_key key (b'm' ∷ b'e' ∷ []) key_master
    then master_field c text
    else if is_key key (b't' ∷ []) key_timers
    then slots_field c text
    else skip_json_value text >>= λ text. some (c, text)

unfoldable pub read_blob_member : Config → List ℕ → Option (Config × List ℕ)
unfolding skip_ws read_blob_field
read_blob_member c text = do
  (key, text) ← parse_json_string (skip_ws text) 16
  text ← expect b':' (skip_ws text)
  read_blob_field (c_string key) c (skip_ws text)

abbrev pub after_blob_member :
    (more : Config → List ℕ → Option Config) → Config → List ℕ → Option Config
after_blob_member more c [] = none
after_blob_member more c (b ∷ bs) =
    let next = more c bs in if b == b',' then next else if b == b'}' then some c else none

unfoldable pub read_blob_members : (fuel : ℕ) → Config → List ℕ → Option Config
unfolding skip_ws read_blob_member
read_blob_members zero c text = none
read_blob_members (suc fuel) c [] = some c
read_blob_members (suc fuel) c (b ∷ bs) = do
  (c, text) ← read_blob_member c (b ∷ bs)
  after_blob_member (read_blob_members fuel) c (skip_ws text)

abbrev pub open_blob : List ℕ → Option Config
open_blob [] = some default_config
open_blob (c ∷ cs) =
    let members = read_blob_members (suc (suc (length cs))) default_config (c ∷ cs) in
    if c == b'}' then some default_config else members

-- The slots that a failed parse leaves are never used: `load_from_nvs` clears them.
unfoldable pub parse_blob : List ℕ → Option Config
unfolding skip_ws read_blob_members
parse_blob blob = do text ← expect b'{' (skip_ws blob); open_blob (skip_ws text)

abbrev pub blob_head : Bool → List ℕ
blob_head master =
    b'{'
    ∷ b'"'
    ∷ b'v'
    ∷ b'"'
    ∷ b':'
    ∷ b'1'
    ∷ b','
    ∷ b'"'
    ∷ b'm'
    ∷ b'e'
    ∷ b'"'
    ∷ b':'
    ∷ flag_char master
    ∷ b','
    ∷ b'"'
    ∷ b't'
    ∷ b'"'
    ∷ b':'
    ∷ b'['
    ∷ []

-- The slots behind the first one, each behind a comma.
unfoldable pub put_more_slots : (bufsz : ℕ) → (buf : List ℕ) → List Slot → Option (List ℕ)
put_more_slots bufsz buf [] = some buf
put_more_slots bufsz buf (s ∷ ss) = do
  buf ← put bufsz buf (b',' ∷ [])
  buf ← put_slot bufsz buf s
  put_more_slots bufsz buf ss

unfoldable pub put_slots : (bufsz : ℕ) → (buf : List ℕ) → List Slot → Option (List ℕ)
unfolding put_more_slots
put_slots bufsz buf [] = some buf
put_slots bufsz buf (s ∷ ss) = put_slot bufsz buf s >>= λ buf. put_more_slots bufsz buf ss

unfoldable pub serialize_blob : (bufsz : ℕ) → Config → Option (List ℕ)
unfolding put_slots
serialize_blob bufsz c = do
  buf ← put bufsz [] (blob_head c.master)
  buf ← put_slots bufsz buf c.slots
  require (ltb (length buf + 3) bufsz)
  some (buf ++ (b']' ∷ b'}' ∷ []))
