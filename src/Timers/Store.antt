-- ===== src/Timers/Store.antt =====
-- main/timers.c: the module's state, its storage in NVS and the operations on the slots. What `malloc`
-- and the NVS calls return is an argument, and so is the queue that `broker_publish_local` fills.
use mqtt_broker_esp.Prelude.{
  ℕ, ◌+◌, ◌-◌, ◌%◌, ◌^◌, List, length, take, get_or, set, replicate, Bool, true, ◌&&◌, ◌||◌, not,
  ltb, leb, if◌then◌else◌, Option, none, some, ℤ, pos,
}
use mqtt_broker_esp.Tester.{Tester, broker_publish_local}
use mqtt_broker_esp.Timers.{
  topic_max, payload_max, label_max, Slot, empty_slot, slot_count, Complaint, timers_validate,
}
use mqtt_broker_esp.Timers.SlotJson.{is_empty_list}
use mqtt_broker_esp.Timers.Blob.{Config, default_config, parse_blob, serialize_blob}

abbrev pub nvs_blob_max : ℕ
nvs_blob_max = 5120

-- The module's variables; no day of the year stands for -1, and `tester` is the broker's queue.
pub record Timers : Type 0 where
  pub config : Config
  pub last_fire_utc_min : List ℕ
  pub jitter_yday : List (Option ℕ)
  pub jitter_minutes : List ℤ
  pub dropped : ℕ
  pub logged_no_broker : Bool
  pub stored : Option (List ℕ)
  pub tester : Tester

abbrev pub slot_at : Timers → (idx : ℕ) → Slot
slot_at t idx = get_or t.config.slots idx empty_slot

abbrev pub put_slot_at : Timers → (idx : ℕ) → Slot → Timers
put_slot_at t idx s = record t { config = record t.config { slots = set t.config.slots idx s } }

-- The `esp_err_t` values that the module makes, and those of NVS.
pub data EspErr : Type 0 where
  esp_ok : EspErr
  err_no_mem : EspErr
  err_invalid_arg : EspErr
  err_invalid_state : EspErr
  err_nvs : EspErr

-- What `malloc`, `nvs_open` and the read or the write with its commit do.
pub record Nvs : Type 0 where
  pub allocated : Bool
  pub opened : Bool
  pub done : Bool

abbrev pub write_blob : Timers → Nvs → Option (List ℕ) → Timers × EspErr
write_blob t nvs none = (t, err_no_mem)
write_blob t nvs (some text) =
    if not nvs.opened
    then (t, err_nvs)
    else if nvs.done
    then (record t { stored = some text }, esp_ok)
    else (t, err_nvs)

unfoldable pub save_to_nvs_locked : Timers → Nvs → Timers × EspErr
save_to_nvs_locked t nvs =
    if nvs.allocated
    then write_blob t nvs (serialize_blob nvs_blob_max t.config)
    else (t, err_no_mem)

abbrev parsed_or_default : Option Config → Config
parsed_or_default none = default_config
parsed_or_default (some c) = c

-- `needed` counts the NUL.
abbrev pub config_from : Option (List ℕ) → Nvs → Config
config_from none nvs = default_config
config_from (some text) nvs =
    if ltb nvs_blob_max (length text + 1)
    then default_config
    else if nvs.allocated && nvs.done
    then parsed_or_default (parse_blob text)
    else default_config

unfoldable pub load_from_nvs : Timers → Nvs → Timers
load_from_nvs t nvs = record t {
  config = if nvs.opened then config_from t.stored nvs else default_config;
}

-- The start of `timers_init`: the caches, then what is stored.
unfoldable pub timers_init : Timers → Nvs → Timers
unfolding load_from_nvs
timers_init t nvs =
    load_from_nvs
      (record t {
        last_fire_utc_min = replicate slot_count 0;
        jitter_yday = replicate slot_count none;
        jitter_minutes = replicate slot_count (pos 0);
      })
      nvs

unfoldable pub fire_slot_locked : Timers → (idx : ℕ) → Timers
fire_slot_locked t idx =
    let s = slot_at t idx in
    let r = broker_publish_local t.tester s.topic s.payload s.qos s.retain in
    if r.1
    then record t { tester = r.0 }
    else record t { tester = r.0; dropped = (t.dropped + 1) % 2 ^ 32; logged_no_broker = true }

abbrev pub in_slots : (slot_1based : ℕ) → Bool
in_slots slot_1based = leb 1 slot_1based && leb slot_1based slot_count

unfoldable pub timers_fire_now : Timers → (slot_1based : ℕ) → Timers × EspErr
timers_fire_now t slot_1based =
    let s = slot_at t (slot_1based - 1) in
    if not (in_slots slot_1based)
    then (t, err_invalid_arg)
    else if not s.arm || is_empty_list s.topic
    then (t, err_invalid_state)
    else (fire_slot_locked t (slot_1based - 1), esp_ok)

unfoldable pub timers_set_master_enabled : Timers → (enabled : Bool) → Nvs → Timers
unfolding save_to_nvs_locked
timers_set_master_enabled t enabled nvs =
    let same = if enabled then t.config.master else not t.config.master in
    if same
    then t
    else (save_to_nvs_locked (record t { config = record t.config { master = enabled } }) nvs).0

unfoldable pub timers_get : Timers → (slot_1based : ℕ) → Option Slot
timers_get t slot_1based = if in_slots slot_1based then some (slot_at t (slot_1based - 1)) else none

-- Clears the caches of a slot and saves.
abbrev pub replace_slot : Timers → (idx : ℕ) → Slot → Nvs → Timers × EspErr
replace_slot t idx s nvs =
    save_to_nvs_locked
      (record (put_slot_at t idx s) {
        last_fire_utc_min = set t.last_fire_utc_min idx 0;
        jitter_yday = set t.jitter_yday idx none;
      })
      nvs

-- What `timers_set` stores: the terminators are forced and `payload_len` is bounded.
abbrev pub terminated : Slot → Slot
terminated s = record s {
  topic = take topic_max s.topic;
  payload = take payload_max s.payload;
  label = take label_max s.label;
}

abbrev pub set_if_valid : Timers → (idx : ℕ) → Slot → Nvs → Option Complaint → Timers × EspErr
set_if_valid t idx s nvs none = replace_slot t idx (terminated s) nvs
set_if_valid t idx s nvs (some complaint) = (t, err_invalid_arg)

unfoldable pub timers_set : Timers → (slot_1based : ℕ) → Slot → Nvs → Timers × EspErr
timers_set t slot_1based s nvs =
    if in_slots slot_1based
    then set_if_valid t (slot_1based - 1) s nvs (timers_validate s)
    else (t, err_invalid_arg)

unfoldable pub timers_clear : Timers → (slot_1based : ℕ) → Nvs → Timers × EspErr
timers_clear t slot_1based nvs =
    if in_slots slot_1based
    then replace_slot t (slot_1based - 1) empty_slot nvs
    else (t, err_invalid_arg)
