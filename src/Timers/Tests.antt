-- ===== src/Timers/Tests.antt =====
-- A lamp that is switched on workdays, in the second of sixteen slots.
use mqtt_broker_esp.Prelude.{
  ℕ, zero, suc, ◌+ℤ◌, ◌+◌, ◌≡◌, refl, arith, List, [], ◌∷◌, length, replicate, true, false, Option,
  none, some, pos, All, if◌then◌else◌, ◌==◌, ltb,
}
use mqtt_broker_esp.Tester.{Tester}
use mqtt_broker_esp.Timers.{
  Slot, empty_slot, timers_validate, topic_is_valid_publish, has_plain_bytes, letters_of,
  timers_days_to_string,
}
use mqtt_broker_esp.Timers.Json.{append_json_string, put_escaped, decimal}
use mqtt_broker_esp.Timers.SlotJson.{slot_head, put_slot, read_members}
use mqtt_broker_esp.Timers.SlotJson.Enough.{read_members-enough}
use mqtt_broker_esp.Timers.SlotJson.RoundTrip.{IsStorable}
use mqtt_broker_esp.Timers.Blob.{Config, parse_blob, serialize_blob, put_slots, put_more_slots}
use mqtt_broker_esp.Timers.Blob.RoundTrip.{
  blob_text, serialize_blob-blob_text, parse_blob-serialize_blob,
}
use mqtt_broker_esp.Timers.Store.{
  Timers, esp_ok, Nvs, save_to_nvs_locked, load_from_nvs, timers_get, timers_set,
}
use mqtt_broker_esp.Timers.Durable.{IsConfig, load_from_nvs-save_to_nvs_locked}
use mqtt_broker_esp.Timers.Edit.{timers_get-timers_set}
use mqtt_broker_esp.Timers.Schedule.{
  LocalTime, jitter_of, hash32, refresh_jitter, sweep_slot, sweep,
}
use mqtt_broker_esp.Timers.Once.{view, frame, is_due, IsSized, sweep-sweep}
use mqtt_broker_esp.Timers.Again.{request_of, sweep_slot-sweep_slot_repeat}

-- "a/b" and a payload with a quote and a control byte.
abbrev lamp : Slot
lamp = record {
  arm = true;
  repeat = true;
  retain = false;
  qos = 1;
  days = 62;
  window = 0;
  minute_of_day = 150;
  topic = b'a' ∷ b'/' ∷ b'b' ∷ [];
  payload = b'"' ∷ 1 ∷ [];
  label = [];
}

abbrev one_lamp : Config
one_lamp = record { master = true; slots = empty_slot ∷ lamp ∷ replicate 14 empty_slot }

abbrev all_well : Nvs
all_well = record { allocated = true; opened = true; done = true }

abbrev queue : Tester
queue = record {
  inited = true;
  consumers = [];
  queue = [];
  seq = 0;
  consumer_count = 0;
  events_published = 0;
  events_dropped = 0;
  publish_requests = 0;
  publish_rejected = 0;
  streams = [];
}

abbrev started : Timers
started = record {
  config = one_lamp;
  last_fire_utc_min = replicate 16 0;
  jitter_yday = replicate 16 none;
  jitter_minutes = replicate 16 (pos 0);
  dropped = 0;
  logged_no_broker = false;
  stored = none;
  tester = queue;
}

empty_slot-IsStorable : IsStorable empty_slot
empty_slot-IsStorable = record {
  qos = omega arith;
  window = omega arith;
  minute = omega arith;
  days = omega arith;
  topic = omega arith;
  payload = omega arith;
  label = omega arith;
  topic_text = tt;
  label_text = tt;
}

lamp-IsStorable : IsStorable lamp
lamp-IsStorable = record {
  qos = omega arith;
  window = omega arith;
  minute = omega arith;
  days = omega arith;
  topic = omega arith;
  payload = omega arith;
  label = omega arith;
  topic_text = (λ e. omega arith, (λ e. omega arith, (λ e. omega arith, tt)));
  label_text = tt;
}

empty_slots-IsStorable : (n : ℕ) → All IsStorable (replicate n empty_slot)
empty_slots-IsStorable zero = tt
empty_slots-IsStorable (suc n) = (empty_slot-IsStorable, empty_slots-IsStorable n)

one_lamp-IsConfig : IsConfig one_lamp
one_lamp-IsConfig =
    let e = empty_slot-IsStorable in
    record { sized = refl; storable = (e, (lamp-IsStorable, empty_slots-IsStorable 14)) }

abbrev stored_text : Option (List ℕ)
stored_text = serialize_blob 5120 one_lamp

abbrev saved : Timers
saved = (save_to_nvs_locked started all_well).0

save-succeeds : save_to_nvs_locked started all_well ≡ (saved, esp_ok)
unfolding save_to_nvs_locked serialize_blob put_slots put_more_slots put_slot slot_head
    append_json_string put_escaped decimal timers_days_to_string letters_of
save-succeeds = refl

load_from_nvs-save_to_nvs_locked_example : (load_from_nvs saved all_well).config ≡ one_lamp
load_from_nvs-save_to_nvs_locked_example =
    load_from_nvs-save_to_nvs_locked started saved all_well all_well one_lamp-IsConfig save-succeeds
      refl refl refl

abbrev text_of : Option (List ℕ) → List ℕ
text_of none = []
text_of (some text) = text

abbrev lamp_text : List ℕ
lamp_text = text_of (serialize_blob 5120 one_lamp)

lamp_text-fits : serialize_blob 5120 one_lamp ≡ some lamp_text
unfolding serialize_blob put_slots put_more_slots put_slot slot_head append_json_string put_escaped
    decimal timers_days_to_string letters_of
lamp_text-fits = refl

parse_blob-serialize_blob_example : parse_blob lamp_text ≡ some one_lamp
parse_blob-serialize_blob_example =
    parse_blob-serialize_blob 5120 one_lamp lamp_text refl one_lamp-IsConfig.storable lamp_text-fits

serialize_blob-blob_text_example :
    serialize_blob 60 one_lamp
    ≡ (if ltb (length (blob_text one_lamp) + 1) 60 then some (blob_text one_lamp) else none)
serialize_blob-blob_text_example = serialize_blob-blob_text 60 one_lamp

lamp-valid : timers_validate lamp ≡ none
unfolding timers_validate topic_is_valid_publish has_plain_bytes
lamp-valid = refl

timers_get-timers_set_example :
    timers_get (timers_set started 3 lamp all_well).0 2
    ≡ (if 2 == 3 then some lamp else timers_get started 2)
timers_get-timers_set_example = timers_get-timers_set started 3 2 lamp all_well refl refl lamp-valid

-- Half past two on a Sunday is no workday; on a Monday it is.
abbrev monday : LocalTime
monday = record { wday = 1; yday = 300; hour = 2; min = 30 }

started-IsSized : IsSized (frame started)
started-IsSized = record { slots = refl; ydays = refl; jitters = refl; lasts = refl }

sweep-sweep_example :
    sweep (sweep started 1761532200 monday all_well) 1761532201 monday all_well
    ≡ sweep started 1761532200 monday all_well
sweep-sweep_example =
    sweep-sweep started 1761532200 1761532201 monday all_well all_well started-IsSized refl

due : is_due (view (refresh_jitter started monday 1) 1) monday ≡ true
unfolding jitter_of hash32 ◌+ℤ◌
due = refl

sweep_slot-sweep_slot_repeat_example :
    let once = sweep_slot started 29358870 monday all_well 1 in
    (sweep_slot once 29358930 monday all_well 1).tester.queue
    ≡ request_of lamp ∷ request_of lamp ∷ []
sweep_slot-sweep_slot_repeat_example =
    sweep_slot-sweep_slot_repeat monday 1 started 29358870 29358930 all_well all_well
      started-IsSized (omega arith) (λ e. omega arith) refl refl due (λ e. omega arith)
      (omega arith) refl (omega arith)

-- The members of an object that arms a slot.
abbrev armed_text : List ℕ
armed_text = b'"' ∷ b'a' ∷ b'"' ∷ b':' ∷ b'1' ∷ b'}' ∷ []

read_members-enough_example :
    read_members 7 empty_slot armed_text ≡ read_members 90 empty_slot armed_text
read_members-enough_example =
    read_members-enough 7 90 empty_slot armed_text (omega arith) (omega arith)
