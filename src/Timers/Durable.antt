-- ===== src/Timers/Durable.antt =====
-- What main/timers.c saves is what it loads, and the slots it keeps can be saved.
use mqtt_broker_esp.Prelude.{
  ℕ, ◌+◌, ◌≤◌, ◌<◌, ◌≡◌, refl, sym, ap, ◌∙◌, List, length, Bool, true, false, not, ltb, ◌==◌,
  if◌then◌else◌, if-holds, Option, none, some, arith, Bool-cases, Option-cases, inl, inr, All,
  bit_and, top_bit,
}
use mqtt_broker_esp.Timers.{
  Slot, Complaint, qos_range, window_range, time_range, days_bits, topic_required, topic_too_long,
  topic_invalid, no_day, payload_too_long, label_too_long, check_sizes, timers_validate,
}
use mqtt_broker_esp.Timers.SlotJson.RoundTrip.{IsStorable}
use mqtt_broker_esp.Timers.SlotJson.Fields.{NoNul}
use mqtt_broker_esp.Timers.Blob.{Config, serialize_blob}
use mqtt_broker_esp.Timers.Blob.RoundTrip.{
  blob_text, serialize_blob-blob_text, parse_blob-serialize_blob,
}
use mqtt_broker_esp.Timers.Store.{Timers, EspErr, esp_ok, Nvs, save_to_nvs_locked, load_from_nvs}

-- Sixteen slots that can be stored.
pub record IsConfig (c : Config) : Type 0 where
  pub sized : length c.slots ≡ 16
  pub storable : All IsStorable c.slots

serialize_blob-length :
    (n : ℕ) (c : Config) (text : List ℕ) → serialize_blob n c ≡ some text → length text + 1 < n
serialize_blob-length n c text e =
    let written = sym (serialize_blob-blob_text n c) ∙ e in
    elim (Bool-cases (ltb (length (blob_text c) + 1) n)) [
      | inl fits ↦
          let same : blob_text c ≡ text = ground (arith, written, fits) in
          let len = ap length same in ground arith
      | inr over ↦ absurd (ground (arith, written, over))
    ]

load-serialized :
    (t : Timers) (c : Config) (text : List ℕ) (nvs : Nvs)
    → IsConfig c
    → serialize_blob 5120 c ≡ some text
    → t.stored ≡ some text
    → nvs.allocated ≡ true
    → nvs.opened ≡ true
    → nvs.done ≡ true
    → (load_from_nvs t nvs).config ≡ c
unfolding load_from_nvs
load-serialized t c text nvs v e s a o d =
    let len = serialize_blob-length 5120 c text e in
    let fits : ltb 5120 (length text + 1) ≡ false = ground arith in
    rw (o, s, fits, a, d, parse_blob-serialize_blob 5120 c text v.sized v.storable e) refl

saved_text :
    (t u : Timers) (nvs : Nvs)
    → save_to_nvs_locked t nvs ≡ (u, esp_ok)
    → (text : List ℕ) × (serialize_blob 5120 t.config ≡ some text)
      × (record t { stored = some text } ≡ u)
unfolding save_to_nvs_locked
saved_text t u nvs e = elim (Bool-cases nvs.allocated) [
  | inr unallocated ↦ absurd (ground (arith, e, unallocated))
  | inl allocated ↦ elim (Option-cases (serialize_blob 5120 t.config)) [
    | inl overflow ↦ absurd (ground (arith, e, allocated, overflow))
    | inr (text, fits) ↦ elim (Bool-cases nvs.opened) [
      | inr closed ↦ absurd (ground (arith, e, allocated, fits, closed))
      | inl opened ↦ elim (Bool-cases nvs.done) [
        | inr failed ↦ absurd (ground (arith, e, allocated, fits, opened, failed))
        | inl done ↦ (text, fits, ground (arith, e, allocated, fits, opened, done))
      ]
    ]
  ]
]

-- If the configuration has sixteen slots that can be stored and a save returns no error, a load in
-- which malloc and the NVS calls succeed gives the same configuration back.
pub load_from_nvs-save_to_nvs_locked :
    (t u : Timers) (nvs nvs' : Nvs)
    → IsConfig t.config
    → save_to_nvs_locked t nvs ≡ (u, esp_ok)
    → nvs'.allocated ≡ true
    → nvs'.opened ≡ true
    → nvs'.done ≡ true
    → (load_from_nvs u nvs').config ≡ t.config
load_from_nvs-save_to_nvs_locked t u nvs nvs' v e a o d =
    let r = saved_text t u nvs e in
    load-serialized u t.config r.0 nvs' v r.1 (ap (λ w. w.stored) (sym r.2)) a o d

abbrev HasConfig : Config → Timers × EspErr → Type 0
HasConfig c r = r.0.config ≡ c

-- A save leaves the configuration as it was, whatever it returns.
pub save-config : (t : Timers) (nvs : Nvs) → (save_to_nvs_locked t nvs).0.config ≡ t.config
unfolding save_to_nvs_locked
save-config t nvs =
    let keeps = HasConfig t.config in
    if-holds keeps nvs.allocated
      (λ _. elim (Option-cases (serialize_blob 5120 t.config)) [
        | inl overflow ↦ rw overflow refl
        | inr (text, fits) ↦ rw fits (
            if-holds keeps (not nvs.opened) (λ _. refl)
              (λ _. if-holds keeps nvs.done (λ _. refl) (λ _. refl)))
      ])
      (λ _. refl)

no_top_bit : (m : ℕ) → m < 256 → bit_and m 0x80 ≡ 0 → m < 128
no_top_bit m h e = omega (arith, top_bit m h)

-- A check that is passed.
passed :
    (b : Bool) (x : Complaint) (r : Option Complaint)
    → (if b then some x else r) ≡ none
    → (b ≡ false) × (r ≡ none)
passed true x r e = absurd (cc)
passed false x r e = (refl, e)

draft_or_armed :
    (s : Slot) (r : Option Complaint)
    → (if not s.arm then check_sizes s else r) ≡ none
    → (r ≡ none → check_sizes s ≡ none)
    → check_sizes s ≡ none
draft_or_armed s r e h = elim (Bool-cases s.arm) [
  | inl armed ↦ h (cc)
  | inr draft ↦ ground (arith, e, draft)
]

-- A slot that passes the validation can be stored.
pub timers_validate-IsStorable :
    (s : Slot)
    → timers_validate s ≡ none
    → s.days < 256
    → length s.topic ≤ 128
    → NoNul s.topic
    → NoNul s.label
    → IsStorable s
unfolding timers_validate
timers_validate-IsStorable s e d l t b =
    let qos = passed (ltb 1 s.qos) qos_range _ e in
    let window = passed (ltb 15 s.window) window_range _ qos.1 in
    let time = passed (ltb 1439 s.minute_of_day) time_range _ window.1 in
    let bits = passed (not (bit_and s.days 0x80 == 0)) days_bits _ time.1 in
    let sizes = draft_or_armed s _ bits.1 (λ armed.
      (passed (s.days == 0) no_day _
        (passed _ topic_invalid _
          (passed _ topic_too_long _ (passed _ topic_required _ armed).1).1).1).1) in
    let payload = passed (ltb 256 (length s.payload)) payload_too_long _ sizes in
    let label = passed (ltb 24 (length s.label)) label_too_long none payload.1 in
    let q = qos.0 in
    let w = window.0 in
    let m = time.0 in
    let p = payload.0 in
    let n = label.0 in
    record {
      qos = ground arith;
      window = ground arith;
      minute = ground arith;
      days = no_top_bit s.days d (ground (arith, bits.0));
      topic = l;
      payload = ground arith;
      label = ground arith;
      topic_text = t;
      label_text = b;
    }
