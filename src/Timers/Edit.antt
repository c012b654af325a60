-- ===== src/Timers/Edit.antt =====
-- Setting and clearing a slot in main/timers.c.
use mqtt_broker_esp.Prelude.{
  ℕ, ◌-◌, ◌≤◌, ◌<◌, ◌≡◌, ◌≢◌, refl, sym, ap, subst, ◌∙◌, List, length, take, take-all, get_or, set,
  true, ◌==◌, if◌then◌else◌, if-holds, none, some, arith, Bool-cases, Option-cases, inl, inr,
  All-set, length-set, get_or-set_self, get_or-set_ne,
}
use mqtt_broker_esp.Timers.{Slot, empty_slot, timers_validate}
use mqtt_broker_esp.Timers.SlotJson.RoundTrip.{IsStorable}
use mqtt_broker_esp.Timers.SlotJson.Fields.{NoNul}
use mqtt_broker_esp.Timers.Store.{
  Timers, put_slot_at, EspErr, Nvs, in_slots, timers_get, replace_slot, terminated, timers_set,
  timers_clear,
}
use mqtt_broker_esp.Timers.Durable.{IsConfig, save-config, timers_validate-IsStorable}

-- What C's types say of a slot: the bytes of `days` and the strings of its arrays.
pub record IsSlot (s : Slot) : Type 0 where
  pub days : s.days < 256
  pub topic : length s.topic ≤ 128
  pub topic_text : NoNul s.topic
  pub label_text : NoNul s.label

empty_slot-IsStorable : IsStorable empty_slot
empty_slot-IsStorable = record {
  qos = omega arith;
  window = omega arith;
  minute = omega arith;
  days = omega arith;
  topic = omega arith;
  payload = omega arith;
  label = omega arith;
  topic_text = tt;
  label_text = tt;
}

-- A slot that can be stored has its terminators in place.
terminated_same : (s : Slot) → IsStorable s → terminated s ≡ s
terminated_same s v =
    let topic = take-all 128 s.topic v.topic in
    let payload = take-all 256 s.payload v.payload in
    let label = take-all 24 s.label v.label in
    λ k. record s { topic = topic k; payload = payload k; label = label k }

replace_slot-config :
    (t : Timers) (idx : ℕ) (s : Slot) (nvs : Nvs)
    → (replace_slot t idx s nvs).0.config ≡ (put_slot_at t idx s).config
replace_slot-config t idx s nvs = save-config _ nvs

pub put_slot_at-IsConfig :
    (t : Timers) (idx : ℕ) (s : Slot)
    → IsConfig t.config
    → IsStorable s
    → IsConfig (put_slot_at t idx s).config
put_slot_at-IsConfig t idx s v w = record {
  sized = length-set t.config.slots idx s ∙ v.sized;
  storable = All-set IsStorable t.config.slots idx s v.storable w;
}

replace_slot-IsConfig :
    (t : Timers) (idx : ℕ) (s : Slot) (nvs : Nvs)
    → IsConfig t.config
    → IsStorable s
    → IsConfig (replace_slot t idx s nvs).0.config
replace_slot-IsConfig t idx s nvs v w =
    subst IsConfig (sym (replace_slot-config t idx s nvs)) (put_slot_at-IsConfig t idx s v w)

abbrev KeepsConfig : Timers × EspErr → Type 0
KeepsConfig r = IsConfig r.0.config

-- If all sixteen slots can be stored, they still can after `timers_set` with any slot number and
-- any slot that C's types allow, whatever the NVS calls do and whatever is returned.
pub timers_set-IsConfig :
    (t : Timers) (n : ℕ) (s : Slot) (nvs : Nvs)
    → IsConfig t.config
    → IsSlot s
    → IsConfig (timers_set t n s nvs).0.config
unfolding timers_set
timers_set-IsConfig t n s nvs v w =
    if-holds KeepsConfig (in_slots n)
      (λ _. elim (Option-cases (timers_validate s)) [
        | inl valid ↦ rw valid (
            let storable =
              timers_validate-IsStorable s valid w.days w.topic w.topic_text w.label_text in
            replace_slot-IsConfig t (n - 1) (terminated s) nvs v
              (subst IsStorable (sym (terminated_same s storable)) storable))
        | inr (complaint, refused) ↦ rw refused v
      ])
      (λ _. v)

pub timers_clear-IsConfig :
    (t : Timers) (n : ℕ) (nvs : Nvs) → IsConfig t.config → IsConfig (timers_clear t n nvs).0.config
unfolding timers_clear
timers_clear-IsConfig t n nvs v =
    if-holds KeepsConfig (in_slots n)
      (λ _. replace_slot-IsConfig t (n - 1) empty_slot nvs v empty_slot-IsStorable) (λ _. v)

slot-set :
    (slots : List Slot) (n m : ℕ) (s : Slot)
    → length slots ≡ 16
    → in_slots n ≡ true
    → (if in_slots m then some (get_or (set slots (n - 1) s) (m - 1) empty_slot) else none) ≡ (
        if m == n
        then some s
        else if in_slots m
        then some (get_or slots (m - 1) empty_slot)
        else none)
slot-set slots n m s h i =
    let valid : (1 ≤ n) × (n ≤ 16) = (ground arith, ground arith) in
    elim (Bool-cases (m == n)) [
      | inl same ↦
          let place : m ≡ n = ground arith in
          let self = get_or-set_self slots (n - 1) s empty_slot (omega (arith, valid.0, valid.1)) in
          let there : in_slots m ≡ true = ap in_slots place ∙ i in
          rw (same, there)
            (ap (λ k. some (get_or (set slots (n - 1) s) (k - 1) empty_slot)) place ∙ ap some self)
      | inr other ↦ elim (Bool-cases (in_slots m)) [
        | inl inside ↦
            let apart : n - 1 ≢ m - 1 = λ e. ground (arith, valid.0) in
            rw (other, inside) (ap some (get_or-set_ne slots (n - 1) (m - 1) s empty_slot apart))
        | inr outside ↦ rw (other, outside) refl
      ]
    ]

-- After `timers_set` of a slot that is accepted, at a slot number from 1 to 16, that slot is read back
-- there, its topic cut to 128 bytes, its payload to 256 and its label to 24, and every other slot
-- number reads as before, also when the save failed and an error was returned.
pub timers_get-timers_set :
    (t : Timers) (n m : ℕ) (s : Slot) (nvs : Nvs)
    → length t.config.slots ≡ 16
    → in_slots n ≡ true
    → timers_validate s ≡ none
    → timers_get (timers_set t n s nvs).0 m ≡ (
        if m == n
        then some (record s {
          topic = take 128 s.topic;
          payload = take 256 s.payload;
          label = take 24 s.label;
        })
        else timers_get t m)
unfolding timers_get timers_set
timers_get-timers_set t n m s nvs h i v =
    rw (i, v, replace_slot-config t (n - 1) (terminated s) nvs)
      (slot-set t.config.slots n m (terminated s) h i)
