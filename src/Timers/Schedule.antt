-- ===== src/Timers/Schedule.antt =====
-- main/timers.c: the sweep over the slots, once a second. The broken-down local time is an argument.
use mqtt_broker_esp.Prelude.{
  ℕ, zero, suc, ◌+◌, ◌-◌, ◌*◌, ◌/◌, ◌%◌, ◌^◌, get_or, set, Bool, false, ◌&&◌, ◌||◌, not, ltb, leb,
  ◌==◌, if◌then◌else◌, Option, none, some, ℤ, pos, negsuc, sub_ℕ, ◌+ℤ◌, bit_and, bit_xor,
}
use mqtt_broker_esp.Timers.{Slot, slot_count}
use mqtt_broker_esp.Timers.Store.{
  Timers, slot_at, put_slot_at, Nvs, save_to_nvs_locked, fire_slot_locked,
}

abbrev pub min_valid_unix : ℕ
min_valid_unix = 1700000000

-- The fields of `struct tm` that are read.
pub record LocalTime : Type 0 where
  pub wday : ℕ
  pub yday : ℕ
  pub hour : ℕ
  pub min : ℕ

unfoldable pub hash32 : ℕ → ℕ
hash32 x =
    let x = bit_xor x (x * 2 ^ 13 % 2 ^ 32) in
    let x = bit_xor x (x / 2 ^ 17) in
    let x = bit_xor x (x * 2 ^ 5 % 2 ^ 32) in if x == 0 then 1 else x

-- The offset in minutes, from -window to window.
unfoldable pub jitter_of : (i yday window : ℕ) → ℤ
jitter_of i yday window =
    let r = hash32 (bit_xor (bit_xor (i * 131) yday) 0xA5A5) in
    if ltb 0 window then sub_ℕ (r % (window * 2 + 1)) window else pos 0

abbrev pub is_yday : Option ℕ → (yday : ℕ) → Bool
is_yday none yday = false
is_yday (some d) yday = d == yday

abbrev pub refresh_jitter : Timers → LocalTime → (i : ℕ) → Timers
refresh_jitter t lt i =
    let cached = is_yday (get_or t.jitter_yday i none) lt.yday in
    let fresh = jitter_of i lt.yday (slot_at t i).window in
    record t {
      jitter_yday = if cached then t.jitter_yday else set t.jitter_yday i (some lt.yday);
      jitter_minutes = if cached then t.jitter_minutes else set t.jitter_minutes i fresh;
    }

abbrev pub is_minute : ℤ → ℕ → Bool
is_minute (pos m) now = leb m 1439 && (now == m)
is_minute (negsuc m) now = false

abbrev pub is_scheduled : Slot → LocalTime → Bool
is_scheduled s lt = s.arm && not (s.days == 0) && not (bit_and s.days (2 ^ lt.wday) == 0)

-- Publishes the slot, and disarms it if it does not repeat.
unfoldable pub fire : Timers → (now_utc_min i : ℕ) → Nvs → Timers
fire t now_utc_min i nvs =
    let s = slot_at t i in
    let fired =
      fire_slot_locked (record t { last_fire_utc_min = set t.last_fire_utc_min i now_utc_min }) i in
    if s.repeat
    then fired
    else (save_to_nvs_locked (put_slot_at fired i (record s { arm = false })) nvs).0

-- The body of the loop of `sweep`.
unfoldable pub sweep_slot : Timers → (now_utc_min : ℕ) → LocalTime → Nvs → (i : ℕ) → Timers
sweep_slot t now_utc_min lt nvs i =
    let s = slot_at t i in
    let u = refresh_jitter t lt i in
    let target_minute = pos s.minute_of_day +ℤ get_or u.jitter_minutes i (pos 0) in
    let now_local_minute = lt.hour * 60 + lt.min in
    if not (is_scheduled s lt)
    then t
    else if not (is_minute target_minute now_local_minute)
    then u
    else if get_or u.last_fire_utc_min i 0 == now_utc_min
    then u
    else fire u now_utc_min i nvs

-- The slots from `i` on, `left` of them.
unfoldable pub sweep_from : Timers → (now_utc_min : ℕ) → LocalTime → Nvs → (left i : ℕ) → Timers
sweep_from t now_utc_min lt nvs zero i = t
sweep_from t now_utc_min lt nvs (suc left) i =
    sweep_from (sweep_slot t now_utc_min lt nvs i) now_utc_min lt nvs left (suc i)

unfoldable pub sweep : Timers → (now_utc : ℕ) → LocalTime → Nvs → Timers
sweep t now_utc lt nvs = sweep_from t (now_utc / 60) lt nvs slot_count 0

-- More than a minute between two readings of the clock; a zero `last_now` is no reading.
abbrev pub large_jump : (last_now now : ℕ) → Bool
large_jump last_now now =
    not (last_now == 0) && (ltb 60 (now - last_now) || ltb 60 (last_now - now))

-- One turn of `timers_task`: the state and `last_now`. `locked` says whether the lock was had in time.
unfoldable pub timers_tick :
    Timers → (last_now now : ℕ) → LocalTime → (locked : Bool) → Nvs → Timers × ℕ
timers_tick t last_now now lt locked nvs =
    if ltb now min_valid_unix
    then (t, last_now)
    else if large_jump last_now now || not t.config.master || not locked
    then (t, now)
    else (sweep t now lt nvs, now)

-- What `mktime` gives for the slot's time so many days ahead: nothing for -1, or the time and its
-- weekday.
abbrev pub DayTimes : Type 0
DayTimes = ℕ → Option (ℕ × ℕ)

abbrev pub fires_at : Slot → (now : ℕ) → Option (ℕ × ℕ) → Option ℕ
fires_at s now none = none
fires_at s now (some (cand_unix, wday)) =
    if leb cand_unix now
    then none
    else if bit_and s.days (2 ^ wday) == 0
    then none
    else some cand_unix

abbrev or_next : Option ℕ → ℕ → ℕ
or_next none next = next
or_next (some cand_unix) next = cand_unix

-- The loop over `day_off`, `left` days of it.
unfoldable pub first_fire : Slot → (now : ℕ) → DayTimes → (left day_off : ℕ) → ℕ
first_fire s now mktime zero day_off = 0
first_fire s now mktime (suc left) day_off =
    or_next (fires_at s now (mktime day_off)) (first_fire s now mktime left (suc day_off))

unfoldable pub next_fire_for_locked : Timers → (idx now : ℕ) → DayTimes → ℕ
next_fire_for_locked t idx now mktime =
    let s = slot_at t idx in
    if leb slot_count idx
    then 0
    else if not s.arm || not t.config.master || (s.days == 0)
    then 0
    else if ltb now min_valid_unix
    then 0
    else first_fire s now mktime 8 0
