-- ===== src/Ntp.antt =====
-- main/ntp.c: the record of synchronisations, the drift estimate and the clock that is corrected by
-- it. The readings of the timer and of the clock are arguments, in microseconds.
pub mod Ring
pub mod Sign
pub mod Rate
pub mod Server
pub mod Reply
pub mod Steady
mod Tests
use mqtt_broker_esp.Prelude.{
  ℕ, ◌+◌, ◌-◌, ◌*◌, ◌/◌, ◌%◌, ◌^◌, List, [], ◌∷◌, Bool, true, false, get_or, set, replicate, ltb,
  leb, ◌==◌, if◌then◌else◌, Option, none, some, ℤ, pos, negsuc, pos_part, sub_ℕ, neg_ℕ, ltb_ℤ, ◌-ℤ◌,
  scale, quot,
}

abbrev pub ring_size : ℕ
ring_size = 8

-- `ntp_drift_sample_t`
pub record Sample : Type 0 where
  pub mono_us : ℕ
  pub wall_us : ℕ

abbrev pub no_sample : Sample
no_sample = record { mono_us = 0; wall_us = 0 }

-- `s_drift_ring`, `s_drift_head`, `s_drift_count` and `s_drift_ppm`, where `none` is INT32_MIN.
pub record Drift : Type 0 where
  pub ring : List Sample
  pub head : ℕ
  pub count : ℕ
  pub ppm : Option ℤ

abbrev pub no_drift : Drift
no_drift = record { ring = replicate ring_size no_sample; head = 0; count = 0; ppm = none }

-- The cast to `int32_t`.
abbrev pub to_int32 : ℤ → ℤ
to_int32 (pos n) =
    if ltb (n % 2 ^ 32) (2 ^ 31) then pos (n % 2 ^ 32) else neg_ℕ (2 ^ 32 - n % 2 ^ 32)
to_int32 (negsuc n) =
    if ltb (n % 2 ^ 32) (2 ^ 31) then negsuc (n % 2 ^ 32) else pos (2 ^ 32 - 1 - n % 2 ^ 32)

abbrev pub clamp_ppm : ℤ → ℤ
clamp_ppm ppm =
    if ltb_ℤ (pos 500) ppm then pos 500 else if ltb_ℤ ppm (neg_ℕ 500) then neg_ℕ 500 else ppm

abbrev pub min_baseline_us : ℕ
min_baseline_us = 60 * 1000000

-- The estimate from the oldest and the newest sample. The product is exact, which an `int64_t` holds
-- while the two clocks have moved apart by less than 106 days between the samples.
unfoldable pub drift_between : (oldest newest : Sample) → Option ℤ
drift_between oldest newest =
    let d_mono = sub_ℕ newest.mono_us oldest.mono_us in
    let d_wall = sub_ℕ newest.wall_us oldest.wall_us in
    let delta = d_wall -ℤ d_mono in
    if ltb_ℤ d_mono (pos min_baseline_us)
    then none
    else some (clamp_ppm (to_int32 (quot (scale delta 1000000) (pos_part d_mono))))

unfoldable pub estimate : (ring : List Sample) (head count : ℕ) → Option ℤ
estimate ring head count =
    let newest = (head + ring_size - 1) % ring_size in
    let oldest = if count == ring_size then head else 0 in
    if ltb count 2
    then none
    else drift_between (get_or ring oldest no_sample) (get_or ring newest no_sample)

unfoldable pub ntp_drift_record : Drift → (mono_us wall_us : ℕ) → Drift
ntp_drift_record d mono_us wall_us =
    let ring = set d.ring d.head (record { mono_us = mono_us; wall_us = wall_us }) in
    let head = (d.head + 1) % ring_size in
    let count = if ltb d.count ring_size then d.count + 1 else d.count in
    record { ring = ring; head = head; count = count; ppm = estimate ring head count }

-- `s_synced`, `s_last_sync_us`, `s_sync_count` and `s_poll_s`, with the drift record.
pub record Ntp : Type 0 where
  pub synced : Bool
  pub last_sync_us : ℕ
  pub sync_count : ℕ
  pub poll_s : ℕ
  pub drift : Drift

-- `timer_us` is the reading of the timer and `wall_us` the time that was just set.
unfoldable pub on_sntp_synced : Ntp → (timer_us wall_us : ℕ) → Ntp
unfolding ntp_drift_record
on_sntp_synced s timer_us wall_us = record s {
  synced = true;
  last_sync_us = timer_us;
  sync_count = (s.sync_count + 1) % 2 ^ 32;
  drift = ntp_drift_record s.drift timer_us wall_us;
}

-- The timer never goes back.
unfoldable pub ntp_free_running_s : Ntp → (timer_us : ℕ) → ℕ
ntp_free_running_s s timer_us =
    let age_s = (timer_us - s.last_sync_us) / 1000000 in
    if s.synced
    then if leb age_s (2 * s.poll_s % 2 ^ 32)
      then 0
      else if ltb (2 ^ 31 - 1) age_s
      then 2 ^ 31 - 1
      else age_s
    else 0

-- `clock_us` is what `gettimeofday` gives.
unfoldable pub ntp_now_us : Ntp → (clock_us : ℕ) → ℕ
ntp_now_us s clock_us = if s.synced then clock_us else 0

abbrev pub corrected_by : (raw fr : ℕ) → Option ℤ → ℤ
corrected_by raw fr none = pos raw
corrected_by raw fr (some ppm) = pos raw -ℤ scale ppm fr

unfoldable pub ntp_corrected_now_us : Ntp → (timer_us clock_us : ℕ) → ℤ
unfolding ntp_free_running_s ntp_now_us
ntp_corrected_now_us s timer_us clock_us =
    let raw = ntp_now_us s clock_us in
    let fr = ntp_free_running_s s timer_us in
    if raw == 0 then pos 0 else if fr == 0 then pos raw else corrected_by raw fr s.drift.ppm
