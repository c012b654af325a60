-- ===== src/Ntp/Tests.antt =====
-- Runs of the SNTP client and server on small inputs.
use mqtt_broker_esp.Prelude.{
  ℕ, zero, suc, ◌*◌, ◌-ℤ◌, scale, quot, ◌+◌, ◌≤◌, ◌≡◌, refl, arith, List, [], ◌∷◌, replicate, true,
  false, some, pos, negsuc, ◌≤ℤ◌, All,
}
use mqtt_broker_esp.Ntp.{
  Sample, no_drift, Ntp, ntp_drift_record, estimate, drift_between, ntp_now_us,
  ntp_corrected_now_us, ntp_free_running_s,
}
use mqtt_broker_esp.Ntp.Ring.{record_all, last_eight, estimate_of, ntp_drift_record-last_eight}
use mqtt_broker_esp.Ntp.Sign.{ntp_corrected_now_us-fast}
use mqtt_broker_esp.Ntp.Rate.{RateEntry, no_sources, ntp_rate_allow, scan_sources}
use mqtt_broker_esp.Ntp.Steady.{Has, request_all, request_all-steady}
use mqtt_broker_esp.Ntp.Server.{Server, Readings, build_reply, ntp_serve}

abbrev sample_at : ℕ → Sample
sample_at k = record { mono_us = k * 100000000; wall_us = 1700000000000000 + k * 99990000 }

-- Ten synchronisations of a timer that gains 100 microseconds a second.
abbrev samples : List Sample
samples =
    sample_at 0
    ∷ sample_at 1
    ∷ sample_at 2
    ∷ sample_at 3
    ∷ sample_at 4
    ∷ sample_at 5
    ∷ sample_at 6
    ∷ sample_at 7
    ∷ sample_at 8
    ∷ sample_at 9
    ∷ []

ntp_drift_record-last_eight_example :
    (record_all no_drift samples).ppm ≡ estimate_of (last_eight samples)
ntp_drift_record-last_eight_example = ntp_drift_record-last_eight samples

-- After these the estimate is -100 ppm.
drift_of_samples : (record_all no_drift samples).ppm ≡ some (negsuc 99)
unfolding record_all ntp_drift_record estimate drift_between scale quot ◌-ℤ◌
drift_of_samples = refl

abbrev free_running : Ntp
free_running = record {
  synced = true;
  last_sync_us = 900000000;
  sync_count = 10;
  poll_s = 3600;
  drift = record no_drift { ppm = drift_between (sample_at 2) (sample_at 9) };
}

ntp_corrected_now_us-fast_example :
    pos (ntp_now_us free_running 1700010000000000)
    ≤ℤ ntp_corrected_now_us free_running 10900000000 1700010000000000
ntp_corrected_now_us-fast_example =
    ntp_corrected_now_us-fast free_running 10900000000 1700010000000000 (sample_at 2) (sample_at 9)
      (omega arith) (omega arith) refl

-- A clock that gained 100 microseconds a second for 10000 seconds is put another second ahead.
ahead : ntp_corrected_now_us free_running 10900000000 1700010000000000 ≡ pos 1700010001000000
unfolding ntp_corrected_now_us ntp_now_us ntp_free_running_s drift_between scale quot ◌-ℤ◌
ahead = refl

abbrev one_source : List RateEntry
one_source = (ntp_rate_allow no_sources 7 1000).1

one_source-Has : Has one_source 7 0 1 1000
unfolding ntp_rate_allow scan_sources
one_source-Has = record {
  inside = omega arith;
  valid = λ e. omega arith;
  its = refl;
  before = λ j h. absurd (omega arith);
  counted = refl;
  last = refl;
}

abbrev every_second : List ℕ
every_second = replicate 10 1000

each_second : (n : ℕ) → All (λ g. g ≤ 1000) (replicate n 1000)
each_second zero = tt
each_second (suc n) = (omega arith, each_second n)

request_all-steady_example : (request_all one_source 7 1000 every_second).0 ≡ false
request_all-steady_example =
    request_all-steady one_source 7 0 1 1000 every_second one_source-Has (each_second 10) refl
      (omega arith)

abbrev new_year : ℕ
new_year = 1735689600123456

abbrev server : Server
server = record {
  clock = free_running;
  sources = no_sources;
  served = 0;
  dropped_rate = 0;
  dropped_size = 0;
  dropped_mode = 0;
}

abbrev request : List ℕ
request = 0x23 ∷ replicate 47 0

abbrev readings : Readings
readings = record {
  rx_timer_us = 1000000000;
  rx_clock_us = new_year;
  tx_timer_us = 1000000100;
  tx_clock_us = new_year + 100;
}

replied :
    (ntp_serve server request 7 readings true).1 ≡ some (build_reply free_running request readings)
unfolding ntp_serve ntp_rate_allow scan_sources
replied = refl
