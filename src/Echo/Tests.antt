-- ===== src/Echo/Tests.antt =====
-- Echo detection on one topic that is published three times within its window.
use mqtt_broker_esp.Prelude.{ℕ, ◌+◌, ◌≡◌, refl, List, [], ◌∷◌, true, length, ltb, leb, arith}
use mqtt_broker_esp.Echo.{Entry, Echo}
use mqtt_broker_esp.Echo.Slots.{IsValid}
use mqtt_broker_esp.Echo.Burst.{track_all, track_all_burst}

abbrev letter_a : List ℕ
letter_a = b'a' ∷ []

abbrev seen_once : Entry
seen_once = record {
  topic = letter_a;
  topic_len = 1;
  count = 1;
  window_start = 1000;
  detected_at = 0;
}

abbrev flagged : Entry
flagged = record seen_once { count = 3; detected_at = 1700 }

abbrev detector : Echo
detector = record { entries = seen_once ∷ []; enabled = true; min_count = 3; window_sec = 10 }

detector-IsValid : IsValid detector
detector-IsValid = record {
  few = omega arith;
  exact = ((refl, omega arith), tt);
  distinct = (tt, tt);
}

abbrev two_publishes : List (ℕ × ℕ)
two_publishes = (2000, 2000) ∷ (3000, 3000) ∷ []

track_all_burst_example :
    ((track_all detector two_publishes seen_once).count ≡ seen_once.count + length two_publishes)
    × (ltb 0 (track_all detector two_publishes seen_once).detected_at
        ≡ leb 3 (seen_once.count + length two_publishes))
track_all_burst_example =
    track_all_burst detector (2000, 2000) ((3000, 3000) ∷ []) seen_once
      ((omega arith, omega arith), ((omega arith, omega arith), tt)) refl (omega arith)
