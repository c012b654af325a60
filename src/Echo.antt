-- ===== src/Echo.antt =====
-- Echo detection, main/echo_detect.c. The table is the list of the `s_count` entries in use. The
-- two clocks, `now_ms` and `ntp_now_ms`, are arguments.
pub mod Slots
pub mod Burst
mod Tests
use mqtt_broker_esp.Prelude.{
  ℕ, zero, suc, ◌+◌, ◌-◌, ◌*◌, ◌%◌, ◌^◌, List, [], ◌∷◌, ◌++◌, Bool, true, false, ◌&&◌, length, take,
  set, get_elem?, ltb, leb, ◌==◌, bytes_eq, if◌then◌else◌, Option, none, some, not,
}

-- `echo_entry_t`
pub record Entry : Type 0 where
  pub topic : List ℕ
  pub topic_len : ℕ
  pub count : ℕ
  pub window_start : ℕ
  pub detected_at : ℕ

pub record Echo : Type 0 where
  pub entries : List Entry
  pub enabled : Bool
  pub min_count : ℕ
  pub window_sec : ℕ

abbrev pub max_topics : ℕ
max_topics = 32

abbrev pub max_topic_len : ℕ
max_topic_len = 128

-- `find_entry`, from index `i` on.
unfoldable pub find_entry : List Entry → List ℕ → ℕ → Option ℕ
find_entry [] topic i = none
find_entry (e ∷ es) topic i =
    if (e.topic_len == length topic) && bytes_eq e.topic topic
    then some i
    else find_entry es topic (i + 1)

abbrev pub int64_max : ℕ
int64_max = 2 ^ 63 - 1

-- The first loop of `find_free_slot`: the undetected entry with the oldest window.
unfoldable pub oldest_undetected : List Entry → (i : ℕ) → Option ℕ → (best : ℕ) → Option ℕ
oldest_undetected [] i found best = found
oldest_undetected (e ∷ es) i found best =
    let better = (e.detected_at == 0) && ltb e.window_start best in
    oldest_undetected es (i + 1) (if better then some i else found)
      (if better then e.window_start else best)

-- Its second loop: the entry detected first.
unfoldable pub oldest_detected : List Entry → (i found best : ℕ) → ℕ
oldest_detected [] i found best = found
oldest_detected (e ∷ es) i found best =
    oldest_detected es (i + 1) (if ltb e.detected_at best then i else found)
      (if ltb e.detected_at best then e.detected_at else best)

abbrev pub first_detected_at : List Entry → ℕ
first_detected_at [] = 0
first_detected_at (e ∷ es) = e.detected_at

abbrev pub drop_first : List Entry → List Entry
drop_first [] = []
drop_first (e ∷ es) = es

abbrev pub or_detected : List Entry → Option ℕ → ℕ
or_detected es (some i) = i
or_detected es none = oldest_detected (drop_first es) 1 0 (first_detected_at es)

unfoldable pub find_free_slot : List Entry → ℕ
unfolding oldest_undetected oldest_detected
find_free_slot es =
    if ltb (length es) max_topics
    then length es
    else or_detected es (oldest_undetected es 0 none int64_max)

-- An entry for a topic seen first. `topic_len` keeps the length before it is cut to 128.
unfoldable pub new_entry : Echo → (now ntp_now : ℕ) → List ℕ → Entry
new_entry s now ntp_now topic = record {
  topic = take max_topic_len topic;
  topic_len = length topic;
  count = 1;
  window_start = now;
  detected_at = if s.min_count == 1 then ntp_now else 0;
}

-- A publish on a topic that has an entry: the window, then the detection.
unfoldable pub count_publish : Echo → ℕ → Entry → Entry
count_publish s now e =
    if ltb (s.window_sec * 1000) (now - e.window_start)
    then record e { count = 1; window_start = now }
    else record e { count = (e.count + 1) % 65536 }

unfoldable pub flag_echo : Echo → ℕ → Entry → Entry
flag_echo s ntp_now e =
    if (e.detected_at == 0) && leb s.min_count e.count
    then record e { detected_at = ntp_now }
    else e

unfoldable pub track_known : Echo → (now ntp_now : ℕ) → Entry → Entry
unfolding count_publish flag_echo
track_known s now ntp_now e = flag_echo s ntp_now (count_publish s now e)

-- A write at the index one past the end appends: `s_count++`.
unfoldable pub put_entry : List Entry → ℕ → Entry → List Entry
put_entry [] i e = e ∷ []
put_entry (x ∷ es) zero e = e ∷ es
put_entry (x ∷ es) (suc i) e = x ∷ put_entry es i e

abbrev pub update_known : List Entry → ℕ → (Entry → Entry) → List Entry × Bool
update_known [] i f = ([], false)
update_known (e ∷ es) zero f = (f e ∷ es, ltb 0 (f e).detected_at)
update_known (e ∷ es) (suc i) f = let (es', detected) = update_known es i f in (e ∷ es', detected)

abbrev pub track_at : Echo → (now ntp_now : ℕ) → List ℕ → Option ℕ → Echo × Bool
track_at s now ntp_now topic none =
    let e = new_entry s now ntp_now topic in
    (record s { entries = put_entry s.entries (find_free_slot s.entries) e }, ltb 0 e.detected_at)
track_at s now ntp_now topic (some i) =
    let (es, detected) = update_known s.entries i (track_known s now ntp_now) in
    (record s { entries = es }, detected)

unfoldable pub echo_track : Echo → (now ntp_now : ℕ) → List ℕ → Echo × Bool
unfolding find_entry find_free_slot new_entry track_known put_entry
echo_track s now ntp_now topic =
    if s.enabled then track_at s now ntp_now topic (find_entry s.entries topic 0) else (s, false)

unfoldable pub reset_entries : List Entry → List Entry
reset_entries [] = []
reset_entries (e ∷ es) =
    record e { detected_at = 0; count = 0; window_start = 0 } ∷ reset_entries es

unfoldable pub echo_reset : Echo → Echo
unfolding reset_entries
echo_reset s = record s { entries = reset_entries s.entries }

-- `echo_detected_t`
pub record Detected : Type 0 where
  pub topic : List ℕ
  pub count : ℕ
  pub detected_at : ℕ

unfoldable pub detected_entries : List Entry → List Detected
detected_entries [] = []
detected_entries (e ∷ es) =
    if ltb 0 e.detected_at
    then record { topic = e.topic; count = e.count; detected_at = e.detected_at }
      ∷ detected_entries es
    else detected_entries es

unfoldable pub echo_get_detected : Echo → List Detected
unfolding detected_entries
echo_get_detected s = detected_entries s.entries

abbrev or_kept {ℓ} : {A : Type ℓ} → Option A → A → A
or_kept none a = a
or_kept (some b) a = b

-- What NVS holds under "echo_en", "echo_count" and "echo_window".
unfoldable pub echo_load_config : Echo → (en count window : Option ℕ) → Echo
echo_load_config s en count window =
    let enabled_of : Option ℕ → Bool = elim [ none ↦ s.enabled | some v ↦ not (v == 0) ] in
    record s {
      enabled = enabled_of en;
      min_count = or_kept count s.min_count;
      window_sec = or_kept window s.window_sec;
    }

unfoldable pub echo_init : Echo → (en count window : Option ℕ) → Echo
unfolding echo_load_config
echo_init s en count window = record (echo_load_config s en count window) { entries = [] }
