-- ===== src/Ntp/Rate.antt =====
-- main/ntp.c: the table of recent sources of the SNTP server and its limit on requests.
use mqtt_broker_esp.Prelude.{
  ℕ, suc, zero, ◌+◌, ◌-◌, ◌*◌, ◌^◌, ◌%◌, List, [], ◌∷◌, replicate, Bool, true, false, not, ◌&&◌,
  ltb, leb, ◌==◌, if◌then◌else◌, Option, none, some, get_or, set,
}

abbrev pub rate_per_sec : ℕ
rate_per_sec = 10

abbrev pub rate_window_ms : ℕ
rate_window_ms = 1000

-- `ntp_rate_entry_t`
pub record RateEntry : Type 0 where
  pub addr : ℕ
  pub last_ms : ℕ
  pub count : ℕ
  pub total : ℕ

abbrev pub free_entry : RateEntry
free_entry = record { addr = 0; last_ms = 0; count = 0; total = 0 }

abbrev pub no_sources : List RateEntry
no_sources = replicate 32 free_entry

-- What the loop finds: the source's entry, or the one that it is to have.
pub data Place : Type 0 where
  found : (i : ℕ) → Place
  evict : (i : ℕ) → Place

abbrev slot_to_take : Option ℕ → ℕ → ℕ
slot_to_take none oldest_i = oldest_i
slot_to_take (some free_i) oldest_i = free_i

abbrev first_free : Option ℕ → RateEntry → ℕ → Option ℕ
first_free none e i = if e.addr == 0 then some i else none
first_free (some free_i) e i = some free_i

-- `i` is the index of the head of the list.
unfoldable pub scan_sources :
    (addr : ℕ) → List RateEntry → (i : ℕ) (free_i : Option ℕ) (oldest_i oldest_ms : ℕ) → Place
scan_sources addr [] i free_i oldest_i oldest_ms = evict (slot_to_take free_i oldest_i)
scan_sources addr (e ∷ es) i free_i oldest_i oldest_ms =
    let older = ltb e.last_ms oldest_ms in
    let rest =
      scan_sources addr es (suc i) (first_free free_i e i) (if older then i else oldest_i)
        (if older then e.last_ms else oldest_ms) in
    if (e.addr == addr) && not (e.addr == 0) then found i else rest

-- Clears an expired window.
abbrev pub refresh : RateEntry → (now_ms : ℕ) → RateEntry
refresh e now_ms = if ltb rate_window_ms (now_ms - e.last_ms) then record e { count = 0 } else e

abbrev pub served_again : RateEntry → (now_ms : ℕ) → RateEntry
served_again e now_ms = record e {
  count = (e.count + 1) % 2 ^ 8;
  total = (e.total + 1) % 2 ^ 32;
  last_ms = now_ms;
}

-- The entry after a request of its source, and whether that is served.
abbrev pub request_of : RateEntry → (now_ms : ℕ) → Bool × RateEntry
request_of e now_ms =
    let f = refresh e now_ms in
    if leb rate_per_sec f.count then (false, f) else (true, served_again f now_ms)

abbrev pub allow_at : List RateEntry → (addr now_ms : ℕ) → Place → Bool × List RateEntry
allow_at es addr now_ms (found i) =
    let r = request_of (get_or es i free_entry) now_ms in (r.0, set es i r.1)
allow_at es addr now_ms (evict i) =
    (true, set es i (record { addr = addr; last_ms = now_ms; count = 1; total = 1 }))

unfoldable pub ntp_rate_allow : List RateEntry → (addr now_ms : ℕ) → Bool × List RateEntry
unfolding scan_sources
ntp_rate_allow es addr now_ms = allow_at es addr now_ms (scan_sources addr es 0 none 0 (2 ^ 63 - 1))

-- `ntp_recent_client_t`
pub record RecentClient : Type 0 where
  pub addr : ℕ
  pub last_us : ℕ
  pub total : ℕ

unfoldable pub ntp_get_recent_clients : List RateEntry → (max_out : ℕ) → List RecentClient
ntp_get_recent_clients [] max_out = []
ntp_get_recent_clients (e ∷ es) zero = []
ntp_get_recent_clients (e ∷ es) (suc max_out) =
    let skipped = ntp_get_recent_clients es (suc max_out) in
    let rest = ntp_get_recent_clients es max_out in
    if e.addr == 0
    then skipped
    else record { addr = e.addr; last_us = e.last_ms * 1000; total = e.total } ∷ rest
