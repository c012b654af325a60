-- ===== src/Ntp/Steady.antt =====
-- The limit of the SNTP server against a source that asks at a steady, low rate.
use mqtt_broker_esp.Prelude.{
  ℕ, suc, zero, ◌+◌, ◌-◌, ◌≤◌, ◌<◌, ◌≡◌, ◌≢◌, refl, subst, ap, ◌∙◌, List, [], ◌∷◌, length, Bool,
  true, false, not, ◌&&◌, ◌==◌, Option, none, get_or, arith, get_or-set_self, get_or-set_ne,
  length-set, All,
}
use mqtt_broker_esp.Ntp.Rate.{
  RateEntry, free_entry, found, scan_sources, served_again, request_of, allow_at, ntp_rate_allow,
}

-- The source's entry is the k-th, with the count and the time of its last served request.
pub record Has (es : List RateEntry) (addr k count last_ms : ℕ) : Type 0 where
  pub inside : k < length es
  pub valid : addr ≢ 0
  pub its : (get_or es k free_entry).addr ≡ addr
  pub before : (j : ℕ) → j < k → (get_or es j free_entry).addr ≢ addr
  pub counted : (get_or es k free_entry).count ≡ count
  pub last : (get_or es k free_entry).last_ms ≡ last_ms

scan-found :
    (addr : ℕ) (es : List RateEntry) (k i : ℕ) (free_i : Option ℕ) (oldest_i oldest_ms : ℕ)
    → addr ≢ 0
    → k < length es
    → (get_or es k free_entry).addr ≡ addr
    → ((j : ℕ) → j < k → (get_or es j free_entry).addr ≢ addr)
    → scan_sources addr es i free_i oldest_i oldest_ms ≡ found (i + k)
unfolding scan_sources
scan-found addr [] k i free_i oldest_i oldest_ms n h e b = absurd (omega arith)
scan-found addr (x ∷ es) zero i free_i oldest_i oldest_ms n h e b = ground arith
scan-found addr (x ∷ es) (suc k) i free_i oldest_i oldest_ms n h e b =
    let other = b 0 (omega arith) in
    let test : ((x.addr == addr) && not (x.addr == 0)) ≡ false = ground (arith, other) in
    rw test (
      scan-found addr es k (suc i) _ _ _ n (omega arith) e (λ j l. b (suc j) (omega arith))
      ∙ ap found (omega arith))

-- The requests of the source after the given gaps, in milliseconds, the first one after `now_ms`.
unfoldable pub request_all : List RateEntry → (addr now_ms : ℕ) → List ℕ → Bool × List RateEntry
request_all es addr now_ms [] = (true, es)
request_all es addr now_ms (g ∷ []) = ntp_rate_allow es addr (now_ms + g)
request_all es addr now_ms (g ∷ h ∷ gs) =
    request_all (ntp_rate_allow es addr (now_ms + g)).1 addr (now_ms + g) (h ∷ gs)

allow-Has :
    (es : List RateEntry) (addr k count last_ms now_ms : ℕ)
    → Has es addr k count last_ms
    → ntp_rate_allow es addr now_ms ≡ allow_at es addr now_ms (found k)
unfolding ntp_rate_allow
allow-Has es addr k count last_ms now_ms v =
    ap (allow_at es addr now_ms)
      (scan-found addr es k 0 none 0 _ v.valid v.inside v.its v.before ∙ ap found (omega arith))

request-served :
    (e : RateEntry) (now_ms : ℕ)
    → now_ms - e.last_ms ≤ 1000
    → e.count < 10
    → request_of e now_ms ≡ (true, served_again e now_ms)
request-served e now_ms h c = ground arith

request-refused :
    (e : RateEntry) (now_ms : ℕ)
    → now_ms - e.last_ms ≤ 1000
    → 10 ≤ e.count
    → request_of e now_ms ≡ (false, e)
request-refused e now_ms h c = ground arith

allow-served :
    (es : List RateEntry) (addr k count last_ms g : ℕ)
    → Has es addr k count last_ms
    → g ≤ 1000
    → count < 10
    → Has (ntp_rate_allow es addr (last_ms + g)).1 addr k (suc count) (last_ms + g)
allow-served es addr k count last_ms g v h c =
    let e = get_or es k free_entry in
    let now = last_ms + g in
    let last = v.last in
    let counted = v.counted in
    let next = request-served e now (ground arith) (ground arith) in
    let new = get_or-set_self es k (served_again e now) free_entry v.inside in
    rw (allow-Has es addr k count last_ms now v, next)
      record {
        inside = ground (arith, length-set es k (served_again e now), v.inside);
        valid = v.valid;
        its = ap (λ x. x.addr) new ∙ v.its;
        before = λ j l.
            rw (get_or-set_ne es k j (served_again e now) free_entry (omega arith)) (v.before j l);
        counted = ap (λ x. x.count) new ∙ (ground arith);
        last = ap (λ x. x.last_ms) new;
      }

allow-refused :
    (es : List RateEntry) (addr k last_ms g : ℕ)
    → Has es addr k 10 last_ms
    → g ≤ 1000
    → (ntp_rate_allow es addr (last_ms + g)).0 ≡ false
allow-refused es addr k last_ms g v h =
    let e = get_or es k free_entry in
    let last = v.last in
    let counted = v.counted in
    rw
      (
        allow-Has es addr k 10 last_ms (last_ms + g) v,
        request-refused e (last_ms + g) (ground arith) (ground arith),
      )
      refl

-- A source that has an entry with a count of at most ten, and whose requests come with gaps of at
-- most 1000 ms, is refused at the request that would be its eleventh.
pub request_all-steady :
    (es : List RateEntry) (addr k count last_ms : ℕ) (gs : List ℕ)
    → Has es addr k count last_ms
    → All (λ g. g ≤ 1000) gs
    → count + length gs ≡ 11
    → count ≤ 10
    → (request_all es addr last_ms gs).0 ≡ false
unfolding request_all
request_all-steady es addr k count last_ms [] v h c d = absurd (omega arith)
request_all-steady es addr k count last_ms (g ∷ []) v h c d =
    allow-refused es addr k last_ms g (subst (λ c. Has es addr k c last_ms) (omega arith) v) h.0
request_all-steady es addr k count last_ms (g ∷ g' ∷ gs) v h c d =
    request_all-steady (ntp_rate_allow es addr (last_ms + g)).1 addr k (suc count) (last_ms + g)
      (g' ∷ gs) (allow-served es addr k count last_ms g v h.0 (omega arith)) h.1 (omega arith)
      (omega arith)
