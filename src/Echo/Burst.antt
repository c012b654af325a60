-- ===== src/Echo/Burst.antt =====
-- When a topic is flagged: the publishes of a burst are counted, and the flag stays.
use mqtt_broker_esp.Prelude.{
  ℕ, ◌+◌, ◌-◌, ◌*◌, ◌≤◌, ◌<◌, ◌≡◌, refl, ap, sym, subst, map, ◌∙◌, List, [], ◌∷◌, length, ltb, leb,
  All, arith,
}
use mqtt_broker_esp.Echo.{
  Entry, Echo, track_known, reset_entries, echo_reset, detected_entries, echo_get_detected,
}

-- The entry of a topic after publishes at the given readings of the two clocks.
unfoldable pub track_all : Echo → List (ℕ × ℕ) → Entry → Entry
track_all s [] e = e
track_all s (at ∷ ats) e = track_all s ats (track_known s at.0 at.1 e)

-- The publishes fall into the window that is open, and the wall clock is set.
abbrev pub InWindow : Echo → ℕ → List (ℕ × ℕ) → Type 0
InWindow s start ats = All (λ at. (at.0 - start ≤ s.window_sec * 1000) × (0 < at.1)) ats

-- A topic that is flagged stays flagged, with the time of the first detection, whatever is
-- published when.
pub track_all-flagged :
    (s : Echo) (ats : List (ℕ × ℕ)) (e : Entry)
    → 0 < e.detected_at
    → (track_all s ats e).detected_at ≡ e.detected_at
unfolding track_all track_known
track_all-flagged s [] e h = refl
track_all-flagged s (at ∷ ats) e h =
    track_all-flagged s ats (track_known s at.0 at.1 e) (ground arith) ∙ ground arith

-- One publish in the open window.
track_known-window :
    (s : Echo) (now ntp_now : ℕ) (e : Entry)
    → now - e.window_start ≤ s.window_sec * 1000
    → 0 < ntp_now
    → e.count + 1 < 65536
    → (0 < e.detected_at → s.min_count ≤ e.count)
    → ((track_known s now ntp_now e).window_start ≡ e.window_start)
      × ((track_known s now ntp_now e).count ≡ e.count + 1)
      × (ltb 0 (track_known s now ntp_now e).detected_at ≡ leb s.min_count (e.count + 1))
unfolding track_known
track_known-window s now ntp_now e hw hn hc hd = ground arith

InWindow-start :
    (s : Echo) (a b : ℕ) (ats : List (ℕ × ℕ)) → b ≡ a → InWindow s a ats → InWindow s b ats
InWindow-start s a b ats e h = subst (λ w. InWindow s w ats) (sym e) h

track_all-counts :
    (s : Echo) (ats : List (ℕ × ℕ)) (e : Entry)
    → InWindow s e.window_start ats
    → ltb 0 e.detected_at ≡ leb s.min_count e.count
    → e.count + length ats < 65536
    → ((track_all s ats e).count ≡ e.count + length ats)
      × (ltb 0 (track_all s ats e).detected_at ≡ leb s.min_count (e.count + length ats))
unfolding track_all track_known
track_all-counts s [] e h hd hc = (omega arith, ground arith)
track_all-counts s (at ∷ ats) e h hd hc =
    let st = track_known-window s at.0 at.1 e h.0.0 h.0.1 (omega arith) (λ p. ground arith) in
    let e' = track_known s at.0 at.1 e in
    let ih =
      track_all-counts s ats e' (InWindow-start s e.window_start e'.window_start ats st.0 h.1)
        (rw st.1 st.2) (omega (arith, st.1)) in
    (omega (arith, ih.0, st.1), rw st.1 at ih.1 ∙ ap (leb s.min_count) (omega arith))

-- Further publishes in the open window, on a topic not yet flagged, at times when the wall clock
-- does not read 0, and without an overflow of the 16-bit count: the count grows by their number,
-- and the topic is flagged exactly when the count has reached the minimum.
pub track_all_burst :
    (s : Echo) (at : ℕ × ℕ) (ats : List (ℕ × ℕ)) (e : Entry)
    → InWindow s e.window_start (at ∷ ats)
    → e.detected_at ≡ 0
    → e.count + length (at ∷ ats) < 65536
    → ((track_all s (at ∷ ats) e).count ≡ e.count + length (at ∷ ats))
      × (ltb 0 (track_all s (at ∷ ats) e).detected_at
          ≡ leb s.min_count (e.count + length (at ∷ ats)))
unfolding track_all track_known
track_all_burst s at ats e h hd hc =
    let st =
      track_known-window s at.0 at.1 e h.0.0 h.0.1 (omega arith) (λ p. absurd (omega arith)) in
    let e' = track_known s at.0 at.1 e in
    let rest =
      track_all-counts s ats e' (InWindow-start s e.window_start e'.window_start ats st.0 h.1)
        (rw st.1 st.2) (omega (arith, st.1)) in
    (omega (arith, rest.0, st.1), (rw st.1 at rest.1) ∙ ap (leb s.min_count) (omega arith))

reset_entries-none : (es : List Entry) → detected_entries (reset_entries es) ≡ []
unfolding reset_entries detected_entries
reset_entries-none [] = refl
reset_entries-none (e ∷ es) = reset_entries-none es

-- After a reset the list of detected topics is empty, and the tracked topics are those of before.
pub echo_reset_lem :
    (s : Echo)
    → (echo_get_detected (echo_reset s) ≡ [])
      × (map (λ (e : Entry). e.topic) (echo_reset s).entries
          ≡ map (λ (e : Entry). e.topic) s.entries)
unfolding echo_get_detected echo_reset
echo_reset_lem s = (reset_entries-none s.entries, topics s.entries)
  where
    topics :
        (es : List Entry)
        → map (λ (e : Entry). e.topic) (reset_entries es) ≡ map (λ (e : Entry). e.topic) es
    topics [] = refl
    topics (e ∷ es) = ap (λ ts. e.topic ∷ ts) (topics es)
