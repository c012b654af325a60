-- ===== src/Echo/Slots.antt =====
-- The table of tracked topics: at most 32 entries, one for each topic.
use mqtt_broker_esp.Prelude.{
  ℕ, zero, suc, ◌+◌, ◌≤◌, ◌<◌, ◌≡◌, ◌⊎◌, inl, inr, refl, sym, ap, ◌∙◌, subst, List, [], ◌∷◌, Bool,
  true, false, ◌&&◌, length, take-all, ltb, ◌==◌, bytes_eq, bytes_eq→eq, bytes_eq_refl,
  if◌then◌else◌, if-holds, Option, none, some, All, arith, Bool-cases,
}
use mqtt_broker_esp.Echo.{
  Entry, Echo, max_topics, max_topic_len, find_entry, oldest_undetected, oldest_detected,
  or_detected, drop_first, first_detected_at, find_free_slot, new_entry, track_known, put_entry,
  update_known, track_at, echo_track, int64_max,
}

-- `find_entry` would not take the entry for the topic.
abbrev pub IsOther : List ℕ → Entry → Type 0
IsOther topic e = ((e.topic_len == length topic) && bytes_eq e.topic topic) ≡ false

abbrev pub IsExact : Entry → Type 0
IsExact e = (e.topic_len ≡ length e.topic) × (e.topic_len ≤ max_topic_len)

-- No topic has two entries.
abbrev pub IsDistinct : List Entry → Type 0
IsDistinct [] = Unit
IsDistinct (e ∷ es) = All (IsOther e.topic) es × IsDistinct es

pub record IsValid (s : Echo) : Type 0 where
  pub few : length s.entries ≤ max_topics
  pub exact : All IsExact s.entries
  pub distinct : IsDistinct s.entries

find_entry-none :
    (es : List Entry) (topic : List ℕ) (i : ℕ)
    → find_entry es topic i ≡ none
    → All (IsOther topic) es
unfolding find_entry
find_entry-none [] topic i f = tt
find_entry-none (e ∷ es) topic i f = ground (arith, find_entry-none es topic (i + 1))

oldest_undetected-in :
    (es : List Entry) (i : ℕ) (found : Option ℕ) (best n : ℕ) (k : ℕ)
    → i + length es ≤ n
    → ((j : ℕ) → found ≡ some j → j < n)
    → oldest_undetected es i found best ≡ some k
    → k < n
unfolding oldest_undetected
oldest_undetected-in [] i found best n k h hf e = hf k e
oldest_undetected-in (x ∷ es) i found best n k h hf e =
    oldest_undetected-in es (i + 1) _ _ n k (omega arith) (λ j. better j) e
  where
    better :
        (j : ℕ)
        → (if (x.detected_at == 0) && ltb x.window_start best then some i else found) ≡ some j
        → j < n
    better j = ground (arith, hf j)

oldest_detected-in :
    (es : List Entry) (i found best n : ℕ)
    → i + length es ≤ n
    → found < n
    → oldest_detected es i found best < n
unfolding oldest_detected
oldest_detected-in [] i found best n h hf = hf
oldest_detected-in (x ∷ es) i found best n h hf =
    oldest_detected-in es (i + 1) _ _ n (omega arith) (ground arith)

length-drop_first : (es : List Entry) → 0 < length es → 1 + length (drop_first es) ≤ length es
length-drop_first [] h = h
length-drop_first (e ∷ es) h = omega arith

or_detected-in :
    (es : List Entry) (o : Option ℕ)
    → 0 < length es
    → oldest_undetected es 0 none int64_max ≡ o
    → or_detected es o < length es
or_detected-in es none h e =
    oldest_detected-in (drop_first es) 1 0 (first_detected_at es) (length es)
      (length-drop_first es h) h
or_detected-in es (some k) h e =
    oldest_undetected-in es 0 none int64_max (length es) k (omega arith) (λ j f. absurd (cc)) e

-- The slot for a new topic is a used entry, or the next one where the table is not full.
pub find_free_slot-in :
    (es : List Entry)
    → length es ≤ max_topics
    → (find_free_slot es < max_topics) × (find_free_slot es ≤ length es)
unfolding find_free_slot
find_free_slot-in es h = elim (Bool-cases (ltb (length es) max_topics)) [
  | inl more ↦ rw more (ground arith, omega arith)
  | inr full ↦
      let used = or_detected-in es (oldest_undetected es 0 none int64_max) (ground arith) refl in
      rw full (omega (arith, used), omega (arith, used))
]

length-put_entry :
    (es : List Entry) (i : ℕ) (e : Entry)
    → i ≤ length es
    → i < max_topics
    → length es ≤ max_topics
    → length (put_entry es i e) ≤ max_topics
unfolding put_entry
length-put_entry es i e hi hm hl = omega (arith, general es i hi)
  where
    general :
        (es : List Entry) (i : ℕ)
        → i ≤ length es
        → (length (put_entry es i e) ≤ length es) ⊎ (length (put_entry es i e) ≡ i + 1)
    general [] i h = inr (omega arith)
    general (x ∷ es) zero h = inl (omega arith)
    general (x ∷ es) (suc i) h = omega (arith, general es i (omega arith))

-- A new entry for a topic that has none.
module _ (topic : List ℕ) (e : Entry) (he : e.topic ≡ topic) (hx : IsExact e) where
  IsOther-sym : (x : Entry) → IsExact x → IsOther topic x → IsOther x.topic e
  IsOther-sym x ex o = elim (Bool-cases (bytes_eq e.topic x.topic)) [
    | inr differs ↦ ground arith
    | inl same ↦
        let eq : x.topic ≡ topic = sym (bytes_eq→eq e.topic x.topic same) ∙ he in
        let yes_it_is : bytes_eq x.topic topic ≡ true = rw eq (bytes_eq_refl topic) in
        absurd (ground (arith, ex, ap length eq, o, yes_it_is))
  ]

  put-Others :
      (t : List ℕ) (es : List Entry) (i : ℕ)
      → All (IsOther t) es
      → IsOther t e
      → All (IsOther t) (put_entry es i e)
  unfolding put_entry
  put-Others t [] i h o = (o, tt)
  put-Others t (x ∷ es) zero h o = (o, h.1)
  put-Others t (x ∷ es) (suc i) h o = (h.0, put-Others t es i h.1 o)

  put-Exact : (es : List Entry) (i : ℕ) → All IsExact es → All IsExact (put_entry es i e)
  unfolding put_entry
  put-Exact [] i h = (hx, tt)
  put-Exact (x ∷ es) zero h = (hx, h.1)
  put-Exact (x ∷ es) (suc i) h = (h.0, put-Exact es i h.1)

  put-IsDistinct :
      (es : List Entry) (i : ℕ)
      → All IsExact es
      → All (IsOther topic) es
      → IsDistinct es
      → IsDistinct (put_entry es i e)
  unfolding put_entry
  put-IsDistinct [] i x o d = (tt, tt)
  put-IsDistinct (y ∷ es) zero x o d = (subst (λ t. All (IsOther t) es) (sym he) o.1, d.1)
  put-IsDistinct (y ∷ es) (suc i) x o d =
      (put-Others y.topic es i d.0 (IsOther-sym y x.0 o.0), put-IsDistinct es i x.1 o.1 d.1)

-- Tracking a publish changes no topic.
module _ (f : Entry → Entry)
    (keeps : (e : Entry) → ((f e).topic ≡ e.topic) × ((f e).topic_len ≡ e.topic_len)) where
  update-Others :
      (t : List ℕ) (es : List Entry) (i : ℕ)
      → All (IsOther t) es
      → All (IsOther t) (update_known es i f).0
  update-Others t [] i h = tt
  update-Others t (e ∷ es) zero h = (rw ((keeps e).0, (keeps e).1) h.0, h.1)
  update-Others t (e ∷ es) (suc i) h = (h.0, update-Others t es i h.1)

  update-IsValid :
      (es : List Entry) (i : ℕ)
      → All IsExact es
      → IsDistinct es
      → (All IsExact (update_known es i f).0)
        × IsDistinct (update_known es i f).0
        × (length (update_known es i f).0 ≡ length es)
  update-IsValid [] i x d = (tt, tt, refl)
  update-IsValid (e ∷ es) zero x d = (
    (rw ((keeps e).0, (keeps e).1) x.0, x.1),
    (subst (λ t. All (IsOther t) es) (sym (keeps e).0) d.0, d.1),
    refl,
  )
  update-IsValid (e ∷ es) (suc i) x d =
      let (x', d', l') = update-IsValid es i x.1 d.1 in
      ((x.0, x'), (update-Others e.topic es i d.0, d'), ap suc l')

track_known-topic :
    (s : Echo) (now ntp_now : ℕ) (e : Entry)
    → ((track_known s now ntp_now e).topic ≡ e.topic)
      × ((track_known s now ntp_now e).topic_len ≡ e.topic_len)
unfolding track_known
track_known-topic s now ntp_now e = ground arith

-- Tracking a publish on a topic of at most 128 bytes keeps a well-formed table so: at most 32
-- entries, each with its exact topic, and one for each topic.
pub echo_track-IsValid :
    (s : Echo) (now ntp_now : ℕ) (topic : List ℕ)
    → length topic ≤ max_topic_len
    → IsValid s
    → IsValid (echo_track s now ntp_now topic).0
unfolding echo_track
echo_track-IsValid s now ntp_now topic ht v =
    if-holds {A = Echo × Bool} (λ r. IsValid r.0) s.enabled (λ _. tracked _ refl) (λ _. v)
  where
    tracked :
        (o : Option ℕ)
        → find_entry s.entries topic 0 ≡ o
        → IsValid (track_at s now ntp_now topic o).0
    tracked none f =
        let e = new_entry s now ntp_now topic in
        let whole : e.topic ≡ topic = take-all max_topic_len topic ht in
        let exact : IsExact e = (ap length (sym whole), ht) in
        let slot = find_free_slot-in s.entries v.few in
        record {
          few = length-put_entry s.entries (find_free_slot s.entries) e slot.1 slot.0 v.few;
          exact = put-Exact topic e whole exact s.entries (find_free_slot s.entries) v.exact;
          distinct =
              put-IsDistinct topic e whole exact s.entries (find_free_slot s.entries) v.exact
                (find_entry-none s.entries topic 0 f) v.distinct;
        }
    tracked (some i) f =
        let u =
          update-IsValid (track_known s now ntp_now) (track_known-topic s now ntp_now) s.entries i
            v.exact v.distinct in
        record { few = omega (arith, u.2, v.few); exact = u.0; distinct = u.1 }
