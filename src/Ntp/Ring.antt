-- ===== src/Ntp/Ring.antt =====
-- The ring of synchronisations keeps the last eight, and the estimate is taken from the oldest and
-- the newest of them.
use mqtt_broker_esp.Prelude.{
  ℕ, zero, suc, ◌+◌, ◌-◌, ◌%◌, ◌≤◌, ◌<◌, ◌≡◌, refl, sym, ap, ◌∙◌, inl, inr, List, [], ◌∷◌, ◌++◌,
  false, length, get_or, set, drop, ltb, ◌==◌, if◌then◌else◌, arith, Option, none, ℤ, Bool-cases,
  length-append, length-set, length-drop, get_or-set_self, get_or-set_ne, get_or-append_left,
  get_or-append_last, get_or-drop, drop-append_le, drop-suc, append-nil, append_assoc, subst,
}
use mqtt_broker_esp.Ntp.{
  Sample, no_sample, Drift, no_drift, ring_size, drift_between, estimate, ntp_drift_record,
}

-- The state after synchronisations at the given readings, the oldest first.
unfoldable pub record_all : Drift → List Sample → Drift
record_all d [] = d
record_all d (x ∷ xs) = record_all (ntp_drift_record d x.mono_us x.wall_us) xs

abbrev pub last_eight : List Sample → List Sample
last_eight xs = drop (length xs - 8) xs

-- The estimate from the first and the last sample of a list.
unfoldable pub estimate_of : List Sample → Option ℤ
estimate_of xs =
    if ltb (length xs) 2
    then none
    else drift_between (get_or xs 0 no_sample) (get_or xs (length xs - 1) no_sample)

-- The ring holds the samples of the list, the oldest first.
record Holds (d : Drift) (xs : List Sample) : Type 0 where
  sized : length d.ring ≡ 8
  head_in : d.head < 8
  counted : d.count ≡ length xs
  few : length xs ≤ 8
  not_full : d.count < 8 → d.head ≡ d.count
  held :
      (i : ℕ)
      → i < length xs
      → get_or d.ring ((d.head + 8 - d.count + i) % 8) no_sample ≡ get_or xs i no_sample

abbrev push : List Sample → Sample → List Sample
push xs x = if ltb (length xs) 8 then xs ++ (x ∷ []) else drop 1 xs ++ (x ∷ [])

drop_few : (n : ℕ) (xs : List Sample) → n ≡ 0 → drop n xs ≡ xs
drop_few zero xs e = refl
drop_few (suc n) xs e = absurd (omega arith)

last_eight_few : (xs : List Sample) → length xs ≤ 8 → last_eight xs ≡ xs
last_eight_few xs h = drop_few (length xs - 8) xs (omega arith)

push_few : (xs : List Sample) (x : Sample) → length xs < 8 → push xs x ≡ xs ++ (x ∷ [])
push_few xs x h = ground arith

push_many : (xs : List Sample) (x : Sample) → 8 ≤ length xs → push xs x ≡ drop 1 xs ++ (x ∷ [])
push_many xs x h = ground arith

last_eight-snoc :
    (ys : List Sample) (x : Sample) → last_eight (ys ++ (x ∷ [])) ≡ push (last_eight ys) x
last_eight-snoc ys x = elim (Bool-cases (ltb (length ys) 8)) [
  | inl few ↦
      last_eight_few (ys ++ (x ∷ [])) (ground (arith, length-append ys (x ∷ [])))
      ∙ sym (push_few ys x (ground arith))
      ∙ ap (λ zs. push zs x) (sym (last_eight_few ys (ground arith)))
  | inr many ↦
      ap (λ n. drop n (ys ++ (x ∷ []))) {y = suc (length ys - 8)}
        (ground (arith, length-append ys (x ∷ [])))
      ∙ drop-append_le (suc (length ys - 8)) ys (x ∷ []) (ground arith)
      ∙ ap (λ zs. zs ++ (x ∷ [])) (drop-suc (length ys - 8) ys)
      ∙ sym (push_many (last_eight ys) x (ground (arith, length-drop (length ys - 8) ys)))
]

-- The entry of a sample of the list.
abbrev entry_of : Drift → ℕ → ℕ
entry_of d i = (d.head + 8 - d.count + i) % 8

at : (ring : List Sample) (i j : ℕ) → i ≡ j → get_or ring i no_sample ≡ get_or ring j no_sample
at ring i j e = ap (λ k. get_or ring k no_sample) e

Holds-record_few :
    (d : Drift) (xs : List Sample) (x : Sample)
    → Holds d xs
    → length xs < 8
    → Holds (ntp_drift_record d x.mono_us x.wall_us) (xs ++ (x ∷ []))
unfolding ntp_drift_record
Holds-record_few d xs x v h =
    let c = v.counted in
    let n = v.not_full (omega arith) in
    let ring = set d.ring d.head x in
    let len = length-append xs (x ∷ []) in
    record {
      sized = length-set d.ring d.head x ∙ v.sized;
      head_in = ground arith;
      counted = ground (arith, len);
      few = ground (arith, len);
      not_full = λ k. ground arith;
      held = λ i k. elim (Bool-cases (ltb i (length xs))) [
        | inl old ↦
            at ring _ i (ground arith)
            ∙ get_or-set_ne d.ring d.head i x no_sample (ground arith)
            ∙ at d.ring i (entry_of d i) (ground arith)
            ∙ v.held i (ground arith)
            ∙ sym (get_or-append_left xs (x ∷ []) i no_sample (ground arith))
        | inr new ↦
            at ring _ d.head (ground (arith, len))
            ∙ get_or-set_self d.ring d.head x no_sample (ground (arith, v.sized))
            ∙ sym (get_or-append_last xs x i no_sample (ground (arith, len)))
      ];
    }

Holds-record_many :
    (d : Drift) (xs : List Sample) (x : Sample)
    → Holds d xs
    → length xs ≡ 8
    → Holds (ntp_drift_record d x.mono_us x.wall_us) (drop 1 xs ++ (x ∷ []))
unfolding ntp_drift_record
Holds-record_many d xs x v h =
    let c = v.counted in
    let b = v.head_in in
    let ring = set d.ring d.head x in
    let one = length-drop 1 xs in
    let len = length-append (drop 1 xs) (x ∷ []) in
    record {
      sized = length-set d.ring d.head x ∙ v.sized;
      head_in = ground arith;
      counted = ground (arith, len, one);
      few = ground (arith, len, one);
      not_full = λ k. ground arith;
      held = λ i k. elim (Bool-cases (ltb i 7)) [
        | inl old ↦
            at ring _ (entry_of d (1 + i)) (ground arith)
            ∙ get_or-set_ne d.ring d.head (entry_of d (1 + i)) x no_sample (ground arith)
            ∙ v.held (1 + i) (ground arith)
            ∙ sym (get_or-drop 1 xs i no_sample)
            ∙ sym (get_or-append_left (drop 1 xs) (x ∷ []) i no_sample (ground (arith, one)))
        | inr new ↦
            at ring _ d.head (ground (arith, len, one))
            ∙ get_or-set_self d.ring d.head x no_sample (ground (arith, v.sized))
            ∙ sym (get_or-append_last (drop 1 xs) x i no_sample (ground (arith, len, one)))
      ];
    }

Holds-record :
    (d : Drift) (xs : List Sample) (x : Sample)
    → Holds d xs
    → Holds (ntp_drift_record d x.mono_us x.wall_us) (push xs x)
Holds-record d xs x v = elim (Bool-cases (ltb (length xs) 8)) [
  | inl few ↦ rw (push_few xs x (ground arith)) (Holds-record_few d xs x v (ground arith))
  | inr many ↦
      rw (push_many xs x (ground arith)) (Holds-record_many d xs x v (ground (arith, v.few)))
]

Holds-record_all :
    (d : Drift) (ys xs : List Sample)
    → Holds d (last_eight ys)
    → Holds (record_all d xs) (last_eight (ys ++ xs))
unfolding record_all
Holds-record_all d ys [] v = rw (append-nil ys) v
Holds-record_all d ys (x ∷ xs) v =
    subst (λ zs. Holds (record_all d (x ∷ xs)) (last_eight zs)) (append_assoc ys (x ∷ []) xs)
      (Holds-record_all (ntp_drift_record d x.mono_us x.wall_us) (ys ++ (x ∷ [])) xs
        (rw (last_eight-snoc ys x) (Holds-record d (last_eight ys) x v)))

no_drift-Holds : Holds no_drift []
no_drift-Holds = record {
  sized = refl;
  head_in = omega arith;
  counted = refl;
  few = omega arith;
  not_full = λ k. refl;
  held = λ i k. absurd (omega arith);
}

-- The stored estimate is the one of the ring.
ppm-record_all :
    (d : Drift) (xs : List Sample)
    → d.ppm ≡ estimate d.ring d.head d.count
    → (record_all d xs).ppm
      ≡ estimate (record_all d xs).ring (record_all d xs).head (record_all d xs).count
unfolding record_all ntp_drift_record
ppm-record_all d [] e = e
ppm-record_all d (x ∷ xs) e = ppm-record_all (ntp_drift_record d x.mono_us x.wall_us) xs refl

held_at :
    (d : Drift) (xs : List Sample) (i j : ℕ)
    → Holds d xs
    → i < length xs
    → (d.count < 8 → d.head ≡ d.count → j ≡ i)
    → (d.count ≡ 8 → j ≡ (d.head + i) % 8)
    → get_or d.ring j no_sample ≡ get_or xs i no_sample
held_at d xs i j v k partly full =
    let c = v.counted in
    elim (Bool-cases (ltb d.count 8)) [
      | inl few ↦
          let n = v.not_full (ground arith) in
          let e = partly (ground arith) n in
          at d.ring j (entry_of d i) (ground (arith, v.few)) ∙ v.held i k
      | inr many ↦
          let e = full (ground (arith, v.few)) in
          at d.ring j (entry_of d i) (ground (arith, v.few)) ∙ v.held i k
    ]

estimate-Holds :
    (d : Drift) (xs : List Sample) → Holds d xs → estimate d.ring d.head d.count ≡ estimate_of xs
unfolding estimate estimate_of
estimate-Holds d xs v =
    let c = v.counted in
    let newest = (d.head + ring_size - 1) % ring_size in
    let oldest = if d.count == ring_size then d.head else 0 in
    elim (Bool-cases (ltb (length xs) 2)) [
      | inl short ↦ rw (c, short) refl
      | inr long ↦
          let first =
            held_at d xs 0 oldest v (ground arith) (λ k e. ground arith)
              (λ e. ground (arith, v.head_in)) in
          let last =
            held_at d xs (length xs - 1) newest v (ground arith) (λ k e. ground arith)
              (λ e. ground (arith, v.head_in)) in
          let counted : ltb d.count 2 ≡ false = ground arith in rw (counted, long, first, last) refl
    ]

-- The drift estimate after any synchronisations from the initial state, in a ring of eight entries
-- that are written in turn, is the one from the first and the last of the last eight samples, and
-- none when there are fewer than two samples or the timer advanced less than a minute between
-- those.
pub ntp_drift_record-last_eight :
    (xs : List Sample) → (record_all no_drift xs).ppm ≡ estimate_of (last_eight xs)
unfolding estimate
ntp_drift_record-last_eight xs =
    ppm-record_all no_drift xs refl
    ∙ estimate-Holds (record_all no_drift xs) (last_eight xs)
        (Holds-record_all no_drift [] xs no_drift-Holds)
