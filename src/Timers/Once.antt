-- ===== src/Timers/Once.antt =====
-- The sweep of main/timers.c publishes a slot at most once in a minute of UTC.
use mqtt_broker_esp.Prelude.{
  ℕ, zero, suc, ◌+◌, ◌*◌, ◌/◌, ◌≤◌, ◌<◌, ◌≡◌, ◌≢◌, refl, sym, ap, subst, ◌∙◌, List, length, get_or,
  set, Bool, true, false, not, ◌&&◌, ◌||◌, ltb, ◌==◌, if-holds, Option, none, some, ℤ, pos, ◌+ℤ◌,
  arith, Bool-cases, Option-cases, ◌⊎◌, inl, inr, length-set, get_or-set_self, get_or-set_ne,
}
use mqtt_broker_esp.Timers.{Slot, empty_slot}
use mqtt_broker_esp.Timers.Blob.{Config, serialize_blob}
use mqtt_broker_esp.Timers.Store.{
  Timers, slot_at, put_slot_at, Nvs, save_to_nvs_locked, fire_slot_locked, EspErr,
}
use mqtt_broker_esp.Timers.Schedule.{
  LocalTime, is_yday, refresh_jitter, is_minute, is_scheduled, fire, sweep_slot, sweep_from, sweep,
}

-- What the sweep reads of a slot.
pub record View : Type 0 where
  pub slot : Slot
  pub yday : Option ℕ
  pub jitter : ℤ
  pub last : ℕ

-- The part of the state that a sweep reads.
pub record Swept : Type 0 where
  pub config : Config
  pub jitter_yday : List (Option ℕ)
  pub jitter_minutes : List ℤ
  pub last_fire_utc_min : List ℕ

abbrev pub frame : Timers → Swept
frame t = record {
  config = t.config;
  jitter_yday = t.jitter_yday;
  jitter_minutes = t.jitter_minutes;
  last_fire_utc_min = t.last_fire_utc_min;
}

abbrev pub frame_view : Swept → ℕ → View
frame_view t i = record {
  slot = get_or t.config.slots i empty_slot;
  yday = get_or t.jitter_yday i none;
  jitter = get_or t.jitter_minutes i (pos 0);
  last = get_or t.last_fire_utc_min i 0;
}

abbrev pub view : Timers → ℕ → View
view t i = frame_view (frame t) i

abbrev pub is_due : View → LocalTime → Bool
is_due v lt = is_minute (pos v.slot.minute_of_day +ℤ v.jitter) (lt.hour * 60 + lt.min)

-- The slot is not for this day, or its jitter is known and its minute is another one or was served.
abbrev pub settled : View → (now_utc_min : ℕ) → LocalTime → Bool
settled v m lt =
    not (is_scheduled v.slot lt) || is_yday v.yday lt.yday && (not (is_due v lt) || (v.last == m))

of_negated : (b : Bool) → not b ≡ true → b ≡ false
of_negated true e = cc
of_negated false e = refl

settled_parts :
    (a b c d : Bool)
    → (not a || b && (not c || d)) ≡ true
    → a ≡ true
    → (b ≡ true) × ((c ≡ false) ⊎ (d ≡ true))
settled_parts false b c d h e = absurd (cc)
settled_parts true false c d h e = absurd (cc)
settled_parts true true false d h e = (refl, inl refl)
settled_parts true true true d h e = (refl, inr h)

settled_from :
    (a b c d : Bool) → b ≡ true → (c ≡ false) ⊎ (d ≡ true) → (not a || b && (not c || d)) ≡ true
settled_from false b c d e h = refl
settled_from true false c d e h = e
settled_from true true false d e h = refl
settled_from true true true d e (inl h) = absurd (cc)
settled_from true true true d e (inr h) = h

settled-sweep_slot :
    (t : Timers) (m : ℕ) (lt : LocalTime) (nvs : Nvs) (i : ℕ)
    → settled (view t i) m lt ≡ true
    → sweep_slot t m lt nvs i ≡ t
unfolding sweep_slot
settled-sweep_slot t m lt nvs i h = elim (Bool-cases (is_scheduled (slot_at t i) lt)) [
  | inr off ↦ rw off refl
  | inl on ↦
      let v = view t i in
      let parts =
        settled_parts (is_scheduled v.slot lt) (is_yday v.yday lt.yday) (is_due v lt) (v.last == m)
          h on in
      elim parts.1 [
        | inl early ↦ rw (on, parts.0, early) refl
        | inr served ↦
            rw (on, parts.0, served)
              (if-holds (λ u. u ≡ t) (not (is_due v lt)) (λ _. refl) (λ _. refl))
      ]
]

abbrev pub HasSwept : Swept → Timers × EspErr → Type 0
HasSwept f r = frame r.0 ≡ f

-- A save changes nothing that a sweep reads, and neither does a publish.
frame-save_to_nvs_locked : (t : Timers) (nvs : Nvs) → frame (save_to_nvs_locked t nvs).0 ≡ frame t
unfolding save_to_nvs_locked
frame-save_to_nvs_locked t nvs =
    let same = HasSwept (frame t) in
    if-holds same nvs.allocated
      (λ _. elim (Option-cases (serialize_blob 5120 t.config)) [
        | inl overflow ↦ rw overflow refl
        | inr (text, fits) ↦ rw fits (
            if-holds same (not nvs.opened) (λ _. refl)
              (λ _. if-holds same nvs.done (λ _. refl) (λ _. refl)))
      ])
      (λ _. refl)

pub frame-fire_slot_locked : (t : Timers) (i : ℕ) → frame (fire_slot_locked t i) ≡ frame t
unfolding fire_slot_locked
frame-fire_slot_locked t i = if-holds (λ u. frame u ≡ frame t) _ (λ _. refl) (λ _. refl)

abbrev pub fired_frame : Swept → (m i : ℕ) → Slot → Swept
fired_frame f m i s = record f {
  config = record f.config { slots = set f.config.slots i s };
  last_fire_utc_min = set f.last_fire_utc_min i m;
}

-- A slot that repeats is left as it is, and any other is disarmed.
frame-fire :
    (t : Timers) (m i : ℕ) (nvs : Nvs)
    → (frame (fire t m i nvs)
        ≡ record (frame t) { last_fire_utc_min = set t.last_fire_utc_min i m })
      ⊎ (frame (fire t m i nvs) ≡ fired_frame (frame t) m i (record (slot_at t i) { arm = false }))
unfolding fire
frame-fire t m i nvs =
    let u = record t { last_fire_utc_min = set t.last_fire_utc_min i m } in
    let s = slot_at t i in
    let fired = fire_slot_locked u i in
    let disarmed = record s { arm = false } in
    if-holds
      (λ w.
        (frame w ≡ record (frame t) { last_fire_utc_min = set t.last_fire_utc_min i m })
        ⊎ (frame w ≡ fired_frame (frame t) m i disarmed))
      s.repeat (λ _. inl (frame-fire_slot_locked u i))
      (λ _. inr (
        frame-save_to_nvs_locked (put_slot_at fired i disarmed) nvs
        ∙ ap
            (λ (f : Swept). record f {
              config = record f.config { slots = set f.config.slots i disarmed };
            })
            (frame-fire_slot_locked u i)))

-- The lists have an entry for each slot.
pub record IsSized (f : Swept) : Type 0 where
  pub slots : length f.config.slots ≡ 16
  pub ydays : length f.jitter_yday ≡ 16
  pub jitters : length f.jitter_minutes ≡ 16
  pub lasts : length f.last_fire_utc_min ≡ 16

module _ (m : ℕ) (lt : LocalTime) (nvs : Nvs) where
  fire-IsSized : (t : Timers) (i : ℕ) → IsSized (frame t) → IsSized (frame (fire t m i nvs))
  fire-IsSized t i v = elim (frame-fire t m i nvs) [
    | inl again ↦ subst IsSized (sym again) (record {
      slots = v.slots;
      ydays = v.ydays;
      jitters = v.jitters;
      lasts = length-set t.last_fire_utc_min i m ∙ v.lasts;
    })
    | inr once ↦ subst IsSized (sym once) (record {
      slots = length-set t.config.slots i _ ∙ v.slots;
      ydays = v.ydays;
      jitters = v.jitters;
      lasts = length-set t.last_fire_utc_min i m ∙ v.lasts;
    })
  ]

  pub refresh_jitter-IsSized :
      (t : Timers) (i : ℕ) → IsSized (frame t) → IsSized (frame (refresh_jitter t lt i))
  refresh_jitter-IsSized t i v =
      let cached = is_yday (get_or t.jitter_yday i none) lt.yday in
      record {
        slots = v.slots;
        ydays =
            if-holds (λ xs. length xs ≡ 16) cached (λ _. v.ydays)
              (λ _. length-set t.jitter_yday i _ ∙ v.ydays);
        jitters =
            if-holds (λ xs. length xs ≡ 16) cached (λ _. v.jitters)
              (λ _. length-set t.jitter_minutes i _ ∙ v.jitters);
        lasts = v.lasts;
      }

  -- What holds of the three outcomes holds of the sweep of a slot.
  sweep_slot-cases :
      (P : Timers → Type 0) (t : Timers) (i : ℕ)
      → (is_scheduled (slot_at t i) lt ≡ false → P t)
      → (let u = refresh_jitter t lt i in is_due (view u i) lt ≡ false → P u)
      → (let u = refresh_jitter t lt i in ((view u i).last == m) ≡ true → P u)
      → P (fire (refresh_jitter t lt i) m i nvs)
      → P (sweep_slot t m lt nvs i)
  unfolding sweep_slot
  sweep_slot-cases P t i off early served due =
      let u = refresh_jitter t lt i in
      if-holds P (not (is_scheduled (slot_at t i) lt)) (λ e. off (of_negated _ e))
        λ _.
          if-holds P (not (is_due (view u i) lt)) (λ e. early (of_negated _ e))
            λ _. if-holds P ((view u i).last == m) served λ _. due

  sweep_slot-IsSized :
      (t : Timers) (i : ℕ) → IsSized (frame t) → IsSized (frame (sweep_slot t m lt nvs i))
  sweep_slot-IsSized t i v =
      let u = refresh_jitter t lt i in
      let w = refresh_jitter-IsSized t i v in
      sweep_slot-cases (λ u. IsSized (frame u)) t i (λ _. v) (λ _. w) (λ _. w) (fire-IsSized u i w)

  -- The sweep of one slot leaves the others.
  view-fire : (t : Timers) (i j : ℕ) → i ≢ j → view (fire t m i nvs) j ≡ view t j
  view-fire t i j h = elim (frame-fire t m i nvs) [
    | inl again ↦ ap (λ f. frame_view f j) again ∙ λ k. record (view t j) {
      last = get_or-set_ne t.last_fire_utc_min i j m 0 h k;
    }
    | inr once ↦ ap (λ f. frame_view f j) once ∙ λ k. record (view t j) {
      slot = get_or-set_ne t.config.slots i j (record (slot_at t i) { arm = false }) empty_slot h k;
      last = get_or-set_ne t.last_fire_utc_min i j m 0 h k;
    }
  ]

  view-refresh_jitter : (t : Timers) (i j : ℕ) → i ≢ j → view (refresh_jitter t lt i) j ≡ view t j
  view-refresh_jitter t i j h =
      let cached = is_yday (get_or t.jitter_yday i none) lt.yday in
      let day =
        if-holds (λ xs. get_or xs j none ≡ get_or t.jitter_yday j none) cached (λ _. refl)
          (λ _. get_or-set_ne t.jitter_yday i j (some lt.yday) none h) in
      let minutes =
        if-holds (λ xs. get_or xs j (pos 0) ≡ get_or t.jitter_minutes j (pos 0)) cached (λ _. refl)
          (λ _. get_or-set_ne t.jitter_minutes i j _ (pos 0) h) in
      λ k. record (view t j) { yday = day k; jitter = minutes k }

  view-sweep_slot : (t : Timers) (i j : ℕ) → i ≢ j → view (sweep_slot t m lt nvs i) j ≡ view t j
  view-sweep_slot t i j h =
      let u = refresh_jitter t lt i in
      let w = view-refresh_jitter t i j h in
      sweep_slot-cases (λ u. view u j ≡ view t j) t i (λ _. refl) (λ _. w) (λ _. w)
        (view-fire u i j h ∙ w)

  pub cached-refresh_jitter :
      (t : Timers) (i : ℕ)
      → IsSized (frame t)
      → i < 16
      → is_yday (view (refresh_jitter t lt i) i).yday lt.yday ≡ true
  cached-refresh_jitter t i v h =
      if-holds (λ xs. is_yday (get_or xs i none) lt.yday ≡ true)
        (is_yday (get_or t.jitter_yday i none) lt.yday) (λ e. e)
        (λ _.
          ap (λ d. is_yday d lt.yday)
            (get_or-set_self t.jitter_yday i (some lt.yday) none (omega (arith, v.ydays)))
          ∙ ground arith)

  fire-parts :
      (t : Timers) (i : ℕ)
      → IsSized (frame t)
      → i < 16
      → ((view (fire t m i nvs) i).yday ≡ (view t i).yday) × ((view (fire t m i nvs) i).last ≡ m)
  fire-parts t i v h =
      let set_last = get_or-set_self t.last_fire_utc_min i m 0 (omega (arith, v.lasts)) in
      elim (frame-fire t m i nvs) [
        | inl again ↦ (
          ap (λ f. get_or f.jitter_yday i none) again,
          ap (λ f. get_or f.last_fire_utc_min i 0) again ∙ set_last,
        )
        | inr once ↦ (
          ap (λ f. get_or f.jitter_yday i none) once,
          ap (λ f. get_or f.last_fire_utc_min i 0) once ∙ set_last,
        )
      ]

  -- A slot is settled once it was swept.
  sweep_slot-settled :
      (t : Timers) (i : ℕ)
      → IsSized (frame t)
      → i < 16
      → settled (view (sweep_slot t m lt nvs i) i) m lt ≡ true
  sweep_slot-settled t i v h =
      sweep_slot-cases (λ u. settled (view u i) m lt ≡ true) t i (λ off. rw off refl)
        (λ early. settled_from _ _ _ _ (cached-refresh_jitter t i v h) (inl early))
        (λ served. settled_from _ _ _ _ (cached-refresh_jitter t i v h) (inr served))
        (let u = refresh_jitter t lt i in
          let w = fire-parts u i (refresh_jitter-IsSized t i v) h in
          let last_is : ((view (fire u m i nvs) i).last == m) ≡ true = ground (arith, w.1) in
          settled_from _ _ _ _ (ap (λ d. is_yday d lt.yday) w.0 ∙ cached-refresh_jitter t i v h)
            (inr last_is))

  -- What is settled stays so through the sweep of later slots.
  sweep_from-settled :
      (t : Timers) (left i j : ℕ)
      → j < i
      → settled (view t j) m lt ≡ true
      → settled (view (sweep_from t m lt nvs left i) j) m lt ≡ true
  unfolding sweep_from
  sweep_from-settled t zero i j h e = e
  sweep_from-settled t (suc left) i j h e =
      sweep_from-settled (sweep_slot t m lt nvs i) left (suc i) j (omega arith)
        (ap (λ v. settled v m lt) (view-sweep_slot t i j (λ q. omega arith)) ∙ e)

  all_settled :
      (t : Timers) (left i j : ℕ)
      → IsSized (frame t)
      → i + left ≡ 16
      → i ≤ j
      → j < 16
      → settled (view (sweep_from t m lt nvs left i) j) m lt ≡ true
  unfolding sweep_from
  all_settled t zero i j v e h k = absurd (omega arith)
  all_settled t (suc left) i j v e h k = elim (Bool-cases (ltb i j)) [
    | inl later ↦
        all_settled (sweep_slot t m lt nvs i) left (suc i) j (sweep_slot-IsSized t i v)
          (omega arith) (ground arith) k
    | inr now ↦
        let here : i ≡ j = ground arith in
        sweep_from-settled (sweep_slot t m lt nvs i) left (suc i) j (omega arith) (
          subst (λ x. settled (view (sweep_slot t m lt nvs i) x) m lt ≡ true) here
            (sweep_slot-settled t i v (omega arith)))
  ]

  sweep_from-nothing :
      (t : Timers) (left i : ℕ)
      → ((j : ℕ) → i ≤ j → j < i + left → settled (view t j) m lt ≡ true)
      → sweep_from t m lt nvs left i ≡ t
  unfolding sweep_from
  sweep_from-nothing t zero i h = refl
  sweep_from-nothing t (suc left) i h =
      ap (λ u. sweep_from u m lt nvs left (suc i))
        (settled-sweep_slot t m lt nvs i (h i (omega arith) (omega arith)))
      ∙ sweep_from-nothing t left (suc i) (λ j a b. h j (omega arith) (omega arith))

-- When every list of the state has sixteen entries, a second sweep in the same minute of UTC, with
-- the same local time, leaves the state as the first one left it, so that nothing is published
-- again. The NVS calls may answer differently in the two.
pub sweep-sweep :
    (t : Timers) (now now' : ℕ) (lt : LocalTime) (nvs nvs' : Nvs)
    → IsSized (frame t)
    → now / 60 ≡ now' / 60
    → sweep (sweep t now lt nvs) now' lt nvs' ≡ sweep t now lt nvs
unfolding sweep
sweep-sweep t now now' lt nvs nvs' v e =
    ap (λ m. sweep_from (sweep_from t (now / 60) lt nvs 16 0) m lt nvs' 16 0) (sym e)
    ∙ sweep_from-nothing (now / 60) lt nvs' (sweep_from t (now / 60) lt nvs 16 0) 16 0
        (λ j a b. all_settled (now / 60) lt nvs t 16 0 j v refl (omega arith) (omega arith))
