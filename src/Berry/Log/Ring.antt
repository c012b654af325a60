-- ===== src/Berry/Log/Ring.antt =====
-- main/berry_runtime.c: the ring implements the list of the last 4096 bytes of the log.
use mqtt_broker_esp.Prelude.{
  ℕ, ◌-◌, ◌^◌, ◌≤◌, ◌<◌, ◌≡◌, refl, sym, ap, ◌∙◌, List, [], ◌++◌, length, take, drop, true, false,
  ltb, ◌==◌, arith, Bool-cases, inl, inr, ◌⊎◌, length-drop,
}
use mqtt_broker_esp.Berry.Log.Ends.{last, take-take_le, take-take_ge, take-append_both, take_same}
use mqtt_broker_esp.Berry.Log.{ring_size, Log, copied_log, berry_log_snapshot}
use mqtt_broker_esp.Berry.Log.Pushed.{view, Holds, log_all, joined, Holds-log_all}

-- The two parts that are copied of a full ring, where `room` bytes fit.
module _ (ring : List ℕ) (head room : ℕ) (sized : length ring ≡ ring_size)
    (h : head < ring_size) where
  abbrev oldest_part : List ℕ
  oldest_part = drop head ring

  size_oldest : length oldest_part ≡ ring_size - head
  size_oldest = length-drop head ring ∙ ap (λ n. n - head) sized

  -- By the count of bytes and that of the first part.
  two_parts :
      (count first : ℕ)
      → (first ≡ room) × (count ≡ room) × (room < ring_size - head)
        ⊎ (first ≡ ring_size - head)
          × (ring_size - head ≤ room)
          × (count ≡ room)
          × (room ≤ ring_size)
        ⊎ (first ≡ ring_size - head) × (count ≡ ring_size) × (ring_size < room)
      → take first oldest_part ++ take (count - first) ring
        ≡ take room (oldest_part ++ take head ring)
  two_parts count first (inl (f, c, few)) =
      ap (λ k. take k oldest_part ++ take (count - first) ring) f
      ∙ ap (λ k. take room oldest_part ++ take k ring) {x = count - first} {y = 0} (omega arith)
      ∙ sym (take-append_both room 0 oldest_part (take head ring) (omega (arith, size_oldest)))
  two_parts count first (inr (inl (f, some_more, c, fits))) =
      ap (λ t. t ++ take (count - first) ring)
        (take_same first room oldest_part (omega (arith, size_oldest)) (omega (arith, size_oldest)))
      ∙ ap (λ t. take room oldest_part ++ t)
          (sym (take-take_le (count - first) head ring (omega arith)))
      ∙ sym (
          take-append_both room (count - first) oldest_part (take head ring)
            (omega (arith, size_oldest)))
  two_parts count first (inr (inr (f, c, all))) =
      ap (λ t. t ++ take (count - first) ring)
        (take_same first room oldest_part (omega (arith, size_oldest)) (omega (arith, size_oldest)))
      ∙ ap (λ t. take room oldest_part ++ t)
          (ap (λ k. take k ring) {x = count - first} {y = head} (omega arith)
            ∙ sym (take-take_ge (room - length oldest_part) head ring (omega (arith, size_oldest))))
      ∙ sym (take-append_both room (room - length oldest_part) oldest_part (take head ring) refl)

copied_log-view :
    (history : List ℕ) (l : Log) (bufsz : ℕ)
    → Holds history l
    → copied_log l bufsz ≡ take (bufsz - 1) (view l)
unfolding copied_log
copied_log-view history l bufsz h =
    let room : ℕ = bufsz - 1 in
    elim (Bool-cases (ltb l.total ring_size)) [
      | inl few ↦ rw few (elim (Bool-cases (ltb l.head room)) [
        | inl all ↦ rw all (sym (take-take_ge room l.head l.ring (ground arith)))
        | inr part ↦ rw part (sym (take-take_le room l.head l.ring (ground arith)))
      ])
      | inr full ↦ rw full (elim (Bool-cases (ltb ring_size room)) [
        | inl large ↦
            let all : ltb ring_size (ring_size - l.head) ≡ false = ground arith in
            rw (large, all)
              (two_parts l.ring l.head room h.sized h.in_ring ring_size (ring_size - l.head)
                (inr (inr (refl, refl, ground arith))))
        | inr fits ↦ rw fits (elim (Bool-cases (ltb room (ring_size - l.head))) [
          | inl one ↦ rw one (
              two_parts l.ring l.head room h.sized h.in_ring room room
                (inl (refl, refl, ground arith)))
          | inr two ↦ rw two (
              two_parts l.ring l.head room h.sized h.in_ring room (ring_size - l.head)
                (inr (inl (refl, ground arith, refl, ground arith))))
        ])
      ])
    ]

Holds-fresh :
    (ring : List ℕ)
    → length ring ≡ ring_size
    → Holds [] (record { ring = ring; head = 0; total = 0 })
Holds-fresh ring n = record {
  sized = n;
  in_ring = omega arith;
  counted = refl;
  not_full = λ few. refl;
  shows = refl;
}

-- However the log was written, in pieces of any size, less than 2^32 bytes in all: a snapshot has the
-- last 4096 bytes of it, from the oldest on, as many as fit the array.
pub berry_log_snapshot-last :
    (ring : List ℕ) (bufs : List (List ℕ)) (bufsz : ℕ)
    → length ring ≡ ring_size
    → length (joined bufs) < 2 ^ 32
    → 0 < bufsz
    → berry_log_snapshot
        (log_all (record { ring = ring; head = 0; total = 0 }) bufs)
        bufsz
        true
        true
      ≡ take (bufsz - 1) (last ring_size (joined bufs))
unfolding berry_log_snapshot
berry_log_snapshot-last ring bufs bufsz n small room =
    let l : Log = log_all (record { ring = ring; head = 0; total = 0 }) bufs in
    let h =
      Holds-log_all [] bufs (record { ring = ring; head = 0; total = 0 }) (omega arith)
        (Holds-fresh ring n) in
    let some_room : (bufsz == 0) ≡ false = ground arith in
    rw some_room (copied_log-view (joined bufs) l bufsz h ∙ ap (take (bufsz - 1)) h.shows)
