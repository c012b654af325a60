-- ===== src/Berry/Log/Pushed.antt =====
-- main/berry_runtime.c: the ring holds the end of what has been pushed.
use mqtt_broker_esp.Prelude.{
  ℕ, suc, ◌+◌, ◌%◌, ◌^◌, ◌≤◌, ◌<◌, ◌≡◌, sym, ap, ◌∙◌, subst, List, [], ◌∷◌, ◌++◌, length, take,
  drop, set, true, false, ltb, ◌==◌, if◌then◌else◌, arith, Bool-cases, inl, inr, append_assoc,
  append-nil, length-append, length-set, length-drop, take-all,
}
use mqtt_broker_esp.Berry.Log.Ends.{
  last, take-set, drop-set, drop_one-append, drop_one-drop, last-append_few, last-append_full,
  drop-all,
}
use mqtt_broker_esp.Berry.Log.{ring_size, Log, push_byte, push_bytes, log_push}

-- The oldest byte first.
abbrev pub view : Log → List ℕ
view l =
    if ltb l.total ring_size then take l.head l.ring else drop l.head l.ring ++ take l.head l.ring

-- The ring holds the end of all that was pushed.
pub record Holds (history : List ℕ) (l : Log) : Type 0 where
  pub sized : length l.ring ≡ ring_size
  pub in_ring : l.head < ring_size
  pub counted : l.total ≡ length history
  pub not_full : l.total < ring_size → l.head ≡ l.total
  pub shows : view l ≡ last ring_size history

-- The ring read from behind the head, where the head may have come round.
rotated :
    (ring : List ℕ) (head : ℕ)
    → length ring ≡ ring_size
    → head < ring_size
    → drop ((head + 1) % ring_size) ring ++ take ((head + 1) % ring_size) ring
      ≡ drop (suc head) ring ++ take (suc head) ring
rotated ring head n h = elim (Bool-cases (ltb (head + 1) ring_size)) [
  | inl before ↦
      ap (λ k. drop k ring ++ take k ring) {x = (head + 1) % ring_size} {y = suc head}
        (ground arith)
  | inr round ↦
      ap (λ k. drop k ring ++ take k ring) {x = (head + 1) % ring_size} {y = 0} (ground arith)
      ∙ append-nil ring
      ∙ sym (take-all (suc head) ring (ground arith))
      ∙ ap (λ t. t ++ take (suc head) ring) (sym (drop-all (suc head) ring (ground arith)))
]

module _ (history : List ℕ) (l : Log) (b : ℕ) (h : Holds history l) where
  abbrev written : List ℕ
  written = set l.ring l.head b

  size_written : length written ≡ ring_size
  size_written = length-set l.ring l.head b ∙ h.sized

  in_place : take (suc l.head) written ≡ take l.head l.ring ++ (b ∷ [])
  in_place = take-set l.head l.ring b (omega (arith, h.sized, h.in_ring))

  abbrev oldest : List ℕ
  oldest = drop l.head l.ring

  some_oldest : 0 < length oldest
  some_oldest = omega (arith, length-drop l.head l.ring, h.sized, h.in_ring)

  -- The view of a full ring loses its first byte.
  full_view :
      drop (suc l.head) written ++ take (suc l.head) written
      ≡ drop 1 ((oldest ++ take l.head l.ring) ++ (b ∷ []))
  full_view =
      ap (λ t. t ++ take (suc l.head) written) (drop-set l.head l.ring b)
      ∙ ap (λ t. drop (suc l.head) l.ring ++ t) in_place
      ∙ sym (append_assoc (drop (suc l.head) l.ring) (take l.head l.ring) (b ∷ []))
      ∙ ap (λ t. (t ++ take l.head l.ring) ++ (b ∷ [])) (sym (drop_one-drop l.head l.ring))
      ∙ ap (λ t. t ++ (b ∷ [])) (sym (drop_one-append oldest (take l.head l.ring) some_oldest))
      ∙ sym (
          drop_one-append (oldest ++ take l.head l.ring) (b ∷ [])
            (omega (arith, length-append oldest (take l.head l.ring), some_oldest)))

  shows_few : l.total < ring_size → view (push_byte l b) ≡ last ring_size (history ++ (b ∷ []))
  shows_few few =
      let old : ltb l.total ring_size ≡ true = ground arith in
      let held : take l.head l.ring ≡ last ring_size history = rw old at h.shows in
      let same = h.not_full few in
      let grown : take (suc l.head) written ≡ last ring_size (history ++ (b ∷ [])) =
        in_place
        ∙ ap (λ t. t ++ (b ∷ [])) held
        ∙ sym (last-append_few ring_size history b (omega (arith, h.counted))) in
      elim (Bool-cases (ltb ((l.total + 1) % 2 ^ 32) ring_size)) [
        | inl still ↦ rw still (
            ap (λ k. take k written) {x = (l.head + 1) % ring_size} {y = suc l.head}
              (ground (arith, same))
            ∙ grown)
        | inr now_full ↦ rw now_full (
            rotated written l.head size_written h.in_ring
            ∙ ap (λ t. t ++ take (suc l.head) written)
                (drop-all (suc l.head) written (ground (arith, same, size_written)))
            ∙ grown)
      ]

  shows_full :
      ring_size ≤ l.total
      → length history + 1 < 2 ^ 32
      → view (push_byte l b) ≡ last ring_size (history ++ (b ∷ []))
  shows_full full small =
      let old : ltb l.total ring_size ≡ false = ground arith in
      let new : ltb ((l.total + 1) % 2 ^ 32) ring_size ≡ false = ground (arith, h.counted) in
      let held : oldest ++ take l.head l.ring ≡ last ring_size history = rw old at h.shows in
      rw new (
        rotated written l.head size_written h.in_ring
        ∙ full_view
        ∙ ap (λ t. drop 1 (t ++ (b ∷ []))) held
        ∙ sym (last-append_full ring_size history b (omega arith) (omega (arith, h.counted))))

  Holds-push_byte : length history + 1 < 2 ^ 32 → Holds (history ++ (b ∷ [])) (push_byte l b)
  Holds-push_byte small = record {
    sized = size_written;
    in_ring = omega arith;
    counted = omega (arith, h.counted, length-append history (b ∷ []));
    not_full = λ few. omega (arith, h.counted, h.not_full (omega (arith, h.counted)));
    shows = elim (Bool-cases (ltb l.total ring_size)) [
      | inl few ↦ shows_few (ground arith)
      | inr full ↦ shows_full (ground arith) small
    ];
  }

push_byte-step :
    (history buf : List ℕ) (l : Log)
    → length history + length buf < 2 ^ 32
    → Holds history l
    → Holds (history ++ buf) (push_bytes l buf)
unfolding push_bytes
push_byte-step history [] l small h = subst (λ t. Holds t l) (sym (append-nil history)) h
push_byte-step history (b ∷ buf) l small h =
    subst (λ t. Holds t (push_bytes (push_byte l b) buf)) (append_assoc history (b ∷ []) buf)
      (push_byte-step (history ++ (b ∷ [])) buf (push_byte l b)
        (omega (arith, length-append history (b ∷ [])))
        (Holds-push_byte history l b h (omega arith)))

-- The log after a run of writes for which the mutex was got, and all that they wrote.
unfoldable pub log_all : Log → List (List ℕ) → Log
log_all l [] = l
log_all l (buf ∷ bufs) = log_all (log_push l buf true true) bufs

unfoldable pub joined : List (List ℕ) → List ℕ
joined [] = []
joined (buf ∷ bufs) = buf ++ joined bufs

Holds-log_push :
    (history buf : List ℕ) (l : Log)
    → length history + length buf < 2 ^ 32
    → Holds history l
    → Holds (history ++ buf) (log_push l buf true true)
unfolding log_push
Holds-log_push history [] l small h = subst (λ t. Holds t l) (sym (append-nil history)) h
Holds-log_push history (b ∷ buf) l small h =
    let some_bytes : (length (b ∷ buf) == 0) ≡ false = ground arith in
    rw some_bytes (push_byte-step history (b ∷ buf) l small h)

pub Holds-log_all :
    (history : List ℕ) (bufs : List (List ℕ)) (l : Log)
    → length history + length (joined bufs) < 2 ^ 32
    → Holds history l
    → Holds (history ++ joined bufs) (log_all l bufs)
unfolding log_all joined
Holds-log_all history [] l small h = subst (λ t. Holds t l) (sym (append-nil history)) h
Holds-log_all history (buf ∷ bufs) l small h =
    let size = length-append buf (joined bufs) in
    subst (λ t. Holds t (log_all (log_push l buf true true) bufs))
      (append_assoc history buf (joined bufs))
      (Holds-log_all (history ++ buf) bufs (log_push l buf true true)
        (omega (arith, size, length-append history buf))
        (Holds-log_push history buf l (omega (arith, size)) h))
