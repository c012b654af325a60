-- ===== src/Retain/Sizes.antt =====
-- The accounting of the retained store: `s_retained_bytes` and `s_retained_count` are right.
use mqtt_broker_esp.Prelude.{
  ℕ, zero, suc, ◌+◌, ◌≤◌, ◌<◌, ◌≡◌, ◌⊎◌, inl, inr, refl, ap, List, [], ◌∷◌, Bool, true, false,
  length, ltb, ◌==◌, some, arith, Option-cases, Bool-cases, if-holds, ◌%◌, ◌^◌,
}
use mqtt_broker_esp.Retain.{
  Retained, Store, Memory, freed, oldest_from, size_mod, max_msg_size, unlink, oldest, unlink_at,
  retained_msg_size, retain_free_msg, retain_mem_limit, evict_loop, retain_evict_for_space,
  retain_drop, retain_insert, retain_store,
}

module _ (m : Memory) where
  abbrev pub total_size : List Retained → ℕ
  total_size [] = 0
  total_size (r ∷ rs) = retained_msg_size m r + total_size rs

  -- The accounting is right, and no `size_t` wraps.
  pub record IsCounted (s : Store) : Type 0 where
    pub bytes_right : s.bytes ≡ total_size s.messages
    pub count_right : s.count ≡ length s.messages
    pub small : s.bytes ≤ 2 ^ 27

  pub unlink-sizes :
      (topic : List ℕ) (rs : List Retained) {r : Retained} {rest : List Retained}
      → unlink topic rs ≡ some (r, rest)
      → (total_size rs ≡ retained_msg_size m r + total_size rest) × (length rs ≡ length rest + 1)
  unfolding unlink
  unlink-sizes topic [] e = absurd (cc)
  unlink-sizes topic (x ∷ rs) {r} {rest} e = elim (Option-cases (unlink topic rs)) [
    | inl no_more ↦ ground arith
    | inr ((q, qs), later) ↦ ground (arith, unlink-sizes topic rs later)
  ]

  pub unlink_at-sizes :
      (rs : List Retained) (i : ℕ) {r : Retained} {rest : List Retained}
      → unlink_at rs i ≡ some (r, rest)
      → (total_size rs ≡ retained_msg_size m r + total_size rest) × (length rs ≡ length rest + 1)
  unfolding unlink_at
  unlink_at-sizes [] i e = absurd (cc)
  unlink_at-sizes (x ∷ rs) zero e = ground arith
  unlink_at-sizes (x ∷ rs) (suc i) e = elim (Option-cases (unlink_at rs i)) [
    | inl no_more ↦ ground arith
    | inr ((q, qs), later) ↦ ground (arith, unlink_at-sizes rs i later)
  ]

  pub free-IsCounted :
      (s : Store) (r : Retained) (rest : List Retained)
      → IsCounted s
      → total_size s.messages ≡ retained_msg_size m r + total_size rest
      → length s.messages ≡ length rest + 1
      → IsCounted (retain_free_msg m s r rest)
  unfolding retain_free_msg
  free-IsCounted s r rest v hb hc = ground arith

  pub drop-IsCounted :
      (topic : List ℕ) (s : Store) → IsCounted s → IsCounted (retain_drop m topic s)
  unfolding retain_drop
  drop-IsCounted topic s v = elim (Option-cases (unlink topic s.messages)) [
    | inl missing ↦ rw missing v
    | inr ((r, rest), found) ↦
        let sizes = unlink-sizes topic s.messages found in
        rw found (free-IsCounted s r rest v sizes.0 sizes.1)
  ]

  -- One round of the eviction loop.
  evict_round-IsCounted :
      (s : Store) (i : ℕ) → IsCounted s → IsCounted (freed m s (unlink_at s.messages i))
  evict_round-IsCounted s i v = elim (Option-cases (unlink_at s.messages i)) [
    | inl missing ↦ rw missing v
    | inr ((r, rest), found) ↦
        let sizes = unlink_at-sizes s.messages i found in
        rw found (free-IsCounted s r rest v sizes.0 sizes.1)
  ]

  pub evict_loop-IsCounted :
      (fuel limit needed : ℕ) (s : Store)
      → IsCounted s
      → IsCounted (evict_loop m fuel limit needed s)
  unfolding evict_loop
  evict_loop-IsCounted zero limit needed s v = v
  evict_loop-IsCounted (suc fuel) limit needed s v =
      elim (Bool-cases (ltb limit ((s.bytes + needed) % size_mod))) [
        | inl full ↦ rw full (
            evict_loop-IsCounted fuel limit needed _
              (evict_round-IsCounted s (oldest s.messages) v))
        | inr fits ↦ rw fits v
      ]

  -- The scan for the oldest message ends inside the list.
  oldest_from-in :
      (rs : List Retained) (i best_i best n : ℕ)
      → best_i < n
      → i + length rs ≤ n
      → oldest_from rs i best_i best < n
  unfolding oldest_from
  oldest_from-in [] i best_i best n hb hi = hb
  oldest_from-in (r ∷ rs) i best_i best n hb hi =
      oldest_from-in rs (i + 1) _ _ n (ground arith) (omega arith)

  oldest-in : (r : Retained) (rs : List Retained) → oldest (r ∷ rs) < length (r ∷ rs)
  unfolding oldest
  oldest-in r rs =
      oldest_from-in (r ∷ rs) 0 0 r.stored_at_ms (length (r ∷ rs)) (omega arith) (omega arith)

  unlink_at-in :
      (rs : List Retained) (i : ℕ)
      → i < length rs
      → (q : Retained × List Retained) × (unlink_at rs i ≡ some q)
  unfolding unlink_at
  unlink_at-in [] i h = absurd (omega arith)
  unlink_at-in (r ∷ rs) zero h = ((r, rs), refl)
  unlink_at-in (r ∷ rs) (suc i) h =
      let ((q, qs), e) = unlink_at-in rs i (omega arith) in ((q, r ∷ qs), rw e)

  nil_of_length : {A : Type 0} (l : List A) → length l ≤ 0 → l ≡ []
  nil_of_length [] h = refl
  nil_of_length (x ∷ l) h = absurd (omega arith)

  -- A round takes a message off a store that has one.
  round_shorter :
      (s : Store) (fuel : ℕ)
      → length s.messages ≤ suc fuel
      → length (freed m s (unlink_at s.messages (oldest s.messages))).messages ≤ fuel
  unfolding retain_free_msg
  round_shorter s fuel h = by_list s.messages refl
    where
      by_list :
          (l : List Retained)
          → s.messages ≡ l
          → length (freed m s (unlink_at s.messages (oldest s.messages))).messages ≤ fuel
      by_list [] e = rw e (unfold unlink_at in omega arith)
      by_list (r ∷ rs) e =
          let ((q, rest), found) = unlink_at-in (r ∷ rs) (oldest (r ∷ rs)) (oldest-in r rs) in
          rw (e, found)
            (omega (arith, ap length e, unlink_at-sizes (r ∷ rs) (oldest (r ∷ rs)) found))

  -- The loop ends below the limit, or with an empty store.
  pub evict_loop-fits :
      (fuel limit needed : ℕ) (s : Store)
      → length s.messages ≤ fuel
      → let s' = evict_loop m fuel limit needed s in
        ((s'.bytes + needed) % size_mod ≤ limit) ⊎ (s'.messages ≡ [])
  unfolding evict_loop
  evict_loop-fits zero limit needed s h = inr (nil_of_length s.messages h)
  evict_loop-fits (suc fuel) limit needed s h =
      elim (Bool-cases (ltb limit ((s.bytes + needed) % size_mod))) [
        | inl full ↦ rw full (evict_loop-fits fuel limit needed _ (round_shorter s fuel h))
        | inr fits ↦ rw fits (inl (ground arith))
      ]

  limit_small : (s : Store) → retain_mem_limit m s ≤ 2 ^ 26
  unfolding retain_mem_limit
  limit_small s = ground arith

  length-le-total_size : (rs : List Retained) → length rs ≤ total_size rs
  unfolding retained_msg_size
  length-le-total_size [] = omega arith
  length-le-total_size (r ∷ rs) = omega (arith, length-le-total_size rs)

  pub insert-IsCounted :
      (topic payload : List ℕ) (now limit : ℕ) (s : Store)
      → IsCounted s
      → limit ≤ 2 ^ 26
      → m.struct_size + length topic + 1 + length payload ≤ 2 ^ 26
      → ((s.bytes + (m.struct_size + length topic + 1 + length payload)) % size_mod ≤ limit)
        ⊎ (s.messages ≡ [])
      → IsCounted (retain_insert m topic payload now s)
        × (((retain_insert m topic payload now s).bytes ≤ limit) ⊎ (s.messages ≡ []))
  unfolding retain_insert retained_msg_size
  insert-IsCounted topic payload now limit s v hl hn (inl fits) =
      (omega (arith, v, length-le-total_size s.messages), inl (omega (arith, v)))
  insert-IsCounted topic payload now limit s v hl hn (inr empty) =
      (omega (arith, v, ap total_size empty, ap length empty), inr empty)

  -- A message that no limit on sizes refuses keeps its node below 2^26 bytes.
  abbrev pub IsSmall : List ℕ → Type 0
  IsSmall topic = m.struct_size + length topic + 1 + max_msg_size ≤ 2 ^ 26

  evict-IsCounted :
      (needed : ℕ) (s : Store) → IsCounted s → IsCounted (retain_evict_for_space m needed s)
  unfolding retain_evict_for_space
  evict-IsCounted needed s v =
      evict_loop-IsCounted (length s.messages) (retain_mem_limit m s) needed s v

  -- What `retain_store` does with a message that it stores.
  stored-IsCounted :
      (now : ℕ) (topic payload : List ℕ) (d : Store)
      → IsSmall topic
      → length payload ≤ max_msg_size
      → IsCounted d
      → let kept = retain_evict_for_space m (m.struct_size + length topic + 1 + length payload) d in
        let s' = retain_insert m topic payload now kept in
        IsCounted s' × ((s'.bytes ≤ retain_mem_limit m d) ⊎ (kept.messages ≡ []))
  stored-IsCounted now topic payload d hs hp v =
      insert-IsCounted topic payload now (retain_mem_limit m d) _ (evict-IsCounted _ d v)
        (limit_small d) (omega arith)
        (unfold retain_evict_for_space in
          evict_loop-fits (length d.messages) (retain_mem_limit m d) _ d (omega arith))

  -- Where the byte and message counts are right and the total is at most 2^27, and a message of
  -- 64 K bytes on the topic takes at most 2^26, `retain_store` keeps this so, whatever it does.
  pub retain_store-IsCounted :
      (alloc_ok : Bool) (now : ℕ) (topic payload : List ℕ) (s : Store)
      → IsSmall topic
      → IsCounted s
      → IsCounted (retain_store m alloc_ok now topic payload s)
  unfolding retain_store
  retain_store-IsCounted alloc_ok now topic payload s hs v =
      let d = drop-IsCounted topic s v in
      if-holds IsCounted (length payload == 0) (λ _. d)
        λ _.
          if-holds IsCounted (ltb max_msg_size (length payload)) (λ _. v)
            λ fits.
              if-holds IsCounted alloc_ok
                (λ _. (stored-IsCounted now topic payload _ hs (ground arith) d).0) (λ _. v)

  -- Where the byte and message counts are right and the total is at most 2^27, and a message of
  -- 64 K bytes on the topic takes at most 2^26, storing a message of 1 to 64 K bytes whose
  -- allocations succeed ends within the memory limit, or with that message alone.
  pub retain_store_bound :
      (now : ℕ) (topic payload : List ℕ) (s : Store)
      → IsSmall topic
      → IsCounted s
      → 0 < length payload
      → length payload ≤ max_msg_size
      → let s' = retain_store m true now topic payload s in
        (s'.bytes ≤ retain_mem_limit m (retain_drop m topic s)) ⊎ (length s'.messages ≡ 1)
  unfolding retain_store
  retain_store_bound now topic payload s hs v h0 hp =
      rw (no_delete, no_reject)
        (elim (stored-IsCounted now topic payload _ hs hp (drop-IsCounted topic s v)).1 [
          | inl fits ↦ inl fits
          | inr alone ↦ inr (unfold retain_insert in ap (λ l. suc (length l)) alone)
        ])
    where
      no_delete : (length payload == 0) ≡ false
      no_delete = ground arith

      no_reject : ltb max_msg_size (length payload) ≡ false
      no_reject = ground arith
