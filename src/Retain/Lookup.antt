-- ===== src/Retain/Lookup.antt =====
-- The retained store as a map: what is found on a topic after each operation.
use mqtt_broker_esp.Prelude.{
  ℕ, zero, suc, ◌+◌, ◌%◌, ◌≤◌, ◌<◌, ◌≡◌, inl, inr, refl, ◌∙◌, List, [], Bool, true, false, length,
  ltb, ◌==◌, bytes_eq, bytes_eq_refl, if◌then◌else◌, if-holds, Option, none, some, arith,
  Option-cases,
}
use mqtt_broker_esp.Retain.{
  Retained, Store, Memory, size_mod, max_msg_size, unlink, unlink_at, oldest, freed,
  retain_free_msg, retain_mem_limit, evict_loop, retain_evict_for_space, retain_drop, retain_insert,
  retain_store,
}
use mqtt_broker_esp.Retain.Unlink.{
  lookup, Absent, IsDistinct, Absent-lookup, unlink_at-Absent, unlink-IsDistinct,
  unlink_at-IsDistinct, lookup-unlink, not_there,
}

module _ (m : Memory) where
  messages-freed :
      (s : Store) {r : Retained} {rest : List Retained} (o : Option (Retained × List Retained))
      → o ≡ some (r, rest)
      → (freed m s o).messages ≡ rest
  unfolding retain_free_msg
  messages-freed s o e = rw e refl

  -- What holds of a list and of it without any one message holds after an eviction.
  module _ (P : List Retained → Type 0)
      (closed : (i : ℕ) (rs : List Retained) (r : Retained) (rest : List Retained)
        → unlink_at rs i ≡ some (r, rest)
        → P rs
        → P rest) where
    round_keeps :
        (s : Store) (i : ℕ) → P s.messages → P (freed m s (unlink_at s.messages i)).messages
    round_keeps s i h = elim (Option-cases (unlink_at s.messages i)) [
      | inl missing ↦ rw missing h
      | inr ((r, rest), found) ↦ rw (messages-freed s _ found) (closed i s.messages r rest found h)
    ]

    evict_loop_keeps :
        (fuel limit needed : ℕ) (s : Store)
        → P s.messages
        → P (evict_loop m fuel limit needed s).messages
    unfolding evict_loop
    evict_loop_keeps zero limit needed s h = h
    evict_loop_keeps (suc fuel) limit needed s h =
        if-holds {A = Store} (λ t. P t.messages) (ltb limit ((s.bytes + needed) % size_mod))
          (λ _. evict_loop_keeps fuel limit needed _ (round_keeps s (oldest s.messages) h)) (λ _. h)

    evict_keeps :
        (needed : ℕ) (s : Store) → P s.messages → P (retain_evict_for_space m needed s).messages
    unfolding retain_evict_for_space
    evict_keeps needed s h = evict_loop_keeps (length s.messages) (retain_mem_limit m s) needed s h

  messages-dropped :
      (topic : List ℕ) (s : Store)
      → IsDistinct s.messages
      → IsDistinct (retain_drop m topic s).messages
        × ((t : List ℕ)
            → lookup t (retain_drop m topic s).messages
              ≡ (if bytes_eq topic t then none else lookup t s.messages))
  unfolding retain_drop
  messages-dropped topic s h = elim (Option-cases (unlink topic s.messages)) [
    | inl missing ↦ rw missing (h, λ t. not_there topic t s.messages missing)
    | inr ((r, rest), found) ↦
        rw (messages-freed s _ found) (
          unlink-IsDistinct topic s.messages found h,
          λ t. lookup-unlink topic t s.messages found h,
        )
  ]

  -- In a store without two messages on one topic, storing an empty payload deletes the message
  -- on the topic: nothing is found on it any more, and every other topic has what it had.
  pub retain_store_delete :
      (alloc_ok : Bool) (now : ℕ) (topic t : List ℕ) (s : Store)
      → IsDistinct s.messages
      → lookup t (retain_store m alloc_ok now topic [] s).messages
        ≡ (if bytes_eq topic t then none else lookup t s.messages)
  unfolding retain_store
  retain_store_delete alloc_ok now topic t s h = (messages-dropped topic s h).1 t

  evict_fitting :
      (needed : ℕ) (s : Store)
      → (s.bytes + needed) % size_mod ≤ retain_mem_limit m s
      → retain_evict_for_space m needed s ≡ s
  unfolding retain_evict_for_space evict_loop
  evict_fitting needed s h = by_fuel (length s.messages)
    where
      within : ltb (retain_mem_limit m s) ((s.bytes + needed) % size_mod) ≡ false
      within = ground arith

      by_fuel : (fuel : ℕ) → evict_loop m fuel (retain_mem_limit m s) needed s ≡ s
      by_fuel zero = refl
      by_fuel (suc fuel) = rw within refl

  -- In a store without two messages on one topic, storing a message of 1 to 64 K bytes whose
  -- allocations succeed and for which there is room without eviction: the topic has the new
  -- message, stamped with the time, and every other topic has what it had.
  pub retain_store-lookup :
      (now : ℕ) (topic payload t : List ℕ) (s : Store)
      → IsDistinct s.messages
      → 0 < length payload
      → length payload ≤ max_msg_size
      → let d = retain_drop m topic s in
        (d.bytes + (m.struct_size + length topic + 1 + length payload)) % size_mod
          ≤ retain_mem_limit m d
        → lookup t (retain_store m true now topic payload s).messages ≡ (
            if bytes_eq topic t
            then some (record { topic = topic; payload = payload; stored_at_ms = now })
            else lookup t s.messages)
  unfolding retain_store retain_insert lookup
  retain_store-lookup now topic payload t s h h0 hp room =
      let d = retain_drop m topic s in
      rw
        (
          no_delete,
          no_reject,
          evict_fitting (m.struct_size + length topic + 1 + length payload) d room,
          (messages-dropped topic s h).1 t,
        )
        (ground arith)
    where
      no_delete : (length payload == 0) ≡ false
      no_delete = ground arith

      no_reject : ltb max_msg_size (length payload) ≡ false
      no_reject = ground arith

  Absent-dropped :
      (topic : List ℕ) (s : Store)
      → IsDistinct s.messages
      → Absent topic (retain_drop m topic s).messages
  Absent-dropped topic s h =
      Absent-lookup topic _ ((messages-dropped topic s h).1 topic ∙ rw bytes_eq_refl refl)

  -- From a store without two messages on one topic, `retain_store` leads to such a store,
  -- whatever it does.
  pub retain_store-IsDistinct :
      (alloc_ok : Bool) (now : ℕ) (topic payload : List ℕ) (s : Store)
      → IsDistinct s.messages
      → IsDistinct (retain_store m alloc_ok now topic payload s).messages
  unfolding retain_store retain_insert
  retain_store-IsDistinct alloc_ok now topic payload s h =
      let d = retain_drop m topic s in
      let hd = (messages-dropped topic s h).0 in
      let needed = m.struct_size + length topic + 1 + length payload in
      let IsDistinctStore : Store → Type 0 = λ t. IsDistinct t.messages in
      if-holds IsDistinctStore (length payload == 0) (λ _. hd)
        λ _.
          if-holds IsDistinctStore (ltb max_msg_size (length payload)) (λ _. h)
            λ _.
              if-holds IsDistinctStore alloc_ok
                (λ _. (
                  evict_keeps (Absent topic)
                      (λ i rs r rest found. unlink_at-Absent i topic rs found) needed d
                      (Absent-dropped topic s h),
                  evict_keeps IsDistinct (λ i rs r rest found. unlink_at-IsDistinct i rs found)
                      needed d hd,
                ))
                (λ _. h)
