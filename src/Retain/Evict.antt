-- ===== src/Retain/Evict.antt =====
-- Expiry: which retained messages `retain_evict_expired` keeps, and its accounting.
use mqtt_broker_esp.Prelude.{
  ℕ, ◌+◌, ◌-◌, ◌*◌, ◌≤◌, ◌≡◌, inl, inr, refl, List, [], ◌∷◌, length, ltb, leb, ◌==◌, if◌then◌else◌,
  arith, Bool-cases,
}
use mqtt_broker_esp.Retain.{
  Retained, Store, Memory, retained_msg_size, retain_free_msg, expire_walk, retain_evict_expired,
}
use mqtt_broker_esp.Retain.Sizes.{total_size, IsCounted}

-- The messages that are at most `ttl_ms` old.
unfoldable pub fresh_messages : (now ttl_ms : ℕ) → List Retained → List Retained
fresh_messages now ttl_ms [] = []
fresh_messages now ttl_ms (r ∷ rs) =
    if leb (now - r.stored_at_ms) ttl_ms
    then r ∷ fresh_messages now ttl_ms rs
    else fresh_messages now ttl_ms rs

module _ (m : Memory) where
  expire_walk-fresh :
      (now ttl_ms : ℕ) (rs : List Retained) (s : Store)
      → (expire_walk m now ttl_ms rs s).messages ≡ fresh_messages now ttl_ms rs
  unfolding expire_walk fresh_messages
  expire_walk-fresh now ttl_ms [] s = refl
  expire_walk-fresh now ttl_ms (r ∷ rs) s = elim (Bool-cases (ltb ttl_ms (now - r.stored_at_ms))) [
    | inl old ↦ rw (old, expire_walk-fresh now ttl_ms rs) (ground arith)
    | inr new ↦ rw (new, expire_walk-fresh now ttl_ms rs) (ground arith)
  ]

  expire_walk-sizes :
      (now ttl_ms : ℕ) (rs : List Retained) (s : Store) (size n : ℕ)
      → s.bytes ≡ total_size m rs + size
      → s.count ≡ length rs + n
      → let t = expire_walk m now ttl_ms rs s in
        (t.bytes ≡ total_size m t.messages + size)
        × (t.count ≡ length t.messages + n)
        × (t.bytes ≤ s.bytes)
  unfolding expire_walk retain_free_msg
  expire_walk-sizes now ttl_ms [] s size n hb hc = (hb, hc, omega arith)
  expire_walk-sizes now ttl_ms (r ∷ rs) s size n hb hc =
      elim (Bool-cases (ltb ttl_ms (now - r.stored_at_ms))) [
        | inl old ↦
            let ih =
              expire_walk-sizes now ttl_ms rs (retain_free_msg m s r s.messages) size n
                (ground arith) (ground arith) in
            rw old (ih.0, ih.1, ground (arith, ih.2))
        | inr new ↦
            let ih =
              expire_walk-sizes now ttl_ms rs s (retained_msg_size m r + size) (n + 1)
                (omega (arith, hb)) (omega (arith, hc)) in
            rw new (omega (arith, ih.0), omega (arith, ih.1), ih.2)
      ]

  -- With a positive time to live, expiry keeps exactly the messages that are at most that old,
  -- in their order; with none it keeps all. Counts that were right, with a total of at most
  -- 2^27, stay so.
  pub retain_evict_expired_lem :
      (ttl_sec now : ℕ) (s : Store)
      → IsCounted m s
      → ((retain_evict_expired m ttl_sec now s).messages
          ≡ (if ttl_sec == 0 then s.messages else fresh_messages now (ttl_sec * 1000) s.messages))
        × IsCounted m (retain_evict_expired m ttl_sec now s)
  unfolding retain_evict_expired
  retain_evict_expired_lem ttl_sec now s v = elim (Bool-cases (ttl_sec == 0)) [
    | inl never ↦ rw never (refl, v)
    | inr some_ttl ↦
        let sizes =
          expire_walk-sizes now (ttl_sec * 1000) s.messages s 0 0 (omega (arith, v))
            (omega (arith, v)) in
        rw some_ttl (
          expire_walk-fresh now (ttl_sec * 1000) s.messages s,
          record {
            bytes_right = omega (arith, sizes.0);
            count_right = omega (arith, sizes.1);
            small = omega (arith, sizes.2, v.small);
          },
        )
  ]
