-- ===== src/Retain.antt =====
-- The retained-message store of main/mqtt_broker.c. The linked list is a list, its head first; a
-- node with its predecessor is a position in it. A clock reading is an argument, so is whether the
-- three allocations of a new message succeed.
pub mod Sizes
pub mod Unlink
pub mod Lookup
pub mod Evict
mod Tests
use mqtt_broker_esp.Prelude.{
  ℕ, zero, suc, ◌+◌, ◌-◌, ◌*◌, ◌/◌, ◌%◌, ◌^◌, List, [], ◌∷◌, Bool, length, ltb, leb, ◌==◌, bytes_eq,
  if◌then◌else◌, Option, none, some,
}

-- `retained_msg_t`
pub record Retained : Type 0 where
  pub topic : List ℕ
  pub payload : List ℕ
  pub stored_at_ms : ℕ

-- `s_retained_head`, `s_retained_bytes` and `s_retained_count`.
pub record Store : Type 0 where
  pub messages : List Retained
  pub bytes : ℕ
  pub count : ℕ

-- What the platform tells: `sizeof(retained_msg_t)`, and the sizes of the PSRAM and the free heap.
pub record Memory : Type 0 where
  pub struct_size : ℕ
  pub psram_total : ℕ
  pub free_heap : ℕ

-- `size_t` has 32 bits.
abbrev pub size_mod : ℕ
size_mod = 2 ^ 32

abbrev pub max_msg_size : ℕ
max_msg_size = 64 * 1024

-- A message passed over stays in the list.
abbrev pub keep_front :
    Retained → Option (Retained × List Retained) → Option (Retained × List Retained)
keep_front r none = none
keep_front r (some (q, qs)) = some (q, r ∷ qs)

-- The first message on a topic, and the list without it.
unfoldable pub unlink : List ℕ → List Retained → Option (Retained × List Retained)
unlink topic [] = none
unlink topic (r ∷ rs) =
    if bytes_eq r.topic topic then some (r, rs) else keep_front r (unlink topic rs)

-- The scan for the oldest message, from position `i` on; `best` is the oldest so far.
unfoldable pub oldest_from : List Retained → (i best_i best : ℕ) → ℕ
oldest_from [] i best_i best = best_i
oldest_from (r ∷ rs) i best_i best =
    oldest_from rs (i + 1) (if ltb r.stored_at_ms best then i else best_i)
      (if ltb r.stored_at_ms best then r.stored_at_ms else best)

unfoldable pub oldest : List Retained → ℕ
unfolding oldest_from
oldest [] = 0
oldest (r ∷ rs) = oldest_from (r ∷ rs) 0 0 r.stored_at_ms

unfoldable pub unlink_at : List Retained → ℕ → Option (Retained × List Retained)
unlink_at [] i = none
unlink_at (r ∷ rs) zero = some (r, rs)
unlink_at (r ∷ rs) (suc i) = keep_front r (unlink_at rs i)

module _ (m : Memory) where
  unfoldable pub retained_msg_size : Retained → ℕ
  retained_msg_size r = m.struct_size + length r.topic + 1 + length r.payload

  -- The accounting of `retain_free_msg`, for the list without the message.
  unfoldable pub retain_free_msg : Store → Retained → List Retained → Store
  unfolding retained_msg_size
  retain_free_msg s r rest = record {
    messages = rest;
    bytes = if leb (retained_msg_size r) s.bytes then s.bytes - retained_msg_size r else 0;
    count = if ltb 0 s.count then s.count - 1 else s.count;
  }

  abbrev pub freed : Store → Option (Retained × List Retained) → Store
  freed s none = s
  freed s (some (r, rest)) = retain_free_msg s r rest

  unfoldable pub retain_mem_limit : Store → ℕ
  retain_mem_limit s =
      let total =
        if m.psram_total == 0 then (m.free_heap + s.bytes) % size_mod else m.psram_total in
      total * 80 % size_mod / 100

  -- The loop of `retain_evict_for_space`; each round takes a message off, so their number is
  -- enough fuel.
  unfoldable pub evict_loop : ℕ → (limit needed : ℕ) → Store → Store
  unfolding unlink_at oldest retain_free_msg
  evict_loop zero limit needed s = s
  evict_loop (suc fuel) limit needed s =
      let next =
        evict_loop fuel limit needed (freed s (unlink_at s.messages (oldest s.messages))) in
      if ltb limit ((s.bytes + needed) % size_mod) then next else s

  unfoldable pub retain_evict_for_space : ℕ → Store → Store
  unfolding evict_loop retain_mem_limit
  retain_evict_for_space needed s = evict_loop (length s.messages) (retain_mem_limit s) needed s

  -- The removal of the message on a topic, if there is one.
  unfoldable pub retain_drop : List ℕ → Store → Store
  unfolding unlink retain_free_msg
  retain_drop topic s = freed s (unlink topic s.messages)

  unfoldable pub retain_insert : List ℕ → List ℕ → ℕ → Store → Store
  unfolding retained_msg_size
  retain_insert topic payload now s =
      let msg : Retained = record { topic = topic; payload = payload; stored_at_ms = now } in
      record {
        messages = msg ∷ s.messages;
        bytes = (s.bytes + retained_msg_size msg) % size_mod;
        count = (s.count + 1) % size_mod;
      }

  unfoldable pub retain_store : (alloc_ok : Bool) (now : ℕ) (topic payload : List ℕ) → Store → Store
  retain_store alloc_ok now topic payload s =
      if length payload == 0
      then retain_drop topic s
      else if ltb max_msg_size (length payload)
      then s
      else if alloc_ok
      then retain_insert topic payload now (
          retain_evict_for_space (m.struct_size + length topic + 1 + length payload)
            (retain_drop topic s))
      else s

  -- The walk of `retain_evict_expired`: the messages kept, and the accounting of those removed.
  unfoldable pub expire_walk : (now ttl_ms : ℕ) → List Retained → Store → Store
  unfolding retain_free_msg
  expire_walk now ttl_ms [] s = record s { messages = [] }
  expire_walk now ttl_ms (r ∷ rs) s =
      let old = ltb ttl_ms (now - r.stored_at_ms) in
      let t = expire_walk now ttl_ms rs (if old then retain_free_msg s r s.messages else s) in
      record t { messages = if old then t.messages else r ∷ t.messages }

  -- `ttl_sec` is the positive part of the `int32_t` setting: 0 and below mean no expiry.
  unfoldable pub retain_evict_expired : (ttl_sec now : ℕ) → Store → Store
  unfolding expire_walk
  retain_evict_expired ttl_sec now s =
      if ttl_sec == 0 then s else expire_walk now (ttl_sec * 1000) s.messages s
