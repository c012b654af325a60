-- ===== src/Inflight.antt =====
-- The outbound QoS 1 in-flight tables of main/mqtt_broker.c: one row of slots per client.
pub mod Ids
pub mod Bytes
pub mod Valid
mod Tests
use mqtt_broker_esp.Prelude.{
  ℕ, zero, suc, ◌+◌, ◌-◌, ◌*◌, ◌%◌, ◌^◌, ◌/◌, List, [], ◌∷◌, Bool, true, false, ◌&&◌, length,
  get_or, set, ltb, leb, ◌==◌, if◌then◌else◌, Option, none, some,
}

-- `broker_inflight_t`; the heap copies of topic and payload are the lists, freed ones are empty.
pub record Slot : Type 0 where
  pub active : Bool
  pub retries : ℕ
  pub retain : Bool
  pub packet_id : ℕ
  pub next_retry_ms : ℕ
  pub topic : List ℕ
  pub payload : List ℕ

-- `s_inflight`, `s_inflight_bytes`, `s_inflight_dropped` and `s_inflight_cap_skips`.
pub record Inflight : Type 0 where
  pub rows : List (List Slot)
  pub bytes : ℕ
  pub dropped : ℕ
  pub cap_skips : ℕ

abbrev pub per_client_max : ℕ
per_client_max = 20

abbrev pub total_bytes_max : ℕ
total_bytes_max = 2 * 1024 * 1024

abbrev pub retry_initial_ms : ℕ
retry_initial_ms = 15000

abbrev pub retry_max_ms : ℕ
retry_max_ms = 60000

abbrev pub retry_max : ℕ
retry_max = 5

abbrev pub row_of : Inflight → ℕ → List Slot
row_of t client_idx = get_or t.rows client_idx []

abbrev pub slot_bytes : Slot → ℕ
slot_bytes e = length e.topic + length e.payload

abbrev pub cleared : Slot → Slot
cleared e = record e { topic = []; payload = []; active = false }

-- `inflight_free_slot` on a row, with the running total of bytes.
unfoldable pub free_in_row : ℕ → List Slot → ℕ → ℕ × List Slot
free_in_row bytes [] slot = (bytes, [])
free_in_row bytes (e ∷ row) zero =
    if e.active
    then (if leb (slot_bytes e) bytes then bytes - slot_bytes e else 0, cleared e ∷ row)
    else (bytes, e ∷ row)
free_in_row bytes (e ∷ row) (suc slot) =
    let (bytes', row') = free_in_row bytes row slot in (bytes', e ∷ row')

unfoldable pub inflight_free_slot : Inflight → (client_idx slot : ℕ) → Inflight
unfolding free_in_row
inflight_free_slot t client_idx slot =
    let (bytes', row') = free_in_row t.bytes (row_of t client_idx) slot in
    record t { bytes = bytes'; rows = set t.rows client_idx row' }

-- `inflight_free_all_for_client` on a row: the loop frees slot after slot.
unfoldable pub free_all_in_row : ℕ → List Slot → ℕ × List Slot
free_all_in_row bytes [] = (bytes, [])
free_all_in_row bytes (e ∷ row) =
    let bytes' =
      if e.active then if leb (slot_bytes e) bytes then bytes - slot_bytes e else 0 else bytes in
    let (bytes'', row') = free_all_in_row bytes' row in
    (bytes'', (if e.active then cleared e else e) ∷ row')

unfoldable pub inflight_free_all_for_client : Inflight → ℕ → Inflight
unfolding free_all_in_row
inflight_free_all_for_client t client_idx =
    let (bytes', row') = free_all_in_row t.bytes (row_of t client_idx) in
    record t { bytes = bytes'; rows = set t.rows client_idx row' }

-- The first slot from `s` on that is not active.
unfoldable pub find_free_slot : List Slot → ℕ → Option ℕ
find_free_slot [] s = none
find_free_slot (e ∷ row) s = if e.active then find_free_slot row (s + 1) else some s

unfoldable pub count_active : List Slot → ℕ
count_active [] = 0
count_active (e ∷ row) = if e.active then suc (count_active row) else count_active row

-- The first active slot from `s` on that holds the packet identifier.
unfoldable pub find_id : List Slot → (packet_id s : ℕ) → Option ℕ
find_id [] packet_id s = none
find_id (e ∷ row) packet_id s =
    if e.active && (e.packet_id == packet_id) then some s else find_id row packet_id (s + 1)

-- The collision test of `inflight_next_packet_id`.
unfoldable pub holds_id : List Slot → ℕ → Bool
holds_id [] id = false
holds_id (e ∷ row) id = if e.active && (e.packet_id == id) then true else holds_id row id

-- `next_packet_id++`, a `uint16_t`, skipping 0.
abbrev pub next_id : ℕ → ℕ
next_id id = if (id + 1) % 65536 == 0 then 1 else (id + 1) % 65536

-- The loop of `inflight_next_packet_id`: the identifier, or 0 when the attempts are used up, and
-- the client's new `next_packet_id`.
unfoldable pub next_packet_id_loop : (attempts : ℕ) → List Slot → ℕ → ℕ × ℕ
unfolding holds_id
next_packet_id_loop zero row current = (0, current)
next_packet_id_loop (suc attempts) row current =
    let later = next_packet_id_loop attempts row (next_id current) in
    if holds_id row (next_id current) then later else (next_id current, next_id current)

unfoldable pub inflight_next_packet_id : List Slot → ℕ → ℕ × ℕ
unfolding next_packet_id_loop
inflight_next_packet_id row current = next_packet_id_loop 65535 row current

-- What `inflight_enqueue` returns: the tables, the client's `next_packet_id`, and the slot or -1.
abbrev pub Enqueued : Type 0
Enqueued = Inflight × ℕ × Option ℕ

-- The slot as `inflight_enqueue` fills it in.
abbrev pub first_send : (packet_id : ℕ) → (topic payload : List ℕ) → Bool → ℕ → Slot
first_send packet_id topic payload retain now = record {
  active = true;
  retries = 0;
  retain = retain;
  packet_id = packet_id;
  next_retry_ms = now + retry_initial_ms;
  topic = topic;
  payload = payload;
}

module _ (t : Inflight) (client_idx : ℕ) (alloc_ok : Bool) (topic payload : List ℕ) (retain : Bool)
    (now : ℕ) where
  -- From the packet identifier on: what `inflight_next_packet_id` returned, and the free slot.
  -- `alloc_ok` says whether the heap copies succeed.
  unfoldable pub enqueue_at : ℕ × ℕ → ℕ → Enqueued
  enqueue_at ids slot =
      let e = first_send ids.0 topic payload retain now in
      if ids.0 == 0
      then (t, ids.1, none)
      else if alloc_ok
      then (
        record t {
          rows = set t.rows client_idx (set (row_of t client_idx) slot e);
          bytes = (t.bytes + slot_bytes e) % 2 ^ 32;
        },
        ids.1,
        some slot,
      )
      else (t, ids.1, none)

  -- From the search for a free slot on.
  unfoldable pub enqueue_slot : (current : ℕ) → Option ℕ → Enqueued
  unfolding enqueue_at
  enqueue_slot current none = (t, current, none)
  enqueue_slot current (some slot) =
      enqueue_at (inflight_next_packet_id (row_of t client_idx) current) slot

  unfoldable pub inflight_enqueue : (current : ℕ) → Enqueued
  unfolding enqueue_slot find_free_slot
  inflight_enqueue current =
      if ltb total_bytes_max ((t.bytes + (length topic + length payload)) % 2 ^ 32)
      then (record t { cap_skips = (t.cap_skips + 1) % 2 ^ 32 }, current, none)
      else enqueue_slot current (find_free_slot (row_of t client_idx) 0)

abbrev pub free_found : Inflight → ℕ → Option ℕ → Inflight
free_found t client_idx none = t
free_found t client_idx (some slot) = inflight_free_slot t client_idx slot

-- PUBACK: the slot that holds the identifier is freed.
unfoldable pub inflight_ack : Inflight → (client_idx packet_id : ℕ) → Inflight
unfolding find_id
inflight_ack t client_idx packet_id =
    free_found t client_idx (find_id (row_of t client_idx) packet_id 0)
