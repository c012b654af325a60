-- ===== src/Inflight/Valid.antt =====
-- The in-flight tables stay well formed under every operation: the running total of bytes is right
-- and under its cap, and no client has two messages under one packet identifier.
use mqtt_broker_esp.Prelude.{
  ◌≢◌, sym, get_or-set_ne, ℕ, ◌+◌, ◌-◌, ◌%◌, ◌≤◌, ◌<◌, ◌≡◌, ◌⊎◌, inl, inr, refl, subst, List, [],
  Bool, true, false, length, get_elem?, set, ltb, ◌==◌, if-holds, Option, none, some, All, All-set,
  All-get_elem?, arith, get_elem?-get_or, get_or-set_self, length-set, ◌^◌,
}
use mqtt_broker_esp.Inflight.{
  Slot, Inflight, total_bytes_max, row_of, slot_bytes, inflight_free_slot, free_all_in_row,
  inflight_free_all_for_client, find_free_slot, count_active, find_id, holds_id,
  inflight_next_packet_id, enqueue_at, enqueue_slot, inflight_enqueue, first_send, inflight_ack,
  free_found, Enqueued,
}
use mqtt_broker_esp.Inflight.Ids.{IsFree, inflight_next_packet_id-IsFree}
use mqtt_broker_esp.Inflight.Bytes.{
  row_bytes, table_bytes, IsRow, table_bytes-set, row_bytes-le, free_in_row-bytes,
  free_in_row-RowOk, free_all_in_row-bytes, free_all_in_row-RowOk, find_free_slot-inactive,
  set-bytes, set-RowOk, find_id-frees, find_id-none,
}

pub record IsValid (t : Inflight) : Type 0 where
  pub rows_ok : All IsRow t.rows
  pub bytes_right : t.bytes ≡ table_bytes t.rows
  pub within_cap : t.bytes ≤ total_bytes_max

module _ (t : Inflight) (ci : ℕ) (v : IsValid t) (hi : ci < length t.rows) where
  -- The client's row, and a new row put in its place.
  row_is : get_elem? t.rows ci ≡ some (row_of t ci)
  row_is = get_elem?-get_or t.rows ci [] hi

  row_of-IsRow : IsRow (row_of t ci)
  row_of-IsRow = All-get_elem? IsRow t.rows ci v.rows_ok row_is

  pub replace-IsValid :
      (bytes rest : ℕ) (row' : List Slot) (skips : ℕ)
      → IsRow row'
      → t.bytes ≡ row_bytes (row_of t ci) + rest
      → bytes ≡ row_bytes row' + rest
      → bytes ≤ total_bytes_max
      → IsValid (record {
        rows = set t.rows ci row';
        bytes = bytes;
        dropped = t.dropped;
        cap_skips = skips;
      })
  replace-IsValid bytes rest row' skips hr hb hb' hc = record {
    rows_ok = All-set IsRow t.rows ci row' v.rows_ok hr;
    bytes_right = omega (arith, v.bytes_right, table_bytes-set t.rows ci (row_of t ci) row' row_is);
    within_cap = hc;
  }

  -- The bytes of the other rows.
  rest_of : (rest : ℕ) × (t.bytes ≡ row_bytes (row_of t ci) + rest)
  rest_of = (
    t.bytes - row_bytes (row_of t ci),
    omega (arith, v.bytes_right, row_bytes-le t.rows ci (row_of t ci) row_is),
  )

  pub inflight_free_slot-IsValid : (slot : ℕ) → IsValid (inflight_free_slot t ci slot)
  unfolding inflight_free_slot
  inflight_free_slot-IsValid slot =
      let (rest, hb) = rest_of in
      let f = free_in_row-bytes (row_of t ci) t.bytes slot rest hb in
      replace-IsValid _ rest _ t.cap_skips
        (
          free_in_row-RowOk (row_of t ci) t.bytes slot row_of-IsRow.0,
          omega (arith, f.2, row_of-IsRow.1),
        )
        hb f.0 (omega (arith, f.1, v.within_cap))

  -- On well-formed tables with a row for the client, `inflight_free_all_for_client` leaves them
  -- well formed, the client without a message in flight, and the total less the bytes of its
  -- messages.
  pub inflight_free_all_lem :
      IsValid (inflight_free_all_for_client t ci)
      × (count_active (row_of (inflight_free_all_for_client t ci) ci) ≡ 0)
      × ((inflight_free_all_for_client t ci).bytes + row_bytes (row_of t ci) ≡ t.bytes)
  unfolding inflight_free_all_for_client
  inflight_free_all_lem =
      let (rest, hb) = rest_of in
      let f = free_all_in_row-bytes (row_of t ci) t.bytes rest hb in
      (
        replace-IsValid _ rest _ t.cap_skips
            (free_all_in_row-RowOk (row_of t ci) t.bytes, omega (arith, f.3, row_of-IsRow.1)) hb
            (omega (arith, f.0, f.1)) (omega (arith, f.0, hb, v.within_cap)),
        rw (get_or-set_self t.rows ci (free_all_in_row t.bytes (row_of t ci)).1 [] hi) f.2,
        omega (arith, f.0, hb),
      )

  module _ (alloc_ok : Bool) (topic payload : List ℕ) (retain : Bool) (now current : ℕ)
      (hc : current < 65536) (hs : length topic + length payload < 2 ^ 31) where
    -- The tables and the result when a message is queued in `slot` under `id`.
    pub record IsQueued (t' : Inflight) (slot : ℕ) : Type 0 where
      pub id : ℕ
      pub id_free : IsFree (row_of t ci) id
      pub was_free : (e : Slot) × (get_elem? (row_of t ci) slot ≡ some e) × (e.active ≡ false)
      pub row_set : row_of t' ci ≡ set (row_of t ci) slot (first_send id topic payload retain now)
      pub bytes_added : t'.bytes ≡ t.bytes + (length topic + length payload)

    -- Refused, with the messages as they were, or queued.
    abbrev pub IsOutcome : Enqueued → Type 0
    IsOutcome r =
        IsValid r.0
        × (((r.2 ≡ none) × (r.0.rows ≡ t.rows) × (r.0.bytes ≡ t.bytes))
            ⊎ ((slot : ℕ) × (r.2 ≡ some slot) × IsQueued r.0 slot))

    enqueue_slot-IsOutcome :
        (t.bytes + (length topic + length payload)) % 2 ^ 32 ≤ total_bytes_max
        → (found : Option ℕ) → find_free_slot (row_of t ci) 0 ≡ found
        → IsOutcome (enqueue_slot t ci alloc_ok topic payload retain now current found)
    unfolding enqueue_slot enqueue_at
    enqueue_slot-IsOutcome cap none f = (v, inl (refl, refl, refl))
    enqueue_slot-IsOutcome cap (some slot) f =
        let ids = inflight_next_packet_id (row_of t ci) current in
        let free =
          inflight_next_packet_id-IsFree (row_of t ci) current hc (omega (arith, row_of-IsRow.1)) in
        if-holds IsOutcome (ids.0 == 0) (λ _. (v, inl (refl, refl, refl)))
          λ _.
            if-holds IsOutcome alloc_ok (λ _. queued ids.0 free) (λ _. (v, inl (refl, refl, refl)))
      where
        row : List Slot
        row = row_of t ci

        old : (e : Slot) × (get_elem? row slot ≡ some e) × (e.active ≡ false)
        old =
            let (k, e, ek, ee, ea) = find_free_slot-inactive row 0 slot f in
            (e, subst (λ n. get_elem? row n ≡ some e) (omega (arith, ek)) ee, ea)

        no_wrap :
            (t.bytes + (length topic + length payload)) % 2 ^ 32
            ≡ t.bytes + (length topic + length payload)
        no_wrap = omega (arith, v.within_cap)

        queued :
            (id : ℕ)
            → IsFree row id
            → let e = first_send id topic payload retain now in
              IsOutcome (
                record t {
                  rows = set t.rows ci (set row slot e);
                  bytes = (t.bytes + slot_bytes e) % 2 ^ 32;
                },
                (inflight_next_packet_id row current).1,
                some slot,
              )
        queued id free =
            let e = first_send id topic payload retain now in
            let (rest, hb) = rest_of in
            (
              replace-IsValid _ rest (set row slot e) t.cap_skips
                  (
                    set-RowOk row slot e row_of-IsRow.0 free,
                    omega (arith, length-set row slot e, row_of-IsRow.1),
                  )
                  hb (omega (arith, hb, no_wrap, set-bytes row slot old.0 e old.1 old.2 refl)) cap,
              inr (
                slot,
                refl,
                record {
                  id = id;
                  id_free = free;
                  was_free = old;
                  row_set = get_or-set_self t.rows ci (set row slot e) [] hi;
                  bytes_added = no_wrap;
                },
              ),
            )

  -- On well-formed tables with a row for the client, a `next_packet_id` of 16 bits and a topic
  -- and payload below 2^31 bytes together, `inflight_enqueue` keeps the tables well formed,
  -- whether it queues the message or refuses. A refusal leaves the messages and the bytes as
  -- they were. A message that is queued takes a slot of the client that was not active, under
  -- an identifier that the client's row does not hold, and adds its bytes to the total.
  pub inflight_enqueue_lem :
      (alloc_ok : Bool) (topic payload : List ℕ) (retain : Bool) (now current : ℕ)
      (hc : current < 65536) (hs : length topic + length payload < 2 ^ 31)
      → IsOutcome alloc_ok topic payload retain now current hc hs
          (inflight_enqueue t ci alloc_ok topic payload retain now current)
  unfolding inflight_enqueue
  inflight_enqueue_lem alloc_ok topic payload retain now current hc hs =
      if-holds (IsOutcome alloc_ok topic payload retain now current hc hs)
        (ltb total_bytes_max ((t.bytes + (length topic + length payload)) % 2 ^ 32))
        (λ _. (
          record { rows_ok = v.rows_ok; bytes_right = v.bytes_right; within_cap = v.within_cap },
          inl (refl, refl, refl),
        ))
        (λ cap.
          enqueue_slot-IsOutcome alloc_ok topic payload retain now current hc hs (ground arith) _
            refl)

  -- On well-formed tables with a row for the client, a PUBACK leaves the tables well formed,
  -- and afterwards the client's row holds its identifier no more.
  pub inflight_ack_lem :
      (packet_id : ℕ)
      → IsValid (inflight_ack t ci packet_id)
        × (holds_id (row_of (inflight_ack t ci packet_id) ci) packet_id ≡ false)
  unfolding inflight_ack
  inflight_ack_lem packet_id = by_search (find_id (row_of t ci) packet_id 0) refl
    where
      by_search :
          (found : Option ℕ)
          → find_id (row_of t ci) packet_id 0 ≡ found
          → IsValid (free_found t ci found)
            × (holds_id (row_of (free_found t ci found) ci) packet_id ≡ false)
      by_search none f = (v, find_id-none (row_of t ci) packet_id 0 f)
      by_search (some k) f =
          let (slot, ek, gone) =
            find_id-frees (row_of t ci) packet_id 0 k t.bytes row_of-IsRow.0 f in
          let same : k ≡ slot = omega (arith, ek) in
          (
            inflight_free_slot-IsValid k,
            rw same (unfold inflight_free_slot in rw (get_or-set_self t.rows ci _ [] hi) gone),
          )

  -- On well-formed tables with a row for the client and a `next_packet_id` of 16 bits, a
  -- message is queued whenever the byte total, with its 32-bit wrap-around, stays within the
  -- cap, a slot of the client's row is free and the heap copies succeed: the slot is then the
  -- first free one.
  pub inflight_enqueue_queues :
      (topic payload : List ℕ) (retain : Bool) (now current slot : ℕ)
      → current < 65536
      → (t.bytes + (length topic + length payload)) % 2 ^ 32 ≤ total_bytes_max
      → find_free_slot (row_of t ci) 0 ≡ some slot
      → (inflight_enqueue t ci true topic payload retain now current).2 ≡ some slot
  unfolding inflight_enqueue enqueue_slot enqueue_at
  inflight_enqueue_queues topic payload retain now current slot hc cap f =
      let free =
        inflight_next_packet_id-IsFree (row_of t ci) current hc (omega (arith, row_of-IsRow.1)) in
      rw (in_cap, f) (ground (arith, free.0))
    where
      in_cap : ltb total_bytes_max ((t.bytes + (length topic + length payload)) % 2 ^ 32) ≡ false
      in_cap = ground arith

-- The messages of another client stay when those of a client are freed.
pub row_of-free_all :
    (t : Inflight) (ci other : ℕ)
    → other ≢ ci
    → row_of (inflight_free_all_for_client t ci) other ≡ row_of t other
unfolding inflight_free_all_for_client
row_of-free_all t ci other ne =
    get_or-set_ne t.rows ci other (free_all_in_row t.bytes (row_of t ci)).1 [] (λ e. ne (sym e))
