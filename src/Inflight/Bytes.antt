-- ===== src/Inflight/Bytes.antt =====
-- Rows of the in-flight table: the bytes that their active slots hold, and their identifiers.
use mqtt_broker_esp.Prelude.{
  ℕ, zero, suc, ◌+◌, ◌-◌, ◌≤◌, ◌≡◌, refl, List, [], ◌∷◌, true, false, ◌&&◌, length, get_elem?, set,
  ◌==◌, if◌then◌else◌, if-holds, none, some, arith, Bool-cases, inl, inr, subst, ◌≢◌,
}
use mqtt_broker_esp.Inflight.{
  Slot, slot_bytes, cleared, free_in_row, free_all_in_row, find_free_slot, count_active, find_id,
  holds_id, per_client_max,
}
use mqtt_broker_esp.Inflight.Ids.{IsFree}

unfoldable pub row_bytes : List Slot → ℕ
row_bytes [] = 0
row_bytes (e ∷ row) = if e.active then slot_bytes e + row_bytes row else row_bytes row

unfoldable pub table_bytes : List (List Slot) → ℕ
unfolding row_bytes
table_bytes [] = 0
table_bytes (row ∷ rows) = row_bytes row + table_bytes rows

-- An active slot holds an identifier of 16 bits that is not 0 and that no later slot holds.
abbrev pub RowOk : List Slot → Type 0
RowOk [] = Unit
RowOk (e ∷ row) = (e.active ≡ true → IsFree row e.packet_id) × RowOk row

-- A row of the table.
abbrev pub IsRow : List Slot → Type 0
IsRow row = RowOk row × (length row ≡ per_client_max)

pub table_bytes-set :
    (rows : List (List Slot)) (i : ℕ) (row row' : List Slot)
    → get_elem? rows i ≡ some row
    → table_bytes (set rows i row') + row_bytes row ≡ table_bytes rows + row_bytes row'
unfolding table_bytes
table_bytes-set [] i row row' e = absurd (cc)
table_bytes-set (r ∷ rows) zero row row' e = ground arith
table_bytes-set (r ∷ rows) (suc i) row row' e = omega (arith, table_bytes-set rows i row row' e)

pub row_bytes-le :
    (rows : List (List Slot)) (i : ℕ) (row : List Slot)
    → get_elem? rows i ≡ some row
    → row_bytes row ≤ table_bytes rows
unfolding table_bytes
row_bytes-le [] i row e = absurd (cc)
row_bytes-le (r ∷ rows) zero row e = ground arith
row_bytes-le (r ∷ rows) (suc i) row e = omega (arith, row_bytes-le rows i row e)

-- Freeing a slot: the total follows, the row keeps its length, and no identifier comes in.
pub free_in_row-bytes :
    (row : List Slot) (bytes slot rest : ℕ)
    → bytes ≡ row_bytes row + rest
    → ((free_in_row bytes row slot).0 ≡ row_bytes (free_in_row bytes row slot).1 + rest)
      × ((free_in_row bytes row slot).0 ≤ bytes)
      × (length (free_in_row bytes row slot).1 ≡ length row)
unfolding row_bytes free_in_row
free_in_row-bytes [] bytes slot rest h = omega arith
free_in_row-bytes (e ∷ row) bytes zero rest h = ground arith
free_in_row-bytes (e ∷ row) bytes (suc slot) rest h = ground (
  arith,
  free_in_row-bytes row bytes slot rest,
  free_in_row-bytes row bytes slot (slot_bytes e + rest),
)

pub free_in_row-holds :
    (row : List Slot) (bytes slot id : ℕ)
    → holds_id row id ≡ false
    → holds_id (free_in_row bytes row slot).1 id ≡ false
unfolding holds_id free_in_row
free_in_row-holds [] bytes slot id h = refl
free_in_row-holds (e ∷ row) bytes zero id h = ground arith
free_in_row-holds (e ∷ row) bytes (suc slot) id h =
    ground (arith, free_in_row-holds row bytes slot id)

pub free_in_row-RowOk :
    (row : List Slot) (bytes slot : ℕ) → RowOk row → RowOk (free_in_row bytes row slot).1
unfolding free_in_row
free_in_row-RowOk [] bytes slot h = tt
free_in_row-RowOk (e ∷ row) bytes zero h =
    if-holds {A = ℕ × List Slot} (λ r. RowOk r.1) e.active (λ _. (λ f. cc, h.1)) (λ _. h)
free_in_row-RowOk (e ∷ row) bytes (suc slot) h = (
  λ a. ((h.0 a).0, (h.0 a).1, free_in_row-holds row bytes slot e.packet_id (h.0 a).2),
  free_in_row-RowOk row bytes slot h.1,
)

-- Freeing all: nothing is active any more.
pub free_all_in_row-bytes :
    (row : List Slot) (bytes rest : ℕ)
    → bytes ≡ row_bytes row + rest
    → ((free_all_in_row bytes row).0 ≡ rest)
      × (row_bytes (free_all_in_row bytes row).1 ≡ 0)
      × (count_active (free_all_in_row bytes row).1 ≡ 0)
      × (length (free_all_in_row bytes row).1 ≡ length row)
unfolding row_bytes free_all_in_row count_active
free_all_in_row-bytes [] bytes rest h = omega arith
free_all_in_row-bytes (e ∷ row) bytes rest h = ground (
  arith,
  free_all_in_row-bytes row bytes rest,
  free_all_in_row-bytes row (bytes - slot_bytes e) rest,
)

free_all_in_row-holds :
    (row : List Slot) (bytes id : ℕ) → holds_id (free_all_in_row bytes row).1 id ≡ false
unfolding holds_id free_all_in_row
free_all_in_row-holds [] bytes id = refl
free_all_in_row-holds (e ∷ row) bytes id = ground (
  arith,
  free_all_in_row-holds row bytes id,
  free_all_in_row-holds row (bytes - slot_bytes e) id,
  free_all_in_row-holds row 0 id,
)

pub free_all_in_row-RowOk : (row : List Slot) (bytes : ℕ) → RowOk (free_all_in_row bytes row).1
unfolding free_all_in_row
free_all_in_row-RowOk [] bytes = tt
free_all_in_row-RowOk (e ∷ row) bytes = (λ a. absurd (inactive a), free_all_in_row-RowOk row _)
  where
    inactive : (if e.active then cleared e else e).active ≡ true → ⊥
    inactive a = ground arith

-- What `inflight_find_free_slot` finds is a slot of the row that is not active.
pub find_free_slot-inactive :
    (row : List Slot) (s k : ℕ)
    → find_free_slot row s ≡ some k
    → (slot : ℕ) × (x : Slot) × (k ≡ s + slot) × (get_elem? row slot ≡ some x) × (x.active ≡ false)
unfolding find_free_slot
find_free_slot-inactive [] s k f = absurd (cc)
find_free_slot-inactive (x ∷ row) s k f = elim (Bool-cases x.active) [
  | inl busy ↦
      let (slot, y, ek, ey, ea) = find_free_slot-inactive row (s + 1) k (ground arith) in
      (suc slot, y, omega (arith, ek), ey, ea)
  | inr free ↦ (0, x, ground arith, refl, free)
]

-- A message put into a slot that is not active.
pub set-bytes :
    (row : List Slot) (slot : ℕ) (x e : Slot)
    → get_elem? row slot ≡ some x
    → x.active ≡ false
    → e.active ≡ true
    → row_bytes (set row slot e) ≡ slot_bytes e + row_bytes row
unfolding row_bytes
set-bytes [] slot x e g hx he = absurd (cc)
set-bytes (y ∷ row) zero x e g hx he = ground arith
set-bytes (y ∷ row) (suc slot) x e g hx he = ground (arith, set-bytes row slot x e g hx he)

set-holds :
    (row : List Slot) (slot id : ℕ) (e : Slot)
    → holds_id row id ≡ false
    → e.packet_id ≢ id
    → holds_id (set row slot e) id ≡ false
unfolding holds_id
set-holds [] slot id e h ne = refl
set-holds (y ∷ row) zero id e h ne = ground arith
set-holds (y ∷ row) (suc slot) id e h ne = ground (arith, set-holds row slot id e)

pub set-RowOk :
    (row : List Slot) (slot : ℕ) (e : Slot)
    → RowOk row
    → IsFree row e.packet_id
    → RowOk (set row slot e)
unfolding holds_id
set-RowOk [] slot e h f = tt
set-RowOk (y ∷ row) zero e h f = (λ _. (f.0, f.1, ground (arith, f.2)), h.1)
set-RowOk (y ∷ row) (suc slot) e h f = (
  λ a. ((h.0 a).0, (h.0 a).1, set-holds row slot y.packet_id e (h.0 a).2 (ground (arith, f.2))),
  set-RowOk row slot e h.1 (f.0, f.1, ground (arith, f.2)),
)

-- A PUBACK: what the search finds, or that the row does not hold the identifier.
pub find_id-frees :
    (row : List Slot) (packet_id s k bytes : ℕ)
    → RowOk row
    → find_id row packet_id s ≡ some k
    → (slot : ℕ) × (k ≡ s + slot) × (holds_id (free_in_row bytes row slot).1 packet_id ≡ false)
unfolding find_id free_in_row holds_id
find_id-frees [] packet_id s k bytes h f = absurd (cc)
find_id-frees (e ∷ row) packet_id s k bytes h f =
    elim (Bool-cases (e.active && (e.packet_id == packet_id))) [
      | inl here ↦
          let active : e.active ≡ true = ground arith in
          let same : e.packet_id ≡ packet_id = ground arith in
          let gone : holds_id row packet_id ≡ false =
            subst (λ p. holds_id row p ≡ false) same (h.0 active).2 in
          (0, ground arith, ground (arith, gone))
      | inr further ↦
          let (slot, ek, gone) = find_id-frees row packet_id (s + 1) k bytes h.1 (ground arith) in
          (suc slot, omega (arith, ek), rw (further, gone) refl)
    ]

pub find_id-none :
    (row : List Slot) (packet_id s : ℕ)
    → find_id row packet_id s ≡ none
    → holds_id row packet_id ≡ false
unfolding find_id holds_id
find_id-none [] packet_id s f = refl
find_id-none (e ∷ row) packet_id s f = ground (arith, find_id-none row packet_id (s + 1))
