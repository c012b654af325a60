-- ===== src/Inflight/Ids.antt =====
-- Packet identifiers: `inflight_next_packet_id` always finds one that is free.
use mqtt_broker_esp.Prelude.{
  ℕ, zero, suc, ◌+◌, ◌-◌, ◌≤◌, ◌<◌, ◌≡◌, inl, inr, List, [], ◌∷◌, Bool, true, false, ◌&&◌, length,
  ltb, leb, ◌==◌, if◌then◌else◌, arith, Bool-cases,
}
use mqtt_broker_esp.Inflight.{Slot, holds_id, next_id, next_packet_id_loop, inflight_next_packet_id}

-- How many steps of `next_id` lead from `current` to `id`.
steps_to : ℕ → ℕ → ℕ
steps_to current id = if ltb current id then id - current else id + 65535 - current

-- The slots whose identifier is reached in at most `k` steps.
reachable : ℕ → ℕ → List Slot → ℕ
reachable k current [] = 0
reachable k current (e ∷ row) =
    if e.active && leb (steps_to current e.packet_id) k
    then suc (reachable k current row)
    else reachable k current row

reachable-le : (k current : ℕ) (row : List Slot) → reachable k current row ≤ length row
unfolding reachable
reachable-le k current [] = omega arith
reachable-le k current (e ∷ row) = ground (arith, reachable-le k current row)

abbrev one_if : Bool → ℕ
one_if true = 1
one_if false = 0

-- An identifier that the next step meets is out of reach afterwards; any other is a step nearer.
step_nearer :
    (k current id : ℕ)
    → current < 65536
    → k < 65535
    → one_if (leb (steps_to (next_id current) id) k) + one_if (id == next_id current)
      ≤ one_if (leb (steps_to current id) (suc k))
unfolding steps_to
step_nearer k current id hc hk = ground arith

reachable_step :
    (k current : ℕ) (row : List Slot)
    → current < 65536
    → k < 65535
    → reachable k (next_id current) row + one_if (holds_id row (next_id current))
      ≤ reachable (suc k) current row
unfolding reachable holds_id
reachable_step k current [] hc hk = omega arith
reachable_step k current (e ∷ row) hc hk =
    ground (arith, reachable_step k current row hc hk, step_nearer k current e.packet_id hc hk)

-- An identifier that may be given out: not 0, of 16 bits, and not held by the row.
abbrev pub IsFree : List Slot → ℕ → Type 0
IsFree row id = (0 < id) × (id < 65536) × (holds_id row id ≡ false)

next_packet_id_loop-IsFree :
    (attempts : ℕ) (row : List Slot) (current : ℕ)
    → current < 65536
    → attempts ≤ 65535
    → reachable attempts current row < attempts
    → IsFree row (next_packet_id_loop attempts row current).0
unfolding next_packet_id_loop
next_packet_id_loop-IsFree zero row current hc ha hr = absurd (omega arith)
next_packet_id_loop-IsFree (suc attempts) row current hc ha hr =
    elim (Bool-cases (holds_id row (next_id current))) [
      | inl held ↦ rw held (
          next_packet_id_loop-IsFree attempts row (next_id current) (ground arith) (omega arith)
            (ground (arith, reachable_step attempts current row hc (omega arith))))
      | inr free ↦ rw free (ground arith, ground arith, free)
    ]

-- For a row of fewer than 65535 slots and a `next_packet_id` of 16 bits,
-- `inflight_next_packet_id` never gives up: it finds an identifier that is not 0, fits 16 bits
-- and is held by no active slot of the row.
pub inflight_next_packet_id-IsFree :
    (row : List Slot) (current : ℕ)
    → current < 65536
    → length row < 65535
    → IsFree row (inflight_next_packet_id row current).0
unfolding inflight_next_packet_id
inflight_next_packet_id-IsFree row current hc hl =
    next_packet_id_loop-IsFree 65535 row current hc (omega arith)
      (omega (arith, reachable-le 65535 current row))
