-- ===== src/Inflight/Tests.antt =====
-- The in-flight tables on a table of two clients.
use mqtt_broker_esp.Prelude.{ℕ, zero, suc, ◌≡◌, refl, List, [], ◌∷◌, true, false, arith, replicate}
use mqtt_broker_esp.Inflight.{Slot, Inflight, holds_id, inflight_next_packet_id, inflight_enqueue}
use mqtt_broker_esp.Inflight.Ids.{IsFree, inflight_next_packet_id-IsFree}
use mqtt_broker_esp.Inflight.Bytes.{RowOk, row_bytes, table_bytes}
use mqtt_broker_esp.Inflight.Valid.{IsValid, IsOutcome, inflight_enqueue_lem}

abbrev letter_a : List ℕ
letter_a = b'a' ∷ []

abbrev idle : Slot
idle = record {
  active = false;
  retries = 0;
  retain = false;
  packet_id = 0;
  next_retry_ms = 0;
  topic = [];
  payload = [];
}

abbrev sent : Slot
sent = record {
  active = true;
  retries = 0;
  retain = false;
  packet_id = 5;
  next_retry_ms = 15000;
  topic = letter_a;
  payload = 1 ∷ 2 ∷ [];
}

abbrev client_rows : List (List Slot)
client_rows = (sent ∷ replicate 19 idle) ∷ replicate 20 idle ∷ []

abbrev tables : Inflight
tables = record { rows = client_rows; bytes = 3; dropped = 0; cap_skips = 0 }

idle_row :
    (n : ℕ)
    → RowOk (replicate n idle)
      × (holds_id (replicate n idle) 5 ≡ false)
      × (row_bytes (replicate n idle) ≡ 0)
unfolding holds_id row_bytes
idle_row zero = (tt, refl, refl)
idle_row (suc n) = ((λ e. absurd (cc), (idle_row n).0), (idle_row n).1, (idle_row n).2)

tables-IsValid : IsValid tables
tables-IsValid = record {
  rows_ok = (
    (((λ e. (omega arith, omega arith, (idle_row 19).1)), (idle_row 19).0), refl),
    (((idle_row 20).0, refl), tt),
  );
  bytes_right = unfold table_bytes row_bytes in refl;
  within_cap = omega arith;
}

inflight_next_packet_id-IsFree_example :
    IsFree (sent ∷ idle ∷ []) (inflight_next_packet_id (sent ∷ idle ∷ []) 65535).0
inflight_next_packet_id-IsFree_example =
    inflight_next_packet_id-IsFree (sent ∷ idle ∷ []) 65535 (omega arith) (omega arith)

inflight_enqueue_lem_example :
    IsOutcome tables 0 tables-IsValid
      (omega arith)
      true
      letter_a
      (9 ∷ [])
      false
      1000
      5
      (omega arith)
      (omega arith)
      (inflight_enqueue tables 0 true letter_a (9 ∷ []) false 1000 5)
inflight_enqueue_lem_example =
    inflight_enqueue_lem tables 0 tables-IsValid (omega arith) true letter_a (9 ∷ []) false 1000 5
      (omega arith) (omega arith)
