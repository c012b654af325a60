-- ===== src/Berry/Tests.antt =====
-- The log of the Berry scripts on a few writes.
use mqtt_broker_esp.Prelude.{
  ℕ, ◌≡◌, refl, ap, List, [], ◌∷◌, length, take, replicate, true, codes, arith, zero, suc,
}
use mqtt_broker_esp.Berry.Log.{ring_size, berry_log_snapshot}
use mqtt_broker_esp.Berry.Log.Ends.{last}
use mqtt_broker_esp.Berry.Log.Pushed.{log_all, joined}
use mqtt_broker_esp.Berry.Log.Ring.{berry_log_snapshot-last}

length-replicate : (n : ℕ) → length (replicate {A = ℕ} n 0) ≡ n
length-replicate zero = refl
length-replicate (suc n) = ap suc (length-replicate n)

abbrev writes : List (List ℕ)
writes = codes "one" ∷ codes "two" ∷ []

berry_log_snapshot-last_example :
    berry_log_snapshot
      (log_all (record { ring = replicate ring_size 0; head = 0; total = 0 }) writes)
      5
      true
      true
    ≡ take 4 (last ring_size (joined writes))
berry_log_snapshot-last_example =
    berry_log_snapshot-last (replicate ring_size 0) writes 5 (length-replicate ring_size)
      (unfold joined in omega arith) (omega arith)
