-- ===== src/Retain/Tests.antt =====
-- The retained store on two messages.
use mqtt_broker_esp.Prelude.{
  ℕ, ◌≡◌, refl, List, [], ◌∷◌, true, bytes_eq, if◌then◌else◌, some, arith,
}
use mqtt_broker_esp.Retain.{
  Store, Memory, retain_store, retain_drop, retain_mem_limit, unlink, retain_free_msg,
  retained_msg_size,
}
use mqtt_broker_esp.Retain.Unlink.{lookup, IsDistinct}
use mqtt_broker_esp.Retain.Lookup.{retain_store-lookup}
use mqtt_broker_esp.Retain.Sizes.{IsCounted, retain_store-IsCounted}

-- A 32-bit target with 8 MB of PSRAM.
abbrev heap : Memory
heap = record { struct_size = 32; psram_total = 8388608; free_heap = 200000 }

abbrev letter_a : List ℕ
letter_a = b'a' ∷ []

abbrev letter_b : List ℕ
letter_b = b'b' ∷ []

abbrev two_messages : Store
two_messages = record {
  messages =
      record { topic = letter_b; payload = 1 ∷ 2 ∷ []; stored_at_ms = 5000 }
      ∷ record { topic = letter_a; payload = 7 ∷ []; stored_at_ms = 1000 }
      ∷ [];
  bytes = 71;
  count = 2;
}

two_messages-IsDistinct : IsDistinct two_messages.messages
unfolding bytes_eq
two_messages-IsDistinct = ((refl, tt), (tt, tt))

two_messages-IsCounted : IsCounted heap two_messages
two_messages-IsCounted = record {
  bytes_right = unfold retained_msg_size in refl;
  count_right = refl;
  small = omega arith;
}

retain_store-lookup_example :
    lookup letter_b (retain_store heap true 6000 letter_a (9 ∷ []) two_messages).messages ≡ (
      if bytes_eq letter_a letter_b
      then some (record { topic = letter_a; payload = 9 ∷ []; stored_at_ms = 6000 })
      else lookup letter_b two_messages.messages)
unfolding bytes_eq
retain_store-lookup_example =
    retain_store-lookup heap 6000 letter_a (9 ∷ []) letter_b two_messages two_messages-IsDistinct
      (omega arith) (omega arith)
      (unfold retain_drop retain_free_msg unlink retained_msg_size retain_mem_limit in omega arith)

retain_store-IsCounted_example :
    IsCounted heap (retain_store heap true 6000 letter_a (9 ∷ []) two_messages)
retain_store-IsCounted_example =
    retain_store-IsCounted heap true 6000 letter_a (9 ∷ []) two_messages (omega arith)
      two_messages-IsCounted
