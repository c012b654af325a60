-- ===== src/Wire/Length/Encode.antt =====
-- What `mqtt_encode_remaining_length` writes, in plain arithmetic.
use mqtt_broker_esp.Prelude.{
  ℕ, zero, suc, ◌+◌, ◌/◌, ◌%◌, ◌^◌, ◌<◌, ◌≤◌, ◌≡◌, List, [], ◌∷◌, Acc, lt_wf, arith, ltb,
  if◌then◌else◌, set_top_bit, length,
}
use mqtt_broker_esp.Wire.Length.{encode_loop, encode_remaining_length}

-- The groups of seven bits, lowest first, for a number of at most `k + 1` groups.
unfoldable pub groups : ℕ → ℕ → List ℕ
groups zero v = v ∷ []
groups (suc k) v =
    let rest = groups k (v / 128) in if ltb v 128 then v ∷ [] else (v % 128 + 128) ∷ rest

encode_loop-groups : (k v : ℕ) (w : Acc ◌<◌ v) → v < 128 ^ suc k → encode_loop v w ≡ groups k v
unfolding encode_loop groups
encode_loop-groups zero v (Acc.intro _ smaller) h = ground arith
encode_loop-groups (suc k) v (Acc.intro _ smaller) h = grind (
  arith,
  set_top_bit (v % 128),
  λ (w : Acc ◌<◌ (v / 128)). encode_loop-groups k (v / 128) w (omega arith),
)

pub encode-groups : (v : ℕ) → v < 2 ^ 28 → encode_remaining_length v ≡ groups 3 v
unfolding encode_remaining_length
encode-groups v h = encode_loop-groups 3 v (lt_wf.apply v) (omega arith)

pub length-groups : (k v : ℕ) → (1 ≤ length (groups k v)) × (length (groups k v) ≤ k + 1)
unfolding groups
length-groups zero v = omega arith
length-groups (suc k) v = ground (arith, length-groups k (v / 128))
