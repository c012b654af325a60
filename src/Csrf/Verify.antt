-- ===== src/Csrf/Verify.antt =====
-- The comparison of tokens, and what the token looks like.
use mqtt_broker_esp.Prelude.{
  ℕ, ◌*◌, ◌/◌, ◌≤◌, ◌<◌, ◌≡◌, ◌↔◌, ◌⊎◌, inl, inr, refl, ap, List, [], ◌∷◌, true, length, bit_and,
  bit_or, bit_xor, ltb, ◌==◌, All, arith, Bool-cases, bit_or-zero, bit_xor-zero, low_nibble,
}
use mqtt_broker_esp.Csrf.{hex_char, bytes_to_hex, diff_loop, ct_streq}

diff_loop_iff :
    (a b : List ℕ) (diff : ℕ)
    → length a ≡ length b
    → (diff_loop a b diff ≡ 0) ↔ ((diff ≡ 0) × (a ≡ b))
unfolding diff_loop
diff_loop_iff [] [] diff h = (λ e. (e, refl), λ p. p.0)
diff_loop_iff [] (y ∷ b) diff h = absurd (omega arith)
diff_loop_iff (x ∷ a) [] diff h = absurd (omega arith)
diff_loop_iff (x ∷ a) (y ∷ b) diff h =
    let ih = diff_loop_iff a b (bit_or diff (bit_xor x y)) (omega arith) in
    (
      λ e.
          let rest = ih.0 e in
          let parts = (bit_or-zero diff (bit_xor x y)).0 rest.0 in
          let heads : x ≡ y = (bit_xor-zero x y).0 parts.1 in (parts.0, cc),
      λ p.
          let heads : x ≡ y = cc p.1 in
          ih.1 ((bit_or-zero diff (bit_xor x y)).1 (p.0, (bit_xor-zero x y).1 heads), cc p.1),
    )

-- The comparison in constant time is equality of strings.
pub ct_streq_iff : (a b : List ℕ) → (ct_streq a b ≡ true) ↔ (a ≡ b)
unfolding ct_streq
ct_streq_iff a b = elim (Bool-cases (length a == length b)) [
  | inl same ↦
      let d = diff_loop_iff a b 0 (ground arith) in
      (λ h. (d.0 (ground arith)).1, λ e. ground (arith, d.1 (refl, e)))
  | inr apart ↦ (λ h. ground arith, λ e. absurd (ground (arith, ap length e)))
]

-- A lower-case hexadecimal digit.
abbrev pub IsHex : ℕ → Type 0
IsHex c = ((b'0' ≤ c) × (c ≤ b'9')) ⊎ ((b'a' ≤ c) × (c ≤ b'f'))

hex_char-IsHex : (n : ℕ) → n < 16 → IsHex (hex_char n)
hex_char-IsHex n h = elim (Bool-cases (ltb n 10)) [
  | inl small ↦ rw small (inl (ground arith))
  | inr large ↦ rw large (inr (ground arith))
]

hex_char-injective : (m n : ℕ) → m < 16 → n < 16 → hex_char m ≡ hex_char n → m ≡ n
hex_char-injective m n hm hn e = ground arith

-- Bytes are written as two lower-case hexadecimal digits each, and no two strings of bytes are
-- written alike.
pub bytes_to_hex_lem :
    (a b : List ℕ)
    → All (λ x. x < 256) a
    → All (λ x. x < 256) b
    → (length (bytes_to_hex a) ≡ 2 * length a)
      × All IsHex (bytes_to_hex a)
      × (bytes_to_hex a ≡ bytes_to_hex b → a ≡ b)
unfolding bytes_to_hex
bytes_to_hex_lem [] [] ha hb = (refl, tt, λ e. refl)
bytes_to_hex_lem [] (y ∷ b) ha hb = (refl, tt, λ e. absurd (cc))
bytes_to_hex_lem (x ∷ a) [] ha hb =
    let ih = bytes_to_hex_lem a [] ha.1 tt in
    let hi : bit_and (x / 16) 0x0F ≡ x / 16 =
      omega (arith, low_nibble (x / 16) (omega (arith, ha.0))) in
    let lo = low_nibble x ha.0 in
    (
      omega (arith, ih.0),
      (hex_char-IsHex _ (omega (arith, hi, ha.0)), (hex_char-IsHex _ (omega (arith, lo)), ih.1)),
      λ e. absurd (cc),
    )
bytes_to_hex_lem (x ∷ a) (y ∷ b) ha hb =
    let ih = bytes_to_hex_lem a b ha.1 hb.1 in
    let hi : bit_and (x / 16) 0x0F ≡ x / 16 =
      omega (arith, low_nibble (x / 16) (omega (arith, ha.0))) in
    let lo = low_nibble x ha.0 in
    (
      omega (arith, ih.0),
      (hex_char-IsHex _ (omega (arith, hi, ha.0)), (hex_char-IsHex _ (omega (arith, lo)), ih.1)),
      λ e. ap_cons (nibbles x y ha.0 hb.0 (cc e) (cc e)) (ih.2 (cc e)),
    )
  where
    ap_cons : {u v : ℕ} {us vs : List ℕ} → u ≡ v → us ≡ vs → u ∷ us ≡ v ∷ vs
    ap_cons p q = cc

    nibbles :
        (x y : ℕ)
        → x < 256
        → y < 256
        → hex_char (bit_and (x / 16) 0x0F) ≡ hex_char (bit_and (y / 16) 0x0F)
        → hex_char (bit_and x 0x0F) ≡ hex_char (bit_and y 0x0F)
        → x ≡ y
    nibbles x y hx hy p q =
        let hix = low_nibble (x / 16) (omega arith) in
        let hiy = low_nibble (y / 16) (omega arith) in
        let lox = low_nibble x hx in
        let loy = low_nibble y hy in
        let his = hex_char-injective _ _ (omega (arith, hix)) (omega (arith, hiy)) p in
        let los = hex_char-injective _ _ (omega (arith, lox)) (omega (arith, loy)) q in
        omega (arith, hix, hiy, lox, loy, his, los)
