-- ===== src/Berry/Log/Ends.antt =====
-- The ends of lists: what the ring of the log keeps, loses and copies.
use mqtt_broker_esp.Prelude.{
  ℕ, zero, suc, ◌-◌, ◌≤◌, ◌<◌, ◌≡◌, refl, sym, ap, ◌∙◌, List, [], ◌∷◌, ◌++◌, length, take, drop,
  set, arith, length-append, length-take, drop-append_le, take-all,
}

-- The last bytes of a list.
abbrev pub last : (n : ℕ) → List ℕ → List ℕ
last n xs = drop (length xs - n) xs

pub take-set :
    (n : ℕ) (xs : List ℕ) (b : ℕ)
    → n < length xs
    → take (suc n) (set xs n b) ≡ take n xs ++ (b ∷ [])
take-set n [] b h = absurd (omega arith)
take-set zero (x ∷ xs) b h = refl
take-set (suc n) (x ∷ xs) b h = ap (λ t. x ∷ t) (take-set n xs b (omega arith))

pub drop-set : (n : ℕ) (xs : List ℕ) (b : ℕ) → drop (suc n) (set xs n b) ≡ drop (suc n) xs
drop-set n [] b = refl
drop-set zero (x ∷ xs) b = refl
drop-set (suc n) (x ∷ xs) b = drop-set n xs b

pub drop_one-append : (xs ys : List ℕ) → 0 < length xs → drop 1 (xs ++ ys) ≡ drop 1 xs ++ ys
drop_one-append xs ys h = drop-append_le 1 xs ys h

pub drop_one-drop : (n : ℕ) (xs : List ℕ) → drop 1 (drop n xs) ≡ drop (suc n) xs
drop_one-drop zero xs = refl
drop_one-drop (suc n) [] = refl
drop_one-drop (suc n) (x ∷ xs) = drop_one-drop n xs

-- One byte more in the history.
pub last-append_few :
    (n : ℕ) (xs : List ℕ) (b : ℕ) → length xs < n → last n (xs ++ (b ∷ [])) ≡ last n xs ++ (b ∷ [])
last-append_few n xs b h =
    ap (λ k. drop k (xs ++ (b ∷ []))) {x = length (xs ++ (b ∷ [])) - n} {y = 0}
      (omega (arith, length-append xs (b ∷ [])))
    ∙ ap (λ k. drop k xs ++ (b ∷ [])) {x = 0} {y = length xs - n} (omega arith)

pub last-append_full :
    (n : ℕ) (xs : List ℕ) (b : ℕ)
    → 0 < n
    → n ≤ length xs
    → last n (xs ++ (b ∷ [])) ≡ drop 1 (last n xs ++ (b ∷ []))
last-append_full n xs b h k =
    ap (λ j. drop j (xs ++ (b ∷ []))) {x = length (xs ++ (b ∷ [])) - n} {y = suc (length xs - n)}
      (omega (arith, length-append xs (b ∷ [])))
    ∙ sym (drop_one-drop (length xs - n) (xs ++ (b ∷ [])))
    ∙ ap (drop 1) (drop-append_le (length xs - n) xs (b ∷ []) (omega arith))

pub drop-all : (n : ℕ) (xs : List ℕ) → length xs ≤ n → drop n xs ≡ []
drop-all zero [] h = refl
drop-all zero (x ∷ xs) h = absurd (omega arith)
drop-all (suc n) [] h = refl
drop-all (suc n) (x ∷ xs) h = drop-all n xs (omega arith)

pub take-take_le : (m k : ℕ) (xs : List ℕ) → m ≤ k → take m (take k xs) ≡ take m xs
take-take_le zero k xs h = refl
take-take_le (suc m) zero xs h = absurd (omega arith)
take-take_le (suc m) (suc k) [] h = refl
take-take_le (suc m) (suc k) (x ∷ xs) h = ap (λ t. x ∷ t) (take-take_le m k xs (omega arith))

pub take-take_ge : (m k : ℕ) (xs : List ℕ) → k ≤ m → take m (take k xs) ≡ take k xs
take-take_ge m k xs h = take-all m (take k xs) (omega (arith, length-take k xs))

pub take-append_both :
    (m j : ℕ) (xs ys : List ℕ) → j ≡ m - length xs → take m (xs ++ ys) ≡ take m xs ++ take j ys
take-append_both zero j [] ys e = ap (λ k. take k ys) {x = 0} {y = j} (omega arith)
take-append_both (suc m) j [] ys e = ap (λ k. take k ys) {x = suc m} {y = j} (omega arith)
take-append_both zero j (x ∷ xs) ys e = ap (λ k. take k ys) {x = 0} {y = j} (omega arith)
take-append_both (suc m) j (x ∷ xs) ys e =
    ap (λ t. x ∷ t) (take-append_both m j xs ys (omega arith))

pub take_same : (m k : ℕ) (xs : List ℕ) → length xs ≤ m → length xs ≤ k → take m xs ≡ take k xs
take_same m k xs h j = take-all m xs h ∙ sym (take-all k xs j)
