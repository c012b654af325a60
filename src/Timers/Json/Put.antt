-- ===== src/Timers/Json/Put.antt =====
-- Pieces that main/timers.c writes to its buffer one after another fit exactly when the whole fits.
use mqtt_broker_esp.Prelude.{
  ℕ, ◌+◌, ◌≡◌, refl, sym, ap, ◌∙◌, List, [], ◌∷◌, ◌++◌, length, true, false, ltb, Option, none,
  some, arith, Bool-cases, inl, inr, length-append, append_assoc, append-nil,
}
use mqtt_broker_esp.Timers.Json.{◌>>=◌, put, put_escaped, append_json_string, escape_of}
use mqtt_broker_esp.Timers.Json.Strings.{escape_all, quoted}

pub bind_assoc {ℓ} :
    {A : Type ℓ} (m : Option A) (f g : A → Option A) → ((m >>= f) >>= g) ≡ (m >>= λ x. f x >>= g)
bind_assoc none f g = refl
bind_assoc (some a) f g = refl

bind-some {ℓ} : {A : Type ℓ} (m : Option A) → (m >>= λ x. some x) ≡ m
bind-some none = refl
bind-some (some a) = refl

module _ (n : ℕ) (buf : List ℕ) where
  pub put-put : (a c : List ℕ) → (put n buf a >>= λ b. put n b c) ≡ put n buf (a ++ c)
  put-put a c = elim (Bool-cases (ltb (length buf + length a) n)) [
    | inl fits ↦ elim (Bool-cases (ltb (length buf + length (a ++ c)) n)) [
      | inl all ↦
          let rest : ltb (length (buf ++ a) + length c) n ≡ true =
            ground (arith, length-append a c, length-append buf a) in
          rw (fits, all, rest) (ap some (append_assoc buf a c))
      | inr over ↦
          let rest : ltb (length (buf ++ a) + length c) n ≡ false =
            ground (arith, length-append a c, length-append buf a) in
          rw (fits, over, rest) refl
    ]
    | inr full ↦
        let over : ltb (length buf + length (a ++ c)) n ≡ false =
          ground (arith, length-append a c) in
        rw (full, over) refl
  ]

  pub put-none : (a : List ℕ) → (put n buf a >>= λ b. some b) ≡ put n buf (a ++ [])
  put-none a = bind-some (put n buf a) ∙ ap (put n buf) (sym (append-nil a))

  put-put_escaped :
      (s a : List ℕ) → (put n buf a >>= λ b. put_escaped n b s) ≡ put n buf (a ++ escape_all s)
  unfolding put_escaped escape_all
  put-put_escaped [] a = put-none a
  put-put_escaped (c ∷ s) a =
      sym (bind_assoc (put n buf a) (λ b. put n b (escape_of c)) (λ b. put_escaped n b s))
      ∙ ap (λ m. m >>= λ b. put_escaped n b s) (put-put a (escape_of c))
      ∙ put-put_escaped s (a ++ escape_of c)
      ∙ ap (put n buf) (append_assoc a (escape_of c) (escape_all s))

  pub put-append_json_string :
      (s a : List ℕ) → (put n buf a >>= λ b. append_json_string n b s) ≡ put n buf (a ++ quoted s)
  unfolding append_json_string
  put-append_json_string s a =
      sym (
        bind_assoc (put n buf a) (λ b. put n b (b'"' ∷ []))
          (λ b. put_escaped n b s >>= λ b. put n b (b'"' ∷ [])))
      ∙ ap (λ m. m >>= λ b. put_escaped n b s >>= λ b. put n b (b'"' ∷ [])) (put-put a (b'"' ∷ []))
      ∙ sym (
          bind_assoc (put n buf (a ++ (b'"' ∷ []))) (λ b. put_escaped n b s)
            (λ b. put n b (b'"' ∷ [])))
      ∙ ap (λ m. m >>= λ b. put n b (b'"' ∷ [])) (put-put_escaped s (a ++ (b'"' ∷ [])))
      ∙ put-put (a ++ (b'"' ∷ []) ++ escape_all s) (b'"' ∷ [])
      ∙ ap (put n buf) (
          append_assoc (a ++ (b'"' ∷ [])) (escape_all s) (b'"' ∷ [])
          ∙ append_assoc a (b'"' ∷ []) (escape_all s ++ (b'"' ∷ [])))
