-- ===== src/Csrf/Form.antt =====
-- The form parameter of a body that is fields joined by '&'.
use mqtt_broker_esp.Prelude.{
  ℕ, zero, suc, ◌≤◌, ◌≡◌, refl, List, [], ◌∷◌, ◌++◌, true, false, length, drop, ◌==◌, if◌then◌else◌,
  Option, none, All, arith, Bool-cases, inl, inr,
}
use mqtt_broker_esp.Csrf.{
  parameter_name, starts_with, parameter_value, fitting, find_from, find_csrf_form_param,
}

-- The fields behind the first, each with the '&' before it.
abbrev pub form_rest : List (List ℕ) → List ℕ
form_rest [] = []
form_rest (f ∷ fs) = b'&' ∷ (f ++ form_rest fs)

-- A field holds no '&'.
abbrev pub IsField : List ℕ → Type 0
IsField f = All (λ c. (c == b'&') ≡ false) f

-- The value of the first field that is named "csrf".
unfoldable pub csrf_field : List ℕ → List (List ℕ) → Option (List ℕ)
csrf_field f [] = if starts_with parameter_name f then fitting (drop 5 f) else none
csrf_field f (g ∷ fs) = if starts_with parameter_name f then fitting (drop 5 f) else csrf_field g fs

starts_with-append :
    (name f : List ℕ) (fs : List (List ℕ))
    → IsField name
    → starts_with name (f ++ form_rest fs) ≡ starts_with name f
starts_with-append [] f fs h = refl
starts_with-append (n ∷ name) [] [] h = refl
starts_with-append (n ∷ name) [] (g ∷ fs) h = rw h.0 refl
starts_with-append (n ∷ name) (c ∷ f) fs h = rw (starts_with-append name f fs h.1) refl

parameter_value-field :
    (f : List ℕ) (fs : List (List ℕ)) → IsField f → parameter_value (f ++ form_rest fs) ≡ f
unfolding parameter_value
parameter_value-field [] [] h = refl
parameter_value-field [] (g ∷ fs) h = refl
parameter_value-field (c ∷ f) fs h = rw (h.0, parameter_value-field f fs h.1) refl

starts_with-length : (name f : List ℕ) → starts_with name f ≡ true → length name ≤ length f
starts_with-length [] f h = omega arith
starts_with-length (n ∷ name) [] h = absurd (cc)
starts_with-length (n ∷ name) (c ∷ f) h = omega (arith, starts_with-length name f (ground arith))

drop-front :
    (n : ℕ) (f ys : List ℕ)
    → n ≤ length f
    → IsField f
    → (drop n (f ++ ys) ≡ drop n f ++ ys) × IsField (drop n f)
drop-front zero f ys h hf = (refl, hf)
drop-front (suc n) [] ys h hf = absurd (omega arith)
drop-front (suc n) (c ∷ f) ys h hf = drop-front n f ys (omega arith) hf.1

-- What is found behind a field.
abbrev find_behind : List (List ℕ) → Option (List ℕ)
find_behind [] = none
find_behind (g ∷ fs) = find_from true (g ++ form_rest fs)

find_from-field :
    (f : List ℕ) (fs : List (List ℕ))
    → IsField f
    → find_from false (f ++ form_rest fs) ≡ find_behind fs
unfolding find_from
find_from-field [] [] h = refl
find_from-field [] (g ∷ fs) h = refl
find_from-field (c ∷ f) fs h = rw h.0 (find_from-field f fs h.1)

find_from-hit :
    (c : ℕ) (f : List ℕ) (fs : List (List ℕ))
    → IsField (c ∷ f)
    → starts_with parameter_name (c ∷ f) ≡ true
    → find_from true (c ∷ (f ++ form_rest fs)) ≡ fitting (drop 5 (c ∷ f))
unfolding find_from
find_from-hit c f fs h hit =
    let d = drop-front 5 (c ∷ f) (form_rest fs) (starts_with-length parameter_name (c ∷ f) hit) h in
    rw
      (
        starts_with-append parameter_name (c ∷ f) fs (refl, (refl, (refl, (refl, (refl, tt))))),
        hit,
        d.0,
        parameter_value-field (drop 5 (c ∷ f)) fs d.1,
      )
      refl

find_from-miss :
    (c : ℕ) (f : List ℕ) (fs : List (List ℕ))
    → IsField (c ∷ f)
    → starts_with parameter_name (c ∷ f) ≡ false
    → find_from true (c ∷ (f ++ form_rest fs)) ≡ find_behind fs
unfolding find_from
find_from-miss c f fs h miss =
    rw
      (
        starts_with-append parameter_name (c ∷ f) fs (refl, (refl, (refl, (refl, (refl, tt))))),
        miss,
        h.0,
      )
      (find_from-field f fs h.1)

-- On a body of fields joined by '&', the form parameter is the value of the first field that begins
-- with "csrf=", unless that value does not fit the buffer.
pub find_csrf_form_param_lem :
    (f : List ℕ) (fs : List (List ℕ))
    → All IsField (f ∷ fs)
    → find_csrf_form_param (f ++ form_rest fs) ≡ csrf_field f fs
unfolding find_csrf_form_param csrf_field find_from
find_csrf_form_param_lem [] [] h = refl
find_csrf_form_param_lem [] (g ∷ fs) h = find_csrf_form_param_lem g fs h.1
find_csrf_form_param_lem (c ∷ f) [] h = elim (Bool-cases (starts_with parameter_name (c ∷ f))) [
  | inl hit ↦ rw (find_from-hit c f [] h.0 hit, hit) refl
  | inr miss ↦ rw (find_from-miss c f [] h.0 miss, miss) refl
]
find_csrf_form_param_lem (c ∷ f) (g ∷ fs) h =
    elim (Bool-cases (starts_with parameter_name (c ∷ f))) [
      | inl hit ↦ rw (find_from-hit c f (g ∷ fs) h.0 hit, hit) refl
      | inr miss ↦
          rw (find_from-miss c f (g ∷ fs) h.0 miss, miss) (find_csrf_form_param_lem g fs h.1)
    ]
