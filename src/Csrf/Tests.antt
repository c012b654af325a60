-- ===== src/Csrf/Tests.antt =====
-- A short token, in a header and in a form.
use mqtt_broker_esp.Prelude.{ℕ, ◌≡◌, refl, arith, ◌↔◌, ◌++◌, List, [], ◌∷◌, true, none, some}
use mqtt_broker_esp.Csrf.{csrf_verify, parameter_name}
use mqtt_broker_esp.Csrf.Accepted.{presented, csrf_verify_iff}
use mqtt_broker_esp.Csrf.Form.{form_rest}

abbrev token : List ℕ
token = b'0' ∷ b'f' ∷ []

-- "a=1"
abbrev first_field : List ℕ
first_field = b'a' ∷ b'=' ∷ b'1' ∷ []

abbrev token_field : List ℕ
token_field = parameter_name ++ token

-- Another field's name ends in the parameter's.
abbrev other_field : List ℕ
other_field = b'x' ∷ token_field

csrf_verify_iff_example :
    (csrf_verify token none (some (first_field ++ form_rest (other_field ∷ token_field ∷ [])))
      ≡ true)
    ↔ (presented none (some (first_field, other_field ∷ token_field ∷ [])) ≡ some token)
csrf_verify_iff_example =
    csrf_verify_iff token none (some (first_field, other_field ∷ token_field ∷ [])) (omega arith) (
      (refl, (refl, (refl, tt))),
      (
        (refl, (refl, (refl, (refl, (refl, (refl, (refl, (refl, tt)))))))),
        ((refl, (refl, (refl, (refl, (refl, (refl, (refl, tt))))))), tt),
      ),
    )

abbrev some_bytes : List ℕ
some_bytes = 15 ∷ []

abbrev other_bytes : List ℕ
other_bytes = 16 ∷ []
