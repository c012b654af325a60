-- ===== src/Csrf/Accepted.antt =====
-- What `csrf_verify` accepts, of a header and of the fields of a form.
use mqtt_broker_esp.Prelude.{
  ℕ, ◌≤◌, ◌<◌, ◌≡◌, ◌↔◌, refl, sym, ap, ◌∙◌, List, [], ◌∷◌, ◌++◌, true, length, take, drop,
  bytes_eq, leb, if◌then◌else◌, Option, none, some, codes, All, arith, Bool-cases, inl, inr,
}
use mqtt_broker_esp.Csrf.{parameter_name, starts_with, fitting, csrf_verify, verify_form, form_of}
use mqtt_broker_esp.Csrf.Verify.{ct_streq_iff}
use mqtt_broker_esp.Csrf.Form.{form_rest, IsField, csrf_field, find_csrf_form_param_lem}

-- The bytes behind "csrf=" in the first field that begins with it.
unfoldable pub csrf_value : List (List ℕ) → Option (List ℕ)
csrf_value [] = none
csrf_value (f ∷ fs) = if bytes_eq (take 5 f) (codes "csrf=") then some (drop 5 f) else csrf_value fs

-- The body of a request: absent, or fields joined by '&'.
abbrev pub body_text : Option (List ℕ × List (List ℕ)) → Option (List ℕ)
body_text none = none
body_text (some (f, fs)) = some (f ++ form_rest fs)

abbrev pub AreFields : Option (List ℕ × List (List ℕ)) → Type 0
AreFields none = Unit
AreFields (some (f, fs)) = All IsField (f ∷ fs)

-- The token that a request presents: the header unless it is absent or empty, else the form field.
abbrev pub presented :
    (header_token : Option (List ℕ)) → Option (List ℕ × List (List ℕ)) → Option (List ℕ)
presented (some (c ∷ cs)) body = some (c ∷ cs)
presented (some []) none = none
presented (some []) (some (f, fs)) = csrf_value (f ∷ fs)
presented none none = none
presented none (some (f, fs)) = csrf_value (f ∷ fs)

starts_with-take : (name f : List ℕ) → starts_with name f ≡ bytes_eq (take (length name) f) name
unfolding bytes_eq
starts_with-take [] f = refl
starts_with-take (n ∷ name) [] = refl
starts_with-take (n ∷ name) (c ∷ f) = ground (arith, starts_with-take name f)

-- A token that fits the scratch buffer is accepted if it is the value, which is then kept whole.
accepts_value :
    (token value : List ℕ)
    → length token < 37
    → (verify_form token (fitting value) ≡ true) ↔ (some value ≡ some token)
unfolding fitting
accepts_value token value h = elim (Bool-cases (leb 37 (length value))) [
  | inl long ↦ rw long ((λ e. absurd (cc), λ e. absurd (ground (arith, ap length (same e)))))
  | inr fits ↦
      rw fits (
        (λ e. ap some ((ct_streq_iff value token).0 e), λ e. (ct_streq_iff value token).1 (same e)))
]
  where
    same : some value ≡ some token → value ≡ token
    same e = cc

accepts_field :
    (token f : List ℕ) (fs : List (List ℕ))
    → length token < 37
    → (verify_form token (csrf_field f fs) ≡ true) ↔ (csrf_value (f ∷ fs) ≡ some token)
unfolding csrf_field csrf_value
accepts_field token f [] h = elim (Bool-cases (bytes_eq (take 5 f) (codes "csrf="))) [
  | inl hit ↦ rw (starts_with-take parameter_name f, hit) (accepts_value token (drop 5 f) h)
  | inr miss ↦ rw (starts_with-take parameter_name f, miss) ((λ e. absurd (cc), λ e. absurd (cc)))
]
accepts_field token f (g ∷ fs) h = elim (Bool-cases (bytes_eq (take 5 f) (codes "csrf="))) [
  | inl hit ↦ rw (starts_with-take parameter_name f, hit) (accepts_value token (drop 5 f) h)
  | inr miss ↦ rw (starts_with-take parameter_name f, miss) (accepts_field token g fs h)
]

accepts_form :
    (token f : List ℕ) (fs : List (List ℕ))
    → length token < 37
    → All IsField (f ∷ fs)
    → (verify_form token (form_of (some (f ++ form_rest fs))) ≡ true)
      ↔ (csrf_value (f ∷ fs) ≡ some token)
accepts_form token f fs h hf =
    let found = ap (verify_form token) (find_csrf_form_param_lem f fs hf) in
    let same = accepts_field token f fs h in (λ e. same.0 (sym found ∙ e), λ e. found ∙ same.1 e)

-- A request whose body, if it has one, is fields joined by '&' is accepted exactly when it presents the
-- token of this boot, of at most 36 bytes: in its header or, where that is absent or empty, in the first
-- field that begins with "csrf=". A header that is not the token refuses the request, whatever the form.
pub csrf_verify_iff :
    (token : List ℕ) (header_token : Option (List ℕ)) (body : Option (List ℕ × List (List ℕ)))
    → length token ≤ 36
    → AreFields body
    → (csrf_verify token header_token (body_text body) ≡ true)
      ↔ (presented header_token body ≡ some token)
unfolding csrf_verify
csrf_verify_iff token (some (c ∷ cs)) body h hf =
    (λ e. ap some ((ct_streq_iff (c ∷ cs) token).0 e), λ e. (ct_streq_iff (c ∷ cs) token).1 (cc e))
csrf_verify_iff token (some []) none h hf = (λ e. absurd (cc), λ e. absurd (cc))
csrf_verify_iff token (some []) (some (f, fs)) h hf = accepts_form token f fs (omega arith) hf
csrf_verify_iff token none none h hf = (λ e. absurd (cc), λ e. absurd (cc))
csrf_verify_iff token none (some (f, fs)) h hf = accepts_form token f fs (omega arith) hf
