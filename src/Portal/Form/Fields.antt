-- ===== src/Portal/Form/Fields.antt =====
-- main/portal_berry.c: `form_get_field` finds the field of a form that a browser sends.
use mqtt_broker_esp.Prelude.{
  ℕ, ◌/◌, ◌%◌, ◌<◌, ◌≡◌, ◌≢◌, refl, ap, sym, ◌∙◌, ◌-◌, zero, suc, Bool, take, List, [], ◌∷◌, ◌++◌,
  length, All, true, false, ◌==◌, bytes_eq, bytes_eq→eq, if◌then◌else◌, if-holds, none, some, arith,
  Bool-cases, inl, inr, append_assoc,
}
use mqtt_broker_esp.Portal.Form.{
  urldecode_into, to_ampersand, behind_key, find_field, form_get_field,
}
use mqtt_broker_esp.Portal.Form.RoundTrip.{
  is_unreserved, upper_hex, encode_byte, form_encode, urldecode_loop-form_encode,
}

-- A byte of a field's name.
abbrev pub IsKeyByte : ℕ → Type 0
IsKeyByte c = (c ≢ b'=') × (c ≢ b'&')

-- A field with a name of such bytes, and a value of any bytes.
pub record IsField (f : List ℕ × List ℕ) : Type 0 where
  pub plain_key : All IsKeyByte f.0
  pub bytes : All (λ c. c < 256) f.1

abbrev field_text : List ℕ × List ℕ → List ℕ
field_text f = f.0 ++ (b'=' ∷ form_encode f.1)

-- The fields of a form, joined by '&'.
unfoldable pub form_text : List (List ℕ × List ℕ) → List ℕ
form_text [] = []
form_text (f ∷ []) = field_text f
form_text (f ∷ g ∷ fields) = field_text f ++ (b'&' ∷ form_text (g ∷ fields))

-- The value of the first field of a name, or the empty string.
unfoldable pub field_value : List (List ℕ × List ℕ) → (key : List ℕ) → List ℕ
field_value [] key = []
field_value (f ∷ fields) key = if bytes_eq f.0 key then f.1 else field_value fields key

abbrev NoAmp : List ℕ → Type 0
NoAmp bytes = All (λ c. c ≢ b'&') bytes

NoAmp-append : (xs ys : List ℕ) → NoAmp xs → NoAmp ys → NoAmp (xs ++ ys)
NoAmp-append [] ys h k = k
NoAmp-append (x ∷ xs) ys h k = (h.0, NoAmp-append xs ys h.1 k)

upper_hex_no_amp : (x : ℕ) → upper_hex x ≢ b'&'
upper_hex_no_amp x = ground arith

NoAmp-encode_byte : (c : ℕ) → NoAmp (encode_byte c)
unfolding is_unreserved
NoAmp-encode_byte c =
    if-holds NoAmp (is_unreserved c) (λ e. (λ same. ground arith, tt))
      λ _.
        if-holds NoAmp (c == b' ') (λ _. (omega arith, tt))
          λ _. (omega arith, (upper_hex_no_amp (c / 16), (upper_hex_no_amp (c % 16), tt)))

NoAmp-form_encode : (s : List ℕ) → NoAmp (form_encode s)
unfolding form_encode
NoAmp-form_encode [] = tt
NoAmp-form_encode (c ∷ s) =
    NoAmp-append (encode_byte c) (form_encode s) (NoAmp-encode_byte c) (NoAmp-form_encode s)

NoAmp-key : (key : List ℕ) → All IsKeyByte key → NoAmp key
NoAmp-key [] h = tt
NoAmp-key (c ∷ key) h = (h.0.1, NoAmp-key key h.1)

to_ampersand-end : (bytes : List ℕ) → NoAmp bytes → to_ampersand bytes ≡ bytes
unfolding to_ampersand
to_ampersand-end [] h = refl
to_ampersand-end (c ∷ bytes) h =
    let other : (c == b'&') ≡ false = ground arith in
    rw other (ap (λ t. c ∷ t) (to_ampersand-end bytes h.1))

to_ampersand-more :
    (bytes rest : List ℕ) → NoAmp bytes → to_ampersand (bytes ++ (b'&' ∷ rest)) ≡ bytes
unfolding to_ampersand
to_ampersand-more [] rest h = refl
to_ampersand-more (c ∷ bytes) rest h =
    let other : (c == b'&') ≡ false = ground arith in
    rw other (ap (λ t. c ∷ t) (to_ampersand-more bytes rest h.1))

behind_key-same : (key rest : List ℕ) → behind_key key (key ++ (b'=' ∷ rest)) ≡ some rest
unfolding behind_key
behind_key-same [] rest = refl
behind_key-same (k ∷ key) rest =
    let same : (k == k) ≡ true = ground arith in rw same (behind_key-same key rest)

behind_key-other :
    (key name rest : List ℕ)
    → All IsKeyByte key
    → All IsKeyByte name
    → bytes_eq name key ≡ false
    → behind_key key (name ++ (b'=' ∷ rest)) ≡ none
unfolding behind_key bytes_eq
behind_key-other [] [] rest hk hn e = cc
behind_key-other [] (c ∷ name) rest hk hn e =
    let other : (c == b'=') ≡ false = ground arith in rw other refl
behind_key-other (k ∷ key) [] rest hk hn e =
    let other : (b'=' == k) ≡ false = ground arith in rw other refl
behind_key-other (k ∷ key) (c ∷ name) rest hk hn e = elim (Bool-cases (c == k)) [
  | inl same ↦ rw same (behind_key-other key name rest hk.1 hn.1 (rw same at e))
  | inr other ↦ rw other refl
]

module _ (key : List ℕ) (outsz : ℕ) where
  walk_end : (bytes : List ℕ) → NoAmp bytes → find_field false bytes key outsz ≡ []
  unfolding find_field
  walk_end [] h = refl
  walk_end (c ∷ bytes) h =
      let other : (c == b'&') ≡ false = ground arith in rw other (walk_end bytes h.1)

  walk_more :
      (bytes rest : List ℕ)
      → NoAmp bytes
      → find_field false (bytes ++ (b'&' ∷ rest)) key outsz ≡ find_field true rest key outsz
  unfolding find_field
  walk_more [] rest h = refl
  walk_more (c ∷ bytes) rest h =
      let other : (c == b'&') ≡ false = ground arith in rw other (walk_more bytes rest h.1)

  found :
      (text value : List ℕ)
      → behind_key key text ≡ some value
      → find_field true text key outsz ≡ urldecode_into (to_ampersand value) outsz
  unfolding find_field
  found [] value e = absurd (nothing key e)
    where
      nothing : (key : List ℕ) → behind_key key [] ≡ some value → ⊥
      nothing [] e = cc
      nothing (k ∷ key) e = cc
  found (c ∷ text) value e = rw e refl

  not_found :
      (c : ℕ) (text : List ℕ)
      → c ≢ b'&'
      → behind_key key (c ∷ text) ≡ none
      → find_field true (c ∷ text) key outsz ≡ find_field false text key outsz
  unfolding find_field
  not_found c text h e = let other : (c == b'&') ≡ false = ground arith in rw (e, other) refl

  skip_end :
      (bytes : List ℕ)
      → NoAmp bytes
      → behind_key key bytes ≡ none
      → find_field true bytes key outsz ≡ []
  skip_end [] h e = unfold find_field in refl
  skip_end (c ∷ bytes) h e = not_found c bytes h.0 e ∙ walk_end bytes h.1

  skip_more :
      (bytes rest : List ℕ)
      → 0 < length bytes
      → NoAmp bytes
      → behind_key key (bytes ++ (b'&' ∷ rest)) ≡ none
      → find_field true (bytes ++ (b'&' ∷ rest)) key outsz ≡ find_field true rest key outsz
  skip_more [] rest n h e = absurd (omega arith)
  skip_more (c ∷ bytes) rest n h e =
      not_found c (bytes ++ (b'&' ∷ rest)) h.0 e ∙ walk_more bytes rest h.1

  module _ (f : List ℕ × List ℕ) (hf : IsField f) (hk : All IsKeyByte key) where
    NoAmp-field_text : NoAmp (field_text f)
    NoAmp-field_text =
        NoAmp-append f.0 (b'=' ∷ form_encode f.1) (NoAmp-key f.0 hf.plain_key)
          (omega arith, NoAmp-form_encode f.1)

    decoded : urldecode_into (form_encode f.1) outsz ≡ take (outsz - 1) f.1
    decoded = unfold urldecode_into in urldecode_loop-form_encode outsz f.1 hf.bytes

    this_key :
        (value : List ℕ)
        → bytes_eq f.0 key ≡ true
        → behind_key key (f.0 ++ (b'=' ∷ value)) ≡ some value
    this_key value e =
        ap (λ k. behind_key key (k ++ (b'=' ∷ value))) (bytes_eq→eq f.0 key e)
        ∙ behind_key-same key value

    regroup :
        (rest : List ℕ)
        → field_text f ++ (b'&' ∷ rest) ≡ f.0 ++ (b'=' ∷ (form_encode f.1 ++ (b'&' ∷ rest)))
    regroup rest = append_assoc f.0 (b'=' ∷ form_encode f.1) (b'&' ∷ rest)

    last_field :
        find_field true (field_text f) key outsz
        ≡ (if bytes_eq f.0 key then take (outsz - 1) f.1 else [])
    last_field = elim (Bool-cases (bytes_eq f.0 key)) [
      | inl same ↦ rw same (
          found (field_text f) (form_encode f.1) (this_key (form_encode f.1) same)
          ∙ ap (λ t. urldecode_into t outsz)
              (to_ampersand-end (form_encode f.1) (NoAmp-form_encode f.1))
          ∙ decoded)
      | inr other ↦ rw other (
          skip_end (field_text f) NoAmp-field_text
            (behind_key-other key f.0 (form_encode f.1) hk hf.plain_key other))
    ]

    next_field :
        (rest : List ℕ)
        → find_field true (field_text f ++ (b'&' ∷ rest)) key outsz
          ≡ (if bytes_eq f.0 key then take (outsz - 1) f.1 else find_field true rest key outsz)
    next_field rest =
        let behind : List ℕ = form_encode f.1 ++ (b'&' ∷ rest) in
        elim (Bool-cases (bytes_eq f.0 key)) [
          | inl same ↦ rw same (
              ap (λ t. find_field true t key outsz) (regroup rest)
              ∙ found (f.0 ++ (b'=' ∷ behind)) behind (this_key behind same)
              ∙ ap (λ t. urldecode_into t outsz)
                  (to_ampersand-more (form_encode f.1) rest (NoAmp-form_encode f.1))
              ∙ decoded)
          | inr other ↦ rw other (
              skip_more (field_text f) rest (nonempty f.0) NoAmp-field_text (
                ap (behind_key key) (regroup rest)
                ∙ behind_key-other key f.0 behind hk hf.plain_key other))
        ]
      where
        nonempty : (name : List ℕ) → 0 < length (name ++ (b'=' ∷ form_encode f.1))
        nonempty [] = omega arith
        nonempty (c ∷ name) = omega arith

take-nil : (n : ℕ) → take {A = ℕ} n [] ≡ []
take-nil zero = refl
take-nil (suc n) = refl

take_if :
    (n : ℕ) (b : Bool) (xs ys : List ℕ)
    → take n (if b then xs else ys) ≡ (if b then take n xs else take n ys)
take_if n true xs ys = refl
take_if n false xs ys = refl

find_field-form_text :
    (fields : List (List ℕ × List ℕ)) (key : List ℕ) (outsz : ℕ)
    → All IsField fields
    → All IsKeyByte key
    → find_field true (form_text fields) key outsz ≡ take (outsz - 1) (field_value fields key)
unfolding form_text field_value
find_field-form_text [] key outsz h hk = unfold find_field in sym (take-nil (outsz - 1))
find_field-form_text (f ∷ []) key outsz h hk =
    last_field key outsz f h.0 hk
    ∙ ap (λ v. if bytes_eq f.0 key then take (outsz - 1) f.1 else v) (sym (take-nil (outsz - 1)))
    ∙ sym (take_if (outsz - 1) (bytes_eq f.0 key) f.1 [])
find_field-form_text (f ∷ g ∷ fields) key outsz h hk =
    next_field key outsz f h.0 hk (form_text (g ∷ fields))
    ∙ ap (λ v. if bytes_eq f.0 key then take (outsz - 1) f.1 else v)
        (find_field-form_text (g ∷ fields) key outsz h.1 hk)
    ∙ sym (take_if (outsz - 1) (bytes_eq f.0 key) f.1 (field_value (g ∷ fields) key))

-- On the form of a browser, whose names hold no '=' and no '&' and whose values are encoded, the field
-- is the value of the first field of that name, any bytes in it, cut to what
-- fits the array with its NUL, or the empty string if there is no such field.
pub form_get_field-form_text :
    (fields : List (List ℕ × List ℕ)) (key : List ℕ) (outsz : ℕ)
    → 0 < outsz
    → All IsField fields
    → All IsKeyByte key
    → form_get_field (form_text fields) key outsz ≡ take (outsz - 1) (field_value fields key)
unfolding form_get_field
form_get_field-form_text fields key outsz room h hk =
    let some_room : (outsz == 0) ≡ false = ground arith in
    rw some_room (find_field-form_text fields key outsz h hk)
