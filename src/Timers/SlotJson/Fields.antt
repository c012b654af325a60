-- ===== src/Timers/SlotJson/Fields.antt =====
-- What main/timers.c writes for one field of a slot is read back as that field.
use mqtt_broker_esp.Prelude.{
  ℕ, suc, ◌≤◌, ◌<◌, ◌≡◌, ◌≢◌, refl, ap, subst, List, [], ◌∷◌, ◌++◌, length, Bool, true, false, ◌&&◌,
  leb, ◌==◌, Option, none, some, arith, All, append_assoc, bytes_eq, bytes_eq→eq, every_below,
  every_below→at,
}
use mqtt_broker_esp.Timers.{
  Slot, mask_of, letters_of, timers_days_from_string, timers_days_to_string,
}
use mqtt_broker_esp.Timers.Json.{
  skip_ws, is_ws, parse_json_string, string_loop, escape, parse_json_int, starts_with_digit,
  decimal, read_digits, skip_space, parse_signed,
}
use mqtt_broker_esp.Timers.Json.Strings.{
  escape_all, parse_json_string-quoted, parse_json_int-decimal, starts-decimal,
}
use mqtt_broker_esp.Timers.SlotJson.{
  c_string, number_field, days_field, read_field, read_member, after_member, read_members,
  flag_char,
}

-- A C string holds no NUL.
abbrev pub NoNul : List ℕ → Type 0
NoNul s = All (λ c. c ≢ 0) s

pub c_string-NoNul : (s : List ℕ) → NoNul s → c_string s ≡ s
unfolding c_string
c_string-NoNul [] h = refl
c_string-NoNul (c ∷ s) h =
    let nonzero : (c == 0) ≡ false = ground (arith, h.0) in rw (nonzero, c_string-NoNul s h.1) refl

skip_ws-digit : (text : List ℕ) → starts_with_digit text ≡ true → skip_ws text ≡ text
unfolding skip_ws
skip_ws-digit [] h = refl
skip_ws-digit (c ∷ cs) h = let space : is_ws c ≡ false = ground arith in rw space refl

module _ (fuel : ℕ) (s : Slot) (text : List ℕ) where
  pub read-arm :
      (v : Bool)
      → read_members (suc fuel) s (b'"' ∷ b'a' ∷ b'"' ∷ b':' ∷ flag_char v ∷ b',' ∷ text)
        ≡ read_members fuel (record s { arm = v }) text
  unfolding read_members read_member read_field parse_json_string string_loop escape c_string
      skip_ws parse_json_int skip_space parse_signed read_digits bytes_eq
  read-arm true = refl
  read-arm false = refl

  pub read-repeat :
      (v : Bool)
      → read_members (suc fuel) s (b'"' ∷ b'r' ∷ b'"' ∷ b':' ∷ flag_char v ∷ b',' ∷ text)
        ≡ read_members fuel (record s { repeat = v }) text
  unfolding read_members read_member read_field parse_json_string string_loop escape c_string
      skip_ws parse_json_int skip_space parse_signed read_digits bytes_eq
  read-repeat true = refl
  read-repeat false = refl

  pub read-retain :
      (v : Bool)
      → read_members (suc fuel) s (b'"' ∷ b'r' ∷ b't' ∷ b'"' ∷ b':' ∷ flag_char v ∷ b',' ∷ text)
        ≡ read_members fuel (record s { retain = v }) text
  unfolding read_members read_member read_field parse_json_string string_loop escape c_string
      skip_ws parse_json_int skip_space parse_signed read_digits bytes_eq
  read-retain true = refl
  read-retain false = refl

  -- A key is read, and its value is left to the field.
  key-qos :
      (t : List ℕ)
      → read_member s (b'"' ∷ b'q' ∷ b'"' ∷ b':' ∷ t)
        ≡ number_field 1 (λ n. record s { qos = n }) (skip_ws t)
  unfolding read_member read_field parse_json_string string_loop escape c_string skip_ws bytes_eq
  key-qos t = refl

  key-window :
      (t : List ℕ)
      → read_member s (b'"' ∷ b'w' ∷ b'"' ∷ b':' ∷ t)
        ≡ number_field 15 (λ n. record s { window = n }) (skip_ws t)
  unfolding read_member read_field parse_json_string string_loop escape c_string skip_ws bytes_eq
  key-window t = refl

  key-minute :
      (t : List ℕ)
      → read_member s (b'"' ∷ b'h' ∷ b'm' ∷ b'"' ∷ b':' ∷ t)
        ≡ number_field 1439 (λ n. record s { minute_of_day = n }) (skip_ws t)
  unfolding read_member read_field parse_json_string string_loop escape c_string skip_ws bytes_eq
  key-minute t = refl

number_field-decimal :
    (limit : ℕ) (put_in : ℕ → Slot) (n : ℕ) (text : List ℕ)
    → n ≤ limit
    → limit < 10000
    → number_field limit put_in (skip_ws (decimal 5 n (b',' ∷ text))) ≡ some (put_in n, b',' ∷ text)
number_field-decimal limit put_in n text h k =
    let fits : leb n limit ≡ true = ground arith in
    rw
      (
        skip_ws-digit (decimal 5 n (b',' ∷ text)) (starts-decimal 4 n (b',' ∷ text) (omega arith)),
        parse_json_int-decimal 4 n (b',' ∷ text) (omega arith) (omega arith) refl,
        fits,
      )
      refl

pub read-qos :
    (fuel : ℕ) (s : Slot) (text : List ℕ) (n : ℕ)
    → n ≤ 1
    → read_members (suc fuel) s (b'"' ∷ b'q' ∷ b'"' ∷ b':' ∷ decimal 5 n (b',' ∷ text))
      ≡ read_members fuel (record s { qos = n }) text
unfolding read_members skip_ws
read-qos fuel s text n h =
    rw
      (
        key-qos fuel s text (decimal 5 n (b',' ∷ text)),
        number_field-decimal 1 (λ n. record s { qos = n }) n text h (omega arith),
      )
      refl

pub read-window :
    (fuel : ℕ) (s : Slot) (text : List ℕ) (n : ℕ)
    → n ≤ 15
    → read_members (suc fuel) s (b'"' ∷ b'w' ∷ b'"' ∷ b':' ∷ decimal 5 n (b',' ∷ text))
      ≡ read_members fuel (record s { window = n }) text
unfolding read_members skip_ws
read-window fuel s text n h =
    rw
      (
        key-window fuel s text (decimal 5 n (b',' ∷ text)),
        number_field-decimal 15 (λ n. record s { window = n }) n text h (omega arith),
      )
      refl

pub read-minute :
    (fuel : ℕ) (s : Slot) (text : List ℕ) (n : ℕ)
    → n ≤ 1439
    → read_members (suc fuel) s (b'"' ∷ b'h' ∷ b'm' ∷ b'"' ∷ b':' ∷ decimal 5 n (b',' ∷ text))
      ≡ read_members fuel (record s { minute_of_day = n }) text
unfolding read_members skip_ws
read-minute fuel s text n h =
    rw
      (
        key-minute fuel s text (decimal 5 n (b',' ∷ text)),
        number_field-decimal 1439 (λ n. record s { minute_of_day = n }) n text h (omega arith),
      )
      refl

-- Every day mask of seven bits is written without escapes and read back.
abbrev same_mask : ℕ → Option ℕ → Bool
same_mask m none = false
same_mask m (some k) = k == m

abbrev days_read_back : ℕ → Bool
days_read_back m =
    bytes_eq (escape_all (timers_days_to_string m)) (timers_days_to_string m)
    && bytes_eq (c_string (timers_days_to_string m)) (timers_days_to_string m)
    && (length (timers_days_to_string m) == 7)
    && same_mask m (timers_days_from_string (timers_days_to_string m))

all_days : every_below 128 days_read_back ≡ true
unfolding every_below bytes_eq c_string escape_all timers_days_to_string timers_days_from_string
    mask_of letters_of
all_days = refl

same_mask-some : (m : ℕ) (o : Option ℕ) → same_mask m o ≡ true → o ≡ some m
same_mask-some m none h = cc
same_mask-some m (some k) h = ap some (ground arith)

-- The seven letters of a mask are read back as the mask.
pub timers_days_from_string-timers_days_to_string :
    (m : ℕ) → m < 128 → timers_days_from_string (timers_days_to_string m) ≡ some m
timers_days_from_string-timers_days_to_string m h =
    let table = every_below→at 128 days_read_back m all_days h in
    same_mask-some m (timers_days_from_string (timers_days_to_string m)) (ground arith)

-- A string that is written as a value of a field is read back.
pub quoted-text :
    (size : ℕ) (s text : List ℕ)
    → length s < size
    → parse_json_string (b'"' ∷ (escape_all s ++ (b'"' ∷ text))) size ≡ some (s, text)
quoted-text size s text h =
    subst (λ t. parse_json_string (b'"' ∷ t) size ≡ some (s, text))
      (append_assoc (escape_all s) (b'"' ∷ []) text) (parse_json_string-quoted size s text h)

days_field-letters :
    (s : Slot) (m : ℕ) (text : List ℕ)
    → m < 128
    → days_field s (b'"' ∷ (timers_days_to_string m ++ (b'"' ∷ text)))
      ≡ some (record s { days = m }, text)
days_field-letters s m text h =
    let letters = timers_days_to_string m in
    let table = every_below→at 128 days_read_back m all_days h in
    let plain = bytes_eq→eq (escape_all letters) letters (ground arith) in
    let whole = bytes_eq→eq (c_string letters) letters (ground arith) in
    let str : parse_json_string (b'"' ∷ (letters ++ (b'"' ∷ text))) 9 ≡ some (letters, text) =
      subst (λ e. parse_json_string (b'"' ∷ (e ++ (b'"' ∷ text))) 9 ≡ some (letters, text)) plain
        (quoted-text 9 letters text (ground arith)) in
    rw (str, whole, timers_days_from_string-timers_days_to_string m h) refl

key-days :
    (s : Slot) (t : List ℕ)
    → read_member s (b'"' ∷ b'd' ∷ b'"' ∷ b':' ∷ b'"' ∷ t) ≡ days_field s (b'"' ∷ t)
unfolding read_member read_field parse_json_string string_loop escape skip_ws bytes_eq c_string
key-days s t = refl

pub read-days :
    (fuel : ℕ) (s : Slot) (text : List ℕ) (m : ℕ)
    → m < 128
    → read_members
        (suc fuel)
        s
        (b'"' ∷ b'd' ∷ b'"' ∷ b':' ∷ b'"' ∷ (timers_days_to_string m ++ (b'"' ∷ text)))
      ≡ after_member (read_members fuel) (record s { days = m }) (skip_ws text)
unfolding read_members
read-days fuel s text m h =
    rw (key-days s (timers_days_to_string m ++ (b'"' ∷ text)), days_field-letters s m text h) refl
