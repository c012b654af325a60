-- ===== src/Timers/SlotJson/Enough.antt =====
-- The loop over the members of a slot in main/timers.c ends by itself: more rounds change nothing.
use mqtt_broker_esp.Prelude.{
  ℕ, zero, suc, ◌≤◌, ◌<◌, ◌≡◌, refl, ap, List, [], ◌∷◌, length, Bool, ◌==◌, if◌then◌else◌, if-holds,
  Option, none, some, arith,
}
use mqtt_broker_esp.Timers.{Slot, timers_days_from_string}
use mqtt_broker_esp.Timers.Json.{◌>>=◌, skip_ws, parse_json_string, parse_json_int, skip_json_value}
use mqtt_broker_esp.Timers.Json.Shrinks.{
  Shrinks, bind-Shrinks, any-Shrinks, require-Shrinks, Leaves, after-Leaves, length-skip_ws,
  parse_json_string-Shrinks, parse_json_int-Shrinks, skip_json_value-Leaves,
}
use mqtt_broker_esp.Timers.SlotJson.{
  c_string, is_key, key_arm, key_repeat, key_retain, key_qos, key_window, key_min, key_days,
  key_topic, key_payload, key_label, flag_field, number_field, string_field, days_field, read_field,
  expect, read_member, after_member, read_members, in_range,
}

module _ (text : List ℕ) (n : ℕ) (h : length text ≤ n) where
  flag_field-Shrinks : (put_in : Bool → Slot) → Shrinks n (flag_field put_in text)
  flag_field-Shrinks put_in =
      bind-Shrinks n n (parse_json_int text) _ (parse_json_int-Shrinks text n h) (λ iv rest k. k)

  number_field-Shrinks :
      (limit : ℕ) (put_in : ℕ → Slot) → Shrinks n (number_field limit put_in text)
  number_field-Shrinks limit put_in =
      bind-Shrinks n n (parse_json_int text) _ (parse_json_int-Shrinks text n h)
        (λ iv rest k. require-Shrinks n (in_range iv limit) _ k)

  string_field-Shrinks :
      (size : ℕ) (put_in : List ℕ → Slot) → Shrinks n (string_field size put_in text)
  string_field-Shrinks size put_in =
      bind-Shrinks n n (parse_json_string text size) _ (parse_json_string-Shrinks text size n h)
        (λ str rest k. k)

  days_field-Shrinks : (s : Slot) → Shrinks n (days_field s text)
  days_field-Shrinks s =
      bind-Shrinks n n (parse_json_string text 9) _ (parse_json_string-Shrinks text 9 n h)
        (λ str rest k. any-Shrinks n (timers_days_from_string (c_string str)) _ (λ m. k))

  read_field-Shrinks : (key : List ℕ) (s : Slot) → Shrinks n (read_field key s text)
  unfolding read_field
  read_field-Shrinks key s =
      let P : Option (Slot × List ℕ) → Type 0 = Shrinks n in
      if-holds P (is_key key (b'a' ∷ []) key_arm)
        (λ _. flag_field-Shrinks (λ v. record s { arm = v }))
        λ _.
          if-holds P (is_key key (b'r' ∷ []) key_repeat)
            (λ _. flag_field-Shrinks (λ v. record s { repeat = v }))
            λ _.
              if-holds P (is_key key (b'r' ∷ b't' ∷ []) key_retain)
                (λ _. flag_field-Shrinks (λ v. record s { retain = v }))
                λ _.
                  if-holds P (is_key key (b'q' ∷ []) key_qos)
                    (λ _. number_field-Shrinks 1 (λ v. record s { qos = v }))
                    λ _.
                      if-holds P (is_key key (b'w' ∷ []) key_window)
                        (λ _. number_field-Shrinks 15 (λ v. record s { window = v }))
                        λ _.
                          if-holds P (is_key key (b'h' ∷ b'm' ∷ []) key_min)
                            (λ _. number_field-Shrinks 1439 (λ v. record s { minute_of_day = v }))
                            λ _.
                              if-holds P (is_key key (b'd' ∷ []) key_days)
                                (λ _. days_field-Shrinks s)
                                λ _.
                                  if-holds P (is_key key (b't' ∷ b'p' ∷ []) key_topic)
                                    (λ _.
                                      string_field-Shrinks 129
                                        (λ v. record s { topic = c_string v }))
                                    λ _.
                                      if-holds P (is_key key (b'p' ∷ b'l' ∷ []) key_payload)
                                        (λ _.
                                          string_field-Shrinks 257 (λ v. record s { payload = v }))
                                        λ _.
                                          if-holds P (is_key key (b'l' ∷ []) key_label)
                                            (λ _.
                                              string_field-Shrinks 25
                                                (λ v. record s { label = c_string v }))
                                            λ _.
                                              after-Leaves n n (skip_json_value text) _
                                                (skip_json_value-Leaves text n h) (λ t k. k)

expect-Leaves : (byte : ℕ) (text : List ℕ) (n : ℕ) → length text ≤ n → Leaves n (expect byte text)
expect-Leaves byte [] n h = tt
expect-Leaves byte (c ∷ cs) n h = if-holds (Leaves n) (c == byte) (λ _. omega arith) (λ _. tt)

read_member-Shrinks :
    (s : Slot) (text : List ℕ) (n : ℕ) → length text ≤ n → Shrinks n (read_member s text)
unfolding read_member
read_member-Shrinks s text n h =
    bind-Shrinks n n (parse_json_string (skip_ws text) 16) _
      (parse_json_string-Shrinks (skip_ws text) 16 n (omega (arith, length-skip_ws text)))
      (λ key rest k.
        after-Leaves n n (expect b':' (skip_ws rest)) _
          (expect-Leaves b':' (skip_ws rest) n (omega (arith, length-skip_ws rest)))
          (λ t l.
            read_field-Shrinks (skip_ws t) n (omega (arith, length-skip_ws t)) (c_string key) s))

-- Two ways to go on that agree on shorter texts.
after_member-same :
    (more more' : Slot → List ℕ → Option (Slot × List ℕ)) (s : Slot) (text : List ℕ) (n : ℕ)
    → length text ≤ suc n
    → ((s : Slot) (t : List ℕ) → length t ≤ n → more s t ≡ more' s t)
    → after_member more s text ≡ after_member more' s text
after_member-same more more' s [] n h e = refl
after_member-same more more' s (c ∷ cs) n h e =
    ap (λ next. if c == b',' then next else if c == b'}' then some (s, cs) else none)
      (e s cs (omega arith))

bind-same :
    (m : Option (Slot × List ℕ)) (f g : Slot × List ℕ → Option (Slot × List ℕ)) (n : ℕ)
    → Shrinks n m
    → ((s : Slot) (t : List ℕ) → length t ≤ n → f (s, t) ≡ g (s, t))
    → (m >>= f) ≡ (m >>= g)
bind-same none f g n h e = refl
bind-same (some (s, t)) f g n h e = e s t h

-- Any two numbers of rounds above the length of the text give the same slot and the same rest, or both fail: the loop
-- over the members of a slot ends by itself.
pub read_members-enough :
    (f g : ℕ) (s : Slot) (text : List ℕ)
    → length text < f
    → length text < g
    → read_members f s text ≡ read_members g s text
unfolding read_members
read_members-enough zero g s text h k = absurd (omega arith)
read_members-enough (suc f) zero s text h k = absurd (omega arith)
read_members-enough (suc f) (suc g) s [] h k = refl
read_members-enough (suc f) (suc g) s (c ∷ cs) h k =
    bind-same (read_member s (c ∷ cs)) _ _ (suc (length cs))
      (read_member-Shrinks s (c ∷ cs) (suc (length cs)) (omega arith))
      (λ s' t l.
        after_member-same (read_members f) (read_members g) s' (skip_ws t) (length cs)
          (omega (arith, length-skip_ws t))
          (λ s'' t' q. read_members-enough f g s'' t' (omega arith) (omega arith)))
