-- ===== src/Timers/SlotJson/Written.antt =====
-- The text that main/timers.c writes for a slot, when it fits in the buffer.
use mqtt_broker_esp.Prelude.{
  ℕ, zero, suc, ◌+◌, ◌/◌, ◌%◌, ◌≡◌, refl, sym, ap, ◌∙◌, List, [], ◌∷◌, ◌++◌, ltb, Option,
  Bool-cases, inl, inr, append_assoc,
}
use mqtt_broker_esp.Timers.{Slot, timers_days_to_string}
use mqtt_broker_esp.Timers.Json.{◌>>=◌, put, append_json_string, decimal}
use mqtt_broker_esp.Timers.Json.Strings.{escape_all, quoted}
use mqtt_broker_esp.Timers.Json.Put.{bind_assoc, put-put, put-none, put-append_json_string}
use mqtt_broker_esp.Timers.SlotJson.{slot_head, is_blank, put_string_field, put_slot, flag_char}
use mqtt_broker_esp.Timers.SlotJson.RoundTrip.{field_text, slot_text}

decimal-append : (f n : ℕ) (a b : List ℕ) → decimal f n a ++ b ≡ decimal f n (a ++ b)
unfolding decimal
decimal-append zero n a b = refl
decimal-append (suc f) n a b = elim (Bool-cases (ltb n 10)) [
  | inl small ↦ rw small refl
  | inr large ↦ rw large (decimal-append f (n / 10) ((b'0' + n % 10) ∷ a) b)
]

field_text-append : (key str a b : List ℕ) → field_text key str a ++ b ≡ field_text key str (a ++ b)
unfolding field_text
field_text-append key [] a b = refl
field_text-append key (c ∷ cs) a b =
    ap (λ t. b',' ∷ b'"' ∷ t)
      (append_assoc key (b'"' ∷ b':' ∷ b'"' ∷ (escape_all (c ∷ cs) ++ (b'"' ∷ a))) b
        ∙ ap (λ t. key ++ (b'"' ∷ b':' ∷ b'"' ∷ t))
            (append_assoc (escape_all (c ∷ cs)) (b'"' ∷ a) b))

abbrev before_days : List ℕ → List ℕ
before_days t = b',' ∷ b'"' ∷ b'd' ∷ b'"' ∷ b':' ∷ b'"' ∷ t

abbrev before_minute : List ℕ → List ℕ
before_minute t = b',' ∷ b'"' ∷ b'h' ∷ b'm' ∷ b'"' ∷ b':' ∷ t

abbrev before_window : List ℕ → List ℕ
before_window t = b',' ∷ b'"' ∷ b'w' ∷ b'"' ∷ b':' ∷ t

abbrev before_qos : Slot → List ℕ → List ℕ
before_qos s t =
    b'{'
    ∷ b'"'
    ∷ b'a'
    ∷ b'"'
    ∷ b':'
    ∷ flag_char s.arm
    ∷ b','
    ∷ b'"'
    ∷ b'r'
    ∷ b'"'
    ∷ b':'
    ∷ flag_char s.repeat
    ∷ b','
    ∷ b'"'
    ∷ b'r'
    ∷ b't'
    ∷ b'"'
    ∷ b':'
    ∷ flag_char s.retain
    ∷ b','
    ∷ b'"'
    ∷ b'q'
    ∷ b'"'
    ∷ b':'
    ∷ t

slot_head-append : (s : Slot) (a b : List ℕ) → slot_head s a ++ b ≡ slot_head s (a ++ b)
unfolding slot_head
slot_head-append s a b =
    let days = λ (t : List ℕ). before_days (timers_days_to_string s.days ++ (b'"' ∷ t)) in
    let minute = λ (t : List ℕ). before_minute (decimal 5 s.minute_of_day t) in
    let window = λ (t : List ℕ). before_window (decimal 5 s.window t) in
    ap (before_qos s) (
      decimal-append 5 s.qos (window (minute (days a))) b
      ∙ ap (λ t. decimal 5 s.qos (before_window t))
          (decimal-append 5 s.window (minute (days a)) b
            ∙ ap (λ t. decimal 5 s.window (before_minute t))
                (decimal-append 5 s.minute_of_day (days a) b
                  ∙ ap (λ t. decimal 5 s.minute_of_day (before_days t))
                      (append_assoc (timers_days_to_string s.days) (b'"' ∷ a) b))))

pub slot_text-append : (s : Slot) (a b : List ℕ) → slot_text s a ++ b ≡ slot_text s (a ++ b)
unfolding slot_text
slot_text-append s a b = elim (Bool-cases (is_blank s)) [
  | inl blank ↦ rw blank refl
  | inr written ↦ rw written (
      slot_head-append s
        (field_text (b't' ∷ b'p' ∷ []) s.topic
          (field_text (b'p' ∷ b'l' ∷ []) s.payload (field_text (b'l' ∷ []) s.label (b'}' ∷ a))))
        b
      ∙ ap (slot_head s) (
          field_text-append (b't' ∷ b'p' ∷ []) s.topic
            (field_text (b'p' ∷ b'l' ∷ []) s.payload (field_text (b'l' ∷ []) s.label (b'}' ∷ a))) b
          ∙ ap (field_text (b't' ∷ b'p' ∷ []) s.topic) (
              field_text-append (b'p' ∷ b'l' ∷ []) s.payload
                (field_text (b'l' ∷ []) s.label (b'}' ∷ a)) b
              ∙ ap (field_text (b'p' ∷ b'l' ∷ []) s.payload)
                  (field_text-append (b'l' ∷ []) s.label (b'}' ∷ a) b))))
]

whole-text :
    (s : Slot)
    → slot_head s []
        ++ field_text (b't' ∷ b'p' ∷ []) s.topic []
        ++ field_text (b'p' ∷ b'l' ∷ []) s.payload []
        ++ field_text (b'l' ∷ []) s.label []
        ++ (b'}' ∷ [])
      ≡ slot_head s (
          field_text
            (b't' ∷ b'p' ∷ [])
            s.topic
            (field_text (b'p' ∷ b'l' ∷ []) s.payload (field_text (b'l' ∷ []) s.label (b'}' ∷ []))))
whole-text s =
    let close = b'}' ∷ [] in
    let a = slot_head s [] in
    let t = field_text (b't' ∷ b'p' ∷ []) s.topic in
    let p = field_text (b'p' ∷ b'l' ∷ []) s.payload in
    let l = field_text (b'l' ∷ []) s.label in
    append_assoc (a ++ t [] ++ p []) (l []) close
    ∙ ap (λ x. a ++ t [] ++ p [] ++ x) (field_text-append (b'l' ∷ []) s.label [] close)
    ∙ append_assoc (a ++ t []) (p []) (l close)
    ∙ ap (λ x. a ++ t [] ++ x) (field_text-append (b'p' ∷ b'l' ∷ []) s.payload [] (l close))
    ∙ append_assoc a (t []) (p (l close))
    ∙ ap (λ x. a ++ x) (field_text-append (b't' ∷ b'p' ∷ []) s.topic [] (p (l close)))
    ∙ slot_head-append s [] (t (p (l close)))

module _ (n : ℕ) (buf : List ℕ) where
  put-put_string_field :
      (key str a : List ℕ)
      → (put n buf a >>= λ b. put_string_field n b key str) ≡ put n buf (a ++ field_text key str [])
  unfolding field_text
  put-put_string_field key [] a = put-none n buf a
  put-put_string_field key (c ∷ cs) a =
      let start = b',' ∷ b'"' ∷ (key ++ (b'"' ∷ b':' ∷ [])) in
      sym (bind_assoc (put n buf a) (λ b. put n b start) (λ b. append_json_string n b (c ∷ cs)))
      ∙ ap (λ m. m >>= λ b. append_json_string n b (c ∷ cs)) (put-put n buf a start)
      ∙ put-append_json_string n buf (c ∷ cs) (a ++ start)
      ∙ ap (put n buf) (
          append_assoc a start (quoted (c ∷ cs))
          ∙ ap (λ t. a ++ (b',' ∷ b'"' ∷ t))
              (append_assoc key (b'"' ∷ b':' ∷ []) (quoted (c ∷ cs))))

  pub chain-step :
      (a x : List ℕ) (f g : List ℕ → Option (List ℕ))
      → (put n buf a >>= f) ≡ put n buf (a ++ x)
      → (put n buf a >>= λ b. f b >>= g) ≡ (put n buf (a ++ x) >>= g)
  chain-step a x f g e = sym (bind_assoc (put n buf a) f g) ∙ ap (λ m. m >>= g) e

  -- The chain of writes for a slot is one write of its text.
  pub put_slot-text : (s : Slot) → put_slot n buf s ≡ put n buf (slot_text s [])
  unfolding put_slot slot_text
  put_slot-text s =
      let close = b'}' ∷ [] in
      let end = λ (b : List ℕ). put n b close in
      let topic = λ (b : List ℕ). put_string_field n b (b't' ∷ b'p' ∷ []) s.topic in
      let payload = λ (b : List ℕ). put_string_field n b (b'p' ∷ b'l' ∷ []) s.payload in
      let label = λ (b : List ℕ). put_string_field n b (b'l' ∷ []) s.label in
      let a = slot_head s [] in
      let t = field_text (b't' ∷ b'p' ∷ []) s.topic in
      let p = field_text (b'p' ∷ b'l' ∷ []) s.payload in
      let l = field_text (b'l' ∷ []) s.label in
      elim (Bool-cases (is_blank s)) [
        | inl blank ↦ rw blank refl
        | inr written ↦ rw written (
            chain-step a (t []) topic (λ b. payload b >>= λ b. label b >>= end)
              (put-put_string_field (b't' ∷ b'p' ∷ []) s.topic a)
            ∙ chain-step (a ++ t []) (p []) payload (λ b. label b >>= end)
                (put-put_string_field (b'p' ∷ b'l' ∷ []) s.payload (a ++ t []))
            ∙ chain-step (a ++ t [] ++ p []) (l []) label end
                (put-put_string_field (b'l' ∷ []) s.label (a ++ t [] ++ p []))
            ∙ put-put n buf (a ++ t [] ++ p [] ++ l []) close
            ∙ ap (put n buf) (whole-text s))
      ]
