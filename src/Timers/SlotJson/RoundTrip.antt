-- ===== src/Timers/SlotJson/RoundTrip.antt =====
-- A slot that main/timers.c writes as JSON is read back as the slot.
use mqtt_broker_esp.Prelude.{
  ℕ, suc, ◌≤◌, ◌<◌, ◌≡◌, refl, sym, ap, ◌∙◌, List, [], ◌∷◌, ◌++◌, length, true, false, bytes_eq,
  if◌then◌else◌, Option, some, arith, if-holds,
}
use mqtt_broker_esp.Timers.{Slot, empty_slot, timers_days_to_string}
use mqtt_broker_esp.Timers.Json.{skip_ws, parse_json_string, string_loop, escape, decimal}
use mqtt_broker_esp.Timers.Json.Strings.{escape_all}
use mqtt_broker_esp.Timers.SlotJson.{
  c_string, string_field, read_field, read_member, after_member, read_members, flag_char, is_blank,
  is_empty_list, slot_head, parse_slot_object,
}
use mqtt_broker_esp.Timers.SlotJson.Fields.{
  NoNul, c_string-NoNul, quoted-text, read-arm, read-repeat, read-retain, read-qos, read-window,
  read-minute, read-days,
}

-- The slots that `timers_validate` and C's types allow to be stored.
pub record IsStorable (s : Slot) : Type 0 where
  pub qos : s.qos ≤ 1
  pub window : s.window ≤ 15
  pub minute : s.minute_of_day ≤ 1439
  pub days : s.days < 128
  pub topic : length s.topic ≤ 128
  pub payload : length s.payload ≤ 256
  pub label : length s.label ≤ 24
  pub topic_text : NoNul s.topic
  pub label_text : NoNul s.label

-- An optional field, before a text.
unfoldable pub field_text : (key str text : List ℕ) → List ℕ
field_text key [] text = text
field_text key (c ∷ cs) text =
    b',' ∷ b'"' ∷ (key ++ (b'"' ∷ b':' ∷ b'"' ∷ (escape_all (c ∷ cs) ++ (b'"' ∷ text))))

-- What is written for a slot, before a text.
unfoldable pub slot_text : Slot → List ℕ → List ℕ
slot_text s text =
    if is_blank s
    then b'{' ∷ b'}' ∷ text
    else slot_head s (
        field_text (b't' ∷ b'p' ∷ []) s.topic
          (field_text (b'p' ∷ b'l' ∷ []) s.payload (field_text (b'l' ∷ []) s.label (b'}' ∷ text))))

module _ (s : Slot) (t : List ℕ) where
  key-topic :
      read_member s (b'"' ∷ b't' ∷ b'p' ∷ b'"' ∷ b':' ∷ b'"' ∷ t)
      ≡ string_field 129 (λ x. record s { topic = c_string x }) (b'"' ∷ t)
  unfolding read_member read_field parse_json_string string_loop escape skip_ws bytes_eq c_string
  key-topic = refl

  key-payload :
      read_member s (b'"' ∷ b'p' ∷ b'l' ∷ b'"' ∷ b':' ∷ b'"' ∷ t)
      ≡ string_field 257 (λ x. record s { payload = x }) (b'"' ∷ t)
  unfolding read_member read_field parse_json_string string_loop escape skip_ws bytes_eq c_string
  key-payload = refl

  key-label :
      read_member s (b'"' ∷ b'l' ∷ b'"' ∷ b':' ∷ b'"' ∷ t)
      ≡ string_field 25 (λ x. record s { label = c_string x }) (b'"' ∷ t)
  unfolding read_member read_field parse_json_string string_loop escape skip_ws bytes_eq c_string
  key-label = refl

abbrev rest_of : ℕ → Slot → List ℕ → Option (Slot × List ℕ)
rest_of fuel s text = after_member (read_members fuel) s (skip_ws text)

read-end : (fuel : ℕ) (s : Slot) (text : List ℕ) → rest_of fuel s (b'}' ∷ text) ≡ some (s, text)
unfolding skip_ws
read-end fuel s text = refl

read-label :
    (fuel : ℕ) (s : Slot) (l text : List ℕ)
    → length l ≤ 24
    → NoNul l
    → rest_of (suc fuel) (record s { label = [] }) (field_text (b'l' ∷ []) l (b'}' ∷ text))
      ≡ some (record s { label = l }, text)
unfolding field_text read_members skip_ws
read-label fuel s [] text h k = refl
read-label fuel s (c ∷ cs) text h k =
    rw
      (
        key-label (record s { label = [] }) (escape_all (c ∷ cs) ++ (b'"' ∷ b'}' ∷ text)),
        quoted-text 25 (c ∷ cs) (b'}' ∷ text) (omega arith),
        c_string-NoNul (c ∷ cs) k,
      )
      refl

read-payload :
    (fuel : ℕ) (s : Slot) (p l text : List ℕ)
    → length p ≤ 256
    → length l ≤ 24
    → NoNul l
    → rest_of
        (suc (suc fuel))
        (record s { payload = []; label = [] })
        (field_text (b'p' ∷ b'l' ∷ []) p (field_text (b'l' ∷ []) l (b'}' ∷ text)))
      ≡ some (record s { payload = p; label = l }, text)
unfolding field_text read_members skip_ws
read-payload fuel s [] l text h k n = read-label (suc fuel) (record s { payload = [] }) l text k n
read-payload fuel s (c ∷ cs) l text h k n =
    let tail = field_text (b'l' ∷ []) l (b'}' ∷ text) in
    rw
      (
        key-payload (record s { payload = []; label = [] }) (escape_all (c ∷ cs) ++ (b'"' ∷ tail)),
        quoted-text 257 (c ∷ cs) tail (omega arith),
      )
      (read-label fuel (record s { payload = c ∷ cs }) l text k n)

read-topic :
    (fuel : ℕ) (s : Slot) (t p l text : List ℕ)
    → length t ≤ 128
    → NoNul t
    → length p ≤ 256
    → length l ≤ 24
    → NoNul l
    → rest_of
        (suc (suc (suc fuel)))
        (record s { topic = []; payload = []; label = [] })
        (field_text
          (b't' ∷ b'p' ∷ [])
          t
          (field_text (b'p' ∷ b'l' ∷ []) p (field_text (b'l' ∷ []) l (b'}' ∷ text))))
      ≡ some (record s { topic = t; payload = p; label = l }, text)
unfolding field_text read_members skip_ws
read-topic fuel s [] p l text h m k i n =
    read-payload (suc fuel) (record s { topic = [] }) p l text k i n
read-topic fuel s (c ∷ cs) p l text h m k i n =
    let tail = field_text (b'p' ∷ b'l' ∷ []) p (field_text (b'l' ∷ []) l (b'}' ∷ text)) in
    rw
      (
        key-topic (record s { topic = []; payload = []; label = [] })
            (escape_all (c ∷ cs) ++ (b'"' ∷ tail)),
        quoted-text 129 (c ∷ cs) tail (omega arith),
        c_string-NoNul (c ∷ cs) m,
      )
      (read-payload fuel (record s { topic = c ∷ cs }) p l text k i n)

is_empty_list→nil : (l : List ℕ) → is_empty_list l ≡ true → l ≡ []
is_empty_list→nil [] h = refl
is_empty_list→nil (c ∷ cs) h = cc

blank-empty : (s : Slot) → is_blank s ≡ true → s ≡ empty_slot
blank-empty s h =
    let arm : s.arm ≡ false = ground arith in
    let repeat : s.repeat ≡ false = ground arith in
    let retain : s.retain ≡ false = ground arith in
    let qos : s.qos ≡ 0 = ground arith in
    let days : s.days ≡ 0 = ground arith in
    let window : s.window ≡ 0 = ground arith in
    let minute : s.minute_of_day ≡ 0 = ground arith in
    let topic = is_empty_list→nil s.topic (ground arith) in
    let payload = is_empty_list→nil s.payload (ground arith) in
    let label = is_empty_list→nil s.label (ground arith) in
    λ i. record {
      arm = arm i;
      repeat = repeat i;
      retain = retain i;
      qos = qos i;
      days = days i;
      window = window i;
      minute_of_day = minute i;
      topic = topic i;
      payload = payload i;
      label = label i;
    }

-- The members of a slot from each one on, before a text.
module _ (s : Slot) (text : List ℕ) where
  abbrev from_topic : List ℕ
  from_topic =
      field_text (b't' ∷ b'p' ∷ []) s.topic
        (field_text (b'p' ∷ b'l' ∷ []) s.payload (field_text (b'l' ∷ []) s.label (b'}' ∷ text)))

  abbrev from_days : List ℕ
  from_days =
      b'"' ∷ b'd' ∷ b'"' ∷ b':' ∷ b'"' ∷ (timers_days_to_string s.days ++ (b'"' ∷ from_topic))

  abbrev from_minute : List ℕ
  from_minute = b'"' ∷ b'h' ∷ b'm' ∷ b'"' ∷ b':' ∷ decimal 5 s.minute_of_day (b',' ∷ from_days)

  abbrev from_window : List ℕ
  from_window = b'"' ∷ b'w' ∷ b'"' ∷ b':' ∷ decimal 5 s.window (b',' ∷ from_minute)

  abbrev from_qos : List ℕ
  from_qos = b'"' ∷ b'q' ∷ b'"' ∷ b':' ∷ decimal 5 s.qos (b',' ∷ from_window)

  abbrev from_retain : List ℕ
  from_retain = b'"' ∷ b'r' ∷ b't' ∷ b'"' ∷ b':' ∷ flag_char s.retain ∷ b',' ∷ from_qos

  abbrev from_repeat : List ℕ
  from_repeat = b'"' ∷ b'r' ∷ b'"' ∷ b':' ∷ flag_char s.repeat ∷ b',' ∷ from_retain

  abbrev from_arm : List ℕ
  from_arm = b'"' ∷ b'a' ∷ b'"' ∷ b':' ∷ flag_char s.arm ∷ b',' ∷ from_repeat

  read-numbers :
      (f : ℕ) (d : Slot)
      → IsStorable s
      → read_members (suc (suc (suc f))) d from_qos
        ≡ read_members f
            (record d { qos = s.qos; window = s.window; minute_of_day = s.minute_of_day })
            from_days
  read-numbers f d v =
      read-qos (suc (suc f)) d from_window s.qos v.qos
      ∙ read-window (suc f) (record d { qos = s.qos }) from_minute s.window v.window
      ∙ read-minute f (record d { qos = s.qos; window = s.window }) from_days s.minute_of_day
          v.minute

  read-flags :
      (f : ℕ) (d : Slot)
      → read_members (suc (suc (suc f))) d from_arm
        ≡ read_members f (record d { arm = s.arm; repeat = s.repeat; retain = s.retain }) from_qos
  read-flags f d =
      read-arm (suc (suc f)) d from_repeat s.arm
      ∙ read-repeat (suc f) (record d { arm = s.arm }) from_retain s.repeat
      ∙ read-retain f (record d { arm = s.arm; repeat = s.repeat }) from_qos s.retain

  read-all :
      (f : ℕ)
      → IsStorable s
      → read_members
          (suc (suc (suc (suc (suc (suc (suc (suc (suc (suc f))))))))))
          empty_slot
          from_arm
        ≡ some (s, text)
  read-all f v =
      let flags = record empty_slot { arm = s.arm; repeat = s.repeat; retain = s.retain } in
      let numbers = record flags {
        qos = s.qos;
        window = s.window;
        minute_of_day = s.minute_of_day;
      } in
      read-flags (suc (suc (suc (suc (suc (suc (suc f))))))) empty_slot
      ∙ read-numbers (suc (suc (suc (suc f)))) flags v
      ∙ read-days (suc (suc (suc f))) numbers from_topic s.days v.days
      ∙ read-topic f s s.topic s.payload s.label text v.topic v.topic_text v.payload v.label
          v.label_text

open_slot-quote :
    (cs : List ℕ)
    → parse_slot_object (b'{' ∷ b'"' ∷ cs)
      ≡ read_members (suc (suc (length cs))) empty_slot (b'"' ∷ cs)
unfolding parse_slot_object skip_ws
open_slot-quote cs = refl

read-slot :
    (s : Slot) (text : List ℕ)
    → IsStorable s
    → parse_slot_object (slot_head s (from_topic s text)) ≡ some (s, text)
unfolding slot_head
read-slot s text v = open_slot-quote _ ∙ read-all s text _ v

blank-read : (text : List ℕ) → parse_slot_object (b'{' ∷ b'}' ∷ text) ≡ some (empty_slot, text)
unfolding parse_slot_object skip_ws
blank-read text = refl

-- What is written for a storable slot is read back as that slot, and the text behind it is left.
pub parse_slot_object-slot_text :
    (s : Slot) (text : List ℕ)
    → IsStorable s
    → parse_slot_object (slot_text s text) ≡ some (s, text)
unfolding slot_text
parse_slot_object-slot_text s text v =
    if-holds (λ t. parse_slot_object t ≡ some (s, text)) (is_blank s)
      (λ blank. blank-read text ∙ ap (λ e. some (e, text)) (sym (blank-empty s blank)))
      (λ written. read-slot s text v)
