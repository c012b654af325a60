-- ===== src/Timers/Blob/RoundTrip.antt =====
-- The stored text of main/timers.c is read back as the slots and the master switch.
use mqtt_broker_esp.Prelude.{
  ℕ, zero, suc, ◌+◌, ◌≤◌, ◌≡◌, refl, sym, ap, subst, ◌∙◌, List, [], ◌∷◌, ◌++◌, length, set, Bool,
  true, false, ltb, if◌then◌else◌, if-holds, Option, none, some, arith, Bool-cases, inl, inr,
  length-append, append_assoc, All, bytes_eq,
}
use mqtt_broker_esp.Timers.{Slot}
use mqtt_broker_esp.Timers.Json.{
  ◌>>=◌, ◌>>◌, require, skip_ws, parse_json_string, string_loop, escape, parse_json_int, skip_space,
  parse_signed, read_digits, put,
}
use mqtt_broker_esp.Timers.Json.Put.{put-put, put-none}
use mqtt_broker_esp.Timers.SlotJson.{c_string, is_blank, slot_head, parse_slot_object, put_slot}
use mqtt_broker_esp.Timers.SlotJson.RoundTrip.{IsStorable, slot_text, parse_slot_object-slot_text}
use mqtt_broker_esp.Timers.SlotJson.Written.{slot_text-append, put_slot-text, chain-step}
use mqtt_broker_esp.Timers.Blob.{
  Config, empty_slots, after_slot, read_slots, open_array, slots_field, read_blob_field,
  read_blob_member, after_blob_member, read_blob_members, parse_blob, blob_head, put_more_slots,
  put_slots, serialize_blob,
}

-- The slots behind the first, before a text.
unfoldable more_text : List Slot → List ℕ → List ℕ
more_text [] text = text
more_text (s ∷ ss) text = b',' ∷ slot_text s (more_text ss text)

unfoldable slots_text : List Slot → List ℕ → List ℕ
slots_text [] text = text
slots_text (s ∷ ss) text = slot_text s (more_text ss text)

-- The whole stored text.
unfoldable pub blob_text : Config → List ℕ
unfolding slots_text more_text
blob_text c = blob_head c.master ++ slots_text c.slots (b']' ∷ b'}' ∷ [])

unfoldable set_all : List Slot → ℕ → List Slot → List Slot
set_all slots i [] = slots
set_all slots i (s ∷ ss) = set_all (set slots i s) (suc i) ss

set_all-suc :
    (x : Slot) (slots : List Slot) (i : ℕ) (ss : List Slot)
    → set_all (x ∷ slots) (suc i) ss ≡ x ∷ set_all slots i ss
unfolding set_all
set_all-suc x slots i [] = refl
set_all-suc x slots i (s ∷ ss) = set_all-suc x (set slots i s) (suc i) ss

set_all-whole : (slots ss : List Slot) → length ss ≡ length slots → set_all slots 0 ss ≡ ss
unfolding set_all
set_all-whole [] [] h = refl
set_all-whole [] (s ∷ ss) h = absurd (omega arith)
set_all-whole (x ∷ slots) [] h = absurd (omega arith)
set_all-whole (x ∷ slots) (s ∷ ss) h =
    set_all-suc s slots 0 ss ∙ ap (λ t. s ∷ t) (set_all-whole slots ss (omega arith))

read_slots-step :
    (f i : ℕ) (slots : List Slot) (text t : List ℕ) (s : Slot)
    → parse_slot_object text ≡ some (s, t)
    → read_slots (suc f) text i slots ≡ after_slot (read_slots f) i (set slots i s) (skip_ws t)
unfolding read_slots parse_slot_object skip_ws
read_slots-step f i slots [] t s e = absurd (cc)
read_slots-step f i slots (c ∷ cs) t s e = rw e refl

skip_ws-slot_text : (s : Slot) (text : List ℕ) → skip_ws (slot_text s text) ≡ slot_text s text
unfolding slot_text skip_ws slot_head
skip_ws-slot_text s text = if-holds (λ t. skip_ws t ≡ t) (is_blank s) (λ _. refl) (λ _. refl)

open_array-slot_text :
    (slots : List Slot) (s : Slot) (text : List ℕ)
    → open_array slots (slot_text s text)
      ≡ read_slots (suc (length (slot_text s text))) (slot_text s text) 0 slots
unfolding slot_text slot_head
open_array-slot_text slots s text =
    if-holds (λ t. open_array slots t ≡ read_slots (suc (length t)) t 0 slots) (is_blank s)
      (λ _. refl) (λ _. refl)

module _ (more : List ℕ → ℕ → List Slot → Option (List Slot × List ℕ)) (i : ℕ) (slots : List Slot)
    (t : List ℕ) where
  after_slot-end : after_slot more i slots (skip_ws (b']' ∷ t)) ≡ some (slots, t)
  unfolding skip_ws
  after_slot-end = refl

  after_slot-comma : after_slot more i slots (skip_ws (b',' ∷ t)) ≡ more (skip_ws t) (suc i) slots
  unfolding skip_ws
  after_slot-comma = refl

read_slots-text :
    (f i : ℕ) (slots : List Slot) (s : Slot) (ss : List Slot) (text : List ℕ)
    → length ss ≤ f
    → IsStorable s
    → All IsStorable ss
    → read_slots (suc f) (slot_text s (more_text ss (b']' ∷ text))) i slots
      ≡ some (set_all (set slots i s) (suc i) ss, text)
unfolding more_text set_all
read_slots-text f i slots s [] text h v vs =
    read_slots-step f i slots _ (b']' ∷ text) s (parse_slot_object-slot_text s (b']' ∷ text) v)
    ∙ after_slot-end (read_slots f) i (set slots i s) text
read_slots-text zero i slots s (s' ∷ ss) text h v vs = absurd (omega arith)
read_slots-text (suc f) i slots s (s' ∷ ss) text h v vs =
    let tail = slot_text s' (more_text ss (b']' ∷ text)) in
    read_slots-step (suc f) i slots _ (b',' ∷ tail) s
      (parse_slot_object-slot_text s (b',' ∷ tail) v)
    ∙ after_slot-comma (read_slots (suc f)) i (set slots i s) tail
    ∙ ap (λ t. read_slots (suc f) t (suc i) (set slots i s))
        (skip_ws-slot_text s' (more_text ss (b']' ∷ text)))
    ∙ read_slots-text f (suc i) (set slots i s) s' ss text (omega arith) vs.0 vs.1

length-slot_text : (s : Slot) (text : List ℕ) → length text ≤ length (slot_text s text)
length-slot_text s text =
    omega (arith, length-append (slot_text s []) text, ap length (slot_text-append s [] text))

length-more_text : (ss : List Slot) (text : List ℕ) → length ss ≤ length (more_text ss text)
unfolding more_text
length-more_text [] text = omega arith
length-more_text (s ∷ ss) text =
    omega (arith, length-slot_text s (more_text ss text), length-more_text ss text)

open_array-slots_text :
    (ss : List Slot) (text : List ℕ)
    → length ss ≡ 16
    → All IsStorable ss
    → open_array empty_slots (skip_ws (slots_text ss (b']' ∷ text))) ≡ some (ss, text)
unfolding slots_text set_all
open_array-slots_text [] text h v = absurd (omega arith)
open_array-slots_text (s ∷ ss) text h v =
    let tail = more_text ss (b']' ∷ text) in
    ap (open_array empty_slots) (skip_ws-slot_text s tail)
    ∙ open_array-slot_text empty_slots s tail
    ∙ read_slots-text (length (slot_text s tail)) 0 empty_slots s ss text
        (omega (arith, length-more_text ss (b']' ∷ text), length-slot_text s tail)) v.0 v.1
    ∙ ap (λ t. some (t, text)) (set_all-whole empty_slots (s ∷ ss) h)

-- The fuel that is left there.
abbrev sixteen_more : ℕ → ℕ
sixteen_more n =
    suc (suc (suc (suc (suc (suc (suc (suc (suc (suc (suc (suc (suc (suc (suc (suc n)))))))))))))))

-- The members before the array, which is left to the field.
parse_blob-head :
    (m : Bool) (text : List ℕ)
    → parse_blob (blob_head m ++ text) ≡ (
        slots_field (record { master = m; slots = empty_slots }) (b'[' ∷ text) >>= λ r.
        after_blob_member (read_blob_members (sixteen_more (length text))) r.0 (skip_ws r.1))
unfolding parse_blob read_blob_members read_blob_member read_blob_field parse_json_string
    string_loop escape skip_ws bytes_eq c_string parse_json_int skip_space parse_signed read_digits
parse_blob-head true text = refl
parse_blob-head false text = refl

-- What is written for a configuration is read back as it.
parse_blob-blob_text :
    (c : Config) → length c.slots ≡ 16 → All IsStorable c.slots → parse_blob (blob_text c) ≡ some c
unfolding blob_text skip_ws
parse_blob-blob_text c h v =
    parse_blob-head c.master (slots_text c.slots (b']' ∷ b'}' ∷ []))
    ∙ rw (open_array-slots_text c.slots (b'}' ∷ []) h v) refl

more_text-append : (ss : List Slot) (a b : List ℕ) → more_text ss a ++ b ≡ more_text ss (a ++ b)
unfolding more_text
more_text-append [] a b = refl
more_text-append (s ∷ ss) a b =
    ap (λ t. b',' ∷ t)
      (slot_text-append s (more_text ss a) b ∙ ap (slot_text s) (more_text-append ss a b))

slots_text-append : (ss : List Slot) (a b : List ℕ) → slots_text ss a ++ b ≡ slots_text ss (a ++ b)
unfolding slots_text
slots_text-append [] a b = refl
slots_text-append (s ∷ ss) a b =
    slot_text-append s (more_text ss a) b ∙ ap (slot_text s) (more_text-append ss a b)

module _ (n : ℕ) (buf : List ℕ) where
  put-put_slot :
      (s : Slot) (a : List ℕ)
      → (put n buf a >>= λ b. put_slot n b s) ≡ put n buf (a ++ slot_text s [])
  put-put_slot s a =
      (λ i. put n buf a >>= λ b. put_slot-text n b s i) ∙ put-put n buf a (slot_text s [])

  put-put_more_slots :
      (ss : List Slot) (a : List ℕ)
      → (put n buf a >>= λ b. put_more_slots n b ss) ≡ put n buf (a ++ more_text ss [])
  unfolding put_more_slots more_text
  put-put_more_slots [] a = put-none n buf a
  put-put_more_slots (s ∷ ss) a =
      let comma = b',' ∷ [] in
      let rest = λ (b : List ℕ). put_more_slots n b ss in
      chain-step n buf a comma (λ b. put n b comma) (λ b. put_slot n b s >>= rest)
        (put-put n buf a comma)
      ∙ chain-step n buf (a ++ comma) (slot_text s []) (λ b. put_slot n b s) rest
          (put-put_slot s (a ++ comma))
      ∙ put-put_more_slots ss (a ++ comma ++ slot_text s [])
      ∙ ap (put n buf) (
          append_assoc (a ++ comma) (slot_text s []) (more_text ss [])
          ∙ append_assoc a comma (slot_text s [] ++ more_text ss [])
          ∙ ap (λ t. a ++ (b',' ∷ t)) (slot_text-append s [] (more_text ss [])))

  put-put_slots :
      (ss : List Slot) (a : List ℕ)
      → (put n buf a >>= λ b. put_slots n b ss) ≡ put n buf (a ++ slots_text ss [])
  unfolding put_slots slots_text
  put-put_slots [] a = put-none n buf a
  put-put_slots (s ∷ ss) a =
      chain-step n buf a (slot_text s []) (λ b. put_slot n b s) (λ b. put_more_slots n b ss)
        (put-put_slot s a)
      ∙ put-put_more_slots ss (a ++ slot_text s [])
      ∙ ap (put n buf) (
          append_assoc a (slot_text s []) (more_text ss [])
          ∙ ap (λ t. a ++ t) (slot_text-append s [] (more_text ss [])))

put-close :
    (n : ℕ) (body close : List ℕ)
    → length close ≡ 2
    → (put n [] body >>= λ b. require (ltb (length b + 3) n) >> some (b ++ close))
      ≡ (if ltb (length (body ++ close) + 1) n then some (body ++ close) else none)
put-close n body close h =
    let len = length-append body close in
    elim (Bool-cases (ltb (length body + 3) n)) [
      | inl fits ↦
          let first : ltb (0 + length body) n ≡ true = ground arith in
          let whole : ltb (length (body ++ close) + 1) n ≡ true = ground (arith, len) in
          rw (first, fits, whole) refl
      | inr over ↦
          let whole : ltb (length (body ++ close) + 1) n ≡ false = ground (arith, len) in
          elim (Bool-cases (ltb (0 + length body) n)) [
            | inl first ↦ rw (first, over, whole) refl
            | inr none_fits ↦ rw (none_fits, whole) refl
          ]
    ]

-- The serializer, which writes piece by piece with a check before each, gives the whole text of
-- the configuration if that text and one byte more are less than the buffer's size, and fails
-- otherwise.
pub serialize_blob-blob_text :
    (n : ℕ) (c : Config)
    → serialize_blob n c ≡ (if ltb (length (blob_text c) + 1) n then some (blob_text c) else none)
unfolding serialize_blob blob_text
serialize_blob-blob_text n c =
    let close = b']' ∷ b'}' ∷ [] in
    let head = blob_head c.master in
    let body = head ++ slots_text c.slots [] in
    let whole : body ++ close ≡ head ++ slots_text c.slots close =
      append_assoc head (slots_text c.slots []) close
      ∙ ap (λ t. head ++ t) (slots_text-append c.slots [] close) in
    let len = length-append body close in
    chain-step n [] head (slots_text c.slots []) (λ b. put_slots n b c.slots)
      (λ b. require (ltb (length b + 3) n) >> some (b ++ close)) (put-put_slots n [] c.slots head)
    ∙ subst
        (λ t.
          (put n [] body >>= λ b. require (ltb (length b + 3) n) >> some (b ++ close))
          ≡ (if ltb (length t + 1) n then some t else none))
        whole (put-close n body close refl)

-- For sixteen slots that can be stored, whatever text the serializer writes to a buffer of any
-- size is parsed back to the same slots and master switch.
pub parse_blob-serialize_blob :
    (n : ℕ) (c : Config) (text : List ℕ)
    → length c.slots ≡ 16
    → All IsStorable c.slots
    → serialize_blob n c ≡ some text
    → parse_blob text ≡ some c
parse_blob-serialize_blob n c text h v e =
    let written = sym (serialize_blob-blob_text n c) ∙ e in
    elim (Bool-cases (ltb (length (blob_text c) + 1) n)) [
      | inl fits ↦ ap parse_blob (ground (arith, written, fits)) ∙ parse_blob-blob_text c h v
      | inr over ↦ absurd (ground (arith, written, over))
    ]
