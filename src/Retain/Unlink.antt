-- ===== src/Retain/Unlink.antt =====
-- The list operations of the retained store: what taking a message out leaves.
use mqtt_broker_esp.Prelude.{
  ℕ, zero, suc, ◌≡◌, inl, inr, refl, sym, subst, ◌∙◌, ap, List, [], ◌∷◌, true, false, bytes_eq,
  bytes_eq→eq, if◌then◌else◌, Option, none, some, All, arith, Bool-cases, Option-cases,
}
use mqtt_broker_esp.Retain.{Retained, unlink, unlink_at}

-- The message that a subscriber to the topic is sent.
unfoldable pub lookup : List ℕ → List Retained → Option Retained
lookup topic [] = none
lookup topic (r ∷ rs) = if bytes_eq r.topic topic then some r else lookup topic rs

abbrev pub Absent : List ℕ → List Retained → Type 0
Absent topic rs = All (λ q. bytes_eq q.topic topic ≡ false) rs

-- No topic has two messages.
abbrev pub IsDistinct : List Retained → Type 0
IsDistinct [] = Unit
IsDistinct (r ∷ rs) = Absent r.topic rs × IsDistinct rs

lookup-Absent : (topic : List ℕ) (rs : List Retained) → Absent topic rs → lookup topic rs ≡ none
unfolding lookup
lookup-Absent topic [] h = refl
lookup-Absent topic (r ∷ rs) h = rw h.0 (lookup-Absent topic rs h.1)

pub Absent-lookup : (topic : List ℕ) (rs : List Retained) → lookup topic rs ≡ none → Absent topic rs
unfolding lookup
Absent-lookup topic [] h = tt
Absent-lookup topic (r ∷ rs) h = ground (arith, Absent-lookup topic rs)

-- Messages that were on no topic `t` are on none after one is taken out.
unlink-Absent :
    (topic t : List ℕ) (rs : List Retained) {r : Retained} {rest : List Retained}
    → unlink topic rs ≡ some (r, rest)
    → Absent t rs
    → Absent t rest
unfolding unlink
unlink-Absent topic t [] e h = absurd (cc)
unlink-Absent topic t (x ∷ rs) {r} {rest} e h = elim (Option-cases (unlink topic rs)) [
  | inl no_more ↦ ground arith
  | inr ((q, qs), later) ↦ ground (arith, unlink-Absent topic t rs later h.1)
]

pub unlink_at-Absent :
    (i : ℕ) (t : List ℕ) (rs : List Retained) {r : Retained} {rest : List Retained}
    → unlink_at rs i ≡ some (r, rest)
    → Absent t rs
    → Absent t rest
unfolding unlink_at
unlink_at-Absent i t [] e h = absurd (cc)
unlink_at-Absent zero t (x ∷ rs) {r} {rest} e h = ground arith
unlink_at-Absent (suc i) t (x ∷ rs) {r} {rest} e h = elim (Option-cases (unlink_at rs i)) [
  | inl no_more ↦ ground arith
  | inr ((q, qs), later) ↦ ground (arith, unlink_at-Absent i t rs later h.1)
]

pub unlink-IsDistinct :
    (topic : List ℕ) (rs : List Retained) {r : Retained} {rest : List Retained}
    → unlink topic rs ≡ some (r, rest)
    → IsDistinct rs
    → IsDistinct rest
unfolding unlink
unlink-IsDistinct topic [] e h = absurd (cc)
unlink-IsDistinct topic (x ∷ rs) {r} {rest} e h = elim (Option-cases (unlink topic rs)) [
  | inl no_more ↦ ground arith
  | inr ((q, qs), later) ↦
      ground (arith, unlink-IsDistinct topic rs later h.1, unlink-Absent topic x.topic rs later h.0)
]

pub unlink_at-IsDistinct :
    (i : ℕ) (rs : List Retained) {r : Retained} {rest : List Retained}
    → unlink_at rs i ≡ some (r, rest)
    → IsDistinct rs
    → IsDistinct rest
unfolding unlink_at
unlink_at-IsDistinct i [] e h = absurd (cc)
unlink_at-IsDistinct zero (x ∷ rs) {r} {rest} e h = ground arith
unlink_at-IsDistinct (suc i) (x ∷ rs) {r} {rest} e h = elim (Option-cases (unlink_at rs i)) [
  | inl no_more ↦ ground arith
  | inr ((q, qs), later) ↦
      ground (arith, unlink_at-IsDistinct i rs later h.1, unlink_at-Absent i x.topic rs later h.0)
]

-- Taking out the first message on a topic leaves none there, and the others where they were.
pub lookup-unlink :
    (topic t : List ℕ) (rs : List Retained) {r : Retained} {rest : List Retained}
    → unlink topic rs ≡ some (r, rest)
    → IsDistinct rs
    → lookup t rest ≡ (if bytes_eq topic t then none else lookup t rs)
unfolding unlink lookup
lookup-unlink topic t [] e h = absurd (cc)
lookup-unlink topic t (x ∷ rs) {r} {rest} e h = elim (Bool-cases (bytes_eq x.topic topic)) [
  | inl here ↦ found_here (bytes_eq→eq x.topic topic here) (rw here at e)
  | inr further ↦ elim (Option-cases (unlink topic rs)) [
    | inl no_more ↦ ground arith
    | inr ((q, qs), later) ↦
        let apart : bytes_eq topic t ≡ true → bytes_eq x.topic t ≡ false =
          λ p. subst (λ u. bytes_eq x.topic u ≡ false) (bytes_eq→eq topic t p) further in
        ground (arith, lookup-unlink topic t rs later h.1, apart)
  ]
]
  where
    found_here :
        x.topic ≡ topic
        → ◌≡◌ {A = Option (Retained × List Retained)} (some (x, rs)) (some (r, rest))
        → lookup t rest
          ≡ (if bytes_eq topic t then none else if bytes_eq x.topic t then some x else lookup t rs)
    found_here same e' = elim (Bool-cases (bytes_eq topic t)) [
      | inl asked ↦
          rw (asked, tail_is)
            (lookup-Absent t rs (subst (λ u. Absent u rs) (same ∙ bytes_eq→eq topic t asked) h.0))
      | inr other ↦
          let not_x : bytes_eq x.topic t ≡ false = rw same other in rw (other, not_x, tail_is)
    ]
      where
        tail_is : rest ≡ rs
        tail_is = cc

pub not_there :
    (topic t : List ℕ) (rs : List Retained)
    → unlink topic rs ≡ none
    → lookup t rs ≡ (if bytes_eq topic t then none else lookup t rs)
unfolding unlink lookup
not_there topic t [] e = ground arith
not_there topic t (x ∷ rs) e = elim (Option-cases (unlink topic rs)) [
  | inl no_more ↦
      let same : bytes_eq topic t ≡ true → bytes_eq x.topic t ≡ bytes_eq x.topic topic =
        λ p. ap (bytes_eq x.topic) (sym (bytes_eq→eq topic t p)) in
      ground (arith, not_there topic t rs no_more, same)
  | inr ((q, qs), later) ↦ ground arith
]
