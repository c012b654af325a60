-- ===== src/Broker/Subscriptions.antt =====
-- The table of subscriptions: what a SUBSCRIBE and an UNSUBSCRIBE do to it.
use mqtt_broker_esp.Prelude.{
  ℕ, suc, ◌+◌, ◌≡◌, ◌⊎◌, inl, inr, refl, List, [], ◌∷◌, Bool, true, false, ◌&&◌, set, ◌==◌,
  bytes_eq, bytes_eq_refl, bytes_eq→eq, subst, if◌then◌else◌, Option, none, some, arith,
  Option-cases, Bool-cases, All, min, ap, ◌∙◌,
}
use mqtt_broker_esp.Wire.Subscribe.{SubTopic}
use mqtt_broker_esp.Broker.{Sub, find_free_sub}
use mqtt_broker_esp.Broker.Handlers.{
  is_sub, regrant, new_sub, granted_qos, suback_failure, subscribe_new, subscribe_topic,
}

-- The QoS granted to a client under a filter, of its first active subscription with it.
unfoldable pub sub_qos : List Sub → ℕ → List ℕ → Option ℕ
sub_qos [] idx topic = none
sub_qos (s ∷ ss) idx topic = if is_sub idx topic s then some s.qos else sub_qos ss idx topic

sub_qos-regrant :
    (subs subs' : List Sub) (idx : ℕ) (topic : List ℕ) (granted : ℕ)
    → regrant subs idx topic granted ≡ some subs'
    → sub_qos subs' idx topic ≡ some granted
unfolding sub_qos regrant
sub_qos-regrant [] subs' idx topic granted e = absurd (cc)
sub_qos-regrant (s ∷ ss) subs' idx topic granted e =
    elim (Option-cases (regrant ss idx topic granted)) [
      | inl no_more ↦ ground arith
      | inr (rest, later) ↦ ground (arith, sub_qos-regrant ss rest idx topic granted later)
    ]

sub_qos-missing :
    (subs : List Sub) (idx : ℕ) (topic : List ℕ) (granted : ℕ)
    → regrant subs idx topic granted ≡ none
    → sub_qos subs idx topic ≡ none
unfolding sub_qos regrant
sub_qos-missing [] idx topic granted e = refl
sub_qos-missing (s ∷ ss) idx topic granted e = elim (Option-cases (regrant ss idx topic granted)) [
  | inl no_more ↦ ground (arith, sub_qos-missing ss idx topic granted no_more)
  | inr (rest, later) ↦ ground arith
]

-- A new subscription in the free slot, behind others that do not have the filter.
sub_qos-new :
    (subs : List Sub) (i slot idx : ℕ) (topic : List ℕ) (qos : ℕ)
    → sub_qos subs idx topic ≡ none
    → find_free_sub subs i ≡ some slot
    → (k : ℕ) × (slot ≡ i + k) × (sub_qos (set subs k (new_sub idx topic qos)) idx topic ≡ some qos)
unfolding sub_qos find_free_sub
sub_qos-new [] i slot idx topic qos e f = absurd (cc)
sub_qos-new (s ∷ ss) i slot idx topic qos e f = elim (Bool-cases s.active) [
  | inl used ↦
      let rest = sub_qos-new ss (i + 1) slot idx topic qos (ground arith) (ground arith) in
      (suc rest.0, omega (arith, rest.1), ground (arith, rest.2))
  | inr free ↦ (0, ground arith, rw (bytes_eq_refl topic) (ground arith))
]

-- A filter of another client, or another filter.
abbrev pub IsApart : (idx j : ℕ) (topic u : List ℕ) → Type 0
IsApart idx j topic u = ((idx == j) && bytes_eq topic u) ≡ false

is_sub-IsApart :
    (active : Bool) (client_idx idx j : ℕ) (held topic u : List ℕ)
    → (active && (client_idx == idx) && bytes_eq held topic) ≡ true
    → IsApart idx j topic u
    → (active && (client_idx == j) && bytes_eq held u) ≡ false
is_sub-IsApart active client_idx idx j held topic u h a =
    let same : held ≡ topic = bytes_eq→eq held topic (ground arith) in rw same (ground arith)

sub_qos-regrant-apart :
    (subs subs' : List Sub) (idx j : ℕ) (topic u : List ℕ) (granted : ℕ)
    → IsApart idx j topic u
    → regrant subs idx topic granted ≡ some subs'
    → sub_qos subs' j u ≡ sub_qos subs j u
unfolding sub_qos regrant
sub_qos-regrant-apart [] subs' idx j topic u granted a e = absurd (cc)
sub_qos-regrant-apart (s ∷ ss) subs' idx j topic u granted a e =
    elim (Bool-cases (is_sub idx topic s)) [
      | inl hit ↦ ground (arith, is_sub-IsApart s.active s.client_idx idx j s.topic topic u hit a)
      | inr miss ↦ elim (Option-cases (regrant ss idx topic granted)) [
        | inl no_more ↦ ground arith
        | inr (rest, later) ↦
            ground (arith, sub_qos-regrant-apart ss rest idx j topic u granted a later)
      ]
    ]

sub_qos-new-apart :
    (subs : List Sub) (i slot idx j : ℕ) (topic u : List ℕ) (qos : ℕ)
    → IsApart idx j topic u
    → find_free_sub subs i ≡ some slot
    → (k : ℕ) × (slot ≡ i + k)
      × (sub_qos (set subs k (new_sub idx topic qos)) j u ≡ sub_qos subs j u)
unfolding sub_qos find_free_sub
sub_qos-new-apart [] i slot idx j topic u qos a f = absurd (cc)
sub_qos-new-apart (s ∷ ss) i slot idx j topic u qos a f = elim (Bool-cases s.active) [
  | inl used ↦
      let rest = sub_qos-new-apart ss (i + 1) slot idx j topic u qos a (ground arith) in
      (suc rest.0, omega (arith, rest.1), ground (arith, rest.2))
  | inr free ↦ (0, ground arith, ground arith)
]

-- The table is full when no slot is found.
find_free_sub-full :
    (subs : List Sub) (i : ℕ) → find_free_sub subs i ≡ none → All (λ s. s.active ≡ true) subs
unfolding find_free_sub
find_free_sub-full [] i e = tt
find_free_sub-full (s ∷ ss) i e = elim (Bool-cases s.active) [
  | inl used ↦ (used, find_free_sub-full ss (i + 1) (ground arith))
  | inr free ↦ absurd (ground arith)
]

granted_qos-min : (qos : ℕ) → granted_qos qos ≡ min qos 1
granted_qos-min qos = ground arith

-- One filter of a SUBSCRIBE: it is refused, and the table left as it was, only when the client
-- does not have the filter and every slot is active. Else the client has the filter at the QoS that is
-- granted, the lesser of the QoS asked for and 1. No other filter of the client and no filter of
-- another client changes.
pub subscribe_topic_lem :
    (subs : List Sub) (idx : ℕ) (t : SubTopic)
    → let r = subscribe_topic subs idx t in
      (((r.1 ≡ suback_failure)
          × (r.0 ≡ subs)
          × (sub_qos subs idx t.topic ≡ none)
          × All (λ s. s.active ≡ true) subs)
        ⊎ ((r.1 ≡ min t.qos 1) × (sub_qos r.0 idx t.topic ≡ some (min t.qos 1))))
      × ((j : ℕ) (u : List ℕ) → IsApart idx j t.topic u → sub_qos r.0 j u ≡ sub_qos subs j u)
unfolding subscribe_topic
subscribe_topic_lem subs idx t =
    let granted = granted_qos t.qos in
    let lesser = granted_qos-min t.qos in
    elim (Option-cases (regrant subs idx t.topic granted)) [
      | inr (subs', again) ↦ rw again (
        inr (lesser, sub_qos-regrant subs subs' idx t.topic granted again ∙ ap some lesser),
        λ j u a. sub_qos-regrant-apart subs subs' idx j t.topic u granted a again,
      )
      | inl first ↦ rw first (added first)
    ]
  where
    s : Sub
    s = new_sub idx t.topic (granted_qos t.qos)

    added :
        regrant subs idx t.topic (granted_qos t.qos) ≡ none
        → let r = subscribe_new subs s (find_free_sub subs 0) in
          (((r.1 ≡ suback_failure)
              × (r.0 ≡ subs)
              × (sub_qos subs idx t.topic ≡ none)
              × All (λ s. s.active ≡ true) subs)
            ⊎ ((r.1 ≡ min t.qos 1) × (sub_qos r.0 idx t.topic ≡ some (min t.qos 1))))
          × ((j : ℕ) (u : List ℕ) → IsApart idx j t.topic u → sub_qos r.0 j u ≡ sub_qos subs j u)
    added first =
        let missing = sub_qos-missing subs idx t.topic (granted_qos t.qos) first in
        elim (Option-cases (find_free_sub subs 0)) [
          | inl full ↦
              rw full (inl (refl, refl, missing, find_free_sub-full subs 0 full), λ j u a. refl)
          | inr (slot, f) ↦
              let n = sub_qos-new subs 0 slot idx t.topic (granted_qos t.qos) missing f in
              rw f (
                inr (
                  granted_qos-min t.qos,
                  subst (λ k. sub_qos (set subs k s) idx t.topic ≡ some (granted_qos t.qos))
                        (omega (arith, n.1)) n.2
                      ∙ ap some (granted_qos-min t.qos),
                ),
                λ j u a.
                    let n' =
                      sub_qos-new-apart subs 0 slot idx j t.topic u (granted_qos t.qos) a f in
                    subst (λ k. sub_qos (set subs k s) j u ≡ sub_qos subs j u) (omega (arith, n'.1))
                      n'.2,
              )
        ]
