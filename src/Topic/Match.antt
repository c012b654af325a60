-- ===== src/Topic/Match.antt =====
-- `mqtt_topic_matches` against the matching by levels.
use mqtt_broker_esp.Prelude.{
  ℕ, ◌≡◌, refl, ◌∙◌, List, [], ◌∷◌, ◌++◌, Bool, true, false, ◌&&◌, if◌then◌else◌, bytes_eq_refl,
  All, arith,
}
use mqtt_broker_esp.Topic.{slash, next_is, matches_from, topic_matches}
use mqtt_broker_esp.Topic.Spec.{
  Level, plus, hash, literal, match_levels, is_wildcard, match_topic, text, filter_rest, topic_rest,
  Plain, ValidFilter, NoSlash, EndsFull, ValidRest,
}
use mqtt_broker_esp.Topic.Literal.{matches-literal, skip_level_lem}

-- What the remaining levels do, once the code stands at their end.
abbrev RestAgrees : List Level → List (List ℕ) → Type 0
RestAgrees fs ts = matches_from false (filter_rest fs) (topic_rest ts) ≡ match_levels fs ts

-- One level, with '$' kept from the wildcards.
level-agrees :
    (x : Level) (fs : List Level) (t : List ℕ) (ts : List (List ℕ))
    → ValidFilter (x ∷ fs)
    → NoSlash t
    → EndsFull t ts
    → RestAgrees fs ts
    → matches_from true (text x ++ filter_rest fs) (t ++ topic_rest ts)
      ≡ (if is_wildcard x && next_is b'$' t then false else match_levels (x ∷ fs) (t ∷ ts))
unfolding matches_from match_levels
level-agrees (literal l) fs t ts hf ht he ih = matches-literal true l t fs ts hf.0 ht ∙ ground arith
level-agrees hash [] [] [] hf ht he ih = refl
level-agrees hash [] [] (u ∷ ts) hf ht he ih = refl
level-agrees hash [] (c ∷ t) ts hf ht he ih = ground arith
level-agrees hash (y ∷ fs) t ts hf ht he ih = absurd hf
level-agrees plus fs [] [] hf ht he ih = absurd (omega arith)
level-agrees plus fs [] (u ∷ ts) hf ht he ih = ih
level-agrees plus fs (c ∷ t) ts hf ht he ih = ground (arith, skip_level_lem (c ∷ t) ts ht)

-- A topic that ends where the filter goes on: only '/#' matches.
filter_goes_on :
    (x : Level) (fs : List Level)
    → ValidFilter (x ∷ fs)
    → matches_from false (filter_rest (x ∷ fs)) [] ≡ match_levels (x ∷ fs) []
unfolding matches_from match_levels
filter_goes_on hash fs h = refl
filter_goes_on plus fs h = refl
filter_goes_on (literal []) [] h = refl
filter_goes_on (literal []) (y ∷ fs) h = refl
filter_goes_on (literal (c ∷ l)) fs h = ground arith

ValidFilter-tail : (x : Level) (fs : List Level) → ValidFilter (x ∷ fs) → ValidFilter fs
ValidFilter-tail plus fs h = h
ValidFilter-tail hash [] h = tt
ValidFilter-tail hash (y ∷ fs) h = absurd h
ValidFilter-tail (literal l) fs h = h.1

slash_step : (f t : List ℕ) → matches_from false (slash ∷ f) (slash ∷ t) ≡ matches_from true f t
unfolding matches_from
slash_step f t = refl

no_dollar : (w d m : Bool) → d ≡ false → (if w && d then false else m) ≡ m
no_dollar w d m h = ground arith

rest-agrees :
    (fs : List Level) (ts : List (List ℕ)) → ValidFilter fs → ValidRest ts → RestAgrees fs ts
rest-agrees [] [] hf ht = unfold matches_from match_levels in refl
rest-agrees [] (t ∷ ts) hf ht = unfold matches_from match_levels in refl
rest-agrees (x ∷ fs) [] hf ht = filter_goes_on x fs hf
rest-agrees (x ∷ fs) (t ∷ ts) hf ht =
    slash_step (text x ++ filter_rest fs) (t ++ topic_rest ts)
    ∙ level-agrees x fs t ts hf ht.0 ht.2 (rest-agrees fs ts (ValidFilter-tail x fs hf) ht.3)
    ∙ no_dollar (is_wildcard x) (next_is b'$' t) (match_levels (x ∷ fs) (t ∷ ts)) ht.1

-- On a valid filter, and on a topic whose last level is not empty and of which no level but the
-- first begins with '$', the code decides exactly the matching by levels: '+' stands for one
-- level, '#' for all that remain and for the parent, any other level for itself, and a filter that
-- begins with a wildcard does not match a topic that begins with '$'.
pub topic_matches-match_topic :
    (x : Level) (fs : List Level) (t : List ℕ) (ts : List (List ℕ))
    → ValidFilter (x ∷ fs)
    → NoSlash t
    → EndsFull t ts
    → ValidRest ts
    → topic_matches (text x ++ filter_rest fs) (t ++ topic_rest ts) ≡ match_topic x fs t ts
unfolding topic_matches match_topic
topic_matches-match_topic x fs t ts hf ht he hr =
    level-agrees x fs t ts hf ht he (rest-agrees fs ts (ValidFilter-tail x fs hf) hr)

-- For a parent level `l` without wildcards and '/', the code does not match the filter `l/+`
-- with the topic `l/`, whose last level is empty, while matching by levels does.
pub plus_misses_empty :
    (l : List ℕ)
    → All Plain l
    → NoSlash l
    → (topic_matches (l ++ filter_rest (plus ∷ [])) (l ++ topic_rest ([] ∷ [])) ≡ false)
      × (match_levels (literal l ∷ plus ∷ []) (l ∷ [] ∷ []) ≡ true)
unfolding topic_matches match_levels
plus_misses_empty l hl hs = (
  matches-literal true l l (plus ∷ []) ([] ∷ []) hl hs
      ∙ rw bytes_eq_refl (unfold matches_from in refl),
  rw bytes_eq_refl,
)

-- For a parent level `l` without wildcards and '/', the code does not match the filter `l/+`
-- with a topic that is `l/` and then '$' and more, while matching by levels, for which '$' is
-- an ordinary character below the first level, does.
pub plus_misses_dollar :
    (l t : List ℕ)
    → All Plain l
    → NoSlash l
    → (topic_matches (l ++ filter_rest (plus ∷ [])) (l ++ topic_rest ((b'$' ∷ t) ∷ [])) ≡ false)
      × (match_levels (literal l ∷ plus ∷ []) (l ∷ (b'$' ∷ t) ∷ []) ≡ true)
unfolding topic_matches match_levels
plus_misses_dollar l t hl hs = (
  matches-literal true l l (plus ∷ []) ((b'$' ∷ t) ∷ []) hl hs
      ∙ rw bytes_eq_refl (unfold matches_from in refl),
  rw bytes_eq_refl,
)
