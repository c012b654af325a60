-- ===== src/Topic/Literal.antt =====
-- One literal level of a filter against one level of a topic.
use mqtt_broker_esp.Prelude.{
  ℕ, ◌≡◌, refl, List, [], ◌∷◌, ◌++◌, Bool, true, false, if◌then◌else◌, bytes_eq, All, arith,
}
use mqtt_broker_esp.Topic.{skip_level, matches_from}
use mqtt_broker_esp.Topic.Spec.{Plain, NoSlash, filter_rest, topic_rest, Level}

-- Behind a level comes the end or a '/'.
boundary_free :
    (b : Bool) (fs : List Level) (ts : List (List ℕ))
    → matches_from b (filter_rest fs) (topic_rest ts)
      ≡ matches_from false (filter_rest fs) (topic_rest ts)
unfolding matches_from
boundary_free true [] ts = refl
boundary_free true (x ∷ fs) [] = refl
boundary_free true (x ∷ fs) (t ∷ ts) = refl
boundary_free false fs ts = refl

pub matches-literal :
    (b : Bool) (l t : List ℕ) (fs : List Level) (ts : List (List ℕ))
    → All Plain l
    → NoSlash t
    → matches_from b (l ++ filter_rest fs) (t ++ topic_rest ts)
      ≡ (if bytes_eq l t then matches_from false (filter_rest fs) (topic_rest ts) else false)
unfolding matches_from bytes_eq
matches-literal b [] [] fs ts hl ht = boundary_free b fs ts
matches-literal b [] (c ∷ t) [] ts hl ht = refl
matches-literal b [] (c ∷ t) (x ∷ fs) ts hl ht = ground arith
matches-literal b (d ∷ l) [] fs [] hl ht = ground arith
matches-literal b (d ∷ l) [] fs (u ∷ ts) hl ht = ground arith
matches-literal b (d ∷ l) (c ∷ t) fs ts hl ht =
    ground (arith, matches-literal false l t fs ts hl.1 ht.1)

pub skip_level_lem :
    (t : List ℕ) (ts : List (List ℕ)) → NoSlash t → skip_level (t ++ topic_rest ts) ≡ topic_rest ts
unfolding skip_level
skip_level_lem [] [] h = refl
skip_level_lem [] (u ∷ ts) h = refl
skip_level_lem (c ∷ t) ts h = rw h.0 (skip_level_lem t ts h.1)
