-- ===== src/Topic/Tests.antt =====
-- Topic matching on small filters and topics.
use mqtt_broker_esp.Prelude.{ℕ, ◌≡◌, refl, List, [], ◌∷◌, ◌++◌, arith}
use mqtt_broker_esp.Topic.{topic_matches}
use mqtt_broker_esp.Topic.Spec.{literal, plus, hash, text, filter_rest, topic_rest, match_topic}
use mqtt_broker_esp.Topic.Match.{topic_matches-match_topic}

abbrev letter_a : List ℕ
letter_a = b'a' ∷ []

abbrev letter_b : List ℕ
letter_b = b'b' ∷ []

-- "a/+/#" and "a/b/c"
topic_matches-match_topic_example :
    topic_matches
      (text (literal letter_a) ++ filter_rest (plus ∷ hash ∷ []))
      (letter_a ++ topic_rest (letter_b ∷ (b'c' ∷ []) ∷ []))
    ≡ match_topic (literal letter_a) (plus ∷ hash ∷ []) letter_a (letter_b ∷ (b'c' ∷ []) ∷ [])
topic_matches-match_topic_example =
    topic_matches-match_topic (literal letter_a) (plus ∷ hash ∷ []) letter_a
      (letter_b ∷ (b'c' ∷ []) ∷ []) (((refl, refl, refl), tt), tt) (refl, tt) (omega arith)
      ((refl, tt), refl, omega arith, ((refl, tt), refl, omega arith, tt))
