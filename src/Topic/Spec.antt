-- ===== src/Topic/Spec.antt =====
-- Topic matching by levels, as section 4.7 of MQTT 3.1.1 describes it, and the texts that stand
-- for levels.
use mqtt_broker_esp.Prelude.{
  ℕ, ◌+◌, ◌<◌, ◌≡◌, List, [], ◌∷◌, ◌++◌, Bool, true, false, ◌&&◌, ◌==◌, if◌then◌else◌, bytes_eq,
  length, All,
}
use mqtt_broker_esp.Topic.{slash, next_is}

-- A level of a topic filter.
pub data Level : Type 0 where
  plus hash : Level
  literal : List ℕ → Level

unfoldable pub match_levels : List Level → List (List ℕ) → Bool
match_levels [] [] = true
match_levels [] (t ∷ ts) = false
match_levels (hash ∷ fs) ts = true
match_levels (plus ∷ fs) [] = false
match_levels (plus ∷ fs) (t ∷ ts) = match_levels fs ts
match_levels (literal l ∷ fs) [] = false
match_levels (literal l ∷ fs) (t ∷ ts) = bytes_eq l t && match_levels fs ts

abbrev pub is_wildcard : Level → Bool
is_wildcard (literal l) = false
is_wildcard _ = true

-- A filter that begins with a wildcard does not match a topic that begins with '$'.
unfoldable pub match_topic : Level → List Level → List ℕ → List (List ℕ) → Bool
unfolding match_levels
match_topic x fs t ts =
    if is_wildcard x && next_is b'$' t then false else match_levels (x ∷ fs) (t ∷ ts)

abbrev pub text : Level → List ℕ
text plus = b'+' ∷ []
text hash = b'#' ∷ []
text (literal l) = l

-- The levels behind the first, each with the '/' before it.
abbrev pub filter_rest : List Level → List ℕ
filter_rest [] = []
filter_rest (x ∷ fs) = slash ∷ (text x ++ filter_rest fs)

abbrev pub topic_rest : List (List ℕ) → List ℕ
topic_rest [] = []
topic_rest (t ∷ ts) = slash ∷ (t ++ topic_rest ts)

-- A character that may stand in a literal level.
abbrev pub Plain : ℕ → Type 0
Plain c = ((c == slash) ≡ false) × ((c == b'+') ≡ false) × ((c == b'#') ≡ false)

-- '#' is the last level, and literal levels hold no wildcard.
abbrev pub ValidFilter : List Level → Type 0
ValidFilter [] = Unit
ValidFilter (hash ∷ []) = Unit
ValidFilter (hash ∷ _ ∷ _) = ⊥
ValidFilter (plus ∷ fs) = ValidFilter fs
ValidFilter (literal l ∷ fs) = All Plain l × ValidFilter fs

abbrev pub NoSlash : List ℕ → Type 0
NoSlash t = All (λ c. (c == slash) ≡ false) t

-- The last level is not empty.
abbrev pub EndsFull : List ℕ → List (List ℕ) → Type 0
EndsFull t ts = 0 < length t + length ts

-- Levels behind the first: none begins with '$', and the last one is not empty.
abbrev pub ValidRest : List (List ℕ) → Type 0
ValidRest [] = Unit
ValidRest (t ∷ ts) = NoSlash t × (next_is b'$' t ≡ false) × EndsFull t ts × ValidRest ts
