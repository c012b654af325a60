-- ===== src/Topic.antt =====
-- `mqtt_topic_matches` of main/mqtt_parser.c.
pub mod Spec
pub mod Literal
pub mod Match
mod Tests
use mqtt_broker_esp.Prelude.{
  ℕ, List, [], ◌∷◌, Bool, true, false, ◌&&◌, ◌||◌, not, ◌==◌, if◌then◌else◌,
}

abbrev pub slash : ℕ
slash = b'/'

-- `i < len && s[i] == c`, on what the index has not passed.
abbrev pub next_is : ℕ → List ℕ → Bool
next_is c [] = false
next_is c (x ∷ xs) = x == c

abbrev pub at_end : List ℕ → Bool
at_end [] = true
at_end (x ∷ xs) = false

abbrev pub differ : Bool → Bool → Bool
differ true b = not b
differ false b = b

-- `while (ti < topic_len && topic[ti] != '/') ti++;`
unfoldable pub skip_level : List ℕ → List ℕ
skip_level [] = []
skip_level (t ∷ ts) = if t == slash then t ∷ ts else skip_level ts

-- The lists are what `fi` and `ti` have not passed. `boundary` says that `fi` is 0 or stands
-- behind a '/'. Each round passes one character of the filter.
unfoldable pub matches_from : Bool → List ℕ → List ℕ → Bool
unfolding skip_level
matches_from boundary [] topic = at_end topic
matches_from boundary (f ∷ fs) [] =
    if boundary && (f == b'$')
    then false
    else if f == b'#'
    then at_end fs || next_is slash fs
    else if f == b'+'
    then false
    else (f == slash) && next_is b'#' fs
matches_from boundary (f ∷ fs) (t ∷ ts) =
    let past_level = matches_from false fs (skip_level (t ∷ ts)) in
    let past_char = matches_from (f == slash) fs ts in
    if boundary && differ (t == b'$') (f == b'$')
    then false
    else if f == b'#'
    then at_end fs || next_is slash fs
    else if f == b'+'
    then if t == b'$' then false else past_level
    else if f == t
    then past_char
    else false

unfoldable pub topic_matches : List ℕ → List ℕ → Bool
unfolding matches_from
topic_matches filter topic = matches_from true filter topic
