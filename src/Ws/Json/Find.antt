-- ===== src/Ws/Json/Find.antt =====
-- `json_find_key` of main/portal_ws.c passes over the strings in which a key's name may stand.
use mqtt_broker_esp.Prelude.{
  ℕ, zero, suc, ◌/◌, ◌%◌, ◌≤◌, ◌<◌, ◌≡◌, ◌≢◌, refl, sym, ap, ◌∙◌, List, [], ◌∷◌, ◌++◌, length, Bool,
  true, false, ◌&&◌, ltb, ◌==◌, bytes_eq, if-holds, Option, none, some, arith, append_assoc,
  length-append,
}
use mqtt_broker_esp.Timers.Json.{escape_of, hex_char}
use mqtt_broker_esp.Timers.Json.Strings.{escape_all, quoted}
use mqtt_broker_esp.Ws.Json.{
  keep_byte, raw_string, json_skip_ws, after_colon, met_string, find_from, json_find_key,
}

abbrev keep_all : List ℕ → Option (List ℕ × List ℕ) → Option (List ℕ × List ℕ)
keep_all bytes none = none
keep_all bytes (some (str, rest)) = some (bytes ++ str, rest)

module _ (text : List ℕ) where
  abbrev Passes : List ℕ → Type 0
  Passes bytes = raw_string (bytes ++ text) ≡ keep_all bytes (raw_string text)

  Passes-escaped : (d : ℕ) → Passes (92 ∷ d ∷ [])
  unfolding raw_string
  Passes-escaped d = kept (raw_string text)
    where
      kept :
          (r : Option (List ℕ × List ℕ)) → keep_byte 92 (keep_byte d r) ≡ keep_all (92 ∷ d ∷ []) r
      kept none = refl
      kept (some (str, rest)) = refl

keep_byte-keep_all :
    (c : ℕ) (bytes : List ℕ) (r : Option (List ℕ × List ℕ))
    → keep_byte c (keep_all bytes r) ≡ keep_all (c ∷ bytes) r
keep_byte-keep_all c bytes none = refl
keep_byte-keep_all c bytes (some (str, rest)) = refl

raw_string-plain :
    (c : ℕ) (text : List ℕ)
    → c ≢ b'"'
    → c ≢ 92
    → raw_string (c ∷ text) ≡ keep_byte c (raw_string text)
unfolding raw_string
raw_string-plain c [] h k = ground arith
raw_string-plain c (d ∷ text) h k =
    let quote : (c == b'"') ≡ false = ground arith in
    let backslash : (c == 92) ≡ false = ground arith in rw (quote, backslash) refl

Passes-plain : (text : List ℕ) (c : ℕ) → c ≢ b'"' → c ≢ 92 → Passes text (c ∷ [])
Passes-plain text c h k = raw_string-plain c text h k ∙ one (raw_string text)
  where
    one : (r : Option (List ℕ × List ℕ)) → keep_byte c r ≡ keep_all (c ∷ []) r
    one none = refl
    one (some (str, rest)) = refl

hex_char_plain : (x : ℕ) → x < 16 → (hex_char x ≢ b'"') × (hex_char x ≢ 92)
hex_char_plain x h = (ground arith, ground arith)

keep_all-append :
    (a b : List ℕ) (r : Option (List ℕ × List ℕ)) → keep_all a (keep_all b r) ≡ keep_all (a ++ b) r
keep_all-append a b none = refl
keep_all-append a b (some (str, rest)) = ap (λ t. some (t, rest)) (sym (append_assoc a b str))

Passes-append : (text a b : List ℕ) → Passes (b ++ text) a → Passes text b → Passes text (a ++ b)
Passes-append text a b p q =
    ap raw_string (append_assoc a b text)
    ∙ p
    ∙ ap (keep_all a) q
    ∙ keep_all-append a b (raw_string text)

Passes-control :
    (text : List ℕ) (x y : ℕ)
    → x < 16
    → y < 16
    → Passes text (92 ∷ b'u' ∷ b'0' ∷ b'0' ∷ hex_char x ∷ hex_char y ∷ [])
Passes-control text x y h k =
    let last = Passes-plain text (hex_char y) (hex_char_plain y k).0 (hex_char_plain y k).1 in
    let fifth =
      Passes-append text (hex_char x ∷ []) (hex_char y ∷ [])
        (Passes-plain (hex_char y ∷ text) (hex_char x) (hex_char_plain x h).0
          (hex_char_plain x h).1)
        last in
    let fourth =
      Passes-append text (b'0' ∷ []) (hex_char x ∷ hex_char y ∷ [])
        (Passes-plain (hex_char x ∷ hex_char y ∷ text) b'0' (omega arith) (omega arith)) fifth in
    let third =
      Passes-append text (b'0' ∷ []) (b'0' ∷ hex_char x ∷ hex_char y ∷ [])
        (Passes-plain (b'0' ∷ hex_char x ∷ hex_char y ∷ text) b'0' (omega arith) (omega arith))
        fourth in
    Passes-append text (92 ∷ b'u' ∷ []) (b'0' ∷ b'0' ∷ hex_char x ∷ hex_char y ∷ [])
      (Passes-escaped (b'0' ∷ b'0' ∷ hex_char x ∷ hex_char y ∷ text) b'u') third

Passes-escape_of : (text : List ℕ) (c : ℕ) → Passes text (escape_of c)
Passes-escape_of text c =
    let P : List ℕ → Type 0 = Passes text in
    if-holds P (c == b'"') (λ _. Passes-escaped text b'"')
      λ quote.
        if-holds P (c == 92) (λ _. Passes-escaped text 92)
          λ backslash.
            if-holds P (c == 10) (λ _. Passes-escaped text b'n')
              λ _.
                if-holds P (c == 13) (λ _. Passes-escaped text b'r')
                  λ _.
                    if-holds P (c == 9) (λ _. Passes-escaped text b't')
                      λ _.
                        if-holds P (c == 8) (λ _. Passes-escaped text b'b')
                          λ _.
                            if-holds P (c == 12) (λ _. Passes-escaped text b'f')
                              λ _.
                                if-holds P (ltb c 0x20)
                                  (λ e.
                                    Passes-control text (c / 16) (c % 16) (ground arith)
                                      (ground arith))
                                  λ _. Passes-plain text c (ground arith) (ground arith)

raw_string-escape_all :
    (s rest : List ℕ) → raw_string (escape_all s ++ (b'"' ∷ rest)) ≡ some (escape_all s, rest)
unfolding escape_all
raw_string-escape_all [] [] = unfold raw_string in refl
raw_string-escape_all [] (d ∷ rest) = unfold raw_string in refl
raw_string-escape_all (c ∷ s) rest =
    ap raw_string (append_assoc (escape_of c) (escape_all s) (b'"' ∷ rest))
    ∙ Passes-escape_of (escape_all s ++ (b'"' ∷ rest)) c
    ∙ ap (keep_all (escape_of c)) (raw_string-escape_all s rest)

-- With enough fuel the search finds `rest`.
abbrev pub Found : (key : List ℕ) (at_key : Bool) (text rest : List ℕ) → Type 0
Found key at_key text rest =
    (fuel : ℕ) → length text ≤ fuel → find_from fuel key at_key text ≡ some rest

module _ (key text rest : List ℕ) (a : Bool) where
  pub Found-open : Found key true text rest → Found key a (b'{' ∷ text) rest
  unfolding find_from
  Found-open f zero h = absurd (omega arith)
  Found-open f (suc fuel) h = f fuel (omega arith)

  pub Found-comma : Found key true text rest → Found key a (b',' ∷ text) rest
  unfolding find_from
  Found-comma f zero h = absurd (omega arith)
  Found-comma f (suc fuel) h = f fuel (omega arith)

  pub Found-colon : Found key false text rest → Found key a (b':' ∷ text) rest
  unfolding find_from
  Found-colon f zero h = absurd (omega arith)
  Found-colon f (suc fuel) h = f fuel (omega arith)

  ungroup : (s : List ℕ) → (escape_all s ++ (b'"' ∷ [])) ++ text ≡ escape_all s ++ (b'"' ∷ text)
  ungroup s = append_assoc (escape_all s) (b'"' ∷ []) text

  -- A string that is not the key where a key is expected, or a value.
  pub Found-past :
      (s : List ℕ)
      → a && bytes_eq (escape_all s) key ≡ false
      → Found key a text rest
      → Found key a (quoted s ++ text) rest
  unfolding find_from
  Found-past s other f zero h = absurd (omega arith)
  Found-past s other f (suc fuel) h =
      ap (λ t. met_string key a (find_from fuel key a) (raw_string t)) (ungroup s)
      ∙ ap (met_string key a (find_from fuel key a)) (raw_string-escape_all s text)
      ∙ rw other (f fuel (omega (arith, length-append (escape_all s ++ (b'"' ∷ [])) text)))

-- The key with its colon.
pub Found-key :
    (key text s : List ℕ)
    → bytes_eq (escape_all s) key ≡ true
    → Found key true (quoted s ++ (b':' ∷ text)) text
unfolding find_from after_colon json_skip_ws
Found-key key text s same zero h = absurd (omega arith)
Found-key key text s same (suc fuel) h =
    ap (λ t. met_string key true (find_from fuel key true) (raw_string t))
      (append_assoc (escape_all s) (b'"' ∷ []) (b':' ∷ text))
    ∙ ap (met_string key true (find_from fuel key true)) (raw_string-escape_all s (b':' ∷ text))
    ∙ rw same refl

pub json_find_key-Found :
    (key text rest : List ℕ) → Found key false text rest → json_find_key text key ≡ some rest
unfolding json_find_key
json_find_key-Found key text rest f = f (length text) (omega arith)
