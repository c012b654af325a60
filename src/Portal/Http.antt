-- ===== src/Portal/Http.antt =====
-- main/portal.c: `http_parse`, the check of the credentials, `urldecode_param` and the check of a host
-- name. A C string is the list of its bytes before the NUL. The strings that the parser cuts out of the
-- request by writing NULs into it are the parts of that list.
pub mod Credentials
pub mod Gate
pub mod Short
use mqtt_broker_esp.Prelude.{
  ℕ, zero, suc, ◌+◌, ◌-◌, ◌*◌, ◌/◌, ◌%◌, ◌^◌, ◌≤◌, List, [], ◌∷◌, ◌++◌, length, take, drop, get_or,
  Bool, true, false, ◌&&◌, ◌||◌, not, ltb, leb, ◌==◌, bytes_eq, if◌then◌else◌, Option, none, some,
  codes,
}
use mqtt_broker_esp.Wire.Read.{Parsed, ok, err, fault, ◌>>=◌}
use mqtt_broker_esp.Portal.Base64.{base64_decode}

pub data Method : Type 0 where
  get post put delete : Method

pub record HttpRequest : Type 0 where
  pub method : Method
  pub path : List ℕ
  pub query : List ℕ
  pub body : List ℕ
  pub auth_user : List ℕ
  pub auth_pass : List ℕ
  pub csrf_header : List ℕ

-- `strncmp(text, prefix, strlen(prefix)) == 0`
unfoldable pub has_prefix : List ℕ → (prefix : List ℕ) → Bool
has_prefix text [] = true
has_prefix [] (p ∷ prefix) = false
has_prefix (c ∷ text) (p ∷ prefix) = (c == p) && has_prefix text prefix

-- `strstr`: the text behind the first match.
unfoldable pub behind : (needle : List ℕ) → List ℕ → Option (List ℕ)
unfolding has_prefix
behind needle [] = none
behind needle (c ∷ text) =
    let rest = behind needle text in
    if has_prefix (c ∷ text) needle then some (drop (length needle) (c ∷ text)) else rest

abbrev pub cons_first : ℕ → Option (List ℕ × List ℕ) → Option (List ℕ × List ℕ)
cons_first c none = none
cons_first c (some (before, after)) = some (c ∷ before, after)

-- `strstr`: the text before the first match and the text behind it.
unfoldable pub cut : (needle : List ℕ) → List ℕ → Option (List ℕ × List ℕ)
unfolding has_prefix
cut needle [] = none
cut needle (c ∷ text) =
    let rest = cons_first c (cut needle text) in
    if has_prefix (c ∷ text) needle then some ([], drop (length needle) (c ∷ text)) else rest

abbrev pub or_else : Option (List ℕ) → Option (List ℕ) → Option (List ℕ)
or_else none other = other
or_else (some found) other = some found

abbrev pub crlf : List ℕ
crlf = 13 ∷ 10 ∷ []

abbrev pub before_cut : Option (List ℕ × List ℕ) → Option (List ℕ)
before_cut none = none
before_cut (some (before, after)) = some before

abbrev pub line_of : Option (List ℕ) → Option (List ℕ)
line_of none = none
line_of (some text) = before_cut (cut crlf text)

-- The value of a header in one of its two spellings, to the end of its line.
abbrev pub header_value : (rest canonical other : List ℕ) → Option (List ℕ)
header_value rest canonical other = line_of (or_else (behind canonical rest) (behind other rest))

abbrev pub csrf_token_buf_size : ℕ
csrf_token_buf_size = 33

unfoldable pub csrf_of : (rest : List ℕ) → List ℕ
unfolding behind cut
csrf_of rest = elim (header_value rest (codes "X-CSRF-Token: ") (codes "x-csrf-token: ")) [
  | none ↦ []
  | some value ↦ take (csrf_token_buf_size - 1) value
]

-- `char decoded[132]` after `base64_decode`: the bytes that are written, with the NUL if there is room.
abbrev pub decoded_array : List ℕ → List ℕ
decoded_array out = if ltb (length out) 132 then out ++ (0 ∷ []) else out

abbrev pub cons_checked : ℕ → Parsed (Option (List ℕ × List ℕ)) → Parsed (Option (List ℕ × List ℕ))
cons_checked c r = r >>= λ o. ok (cons_first c o)

-- `strchr(decoded, ':')`: the bytes before the colon and those behind it, if a colon comes before a
-- NUL. Without either the search runs out of the array.
unfoldable pub split_colon : List ℕ → Parsed (Option (List ℕ × List ℕ))
split_colon [] = fault
split_colon (c ∷ cs) =
    let rest = cons_checked c (split_colon cs) in
    if c == b':' then ok (some ([], cs)) else if c == 0 then ok none else rest

-- `strncpy(dst, src, n)`: at most `n` bytes before a NUL, which is looked for no further.
unfoldable pub copy_string : (n : ℕ) → List ℕ → Parsed (List ℕ)
copy_string zero src = ok []
copy_string (suc n) [] = fault
copy_string (suc n) (c ∷ src) =
    let rest = copy_string n src >>= λ out. ok (c ∷ out) in if c == 0 then ok [] else rest

abbrev pub two_strings : Option (List ℕ × List ℕ) → Parsed (List ℕ × List ℕ)
two_strings none = ok ([], [])
two_strings (some (user, rest)) = copy_string 64 rest >>= λ pass. ok (take 64 user, pass)

-- The name and the password of the value of the header.
unfoldable pub credentials : (b64 : List ℕ) → Parsed (List ℕ × List ℕ)
unfolding base64_decode split_colon copy_string
credentials b64 = split_colon (decoded_array (base64_decode b64 132)) >>= two_strings

abbrev pub credentials_or_empty : Option (List ℕ) → Parsed (List ℕ × List ℕ)
credentials_or_empty none = ok ([], [])
credentials_or_empty (some b64) = credentials b64

abbrev pub empty_request : HttpRequest
empty_request = record {
  method = get;
  path = [];
  query = [];
  body = [];
  auth_user = [];
  auth_pass = [];
  csrf_header = [];
}

abbrev pub method_of : List ℕ → Option Method
method_of word =
    if has_prefix word (codes "GET")
    then some get
    else if has_prefix word (codes "DELETE")
    then some delete
    else if has_prefix word (codes "PUT")
    then some put
    else if has_prefix word (codes "POST")
    then some post
    else none

abbrev pub takes_body : Method → Bool
takes_body get = false
takes_body post = true
takes_body put = true
takes_body delete = false

abbrev pub body_of : Method → Option (List ℕ) → List ℕ
body_of m none = []
body_of m (some start) = if takes_body m then take 511 start else []

abbrev pub with_path : HttpRequest → (path : List ℕ) → Option (List ℕ × List ℕ) → HttpRequest
with_path req path none = record req { path = take 127 path; query = [] }
with_path req path (some (before, after)) = record req {
  path = take 127 before;
  query = take 127 after;
}

-- From the second space on.
unfoldable pub parse_rest : Method → (path rest : List ℕ) → Parsed HttpRequest
unfolding behind cut csrf_of
parse_rest m path rest = do
  let req = with_path (record empty_request { method = m }) path (cut (b'?' ∷ []) path)
  (user, pass) ←
      credentials_or_empty
        (header_value rest (codes "Authorization: Basic ") (codes "authorization: Basic "))
  ok (record req {
    body = body_of m (behind (crlf ++ crlf) rest);
    csrf_header = csrf_of rest;
    auth_user = user;
    auth_pass = pass;
  })

abbrev pub with_second_space : Method → Option (List ℕ × List ℕ) → Parsed HttpRequest
with_second_space m none = ok (record empty_request { method = m })
with_second_space m (some (path, rest)) = parse_rest m path rest

abbrev pub with_method : Option Method → (line : List ℕ) → Parsed HttpRequest
with_method none line = ok empty_request
with_method (some m) line = with_second_space m (cut (b' ' ∷ []) line)

abbrev pub with_first_space : Option (List ℕ × List ℕ) → Parsed HttpRequest
with_first_space none = ok empty_request
with_first_space (some (word, line)) = with_method (method_of word) line

-- `fault` is a read outside of `decoded`, which C leaves undefined.
unfoldable pub http_parse : (data_text : List ℕ) → Parsed HttpRequest
unfolding parse_rest cut has_prefix
http_parse data_text = with_first_space (cut (b' ' ∷ []) data_text)

-- The check in `handle_http_client`: `cfg_user` and `cfg_pass` are the settings in NVS. True lets the
-- request through.
unfoldable pub passes_auth : (cfg_user cfg_pass : List ℕ) → HttpRequest → Bool
passes_auth cfg_user cfg_pass req =
    let exempt =
      bytes_eq req.path (codes "/api/ping")
      || bytes_eq req.path (codes "/api/time") && elim req.method [ get ↦ true | _ ↦ false ] in
    let enabled = not (length cfg_user == 0) && not (length cfg_pass == 0) in
    let auth_ok = bytes_eq req.auth_user cfg_user && bytes_eq req.auth_pass cfg_pass in
    not (not exempt && enabled) || auth_ok

abbrev is_alnum : ℕ → Bool
is_alnum c = leb b'a' c && leb c b'z' || (leb b'A' c && leb c b'Z' || leb b'0' c && leb c b'9')

unfoldable pub has_name_bytes : List ℕ → Bool
has_name_bytes [] = true
has_name_bytes (c ∷ cs) = (is_alnum c || ((c == b'-') || (c == b'_'))) && has_name_bytes cs

unfoldable pub hostname_is_valid : List ℕ → Bool
unfolding has_name_bytes
hostname_is_valid s =
    let n = length s in
    if (n == 0) || ltb 32 n
    then false
    else if (get_or s 0 0 == b'-') || (get_or s (n - 1) 0 == b'-')
    then false
    else has_name_bytes s
