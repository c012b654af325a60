-- ===== src/Portal/Http/Credentials.antt =====
-- main/portal.c: the credentials of a request are read as they were sent if they are short, and read
-- outside of an array if they are long.
use mqtt_broker_esp.Prelude.{
  ℕ, zero, suc, ◌+◌, ◌*◌, ◌/◌, ◌%◌, ◌≤◌, ◌<◌, ◌≡◌, ◌≢◌, refl, ap, ◌∙◌, List, [], ◌∷◌, ◌++◌, length,
  take-all, All, true, false, ltb, ◌==◌, none, some, codes, arith, append_assoc, length-append,
}
use mqtt_broker_esp.Wire.Read.{ok, fault}
use mqtt_broker_esp.Portal.Base64.RoundTrip.{
  IsByte, char64, base64_encode, base64_decode-base64_encode,
}
use mqtt_broker_esp.Portal.Http.{
  body_of, HttpRequest, get, has_prefix, behind, cut, crlf, before_cut, header_value, csrf_of,
  split_colon, copy_string, credentials, empty_request, with_second_space, parse_rest, http_parse,
}

-- A byte that neither ends a string nor splits the credentials.
abbrev pub IsNameByte : ℕ → Type 0
IsNameByte b = (b < 256) × (b ≢ 0) × (b ≢ b':')

-- A byte that does not end a string.
abbrev pub IsTextByte : ℕ → Type 0
IsTextByte b = (b < 256) × (b ≢ 0)

split_colon-fault : (bytes : List ℕ) → All IsNameByte bytes → split_colon bytes ≡ fault
unfolding split_colon
split_colon-fault [] h = refl
split_colon-fault (b ∷ bytes) h =
    let colon : (b == b':') ≡ false = ground arith in
    let nul : (b == 0) ≡ false = ground arith in rw (colon, nul, split_colon-fault bytes h.1) refl

All-IsByte : (bytes : List ℕ) → All IsNameByte bytes → All IsByte bytes
All-IsByte [] h = tt
All-IsByte (b ∷ bytes) h = (h.0.0, All-IsByte bytes h.1)

-- A header with 132 bytes that are no colon and no NUL has the parser read behind the array.
pub credentials-fault :
    (bytes : List ℕ)
    → All IsNameByte bytes
    → length bytes ≡ 132
    → credentials (base64_encode bytes) ≡ fault
unfolding credentials
credentials-fault bytes h n =
    let full : ltb (length bytes) 132 ≡ false = ground arith in
    rw
      (
        base64_decode-base64_encode bytes 132 (All-IsByte bytes h) (omega arith),
        full,
        split_colon-fault bytes h,
      )
      refl

split_colon-some :
    (name rest : List ℕ)
    → All IsNameByte name
    → split_colon (name ++ (b':' ∷ rest)) ≡ ok (some (name, rest))
unfolding split_colon
split_colon-some [] rest h = refl
split_colon-some (b ∷ name) rest h =
    let colon : (b == b':') ≡ false = ground arith in
    let nul : (b == 0) ≡ false = ground arith in
    rw (colon, nul, split_colon-some name rest h.1) refl

copy_string-All :
    (n : ℕ) (s rest : List ℕ)
    → All IsTextByte s
    → length s < n
    → copy_string n (s ++ (0 ∷ rest)) ≡ ok s
unfolding copy_string
copy_string-All zero s rest h k = absurd (omega arith)
copy_string-All (suc n) [] rest h k = refl
copy_string-All (suc n) (c ∷ s) rest h k =
    let nul : (c == 0) ≡ false = ground arith in
    rw (nul, copy_string-All n s rest h.1 (omega arith)) refl

All-append_bytes :
    (name pass : List ℕ)
    → All IsNameByte name
    → All IsTextByte pass
    → All IsByte (name ++ (b':' ∷ pass))
All-append_bytes [] [] h k = (omega arith, tt)
All-append_bytes [] (p ∷ pass) h k = (omega arith, (k.0.0, (All-append_bytes [] pass tt k.1).1))
All-append_bytes (b ∷ name) pass h k = (h.0.0, All-append_bytes name pass h.1 k)

-- A name and a password of at most 63 bytes come out as they went in.
credentials-base64_encode :
    (user pass : List ℕ)
    → All IsNameByte user
    → All IsTextByte pass
    → length user ≤ 63
    → length pass ≤ 63
    → credentials (base64_encode (user ++ (b':' ∷ pass))) ≡ ok (user, pass)
unfolding credentials
credentials-base64_encode user pass hu hp nu np =
    let whole : List ℕ = user ++ (b':' ∷ pass) in
    let size = length-append user (b':' ∷ pass) in
    let room : ltb (length whole) 132 ≡ true = ground (arith, size) in
    let decoded =
      base64_decode-base64_encode whole 132 (All-append_bytes user pass hu hp)
        (omega (arith, size)) in
    rw
      (
        decoded,
        room,
        append_assoc user (b':' ∷ pass) (0 ∷ []),
        split_colon-some user (pass ++ (0 ∷ [])) hu,
        copy_string-All 64 pass [] hp (omega arith),
        take-all 64 user (omega arith),
      )
      refl

-- A character behind the control characters.
abbrev IsPlain : ℕ → Type 0
IsPlain c = 13 < c

IsPlain-char64 : (v : ℕ) → IsPlain (char64 v)
unfolding char64
IsPlain-char64 v = ground arith

All-base64_encode : (bytes : List ℕ) → All IsPlain (base64_encode bytes)
unfolding base64_encode
All-base64_encode [] = tt
All-base64_encode (x ∷ []) =
    (IsPlain-char64 (x / 4), (IsPlain-char64 (x % 4 * 16), (omega arith, (omega arith, tt))))
All-base64_encode (x ∷ y ∷ []) = (
  IsPlain-char64 (x / 4),
  (IsPlain-char64 (x % 4 * 16 + y / 16), (IsPlain-char64 (y % 16 * 4), (omega arith, tt))),
)
All-base64_encode (x ∷ y ∷ z ∷ bytes) = (
  IsPlain-char64 (x / 4),
  (
    IsPlain-char64 (x % 4 * 16 + y / 16),
    (IsPlain-char64 (y % 16 * 4 + z / 64), (IsPlain-char64 (z % 64), All-base64_encode bytes)),
  ),
)

cut-crlf :
    (line rest : List ℕ) → All IsPlain line → cut crlf (line ++ (crlf ++ rest)) ≡ some (line, rest)
unfolding cut has_prefix
cut-crlf [] rest h = refl
cut-crlf (c ∷ line) rest h =
    let other : (c == 13) ≡ false = ground arith in rw (other, cut-crlf line rest h.1) refl

-- A byte of a path: it does not end the path.
abbrev pub IsPathByte : ℕ → Type 0
IsPathByte c = (c ≢ b' ') × (c ≢ b'?')

cut-space :
    (path rest : List ℕ)
    → All IsPathByte path
    → cut (b' ' ∷ []) (path ++ (b' ' ∷ rest)) ≡ some (path, rest)
unfolding cut has_prefix
cut-space [] rest h = refl
cut-space (c ∷ path) rest h =
    let other : (c == b' ') ≡ false = ground arith in rw (other, cut-space path rest h.1) refl

cut-no_query : (path : List ℕ) → All IsPathByte path → cut (b'?' ∷ []) path ≡ none
unfolding cut has_prefix
cut-no_query [] h = refl
cut-no_query (c ∷ path) h =
    let other : (c == b'?') ≡ false = ground arith in rw (other, cut-no_query path h.1) refl

-- A GET request with the header of Basic authentication.
abbrev rest_with : (b64 : List ℕ) → List ℕ
rest_with b64 =
    codes "HTTP/1.1" ++ (crlf ++ (codes "Authorization: Basic " ++ (b64 ++ (crlf ++ crlf))))

abbrev pub get_with : (path b64 : List ℕ) → List ℕ
get_with path b64 = codes "GET " ++ (path ++ (b' ' ∷ rest_with b64))

header_of :
    (bytes : List ℕ)
    → header_value
        (rest_with (base64_encode bytes))
        (codes "Authorization: Basic ")
        (codes "authorization: Basic ")
      ≡ some (base64_encode bytes)
unfolding behind has_prefix
header_of bytes = ap before_cut (cut-crlf (base64_encode bytes) crlf (All-base64_encode bytes))

http_parse-get_with :
    (path b64 : List ℕ)
    → All IsPathByte path
    → http_parse (get_with path b64) ≡ parse_rest get path (rest_with b64)
unfolding http_parse cut has_prefix
http_parse-get_with path b64 h = ap (with_second_space get) (cut-space path (rest_with b64) h)

-- The request of a client with credentials: the path and, of at most 63 bytes each, the name and the
-- password come out of the parser as the client has encoded them.
pub http_parse-credentials :
    (path user pass : List ℕ)
    → All IsPathByte path
    → length path ≤ 127
    → All IsNameByte user
    → All IsTextByte pass
    → length user ≤ 63
    → length pass ≤ 63
    → (req : HttpRequest) × (http_parse (get_with path (base64_encode (user ++ (b':' ∷ pass))))
        ≡ ok req)
      × (req.path ≡ path)
      × (req.auth_user ≡ user)
      × (req.auth_pass ≡ pass)
unfolding parse_rest
http_parse-credentials path user pass hp np hu hw nu nw =
    let bytes : List ℕ = user ++ (b':' ∷ pass) in
    let b64 : List ℕ = base64_encode bytes in
    let req : HttpRequest = record empty_request {
      path = path;
      body = body_of get (behind (crlf ++ crlf) (rest_with b64));
      auth_user = user;
      auth_pass = pass;
      csrf_header = csrf_of (rest_with b64);
    } in
    (
      req,
      http_parse-get_with path b64 hp
          ∙ rw
              (
                cut-no_query path hp,
                header_of bytes,
                credentials-base64_encode user pass hu hw nu nw,
                take-all 127 path np,
              )
              refl,
      refl,
      refl,
      refl,
    )

-- A request whose credentials decode to 132 bytes without a colon and without a NUL has the parser read
-- behind the end of its array, before any password is checked.
pub http_parse-fault :
    (path bytes : List ℕ)
    → All IsPathByte path
    → All IsNameByte bytes
    → length bytes ≡ 132
    → http_parse (get_with path (base64_encode bytes)) ≡ fault
unfolding parse_rest
http_parse-fault path bytes hp h n =
    http_parse-get_with path (base64_encode bytes) hp
    ∙ rw (header_of bytes, credentials-fault bytes h n) refl
