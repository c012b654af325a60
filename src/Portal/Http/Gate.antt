-- ===== src/Portal/Http/Gate.antt =====
-- main/portal.c: which requests get past the check of the credentials, from the bytes of the request.
use mqtt_broker_esp.Prelude.{
  ℕ, ◌≤◌, ◌<◌, ◌≡◌, refl, sym, ap, ◌∙◌, List, ◌∷◌, ◌++◌, length, All, Bool, true, false, ◌&&◌, ◌||◌,
  bytes_eq, bytes_eq→eq, bytes_eq_refl, codes, arith, ◌↔◌,
}
use mqtt_broker_esp.Wire.Read.{ok}
use mqtt_broker_esp.Portal.Base64.RoundTrip.{base64_encode}
use mqtt_broker_esp.Portal.Http.{HttpRequest, http_parse, passes_auth}
use mqtt_broker_esp.Portal.Http.Credentials.{
  IsNameByte, IsTextByte, IsPathByte, get_with, http_parse-credentials,
}

-- The two paths that are open to everybody.
abbrev pub is_open_path : List ℕ → Bool
is_open_path path = bytes_eq path (codes "/api/ping") || bytes_eq path (codes "/api/time")

-- With a name and a password configured, a request for any other path passes exactly when its own are
-- the same.
passes_auth-closed :
    (cfg_user cfg_pass : List ℕ) (req : HttpRequest)
    → 0 < length cfg_user
    → 0 < length cfg_pass
    → is_open_path req.path ≡ false
    → passes_auth cfg_user cfg_pass req
      ≡ bytes_eq req.auth_user cfg_user && bytes_eq req.auth_pass cfg_pass
unfolding passes_auth
passes_auth-closed cfg_user cfg_pass req hu hp closed = ground arith

both_same : (a b c d : List ℕ) → (bytes_eq a b && bytes_eq c d ≡ true) ↔ (a ≡ b) × (c ≡ d)
both_same a b c d = (
  λ h. (bytes_eq→eq a b (ground arith), bytes_eq→eq c d (ground arith)),
  λ (e, g). rw (e, g, bytes_eq_refl b, bytes_eq_refl d) refl,
)

-- A GET request with a Basic header, its name and password of at most 63 bytes each, for a path that
-- is not open to everybody: once a name and a password are configured, it is parsed and gets past the
-- check exactly when it has both.
pub passes_auth-http_parse :
    (path user pass cfg_user cfg_pass : List ℕ)
    → All IsPathByte path
    → length path ≤ 127
    → All IsNameByte user
    → All IsTextByte pass
    → length user ≤ 63
    → length pass ≤ 63
    → 0 < length cfg_user
    → 0 < length cfg_pass
    → is_open_path path ≡ false
    → (req : HttpRequest) × (http_parse (get_with path (base64_encode (user ++ (b':' ∷ pass))))
        ≡ ok req)
      × ((passes_auth cfg_user cfg_pass req ≡ true) ↔ (user ≡ cfg_user) × (pass ≡ cfg_pass))
passes_auth-http_parse path user pass cfg_user cfg_pass hp np hu hw nu nw cu cp closed =
    let (req, parsed, p, u, w) = http_parse-credentials path user pass hp np hu hw nu nw in
    let same = both_same user cfg_user pass cfg_pass in
    let gate : passes_auth cfg_user cfg_pass req
        ≡ bytes_eq user cfg_user && bytes_eq pass cfg_pass =
      passes_auth-closed cfg_user cfg_pass req cu cp (ap is_open_path p ∙ closed)
      ∙ ap (λ t. bytes_eq t cfg_user && bytes_eq req.auth_pass cfg_pass) u
      ∙ ap (λ t. bytes_eq user cfg_user && bytes_eq t cfg_pass) w in
    (req, parsed, (λ h. same.0 (sym gate ∙ h), λ e. gate ∙ same.1 e))
