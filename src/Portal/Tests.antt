-- ===== src/Portal/Tests.antt =====
-- Requests, forms and texts of the portal.
use mqtt_broker_esp.Prelude.{
  ℕ, ◌*◌, ◌<◌, ◌≡◌, refl, List, [], ◌∷◌, length, take, replicate, All, bytes_eq, true, false, ◌↔◌,
  some, codes, arith,
}
use mqtt_broker_esp.Wire.Read.{ok, fault}
use mqtt_broker_esp.Wire.Read.Safe.{Safe}
use mqtt_broker_esp.Portal.Base64.RoundTrip.{base64_encode}
use mqtt_broker_esp.Portal.Http.{
  HttpRequest, http_parse, passes_auth, credentials, hostname_is_valid,
}
use mqtt_broker_esp.Portal.Http.Credentials.{get_with, http_parse-credentials, http_parse-fault}
use mqtt_broker_esp.Portal.Http.Gate.{passes_auth-http_parse}
use mqtt_broker_esp.Portal.Http.Short.{FitsFields, credentials-Safe}
use mqtt_broker_esp.Portal.Form.{html_escape, form_get_field, urldecode_param}
use mqtt_broker_esp.Portal.Form.Escape.{IsInert, read_html, html_escape_lem}
use mqtt_broker_esp.Portal.Form.Fields.{form_text, field_value, form_get_field-form_text}

abbrev aladdin : List ℕ
aladdin = codes "Aladdin:open sesame"

-- The example of RFC 7617.
encodes_aladdin : base64_encode aladdin ≡ codes "QWxhZGRpbjpvcGVuIHNlc2FtZQ=="
unfolding base64_encode
encodes_aladdin = refl

http_parse-credentials_example :
    (req : HttpRequest) × (http_parse
        (get_with (codes "/settings") (base64_encode (codes "admin:s3cret")))
      ≡ ok req)
    × (req.path ≡ codes "/settings")
    × (req.auth_user ≡ codes "admin")
    × (req.auth_pass ≡ codes "s3cret")
http_parse-credentials_example =
    http_parse-credentials (codes "/settings") (codes "admin") (codes "s3cret") (omega arith)
      (omega arith) (omega arith) (omega arith) (omega arith) (omega arith)

passes_auth-http_parse_example :
    (req : HttpRequest) × (http_parse
        (get_with (codes "/settings") (base64_encode (codes "admin:guess")))
      ≡ ok req)
    × ((passes_auth (codes "admin") (codes "s3cret") req ≡ true)
        ↔ (codes "admin" ≡ codes "admin") × (codes "guess" ≡ codes "s3cret"))
unfolding bytes_eq
passes_auth-http_parse_example =
    passes_auth-http_parse (codes "/settings") (codes "admin") (codes "guess") (codes "admin")
      (codes "s3cret") (omega arith) (omega arith) (omega arith) (omega arith) (omega arith)
      (omega arith) (omega arith) (omega arith) refl

abbrev many : List ℕ
many = replicate 132 b'a'

http_parse-fault_example : http_parse (get_with (codes "/") (base64_encode many)) ≡ fault
http_parse-fault_example = http_parse-fault (codes "/") many (omega arith) (omega arith) refl

credentials-Safe_example : Safe FitsFields (credentials (codes "QWxhZGRpbjpvcGVuIHNlc2FtZQ=="))
credentials-Safe_example = credentials-Safe (codes "QWxhZGRpbjpvcGVuIHNlc2FtZQ==") (omega arith)

abbrev script : List ℕ
script = codes "if a < b print(\"&\") end"

html_escape_lem_example :
    ((n : ℕ) × (read_html 0 (html_escape script 30) ≡ take n script))
    × (length (html_escape script 30) < 30)
    × All IsInert (html_escape script 30)
    × (6 * 23 < 30 → read_html 0 (html_escape script 30) ≡ script)
html_escape_lem_example = html_escape_lem script 30 (omega arith)

abbrev fields : List (List ℕ × List ℕ)
fields = (codes "name", codes "my script=1") ∷ (codes "script", codes "print('a&b')") ∷ []

form_get_field-form_text_example :
    form_get_field (form_text fields) (codes "script") 6
    ≡ take 5 (field_value fields (codes "script"))
form_get_field-form_text_example =
    form_get_field-form_text fields (codes "script") 6 (omega arith)
      (
        record { plain_key = omega arith; bytes = omega arith },
        (record { plain_key = omega arith; bytes = omega arith }, tt),
      )
      (omega arith)

decodes_param :
    urldecode_param (codes "a=1&ssid=my%20net+x&b") (codes "ssid") 33 ≡ some (codes "my net x")
unfolding urldecode_param bytes_eq
decodes_param = refl

rejects_name : hostname_is_valid (codes "-broker") ≡ false
unfolding hostname_is_valid
rejects_name = refl
