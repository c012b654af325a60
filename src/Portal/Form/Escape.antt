-- ===== src/Portal/Form/Escape.antt =====
-- `html_escape` of main/portal_berry.c leaves nothing that a page would take for markup.
use mqtt_broker_esp.Prelude.{
  ℕ, zero, suc, refl, ap, codes, bytes_eq, ◌&&◌, if◌then◌else◌, ◌+◌, ◌*◌, ◌≤◌, ◌<◌, ◌≡◌, ◌≢◌, sym,
  subst, ◌∙◌, List, [], ◌∷◌, ◌++◌, length, take, All, true, false, ltb, ◌==◌, if-holds, arith,
  append_assoc, append-nil, length-append,
}
use mqtt_broker_esp.Portal.Form.{escape_byte, escape_loop, html_escape}

-- A text as a page has to have it.
unfoldable pub html_text : List ℕ → List ℕ
html_text [] = []
html_text (c ∷ cs) = escape_byte c ++ html_text cs

-- A byte that does not end a text or an attribute in double quotes.
abbrev pub IsInert : ℕ → Type 0
IsInert c = (c ≢ b'<') × (c ≢ b'>') × (c ≢ b'"')

abbrev Inert : List ℕ → Type 0
Inert bytes = All IsInert bytes

inert : (c : ℕ) → c ≢ b'<' → c ≢ b'>' → c ≢ b'"' → IsInert c
inert c p q r = (p, q, r)

Inert-escape_byte : (c : ℕ) → Inert (escape_byte c)
Inert-escape_byte c =
    if-holds Inert (c == b'<') (λ _. omega arith)
      λ lt.
        if-holds Inert (c == b'>') (λ _. omega arith)
          λ gt.
            if-holds Inert (c == b'&') (λ _. omega arith)
              λ amp.
                if-holds Inert (c == b'"') (λ _. omega arith)
                  λ quote. (inert c (ground arith) (ground arith) (ground arith), tt)

Inert-append : (xs ys : List ℕ) → Inert xs → Inert ys → Inert (xs ++ ys)
Inert-append [] ys h k = k
Inert-append (x ∷ xs) ys h k = (h.0, Inert-append xs ys h.1 k)

Inert-html_text : (text : List ℕ) → Inert (html_text text)
unfolding html_text
Inert-html_text [] = tt
Inert-html_text (c ∷ cs) =
    Inert-append (escape_byte c) (html_text cs) (Inert-escape_byte c) (Inert-html_text cs)

length-escape_byte : (c : ℕ) → length (escape_byte c) ≤ 6
length-escape_byte c = ground arith

-- The result: the start of the text is escaped, and fits with its NUL.
record IsEscaped (outsz : ℕ) (out text result : List ℕ) : Type 0 where
  n : ℕ
  whole : result ≡ out ++ html_text (take n text)
  fits : length result < outsz

escape_loop-IsEscaped :
    (outsz : ℕ) (out text : List ℕ)
    → length out < outsz
    → IsEscaped outsz out text (escape_loop outsz out text)
unfolding escape_loop html_text
escape_loop-IsEscaped outsz out [] h = record { n = 0; whole = sym (append-nil out); fits = h }
escape_loop-IsEscaped outsz out (c ∷ cs) h =
    if-holds (IsEscaped outsz out (c ∷ cs)) (ltb (length out + 6) outsz)
      (λ room.
        let size = length-append out (escape_byte c) in
        let r =
          escape_loop-IsEscaped outsz (out ++ escape_byte c) cs
            (ground (arith, size, length-escape_byte c)) in
        record {
          n = suc r.n;
          whole = r.whole ∙ append_assoc out (escape_byte c) (html_text (take r.n cs));
          fits = r.fits;
        })
      (λ _. record { n = 0; whole = sym (append-nil out); fits = h })

escape_loop-whole :
    (outsz : ℕ) (out text : List ℕ)
    → length out + 6 * length text < outsz
    → escape_loop outsz out text ≡ out ++ html_text text
unfolding escape_loop html_text
escape_loop-whole outsz out [] h = sym (append-nil out)
escape_loop-whole outsz out (c ∷ cs) h =
    let room : ltb (length out + 6) outsz ≡ true = ground arith in
    let size = length-append out (escape_byte c) in
    rw room (
      escape_loop-whole outsz (out ++ escape_byte c) cs (omega (arith, size, length-escape_byte c))
      ∙ append_assoc out (escape_byte c) (html_text cs))

-- How a page reads a text, on its own terms: "&lt;", "&gt;", "&amp;" and "&quot;" stand for a byte and
-- every other byte for itself. `skip` bytes belong to what has been read already.
unfoldable pub read_html : (skip : ℕ) → List ℕ → List ℕ
read_html skip [] = []
read_html (suc skip) (c ∷ cs) = read_html skip cs
read_html zero (c ∷ cs) =
    let three = read_html 3 cs in
    let four = read_html 4 cs in
    let five = read_html 5 cs in
    let rest = read_html 0 cs in
    if (c == b'&') && bytes_eq (take 3 cs) (codes "lt;")
    then b'<' ∷ three
    else if (c == b'&') && bytes_eq (take 3 cs) (codes "gt;")
    then b'>' ∷ three
    else if (c == b'&') && bytes_eq (take 4 cs) (codes "amp;")
    then b'&' ∷ four
    else if (c == b'&') && bytes_eq (take 5 cs) (codes "quot;")
    then b'"' ∷ five
    else c ∷ rest

abbrev Reads : (c : ℕ) (rest bytes : List ℕ) → Type 0
Reads c rest bytes = read_html 0 (bytes ++ rest) ≡ c ∷ read_html 0 rest

Reads-escape_byte : (c : ℕ) (rest : List ℕ) → Reads c rest (escape_byte c)
unfolding read_html bytes_eq
Reads-escape_byte c rest =
    if-holds (Reads c rest) (c == b'<')
      (λ e. ap (λ x. x ∷ read_html 0 rest) {x = b'<'} {y = c} (ground arith))
      λ _.
        if-holds (Reads c rest) (c == b'>')
          (λ e. ap (λ x. x ∷ read_html 0 rest) {x = b'>'} {y = c} (ground arith))
          λ _.
            if-holds (Reads c rest) (c == b'&')
              (λ e. ap (λ x. x ∷ read_html 0 rest) {x = b'&'} {y = c} (ground arith))
              λ amp.
                if-holds (Reads c rest) (c == b'"')
                  (λ e. ap (λ x. x ∷ read_html 0 rest) {x = b'"'} {y = c} (ground arith))
                  λ _. rw amp refl

read_html-html_text : (text : List ℕ) → read_html 0 (html_text text) ≡ text
unfolding html_text
read_html-html_text [] = unfold read_html in refl
read_html-html_text (c ∷ cs) =
    Reads-escape_byte c (html_text cs) ∙ ap (λ t. c ∷ t) (read_html-html_text cs)

-- Whatever the text and the size of the array: what is written fits with its NUL, a page reads it as
-- the first bytes of the text, and it holds no '<', '>' or '"'. With six bytes for each byte of the
-- text the page reads the whole text.
pub html_escape_lem :
    (text : List ℕ) (outsz : ℕ)
    → 0 < outsz
    → ((n : ℕ) × (read_html 0 (html_escape text outsz) ≡ take n text))
      × (length (html_escape text outsz) < outsz)
      × All IsInert (html_escape text outsz)
      × (6 * length text < outsz → read_html 0 (html_escape text outsz) ≡ text)
unfolding html_escape
html_escape_lem text outsz h =
    let some_room : (outsz == 0) ≡ false = ground arith in
    let r = escape_loop-IsEscaped outsz [] text h in
    rw some_room (
      (r.n, ap (read_html 0) r.whole ∙ read_html-html_text (take r.n text)),
      r.fits,
      subst (All IsInert) (sym r.whole) (Inert-html_text (take r.n text)),
      λ k.
          ap (read_html 0) (escape_loop-whole outsz [] text (omega arith))
          ∙ read_html-html_text text,
    )
