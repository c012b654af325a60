-- ===== src/Wire/Read/Safe.antt =====
-- The byte helpers: the 16-bit codec, and when a read stays inside its buffer.
use mqtt_broker_esp.Prelude.{
  ℕ, subst, sym, ◌+◌, ◌*◌, ◌%◌, ◌/◌, ◌≤◌, ◌<◌, ◌≡◌, refl, ◌∙◌, ap, List, [], ◌∷◌, ◌++◌, Bool, true,
  false, length, take, drop, ltb, if◌then◌else◌, arith, join_bytes, low_byte, length-drop,
  length-take, take-append, length-append, bit_and, bit_or, ◌≢◌,
}
use mqtt_broker_esp.Wire.Read.{
  Parsed, ParseError, ok, err, fault, ◌>>=◌, require, or_return, read_u8, read_u16, write_u16,
  copy_bytes, read_utf8_string, copy_len,
}

-- A parser that never reads outside its buffer, and returns only values with `P`.
pub data Safe {A : Type 0} (P : A → Type 0) : Parsed A → Type 0 where
  returns : {a : A} → P a → Safe P (ok a)
  refuses : {e : ParseError} → Safe P (err e)

pub Safe-ne-fault : {A : Type 0} {P : A → Type 0} {m : Parsed A} → Safe P m → m ≢ fault
Safe-ne-fault (returns p) h = cc
Safe-ne-fault refuses h = cc

-- The value of a safe parser that returned.
pub Safe-ok : {A : Type 0} {P : A → Type 0} {m : Parsed A} (a : A) → Safe P m → m ≡ ok a → P a
Safe-ok {P} a (returns {a = b} p) h = subst P (cc) p
Safe-ok a refuses h = cc

pub Safe-bind :
    {A B : Type 0} {P : A → Type 0} {Q : B → Type 0} {m : Parsed A} {f : A → Parsed B}
    → Safe P m
    → ((a : A) → P a → Safe Q (f a))
    → Safe Q (m >>= f)
Safe-bind (returns {a} p) k = k a p
Safe-bind refuses k = refuses

pub Safe-weaken :
    {A : Type 0} {P Q : A → Type 0} {m : Parsed A} → Safe P m → ((a : A) → P a → Q a) → Safe Q m
Safe-weaken (returns {a} p) k = returns (k a p)
Safe-weaken refuses k = refuses

pub Safe-or_return :
    {A : Type 0} {P : A → Type 0} {m : Parsed A} (e : ParseError)
    → Safe P m
    → Safe P (or_return e m)
Safe-or_return e (returns p) = returns p
Safe-or_return e refuses = refuses

module _ {A : Type 0} {P : A → Type 0} where
  pub Safe-if :
      (b : Bool) {x y : Parsed A}
      → (b ≡ true → Safe P x)
      → (b ≡ false → Safe P y)
      → Safe P (if b then x else y)
  Safe-if true p q = p refl
  Safe-if false p q = q refl

pub Safe-require : (b : Bool) (e : ParseError) → Safe (λ _. b ≡ true) (require b e)
Safe-require true e = returns refl
Safe-require false e = refuses

pub read_u16-write_u16 : (v : ℕ) (rest : List ℕ) → v < 65536 → read_u16 (write_u16 v ++ rest) ≡ ok v
unfolding read_u16 write_u16
read_u16-write_u16 v rest h = ap ok (ap (λ t. t % 65536) joined ∙ omega arith)
  where
    low : bit_and v 0xFF ≡ v % 256
    low = low_byte v h

    joined : bit_or (v / 256 % 256 * 256) (bit_and v 0xFF) ≡ v
    joined = omega (arith, low, join_bytes (v / 256 % 256) (bit_and v 0xFF) (omega (arith, low)))

pub length-write_u16 : (v : ℕ) → length (write_u16 v) ≡ 2
unfolding write_u16
length-write_u16 v = refl

-- A read of one byte or of two stays inside a buffer that holds them.
pub Safe-read_u8 : (buf : List ℕ) → 1 ≤ length buf → Safe (λ _. Unit {0}) (read_u8 buf)
unfolding read_u8
Safe-read_u8 [] h = absurd (omega arith)
Safe-read_u8 (b ∷ rest) h = returns tt

pub Safe-read_u16 : (buf : List ℕ) → 2 ≤ length buf → Safe (λ v. v < 65536) (read_u16 buf)
unfolding read_u16
Safe-read_u16 [] h = absurd (omega arith)
Safe-read_u16 (a ∷ []) h = absurd (omega arith)
Safe-read_u16 (a ∷ b ∷ rest) h = returns (omega arith)

pub Safe-copy_bytes :
    (n : ℕ) (src : List ℕ) → n ≤ length src → Safe (λ out. out ≡ take n src) (copy_bytes n src)
unfolding copy_bytes
Safe-copy_bytes n src h =
    Safe-if (ltb (length src) n) (λ e. absurd (ground arith)) (λ e. returns refl)

-- A length-prefixed string that is found lies in its buffer.
pub Safe-read_utf8_string :
    (buf : List ℕ) (buf_len : ℕ)
    → buf_len ≤ length buf
    → Safe
        (λ s. (s.0 ≡ drop 2 buf) × (2 + s.1 ≤ buf_len) × (s.1 ≤ length s.0) × (s.1 < 65536))
        (read_utf8_string buf buf_len)
unfolding read_utf8_string
Safe-read_utf8_string buf buf_len h =
    Safe-if (ltb buf_len 2) (λ _. refuses)
      (λ e. Safe-bind (Safe-read_u16 buf (ground arith)) (λ len small.
        Safe-if (ltb buf_len (2 + len)) (λ _. refuses)
          (λ f. returns (refl, ground arith, ground (arith, length-drop 2 buf), small))))

pub copy_len_bounds : (cap len : ℕ) → 0 < cap → (copy_len cap len ≤ len) × (copy_len cap len < cap)
copy_len_bounds cap len h = ground arith

-- What `memcpy` takes of a string that is found fits an array of `cap` bytes.
pub Safe-copy_string :
    (cap len : ℕ) (src : List ℕ)
    → 0 < cap
    → len ≤ length src
    → Safe
        (λ out. (length out < cap) × (length out ≡ copy_len cap len))
        (copy_bytes (copy_len cap len) src)
Safe-copy_string cap len src hc h =
    let fits = copy_len_bounds cap len hc in
    Safe-weaken (Safe-copy_bytes (copy_len cap len) src (omega arith)) λ out e.
      let size = ap length e ∙ length-take (copy_len cap len) src in (omega arith, omega arith)

pub copy_bytes-append : (xs ys : List ℕ) → copy_bytes (length xs) (xs ++ ys) ≡ ok xs
unfolding copy_bytes
copy_bytes-append xs ys = rw (take-append xs ys) (ground (arith, length-append xs ys))

-- One step of a parser whose first part is known to return.
pub bind-ok :
    {A B : Type 0} {m : Parsed A} (f : A → Parsed B) {a : A} {r : Parsed B}
    → m ≡ ok a
    → f a ≡ r
    → (m >>= f) ≡ r
bind-ok f {r} e h = subst (λ n. (n >>= f) ≡ r) (sym e) h

pub require-ok : (b : Bool) (e : ParseError) → b ≡ true → require b e ≡ ok tt
require-ok true e h = refl
require-ok false e h = cc
