-- ===== src/Ws/Socket/Stream.antt =====
-- `recv_n` and `send_all` of main/portal_ws.c do not depend on how the bytes are cut into pieces.
use mqtt_broker_esp.Prelude.{
  ℕ, zero, suc, ◌+◌, ◌-◌, ◌≤◌, ◌<◌, ◌≡◌, sym, refl, ap, ◌∙◌, List, [], ◌∷◌, ◌++◌, length, take,
  drop, true, false, ltb, ◌==◌, if◌then◌else◌, Option, none, some, arith, Bool-cases, inl, inr,
  length-append, drop-append_le, append_assoc,
}
use mqtt_broker_esp.Ws.Socket.{
  Turn, late, select_interrupted, select_fails, times_out, recv_interrupted, recv_fails, closed,
  arrives, Sending, send_interrupted, send_fails, takes, with_bytes, recv_n, send_all,
}

-- The bytes that come before the connection or the wait ends.
unfoldable pub stream : List Turn → List ℕ
stream [] = []
stream (late ∷ turns) = []
stream (select_interrupted ∷ turns) = stream turns
stream (select_fails ∷ turns) = []
stream (times_out ∷ turns) = []
stream (recv_interrupted ∷ turns) = stream turns
stream (recv_fails ∷ turns) = []
stream (closed ∷ turns) = []
stream (arrives [] ∷ turns) = []
stream (arrives (b ∷ bytes) ∷ turns) = (b ∷ bytes) ++ stream turns

-- The bytes of a result, and the stream that is left.
abbrev pub view : Option (List ℕ × List Turn) → Option (List ℕ × List ℕ)
view none = none
view (some (bytes, turns)) = some (bytes, stream turns)

-- The first bytes of a stream and the others, if there are so many.
unfoldable pub split_at : (n : ℕ) → List ℕ → Option (List ℕ × List ℕ)
split_at n bytes = if ltb (length bytes) n then none else some (take n bytes, drop n bytes)

abbrev prepend : List ℕ → Option (List ℕ × List ℕ) → Option (List ℕ × List ℕ)
prepend bytes none = none
prepend bytes (some (more, rest)) = some (bytes ++ more, rest)

view-with_bytes :
    (bytes : List ℕ) (r : Option (List ℕ × List Turn))
    → view (with_bytes bytes r) ≡ prepend bytes (view r)
view-with_bytes bytes none = refl
view-with_bytes bytes (some (more, turns)) = refl

take-append_le : (n : ℕ) (xs ys : List ℕ) → n ≤ length xs → take n (xs ++ ys) ≡ take n xs
take-append_le zero xs ys h = refl
take-append_le (suc n) [] ys h = absurd (omega arith)
take-append_le (suc n) (x ∷ xs) ys h = ap (λ t. x ∷ t) (take-append_le n xs ys (omega arith))

take-append_ge :
    (n m : ℕ) (xs ys : List ℕ) → length xs + m ≡ n → take n (xs ++ ys) ≡ xs ++ take m ys
take-append_ge n m [] ys h = ap (λ k. take k ys) (omega arith)
take-append_ge zero m (x ∷ xs) ys h = absurd (omega arith)
take-append_ge (suc n) m (x ∷ xs) ys h = ap (λ t. x ∷ t) (take-append_ge n m xs ys (omega arith))

drop-append_ge : (n m : ℕ) (xs ys : List ℕ) → length xs + m ≡ n → drop n (xs ++ ys) ≡ drop m ys
drop-append_ge n m [] ys h = ap (λ k. drop k ys) (omega arith)
drop-append_ge zero m (x ∷ xs) ys h = absurd (omega arith)
drop-append_ge (suc n) m (x ∷ xs) ys h = drop-append_ge n m xs ys (omega arith)

split_at-zero : (ys : List ℕ) → split_at 0 ys ≡ some ([], ys)
unfolding split_at
split_at-zero ys = ground arith

-- A piece that does not reach the end.
split_at-more :
    (n m : ℕ) (xs ys : List ℕ)
    → length xs + m ≡ n
    → prepend xs (split_at m ys) ≡ split_at n (xs ++ ys)
unfolding split_at
split_at-more n m xs ys h = elim (Bool-cases (ltb (length ys) m)) [
  | inl few ↦
      let all : ltb (length (xs ++ ys)) n ≡ true = ground (arith, length-append xs ys) in
      rw (few, all) refl
  | inr enough ↦
      let all : ltb (length (xs ++ ys)) n ≡ false = ground (arith, length-append xs ys) in
      rw (enough, all, take-append_ge n m xs ys h, drop-append_ge n m xs ys h) refl
]

-- A piece that is longer than what is missing.
split_at-within :
    (n : ℕ) (xs ys : List ℕ)
    → n ≤ length xs
    → split_at n (xs ++ ys) ≡ some (take n xs, drop n xs ++ ys)
unfolding split_at
split_at-within n xs ys h =
    let enough : ltb (length (xs ++ ys)) n ≡ false = ground (arith, length-append xs ys) in
    rw (enough, take-append_le n xs ys h, drop-append_le n xs ys h) refl

split_at-none : (n : ℕ) → split_at (suc n) [] ≡ none
unfolding split_at
split_at-none n = ground arith

-- What is left of a piece that is longer than what is missing.
stream-left :
    (n : ℕ) (bytes : List ℕ) (turns : List Turn)
    → n < length bytes
    → stream (arrives (drop n bytes) ∷ turns) ≡ drop n bytes ++ stream turns
unfolding stream
stream-left n [] turns h = absurd (omega arith)
stream-left zero (b ∷ bytes) turns h = refl
stream-left (suc n) (b ∷ bytes) turns h = stream-left n bytes turns (omega arith)

-- `recv_n` gets the next `n` bytes of the stream and leaves those behind, or fails if the stream has
-- less, however the bytes arrive and whatever is interrupted.
pub recv_n-split_at :
    (n : ℕ) (turns : List Turn) → view (recv_n n turns) ≡ split_at n (stream turns)
unfolding recv_n stream
recv_n-split_at zero turns = sym (split_at-zero (stream turns))
recv_n-split_at (suc n) [] = sym (split_at-none n)
recv_n-split_at (suc n) (late ∷ turns) = sym (split_at-none n)
recv_n-split_at (suc n) (select_interrupted ∷ turns) = recv_n-split_at (suc n) turns
recv_n-split_at (suc n) (select_fails ∷ turns) = sym (split_at-none n)
recv_n-split_at (suc n) (times_out ∷ turns) = sym (split_at-none n)
recv_n-split_at (suc n) (recv_interrupted ∷ turns) = recv_n-split_at (suc n) turns
recv_n-split_at (suc n) (recv_fails ∷ turns) = sym (split_at-none n)
recv_n-split_at (suc n) (closed ∷ turns) = sym (split_at-none n)
recv_n-split_at (suc n) (arrives [] ∷ turns) = sym (split_at-none n)
recv_n-split_at (suc n) (arrives (b ∷ bytes) ∷ turns) = elim (Bool-cases (ltb n (length bytes))) [
  | inl more ↦ rw more (
      ap (λ t. some (take (suc n) (b ∷ bytes), t)) (stream-left n bytes turns (ground arith))
      ∙ sym (split_at-within (suc n) (b ∷ bytes) (stream turns) (ground arith)))
  | inr all ↦ rw all (
      view-with_bytes (b ∷ bytes) (recv_n (n - length bytes) turns)
      ∙ ap (prepend (b ∷ bytes)) (recv_n-split_at (n - length bytes) turns)
      ∙ split_at-more (suc n) (n - length bytes) (b ∷ bytes) (stream turns) (ground arith))
]

take-drop : (n : ℕ) (xs : List ℕ) → take n xs ++ drop n xs ≡ xs
take-drop zero xs = refl
take-drop (suc n) [] = refl
take-drop (suc n) (x ∷ xs) = ap (λ t. x ∷ t) (take-drop n xs)

-- What `send_all` has sent is the start of the buffer: all of it when it returns true, and not all
-- of it when it returns false, whatever the calls of `send` do.
pub send_all_lem :
    (buf : List ℕ) (answers : List Sending)
    → (rest : List ℕ) × (buf ≡ (send_all buf answers).bytes ++ rest)
      × ((send_all buf answers).done ≡ (length rest == 0))
unfolding send_all
send_all_lem [] answers = ([], refl, refl)
send_all_lem (b ∷ buf) [] = (b ∷ buf, refl, ground arith)
send_all_lem (b ∷ buf) (send_interrupted ∷ answers) = send_all_lem (b ∷ buf) answers
send_all_lem (b ∷ buf) (send_fails ∷ answers) = (b ∷ buf, refl, ground arith)
send_all_lem (b ∷ buf) (takes zero ∷ answers) = (b ∷ buf, refl, ground arith)
send_all_lem (b ∷ buf) (takes (suc n) ∷ answers) =
    let (rest, whole, done) = send_all_lem (drop n buf) answers in
    (
      rest,
      ap (λ t. b ∷ t)
          (sym (take-drop n buf)
            ∙ ap (λ t. take n buf ++ t) whole
            ∙ sym (append_assoc (take n buf) (send_all (drop n buf) answers).bytes rest)),
      done,
    )
