-- ===== src/Ws/Socket.antt =====
-- main/portal_ws.c: `recv_n` and `send_all` on a socket. What `select`, `recv`, `send` and the clock
-- answer in each round of their loops is a list, the next answer first.
pub mod Stream
use mqtt_broker_esp.Prelude.{
  ℕ, zero, suc, ◌-◌, List, [], ◌∷◌, ◌++◌, length, take, drop, Bool, true, false, ltb, leb, ◌==◌,
  if◌then◌else◌, Option, none, some,
}

-- A round of `recv_n`: the deadline has passed, `select` or `recv` is interrupted, fails or times out,
-- the peer has closed, or bytes have come. What `recv` does not take stays for the next round.
pub data Turn : Type 0 where
  late select_interrupted select_fails times_out recv_interrupted recv_fails closed : Turn
  arrives : List ℕ → Turn

-- What one call of `send` does: it takes at most the given number of bytes.
pub data Sending : Type 0 where
  send_interrupted send_fails : Sending
  takes : ℕ → Sending

-- Goes on with the bytes of one `recv`.
abbrev pub with_bytes : List ℕ → Option (List ℕ × List Turn) → Option (List ℕ × List Turn)
with_bytes got none = none
with_bytes got (some (more, turns)) = some (got ++ more, turns)

-- The loop: `n` bytes are missing yet. A `recv` of no bytes means that the peer has closed.
unfoldable pub recv_n : (n : ℕ) → List Turn → Option (List ℕ × List Turn)
recv_n zero turns = some ([], turns)
recv_n (suc n) [] = none
recv_n (suc n) (late ∷ turns) = none
recv_n (suc n) (select_interrupted ∷ turns) = recv_n (suc n) turns
recv_n (suc n) (select_fails ∷ turns) = none
recv_n (suc n) (times_out ∷ turns) = none
recv_n (suc n) (recv_interrupted ∷ turns) = recv_n (suc n) turns
recv_n (suc n) (recv_fails ∷ turns) = none
recv_n (suc n) (closed ∷ turns) = none
recv_n (suc n) (arrives [] ∷ turns) = none
recv_n (suc n) (arrives (b ∷ bytes) ∷ turns) =
    let all = with_bytes (b ∷ bytes) (recv_n (n - length bytes) turns) in
    if ltb n (length bytes)
    then some (take (suc n) (b ∷ bytes), arrives (drop n bytes) ∷ turns)
    else all

-- What `send_all` returns, with what it has sent and the answers that are left.
pub record Sent : Type 0 where
  pub done : Bool
  pub bytes : List ℕ
  pub answers : List Sending

abbrev pub after_bytes : List ℕ → Sent → Sent
after_bytes bytes s = record s { bytes = bytes ++ s.bytes }

unfoldable pub send_all : List ℕ → List Sending → Sent
send_all [] answers = record { done = true; bytes = []; answers = answers }
send_all (b ∷ buf) [] = record { done = false; bytes = []; answers = [] }
send_all (b ∷ buf) (send_interrupted ∷ answers) = send_all (b ∷ buf) answers
send_all (b ∷ buf) (send_fails ∷ answers) = record { done = false; bytes = []; answers = answers }
send_all (b ∷ buf) (takes zero ∷ answers) = record { done = false; bytes = []; answers = answers }
send_all (b ∷ buf) (takes (suc n) ∷ answers) =
    after_bytes (take (suc n) (b ∷ buf)) (send_all (drop n buf) answers)
