-- ===== src/Berry/Log.antt =====
-- main/berry_runtime.c: the ring of the last bytes of the log. That the mutex is there, and is got
-- within its time, is an argument.
pub mod Ends
pub mod Pushed
pub mod Ring
use mqtt_broker_esp.Prelude.{
  ℕ, zero, suc, ◌+◌, ◌-◌, ◌%◌, ◌^◌, List, [], ◌∷◌, ◌++◌, length, take, drop, set, Bool, true, false,
  not, ◌||◌, ltb, ◌==◌, if◌then◌else◌, min,
}

abbrev pub ring_size : ℕ
ring_size = 4096

-- `s_log_ring`, `s_log_head`, which is masked to the size, and `s_log_total`, of 32 bits.
pub record Log : Type 0 where
  pub ring : List ℕ
  pub head : ℕ
  pub total : ℕ

abbrev pub push_byte : Log → ℕ → Log
push_byte l b = record {
  ring = set l.ring l.head b;
  head = (l.head + 1) % ring_size;
  total = (l.total + 1) % 2 ^ 32;
}

unfoldable pub push_bytes : Log → List ℕ → Log
push_bytes l [] = l
push_bytes l (b ∷ buf) = push_bytes (push_byte l b) buf

unfoldable pub log_push : Log → (buf : List ℕ) (mux taken : Bool) → Log
unfolding push_bytes
log_push l buf mux taken =
    if not mux || (length buf == 0) then l else if taken then push_bytes l buf else l

-- The bytes that are copied; `bufsz - 1` of them fit.
unfoldable pub copied_log : Log → (bufsz : ℕ) → List ℕ
copied_log l bufsz =
    if ltb l.total ring_size
    then take (if ltb l.head (bufsz - 1) then l.head else bufsz - 1) l.ring
    else (let n = if ltb ring_size (bufsz - 1) then ring_size else bufsz - 1 in
        let tail_len = if ltb n (ring_size - l.head) then n else ring_size - l.head in
        take tail_len (drop l.head l.ring) ++ take (n - tail_len) l.ring)

unfoldable pub berry_log_snapshot : Log → (bufsz : ℕ) (mux taken : Bool) → List ℕ
unfolding copied_log
berry_log_snapshot l bufsz mux taken =
    if (bufsz == 0) || not mux then [] else if taken then copied_log l bufsz else []
