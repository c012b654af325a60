-- ===== src/Ntp/Server.antt =====
-- main/ntp.c: what the SNTP server does with one datagram. The readings of the timer and of the clock
-- and whether the reply was sent are arguments.
use mqtt_broker_esp.Prelude.{
  ℕ, ◌+◌, ◌-◌, ◌*◌, ◌/◌, ◌%◌, ◌^◌, List, [], ◌∷◌, ◌++◌, length, take, drop, replicate, get_or, Bool,
  ◌||◌, not, ltb, ◌==◌, if◌then◌else◌, Option, none, some, ℤ, pos, negsuc, ◌-ℤ◌,
}
use mqtt_broker_esp.Ntp.{Ntp, ntp_corrected_now_us}
use mqtt_broker_esp.Ntp.Rate.{RateEntry, ntp_rate_allow}

abbrev pub packet_len : ℕ
packet_len = 48

abbrev pub packet_max_len : ℕ
packet_max_len = 68

abbrev pub epoch_offset : ℕ
epoch_offset = 2208988800

-- Seconds since 1900 and the fraction of a second.
unfoldable pub ntp_epoch_us_to_ntp : ℤ → ℕ × ℕ
ntp_epoch_us_to_ntp (negsuc n) = (0, 0)
ntp_epoch_us_to_ntp (pos us) =
    if us == 0
    then (0, 0)
    else ((us / 1000000 + epoch_offset) % 2 ^ 32, us % 1000000 * 2 ^ 32 / 1000000)

-- `htonl`, as four bytes.
abbrev pub be32 : ℕ → List ℕ
be32 n = n / 2 ^ 24 % 256 ∷ n / 2 ^ 16 % 256 ∷ n / 2 ^ 8 % 256 ∷ n % 256 ∷ []

abbrev pub stamp : ℤ → List ℕ
stamp epoch_us = let t = ntp_epoch_us_to_ntp epoch_us in be32 t.0 ++ be32 t.1

-- "ESP3" or "INIT"
abbrev pub ntp_write_ref_id : Bool → List ℕ
ntp_write_ref_id synced = if synced then 69 ∷ 83 ∷ 80 ∷ 51 ∷ [] else 73 ∷ 78 ∷ 73 ∷ 84 ∷ []

abbrev pub ntp_advertised_stratum : Bool → ℕ
ntp_advertised_stratum synced = if synced then 3 else 16

-- The readings at the arrival of the datagram and at the reply.
pub record Readings : Type 0 where
  pub rx_timer_us : ℕ
  pub rx_clock_us : ℕ
  pub tx_timer_us : ℕ
  pub tx_clock_us : ℕ

abbrev pub reference_time : Ntp → (rx_epoch_us : ℤ) → (timer_us : ℕ) → ℤ
reference_time s rx_epoch_us timer_us =
    if s.synced then rx_epoch_us -ℤ pos (timer_us - s.last_sync_us) else pos 0

-- The first twelve bytes; the delay and the dispersion are zero.
abbrev pub first_bytes : Bool → List ℕ
first_bytes synced =
    let leap = if synced then 0 else 3 in
    ((leap * 2 ^ 6 + 4 * 2 ^ 3 + 4) ∷ ntp_advertised_stratum synced ∷ 6 ∷ 236 ∷ []) ++ replicate 8 0

unfoldable pub build_reply : Ntp → (rx : List ℕ) → Readings → List ℕ
build_reply s rx at =
    let rx_epoch_us = ntp_corrected_now_us s at.rx_timer_us at.rx_clock_us in
    let tx_epoch_us = ntp_corrected_now_us s at.tx_timer_us at.tx_clock_us in
    first_bytes s.synced
    ++ ntp_write_ref_id s.synced
    ++ stamp (reference_time s rx_epoch_us at.rx_timer_us)
    ++ take 8 (drop 40 rx)
    ++ stamp rx_epoch_us
    ++ stamp tx_epoch_us

pub record Server : Type 0 where
  pub clock : Ntp
  pub sources : List RateEntry
  pub served : ℕ
  pub dropped_rate : ℕ
  pub dropped_size : ℕ
  pub dropped_mode : ℕ

abbrev pub is_client_mode : (li_vn_mode : ℕ) → Bool
is_client_mode li_vn_mode = (li_vn_mode % 8 == 3) || (li_vn_mode % 8 == 1)

abbrev pub is_packet_size : ℕ → Bool
is_packet_size n = not (ltb n packet_len || ltb packet_max_len n)

-- One turn of the loop of `ntp_server_task`: the state after it, and the reply.
unfoldable pub ntp_serve :
    Server → (rx : List ℕ) (addr : ℕ) → Readings → (sent : Bool) → Server × Option (List ℕ)
ntp_serve s rx addr at sent =
    let allow = ntp_rate_allow s.sources addr (at.rx_timer_us / 1000) in
    if not (is_packet_size (length rx))
    then (record s { dropped_size = (s.dropped_size + 1) % 2 ^ 32 }, none)
    else if not (is_client_mode (get_or rx 0 0))
    then (record s { dropped_mode = (s.dropped_mode + 1) % 2 ^ 32 }, none)
    else if not allow.0
    then (record s { sources = allow.1; dropped_rate = (s.dropped_rate + 1) % 2 ^ 32 }, none)
    else (
      record s { sources = allow.1; served = if sent then (s.served + 1) % 2 ^ 32 else s.served },
      some (build_reply s.clock rx at),
    )
