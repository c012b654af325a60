-- ===== src/Ntp/Reply.antt =====
-- The replies of the SNTP server: their size, and what a client reads in a time stamp.
use mqtt_broker_esp.Prelude.{
  ℕ, ◌+◌, ◌-◌, ◌*◌, ◌/◌, ◌%◌, ◌^◌, ◌≤◌, ◌<◌, ◌≡◌, refl, ap, List, [], ◌++◌, length, take, drop,
  get_or, Bool, true, false, some, pos, arith, length-take, length-drop, length-append, Bool-cases,
  inl, inr,
}
use mqtt_broker_esp.Ntp.{Ntp, ntp_corrected_now_us}
use mqtt_broker_esp.Ntp.Rate.{ntp_rate_allow}
use mqtt_broker_esp.Ntp.Server.{
  Server, Readings, epoch_offset, ntp_epoch_us_to_ntp, be32, stamp, build_reply, is_client_mode,
  is_packet_size, ntp_write_ref_id, first_bytes, ntp_serve, reference_time,
}

unfoldable read_be32 : List ℕ → ℕ
read_be32 b = 2 ^ 24 * get_or b 0 0 + 2 ^ 16 * get_or b 1 0 + 2 ^ 8 * get_or b 2 0 + get_or b 3 0

-- What a client makes of a time stamp: microseconds of the Unix epoch, the fraction rounded up.
unfoldable pub read_stamp : List ℕ → ℕ
unfolding read_be32
read_stamp b =
    (read_be32 b - epoch_offset) * 1000000
    + (read_be32 (drop 4 b) * 1000000 + (2 ^ 32 - 1)) / 2 ^ 32

read_be32_lem : (n : ℕ) (b : List ℕ) → n < 2 ^ 32 → read_be32 (be32 n ++ b) ≡ n
unfolding read_be32
read_be32_lem n b h = omega arith

fraction : (us : ℕ) → us < 1000000 → (us * 2 ^ 32 / 1000000 * 1000000 + (2 ^ 32 - 1)) / 2 ^ 32 ≡ us
fraction us h = omega arith

-- The bytes of a pair of words.
stamp-words :
    (a b : ℕ)
    → a < 2 ^ 32
    → b < 2 ^ 32
    → (read_be32 (be32 a ++ be32 b) ≡ a) × (read_be32 (drop 4 (be32 a ++ be32 b)) ≡ b)
stamp-words a b h k = (read_be32_lem a (be32 b) h, read_be32_lem b [] k)

epoch_words :
    (us : ℕ)
    → 0 < us
    → ntp_epoch_us_to_ntp (pos us)
      ≡ ((us / 1000000 + epoch_offset) % 2 ^ 32, us % 1000000 * 2 ^ 32 / 1000000)
unfolding ntp_epoch_us_to_ntp
epoch_words us h = ground arith

-- A client that rounds the fraction up reads in a time stamp the microsecond it was made of, for
-- every time after the start of 1970 whose seconds since 1900 fit in 32 bits.
pub read_stamp-stamp :
    (us : ℕ) → 0 < us → us / 1000000 + epoch_offset < 2 ^ 32 → read_stamp (stamp (pos us)) ≡ us
unfolding read_stamp
read_stamp-stamp us h k =
    let secs = (us / 1000000 + epoch_offset) % 2 ^ 32 in
    let frac = us % 1000000 * 2 ^ 32 / 1000000 in
    let w = stamp-words secs frac (omega arith) (omega arith) in
    let f = fraction (us % 1000000) (omega arith) in
    rw (epoch_words us h, w.0, w.1, f) (omega arith)

ref_id-length : (synced : Bool) → length (ntp_write_ref_id synced) ≡ 4
ref_id-length true = refl
ref_id-length false = refl

layout-length :
    (start ref reference echo rx tx : List ℕ)
    → length start ≡ 12
    → length ref ≡ 4
    → length reference ≡ 8
    → length echo ≡ 8
    → length rx ≡ 8
    → length tx ≡ 8
    → length (start ++ ref ++ reference ++ echo ++ rx ++ tx) ≡ 48
layout-length start ref reference echo rx tx a b c d e f = omega (
  arith,
  length-append start ref,
  length-append (start ++ ref) reference,
  length-append (start ++ ref ++ reference) echo,
  length-append (start ++ ref ++ reference ++ echo) rx,
  length-append (start ++ ref ++ reference ++ echo ++ rx) tx,
)

build_reply-length :
    (s : Ntp) (rx : List ℕ) (at : Readings) → 48 ≤ length rx → length (build_reply s rx at) ≡ 48
unfolding build_reply
build_reply-length s rx at h =
    layout-length (first_bytes s.synced) (ntp_write_ref_id s.synced)
      (stamp (reference_time s _ at.rx_timer_us)) (take 8 (drop 40 rx))
      (stamp (ntp_corrected_now_us s at.rx_timer_us at.rx_clock_us))
      (stamp (ntp_corrected_now_us s at.tx_timer_us at.tx_clock_us)) refl (ref_id-length s.synced)
      refl (omega (arith, length-take 8 (drop 40 rx), length-drop 40 rx)) refl refl

-- If a datagram is answered, the reply has 48 bytes and no more than the datagram, and the
-- datagram's mode is 3 or 1.
pub ntp_serve-length :
    (s : Server) (rx : List ℕ) (addr : ℕ) (at : Readings) (sent : Bool) (tx : List ℕ)
    → (ntp_serve s rx addr at sent).1 ≡ some tx
    → (length tx ≡ 48) × (length tx ≤ length rx) × (is_client_mode (get_or rx 0 0) ≡ true)
unfolding ntp_serve
ntp_serve-length s rx addr at sent tx e =
    let allow = ntp_rate_allow s.sources addr (at.rx_timer_us / 1000) in
    elim (Bool-cases (is_packet_size (length rx))) [
      | inr size ↦ absurd (ground (arith, e, size))
      | inl size ↦ elim (Bool-cases (is_client_mode (get_or rx 0 0))) [
        | inr mode ↦ absurd (ground (arith, e, size, mode))
        | inl mode ↦ elim (Bool-cases allow.0) [
          | inr rate ↦ absurd (ground (arith, e, size, mode, rate))
          | inl rate ↦
              let r = build_reply-length s.clock rx at (ground (arith, size)) in
              let same : build_reply s.clock rx at ≡ tx = ground (arith, e, size, mode, rate) in
              let len = ap length same in (omega arith, ground (arith, size), mode)
        ]
      ]
    ]
