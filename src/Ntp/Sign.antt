-- ===== src/Ntp/Sign.antt =====
-- The direction of the correction that is applied between synchronisations.
use native.Mathlib.Nat.{mul-le-mul_right}
use mqtt_broker_esp.Prelude.{
  ℕ, suc, refl, sym, ◌∙◌, -ℤ_parts, ◌-◌, ◌*◌, ◌/◌, ◌≤◌, ◌<◌, ◌≡◌, leb, ◌==◌, arith, Option, none,
  some, ℤ, pos, negsuc, pos_part, neg_part, sub_ℕ, ◌≤ℤ◌, ltb_ℤ, ◌-ℤ◌, scale, quot, Bool-cases, inl,
  inr,
}
use mqtt_broker_esp.Ntp.{
  Sample, Ntp, to_int32, clamp_ppm, min_baseline_us, drift_between, ntp_now_us, ntp_free_running_s,
  corrected_by, ntp_corrected_now_us,
}

div_le : (n m k : ℕ) → 0 < m → n ≤ k * m → n / m ≤ k
div_le n m k p h = elim (Bool-cases (leb (n / m) k)) [
  | inl e ↦ ground arith
  | inr e ↦
      let more : suc k ≤ n / m = ground arith in absurd (omega (arith, mul-le-mul_right m more))
]

clamp-pos_part : (z : ℤ) → pos_part z ≡ 0 → pos_part (clamp_ppm z) ≡ 0
clamp-pos_part (pos n) h = ground arith
clamp-pos_part (negsuc n) h = ground arith

clamp_small :
    (z : ℤ) → pos_part z ≡ 0 → neg_part z ≤ 1000000 → pos_part (clamp_ppm (to_int32 z)) ≡ 0
clamp_small (pos n) h k = clamp-pos_part (to_int32 (pos n)) (ground arith)
clamp_small (negsuc n) h k = clamp-pos_part (to_int32 (negsuc n)) (ground arith)

quot_parts :
    (z : ℤ) (m : ℕ)
    → 0 < m
    → pos_part z ≡ 0
    → neg_part z ≤ 1000000 * m
    → (pos_part (quot z m) ≡ 0) × (neg_part (quot z m) ≤ 1000000)
unfolding quot
quot_parts z m p h k =
    let up = div_le (pos_part z) m 0 p (omega arith) in
    let down = div_le (neg_part z) m 1000000 p k in (ground arith, ground arith)

scale_parts :
    (z : ℤ) (n : ℕ)
    → pos_part z ≡ 0
    → (pos_part (scale z n) ≡ 0) × (neg_part (scale z n) ≡ neg_part z * n)
unfolding scale
scale_parts z n h = (rw h (ground arith), rw h (ground arith))

-- The estimate is not positive when the timer gained on the clock.
ppm_when_fast :
    (m : ℕ) (delta : ℤ)
    → 0 < m
    → pos_part delta ≡ 0
    → neg_part delta ≤ m
    → pos_part (clamp_ppm (to_int32 (quot (scale delta 1000000) m))) ≡ 0
ppm_when_fast m delta p z h =
    let s = scale_parts delta 1000000 z in
    let q = quot_parts (scale delta 1000000) m p s.0 (omega (arith, s.1)) in
    clamp_small (quot (scale delta 1000000) m) q.0 q.1

elapsed_parts :
    (a b m n : ℕ)
    → a ≤ b
    → b - a ≤ n - m
    → m < n
    → (pos_part (sub_ℕ b a -ℤ sub_ℕ n m) ≡ 0) × (neg_part (sub_ℕ b a -ℤ sub_ℕ n m) ≤ n - m)
unfolding ◌-ℤ◌
elapsed_parts a b m n h k l = (ground arith, ground arith)

drift_between_fast :
    (oldest newest : Sample) (ppm : ℤ)
    → oldest.wall_us ≤ newest.wall_us
    → newest.wall_us - oldest.wall_us ≤ newest.mono_us - oldest.mono_us
    → drift_between oldest newest ≡ some ppm
    → pos_part ppm ≡ 0
unfolding drift_between
drift_between_fast oldest newest ppm w h e =
    let d_mono = sub_ℕ newest.mono_us oldest.mono_us in
    let delta = sub_ℕ newest.wall_us oldest.wall_us -ℤ d_mono in
    elim (Bool-cases (ltb_ℤ d_mono (pos min_baseline_us))) [
      | inl short ↦ ground (arith, short)
      | inr long ↦
          let parts =
            elapsed_parts oldest.wall_us newest.wall_us oldest.mono_us newest.mono_us w h
              (ground arith) in
          let long_enough : 0 < pos_part d_mono = ground arith in
          let fast =
            ppm_when_fast (pos_part d_mono) delta long_enough parts.0 (ground (arith, parts.1)) in
          ground (arith, fast, long)
    ]

corrected_up :
    (raw fr : ℕ) (ppm : Option ℤ)
    → ((z : ℤ) → ppm ≡ some z → pos_part z ≡ 0)
    → pos raw ≤ℤ corrected_by raw fr ppm
corrected_up raw fr none h = omega arith
corrected_up raw fr (some z) h =
    let s = scale_parts z fr (h z refl) in
    let c = -ℤ_parts (pos raw) (scale z fr) in omega (arith, s.0)

-- If the estimate comes from two samples between which the timer advanced at least as far as the
-- set clock, and the set clock did not go back, the corrected time is never earlier than the
-- uncorrected one: a clock that runs fast is not set back.
pub ntp_corrected_now_us-fast :
    (s : Ntp) (timer_us clock_us : ℕ) (oldest newest : Sample)
    → oldest.wall_us ≤ newest.wall_us
    → newest.wall_us - oldest.wall_us ≤ newest.mono_us - oldest.mono_us
    → s.drift.ppm ≡ drift_between oldest newest
    → pos (ntp_now_us s clock_us) ≤ℤ ntp_corrected_now_us s timer_us clock_us
unfolding ntp_corrected_now_us
ntp_corrected_now_us-fast s timer_us clock_us oldest newest w h e =
    let raw = ntp_now_us s clock_us in
    let fr = ntp_free_running_s s timer_us in
    let up =
      corrected_up raw fr s.drift.ppm (λ z f. drift_between_fast oldest newest z w h (sym e ∙ f)) in
    elim (Bool-cases (raw == 0)) [
      | inl never ↦ ground arith
      | inr set ↦ elim (Bool-cases (fr == 0)) [
        | inl fresh ↦ ground arith
        | inr late ↦ rw (set, late) up
      ]
    ]
