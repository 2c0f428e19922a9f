-- ===== src/Workers/Delay.antt =====
-- backgroundJobRetryDelay of internal/api/background_jobs.go, and its bounds.
use complicatedauth_backend.Prelude.{
  ℕ, zero, suc, ◌+◌, ◌-◌, ◌*◌, ◌/◌, ◌^◌, ◌≤◌, ◌<◌, ◌≡◌, refl, Option, none, some, ltb, leb, inl,
  inr, ◌⊎◌, Bool-cases, arith, if◌then◌else◌,
}
use complicatedauth_backend.Duration.{second, minute}

-- The attempt cut to 1, ..., 9.
unfoldable pub clamp_attempt : ℕ → ℕ
clamp_attempt attempt = if ltb attempt 1 then 1 else if ltb 9 attempt then 9 else attempt

-- The delay without its jitter.
unfoldable pub base_delay : ℕ → ℕ
unfolding clamp_attempt
base_delay attempt =
    let base = second * 2 ^ (clamp_attempt attempt - 1) in
    if ltb (5 * minute) base then 5 * minute else base

-- backgroundJobRetryDelay. `random` is the byte that rand.Read gives, or `none` if it fails.
unfoldable pub retry_delay : ℕ → Option ℕ → ℕ
unfolding base_delay
retry_delay attempt none = base_delay attempt
retry_delay attempt (some random) = base_delay attempt + base_delay attempt / 4 * random / 255

times_byte : (x r : ℕ) → r ≤ 255 → x * r ≤ 255 * x
times_byte zero r h = omega arith
times_byte (suc x) r h = omega (arith, times_byte x r h)

jitter : (b : ℕ) (r : ℕ) → r ≤ 255 → b / 4 * r / 255 ≤ b / 4
jitter b r h = omega (arith, times_byte (b / 4) r h)

-- The attempts from 1 to 9, one by one.
power_bounds : (c : ℕ) → 1 ≤ c → c ≤ 9 → (1 ≤ 2 ^ (c - 1)) × (2 ^ (c - 1) ≤ 256)
power_bounds zero low high = absurd (omega arith)
power_bounds (suc zero) low high = (omega arith, omega arith)
power_bounds (suc (suc zero)) low high = (omega arith, omega arith)
power_bounds (suc (suc (suc zero))) low high = (omega arith, omega arith)
power_bounds (suc (suc (suc (suc zero)))) low high = (omega arith, omega arith)
power_bounds (suc (suc (suc (suc (suc zero))))) low high = (omega arith, omega arith)
power_bounds (suc (suc (suc (suc (suc (suc zero)))))) low high = (omega arith, omega arith)
power_bounds (suc (suc (suc (suc (suc (suc (suc zero))))))) low high = (omega arith, omega arith)
power_bounds (suc (suc (suc (suc (suc (suc (suc (suc zero)))))))) low high =
    (omega arith, omega arith)
power_bounds (suc (suc (suc (suc (suc (suc (suc (suc (suc zero))))))))) low high =
    (omega arith, omega arith)
power_bounds (suc (suc (suc (suc (suc (suc (suc (suc (suc (suc n)))))))))) low high =
    absurd (omega arith)

clamp_range : (attempt : ℕ) → (1 ≤ clamp_attempt attempt) × (clamp_attempt attempt ≤ 9)
unfolding clamp_attempt
clamp_range attempt = (ground arith, ground arith)

base_delay-bounds :
    (attempt : ℕ) → (second ≤ base_delay attempt) × (base_delay attempt ≤ 256 * second)
unfolding base_delay
base_delay-bounds attempt =
    let range = clamp_range attempt in
    let p = power_bounds (clamp_attempt attempt) range.0 range.1 in
    (ground (arith, p.0, p.1), ground (arith, p.0, p.1))

base_delay-doubles :
    (attempt : ℕ) → 1 ≤ attempt → attempt < 9 → base_delay (attempt + 1) ≡ 2 * base_delay attempt
unfolding base_delay
base_delay-doubles zero low high = absurd (omega arith)
base_delay-doubles (suc zero) low high = refl
base_delay-doubles (suc (suc zero)) low high = refl
base_delay-doubles (suc (suc (suc zero))) low high = refl
base_delay-doubles (suc (suc (suc (suc zero)))) low high = refl
base_delay-doubles (suc (suc (suc (suc (suc zero))))) low high = refl
base_delay-doubles (suc (suc (suc (suc (suc (suc zero)))))) low high = refl
base_delay-doubles (suc (suc (suc (suc (suc (suc (suc zero))))))) low high = refl
base_delay-doubles (suc (suc (suc (suc (suc (suc (suc (suc zero)))))))) low high = refl
base_delay-doubles (suc (suc (suc (suc (suc (suc (suc (suc (suc n))))))))) low high =
    absurd (omega arith)

-- The delay before a retry, whatever the random byte: between one second and 320, never below the
-- delay without jitter, and from the first to the eighth attempt below every delay of the next one.
pub retry_delay_bounds :
    (attempt r : ℕ)
    → r ≤ 255
    → (second ≤ retry_delay attempt (some r))
      × (retry_delay attempt (some r) ≤ 320 * second)
      × (second ≤ retry_delay attempt none)
      × (retry_delay attempt none ≤ retry_delay attempt (some r))
      × ((attempt ≡ 0)
          ⊎ ((retry_delay attempt (some r) < retry_delay (attempt + 1) none) ⊎ (9 ≤ attempt)))
unfolding retry_delay
retry_delay_bounds attempt r h =
    let j = jitter (base_delay attempt) r h in
    let b = base_delay-bounds attempt in
    (omega (arith, b.0), omega (arith, b.1, j), b.0, omega arith, grows)
  where
    grows :
        (attempt ≡ 0)
        ⊎ ((retry_delay attempt (some r) < retry_delay (attempt + 1) none) ⊎ (9 ≤ attempt))
    grows = elim (Bool-cases (leb 9 attempt)) [
      | inl late ↦ inr (inr (ground arith))
      | inr early ↦ elim (Bool-cases (leb 1 attempt)) [
        | inr first ↦ inl (ground arith)
        | inl later ↦
            let double = base_delay-doubles attempt (ground arith) (ground arith) in
            let j = jitter (base_delay attempt) r h in
            let b = base_delay-bounds attempt in inr (inl (omega (arith, j, b.0, double)))
      ]
    ]
