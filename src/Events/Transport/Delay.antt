-- ===== src/Events/Transport/Delay.antt =====
-- The delay before a message is delivered again (internal/events/nats.go: defaultRetryDelay).
use booth_catalog.Prelude.{
  ℕ, zero, suc, ◌-◌, ◌*◌, ◌≤◌, ltb, ◌≡◌, ap, ◌∙◌, arith, Bool-cases, inl, inr, if◌then◌else◌,
}
use booth_catalog.Events.Transport.{second, minute, doubled, default_retry_delay}

-- The least of the two.
abbrev pub capped : ℕ → ℕ
capped d = if ltb (5 * minute) d then 5 * minute else d

abbrev pub power : ℕ → ℕ
power zero = 1
power (suc n) = power n * 2

power-positive : (n : ℕ) → 1 ≤ power n
power-positive zero = ground arith
power-positive (suc n) = let h = power-positive n in omega arith

product-AtLeast : (d n : ℕ) → d ≤ d * power n
product-AtLeast d zero = omega arith
product-AtLeast d (suc n) =
    let h = product-AtLeast d n in
    let e : d * (power n * 2) ≡ d * power n * 2 = omega arith in ground arith

doubled-power : (n d : ℕ) → capped (doubled n d) ≡ capped (d * power n)
unfolding doubled
doubled-power zero d = ground arith
doubled-power (suc n) d = elim (Bool-cases (ltb d (5 * minute))) [
  | inl p ↦
      let e : d * 2 * power n ≡ d * (power n * 2) = omega arith in
      rw p (doubled-power n (d * 2) ∙ ap capped e)
  | inr p ↦ let h = product-AtLeast d (suc n) in rw p (ground arith)
]

-- One delivery more.
grows : (n : ℕ) → capped (doubled (n - 1) (2 * second)) ≤ capped (doubled n (2 * second))
grows n = rw (doubled-power (n - 1) (2 * second), doubled-power n (2 * second)) (step n)
  where
    step : (n : ℕ) → capped (2 * second * power (n - 1)) ≤ capped (2 * second * power n)
    step zero = omega arith
    step (suc k) = let e : suc k - 1 ≡ k = omega arith in rw e (ground arith)

-- The delay before a redelivery is 2 seconds, doubled for every delivery after the first, and at most 5
-- minutes; it is never less than 2 seconds, and never less than after an earlier delivery.
pub default_retry_delay-capped :
    (delivered : ℕ)
    → (default_retry_delay delivered ≡ capped (2 * second * power (delivered - 1)))
      × (2 * second ≤ default_retry_delay delivered)
      × (default_retry_delay delivered ≤ 5 * minute)
      × (default_retry_delay delivered ≤ default_retry_delay (suc delivered))
unfolding default_retry_delay
default_retry_delay-capped n =
    let at = doubled-power (n - 1) (2 * second) in
    let next = doubled-power n (2 * second) in
    let least = product-AtLeast (2 * second) (n - 1) in
    let e : suc n - 1 ≡ n = omega arith in (at, ground arith, ground arith, rw e (grows n))
