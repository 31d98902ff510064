-- ===== src/DbWait/Ending.antt =====
-- Retry ends, and why it ended (internal/dbwait/retry.go).
use booth_catalog.Prelude.{
  ℕ, zero, suc, ◌+◌, ◌*◌, ◌/◌, ◌≤◌, ◌<◌, true, false, ltb, Option, none, some, inl, inr, ◌≡◌, refl,
  subst, arith, Option-cases, Bool-cases, case_option,
}
use booth_catalog.Data.Model.{Time}
use booth_catalog.DbWait.{
  Surroundings, ConnError, Ended, connected, refused, still_failing, given_up, is_retryable,
  on_error, retry_from, retry, next_backoff, initial_backoff, default_max_elapsed,
}

-- The next so many waits together, from this backoff on.
abbrev pub waits : ℕ → ℕ → ℕ
waits zero backoff = 0
waits (suc k) backoff = backoff + waits k (next_backoff backoff)

module _ (w : Surroundings) (deadline : Time) where
  round-ends :
      (n : ℕ) (t : Time) (rest : Option Ended)
      → ((r : Ended) × (rest ≡ some r))
      → (r : Ended) × (case_option
            (w.attempt n)
            (some (connected n))
            (λ e. on_error w deadline n t e rest)
          ≡ some r)
  round-ends n t rest (r, h) = elim (Option-cases (w.attempt n)) [
    | inl p ↦ (connected n, rw p refl)
    | inr (e, p) ↦ elim (Bool-cases (is_retryable e)) [
      | inr q ↦ (refused n e, ground arith)
      | inl q ↦ elim (Bool-cases (ltb t deadline)) [
        | inr o ↦ (still_failing n e, ground arith)
        | inl o ↦ elim (Bool-cases (w.cancelled n)) [
          | inl c ↦ (given_up n, ground arith)
          | inr c ↦ (r, ground arith)
        ]
      ]
    ]
  ]

  -- Once the waits go past the deadline, no further attempt is made.
  ends_by :
      (k n : ℕ) (t : Time) (backoff : ℕ)
      → deadline ≤ t + waits k backoff
      → (r : Ended) × (retry_from w deadline (suc k) n t backoff ≡ some r)
  unfolding retry_from
  ends_by zero n t backoff h = elim (Option-cases (w.attempt n)) [
    | inl p ↦ (connected n, rw p refl)
    | inr (e, p) ↦ elim (Bool-cases (is_retryable e)) [
      | inr q ↦ (refused n e, ground arith)
      | inl q ↦ (still_failing n e, ground arith)
    ]
  ]
  ends_by (suc k) n t backoff h =
      round-ends n (t + w.took n) _
        (ends_by k (suc n) (t + w.took n + backoff + w.late n) (next_backoff backoff) (omega arith))

waits-AtLeast : (k b : ℕ) → initial_backoff ≤ b → k * initial_backoff ≤ waits k b
waits-AtLeast zero b h = omega arith
waits-AtLeast (suc k) b h =
    let rest = waits-AtLeast k (next_backoff b) (next-AtLeast b h) in ground arith
  where
    next-AtLeast : (b : ℕ) → initial_backoff ≤ b → initial_backoff ≤ next_backoff b
    next-AtLeast b h = ground arith

-- Retry returns, whatever the attempts answer and however long they take: there is no attempt after the
-- first ones, one for each initial backoff in maxElapsed and two more. With the default of a minute
-- there are at most 12.
pub retry_terminates :
    (w : Surroundings) (start : Time) (max_elapsed : ℕ)
    → ((r : Ended) × (retry w max_elapsed start (suc (suc (max_elapsed / initial_backoff)))
          ≡ some r))
      × ((r : Ended) × (retry w default_max_elapsed start 12 ≡ some r))
unfolding retry
retry_terminates w start max_elapsed = (
  (let k = suc (max_elapsed / initial_backoff) in
      let long = waits-AtLeast k initial_backoff (omega arith) in
      ends_by w (start + max_elapsed) k 1 start initial_backoff (omega arith)),
  ends_by w (start + default_max_elapsed) 11 1 start initial_backoff (omega arith),
)

module _ (w : Surroundings) (deadline : Time) where
  -- From an attempt on, at a time and with a backoff, the loop gets to the end of an attempt: every
  -- attempt before fails in a way worth waiting out, ends before the deadline, and is not cancelled.
  pub data Reaches : ℕ → Time → ℕ → ℕ → Time → Type 0 where
    here : {n : ℕ} {t : Time} {b : ℕ} → Reaches n t b n (t + w.took n)
    later :
        {n : ℕ} {t : Time} {b k : ℕ} {end : Time}
        → (e : ConnError) → w.attempt n ≡ some e
        → is_retryable e ≡ true
        → t + w.took n < deadline
        → w.cancelled n ≡ false
        → Reaches (suc n) (t + w.took n + b + w.late n) (next_backoff b) k end
        → Reaches n t b k end

  -- Why Retry returns this from the attempt that ended then.
  abbrev pub Because : Ended → ℕ → Time → Type 0
  Because (connected m) k end = (m ≡ k) × (w.attempt k ≡ none)
  Because (refused m e) k end = (m ≡ k) × (w.attempt k ≡ some e) × (is_retryable e ≡ false)
  Because (still_failing m e) k end =
      (m ≡ k) × (w.attempt k ≡ some e) × (is_retryable e ≡ true) × (deadline ≤ end)
  Because (given_up m) k end = (m ≡ k) × (end < deadline) × (w.cancelled k ≡ true)

  retry_from-Because :
      (rounds n : ℕ) (t : Time) (b : ℕ) (r : Ended)
      → retry_from w deadline rounds n t b ≡ some r
      → (k : ℕ) × (end : Time) × Reaches n t b k end × Because r k end
  unfolding retry_from
  retry_from-Because zero n t b r h = absurd (ground arith)
  retry_from-Because (suc rounds) n t b r h = elim (Option-cases (w.attempt n)) [
    | inl p ↦ (
      n,
      t + w.took n,
      here,
      (let o' : connected n ≡ r = ground arith in
          subst (λ x. Because x n (t + w.took n)) o' (refl, p)),
    )
    | inr (e, p) ↦ elim (Bool-cases (is_retryable e)) [
      | inr q ↦ (
        n,
        t + w.took n,
        here,
        (let o' : refused n e ≡ r = ground arith in
            subst (λ x. Because x n (t + w.took n)) o' (refl, p, q)),
      )
      | inl q ↦ elim (Bool-cases (ltb (t + w.took n) deadline)) [
        | inr o ↦ (
          n,
          t + w.took n,
          here,
          (let o' : still_failing n e ≡ r = ground arith in
              subst (λ x. Because x n (t + w.took n)) o' (refl, p, q, ground arith)),
        )
        | inl o ↦ elim (Bool-cases (w.cancelled n)) [
          | inl c ↦ (
            n,
            t + w.took n,
            here,
            (let o' : given_up n ≡ r = ground arith in
                subst (λ x. Because x n (t + w.took n)) o' (refl, ground arith, c)),
          )
          | inr c ↦
              let (k, end, reached, why) = retry_from-Because rounds (suc n) _ _ r (ground arith) in
              (k, end, later e p q (ground arith) c reached, why)
        ]
      ]
    ]
  ]

-- What Retry answers is why it stopped: at an attempt, where every one before failed in a way worth
-- waiting out and ended before the deadline, it returned nil because the attempt succeeded, the error at
-- once because it is not retryable, the error as still failing because the attempt ended at the deadline
-- or past it, and the context's error because the context was cancelled before the wait was over.
pub retry-Because :
    (w : Surroundings) (start : Time) (max_elapsed rounds : ℕ) (r : Ended)
    → retry w max_elapsed start rounds ≡ some r
    → (k : ℕ) × (end : Time) × Reaches w (start + max_elapsed) 1 start initial_backoff k end
      × Because w (start + max_elapsed) r k end
unfolding retry
retry-Because w start max_elapsed rounds r =
    retry_from-Because w (start + max_elapsed) rounds 1 start initial_backoff r
