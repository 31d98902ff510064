-- ===== src/DbWait.antt =====
-- internal/dbwait/retry.go: the attempts to reach the database at start-up. What an attempt answers, the
-- clock and the context belong to the process's surroundings, which the model takes as functions of the
-- attempt's number.
pub mod Ending
use booth_catalog.Prelude.{
  ℕ, zero, suc, ◌+◌, ◌*◌, Bool, true, false, not, ◌||◌, ltb, ◌==◌, nat_eq, list_eq, if◌then◌else◌,
  case_option, Option, none, some,
}
use booth_catalog.Text.{Text, txt}
use booth_catalog.Data.Model.{Time}

abbrev pub millisecond : ℕ
millisecond = 1_000_000

abbrev pub default_max_elapsed : ℕ
default_max_elapsed = 60_000 * millisecond

abbrev pub initial_backoff : ℕ
initial_backoff = 500 * millisecond

abbrev pub max_backoff : ℕ
max_backoff = 8_000 * millisecond

-- An error, by what errors.As finds in it: the code of a pgconn.PgError, a net.DNSError, a net.OpError,
-- and what a net.Error answers to Timeout.
pub record ConnError : Type 0 where
  pub pg_code : Option Text
  pub is_dns : Bool
  pub is_op : Bool
  pub timeout : Option Bool

unfoldable pub is_retryable : ConnError → Bool
is_retryable e =
    case_option e.pg_code (e.is_dns || e.is_op || case_option e.timeout false (λ t. t))
      (λ code. code == txt "57P03")

pub record Surroundings : Type 0 where
  -- what fn answers: no error, or one
  pub attempt : ℕ → Option ConnError
  -- how long the attempt takes, on the monotonic clock
  pub took : ℕ → ℕ
  -- how much longer than asked the wait after the attempt takes
  pub late : ℕ → ℕ
  -- the context is cancelled before the wait after the attempt is over
  pub cancelled : ℕ → Bool

-- How Retry returns.
pub data Ended : Type 0 where
  connected : ℕ → Ended
  refused : ℕ → ConnError → Ended
  still_failing : ℕ → ConnError → Ended
  given_up : ℕ → Ended

-- backoff *= 2, at most maxBackoff
abbrev pub next_backoff : ℕ → ℕ
next_backoff b = if ltb max_backoff (b * 2) then max_backoff else b * 2

-- The body of the loop: the attempt with this number has ended at this time and with this error; `rest`
-- is what the next attempts lead to.
abbrev pub on_error : Surroundings → Time → ℕ → Time → ConnError → Option Ended → Option Ended
on_error w deadline n t e rest =
    if not (is_retryable e)
    then some (refused n e)
    else if not (ltb t deadline)
    then some (still_failing n e)
    else if w.cancelled n
    then some (given_up n)
    else rest

-- The loop, from the attempt with this number on, at this time and with this backoff. `none` says that
-- the rounds allowed do not suffice.
unfoldable pub retry_from : Surroundings → Time → ℕ → ℕ → Time → ℕ → Option Ended
retry_from w deadline zero n t backoff = none
retry_from w deadline (suc rounds) n t backoff =
    let ended = t + w.took n in
    let rest =
      retry_from w deadline rounds (suc n) (ended + backoff + w.late n) (next_backoff backoff) in
    case_option (w.attempt n) (some (connected n)) (λ e. on_error w deadline n ended e rest)

unfoldable pub retry : Surroundings → ℕ → Time → ℕ → Option Ended
retry w max_elapsed start rounds = retry_from w (start + max_elapsed) rounds 1 start initial_backoff
