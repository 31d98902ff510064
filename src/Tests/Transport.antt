-- ===== src/Tests/Transport.antt =====
-- Examples for internal/events/nats.go and internal/dbwait.
use booth_catalog.Prelude.{
  ℕ, zero, suc, ◌≡◌, ◌≤◌, ◌*◌, ◌-◌, ◌/◌, ◌+◌, ◌↔◌, refl, true, false, [], ◌∷◌, none, some, All, pos,
  negsuc, arith, list_beq,
}
use booth_catalog.Text.{txt}
use booth_catalog.Data.Model.{Time}
use booth_catalog.Events.Transport.{
  SubscriberConfig, apply_defaults, second, minute, default_retry_delay,
}
use booth_catalog.Events.Transport.Delay.{capped, power, default_retry_delay-capped}
use booth_catalog.Events.Transport.Session.{
  Calls, Round, found, cancelled, closed, run, run_from, session, wait_for_stream, set, waits,
  connecting, subscribed, error, Event,
}
use booth_catalog.Events.Transport.Session
use booth_catalog.Events.Transport.Session.Pace.{
  IsPaced, IsCancelled, run-All-IsPaced, session_nil_iff,
}
use booth_catalog.DbWait.{
  Surroundings, ConnError, Ended, connected, retry, retry_from, initial_backoff,
  default_max_elapsed, is_retryable,
}
use booth_catalog.DbWait.Ending.{Reaches, Because, retry_terminates, retry-Because}

default_retry_delay-capped_example :
    (default_retry_delay 4 ≡ capped (2 * second * power (4 - 1)))
    × (2 * second ≤ default_retry_delay 4)
    × (default_retry_delay 4 ≤ 5 * minute)
    × (default_retry_delay 4 ≤ default_retry_delay 5)
default_retry_delay-capped_example = default_retry_delay-capped 4

abbrev config : SubscriberConfig
config = record {
  url = txt "nats://booth-core-nats:4222";
  subject_filter = [];
  credentials_file = [];
  stream_name = [];
  consumer = [];
  ack_wait = pos 0;
  max_deliver = negsuc 0;
  retry_delay = none;
  reconnect_base = pos 0;
  reconnect_max = negsuc 4;
  stream_poll_interval = pos 0;
}

-- The first session loses its connection, and the second ends with the process.
abbrev lost : Round
lost = record {
  calls = record {
    connect = none;
    new_context = none;
    missing = 1;
    lookup = found;
    create_consumer = none;
    consume = none;
    ending = closed;
  };
  is_cancelled = false;
  is_cancelled_waiting = false;
  elapsed = 5;
}

abbrev stopped : Round
stopped = record lost { calls = record lost.calls { ending = cancelled }; is_cancelled = true }

two_sessions_run :
    run (apply_defaults config) (lost ∷ stopped ∷ [])
    ≡ set connecting
      ∷ set Session.waiting_for_stream
      ∷ set subscribed
      ∷ set error
      ∷ waits second
      ∷ set connecting
      ∷ set Session.waiting_for_stream
      ∷ set subscribed
      ∷ []
unfolding run run_from session wait_for_stream apply_defaults
two_sessions_run = refl

run-All-IsPaced_example :
    All (IsPaced (apply_defaults config)) (run (apply_defaults config) (lost ∷ stopped ∷ []))
unfolding apply_defaults
run-All-IsPaced_example =
    run-All-IsPaced config (lost ∷ stopped ∷ []) (omega arith)
      ((λ h. absurd (ground arith)), ((λ h. refl), tt))

session_nil_iff_example : ((session stopped.calls).1 ≡ none) ↔ IsCancelled stopped.calls
session_nil_iff_example = session_nil_iff stopped.calls

-- The server is starting up at the first attempt.
abbrev starting : ConnError
starting = record { pg_code = some (txt "57P03"); is_dns = false; is_op = false; timeout = none }

abbrev surroundings : Surroundings
surroundings = record {
  attempt = λ n. elim n [ zero ↦ none | suc k ↦ elim k [ zero ↦ some starting | suc j ↦ none ] ];
  took = λ n. 1000;
  late = λ n. 0;
  cancelled = λ n. false;
}

second_attempt_connects : retry surroundings default_max_elapsed 0 3 ≡ some (connected 2)
unfolding retry retry_from is_retryable list_beq
second_attempt_connects = refl

retry_terminates_example :
    ((r : Ended) × (retry surroundings 1000 0 (suc (suc (1000 / initial_backoff))) ≡ some r))
    × ((r : Ended) × (retry surroundings default_max_elapsed 0 12 ≡ some r))
retry_terminates_example = retry_terminates surroundings 0 1000

retry-Because_example :
    (k : ℕ) × (end : Time) × Reaches surroundings
      (0 + default_max_elapsed)
      1
      0
      initial_backoff
      k
      end
    × Because surroundings (0 + default_max_elapsed) (connected 2) k end
retry-Because_example =
    retry-Because surroundings 0 default_max_elapsed 3 (connected 2) second_attempt_connects
