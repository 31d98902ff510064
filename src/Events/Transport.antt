-- ===== src/Events/Transport.antt =====
-- internal/events/nats.go: the configuration of a subscriber, the delay of a redelivery, and how a
-- message is settled with JetStream. What the client library answers is a function that the model takes;
-- what is only logged is left out.
pub mod Delay
pub mod Session
use booth_catalog.Prelude.{
  ℕ, zero, suc, ◌+◌, ◌-◌, ◌*◌, Bool, true, false, List, [], ltb, ◌==◌, nat_eq, list_eq,
  if◌then◌else◌, case_option, Option, none, some, ℤ, pos, negsuc,
}
use booth_catalog.Text.{Text, txt}
use booth_catalog.Events.{Action, ack, retry, drop, Verdict, Payload}

abbrev pub second : ℕ
second = 1_000_000_000

abbrev pub minute : ℕ
minute = 60 * second

abbrev pub stream_name : Text
stream_name = txt "BOOTH_EVENTS"

abbrev pub default_consumer_name : Text
default_consumer_name = txt "booth-catalog-dashboards"

abbrev pub subject_filter : Text
subject_filter = txt "booth.*.dashboard.*"

-- A SubscriberConfig as it is given: a time.Duration may be negative, and RetryDelay may be nil.
pub record SubscriberConfig : Type 0 where
  pub url : Text
  pub subject_filter : Text
  pub credentials_file : Text
  pub stream_name : Text
  pub consumer : Text
  pub ack_wait : ℤ
  pub max_deliver : ℤ
  pub retry_delay : Option (ℕ → ℕ)
  pub reconnect_base : ℤ
  pub reconnect_max : ℤ
  pub stream_poll_interval : ℤ

-- The same after applyDefaults: every duration is positive, and RetryDelay is there.
pub record Settings : Type 0 where
  pub url : Text
  pub subject_filter : Text
  pub credentials_file : Text
  pub stream_name : Text
  pub consumer : Text
  pub ack_wait : ℕ
  pub max_deliver : ℕ
  pub retry_delay : ℕ → ℕ
  pub reconnect_base : ℕ
  pub reconnect_max : ℕ
  pub stream_poll_interval : ℕ

-- The loop of defaultRetryDelay, with so many rounds left.
unfoldable pub doubled : ℕ → ℕ → ℕ
doubled zero d = d
doubled (suc n) d = let more = doubled n (d * 2) in if ltb d (5 * minute) then more else d

unfoldable pub default_retry_delay : ℕ → ℕ
default_retry_delay delivered =
    let d = doubled (delivered - 1) (2 * second) in if ltb (5 * minute) d then 5 * minute else d

-- `if x == "" { x = d }`
abbrev pub text_or : Text → Text → Text
text_or x d = if x == [] then d else x

-- `if x <= 0 { x = d }`
abbrev pub positive_or : ℤ → ℕ → ℕ
positive_or (pos zero) d = d
positive_or (pos (suc n)) d = suc n
positive_or (negsuc n) d = d

unfoldable pub apply_defaults : SubscriberConfig → Settings
apply_defaults c = record {
  url = c.url;
  subject_filter = text_or c.subject_filter subject_filter;
  credentials_file = c.credentials_file;
  stream_name = text_or c.stream_name stream_name;
  consumer = text_or c.consumer default_consumer_name;
  ack_wait = positive_or c.ack_wait (30 * second);
  max_deliver = positive_or c.max_deliver 50;
  retry_delay = case_option c.retry_delay default_retry_delay (λ f. f);
  reconnect_base = positive_or c.reconnect_base second;
  reconnect_max = positive_or c.reconnect_max (30 * second);
  stream_poll_interval = positive_or c.stream_poll_interval (2 * second);
}

-- A message of JetStream: its metadata, where they can be read, have the number of deliveries.
pub record Msg : Type 0 where
  pub subject : Text
  pub payload : Payload
  pub num_delivered : Option ℕ

-- msg.Ack(), msg.Term() and msg.NakWithDelay(delay)
pub data Settlement : Type 0 where
  acked terminated : Settlement
  nak_with_delay : ℕ → Settlement

abbrev pub settlement : Settings → Msg → Action → Settlement
settlement cfg msg ack = acked
settlement cfg msg drop = terminated
settlement cfg msg retry =
    nak_with_delay (cfg.retry_delay (case_option msg.num_delivered 1 (λ n. n)))

module _ {S : Type 0} (proc : S → Text → Payload → Verdict × S) where
  -- Subscriber.handle: how the message is settled, and the state that the Handler leaves.
  unfoldable pub handle : Settings → S → Msg → Settlement × S
  handle cfg s msg =
      let res = proc s msg.subject msg.payload in (settlement cfg msg res.0.action, res.1)
