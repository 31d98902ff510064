-- ===== src/Events/Transport/Session.antt =====
-- internal/events/nats.go: the life of a subscription. What the client library answers, the context and
-- the clock belong to the process's surroundings: a run is over finitely many sessions, each with what
-- its calls answer.
pub mod Pace
use booth_catalog.Prelude.{
  ℕ, zero, suc, ◌*◌, Bool, true, false, List, [], ◌∷◌, ◌++◌, map, ltb, if◌then◌else◌, case_option,
  Option, none, some,
}
use booth_catalog.Text.{Text}
use booth_catalog.Events.Transport.{Settings}

pub data State : Type 0 where
  connecting waiting_for_stream subscribed error : State

-- The errors of a session, each with the text of what it wraps.
pub data SessionError : Type 0 where
  connecting_to_nats creating_context looking_up creating_consumer starting_consume :
      Text → SessionError
  consumer_lost : Text → SessionError
  connection_closed context_done : SessionError

-- How the look-ups of the stream end: it is there, the look-up fails, or the context is cancelled in the
-- wait after one that did not find it.
pub data Lookup : Type 0 where
  found wait_cancelled : Lookup
  lookup_failed : Text → Lookup

-- The `select` that a subscribed session ends with.
pub data Ending : Type 0 where
  cancelled closed : Ending
  lost : Text → Ending

-- What the calls of a session answer. The stream is not there so many times before the look-ups end.
pub record Calls : Type 0 where
  pub connect : Option Text
  pub new_context : Option Text
  pub missing : ℕ
  pub lookup : Lookup
  pub create_consumer : Option Text
  pub consume : Option Text
  pub ending : Ending

-- The states that are set, and the error that is returned.
abbrev pub Course : Type 0
Course = List State × Option SessionError

abbrev pub first_set : State → Course → Course
first_set s (states, e) = (s ∷ states, e)

-- `if err != nil { return … }`
abbrev pub unless_failed : Option Text → (Text → SessionError) → Course → Course
unless_failed none wrap rest = rest
unless_failed (some why) wrap rest = ([], some (wrap why))

-- Subscriber.waitForStream; `rest` is what the session does with the stream.
abbrev pub after_lookup : Lookup → Course → Course
after_lookup found rest = rest
after_lookup (lookup_failed why) rest = ([], some (looking_up why))
after_lookup wait_cancelled rest = (waiting_for_stream ∷ [], some context_done)

unfoldable pub wait_for_stream : ℕ → Lookup → Course → Course
wait_for_stream zero l rest = after_lookup l rest
wait_for_stream (suc n) l rest = first_set waiting_for_stream (wait_for_stream n l rest)

abbrev pub end_of : Ending → Option SessionError
end_of cancelled = none
end_of (lost why) = some (consumer_lost why)
end_of closed = some connection_closed

-- Subscriber.session
unfoldable pub session : Calls → Course
session c = first_set connecting (
    unless_failed c.connect connecting_to_nats (
      unless_failed c.new_context creating_context (
        wait_for_stream c.missing c.lookup (
          unless_failed c.create_consumer creating_consumer
            (unless_failed c.consume starting_consume (subscribed ∷ [], end_of c.ending))))))

-- One round of Run: its session, whether the context is cancelled after it or in the wait that follows,
-- and the time since it started.
pub record Round : Type 0 where
  pub calls : Calls
  pub is_cancelled : Bool
  pub is_cancelled_waiting : Bool
  pub elapsed : ℕ

-- What Run does: a state is set, or it waits for so long. It would panic at `err.Error()` if a session
-- returned nil while the context is not cancelled.
pub data Event : Type 0 where
  set : State → Event
  waits : ℕ → Event
  panics : Event

abbrev pub next_wait : Settings → ℕ → ℕ → ℕ
next_wait cfg wait elapsed =
    if ltb (2 * cfg.reconnect_max) elapsed
    then cfg.reconnect_base
    else if ltb cfg.reconnect_max (wait * 2)
    then cfg.reconnect_max
    else wait * 2

abbrev pub after_session : ℕ → Option SessionError → List Event → List Event
after_session wait none rest = panics ∷ []
after_session wait (some e) rest = set error ∷ waits wait ∷ rest

-- The loop of Run, from this wait on.
unfoldable pub run_from : Settings → ℕ → List Round → List Event
run_from cfg wait [] = []
run_from cfg wait (r ∷ rs) =
    let rest = run_from cfg (next_wait cfg wait r.elapsed) rs in
    let (states, e) = session r.calls in
    map set states
    ++ (if r.is_cancelled
        then []
        else after_session wait e (if r.is_cancelled_waiting then [] else rest))

-- Subscriber.Run
unfoldable pub run : Settings → List Round → List Event
run cfg rounds = run_from cfg cfg.reconnect_base rounds
