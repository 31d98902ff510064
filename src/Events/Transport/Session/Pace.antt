-- ===== src/Events/Transport/Session/Pace.antt =====
-- How often a subscriber reconnects (internal/events/nats.go: Run and session).
use booth_catalog.Prelude.{
  ℕ, zero, suc, ◌≤◌, Bool, true, false, List, [], ◌∷◌, ◌++◌, map, if◌then◌else◌, Option, none, some,
  ◌≡◌, ◌↔◌, arith, All,
}
use booth_catalog.Text.{Text}
use booth_catalog.Events.Transport.{Settings, SubscriberConfig, apply_defaults}
use booth_catalog.Events.Transport.Session.{
  State, SessionError, Lookup, found, Ending, cancelled, Calls, Course, unless_failed,
  wait_for_stream, end_of, session, starting_consume, creating_consumer, creating_context,
  connecting_to_nats, Round, Event, set, waits, panics, next_wait, after_session, run_from, run,
  subscribed,
}

-- Every call of the session went well, and it ended because the context was cancelled.
abbrev pub IsCancelled : Calls → Type 0
IsCancelled c =
    (c.connect ≡ none)
    × (c.new_context ≡ none)
    × (c.lookup ≡ found)
    × (c.create_consumer ≡ none)
    × (c.consume ≡ none)
    × (c.ending ≡ cancelled)

wait_for_stream_iff :
    (n : ℕ) (l : Lookup) (rest : Course)
    → ((wait_for_stream n l rest).1 ≡ none) ↔ ((l ≡ found) × (rest.1 ≡ none))
unfolding wait_for_stream
wait_for_stream_iff zero Lookup.found rest = ground arith
wait_for_stream_iff zero (Lookup.lookup_failed t) rest = ground arith
wait_for_stream_iff zero Lookup.wait_cancelled rest = ground arith
wait_for_stream_iff (suc n) l rest = wait_for_stream_iff n l rest

unless_failed_iff :
    (f : Option Text) (wrap : Text → SessionError) (rest : Course)
    → ((unless_failed f wrap rest).1 ≡ none) ↔ ((f ≡ none) × (rest.1 ≡ none))
unless_failed_iff none wrap rest = ground arith
unless_failed_iff (some t) wrap rest = ground arith

end_of_iff : (e : Ending) → (end_of e ≡ none) ↔ (e ≡ cancelled)
end_of_iff Ending.cancelled = ground arith
end_of_iff Ending.closed = ground arith
end_of_iff (Ending.lost t) = ground arith

-- A session returns nil exactly if it got as far as being subscribed and the context was then cancelled.
pub session_nil_iff : (c : Calls) → ((session c).1 ≡ none) ↔ IsCancelled c
unfolding session
session_nil_iff c =
    let ends : Course = (subscribed ∷ [], end_of c.ending) in
    let consumes = unless_failed c.consume starting_consume ends in
    let creates = unless_failed c.create_consumer creating_consumer consumes in
    let looks = wait_for_stream c.missing c.lookup creates in
    let contexts = unless_failed c.new_context creating_context looks in
    let l = end_of_iff c.ending in
    let a = unless_failed_iff c.consume starting_consume ends in
    let b = unless_failed_iff c.create_consumer creating_consumer consumes in
    let d = wait_for_stream_iff c.missing c.lookup creates in
    let e = unless_failed_iff c.new_context creating_context looks in
    let f = unless_failed_iff c.connect connecting_to_nats contexts in
    (
      (λ h.
          let (x, h) = f.0 h in
          let (y, h) = e.0 h in
          let (z, h) = d.0 h in let (v, h) = b.0 h in let (w, h) = a.0 h in (x, y, z, v, w, l.0 h)),
      λ (x, y, z, v, w, h). f.1 (x, e.1 (y, d.1 (z, b.1 (v, a.1 (w, l.1 h))))),
    )

-- A wait is between the two bounds of the configuration, and nothing panics.
abbrev pub IsPaced : Settings → Event → Type 0
IsPaced cfg (set s) = Unit
IsPaced cfg (waits d) = (cfg.reconnect_base ≤ d) × (d ≤ cfg.reconnect_max)
IsPaced cfg panics = ⊥

-- A session that ends because the context is cancelled leaves it cancelled.
abbrev pub IsFaithful : Round → Type 0
IsFaithful r = r.calls.ending ≡ cancelled → r.is_cancelled ≡ true

module _ (cfg : Settings) (h : cfg.reconnect_base ≤ cfg.reconnect_max) where
  sets-All :
      (states : List State) (rest : List Event)
      → All (IsPaced cfg) rest
      → All (IsPaced cfg) (map set states ++ rest)
  sets-All [] rest k = k
  sets-All (s ∷ states) rest k = (tt, sets-All states rest k)

  next_wait-bounds :
      (wait elapsed : ℕ)
      → cfg.reconnect_base ≤ wait
      → (cfg.reconnect_base ≤ next_wait cfg wait elapsed)
        × (next_wait cfg wait elapsed ≤ cfg.reconnect_max)
  next_wait-bounds wait elapsed k = (ground arith, ground arith)

  run_from-All :
      (wait : ℕ) (rounds : List Round)
      → cfg.reconnect_base ≤ wait
      → wait ≤ cfg.reconnect_max
      → All IsFaithful rounds
      → All (IsPaced cfg) (run_from cfg wait rounds)
  unfolding run_from
  run_from-All wait [] low high f = tt
  run_from-All wait (r ∷ rs) low high (f, fs) =
      let (low', high') = next_wait-bounds wait r.elapsed low in
      let rest = run_from-All (next_wait cfg wait r.elapsed) rs low' high' fs in
      sets-All (session r.calls).0 _ (
        paced r.is_cancelled (session r.calls).1 (λ p. f (((session_nil_iff r.calls).0 p).5))
          r.is_cancelled_waiting _ rest)
    where
      paced :
          (c : Bool) (e : Option SessionError)
          → (e ≡ none → c ≡ true)
          → (w : Bool) → (rest : List Event) → All (IsPaced cfg) rest
          → All (IsPaced cfg) (if c then [] else after_session wait e (if w then [] else rest))
      paced true e n w rest k = tt
      paced false none n w rest k = absurd (ground arith)
      paced false (some e) n true rest k = (tt, ((low, high), tt))
      paced false (some e) n false rest k = (tt, ((low, high), k))

-- With the defaults applied to any configuration, whatever its sessions come to and however long they
-- last: if the base of the reconnection is not above its maximum, Run waits at least the base and at most
-- the maximum before each reconnection, and never panics, given that a session that ends because its
-- context is cancelled leaves it cancelled.
pub run-All-IsPaced :
    (c : SubscriberConfig) (rounds : List Round)
    → (apply_defaults c).reconnect_base ≤ (apply_defaults c).reconnect_max
    → All IsFaithful rounds
    → All (IsPaced (apply_defaults c)) (run (apply_defaults c) rounds)
unfolding run
run-All-IsPaced c rounds h f =
    run_from-All (apply_defaults c) h (apply_defaults c).reconnect_base rounds (omega arith) h f
