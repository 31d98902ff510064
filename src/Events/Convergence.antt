-- ===== src/Events/Convergence.antt =====
-- Catalogs that heard the same events agree (internal/events/processor.go over internal/dashboards):
-- messages arrive at least once and in any order.
use booth_catalog.Prelude.{
  ◌≤◌, ltb, List, [], ◌∷◌, Option, none, some, ◌⊎◌, ◌≡◌, ◌↔◌, refl, sym, ap, ◌∙◌, arith, eq_iff,
  eq_refl, nat_eq, list_eq, Bool-cases, Option-cases, inl, inr, subst,
}
use booth_catalog.Prelude.GoMap
use booth_catalog.Text.{Text}
use booth_catalog.Data.Model.{Time}
use booth_catalog.Dashboards.Store.{MemoryStore, new_store, find}
use booth_catalog.Dashboards.Store.Register.{
  IsWellFormed, new_store-IsWellFormed, Event, register, newer,
}
use booth_catalog.Dashboards.Store.Elsewhere.{is_same}
use booth_catalog.Events.{Payload, Envelope, read}
use booth_catalog.Events.Dashboards.{DashboardData, memory_catalog, parse_subject, handle}
use booth_catalog.Events.Registers.{Said, said_by, heard, IsFresh, settle-HasHeard}

abbrev pub Message : Type 0
Message = Text × Payload

-- Some message of the list is this one.
abbrev pub Has : Message → List Message → Type 0
Has a [] = ⊥
Has a (b ∷ bs) = (a ≡ b) ⊎ Has a bs

module _ (envelope : Payload → Text ⊎ Envelope) (dashboard : Payload → Text ⊎ DashboardData) where
  -- The store that a processor leaves that has handled these messages in this order. Each time the
  -- drawn ID is new, and the clock shows anything.
  pub data Run : List Message → MemoryStore → MemoryStore → Type 0 where
    done : {m : MemoryStore} → Run [] m m
    next :
        {ms : List Message} {m m' : MemoryStore}
        → (a : Message) (id : Text) (now : Time) → IsFresh id m
        → Run ms (handle (memory_catalog id now) envelope dashboard m a.0 a.1).1 m'
        → Run (a ∷ ms) m m'

  abbrev pub said : Message → Option Said
  said a = said_by (read dashboard parse_subject envelope a.0 a.1)

  -- A message says this of a dashboard.
  abbrev pub Says : Text → Text → Text → Event → Message → Type 0
  Says ws sm ext e a = said a ≡ some (ws, sm, ext, e)

  -- No two messages say different things of a dashboard at one time.
  abbrev pub IsOrdered : List Message → Type 0
  IsOrdered ms =
      (a b : Message) (ws sm ext : Text) (e f : Event)
      → Has a ms
      → Has b ms
      → Says ws sm ext e a
      → Says ws sm ext f b
      → e.0 ≡ f.0
      → e ≡ f

  module _ (ws sm ext : Text) where
    hears : List Message → Option Event → Option Event
    hears [] s = s
    hears (a ∷ ms) s = hears ms (heard ws sm ext (said a) s)

    Run-hears :
        (ms : List Message) (m m' : MemoryStore)
        → IsWellFormed m
        → Run ms m m'
        → register m' ws sm ext ≡ hears ms (register m ws sm ext)
    unfolding hears handle
    Run-hears [] m _ before done = refl
    Run-hears (a ∷ ms) m m' before (next _ id now fresh run) =
        let (well, here) =
          settle-HasHeard m before id now fresh (read dashboard parse_subject envelope a.0 a.1) in
        Run-hears ms _ m' well run ∙ ap (hears ms) (here ws sm ext)

    abbrev pub IsSince : Time → Option Event → Type 0
    IsSince t none = ⊥
    IsSince t (some e) = t ≤ e.0

    heard-IsSince :
        (t : Time) (w : Option Said) (s : Option Event)
        → IsSince t s
        → IsSince t (heard ws sm ext w s)
    heard-IsSince t none s h = h
    heard-IsSince t (some (ws', sm', ext', e)) none h = absurd h
    heard-IsSince t (some (ws', sm', ext', e)) (some old) h = ground arith

    hears-IsSince :
        (t : Time) (ms : List Message) (s : Option Event) → IsSince t s → IsSince t (hears ms s)
    unfolding hears
    hears-IsSince t [] s h = h
    hears-IsSince t (a ∷ ms) s h = hears-IsSince t ms _ (heard-IsSince t (said a) s h)

    -- Nothing that was said is later than what is kept.
    hears-latest :
        (ms : List Message) (s : Option Event) (a : Message) (e : Event)
        → Has a ms
        → Says ws sm ext e a
        → IsSince e.0 (hears ms s)
    unfolding hears
    hears-latest [] s a e has h = absurd has
    hears-latest (b ∷ ms) s a e (inl p) h = hears-IsSince e.0 ms _ (rw (sym p) (rw h (takes s)))
      where
        takes : (s : Option Event) → IsSince e.0 (heard ws sm ext (some (ws, sm, ext, e)) s)
        takes none = ground (arith, eq_refl ws, eq_refl sm, eq_refl ext)
        takes (some old) = ground (arith, eq_refl ws, eq_refl sm, eq_refl ext)
    hears-latest (b ∷ ms) s a e (inr p) h = hears-latest ms _ a e p h

    heard-said :
        (w : Option Said) (s : Option Event) (e : Event)
        → heard ws sm ext w s ≡ some e
        → (s ≡ some e) ⊎ (w ≡ some (ws, sm, ext, e))
    heard-said none s e h = inl h
    heard-said (some (ws', sm', ext', f)) s e h =
        elim (Bool-cases (is_same ws' sm' ext' ws sm ext)) [
          | inr p ↦ inl (ground arith)
          | inl p ↦
              let w : ws' ≡ ws = ground (arith, eq_iff ws' ws) in
              let m : sm' ≡ sm = ground (arith, eq_iff sm' sm) in
              let x : ext' ≡ ext = ground (arith, eq_iff ext' ext) in
              elim (kept s f e (ground arith)) [
                | inl q ↦ inl q
                | inr q ↦ inr (rw (w, m, x, q) refl)
              ]
        ]
      where
        kept : (s : Option Event) (f e : Event) → newer s f ≡ some e → (s ≡ some e) ⊎ (f ≡ e)
        kept none f e h = inr (ground arith)
        kept (some old) f e h = elim (Bool-cases (ltb f.0 old.0)) [
          | inl p ↦ inl (ground arith)
          | inr p ↦ inr (ground arith)
        ]

    -- What is kept was there before or was said.
    hears-said :
        (ms : List Message) (s : Option Event) (e : Event)
        → hears ms s ≡ some e
        → (s ≡ some e) ⊎ ((a : Message) × Has a ms × Says ws sm ext e a)
    unfolding hears
    hears-said [] s e h = inl h
    hears-said (a ∷ ms) s e h = elim (hears-said ms _ e h) [
      | inr (b, has, is) ↦ inr (b, inr has, is)
      | inl p ↦ elim (heard-said (said a) s e p) [ inl q ↦ inl q | inr q ↦ inr (a, inl refl, q) ]
    ]

    -- What one sequence keeps was said, and is not later than what another with its messages keeps.
    kept_later :
        (ms ns : List Message) (f : Event)
        → ((a : Message) → Has a ns → Has a ms)
        → hears ns none ≡ some f
        → ((a : Message) × Has a ms × Says ws sm ext f a) × IsSince f.0 (hears ms none)
    kept_later ms ns f within h = elim (hears-said ns none f h) [
      | inl p ↦ absurd (ground arith)
      | inr (a, has, is) ↦ ((a, within a has, is), hears-latest ms none a f (within a has) is)
    ]

    -- Two sequences of the same messages, from nothing.
    hears-agree :
        (ms ns : List Message)
        → ((a : Message) → Has a ms ↔ Has a ns)
        → IsOrdered ms
        → hears ms none ≡ hears ns none
    hears-agree ms ns same ordered = elim (Option-cases (hears ms none)) [
      | inl p ↦ elim (Option-cases (hears ns none)) [
        | inl q ↦ p ∙ sym q
        | inr (f, q) ↦ absurd (subst (IsSince f.0) p (kept_later ms ns f (λ a. (same a).1) q).1)
      ]
      | inr (e, p) ↦
          let ((a, has, is), _) = kept_later ms ms e (λ a h. h) p in
          let (_, since) = kept_later ns ms e (λ a. (same a).0) p in
          elim (Option-cases (hears ns none)) [
            | inl q ↦ absurd (subst (IsSince e.0) q since)
            | inr (f, q) ↦
                let ((b, had, was), since') = kept_later ms ns f (λ a. (same a).1) q in
                let le : e.0 ≤ f.0 = subst (IsSince e.0) q since in
                let ge : f.0 ≤ e.0 = subst (IsSince f.0) p since' in
                p ∙ ap some (ordered a b ws sm ext e f has had is was (omega arith)) ∙ sym q
          ]
    ]

  -- Two in-memory catalogs that started empty and have handled the same messages, each any number of
  -- times and in any order, show the same of every dashboard: whether it is there, its content and the
  -- time of the last event. The IDs drawn are new, and no two of the messages say different things of
  -- one dashboard at one time.
  pub Run-agree :
      (ms ns : List Message) (m n : MemoryStore)
      → Run ms new_store m
      → Run ns new_store n
      → ((a : Message) → Has a ms ↔ Has a ns)
      → IsOrdered ms
      → (ws sm ext : Text) → register m ws sm ext ≡ register n ws sm ext
  unfolding find GoMap.find
  Run-agree ms ns m n run run' same ordered ws sm ext =
      Run-hears ws sm ext ms new_store m new_store-IsWellFormed run
      ∙ hears-agree ws sm ext ms ns same ordered
      ∙ sym (Run-hears ws sm ext ns new_store n new_store-IsWellFormed run')
