-- ===== src/Dashboards/Store/Newest.antt =====
-- The order in which the events of a dashboard arrive does not matter (internal/dashboards/memory.go:
-- Apply and Remove).
use booth_catalog.Prelude.{
  true, false, [], eq_iff, eq_refl, nat_eq, list_eq, if◌then◌else◌, Option, none, some, ◌≡◌, ◌≢◌,
  refl, sym, ap, ◌∙◌, arith, Bool-cases, inl, inr,
}
use booth_catalog.Prelude.GoMap
use booth_catalog.Prelude.GoMap.Laws.{get-put, get-delete}
use booth_catalog.Text.{Text}
use booth_catalog.Data.Model.{Time}
use booth_catalog.Data.Store.Kept.{at_ws-here, at_ws-there}
use booth_catalog.Dashboards.Model.{Upsert}
use booth_catalog.Dashboards.Store.{
  MemoryStore, is_dead, write, bury, revive, find, is_stale, refreshed, apply, remove,
}
use booth_catalog.Dashboards.Store.Register.{
  IsWellFormed, row_of, row_published, wrote, content, content_of, Event, register, newer,
  stale-newer, fresh-newer,
}

-- On a well-formed store, Apply is a write to the register of its dashboard: what can be seen of it
-- afterwards is the newer of what could be seen and the event. The store stays well formed.
pub apply-register :
    (m : MemoryStore) (u : Upsert)
    → IsWellFormed m
    → IsWellFormed (apply m u).1
      × (register (apply m u).1 u.workspace u.source_module u.external_id
          ≡ newer
              (register m u.workspace u.source_module u.external_id)
              (u.at, some (content_of u)))
unfolding apply
apply-register m u before =
    let ws = u.workspace in
    let row = row_of m ws u.source_module u.external_id u.new_id u.received_at in
    let d = refreshed u row in
    let d' = record d { created_at = u.received_at } in
    let is = row_published m ws u.source_module u.external_id u.new_id u.received_at before in
    elim (Bool-cases (is_stale (find m ws u.source_module u.external_id) u.at)) [
      | inl p ↦
          rw p
            (before, stale-newer m ws u.source_module u.external_id (u.at, some (content_of u)) p)
      | inr p ↦ elim (Bool-cases (is_dead m ws row.id)) [
        | inl q ↦
            let m' = write ws d' (revive ws d.id m) in
            let dead = at_ws-here ws (GoMap.delete d.id (m.tombstoned ws)) m.tombstoned in
            let (well, found) =
              wrote m m' ws u.source_module u.external_id u.new_id u.received_at d' before refl is
                (at_ws-here ws (GoMap.put d.id d' (m.by_ws ws)) m.by_ws)
                (λ j h. ground (arith, dead, get-delete d.id j (m.tombstoned ws), eq_iff d.id j))
                (λ w h. (at_ws-there ws w _ m.by_ws h, at_ws-there ws w _ m.tombstoned h)) in
            let live : is_dead m' ws d.id ≡ false =
              ground (arith, dead, get-delete d.id d.id (m.tombstoned ws), eq_refl d.id) in
            rw (p, q)
              (
                well,
                fresh-newer m m' ws u.source_module u.external_id (u.at, some (content_of u)) d' p
                    found (ap (λ b. (u.at, if b then none else some (content_of u))) live),
              )
        | inr q ↦
            let m' = write ws d m in
            let (well, found) =
              wrote m m' ws u.source_module u.external_id u.new_id u.received_at d before refl is
                (at_ws-here ws (GoMap.put d.id d (m.by_ws ws)) m.by_ws) (λ j h. refl)
                (λ w h. (at_ws-there ws w _ m.by_ws h, refl)) in
            rw (p, q)
              (
                well,
                fresh-newer m m' ws u.source_module u.external_id (u.at, some (content_of u)) d p
                    found (ap (λ b. (u.at, if b then none else some (content_of u))) q),
              )
      ]
    ]

-- On a well-formed store, Remove is a write to the register of its dashboard too, of an event that says
-- that the dashboard is gone. The store stays well formed.
pub remove-register :
    (m : MemoryStore) (ws sm ext : Text) (at : Time) (new_id : Text)
    → IsWellFormed m
    → IsWellFormed (remove m ws sm ext at new_id).1
      × (register (remove m ws sm ext at new_id).1 ws sm ext
          ≡ newer (register m ws sm ext) (at, none))
unfolding remove
remove-register m ws sm ext at new_id before =
    let row = row_of m ws sm ext new_id at in
    let d = record row { updated_at = at; sources = [] } in
    let is = row_published m ws sm ext new_id at before in
    elim (Bool-cases (is_stale (find m ws sm ext) at)) [
      | inl p ↦ rw p (before, stale-newer m ws sm ext (at, none) p)
      | inr p ↦
          let m' = bury ws row.id (write ws d m) in
          let dead = at_ws-here ws (GoMap.put row.id true (m.tombstoned ws)) m.tombstoned in
          let (well, found) =
            wrote m m' ws sm ext new_id at d before refl is
              (at_ws-here ws (GoMap.put d.id d (m.by_ws ws)) m.by_ws)
              (λ j h. ground (arith, dead, get-put d.id j true (m.tombstoned ws), eq_iff d.id j))
              (λ w h. (at_ws-there ws w _ m.by_ws h, at_ws-there ws w _ m.tombstoned h)) in
          let gone : is_dead m' ws d.id ≡ true =
            ground (arith, dead, get-put d.id d.id true (m.tombstoned ws), eq_refl d.id) in
          rw p (
            well,
            fresh-newer m m' ws sm ext (at, none) d p found
                (ap (λ b. (at, if b then none else some (content d))) gone),
          )
    ]

newer-commutes :
    (s : Option Event) (e f : Event) → e.0 ≢ f.0 → newer (newer s e) f ≡ newer (newer s f) e
newer-commutes none e f h = ground arith
newer-commutes (some old) e f h = ground arith

-- On a well-formed store, a created or updated event and a deleted event of one dashboard, published at
-- different times, leave the same to be seen of it whichever arrives first.
pub apply-remove-commute :
    (m : MemoryStore) (u : Upsert) (at : Time) (id : Text)
    → IsWellFormed m
    → u.at ≢ at
    → register
        (remove (apply m u).1 u.workspace u.source_module u.external_id at id).1
        u.workspace
        u.source_module
        u.external_id
      ≡ register
          (apply (remove m u.workspace u.source_module u.external_id at id).1 u).1
          u.workspace
          u.source_module
          u.external_id
apply-remove-commute m u at id before h =
    let (well, applied) = apply-register m u before in
    let (well', removed) =
      remove-register m u.workspace u.source_module u.external_id at id before in
    let one = remove-register (apply m u).1 u.workspace u.source_module u.external_id at id well in
    let two = apply-register (remove m u.workspace u.source_module u.external_id at id).1 u well' in
    one.1
    ∙ ap (λ s. newer s (at, none)) applied
    ∙ newer-commutes (register m u.workspace u.source_module u.external_id)
        (u.at, some (content_of u)) (at, none) h
    ∙ sym (two.1 ∙ ap (λ s. newer s (u.at, some (content_of u))) removed)
