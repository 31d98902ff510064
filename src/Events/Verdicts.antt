-- ===== src/Events/Verdicts.antt =====
-- What the processors acknowledge, retry and drop (internal/events), over the in-memory catalogs.
use booth_catalog.Prelude.{Bool, true, false, nat_eq, list_eq, Option, ◌⊎◌, ◌≡◌, ◌↔◌, refl, arith}
use booth_catalog.Text.{Text}
use booth_catalog.Asset.Error.{Result, ok, err, invalid, exists}
use booth_catalog.Events.Accepting.{IsEvent, read-IsEvent, IsEvent-read}
use booth_catalog.Events.Dashboards
use booth_catalog.Events.Dashboards.{parse_subject}
use booth_catalog.Events.Tables
use booth_catalog.Events.Tables.{parse_table_subject}
use booth_catalog.Events.DatabaseTables
use booth_catalog.Events.DatabaseTables.{parse_database_table_subject}
use booth_catalog.Events.{
  Verdict, Payload, Envelope, Reading, accepted, refused, read, verdict_on, table_verdict_on,
  settle,
}

-- Of a `switch` on the catalog's answer: only `true` counts as applied.
abbrev pub IsFaithful : (Text → Text → Result Bool → Verdict) → Type 0
IsFaithful verdict =
    (et publisher : Text) (r : Result Bool)
    → ((verdict et publisher r).applied ≡ true) ↔ (r ≡ ok true)

verdict_on-IsFaithful : IsFaithful verdict_on
verdict_on-IsFaithful et p (err (invalid field)) = ground arith
verdict_on-IsFaithful et p (err e) = ground arith
verdict_on-IsFaithful et p (ok true) = ground arith
verdict_on-IsFaithful et p (ok false) = ground arith

table_verdict_on-IsFaithful : IsFaithful table_verdict_on
table_verdict_on-IsFaithful et p (err exists) = ground arith
table_verdict_on-IsFaithful et p (err e) = ground arith
table_verdict_on-IsFaithful et p (ok b) = verdict_on-IsFaithful et p (ok b)

module _ {D S : Type 0} (decode_data : Payload → Text ⊎ D) (parse : Text → Option (Text × Text))
    (decode_envelope : Payload → Text ⊎ Envelope)
    (call : S → Text → Text → Envelope → D → Result Bool × S) (s : S) (subject : Text)
    (payload : Payload) where
  -- An event, which the catalog says it applied, leaving this state.
  abbrev pub IsAppliedEvent : S → Type 0
  IsAppliedEvent after =
      (ws : Text) × (et : Text) × (env : Envelope) × (d : D) × IsEvent decode_data parse
        decode_envelope subject payload ws et env d
      × (call s ws et env d ≡ (ok true, after))

  settle-IsAppliedEvent :
      (verdict : Text → Text → Result Bool → Verdict) (after : S) (r : Reading D)
      → IsFaithful verdict
      → read decode_data parse decode_envelope subject payload ≡ r
      → (((settle verdict call s r).0.applied ≡ true) × ((settle verdict call s r).1 ≡ after))
        ↔ IsAppliedEvent after
  settle-IsAppliedEvent verdict after (refused why) f p = (
    λ h. absurd (ground arith),
    λ (ws, et, env, d, is, c). absurd (
        ground
          (arith, IsEvent-read decode_data parse decode_envelope subject payload ws et env d is)),
  )
  settle-IsAppliedEvent verdict after (accepted ws et env d) f p = (
    λ h. (
      ws,
      et,
      env,
      d,
      read-IsEvent decode_data parse decode_envelope subject payload ws et env d p,
      ground (arith, f et env.published_by (call s ws et env d).0),
    ),
    λ (ws', et', env', d', is, c). ground (
      arith,
      IsEvent-read decode_data parse decode_envelope subject payload ws' et' env' d' is,
      f et env.published_by (call s ws et env d).0,
    ),
  )

-- The processor says that it applied the message and leaves this state, or neither that nor an event that
-- the catalog says it applied so.
abbrev pub IsExact :
    {D S : Type 0}
    → Verdict × S
    → (Payload → Text ⊎ D)
    → (Text → Option (Text × Text))
    → (Payload → Text ⊎ Envelope)
    → (S → Text → Text → Envelope → D → Result Bool × S)
    → S
    → Text
    → Payload
    → S
    → Type 0
IsExact r decode parse envelope call s subject payload after =
    ((r.0.applied ≡ true) × (r.1 ≡ after))
    ↔ IsAppliedEvent decode parse envelope call s subject payload after

-- Over any catalog, each processor says that it applied a message, and leaves a state, exactly where
-- the subject names a valid workspace and an event type, the payload is an envelope that agrees with
-- both and whose data decodes, and the catalog's call for that event answers true and leaves that state.
pub handle_applied_iff :
    {S T : Type 0} (c : Dashboards.DashboardCatalog S) (t : Tables.TableCatalog T)
    (p : DatabaseTables.DatabaseTableCatalog T) (envelope : Payload → Text ⊎ Envelope)
    (dashboard : Payload → Text ⊎ Dashboards.DashboardData)
    (table : Payload → Text ⊎ Tables.TableData)
    (database_table : Payload → Text ⊎ DatabaseTables.DatabaseTableData) (s after : S)
    (s' after' : T) (subject : Text) (payload : Payload)
    → IsExact
        (Dashboards.handle c envelope dashboard s subject payload)
        dashboard
        parse_subject
        envelope
        (Dashboards.call c)
        s
        subject
        payload
        after
      × IsExact
          (Tables.handle t envelope table s' subject payload)
          table
          parse_table_subject
          envelope
          (Tables.call t)
          s'
          subject
          payload
          after'
      × IsExact
          (DatabaseTables.handle p envelope database_table s' subject payload)
          database_table
          parse_database_table_subject
          envelope
          (DatabaseTables.call p)
          s'
          subject
          payload
          after'
unfolding Dashboards.handle Tables.handle DatabaseTables.handle
handle_applied_iff c t p envelope dashboard table database_table s after s' after' subject payload =
    (
      settle-IsAppliedEvent dashboard parse_subject envelope (Dashboards.call c) s subject payload
          verdict_on after _ verdict_on-IsFaithful refl,
      settle-IsAppliedEvent table parse_table_subject envelope (Tables.call t) s' subject payload
          table_verdict_on after' _ table_verdict_on-IsFaithful refl,
      settle-IsAppliedEvent database_table parse_database_table_subject envelope
          (DatabaseTables.call p) s' subject payload table_verdict_on after' _
          table_verdict_on-IsFaithful refl,
    )
