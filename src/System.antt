-- ===== src/System.antt =====
-- The program over its in-memory catalogs: the requests of internal/api and the messages of
-- internal/events, each one whole, in any order. The IDs that asset.NewID draws are new.
pub mod Requests
pub mod Messages
pub mod Reached
use booth_catalog.Prelude.{ℤ, Option, ◌⊎◌}
use booth_catalog.Text.{Text, Casing}
use booth_catalog.Data.Model.{Time}
use booth_catalog.Data.Store as DataStore
use booth_catalog.Data.Store.Reach.{IsNew}
use booth_catalog.App.{Services, new_memory}
use booth_catalog.Auth.{Claims}
use booth_catalog.Api.Reading.{Subscriptions}
use booth_catalog.Api.Writing.{Decoders}
use booth_catalog.Api.Router.{Request, serve}
use booth_catalog.Events.{Payload, Envelope}
use booth_catalog.Events.Dashboards
use booth_catalog.Events.Tables
use booth_catalog.Events.DatabaseTables

-- An ID that no workspace has.
abbrev pub IsUnused : Text → DataStore.MemoryStore → Type 0
IsUnused id m = (ws : Text) → IsNew m ws id

module _ ⦃u : Casing⦄ (dec : Decoders) (subs : Subscriptions) (verify : Text → Option Claims)
    (decode_envelope : Payload → Text ⊎ Envelope) where
  pub data Step : Services → Services → Type 0 where
    serves :
        {s : Services} (r : Request) (new_id : Text) (now : Time)
        → IsUnused new_id s.datasets
        → Step s (serve dec subs s verify r new_id now).1
    handles_dashboard :
        {s : Services} (decode : Payload → Text ⊎ Dashboards.DashboardData) (subject : Text)
        (p : Payload) (new_id : Text) (now : Time)
        → Step s (record s {
          boards =
              (Dashboards.handle
                (Dashboards.memory_catalog new_id now)
                decode_envelope
                decode
                s.boards
                subject
                p).1;
        })
    handles_table :
        {s : Services} (decode : Payload → Text ⊎ Tables.TableData) (subject : Text) (p : Payload)
        (new_id : Text) (now : Time)
        → IsUnused new_id s.datasets
        → Step s (record s {
          datasets =
              (Tables.handle
                (Tables.memory_catalog new_id now)
                decode_envelope
                decode
                s.datasets
                subject
                p).1;
        })
    handles_database_table :
        {s : Services} (decode : Payload → Text ⊎ DatabaseTables.DatabaseTableData) (subject : Text)
        (p : Payload) (new_id : Text) (now : Time)
        → IsUnused new_id s.datasets
        → Step s (record s {
          datasets =
              (DatabaseTables.handle
                (DatabaseTables.memory_catalog new_id now)
                decode_envelope
                decode
                s.datasets
                subject
                p).1;
        })

  pub data Reachable : Services → Type 0 where
    start : (max_source : ℤ) → Reachable (new_memory max_source)
    step : {s s' : Services} → Reachable s → Step s s' → Reachable s'
