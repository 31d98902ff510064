-- ===== src/System/Reached.antt =====
-- The catalogs that a run of the program leads to.
use booth_catalog.Prelude.{ℤ, nat_eq, list_eq, ◌⊎◌, Option}
use booth_catalog.Text.{Text, Casing}
use booth_catalog.Data.Store.Reach as Reach
use booth_catalog.Code.Store.Placed.{new_store-IsPlaced}
use booth_catalog.Dashboards.Store.Register as Register
use booth_catalog.Dashboards.Service.Sourced.{new_store-HasCanonicalSources}
use booth_catalog.App.{Services, new_memory}
use booth_catalog.Auth.{Claims}
use booth_catalog.Api.Reading.{Subscriptions}
use booth_catalog.Api.Writing.{Decoders}
use booth_catalog.Events.{Payload, Envelope}
use booth_catalog.System.{
  Step, serves, handles_dashboard, handles_table, handles_database_table, Reachable, start, step,
}
use booth_catalog.System.Requests.{IsSound, data-IsSound, serve-IsSound}
use booth_catalog.System.Messages.{
  handle_table-IsWellFormed, handle_database_table-IsWellFormed, handle_dashboard-IsKept,
}

new_memory-IsSound : (max_source : ℤ) → IsSound (new_memory max_source)
new_memory-IsSound max_source = record {
  datasets = Reach.new_store-IsWellFormed;
  entries = new_store-IsPlaced;
  boards = Register.new_store-IsWellFormed;
  sources = new_store-HasCanonicalSources;
}

module _ ⦃u : Casing⦄ (dec : Decoders) (subs : Subscriptions) (verify : Text → Option Claims)
    (decode_envelope : Payload → Text ⊎ Envelope) where
  Step-IsSound :
      (s s' : Services) → IsSound s → Step dec subs verify decode_envelope s s' → IsSound s'
  Step-IsSound s _ sound (serves r new_id now new) =
      serve-IsSound s sound dec subs new_id now new verify r
  Step-IsSound s _ sound (handles_dashboard decode subject p new_id now) =
      let (boards, sources) =
        handle_dashboard-IsKept new_id now decode_envelope subject p s.boards
          (sound.boards, sound.sources) decode in
      record {
        datasets = sound.datasets;
        entries = sound.entries;
        boards = boards;
        sources = sources;
      }
  Step-IsSound s _ sound (handles_table decode subject p new_id now new) = data-IsSound s sound _ (
      handle_table-IsWellFormed new_id now decode_envelope subject p s.datasets sound.datasets new
        decode)
  Step-IsSound s _ sound (handles_database_table decode subject p new_id now new) =
      data-IsSound s sound _ (
        handle_database_table-IsWellFormed new_id now decode_envelope subject p s.datasets
          sound.datasets new decode)

  -- Requests and messages in any order, on catalogs that began empty, leave the catalogs sound: datasets and
  -- dashboards well formed, code entries under their own ID and workspace, and the locations that
  -- dashboards read canonical, given that the IDs that requests and table messages draw are in no
  -- workspace an ID of a dataset, and not empty.
  pub Reached-IsSound : (s : Services) → Reachable dec subs verify decode_envelope s → IsSound s
  Reached-IsSound _ (start max_source) = new_memory-IsSound max_source
  Reached-IsSound s' (step {s} r x) = Step-IsSound s s' (Reached-IsSound s r) x
