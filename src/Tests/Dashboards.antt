-- ===== src/Tests/Dashboards.antt =====
-- Examples for the dashboard catalog of internal/dashboards.
use booth_catalog.Prelude.{
  ℕ, ◌≡◌, refl, arith, Bool, true, false, List, [], ◌∷◌, Option, none, some, map, All, list_eq,
  nat_eq,
}
use booth_catalog.Text.{Text, txt}
use booth_catalog.Asset.Error.{ok}
use booth_catalog.Dashboards.Model.{SourceType, Source, bare, Dashboard, Upsert, normalize}
use booth_catalog.Dashboards.Model
use booth_catalog.Dashboards.Model.Laws.{IsKept, IsAmong, IsShellPath, normalize-IsKept}
use booth_catalog.Dashboards.Store.{new_store, blank, apply, remove}
use booth_catalog.Dashboards.Store.Register.{
  IsWellFormed, new_store-IsWellFormed, register, newer, content_of,
}
use booth_catalog.Dashboards.Store.Newest.{apply-register, remove-register}
use booth_catalog.Dashboards.Service.{DatasetRef, DatasetResolver, Lineage, resolve}
use booth_catalog.Dashboards.Service
use booth_catalog.Dashboards.Service.Resolving.{IsHonest, resolve-IsHonest}

abbrev by_id : Source
by_id = record (bare SourceType.dataset) { dataset_id = txt "d1" }

abbrev outside : Source
outside = record (bare SourceType.external) { name = txt "t" }

abbrev upsert : Upsert
upsert = record {
  workspace = txt "w";
  source_module = txt "superset";
  external_id = txt "1";
  name = txt "n";
  description = [];
  owner = [];
  path = txt "/superset/1";
  lineage_complete = true;
  sources = by_id ∷ by_id ∷ bare SourceType.external ∷ [];
  at = 5000;
  new_id = [];
  received_at = 0;
}

abbrev accepted : Upsert
accepted = record upsert { lineage_complete = false; sources = by_id ∷ [] }

upsert_is_accepted : normalize upsert ≡ ok (accepted, 1)
unfolding normalize booth_catalog.Asset.Validation.valid_workspace booth_catalog.Regexp.matches
    booth_catalog.Regexp.up_to booth_catalog.Data.Upsert.module_re
    booth_catalog.Asset.Validation.text booth_catalog.Text.trim_space booth_catalog.Text.is_control
    booth_catalog.Prelude.list_beq Model.normalize_path booth_catalog.Text.byte_len
    booth_catalog.Text.has_prefix Model.keep_sources Model.keep_source Model.normalize_source
upsert_is_accepted = refl

-- The same source twice, and nothing that is dropped.
abbrev twice : Upsert
twice = record upsert { sources = by_id ∷ by_id ∷ [] }

abbrev once : Upsert
once = record upsert { sources = by_id ∷ [] }

twice_is_accepted : normalize twice ≡ ok (once, 0)
unfolding normalize booth_catalog.Asset.Validation.valid_workspace booth_catalog.Regexp.matches
    booth_catalog.Regexp.up_to booth_catalog.Data.Upsert.module_re
    booth_catalog.Asset.Validation.text booth_catalog.Text.trim_space booth_catalog.Text.is_control
    booth_catalog.Prelude.list_beq Model.normalize_path booth_catalog.Text.byte_len
    booth_catalog.Text.has_prefix Model.keep_sources Model.keep_source Model.normalize_source
twice_is_accepted = refl

normalize-IsKept_example :
    IsKept once.sources
    × IsShellPath once.path
    × (once.lineage_complete ≡ true
        → (twice.lineage_complete ≡ true) × All (IsAmong once.sources) twice.sources)
normalize-IsKept_example = normalize-IsKept twice once 0 twice_is_accepted

abbrev orders : DatasetRef
orders = record { id = txt "d1"; name = txt "orders" }

abbrev resolver : DatasetResolver
resolver = record { by_id = λ ws id. ok (some orders); by_location = λ ws l. ok [] }

abbrev board : Dashboard
board = record (blank (txt "b") (txt "w") (txt "superset") (txt "1") 5) {
  sources = by_id ∷ outside ∷ [];
}

abbrev lineage : Lineage
lineage = record {
  complete = false;
  sources =
      record { source = by_id; datasets = orders ∷ [] }
      ∷ record { source = outside; datasets = [] }
      ∷ [];
}

board_is_resolved : resolve resolver (txt "w") board ≡ ok lineage
unfolding resolve Service.resolve_all Service.datasets_of
board_is_resolved = refl

resolve-IsHonest_example :
    (map (λ x. x.source) lineage.sources ≡ board.sources)
    × All (IsHonest resolver (txt "w")) lineage.sources
    × (lineage.complete ≡ board.lineage_complete)
resolve-IsHonest_example = resolve-IsHonest resolver (txt "w") board lineage board_is_resolved

apply-register_example :
    IsWellFormed (apply new_store accepted).1
    × (register (apply new_store accepted).1 (txt "w") (txt "superset") (txt "1")
        ≡ newer
            (register new_store (txt "w") (txt "superset") (txt "1"))
            (5000, some (content_of accepted)))
apply-register_example = apply-register new_store accepted new_store-IsWellFormed

remove-register_example :
    IsWellFormed (remove new_store (txt "w") (txt "superset") (txt "1") 7 (txt "b")).1
    × (register
          (remove new_store (txt "w") (txt "superset") (txt "1") 7 (txt "b")).1
          (txt "w")
          (txt "superset")
          (txt "1")
        ≡ newer (register new_store (txt "w") (txt "superset") (txt "1")) (7, none))
remove-register_example =
    remove-register new_store (txt "w") (txt "superset") (txt "1") 7 (txt "b")
      new_store-IsWellFormed
