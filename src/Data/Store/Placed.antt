-- ===== src/Data/Store/Placed.antt =====
-- Where the rows of internal/data/memory.go stand.
use booth_catalog.Prelude.{nat_eq, list_eq, some, ◌≡◌}
use booth_catalog.Prelude.GoMap
use booth_catalog.Text.{Text}
use booth_catalog.Data.Model.{Dataset}
use booth_catalog.Data.Store.{MemoryStore}

-- Every row stands under its own ID, in its own workspace.
abbrev pub IsPlaced : MemoryStore → Type 0
IsPlaced m =
    (ws id : Text) (d : Dataset)
    → GoMap.get id (m.by_ws ws) ≡ some d
    → (d.id ≡ id) × (d.workspace ≡ ws)
