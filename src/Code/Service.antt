-- ===== src/Code/Service.antt =====
-- internal/code/service.go over the in-memory store; the clock and asset.NewID are arguments.
pub mod Latest
pub mod Errors
pub mod Placed
use booth_catalog.Prelude.{
  ℕ, Bool, true, false, not, List, [], ◌==◌, leb, nat_eq, list_eq, if◌then◌else◌, case_option,
  Option, none, some, ℤ, pos, negsuc, ◌*◌,
}
use booth_catalog.Text.{Text, txt, Casing}
use booth_catalog.Asset.Actor.{Actor}
use booth_catalog.Asset.Error.{Result, ok, err, not_found, ◌>>=◌, ◌>>◌, refuse_if, with_value}
use booth_catalog.Asset.Validation.{valid_workspace}
use booth_catalog.Data.Model.{Time}
use booth_catalog.Data.Service.{or_else}
use booth_catalog.Code.Model.{
  VersionSummary, Version, Entry, EntryInput, VersionInput, latest_version, normalize_version,
  normalize_entry,
}
use booth_catalog.Code.Store.{MemoryStore}
use booth_catalog.Code.Store

abbrev pub default_max_source_bytes : ℕ
default_max_source_bytes = 1_048_576

-- NewService: zero or a negative number means the default.
unfoldable pub max_source_of : ℤ → ℕ
max_source_of (pos n) = if n == 0 then default_max_source_bytes else n
max_source_of (negsuc n) = default_max_source_bytes

-- A Version as the service makes it: the store gives the sequence number and the size.
abbrev pub unnumbered : VersionInput → Text → Time → Version
unnumbered i by now = record {
  summary = record {
    version = i.version;
    seq_no = 0;
    notes = i.notes;
    size_bytes = 0;
    published_by = by;
    published_at = now;
  };
  source = i.source;
}

abbrev pub new_entry : Text → Text → Actor → Time → EntryInput → Entry
new_entry id ws actor now i = record {
  id = id;
  workspace = ws;
  name = i.name;
  description = i.description;
  owner = or_else i.owner actor.display_name;
  language = i.language;
  created_by = actor.subject;
  created_at = now;
  updated_at = now;
  latest = none;
  version_count = 0;
}

abbrev pub edited : Entry → Time → EntryInput → Entry
edited cur now i = record cur {
  name = i.name;
  description = i.description;
  owner = or_else i.owner cur.owner;
  language = i.language;
  updated_at = now;
}

-- A write, and the entry as it is read back.
abbrev pub read_back : Text → Text → Result (Unit {0}) × MemoryStore → Result Entry × MemoryStore
read_back ws id r = (r.0 >> Store.get r.1 ws id, r.1)

unfoldable pub publish :
    ℕ → MemoryStore → Text → Actor → Text → VersionInput → Time → Result Version × MemoryStore
publish max_source m ws actor entry_id i now =
    with_value m (normalize_version max_source i)
      (λ i. Store.add_version m ws entry_id (unnumbered i actor.display_name now))

-- The label of the most recently published version.
unfoldable pub latest_label : MemoryStore → Text → Text → Result Text
latest_label m ws entry_id = do
  e ← Store.get m ws entry_id
  case_option e.latest (err not_found) (λ v. ok v.version)

unfoldable pub get_version : MemoryStore → Text → Text → Text → Result Version
get_version m ws entry_id version =
    if version == latest_version
    then latest_label m ws entry_id >>= (λ label. Store.get_version m ws entry_id label)
    else Store.get_version m ws entry_id version

module _ ⦃u : Casing⦄ where
  -- The validation that Create begins with.
  abbrev pub checked_create :
      ℕ → Text → EntryInput → VersionInput → Result (EntryInput × VersionInput)
  checked_create max_source ws entry version = do
    refuse_if (not (valid_workspace ws)) (txt "workspace")
    e ← normalize_entry entry
    v ← normalize_version max_source version
    ok (e, v)

  unfoldable pub create :
      ℕ
      → MemoryStore
      → Text
      → Actor
      → EntryInput
      → VersionInput
      → Text
      → Time
      → Result Entry × MemoryStore
  create max_source m ws actor entry version new_id now =
      with_value m (checked_create max_source ws entry version) (λ (e, v).
        read_back ws new_id
          (Store.create m (new_entry new_id ws actor now e) (unnumbered v actor.display_name now)))

  unfoldable pub update : MemoryStore → Text → Text → EntryInput → Time → Result Entry × MemoryStore
  update m ws id i now = with_value m (normalize_entry i) (λ i.
      with_value m (Store.get m ws id) (λ cur. read_back ws id (Store.update m (edited cur now i))))
