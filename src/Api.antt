-- ===== src/Api.antt =====
-- internal/api/server.go: requests, responses, and what the handlers share. A response is its status and
-- what its JSON body is about; the wording of an error is left out. The decoder of encoding/json is a
-- function that the model takes.
pub mod Reading
pub mod Writing
pub mod Router
pub mod Safety
pub mod Isolation
use booth_catalog.Prelude.{
  ℕ, zero, suc, ◌+◌, ◌*◌, Bool, true, false, List, [], ◌∷◌, ◌==◌, nat_eq, list_eq, ltb,
  if◌then◌else◌, case_option, Option, none, some, ℤ, pos, negsuc, ◌⊎◌, inl, inr,
}
use booth_catalog.Text.{Text, txt}
use booth_catalog.Text.Number.{atoi}
use booth_catalog.Asset.Actor.{Actor}
use booth_catalog.Asset.Error.{
  Error, not_found, exists, managed_externally, forbidden, invalid, failure, Result, ok, err, ◌>>=◌,
}
use booth_catalog.Asset.Paging.{Page}
use booth_catalog.Data.Model.{Dataset, TagCount}
use booth_catalog.Code.Model.{Entry, Version, VersionSummary}
use booth_catalog.Dashboards.Model.{Dashboard}
use booth_catalog.Dashboards.Service.{Lineage}
use booth_catalog.Search.{Answer}
use booth_catalog.Auth.{Identity}
use booth_catalog.Events.Transport.Session.{State}

abbrev pub max_json_body : ℕ
max_json_body = 524_288

-- The routes of the group that requires CanRead, and those of the group that requires CanWrite.
pub data ReadRoute : Type 0 where
  get_config search list_datasets list_tags list_code list_dashboards : ReadRoute
  get_dataset dataset_lineage get_code code_versions get_dashboard : Text → ReadRoute
  get_code_version : Text → Text → ReadRoute

pub data WriteRoute : Type 0 where
  create_dataset create_code : WriteRoute
  update_dataset delete_dataset update_code delete_code publish_code_version : Text → WriteRoute

pub data Route : Type 0 where
  reads : ReadRoute → Route
  writes : WriteRoute → Route

-- A query string: the values of each name, in their order.
abbrev pub Query : Type 0
Query = Text → List Text

-- q.Get
abbrev pub first_of : List Text → Text
first_of [] = []
first_of (v ∷ vs) = v

pub data Content : Type 0 where
  empty : Content
  -- the limit of a source, and the states of the three subscriptions; none is a disabled one
  config : ℕ → Option State → Option State → Option State → Content
  error_about : Text → Content
  answer : Answer → Content
  dataset : Dataset → Content
  datasets : Page Dataset → Content
  tags : List TagCount → Content
  entry : Entry → Content
  entries : Page Entry → Content
  versions : List VersionSummary → Content
  version : Version → Content
  summary : VersionSummary → Content
  dashboards : Page Dashboard → Content
  readers : List Dashboard → Content
  dashboard : Dashboard → Lineage → Content

pub record Response : Type 0 where
  pub status : ℕ
  pub content : Content

-- resource: which field a conflict is about.
abbrev pub Resource : Type 0
Resource = Text

abbrev pub dataset_resource : Resource
dataset_resource = txt "name"

abbrev pub code_resource : Resource
code_resource = txt "name"

abbrev pub version_resource : Resource
version_resource = txt "version"

abbrev pub dashboard_resource : Resource
dashboard_resource = []

-- An error that is no validation error and has no name of its own is context.Canceled, or any other.
abbrev pub canceled : Text
canceled = txt "context canceled"

abbrev pub reply : ℕ → Content → Response
reply status content = record { status = status; content = content }

abbrev pub write_failure : Error → Resource → Response
write_failure (invalid field) res = reply 422 (error_about field)
write_failure not_found res = reply 404 (error_about [])
write_failure exists res = reply 409 (error_about res)
write_failure managed_externally res = reply 409 (error_about [])
write_failure forbidden res = reply 403 (error_about [])
write_failure (failure why) res =
    if why == canceled then reply 499 empty else reply 500 (error_about [])

abbrev pub write_error : Error → Response
write_error e = write_failure e []

-- `if err != nil { writeFailure(…); return }`
abbrev pub respond : {A : Type 0} → Resource → ℕ → (A → Content) → Result A → Response
respond res status f (ok a) = reply status (f a)
respond res status f (err e) = write_failure e res

-- The number that a parameter gives, where it is present: it is refused below the least.
abbrev pub number_from : ℕ → Text → Option ℤ → Result ℤ
number_from least field none = err (invalid field)
number_from least field (some (negsuc n)) = err (invalid field)
number_from least field (some (pos n)) = if ltb n least then err (invalid field) else ok (pos n)

abbrev pub parameter : ℕ → Text → List Text → Result ℤ
parameter least field [] = ok (pos 0)
parameter least field (v ∷ vs) = number_from least field (atoi v)

unfoldable pub paging : Query → Result (ℤ × ℤ)
paging q = do
  limit ← parameter 1 (txt "limit") (q (txt "limit"))
  offset ← parameter 0 (txt "offset") (q (txt "offset"))
  ok (limit, offset)

-- What a decoder makes of a body of at most so many bytes.
pub data Decoded (T : Type 0) : Type 0 where
  too_large malformed : Decoded T
  decoded : T → Decoded T

abbrev pub Body : Type 0
Body = List ℕ

abbrev pub Decoder : Type 0 → Type 0
Decoder T = ℕ → Body → Decoded T

-- `if !decodeBody(…) { return }`, in a handler of a state.
abbrev pub with_body : {T S : Type 0} → S → Decoded T → (T → Response × S) → Response × S
with_body s too_large f = (reply 413 (error_about []), s)
with_body s malformed f = (reply 400 (error_about []), s)
with_body s (decoded x) f = f x

abbrev pub actor : Identity → Actor
actor id = record { subject = id.subject; display_name = id.display_name }

-- codeBodyLimit
abbrev pub code_body_limit : ℕ → ℕ
code_body_limit max_source = max_source * 6 + 65_536
