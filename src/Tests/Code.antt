-- ===== src/Tests/Code.antt =====
-- Examples for the code registry of internal/code.
use booth_catalog.Prelude.{
  ℕ, ◌≡◌, ◌≢◌, refl, Bool, true, false, List, [], ◌∷◌, Option, list_eq, nat_eq,
}
use booth_catalog.Prelude
use booth_catalog.Prelude.GoMap
use booth_catalog.Text.{Text, txt}
use booth_catalog.Text
use booth_catalog.Regexp
use booth_catalog.Asset.Actor.{Actor}
use booth_catalog.Asset.Error.{ok}
use booth_catalog.Asset.Validation
use booth_catalog.Code.Model.{Version, Entry, VersionInput, latest_version}
use booth_catalog.Code.Model
use booth_catalog.Code.Store.{
  MemoryStore, new_store, find, numbered, create, add_version, get_version, get,
}
use booth_catalog.Code.Store
use booth_catalog.Code.Store.Laws.{add_version-keeps}
use booth_catalog.Code.Store.Reach.{IsSound, start, step, creates, adds, Reachable-IsSound}
use booth_catalog.Code.Service.{publish, unnumbered}
use booth_catalog.Code.Service
use booth_catalog.Code.Service.Latest.{publish-latest}
use booth_catalog.Tests.Ascii.{ascii}

abbrev anna : Actor
anna = record { subject = txt "u1"; display_name = txt "anna" }

abbrev of_label : Text → VersionInput
of_label label = record { version = label; source = txt "x"; notes = [] }

abbrev entry : Entry
entry =
    Service.new_entry (txt "e") (txt "w") anna 5
      (record { name = txt "f"; description = []; owner = []; language = [] })

abbrev one : MemoryStore
one = (create new_store entry (unnumbered (of_label (txt "1")) (txt "anna") 5)).1

abbrev second : Version
second = unnumbered (of_label (txt "2")) (txt "anna") 7

abbrev first : Version
first = numbered 1 (unnumbered (of_label (txt "1")) (txt "anna") 5)

first_is_there : get_version one (txt "w") (txt "e") (txt "1") ≡ ok first
unfolding create get_version find Store.name_taken GoMap.get GoMap.put Text.byte_len Text.bytes
    Text.encode Prelude.list_beq
first_is_there = refl

add_version-keeps_example :
    get_version (add_version one (txt "w") (txt "e") second).1 (txt "w") (txt "e") (txt "1")
    ≡ ok first
add_version-keeps_example =
    add_version-keeps one (txt "w") (txt "e") (txt "1") second first first_is_there

Reachable-IsSound_example : IsSound (add_version one (txt "w") (txt "e") second).1
Reachable-IsSound_example = Reachable-IsSound (add_version one (txt "w") (txt "e") second).1 (
    step (step start (creates entry (unnumbered (of_label (txt "1")) (txt "anna") 5)))
      (adds (txt "w") (txt "e") second))

second_is_published :
    (publish 100 one (txt "w") anna (txt "e") (of_label (txt "2")) 7).0 ≡ ok (numbered 2 second)
unfolding publish create add_version find Store.name_taken GoMap.get GoMap.put Text.byte_len
    Text.bytes Text.encode Model.normalize_version Prelude.list_beq Text.trim_space Regexp.matches
    Regexp.up_to Validation.text
second_is_published = refl

publish-latest_example :
    (Service.get_version
        (publish 100 one (txt "w") anna (txt "e") (of_label (txt "2")) 7).1
        (txt "w")
        (txt "e")
        latest_version
      ≡ ok (numbered 2 second))
    × (Service.get_version
          (publish 100 one (txt "w") anna (txt "e") (of_label (txt "2")) 7).1
          (txt "w")
          (txt "e")
          (txt "2")
        ≡ ok (numbered 2 second))
publish-latest_example =
    publish-latest 100 one (txt "w") anna (txt "e") (of_label (txt "2")) 7 (numbered 2 second)
      second_is_published
