-- ===== src/Events/Subjects.antt =====
-- The subjects of events (internal/events): booth.<workspace>.<event type>.
use booth_catalog.Prelude.{
  true, all, list_beq, List, [], ◌∷◌, ◌++◌, ◌==◌, eq_iff, nat_eq, list_eq, some, ◌⊎◌, inl, inr, ◌≡◌,
  ◌↔◌, refl, sym, ap, ◌∙◌, arith, Bool-cases,
}
use booth_catalog.Text.{Text, txt, split, join}
use booth_catalog.Text.Split.{join-split, split-append}
use booth_catalog.Asset.Validation.{slug_char, valid_workspace}
use booth_catalog.Asset.Validation.Laws.{valid_workspace_iff}
use booth_catalog.Events.{lifecycle_event}
use booth_catalog.Events.Dashboards
use booth_catalog.Events.Dashboards.{parse_subject}
use booth_catalog.Events.Tables
use booth_catalog.Events.Tables.{parse_table_subject}
use booth_catalog.Events.DatabaseTables
use booth_catalog.Events.DatabaseTables.{parse_database_table_subject}

-- booth.<workspace>.<event type>
abbrev pub subject_of : Text → Text → Text
subject_of ws et = txt "booth." ++ (ws ++ b'.' ∷ et)

abbrev pub IsOneOf : Text → Text → Text → Text → Type 0
IsOneOf a b c et = (et ≡ a) ⊎ ((et ≡ b) ⊎ (et ≡ c))

split_slug : (s : Text) → all slug_char s ≡ true → split b'.' s ≡ s ∷ []
unfolding split
split_slug [] h = refl
split_slug (c ∷ s) h = rw (split_slug s (ground arith)) (ground arith)

-- The parts of such a subject.
subject_of-split :
    (ws et : Text)
    → valid_workspace ws ≡ true
    → split b'.' (subject_of ws et) ≡ txt "booth" ∷ ws ∷ split b'.' et
unfolding split
subject_of-split ws et h =
    split-append b'.' (txt "booth") (ws ++ b'.' ∷ et)
    ∙ ap (λ l. txt "booth" ∷ l)
        (split-append b'.' ws et
          ∙ ap (λ l. l ++ split b'.' et) (split_slug ws ((valid_workspace_iff ws).0 h).0))

lifecycle_sound :
    (a b c ws et ws' et' : Text)
    → lifecycle_event a b c ws et ≡ some (ws', et')
    → (ws' ≡ ws) × (et' ≡ et) × IsOneOf a b c et'
lifecycle_sound a b c ws et ws' et' h = elim (Bool-cases (et == a)) [
  | inl p ↦ (ground arith, ground arith, inl (ground (arith, eq_iff et a)))
  | inr p ↦ elim (Bool-cases (et == b)) [
    | inl q ↦ (ground arith, ground arith, inr (inl (ground (arith, eq_iff et b))))
    | inr q ↦ (ground arith, ground arith, inr (inr (ground (arith, eq_iff et c))))
  ]
]

-- What a parser's parts say of the whole subject.
from_parts :
    (s ws et tail : Text) (ps : List Text)
    → split b'.' s ≡ ps
    → join (b'.' ∷ []) ps ≡ subject_of ws tail
    → et ≡ tail
    → s ≡ subject_of ws et
from_parts s ws et tail ps e j t =
    sym (join-split b'.' s) ∙ ap (join (b'.' ∷ [])) e ∙ j ∙ ap (subject_of ws) (sym t)

dashboard_parts :
    (s ws et : Text) (ps : List Text)
    → split b'.' s ≡ ps
    → Dashboards.subject_parts ps ≡ some (ws, et)
    → (s ≡ subject_of ws et)
      × IsOneOf Dashboards.event_created Dashboards.event_updated Dashboards.event_deleted et
unfolding join
dashboard_parts s ws et (b ∷ w ∷ f ∷ v ∷ []) e h =
    let p : b ≡ txt "booth" = ground (arith, eq_iff b (txt "booth")) in
    let q : f ≡ txt "dashboard" = ground (arith, eq_iff f (txt "dashboard")) in
    let (r, t, is) =
      lifecycle_sound Dashboards.event_created Dashboards.event_updated Dashboards.event_deleted w
        (txt "dashboard." ++ v) ws et (ground (arith)) in
    (from_parts s ws et (txt "dashboard." ++ v) (b ∷ w ∷ f ∷ v ∷ []) e (rw (p, q, r) refl) t, is)
dashboard_parts s ws et _ e h = absurd (ground arith)

table_parts :
    (s ws et : Text) (ps : List Text)
    → split b'.' s ≡ ps
    → Tables.subject_parts ps ≡ some (ws, et)
    → (s ≡ subject_of ws et)
      × IsOneOf Tables.event_created Tables.event_updated Tables.event_deleted et
unfolding join
table_parts s ws et (b ∷ w ∷ f ∷ v ∷ []) e h =
    let p : b ≡ txt "booth" = ground (arith, eq_iff b (txt "booth")) in
    let q : f ≡ txt "table" = ground (arith, eq_iff f (txt "table")) in
    let (r, t, is) =
      lifecycle_sound Tables.event_created Tables.event_updated Tables.event_deleted w
        (txt "table." ++ v) ws et (ground arith) in
    (from_parts s ws et (txt "table." ++ v) (b ∷ w ∷ f ∷ v ∷ []) e (rw (p, q, r) refl) t, is)
table_parts s ws et _ e h = absurd (ground arith)

database_parts :
    (s ws et : Text) (ps : List Text)
    → split b'.' s ≡ ps
    → DatabaseTables.subject_parts ps ≡ some (ws, et)
    → (s ≡ subject_of ws et)
      × IsOneOf DatabaseTables.event_created DatabaseTables.event_updated
          DatabaseTables.event_deleted et
unfolding join
database_parts s ws et (b ∷ w ∷ f ∷ k ∷ v ∷ []) e h =
    let p : b ≡ txt "booth" = ground (arith, eq_iff b (txt "booth")) in
    let q : f ≡ txt "database" = ground (arith, eq_iff f (txt "database")) in
    let o : k ≡ txt "table" = ground (arith, eq_iff k (txt "table")) in
    let (r, t, is) =
      lifecycle_sound DatabaseTables.event_created DatabaseTables.event_updated
        DatabaseTables.event_deleted w (txt "database.table." ++ v) ws et (ground arith) in
    (
      from_parts s ws et (txt "database.table." ++ v) (b ∷ w ∷ f ∷ k ∷ v ∷ []) e
          (rw (p, q, o, r) refl) t,
      is,
    )
database_parts s ws et _ e h = absurd (ground arith)

dashboard_whole :
    (ws t : Text)
    → IsOneOf Dashboards.event_created Dashboards.event_updated Dashboards.event_deleted t
    → Dashboards.subject_parts (txt "booth" ∷ ws ∷ split b'.' t) ≡ some (ws, t)
unfolding split list_beq
dashboard_whole ws t (inl e) = rw e refl
dashboard_whole ws t (inr (inl e)) = rw e refl
dashboard_whole ws t (inr (inr e)) = rw e refl

table_whole :
    (ws t : Text)
    → IsOneOf Tables.event_created Tables.event_updated Tables.event_deleted t
    → Tables.subject_parts (txt "booth" ∷ ws ∷ split b'.' t) ≡ some (ws, t)
unfolding split list_beq
table_whole ws t (inl e) = rw e refl
table_whole ws t (inr (inl e)) = rw e refl
table_whole ws t (inr (inr e)) = rw e refl

database_whole :
    (ws t : Text)
    → IsOneOf DatabaseTables.event_created DatabaseTables.event_updated DatabaseTables.event_deleted
        t
    → DatabaseTables.subject_parts (txt "booth" ∷ ws ∷ split b'.' t) ≡ some (ws, t)
unfolding split list_beq
database_whole ws t (inl e) = rw e refl
database_whole ws t (inr (inl e)) = rw e refl
database_whole ws t (inr (inr e)) = rw e refl

-- In a valid workspace, each parser accepts exactly the subjects booth.<workspace>.<event type> of its
-- own three event types, and reads the workspace and the event type back from them.
pub parse_subject_iff :
    (s ws et : Text)
    → valid_workspace ws ≡ true
    → ((parse_subject s ≡ some (ws, et)) ↔ (
        (s ≡ subject_of ws et)
        × IsOneOf (txt "dashboard.created") (txt "dashboard.updated") (txt "dashboard.deleted") et))
      × ((parse_table_subject s ≡ some (ws, et)) ↔ (
          (s ≡ subject_of ws et)
          × IsOneOf (txt "table.created") (txt "table.updated") (txt "table.deleted") et))
      × ((parse_database_table_subject s ≡ some (ws, et)) ↔ (
          (s ≡ subject_of ws et)
          × IsOneOf
              (txt "database.table.created")
              (txt "database.table.updated")
              (txt "database.table.deleted")
              et))
unfolding parse_subject parse_table_subject parse_database_table_subject
parse_subject_iff s ws et h = (
  (
    dashboard_parts s ws et (split b'.' s) refl,
    λ (e, is).
        ap parse_subject e
        ∙ ap Dashboards.subject_parts (subject_of-split ws et h)
        ∙ dashboard_whole ws et is,
  ),
  (
    table_parts s ws et (split b'.' s) refl,
    λ (e, is).
        ap parse_table_subject e
        ∙ ap Tables.subject_parts (subject_of-split ws et h)
        ∙ table_whole ws et is,
  ),
  (
    database_parts s ws et (split b'.' s) refl,
    λ (e, is).
        ap parse_database_table_subject e
        ∙ ap DatabaseTables.subject_parts (subject_of-split ws et h)
        ∙ database_whole ws et is,
  ),
)
