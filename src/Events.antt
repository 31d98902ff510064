-- ===== src/Events.antt =====
-- What the three processors of internal/events share: the verdict on a message, the envelope, and the
-- reading of a message (processor.go, repeated in tables.go and database_tables.go). The decoders of
-- encoding/json are functions that the model takes; each answers a value or an error's text.
pub mod Accepting
pub mod Transport
pub mod Convergence
pub mod Registers
pub mod Final
pub mod Settling
pub mod Validating
pub mod Verdicts
pub mod Subjects
pub mod Dashboards
pub mod Tables
pub mod DatabaseTables
use booth_catalog.Prelude.{
  ℕ, Bool, true, false, not, ◌||◌, List, [], ◌∷◌, ◌++◌, ◌==◌, nat_eq, list_eq, if◌then◌else◌,
  case_option, Option, none, some, ◌⊎◌, inl, inr,
}
use booth_catalog.Text.{Text, txt}
use booth_catalog.Asset.Error.{Error, Result, ok, err, invalid, exists}
use booth_catalog.Asset.Validation.{valid_workspace}
use booth_catalog.Data.Model.{Time}

pub data Action : Type 0 where
  ack retry drop : Action

-- The formatted reasons of the source, each with what its text names.
pub data Reason : Type 0 where
  unset stale : Reason
  not_lifecycle invalid_workspace : Text → Reason
  malformed_envelope : Text → Reason
  workspace_mismatch event_type_mismatch : Text → Text → Reason
  malformed_data : Text → Text → Reason
  invalid_event : Text → Text → Text → Reason
  name_collision : Text → Text → Reason
  transient : Error → Reason

-- events.Result
pub record Verdict : Type 0 where
  pub action : Action
  pub reason : Reason
  pub applied : Bool

abbrev pub dropped : Reason → Verdict
dropped why = record { action = drop; reason = why; applied = false }

-- What JSON a message carries is left as its bytes.
abbrev pub Payload : Type 0
Payload = List ℕ

pub record Envelope : Type 0 where
  pub workspace : Text
  pub event_type : Text
  pub published_at : Time
  pub published_by : Text
  pub payload : Payload

-- The `switch` on an event type that ends each parser of subjects.
abbrev pub lifecycle_event : Text → Text → Text → Text → Text → Option (Text × Text)
lifecycle_event created updated deleted ws et =
    if et == created || et == updated || et == deleted then some (ws, et) else none

-- How far a Handle gets before it calls the catalog.
pub data Reading (D : Type 0) : Type 0 where
  refused : Reason → Reading D
  accepted : Text → Text → Envelope → D → Reading D

module _ {D : Type 0} (decode_data : Payload → Text ⊎ D) where
  abbrev pub read_data : Text → Text → Envelope → Text ⊎ D → Reading D
  read_data ws et env (inl why) = refused (malformed_data et why)
  read_data ws et env (inr d) = accepted ws et env d

  abbrev pub read_envelope : Text → Text → Text ⊎ Envelope → Reading D
  read_envelope ws et (inl why) = refused (malformed_envelope why)
  read_envelope ws et (inr env) =
      if not (env.workspace == ws)
      then refused (workspace_mismatch env.workspace ws)
      else if not (env.event_type == et)
      then refused (event_type_mismatch env.event_type et)
      else read_data ws et env (decode_data env.payload)

  unfoldable pub read :
      (Text → Option (Text × Text)) → (Payload → Text ⊎ Envelope) → Text → Payload → Reading D
  read parse decode_envelope subject payload =
      case_option (parse subject) (refused (not_lifecycle subject)) (λ (ws, et).
        if not (valid_workspace ws)
        then refused (invalid_workspace subject)
        else read_envelope ws et (decode_envelope payload))

-- The `switch` on the catalog's answer that ends each Handle; that of the dashboards' processor has no
-- case for ErrExists, which the dashboard catalog never returns.
abbrev pub verdict_on : Text → Text → Result Bool → Verdict
verdict_on et publisher (err (invalid field)) = dropped (invalid_event et publisher field)
verdict_on et publisher (err e) = record { action = retry; reason = transient e; applied = false }
verdict_on et publisher (ok false) = record { action = ack; reason = stale; applied = false }
verdict_on et publisher (ok true) = record { action = ack; reason = Reason.unset; applied = true }

abbrev pub table_verdict_on : Text → Text → Result Bool → Verdict
table_verdict_on et publisher (err exists) = dropped (name_collision et publisher)
table_verdict_on et publisher r = verdict_on et publisher r

module _ {D S : Type 0} where
  -- A Handle after its reading: the call of the catalog and the verdict on its answer.
  abbrev pub settle :
      (Text → Text → Result Bool → Verdict)
      → (S → Text → Text → Envelope → D → Result Bool × S)
      → S
      → Reading D
      → Verdict × S
  settle verdict call s (refused why) = (dropped why, s)
  settle verdict call s (accepted ws et env d) =
      let r = call s ws et env d in (verdict et env.published_by r.0, r.1)
