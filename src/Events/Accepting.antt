-- ===== src/Events/Accepting.antt =====
-- Which messages a processor accepts (internal/events).
use booth_catalog.Prelude.{
  true, ◌==◌, eq_iff, nat_eq, list_eq, Option, some, ◌⊎◌, inl, inr, ◌≡◌, refl, arith, Bool-cases,
  Option-cases,
}
use booth_catalog.Text.{Text}
use booth_catalog.Asset.Validation.{valid_workspace}
use booth_catalog.Events.{Payload, Envelope, accepted, read}

-- The two outcomes of a decoder.
abbrev pub Decoded-cases :
    {T : Type 0} (r : Text ⊎ T) → ((why : Text) × (r ≡ inl why)) ⊎ ((x : T) × (r ≡ inr x))
Decoded-cases (inl why) = inl (why, refl)
Decoded-cases (inr x) = inr (x, refl)

module _ {D : Type 0} (decode_data : Payload → Text ⊎ D) (parse : Text → Option (Text × Text))
    (decode_envelope : Payload → Text ⊎ Envelope) where
  -- The subject gives a valid workspace and an event type, the payload is an envelope that names both,
  -- and the envelope carries the data.
  abbrev pub IsEvent : Text → Payload → Text → Text → Envelope → D → Type 0
  IsEvent subject payload ws et env d =
      (parse subject ≡ some (ws, et))
      × (valid_workspace ws ≡ true)
      × (decode_envelope payload ≡ inr env)
      × (env.workspace ≡ ws)
      × (env.event_type ≡ et)
      × (decode_data env.payload ≡ inr d)

  pub read-IsEvent :
      (subject : Text) (payload : Payload) (ws et : Text) (env : Envelope) (d : D)
      → read decode_data parse decode_envelope subject payload ≡ accepted ws et env d
      → IsEvent subject payload ws et env d
  unfolding read
  read-IsEvent subject payload ws et env d h = elim (Option-cases (parse subject)) [
    | inl p ↦ absurd (ground arith)
    | inr ((w, t), p) ↦ elim (Bool-cases (valid_workspace w)) [
      | inr q ↦ absurd (ground arith)
      | inl q ↦ elim (Decoded-cases (decode_envelope payload)) [
        | inl (why, r) ↦ absurd (ground arith)
        | inr (e, r) ↦ elim (Bool-cases (e.workspace == w)) [
          | inr x ↦ absurd (ground arith)
          | inl x ↦ elim (Bool-cases (e.event_type == t)) [
            | inr y ↦ absurd (ground arith)
            | inl y ↦ elim (Decoded-cases (decode_data e.payload)) [
              | inl (why, z) ↦ absurd (ground arith)
              | inr (d', z) ↦ ground (arith, eq_iff e.workspace w, eq_iff e.event_type t)
            ]
          ]
        ]
      ]
    ]
  ]

  pub IsEvent-read :
      (subject : Text) (payload : Payload) (ws et : Text) (env : Envelope) (d : D)
      → IsEvent subject payload ws et env d
      → read decode_data parse decode_envelope subject payload ≡ accepted ws et env d
  unfolding read
  IsEvent-read subject payload ws et env d (p, q, r, x, y, z) =
      ground (arith, eq_iff env.workspace ws, eq_iff env.event_type et)
