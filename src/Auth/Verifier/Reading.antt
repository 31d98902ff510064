-- ===== src/Auth/Verifier/Reading.antt =====
-- What the verified claims are (internal/auth/auth.go: Verifier.Verify).
use booth_catalog.Prelude.{
  List, [], ◌==◌, eq_iff, nat_eq, list_eq, case_option, Option, none, some, ◌⊎◌, inl, inr, ◌≡◌, ◌≢◌,
  refl, arith, Option-cases, Bool-cases, ap, sym, ◌∙◌, subst,
}
use booth_catalog.Text.{Text, txt, trim_space, Casing}
use booth_catalog.Auth.{
  Claims, Request, Identity, passed, middleware, bearer_token, role_in_workspace,
}
use booth_catalog.Auth.Roles.{Grants, middleware-IsEntitled}
use booth_catalog.Auth.Verifier.{
  IdTokenVerifier, IdToken, Verifier, named_by, claim_text, read_claims, verify,
}

module _ {Raw : Type 0} (id_token : IdTokenVerifier → Text → Option (IdToken Raw))
    (decode_groups : Raw → List Text) (decode_text : Raw → Option Text) where
  -- A name is the trimmed text of a claim, and not blank.
  abbrev pub IsNamed : (Text → Option Raw) → Text → Text → Type 0
  IsNamed raw claim name =
      (x : Raw) × (t : Text) × (raw claim ≡ some x)
      × (decode_text x ≡ some t)
      × (name ≡ trim_space t)
      × (name ≢ [])

  -- A claim that is missing, no text or blank.
  abbrev pub IsNameless : (Text → Option Raw) → Text → Type 0
  IsNameless raw claim =
      (x : Raw) (t : Text) → raw claim ≡ some x → decode_text x ≡ some t → trim_space t ≡ []

  -- A claim gives the name, or has none and the name is another.
  named_by-cases :
      (raw : (Text → Option Raw)) (claim before : Text)
      → IsNamed raw claim (
          named_by id_token decode_groups decode_text
            (claim_text id_token decode_groups decode_text raw claim)
            before)
        ⊎ (IsNameless raw claim
            × (named_by id_token decode_groups decode_text
                  (claim_text id_token decode_groups decode_text raw claim)
                  before
                ≡ before))
  named_by-cases raw claim before = elim (Option-cases (raw claim)) [
    | inl p ↦ rw p (inr ((λ x t q e. absurd (ground arith)), refl))
    | inr (x, p) ↦ elim (Option-cases (decode_text x)) [
      | inl q ↦ inr ((λ x' t p' q'. absurd (ground arith)), ground arith)
      | inr (t, q) ↦ elim (Bool-cases (trim_space t == [])) [
        | inl b ↦ inr ((λ x' t' p' q'. ground (arith, eq_iff (trim_space t) [])), ground arith)
        | inr b ↦ inl (x, t, p, q, ground arith, ground (arith, eq_iff (trim_space t) []))
      ]
    ]
  ]

  -- A token that go-oidc verified, and the claims that Verify read from it.
  abbrev IsRead : Verifier → Text → Claims → IdToken Raw → (Text → Option Raw) → Type 0
  IsRead v token c t raw =
      (id_token v.id_token_verifier token ≡ some t)
      × (t.subject ≢ [])
      × (t.claims ≡ some raw)
      × (c ≡ read_claims id_token decode_groups decode_text v t.subject raw)

  verify-IsRead :
      (v : Verifier) (token : Text) (c : Claims)
      → verify id_token decode_groups decode_text v token ≡ some c
      → (t : IdToken Raw) × (raw : (Text → Option Raw)) × IsRead v token c t raw
  unfolding verify
  verify-IsRead v token c h = elim (Option-cases (id_token v.id_token_verifier token)) [
    | inl p ↦ absurd (ground arith)
    | inr (t, p) ↦ elim (Bool-cases (t.subject == [])) [
      | inl q ↦ absurd (ground arith)
      | inr q ↦ elim (Option-cases t.claims) [
        | inl o ↦ absurd (ground arith)
        | inr (raw, o) ↦ (t, raw, (p, ground (arith, eq_iff t.subject []), o, ground arith))
      ]
    ]
  ]

  -- What a name is: that of the preferred_username claim where it is a text and not blank, else that of
  -- the email claim where it is, else the subject.
  abbrev pub IsDisplayed : (Text → Option Raw) → Text → Text → Type 0
  IsDisplayed raw subject name =
      IsNamed raw (txt "preferred_username") name
      ⊎ (IsNameless raw (txt "preferred_username")
          × (IsNamed raw (txt "email") name ⊎ (IsNameless raw (txt "email") × (name ≡ subject))))

  -- The groups are what is read from the claim of that name, and none where it is missing.
  abbrev pub IsGrouped : (Text → Option Raw) → Text → List Text → Type 0
  IsGrouped raw claim groups =
      ((x : Raw) × (raw claim ≡ some x) × (groups ≡ decode_groups x))
      ⊎ ((raw claim ≡ none) × (groups ≡ []))

  read_claims-IsDisplayed :
      (v : Verifier) (subject : Text) (raw : (Text → Option Raw))
      → IsDisplayed raw subject
          (read_claims id_token decode_groups decode_text v subject raw).display_name
  read_claims-IsDisplayed v subject raw =
      let email =
        named_by id_token decode_groups decode_text
          (claim_text id_token decode_groups decode_text raw (txt "email")) subject in
      elim (named_by-cases raw (txt "preferred_username") email) [
        | inl named ↦ inl named
        | inr (nameless, e) ↦ elim (named_by-cases raw (txt "email") subject) [
          | inl named ↦ inr (nameless, inl (subst (IsNamed raw (txt "email")) (sym e) named))
          | inr (blank, f) ↦ inr (nameless, inr (blank, e ∙ f))
        ]
      ]

  read_claims-IsGrouped :
      (v : Verifier) (subject : Text) (raw : (Text → Option Raw))
      → IsGrouped raw v.groups_claim
          (read_claims id_token decode_groups decode_text v subject raw).groups
  read_claims-IsGrouped v subject raw = elim (Option-cases (raw v.groups_claim)) [
    | inl p ↦ inr (p, ground arith)
    | inr (x, p) ↦ inl (x, p, ground arith)
  ]

  -- The claims that Verify returns are those of a token that go-oidc verified and that names a subject,
  -- which they have. The name shown is that of the token's preferred_username claim where that is a text
  -- and not blank, else that of its email claim where that is, else the subject; the groups are those
  -- read from the groups claim, and none where it is missing.
  pub verify-IsDisplayed :
      (v : Verifier) (token : Text) (c : Claims)
      → verify id_token decode_groups decode_text v token ≡ some c
      → (t : IdToken Raw) × (raw : (Text → Option Raw)) × (id_token v.id_token_verifier token
          ≡ some t)
        × (t.claims ≡ some raw)
        × (t.subject ≢ [])
        × (c.subject ≡ t.subject)
        × IsDisplayed raw t.subject c.display_name
        × IsGrouped raw v.groups_claim c.groups
  verify-IsDisplayed v token c h =
      let (t, raw, is) = verify-IsRead v token c h in
      (
        t,
        raw,
        is.0,
        is.2,
        is.1,
        ap (λ x. x.subject) is.3,
        subst (λ x. IsDisplayed raw t.subject x.display_name) (sym is.3)
            (read_claims-IsDisplayed v t.subject raw),
        subst (λ x. IsGrouped raw v.groups_claim x.groups) (sym is.3)
            (read_claims-IsGrouped v t.subject raw),
      )

  module _ ⦃u : Casing⦄ where
    -- A request that is passed on to a handler has a token that go-oidc verified and that names a
    -- subject, which the identity has. The token has the groups claim, and what is read from that claim
    -- grants a role in the workspace asked for.
    pub middleware-verify :
        (v : Verifier) (r : Request) (i : Identity)
        → middleware (verify id_token decode_groups decode_text v) r ≡ passed i
        → (t : IdToken Raw) × (raw : (Text → Option Raw)) × (g : Raw) × (id_token
              v.id_token_verifier
              (bearer_token r.authorization)
            ≡ some t)
          × (t.subject ≢ [])
          × (i.subject ≡ t.subject)
          × (raw v.groups_claim ≡ some g)
          × Grants r.workspace (role_in_workspace (decode_groups g) r.workspace) (decode_groups g)
    middleware-verify v r i h =
        let Granted : List Text → Type 0 =
          λ gs. Grants r.workspace (role_in_workspace gs r.workspace) gs in
        let (c, p, is) =
          middleware-IsEntitled (verify id_token decode_groups decode_text v) r i h in
        let (t, raw, (q, ne, _, e)) = verify-IsRead v (bearer_token r.authorization) c p in
        elim (Option-cases (raw v.groups_claim)) [
          | inl o ↦ absurd (
              subst Granted (ap (λ x. x.groups) e ∙ ap (λ x. case_option x [] decode_groups) o)
                is.2)
          | inr (g, o) ↦ (
            t,
            raw,
            g,
            q,
            ne,
            is.1 ∙ ap (λ x. x.subject) e,
            o,
            subst Granted (ap (λ x. x.groups) e ∙ ap (λ x. case_option x [] decode_groups) o) is.2,
          )
        ]
