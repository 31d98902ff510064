-- ===== src/Auth/Roles.antt =====
-- No request gets more than its token grants (internal/auth/auth.go).
use booth_catalog.Prelude.{
  ℕ, List, [], ◌∷◌, ltb, ◌≤◌, ◌==◌, eq_iff, nat_eq, list_eq, Option, none, some, ◌≡◌, ◌⊎◌, refl, ap,
  subst, ◌∙◌, eq_refl, arith, Bool-cases, Option-cases, inl, inr,
}
use booth_catalog.Text.{Text, Casing}
use booth_catalog.Auth.{
  Role, viewer, editor, owner, Claims, Identity, is_unset, rank, parse_group, better, best_role,
  role_in_workspace, effective_role, Request, passed, attached, authorize, bearer_token, middleware,
}

-- One of the groups is a membership of the workspace, in this role.
abbrev pub Grants : Text → Role → List Text → Type 0
Grants ws r [] = ⊥
Grants ws r (g ∷ gs) = (parse_group g ≡ some (ws, r)) ⊎ Grants ws r gs

Grants-best_role :
    (ws : Text) (best : Role) (gs : List Text)
    → (best_role ws best gs ≡ best) ⊎ Grants ws (best_role ws best gs) gs
unfolding best_role
Grants-best_role ws best [] = inl refl
Grants-best_role ws best (g ∷ gs) = elim (Grants-best_role ws (better ws best (parse_group g)) gs) [
  | inr p ↦ inr (inr p)
  | inl p ↦ elim (Option-cases (parse_group g)) [
    | inl q ↦ inl (p ∙ ap (better ws best) q)
    | inr ((w, r), q) ↦ elim (Bool-cases (w == ws)) [
      | inr n ↦ inl (p ∙ ap (better ws best) q ∙ ground arith)
      | inl y ↦ elim (Bool-cases (ltb (rank best) (rank r))) [
        | inr n ↦ inl (p ∙ ap (better ws best) q ∙ ground arith)
        | inl l ↦
            let e : best_role ws (better ws best (parse_group g)) gs ≡ r =
              p ∙ ap (better ws best) q ∙ ground arith in
            inr (inl (rw e (q ∙ ap (λ x. some (x, r)) ((eq_iff w ws).0 y))))
      ]
    ]
  ]
]

best_role-max :
    (ws : Text) (best : Role) (gs : List Text)
    → (rank best ≤ rank (best_role ws best gs))
      × ((r : Role) → Grants ws r gs → rank r ≤ rank (best_role ws best gs))
unfolding best_role
best_role-max ws best [] = (ground arith, λ r h. absurd h)
best_role-max ws best (g ∷ gs) =
    let (above, most) = best_role-max ws (better ws best (parse_group g)) gs in
    (
      better-above ws best (parse_group g) _ above,
      (λ r h. elim h [
        | inl p ↦ better-takes ws best r _ (
            subst
              (λ x.
                rank (better ws best x) ≤ rank (best_role ws (better ws best (parse_group g)) gs))
              p above)
        | inr p ↦ most r p
      ]),
    )
  where
    better-above :
        (ws : Text) (best : Role) (m : Option (Text × Role)) (n : ℕ)
        → rank (better ws best m) ≤ n
        → rank best ≤ n
    better-above ws best none n h = h
    better-above ws best (some (w, r)) n h = ground arith

    better-takes :
        (ws : Text) (best r : Role) (n : ℕ) → rank (better ws best (some (ws, r))) ≤ n → rank r ≤ n
    better-takes ws best r n h = ground (arith, eq_refl ws)

-- The role in a workspace is the highest that a group of the token grants there: no such group
-- grants more, and it is itself granted, or is no role at all.
pub role_in_workspace-highest :
    (groups : List Text) (ws : Text)
    → ((r : Role) → Grants ws r groups → rank r ≤ rank (role_in_workspace groups ws))
      × ((role_in_workspace groups ws ≡ Role.unset)
          ⊎ Grants ws (role_in_workspace groups ws) groups)
unfolding role_in_workspace
role_in_workspace-highest groups ws =
    ((best_role-max ws Role.unset groups).1, Grants-best_role ws Role.unset groups)

effective_role-narrows :
    (forwarded granted : Role)
    → (rank (effective_role forwarded granted) ≤ rank granted)
      × (forwarded ≡ Role.unset ⊎ (rank (effective_role forwarded granted) ≤ rank forwarded))
unfolding effective_role
effective_role-narrows Role.unset granted = (ground arith, inl refl)
effective_role-narrows viewer granted = (ground arith, inr (ground arith))
effective_role-narrows editor granted = (ground arith, inr (ground arith))
effective_role-narrows owner granted = (ground arith, inr (ground arith))
effective_role-narrows (Role.other t) granted = (ground arith, inr (ground arith))

-- What a request that is passed on has shown.
abbrev pub IsEntitled : Request → Claims → Identity → Type 0
IsEntitled r c i =
    (i.workspace ≡ r.workspace)
    × (i.subject ≡ c.subject)
    × Grants r.workspace (role_in_workspace c.groups r.workspace) c.groups
    × (rank r.role ≤ rank (role_in_workspace c.groups r.workspace))
    × (rank i.role ≤ rank (role_in_workspace c.groups r.workspace))
    × ((r.role ≡ Role.unset) ⊎ (rank i.role ≤ rank r.role))

authorize-IsEntitled :
    (r : Request) (c : Claims) (i : Identity) → authorize r c ≡ passed i → IsEntitled r c i
authorize-IsEntitled r c i h =
    let granted = role_in_workspace c.groups r.workspace in
    elim (Bool-cases (r.workspace == [])) [
      | inl p ↦ absurd (ground arith)
      | inr p ↦ elim (Bool-cases (is_unset granted)) [
        | inl q ↦ absurd (ground arith)
        | inr q ↦ elim (Bool-cases (ltb (rank granted) (rank r.role))) [
          | inl n ↦ absurd (ground arith)
          | inr n ↦
              let e : attached r c ≡ i = ground arith in
              let (below, narrow) = effective_role-narrows r.role granted in
              elim (role_in_workspace-highest c.groups r.workspace).1 [
                | inl u ↦ absurd (ground arith)
                | inr g ↦ subst (IsEntitled r c) e (refl, refl, g, ground arith, below, narrow)
              ]
        ]
      ]
    ]

module _ ⦃u : Casing⦄ where
  -- A request that the middleware passes on has a bearer token that the verifier accepts, and the
  -- identity attached is the token's subject in the workspace asked for. The token's groups grant a
  -- role there; the role forwarded is not above it; and the role attached is above neither the
  -- granted one nor, where there is one, the forwarded one.
  pub middleware-IsEntitled :
      (verify : Text → Option Claims) (r : Request) (i : Identity)
      → middleware verify r ≡ passed i
      → (c : Claims) × (verify (bearer_token r.authorization) ≡ some c) × IsEntitled r c i
  unfolding middleware
  middleware-IsEntitled verify r i h = elim (Bool-cases (bearer_token r.authorization == [])) [
    | inl p ↦ absurd (ground arith)
    | inr p ↦ elim (Option-cases (verify (bearer_token r.authorization))) [
      | inl q ↦ absurd (ground arith)
      | inr (c, q) ↦ (c, q, authorize-IsEntitled r c i (ground arith))
    ]
  ]
