-- ===== src/Tests/Auth.antt =====
-- Examples for internal/auth.
use booth_catalog.Prelude.{
  ℕ, ◌≡◌, ◌≤◌, ◌⊎◌, refl, Bool, true, false, List, [], ◌∷◌, Option, some, list_eq, nat_eq,
}
use booth_catalog.Prelude
use booth_catalog.Text.{Text, txt}
use booth_catalog.Text
use booth_catalog.Auth.{
  Role, viewer, editor, Claims, Identity, Request, rank, attached, passed, middleware, bearer_token,
  role_in_workspace,
}
use booth_catalog.Auth
use booth_catalog.Auth.Roles.{Grants, IsEntitled, role_in_workspace-highest, middleware-IsEntitled}
use booth_catalog.Tests.Ascii.{ascii}

abbrev claims : Claims
claims = record {
  subject = txt "u1";
  display_name = txt "anna";
  groups = txt "/workspaces/w/viewer" ∷ txt "/workspaces/w/editor" ∷ [];
}

abbrev request : Request
request = record { authorization = txt "Bearer t"; workspace = txt "w"; role = viewer }

role_in_workspace-highest_example :
    ((r : Role)
      → Grants (txt "w") r claims.groups
      → rank r ≤ rank (role_in_workspace claims.groups (txt "w")))
    × ((role_in_workspace claims.groups (txt "w") ≡ Role.unset)
        ⊎ Grants (txt "w") (role_in_workspace claims.groups (txt "w")) claims.groups)
role_in_workspace-highest_example = role_in_workspace-highest claims.groups (txt "w")

abbrev anna : Identity
anna = record { subject = txt "u1"; display_name = txt "anna"; workspace = txt "w"; role = viewer }

request_passes : middleware (λ t. some claims) request ≡ passed anna
unfolding middleware bearer_token role_in_workspace Auth.best_role Auth.parse_group
    Auth.effective_role Text.equal_fold Text.split Text.trim_space Text.trim_left Text.trim_right
    Text.is_space Prelude.list_beq
request_passes = refl

middleware-IsEntitled_example : (c : Claims) × (some claims ≡ some c) × IsEntitled request c anna
middleware-IsEntitled_example = middleware-IsEntitled (λ t. some claims) request anna request_passes
