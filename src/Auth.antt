-- ===== src/Auth.antt =====
-- internal/auth/auth.go: who a caller is and what role they have in a workspace. The verification of
-- a token's signature (go-oidc) is a function that the model takes.
pub mod Roles
pub mod Verifier
use booth_catalog.Prelude.{
  ℕ, Bool, true, false, not, ◌&&◌, ◌||◌, List, [], ◌∷◌, ltb, leb, ◌==◌, nat_eq, list_eq,
  if◌then◌else◌, case_option, Option, none, some, length, take, drop, all,
}
use booth_catalog.Text.{Text, txt, trim_space, split, Casing, equal_fold}
use booth_catalog.Regexp.{lowercase, digit}
use booth_catalog.Asset.Error.{Result, ok, err}
use booth_catalog.Asset.Validation.{slug_char}

-- `unset` is the empty string.
pub data Role : Type 0 where
  unset viewer editor owner : Role
  other : Text → Role

abbrev pub is_unset : Role → Bool
is_unset Role.unset = true
is_unset _ = false

pub record Claims : Type 0 where
  pub subject : Text
  pub display_name : Text
  pub groups : List Text

pub record Identity : Type 0 where
  pub subject : Text
  pub display_name : Text
  pub workspace : Text
  pub role : Role

abbrev pub rank : Role → ℕ
rank owner = 3
rank editor = 2
rank viewer = 1
rank _ = 0

abbrev pub role_of_text : Text → Option Role
role_of_text t =
    if t == txt "owner"
    then some owner
    else if t == txt "editor"
    then some editor
    else if t == txt "viewer"
    then some viewer
    else none

-- The submatches of ^/workspaces/([a-z0-9-]+)/(owner|editor|viewer)$, on the parts between slashes.
abbrev pub group_match : List Text → Option (Text × Role)
group_match ([] ∷ w ∷ ws ∷ role ∷ []) =
    if w == txt "workspaces" && not (ws == []) && all slug_char ws
    then case_option (role_of_text role) none (λ r. some (ws, r))
    else none
group_match _ = none

unfoldable pub parse_group : Text → Option (Text × Role)
parse_group g = group_match (split b'/' g)

-- The body of the loop over the groups.
abbrev pub better : Text → Role → Option (Text × Role) → Role
better workspace best none = best
better workspace best (some (ws, r)) =
    if not (ws == workspace) then best else if ltb (rank best) (rank r) then r else best

unfoldable pub best_role : Text → Role → List Text → Role
best_role workspace best [] = best
best_role workspace best (g ∷ gs) = best_role workspace (better workspace best (parse_group g)) gs

unfoldable pub role_in_workspace : List Text → Text → Role
role_in_workspace groups workspace = best_role workspace Role.unset groups

unfoldable pub effective_role : Role → Role → Role
effective_role forwarded granted =
    if is_unset forwarded
    then granted
    else if rank forwarded == 0
    then Role.unset
    else if ltb (rank forwarded) (rank granted)
    then forwarded
    else granted

abbrev pub can_read : Identity → Bool
can_read i = elim i.role [ owner ↦ true | editor ↦ true | viewer ↦ true | _ ↦ false ]

abbrev pub can_write : Identity → Bool
can_write i = elim i.role [ owner ↦ true | editor ↦ true | _ ↦ false ]

-- A request by the headers that are read: Authorization, X-Booth-Workspace and X-Booth-Role. A
-- header that is missing reads as the empty string.
pub record Request : Type 0 where
  pub authorization : Text
  pub workspace : Text
  pub role : Role

-- What a middleware does: it writes an error with a status, or passes the request on.
pub data Outcome : Type 0 where
  refused : ℕ → Outcome
  passed : Identity → Outcome

-- The verifiers of a chain, in their order: the claims of the first that accepts.
unfoldable pub verify_chain : List (Text → Option Claims) → Text → Option Claims
verify_chain [] token = none
verify_chain (v ∷ vs) token =
    let rest = verify_chain vs token in case_option (v token) rest (λ c. some c)

-- The identity that is attached to the request.
abbrev pub attached : Request → Claims → Identity
attached r c = record {
  subject = c.subject;
  display_name = c.display_name;
  workspace = r.workspace;
  role = effective_role r.role (role_in_workspace c.groups r.workspace);
}

abbrev pub authorize : Request → Claims → Outcome
authorize r c =
    if r.workspace == []
    then refused 400
    else let granted = role_in_workspace c.groups r.workspace in
      if is_unset granted
      then refused 403
      else if ltb (rank granted) (rank r.role)
      then refused 403
      else passed (attached r c)

abbrev pub require : (Identity → Bool) → Option Identity → Outcome
require check none = refused 401
require check (some i) = if not (check i) then refused 403 else passed i

module _ ⦃u : Casing⦄ where
  -- The prefix is ASCII, so that its length in bytes is that in runes.
  unfoldable pub bearer_token : Text → Text
  bearer_token h =
      if ltb (length h) 7 || not (equal_fold (take 7 h) (txt "Bearer "))
      then []
      else trim_space (drop 7 h)

  unfoldable pub middleware : (Text → Option Claims) → Request → Outcome
  middleware verify r =
      let token = bearer_token r.authorization in
      if token == []
      then refused 401
      else case_option (verify token) (refused 401) (λ c. authorize r c)
