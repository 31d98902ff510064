-- ===== src/Api/Safety.antt =====
-- Who changes the catalogs through the HTTP surface (internal/api/server.go and internal/auth).
use booth_catalog.Prelude.{
  ℕ, ◌<◌, true, Option, some, ◌⊎◌, inl, inr, ◌≡◌, refl, ap, arith, Bool-cases,
}
use booth_catalog.Text.{Text, Casing}
use booth_catalog.Asset.Error.{Result, ok, err}
use booth_catalog.Data.Model.{Time}
use booth_catalog.Data.Store as DataStore
use booth_catalog.Data.Service.Errors as DataErrors
use booth_catalog.Code.Store as CodeStore
use booth_catalog.Code.Service.Errors as CodeErrors
use booth_catalog.App.{Services}
use booth_catalog.Auth.{
  Claims, Identity, Outcome, refused, passed, middleware, bearer_token, can_read, can_write,
}
use booth_catalog.Auth.Roles.{IsEntitled, middleware-IsEntitled}
use booth_catalog.Api.{
  Route, WriteRoute, Query, Body, Content, Resource, Response, Decoded, too_large, malformed,
  decoded, with_body, respond,
}
use booth_catalog.Api
use booth_catalog.Api.Reading.{Subscriptions}
use booth_catalog.Api.Writing
use booth_catalog.Api.Writing.{Decoders, with_datasets, with_entries}
use booth_catalog.Api.Router.{Request, write_handler, routed, unless_refused, serve}

-- The catalogs are as they were, or the response is a success.
abbrev pub IsSafe : Services → Response × Services → Type 0
IsSafe s r = (r.1 ≡ s) ⊎ (r.0.status < 300)

with_datasets-IsSafe :
    {A : Type 0} (s : Services) (res : Resource) (status : ℕ) (f : A → Content)
    (r : Result A × DataStore.MemoryStore)
    → status < 300
    → DataErrors.Keeps s.datasets r
    → IsSafe s (with_datasets s res status f r)
with_datasets-IsSafe s res status f (ok a, m) h k = inr h
with_datasets-IsSafe s res status f (err e, m) h k =
    inl (ap (λ x. record s { datasets = x }) (k e refl))

with_entries-IsSafe :
    {A : Type 0} (s : Services) (res : Resource) (status : ℕ) (f : A → Content)
    (r : Result A × CodeStore.MemoryStore)
    → status < 300
    → CodeErrors.Keeps s.entries r
    → IsSafe s (with_entries s res status f r)
with_entries-IsSafe s res status f (ok a, m) h k = inr h
with_entries-IsSafe s res status f (err e, m) h k =
    inl (ap (λ x. record s { entries = x }) (k e refl))

with_body-IsSafe :
    {T : Type 0} (s : Services) (d : Decoded T) (f : T → Response × Services)
    → ((x : T) → IsSafe s (f x))
    → IsSafe s (with_body s d f)
with_body-IsSafe s too_large f h = inl refl
with_body-IsSafe s malformed f h = inl refl
with_body-IsSafe s (decoded x) f h = h x

module _ ⦃u : Casing⦄ (dec : Decoders) (subs : Subscriptions) (s : Services) (id : Identity) where
  -- A handler that writes leaves the catalogs alone unless it answers a success.
  write_handler-IsSafe :
      (r : WriteRoute) (body : Body) (new_id : Text) (now : Time)
      → IsSafe s (write_handler dec subs s id r body new_id now)
  unfolding write_handler Writing.handle_create_dataset Writing.handle_update_dataset
      Writing.handle_delete_dataset Writing.handle_create_code Writing.handle_update_code
      Writing.handle_delete_code Writing.handle_publish_code_version
  write_handler-IsSafe Api.create_dataset body new_id now = with_body-IsSafe s _ _ (λ i.
      with_datasets-IsSafe s _ _ _ _ (omega arith)
        (DataErrors.writes-Keep s.datasets id.workspace new_id (Api.actor id) i now true).0)
  write_handler-IsSafe (Api.update_dataset x) body new_id now = with_body-IsSafe s _ _ (λ i.
      with_datasets-IsSafe s _ _ _ _ (omega arith)
        (DataErrors.writes-Keep s.datasets id.workspace x (Api.actor id) i now true).1)
  write_handler-IsSafe (Api.delete_dataset x) body new_id now =
      with_datasets-IsSafe s _ _ _ _ (omega arith)
        (DataErrors.delete-Keeps s.datasets id.workspace x (Writing.is_owner id.role))
  write_handler-IsSafe Api.create_code body new_id now = with_body-IsSafe s _ _ (λ (e, v).
      with_entries-IsSafe s _ _ _ _ (omega arith)
        (CodeErrors.writes-Keep s.max_source s.entries id.workspace new_id (Api.actor id) e v
          now).0)
  write_handler-IsSafe (Api.update_code x) body new_id now = with_body-IsSafe s _ _ (λ i.
      with_entries-IsSafe s _ _ _ _ (omega arith)
        (CodeErrors.update-Keeps s.entries id.workspace x i now))
  write_handler-IsSafe (Api.delete_code x) body new_id now =
      with_entries-IsSafe s _ _ _ _ (omega arith) (CodeErrors.delete-Keeps s.entries id.workspace x)
  write_handler-IsSafe (Api.publish_code_version x) body new_id now = with_body-IsSafe s _ _ (λ v.
      with_entries-IsSafe s _ _ _ _ (omega arith)
        (CodeErrors.publish-Keeps s.max_source s.entries id.workspace x (Api.actor id) v now))

-- What a request that changed the catalogs had: a route that writes, and a token that the verifier
-- accepts, of an editor or owner of the workspace.
abbrev pub IsAuthorized : ⦃u : Casing⦄ → (Text → Option Claims) → Request → Type 0
IsAuthorized verify r =
    (w : WriteRoute) × (c : Claims) × (i : Identity) × (r.route ≡ Api.writes w)
    × (verify (bearer_token r.headers.authorization) ≡ some c)
    × IsEntitled r.headers c i
    × (can_write i ≡ true)

module _ ⦃u : Casing⦄ (dec : Decoders) (subs : Subscriptions) (s : Services)
    (verify : Text → Option Claims) (r : Request) (new_id : Text) (now : Time) where
  routed-IsSafe :
      (i : Identity) (route : Route)
      → middleware verify r.headers ≡ passed i
      → r.route ≡ route
      → ((routed dec subs s i route r.query r.body new_id now).1 ≡ s)
        ⊎ (((routed dec subs s i route r.query r.body new_id now).0.status < 300)
            × IsAuthorized verify r)
  routed-IsSafe i (Api.reads x) h e = elim (Bool-cases (can_read i)) [
    | inl p ↦ inl (ground arith)
    | inr p ↦ inl (ground arith)
  ]
  routed-IsSafe i (Api.writes x) h e = elim (Bool-cases (can_write i)) [
    | inr p ↦ inl (ground arith)
    | inl p ↦ elim (write_handler-IsSafe dec subs s i x r.body new_id now) [
      | inl q ↦ inl (rw p q)
      | inr q ↦
          let (c, v, is) = middleware-IsEntitled verify r.headers i h in
          inr (rw p q, (x, c, i, e, v, is, p))
    ]
  ]

  -- A request leaves every catalog as it was, unless it is answered with a success; it is then one of a
  -- route that writes, its token is one that the verifier accepts, and the token's groups make the caller
  -- an editor or owner of the workspace, without the forwarded role being below that.
  pub serve-IsSafe :
      ((serve dec subs s verify r new_id now).1 ≡ s)
      ⊎ (((serve dec subs s verify r new_id now).0.status < 300) × IsAuthorized verify r)
  unfolding serve
  serve-IsSafe = by_outcome (middleware verify r.headers) refl
    where
      by_outcome :
          (o : Outcome)
          → middleware verify r.headers ≡ o
          → ((unless_refused dec subs s o
                (λ id. routed dec subs s id r.route r.query r.body new_id now)).1
              ≡ s)
            ⊎ (((unless_refused dec subs s o
                    (λ id. routed dec subs s id r.route r.query r.body new_id now)).0.status
                  < 300)
                × IsAuthorized verify r)
      by_outcome (refused status) h = inl refl
      by_outcome (passed i) h = routed-IsSafe i r.route h refl
