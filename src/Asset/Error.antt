-- ===== src/Asset/Error.antt =====
-- The error vocabulary of internal/asset/asset.go, and fallible results.
pub mod Validating
use booth_catalog.Prelude.{◌≡◌, refl, Bool, true, false, arith, inl, inr, ◌⊎◌}
use booth_catalog.Text.{Text}

pub data Error : Type 0 where
  not_found exists managed_externally forbidden : Error
  -- a ValidationError, by its Field; the Message, prose for a person, is left out
  invalid : Text → Error
  -- any other error: a store that does not answer, a request that was given up
  failure : Text → Error

infixl 5 ◌>>=◌
infixl 5 ◌>>◌
pub data Result {ℓ} (T : Type ℓ) : Type ℓ where
  err : Error → Result T
  ok : T → Result T

-- `if err != nil { return err }`
abbrev pub ◌>>=◌ {ℓ κ} : {S : Type ℓ} {T : Type κ} → Result S → (S → Result T) → Result T
err e >>= rest = err e
ok x >>= rest = rest x

abbrev pub ◌>>◌ {ℓ} : {T : Type ℓ} → Result (Unit {0}) → Result T → Result T
check >> rest = check >>= λ done. rest

-- `if bad { return Invalid(field, …) }`
abbrev pub refuse_if : Bool → Text → Result (Unit {0})
refuse_if true field = err (invalid field)
refuse_if false field = ok tt

pub bind-eq-ok {ℓ κ} :
    {S : Type ℓ} {T : Type κ} (r : Result S) (rest : S → Result T) {y : T}
    → (r >>= rest) ≡ ok y
    → (x : S) × (r ≡ ok x) × (rest x ≡ ok y)
bind-eq-ok (err e) rest is_ok = cc
bind-eq-ok (ok x) rest is_ok = (x, refl, is_ok)

pub ok-injective : {A : Type 0} {x y : A} → ◌≡◌ {A = Result A} (ok x) (ok y) → x ≡ y
ok-injective h = ground arith

pub refuse_if-eq-ok : (b : Bool) (field : Text) → refuse_if b field ≡ ok tt → b ≡ false
refuse_if-eq-ok b field h = ground arith

pub Result-cases {ℓ} :
    {A : Type ℓ} (m : Result A) → ((a : A) × (m ≡ ok a)) ⊎ ((e : Error) × (m ≡ err e))
Result-cases (ok a) = inl (a, refl)
Result-cases (err e) = inr (e, refl)

-- `if err != nil { return err }`, in a method that has a store to return.
abbrev pub with_value {ℓ κ λ'} :
    {A : Type ℓ} {B : Type κ} {S : Type λ'} → S → Result A → (A → Result B × S) → Result B × S
with_value s (ok a) f = f a
with_value s (err e) f = (err e, s)

-- Where the rest of a method leaves the store alone on an error, so does the method.
pub with_value-keeps {ℓ κ λ'} :
    {A : Type ℓ} {B : Type κ} {S : Type λ'} (s : S) (r : Result A) (f : A → Result B × S)
    → ((a : A) (e : Error) → (f a).0 ≡ err e → (f a).1 ≡ s)
    → (e : Error) → (with_value s r f).0 ≡ err e
    → (with_value s r f).1 ≡ s
with_value-keeps s (ok a) f k e h = k a e h
with_value-keeps s (err x) f k e h = refl

-- What holds of the store before a method, and after the rest of it, holds after the method.
pub with_value-holds {ℓ} :
    {A B S : Type 0} (P : S → Type ℓ) (s : S) (r : Result A) (f : A → Result B × S)
    → P s
    → ((a : A) → P (f a).1)
    → P (with_value s r f).1
with_value-holds P s (ok a) f before h = h a
with_value-holds P s (err e) f before h = before
