-- ===== src/Asset/Paging.antt =====
-- Pages (internal/asset/asset.go), and the slicing that ends every `List` of the in-memory stores.
pub mod Laws
use booth_catalog.Prelude.{
  ℕ, zero, suc, ◌+◌, List, ℤ, pos, negsuc, ltb, if◌then◌else◌, length, take, drop, ◌-◌, ◌||◌,
}

pub record Page {ℓ} (A : Type ℓ) : Type ℓ where
  pub items : List A
  pub total : ℕ

abbrev pub default_limit : ℕ
default_limit = 50

abbrev pub max_limit : ℕ
max_limit = 200

unfoldable pub clamp_limit : ℤ → ℕ
clamp_limit (negsuc n) = default_limit
clamp_limit (pos zero) = default_limit
clamp_limit (pos (suc n)) = if ltb max_limit (suc n) then max_limit else suc n

-- `start`: an offset out of range is the end of the listing.
unfoldable pub page_start : ℤ → ℕ → ℕ
page_start (negsuc n) total = total
page_start (pos n) total = if ltb total n then total else n

unfoldable pub page_end : ℕ → ℕ → ℕ → ℕ
page_end start limit total = if ltb total (start + limit) then total else start + limit

module _ {ℓ} {A : Type ℓ} where
  -- `matched[start:end]`
  abbrev pub slice : List A → ℕ → ℕ → List A
  slice xs start end = take (end - start) (drop start xs)

  unfoldable pub page : List A → ℤ → ℤ → Page A
  page matched limit offset =
      let total = length matched in
      let start = page_start offset total in
      let end = page_end start (clamp_limit limit) total in
      record { items = slice matched start end; total = total }
