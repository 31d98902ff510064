-- ===== src/Regexp.antt =====
-- The regular expressions of the program (Go's `regexp`, anchored at both ends): syntax, a matcher
-- by derivatives, and the language that an expression stands for.
pub mod Language
pub mod Repeat
use booth_catalog.Prelude.{
  ℕ, zero, suc, Bool, true, false, ◌&&◌, ◌||◌, [], ◌∷◌, leb, ◌==◌, any, if◌then◌else◌, nat_eq,
}
use booth_catalog.Text.{Text}

pub data Regex : Type 0 where
  never : Regex
  empty : Regex
  -- a character class
  class : (ℕ → Bool) → Regex
  seq : Regex → Regex → Regex
  alt : Regex → Regex → Regex
  star : Regex → Regex

-- Does the expression match the empty text?
unfoldable pub nullable : Regex → Bool
nullable never = false
nullable empty = true
nullable (class p) = false
nullable (seq r s) = nullable r && nullable s
nullable (alt r s) = nullable r || nullable s
nullable (star r) = true

-- What is left to match once `c` has been read.
unfoldable pub derivative : ℕ → Regex → Regex
unfolding nullable
derivative c never = never
derivative c empty = never
derivative c (class p) = if p c then empty else never
derivative c (seq r s) =
    let dr = seq (derivative c r) s in
    let ds = derivative c s in if nullable r then alt dr ds else dr
derivative c (alt r s) = alt (derivative c r) (derivative c s)
derivative c (star r) = seq (derivative c r) (star r)

-- MatchString of ^r$
unfoldable pub matches : Regex → Text → Bool
unfolding derivative nullable
matches r [] = nullable r
matches r (c ∷ s) = matches (derivative c r) s

-- r{0,n}
unfoldable pub up_to : ℕ → Regex → Regex
up_to zero r = empty
up_to (suc n) r = alt empty (seq r (up_to n r))

-- r?
abbrev pub optional : Regex → Regex
optional r = alt empty r

abbrev pub lowercase : ℕ → Bool
lowercase c = leb b'a' c && leb c b'z'

abbrev pub uppercase : ℕ → Bool
uppercase c = leb b'A' c && leb c b'Z'

abbrev pub digit : ℕ → Bool
digit c = leb b'0' c && leb c b'9'

-- One of the characters of a text.
abbrev pub one_of : Text → ℕ → Bool
one_of cs c = any (λ d. c == d) cs
