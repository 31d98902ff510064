-- ===== src/Text/Number.antt =====
-- strconv.Atoi: an optional sign and decimal digits, within the range of a 64-bit int.
use booth_catalog.Prelude.{
  ℕ, zero, suc, ◌+◌, ◌-◌, ◌*◌, Bool, ◌&&◌, [], ◌∷◌, ltb, leb, if◌then◌else◌, case_option, Option,
  none, some, ℤ, pos, negsuc, ◌==◌, nat_eq,
}
use booth_catalog.Text.{Text}

abbrev pub is_digit : ℕ → Bool
is_digit c = leb b'0' c && leb c b'9'

-- The digits read so far stand for the accumulator.
unfoldable pub digits_from : ℕ → Text → Option ℕ
digits_from acc [] = some acc
digits_from acc (c ∷ s) =
    let rest = digits_from (acc * 10 + (c - b'0')) s in if is_digit c then rest else none

abbrev pub digits : Text → Option ℕ
digits [] = none
digits (c ∷ s) = digits_from 0 (c ∷ s)

abbrev pub positive : ℕ → Option ℤ
positive n = if ltb n 0x8000000000000000 then some (pos n) else none

abbrev pub negative : ℕ → Option ℤ
negative zero = some (pos 0)
negative (suc n) = if ltb n 0x8000000000000000 then some (negsuc n) else none

unfoldable pub atoi : Text → Option ℤ
atoi [] = none
atoi (c ∷ s) =
    if c == b'-'
    then case_option (digits s) none negative
    else if c == b'+'
    then case_option (digits s) none positive
    else case_option (digits (c ∷ s)) none positive
