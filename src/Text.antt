-- ===== src/Text.antt =====
-- The Go strings of the program, and what it takes from the standard library's `strings`,
-- `unicode`, `utf8` and `strconv`. A text is the sequence that `range s` goes through: a code point,
-- or 0x110000 + b for a byte b that belongs to no well-formed UTF-8 sequence.
pub mod Order
pub mod Split
pub mod Number
pub mod Trim
use Prim.Native.Char.{code}
use Prim.Native.String.{String}
use mathlib.Core.List.{reverse}
use booth_catalog.Prelude.{
  ℕ, zero, suc, ◌+◌, ◌-◌, ◌/◌, ◌%◌, ◌<◌, ◌≡◌, Bool, true, false, ◌&&◌, ◌||◌, List, [], ◌∷◌, ◌++◌,
  map, ltb, leb, ◌==◌, length, any, all, if◌then◌else◌, nat_eq, list_eq,
}

abbrev pub Text : Type 0
Text = List ℕ

-- A literal of the source.
abbrev pub txt : String → Text
txt String.[] = []
txt (String.◌∷◌ c s) = code c ∷ txt s

abbrev pub is_rune : ℕ → Bool
is_rune c = ltb c 0x110000

-- utf8.ValidString
abbrev pub valid_string : Text → Bool
valid_string = all is_rune

-- The bytes of one element: UTF-8, or the stray byte itself.
unfoldable pub encode : ℕ → List ℕ
encode c =
    if ltb c 0x80
    then c ∷ []
    else if ltb c 0x800
    then (0xC0 + c / 0x40) ∷ (0x80 + c % 0x40) ∷ []
    else if ltb c 0x10000
    then (0xE0 + c / 0x1000) ∷ (0x80 + c / 0x40 % 0x40) ∷ (0x80 + c % 0x40) ∷ []
    else if ltb c 0x110000
    then (0xF0 + c / 0x40000)
      ∷ (0x80 + c / 0x1000 % 0x40)
      ∷ (0x80 + c / 0x40 % 0x40)
      ∷ (0x80 + c % 0x40)
      ∷ []
    else (c - 0x110000) ∷ []

unfoldable pub bytes : Text → List ℕ
unfolding encode
bytes [] = []
bytes (c ∷ s) = encode c ++ bytes s

-- len(s)
unfoldable pub byte_len : Text → ℕ
unfolding bytes
byte_len s = length (bytes s)

-- unicode.IsSpace
unfoldable pub is_space : ℕ → Bool
is_space c =
    leb 9 c && leb c 13
    || c == 0x20
    || c == 0x85
    || c == 0xA0
    || c == 0x1680
    || leb 0x2000 c && leb c 0x200A
    || c == 0x2028
    || c == 0x2029
    || c == 0x202F
    || c == 0x205F
    || c == 0x3000

-- unicode.IsControl
unfoldable pub is_control : ℕ → Bool
is_control c = ltb c 0x20 || leb 0x7F c && ltb c 0xA0

unfoldable pub trim_left : Text → Text
unfolding is_space
trim_left [] = []
trim_left (c ∷ s) = let rest = trim_left s in if is_space c then rest else c ∷ s

-- The blank tail of a text is dropped from its end.
unfoldable pub trim_right : Text → Text
unfolding is_space
trim_right [] = []
trim_right (c ∷ s) = let rest = trim_right s in if is_space c && rest == [] then [] else c ∷ rest

-- strings.TrimSpace
unfoldable pub trim_space : Text → Text
unfolding trim_left trim_right
trim_space s = trim_right (trim_left s)

-- strings.HasPrefix
unfoldable pub has_prefix : Text → Text → Bool
has_prefix s [] = true
has_prefix [] (p ∷ ps) = false
has_prefix (c ∷ s) (p ∷ ps) = (c == p) && has_prefix s ps

-- strings.Contains
unfoldable pub contains : Text → Text → Bool
unfolding has_prefix
contains [] p = has_prefix [] p
contains (c ∷ s) p = has_prefix (c ∷ s) p || contains s p

-- strings.ContainsAny
abbrev pub contains_any : Text → Text → Bool
contains_any s cs = any (λ c. any (λ d. c == d) cs) s

-- strings.TrimSuffix with a one-character suffix
unfoldable pub trim_suffix : ℕ → Text → Text
trim_suffix x [] = []
trim_suffix x (c ∷ []) = if c == x then [] else c ∷ []
trim_suffix x (c ∷ d ∷ s) = c ∷ trim_suffix x (d ∷ s)

abbrev pub push_head : ℕ → List Text → List Text
push_head c [] = (c ∷ []) ∷ []
push_head c (part ∷ parts) = (c ∷ part) ∷ parts

-- strings.Split with a one-character separator: never an empty list
unfoldable pub split : ℕ → Text → List Text
split x [] = [] ∷ []
split x (c ∷ s) = let rest = split x s in if c == x then [] ∷ rest else push_head c rest

-- strings.Fields: `cur` is the field that is being read
unfoldable pub fields_from : Text → Text → List Text
unfolding is_space
fields_from [] [] = []
fields_from (d ∷ cur) [] = reverse (d ∷ cur) ∷ []
fields_from cur (c ∷ s) = elim (is_space c) [
  | true ↦ elim cur [ [] ↦ fields_from [] s | d ∷ ds ↦ reverse (d ∷ ds) ∷ fields_from [] s ]
  | false ↦ fields_from (c ∷ cur) s
]

unfoldable pub fields : Text → List Text
unfolding fields_from
fields s = fields_from [] s

-- strings.Join
unfoldable pub join : Text → List Text → Text
join sep [] = []
join sep (s ∷ []) = s
join sep (s ∷ t ∷ rest) = s ++ (sep ++ join sep (t ∷ rest))

-- `<` on strings: the order of their bytes, which for valid UTF-8 is that of the code points. The
-- program orders only texts that it has validated or folded, which are valid.
unfoldable pub text_lt : Text → Text → Bool
text_lt s [] = false
text_lt [] (d ∷ t) = true
text_lt (c ∷ s) (d ∷ t) = ltb c d || (c == d) && text_lt s t

-- strconv.Itoa of a number that is not negative, most significant digit first; a number has no more
-- digits than its value plus one.
itoa_from : ℕ → ℕ → Text → Text
itoa_from zero n acc = acc
itoa_from (suc fuel) n acc =
    let more = itoa_from fuel (n / 10) ((b'0' + n % 10) ∷ acc) in
    if ltb n 10 then (b'0' + n) ∷ acc else more

unfoldable pub itoa : ℕ → Text
unfolding itoa_from
itoa n = itoa_from (suc n) n []

-- The tables of `unicode`: lower case, and the least character of a simple case-folding class.
-- The law is what they hold for ASCII.
pub record Casing : Type 0 where
  pub lower : ℕ → ℕ
  pub fold : ℕ → ℕ
  pub lower_ascii : (c : ℕ) → c < 128 → lower c ≡ (if leb b'A' c && leb c b'Z' then c + 32 else c)

module _ ⦃u : Casing⦄ where
  -- strings.ToLower: a stray byte becomes U+FFFD
  unfoldable pub to_lower : Text → Text
  to_lower = map (λ c. if is_rune c then u.lower c else 0xFFFD)

  -- strings.EqualFold: a stray byte is read as U+FFFD
  unfoldable pub equal_fold : Text → Text → Bool
  equal_fold s t =
      map (λ c. if is_rune c then u.fold c else u.fold 0xFFFD) s
      == map (λ c. if is_rune c then u.fold c else u.fold 0xFFFD) t
