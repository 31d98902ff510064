-- ===== src/Text/Order.antt =====
-- The order of strings is a strict order without ties.
use booth_catalog.Prelude.{◌≡◌, refl, true, false, [], ◌∷◌, arith, nat_eq, list_eq}
use booth_catalog.Prelude.Sorting.Laws.{IsTotalOrder}
use booth_catalog.Text.{Text, text_lt}

text_lt_asymm : (s t : Text) → text_lt s t ≡ true → text_lt t s ≡ false
unfolding text_lt
text_lt_asymm s [] h = cc
text_lt_asymm [] (d ∷ t) h = refl
text_lt_asymm (c ∷ s) (d ∷ t) h = ground (arith, text_lt_asymm s t)

text_lt_trans : (a b c : Text) → text_lt b a ≡ false → text_lt c b ≡ false → text_lt c a ≡ false
unfolding text_lt
text_lt_trans [] b c h k = refl
text_lt_trans (x ∷ a) [] c h k = cc
text_lt_trans (x ∷ a) (y ∷ b) [] h k = cc
text_lt_trans (x ∷ a) (y ∷ b) (z ∷ c) h k = ground (arith, text_lt_trans a b c)

text_lt_total : (a b : Text) → text_lt a b ≡ false → text_lt b a ≡ false → a ≡ b
unfolding text_lt
text_lt_total [] [] h k = refl
text_lt_total [] (y ∷ b) h k = cc
text_lt_total (x ∷ a) [] h k = cc
text_lt_total (x ∷ a) (y ∷ b) h k = ground (arith, text_lt_total a b)

pub text_lt-IsTotalOrder : IsTotalOrder text_lt
text_lt-IsTotalOrder = record {
  weak = record { asymm = text_lt_asymm; trans = text_lt_trans };
  total = text_lt_total;
}
