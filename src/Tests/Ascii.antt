-- ===== src/Tests/Ascii.antt =====
-- Letter case for ASCII, which is what the examples are written in.
use booth_catalog.Prelude.{ℕ, ◌&&◌, ◌+◌, refl, leb, if◌then◌else◌}
use booth_catalog.Text.{Casing}

abbrev pub lower_ascii : ℕ → ℕ
lower_ascii c = if leb b'A' c && leb c b'Z' then c + 32 else c

instance abbrev pub ascii : Casing
ascii = record { lower = lower_ascii; fold = lower_ascii; lower_ascii = λ c h. refl }
