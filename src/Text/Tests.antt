-- ===== src/Text/Tests.antt =====
-- Texts at concrete values.
use ferricast.Base.{◌≡◌, refl, [], ◌∷◌, none}
use ferricast.Text.{codes, trim, trim_start, trim_end_matches, split, parse_uint, read_digits}

-- Blanks inside a text stay.
trim_blanks : trim (codes " a b ") ≡ codes "a b"
unfolding trim trim_start trim_end_matches
trim_blanks = refl

split_pairs : split 38 (codes "a=1&b") ≡ codes "a=1" ∷ codes "b" ∷ []
unfolding split
split_pairs = refl

-- A sign alone is no number, and 300 is none of eight bits.
parse_sign : parse_uint 255 (codes "+") ≡ none
unfolding parse_uint
parse_sign = refl

parse_over : parse_uint 255 (codes "300") ≡ none
unfolding parse_uint read_digits
parse_over = refl
