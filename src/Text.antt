-- ===== src/Text.antt =====
-- Text as lists of bytes, with what the modelled code uses of Rust's `str`: splitting, stripping,
-- trimming, and the decimal forms of unsigned integers. Texts are taken to be ASCII, as those of
-- HTTP, RTSP and the playlists are, so trimming and case go by ASCII.
pub mod Laws
pub mod Numbers
mod Tests
use Prim.Native.Char.{code}
use Prim.Native.String.{String}
use ferricast.Base.{
  ℕ, zero, suc, ◌+◌, ◌-◌, ◌*◌, ◌/◌, ◌%◌, List, [], ◌∷◌, ◌++◌, Option, none, some, Bool, true, false,
  ◌&&◌, ◌||◌, ltb, leb, ◌==◌, if◌then◌else◌, length, take, drop,
}

abbrev pub Bytes : Type 0
Bytes = List ℕ

-- The bytes of a literal.
abbrev pub codes : String → Bytes
codes String.[] = []
codes (String.◌∷◌ c s) = code c ∷ codes s

unfoldable pub bytes_eq : Bytes → Bytes → Bool
bytes_eq [] [] = true
bytes_eq [] (b ∷ bs) = false
bytes_eq (a ∷ as') [] = false
bytes_eq (a ∷ as') (b ∷ bs) = a == b && bytes_eq as' bs

-- `str::strip_prefix`
unfoldable pub strip_prefix : Bytes → Bytes → Option Bytes
strip_prefix [] s = some s
strip_prefix (p ∷ ps) [] = none
strip_prefix (p ∷ ps) (b ∷ bs) = if p == b then strip_prefix ps bs else none

-- `str::strip_suffix`
unfoldable pub strip_suffix : Bytes → Bytes → Option Bytes
strip_suffix suffix s =
    let n = length s - length suffix in
    if leb (length suffix) (length s) && bytes_eq (drop n s) suffix then some (take n s) else none

abbrev pub is_some {ℓ} : {A : Type ℓ} → Option A → Bool
is_some none = false
is_some (some a) = true

abbrev after : ℕ → Option (Bytes × Bytes) → Option (Bytes × Bytes)
after b none = none
after b (some (l, r)) = some (b ∷ l, r)

-- `str::split_once` at a byte: what stands before its first occurrence, and behind it.
unfoldable pub split_once : ℕ → Bytes → Option (Bytes × Bytes)
split_once c [] = none
split_once c (b ∷ bs) =
    let rest = after b (split_once c bs) in if b == c then some ([], bs) else rest

abbrev pub keep_first : ℕ → List Bytes → List Bytes
keep_first b [] = (b ∷ []) ∷ []
keep_first b (w ∷ ws) = (b ∷ w) ∷ ws

-- `str::split` at a byte.
unfoldable pub split : ℕ → Bytes → List Bytes
split c [] = [] ∷ []
split c (b ∷ bs) = let ws = split c bs in if b == c then [] ∷ ws else keep_first b ws

unfoldable pub contains_byte : ℕ → Bytes → Bool
contains_byte c [] = false
contains_byte c (b ∷ bs) = b == c || contains_byte c bs

abbrev pub is_space : ℕ → Bool
is_space b = b == 32 || (leb 9 b && leb b 13)

unfoldable pub trim_start : Bytes → Bytes
trim_start [] = []
trim_start (b ∷ bs) = if is_space b then trim_start bs else b ∷ bs

-- Drops what a test holds of at the end.
unfoldable pub trim_end_matches : (ℕ → Bool) → Bytes → Bytes
trim_end_matches p [] = []
trim_end_matches p (b ∷ bs) = elim (trim_end_matches p bs) [
  | [] ↦ if p b then [] else b ∷ []
  | c ∷ cs ↦ b ∷ c ∷ cs
]

-- `str::trim`
unfoldable pub trim : Bytes → Bytes
trim s = trim_end_matches is_space (trim_start s)

unfoldable pub lower : ℕ → ℕ
lower b = if leb 65 b && leb b 90 then b + 32 else b

-- `str::eq_ignore_ascii_case`
unfoldable pub eq_ignore_case : Bytes → Bytes → Bool
eq_ignore_case [] [] = true
eq_ignore_case [] (b ∷ bs) = false
eq_ignore_case (a ∷ as') [] = false
eq_ignore_case (a ∷ as') (b ∷ bs) = lower a == lower b && eq_ignore_case as' bs

-- A number in decimal, as `{}` prints it. The number is fuel enough: each digit divides it by ten.
unfoldable pub show_from : ℕ → ℕ → Bytes
show_from zero n = (48 + n) ∷ []
show_from (suc fuel) n =
    let more = show_from fuel (n / 10) ++ (48 + n % 10) ∷ [] in
    if ltb n 10 then (48 + n) ∷ [] else more

unfoldable pub show : ℕ → Bytes
show n = show_from n n

abbrev pub is_digit : ℕ → Bool
is_digit b = leb 48 b && leb b 57

unfoldable pub read_digits : ℕ → Bytes → Option ℕ
read_digits acc [] = some acc
read_digits acc (b ∷ bs) =
    let rest = read_digits (acc * 10 + (b - 48)) bs in if is_digit b then rest else none

at_most : ℕ → Option ℕ → Option ℕ
at_most bound none = none
at_most bound (some n) = if leb n bound then some n else none

-- What is behind a sign, which must not be nothing.
unsigned : Bytes → Option ℕ
unsigned [] = none
unsigned (b ∷ bs) = read_digits 0 (b ∷ bs)

-- `str::parse` for an unsigned type with the greatest value `bound`: a `+` may lead.
unfoldable pub parse_uint : ℕ → Bytes → Option ℕ
unfolding at_most unsigned
parse_uint bound [] = none
parse_uint bound (b ∷ bs) = at_most bound (if b == 43 then unsigned bs else unsigned (b ∷ bs))
