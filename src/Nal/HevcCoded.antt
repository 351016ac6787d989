-- ===== src/Nal/HevcCoded.antt =====
-- NAL units of parameter sets as a decoder reads them.
use ferricast.Base.{◌<◌}
use ferricast.Base.{
  ℕ, zero, suc, ◌*◌, ◌≡◌, refl, ap, ◌∙◌, List, [], ◌∷◌, ◌++◌, Bool, true, false, ◌&&◌, ◌==◌,
  if◌then◌else◌, Option, none, some, All, replicate, drop, length, length-replicate, lt→ltb, ==_iff,
  ltb, arith,
}
use ferricast.Nal.Escape.{contains_code, unescape}
use ferricast.Nal.Hevc.{finalize_nal, nal_header, finalize_nal-framed}
use ferricast.Nal.HevcSets.{Element, payload}
use ferricast.Nal.HevcBits.{byte_bits}
use ferricast.Nal.HevcPayload.{HasCode, payload-bits}
use ferricast.Nal.Syntax.{Syntax, parse, follow, parse-follow}

-- Zeros to the end, fewer than eight.
abbrev pub all_zero : List ℕ → Bool
all_zero [] = true
all_zero (b ∷ bs) = b == 0 && all_zero bs

-- 7.3.2.11: what stands behind the syntax of a set.
abbrev pub is_trailing : List ℕ → Bool
is_trailing [] = false
is_trailing (b ∷ bs) = b == 1 && ltb (length bs) 8 && all_zero bs

abbrev pub behind_syntax : {A : Type 0} → Option (A × List ℕ) → Option A
behind_syntax none = none
behind_syntax (some (a, bs)) = if is_trailing bs then some a else none

-- 7.3.1.2: the header of a unit of layer 0 and temporal id 0, in the byte stream of annex B.
abbrev pub read_unit : {A : Type 0} → Syntax A → ℕ → List ℕ → Option A
read_unit syntax nal_unit_type (a ∷ b ∷ c ∷ d ∷ first ∷ second ∷ ebsp) =
    let starts = a == 0 && b == 0 && c == 0 && d == 1 in
    let header = first == 2 * nal_unit_type && second == 1 in
    if starts && header then behind_syntax (parse syntax (byte_bits (unescape 0 ebsp))) else none
read_unit syntax nal_unit_type other = none

-- A unit that a decoder reads as `value`, with no start code after its header.
pub record Carries {A : Type 0} (syntax : Syntax A) (nal_unit_type : ℕ) (value : A) (bytes : List ℕ)
    : Type 0 where
  pub reads : read_unit syntax nal_unit_type bytes ≡ some value
  pub clean : contains_code (drop 6 bytes) ≡ false

all_zero-replicate : (n : ℕ) → all_zero (replicate n 0) ≡ true
all_zero-replicate zero = refl
all_zero-replicate (suc n) = all_zero-replicate n

-- The trailing bits are taken for what they are.
pub behind_syntax-trailing :
    {A : Type 0}
    → (value : A) (pad : ℕ) → pad < 8
    → behind_syntax (some (value, 1 ∷ replicate pad 0)) ≡ some value
behind_syntax-trailing value pad few =
    let zeros : List ℕ = replicate pad 0 in
    let short : ltb (length zeros) 8 ≡ true =
      lt→ltb (length zeros) 8 (omega (arith, few, length-replicate {A = ℕ} pad 0)) in
    rw short (rw (all_zero-replicate pad) refl)

pub finalize_nal-Carries :
    {A : Type 0}
    → (syntax : Syntax A) (nal_unit_type : ℕ) (es : List Element) (value : A)
    → nal_header nal_unit_type ≡ 2 * nal_unit_type ∷ 1 ∷ []
    → All HasCode es
    → follow syntax es ≡ some (value, [])
    → Carries syntax nal_unit_type value (finalize_nal nal_unit_type (payload es))
finalize_nal-Carries syntax t es value header codes e =
    let (ebsp, framed, clean, back) = finalize_nal-framed t (payload es) in
    let (pad, few, coded) = payload-bits es codes in
    let bytes_eq : finalize_nal t (payload es) ≡ 0 ∷ 0 ∷ 0 ∷ 1 ∷ 2 * t ∷ 1 ∷ ebsp =
      framed ∙ ap (λ (h : List ℕ). 0 ∷ 0 ∷ 0 ∷ 1 ∷ h ++ ebsp) header in
    let same : (2 * t == 2 * t) ≡ true = (==_iff (2 * t) (2 * t)).1 refl in
    let ends = behind_syntax-trailing value pad few in
    record {
      reads =
          ap (read_unit syntax t) bytes_eq
          ∙ rw same (
              ap (λ l. behind_syntax (parse syntax l)) (ap byte_bits back ∙ coded)
              ∙ ap behind_syntax (parse-follow syntax es value (1 ∷ replicate pad 0) codes e)
              ∙ ends);
      clean = ap (λ l. contains_code (drop 6 l)) bytes_eq ∙ clean;
    }
