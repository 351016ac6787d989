-- ===== src/Nal/Escape.antt =====
-- crates/encoder/src/h264/bitstream.rs: emulation prevention and the Annex B framing.
use ferricast.Base.{
  ℕ, zero, suc, ◌≤◌, ◌≡◌, refl, ap, ◌∙◌, List, [], ◌∷◌, ◌++◌, Bool, false, ◌&&◌, ◌||◌, leb, ◌==◌,
  if◌then◌else◌, arith, bit_and, bit_or, replicate, Bool-cases, inl, inr, leb→le,
}
use ferricast.Base.Words.{shl8}
use ferricast.Nal.Writer.{BitWriter, finish_rbsp}

-- The loop. The count is that of the zero bytes just written.
unfoldable pub prevent_loop : ℕ → List ℕ → List ℕ
prevent_loop count [] = []
prevent_loop count (b ∷ bs) =
    let escaped = prevent_loop (if b == 0 then 1 else 0) bs in
    let plain = prevent_loop (if b == 0 then suc count else 0) bs in
    if leb 2 count && leb b 3 then 3 ∷ b ∷ escaped else b ∷ plain

unfoldable pub emulation_prevent : List ℕ → List ℕ
emulation_prevent rbsp = prevent_loop 0 rbsp

-- The assertions on the header's fields are the caller's.
unfoldable pub nal_annexb : ℕ → ℕ → List ℕ → List ℕ
nal_annexb nal_ref_idc nal_unit_type ebsp =
    let header = bit_or (shl8 (bit_and nal_ref_idc 3) 5) (bit_and nal_unit_type 31) in
    0 ∷ 0 ∷ 0 ∷ 1 ∷ header ∷ ebsp

unfoldable pub finalize_nal : BitWriter → ℕ → ℕ → List ℕ
finalize_nal writer nal_ref_idc nal_unit_type =
    nal_annexb nal_ref_idc nal_unit_type (emulation_prevent (finish_rbsp writer))

-- What a decoder does (H.264 7.3.1): it drops a 3 behind two zero bytes.
unfoldable pub unescape : ℕ → List ℕ → List ℕ
unescape count [] = []
unescape count (b ∷ bs) =
    let dropped = unescape 0 bs in
    let kept = unescape (if b == 0 then suc count else 0) bs in
    if leb 2 count && b == 3 then dropped else b ∷ kept

abbrev code_first : List ℕ → Bool
code_first (a ∷ b ∷ c ∷ rest) = a == 0 && b == 0 && leb c 2
code_first _ = false

-- Somewhere in the bytes stand 00 00 00, 00 00 01 or 00 00 02, which no NAL unit may contain.
unfoldable pub contains_code : List ℕ → Bool
contains_code [] = false
contains_code (b ∷ bs) = code_first (b ∷ bs) || contains_code bs

unescape-prevent : (z : ℕ) (bs : List ℕ) → unescape z (prevent_loop z bs) ≡ bs
unfolding unescape prevent_loop
unescape-prevent z [] = refl
unescape-prevent z (b ∷ bs) =
    ground (arith, unescape-prevent (suc z) bs, unescape-prevent 1 bs, unescape-prevent 0 bs)

-- A byte that is not zero ends what could become a start code.
skip_byte : (b : ℕ) (l : List ℕ) → 1 ≤ b → contains_code (b ∷ l) ≡ contains_code l
unfolding contains_code
skip_byte b [] h = refl
skip_byte b (c ∷ []) h = refl
skip_byte b (c ∷ d ∷ l) h = ground arith

skip_after_zero : (b : ℕ) (l : List ℕ) → 1 ≤ b → contains_code (0 ∷ b ∷ l) ≡ contains_code l
unfolding contains_code
skip_after_zero b [] h = refl
skip_after_zero b (c ∷ l) h = ground (arith, skip_byte b (c ∷ l) h)

skip_after_zeros : (b : ℕ) (l : List ℕ) → 3 ≤ b → contains_code (0 ∷ 0 ∷ b ∷ l) ≡ contains_code l
unfolding contains_code
skip_after_zeros b l h = ground (arith, skip_after_zero b l)

prevent_plain :
    (z b : ℕ) (bs : List ℕ)
    → (leb 2 z && leb b 3) ≡ false
    → 1 ≤ b
    → prevent_loop z (b ∷ bs) ≡ b ∷ prevent_loop 0 bs
unfolding prevent_loop
prevent_plain z b bs e h = ground arith

prevent_escaped :
    (b : ℕ) (bs : List ℕ) → b ≤ 3 → 1 ≤ b → prevent_loop 2 (b ∷ bs) ≡ 3 ∷ b ∷ prevent_loop 0 bs
unfolding prevent_loop
prevent_escaped b bs e h = ground arith

clean_nonzero :
    (z b : ℕ) (bs : List ℕ)
    → z ≤ 2
    → 1 ≤ b
    → contains_code (prevent_loop 0 bs) ≡ false
    → contains_code (replicate z 0 ++ prevent_loop z (b ∷ bs)) ≡ false
clean_nonzero zero b bs h k e =
    ap contains_code (prevent_plain 0 b bs refl k) ∙ skip_byte b (prevent_loop 0 bs) k ∙ e
clean_nonzero (suc zero) b bs h k e =
    ap (λ l. contains_code (0 ∷ l)) (prevent_plain 1 b bs refl k)
    ∙ skip_after_zero b (prevent_loop 0 bs) k
    ∙ e
clean_nonzero (suc (suc zero)) b bs h k e = elim (Bool-cases (leb b 3)) [
  | inl small ↦
      ap (λ l. contains_code (0 ∷ 0 ∷ l)) (prevent_escaped b bs (leb→le b 3 small) k)
      ∙ skip_after_zeros 3 (b ∷ prevent_loop 0 bs) (omega arith)
      ∙ skip_byte b (prevent_loop 0 bs) k
      ∙ e
  | inr big ↦
      ap (λ l. contains_code (0 ∷ 0 ∷ l)) (prevent_plain 2 b bs big k)
      ∙ skip_after_zeros b (prevent_loop 0 bs) (ground arith)
      ∙ e
]
clean_nonzero (suc (suc (suc z))) b bs h k e = absurd (omega arith)

prevent-clean :
    (z : ℕ) (bs : List ℕ) → z ≤ 2 → contains_code (replicate z 0 ++ prevent_loop z bs) ≡ false
unfolding contains_code prevent_loop
prevent-clean zero [] h = refl
prevent-clean (suc zero) [] h = refl
prevent-clean (suc (suc zero)) [] h = refl
prevent-clean (suc (suc (suc z))) bs h = absurd (omega arith)
prevent-clean zero (zero ∷ bs) h = prevent-clean 1 bs (omega arith)
prevent-clean (suc zero) (zero ∷ bs) h = prevent-clean 2 bs (omega arith)
prevent-clean (suc (suc zero)) (zero ∷ bs) h =
    skip_after_zeros 3 (0 ∷ prevent_loop 1 bs) (omega arith) ∙ prevent-clean 1 bs (omega arith)
prevent-clean zero (suc b ∷ bs) h =
    clean_nonzero 0 (suc b) bs h (omega arith) (prevent-clean 0 bs (omega arith))
prevent-clean (suc zero) (suc b ∷ bs) h =
    clean_nonzero 1 (suc b) bs h (omega arith) (prevent-clean 0 bs (omega arith))
prevent-clean (suc (suc zero)) (suc b ∷ bs) h =
    clean_nonzero 2 (suc b) bs h (omega arith) (prevent-clean 0 bs (omega arith))

-- A decoder that drops the emulation prevention bytes gets the payload back, for every payload.
pub unescape-emulation_prevent : (rbsp : List ℕ) → unescape 0 (emulation_prevent rbsp) ≡ rbsp
unfolding emulation_prevent
unescape-emulation_prevent rbsp = unescape-prevent 0 rbsp

-- For every payload the escaped payload contains none of 00 00 00, 00 00 01 and 00 00 02.
pub emulation_prevent-clean : (rbsp : List ℕ) → contains_code (emulation_prevent rbsp) ≡ false
unfolding emulation_prevent
emulation_prevent-clean rbsp = prevent-clean 0 rbsp (omega arith)
