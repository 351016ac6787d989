-- ===== src/Nal/AvcBits.antt =====
-- The bits that the H.264 bit writer writes.
use ferricast.Base.{
  ℕ, zero, suc, ◌+◌, ◌-◌, ◌*◌, ◌%◌, ◌^◌, ◌<◌, ◌≤◌, ◌≡◌, refl, sym, ap, ap₂, ◌∙◌, List, [], ◌∷◌,
  ◌++◌, append_assoc, append-nil, ◌==◌, if◌then◌else◌, if_ne, bit_and, bit_or, arith, inl, inr,
  subst, compare_cases,
}
use ferricast.Base.Words.{shl8}
use ferricast.Base.Bits.{bit_and-low, bit_or-shifted}
use ferricast.Nal.Writer.{BitWriter, or_last, write_bit}
use ferricast.Nal.HevcBits.{bits, byte_bits, bits-snoc, byte_bits-append}
use native.Mathlib.Nat.{pow-suc, pow-le-pow_right, one-le-pow, add-mul}

-- The byte that is being filled: `n` bits with the value `r`, at its top.
abbrev pub tail : ℕ → ℕ → List ℕ
tail zero r = []
tail (suc n) r = r * 2 ^ (8 - suc n) ∷ []

-- A writer that has taken in the bits `bs`.
pub record HasWritten (w : BitWriter) (bs : List ℕ) : Type 0 where
  pub full : List ℕ
  pub rest : ℕ
  pub partial : w.bit_pos < 8
  pub small : rest < 2 ^ w.bit_pos
  pub bytes : w.buf ≡ full ++ tail w.bit_pos rest
  pub all_bits : bs ≡ byte_bits full ++ bits w.bit_pos rest

or_last-snoc : (l : List ℕ) (b x : ℕ) → or_last (l ++ b ∷ []) x ≡ l ++ bit_or b x ∷ []
unfolding or_last
or_last-snoc [] b x = refl
or_last-snoc (a ∷ []) b x = refl
or_last-snoc (a ∷ c ∷ l) b x = ap (λ r. a ∷ r) (or_last-snoc (c ∷ l) b x)

bit_times : (b p : ℕ) → b < 2 → b * p ≤ p
bit_times zero p h = omega arith
bit_times (suc zero) p h = omega arith
bit_times (suc (suc b)) p h = absurd (omega arith)

-- A byte with the next bit in it: `m` places stay free.
joined : (m r b : ℕ) → m < 8 → b < 2 → bit_or (r * 2 ^ suc m) (shl8 b m) ≡ (r * 2 + b) * 2 ^ m
joined m r b h l =
    let room : 2 ^ m ≤ 2 ^ 7 =
      pow-le-pow_right {n = 2} (omega arith) {i = m} {j = 7} (omega arith) in
    let few : b * 2 ^ m ≤ 2 ^ m = bit_times b (2 ^ m) l in
    let some_left : 1 ≤ 2 ^ m = one-le-pow m 2 (omega arith) in
    ap (bit_or (r * 2 ^ suc m)) (let e : b * 2 ^ m % 256 ≡ b * 2 ^ m = omega arith in e)
    ∙ bit_or-shifted (suc m) r (b * 2 ^ m) (omega (arith, pow-suc 2 m))
    ∙ omega (arith, ap (λ (p : ℕ). r * p) (pow-suc 2 m), add-mul (r * 2) b (2 ^ m))

-- The buffer before the bit is set: its last byte is that of `tail`, or a new zero byte.
pushed-tail :
    (buf full : List ℕ) (n r : ℕ)
    → n < 8
    → r < 2 ^ n
    → buf ≡ full ++ tail n r
    → (if n == 0 then buf ++ 0 ∷ [] else buf) ≡ full ++ r * 2 ^ suc (7 - n) ∷ []
pushed-tail buf full zero r h small e =
    ap (λ l. l ++ 0 ∷ []) (e ∙ append-nil full)
    ∙ ap (λ (x : ℕ). full ++ x ∷ []) (let q : 0 ≡ r * 2 ^ suc (7 - 0) = omega arith in q)
pushed-tail buf full (suc n) r h small e =
    if_ne (suc n) 0 (buf ++ 0 ∷ []) buf (λ q. omega arith)
    ∙ e
    ∙ ap (λ (k : ℕ). full ++ r * 2 ^ k ∷ [])
        (let q : 8 - suc n ≡ suc (7 - suc n) = omega arith in q)

holds_at :
    (w : BitWriter) (bs full : List ℕ) (rest p : ℕ)
    → w.bit_pos ≡ p
    → p < 8
    → rest < 2 ^ p
    → w.buf ≡ full ++ tail p rest
    → bs ≡ byte_bits full ++ bits p rest
    → HasWritten w bs
holds_at w bs full rest p e h small bytes all = record {
  full = full;
  rest = rest;
  partial = omega arith;
  small = subst (λ (q : ℕ). rest < 2 ^ q) (sym e) small;
  bytes = bytes ∙ ap (λ (q : ℕ). full ++ tail q rest) (sym e);
  all_bits = all ∙ ap (λ (q : ℕ). byte_bits full ++ bits q rest) (sym e);
}

write_bit-buf :
    (w : BitWriter) (bs : List ℕ) (b : ℕ) (v : HasWritten w bs)
    → b < 2
    → (write_bit w b).buf ≡ v.full ++ (v.rest * 2 + b) * 2 ^ (7 - w.bit_pos) ∷ []
unfolding write_bit
write_bit-buf w bs b v h =
    let n = w.bit_pos in
    let m = 7 - n in
    let same : bit_and b 1 ≡ b = bit_and-low 1 b ∙ (let q : b % 2 ^ 1 ≡ b = omega arith in q) in
    ap₂ (λ l (x : ℕ). or_last l (shl8 x m))
      (pushed-tail w.buf v.full n v.rest v.partial v.small v.bytes) same
    ∙ or_last-snoc v.full (v.rest * 2 ^ suc m) (shl8 b m)
    ∙ ap (λ (x : ℕ). v.full ++ x ∷ []) (joined m v.rest b (omega arith) h)

snoc_bits :
    (full : List ℕ) (n r b : ℕ)
    → b < 2
    → byte_bits full ++ bits n r ++ b ∷ [] ≡ byte_bits full ++ bits (suc n) (r * 2 + b)
snoc_bits full n r b h =
    append_assoc (byte_bits full) (bits n r) (b ∷ [])
    ∙ ap (λ l. byte_bits full ++ l) (sym (bits-snoc n r b h))

write_bit-pos : (w : BitWriter) (b : ℕ) → (write_bit w b).bit_pos ≡ (w.bit_pos + 1) % 2 ^ 3
unfolding write_bit
write_bit-pos w b = bit_and-low 3 (w.bit_pos + 1)

whole_byte : (full : List ℕ) (c : ℕ) → byte_bits full ++ bits 8 c ≡ byte_bits (full ++ c ∷ []) ++ []
unfolding byte_bits
whole_byte full c =
    ap (λ l. byte_bits full ++ l) (sym (append-nil (bits 8 c)))
    ∙ sym (byte_bits-append full (c ∷ []))
    ∙ sym (append-nil (byte_bits (full ++ c ∷ [])))

fills-HasWritten :
    (w : BitWriter) (bs : List ℕ) (b : ℕ)
    → HasWritten w bs
    → b < 2
    → w.bit_pos ≡ 7
    → HasWritten (write_bit w b) (bs ++ b ∷ [])
unfolding bits
fills-HasWritten w bs b v h last =
    let c = v.rest * 2 + b in
    holds_at (write_bit w b) (bs ++ b ∷ []) (v.full ++ c ∷ []) 0 0
      (write_bit-pos w b ∙ (let q : (w.bit_pos + 1) % 2 ^ 3 ≡ 0 = omega arith in q)) (omega arith)
      (omega arith)
      (write_bit-buf w bs b v h
        ∙ ap (λ (k : ℕ). v.full ++ c * 2 ^ (7 - k) ∷ []) last
        ∙ ap (λ (x : ℕ). v.full ++ x ∷ []) (let q : c * 2 ^ (7 - 7) ≡ c = omega arith in q)
        ∙ sym (append-nil (v.full ++ c ∷ [])))
      (ap (λ l. l ++ b ∷ []) v.all_bits
        ∙ snoc_bits v.full w.bit_pos v.rest b h
        ∙ ap (λ (k : ℕ). byte_bits v.full ++ bits (suc k) c) last
        ∙ whole_byte v.full c)

grows-HasWritten :
    (w : BitWriter) (bs : List ℕ) (b : ℕ)
    → HasWritten w bs
    → b < 2
    → w.bit_pos < 7
    → HasWritten (write_bit w b) (bs ++ b ∷ [])
grows-HasWritten w bs b v h more =
    let c = v.rest * 2 + b in
    holds_at (write_bit w b) (bs ++ b ∷ []) v.full c (suc w.bit_pos)
      (write_bit-pos w b ∙ (let q : (w.bit_pos + 1) % 2 ^ 3 ≡ suc w.bit_pos = omega arith in q))
      (omega arith) (omega (arith, pow-suc 2 w.bit_pos, v.small))
      (write_bit-buf w bs b v h
        ∙ ap (λ (k : ℕ). v.full ++ c * 2 ^ k ∷ [])
            (let q : 7 - w.bit_pos ≡ 8 - suc w.bit_pos = omega arith in q))
      (ap (λ l. l ++ b ∷ []) v.all_bits ∙ snoc_bits v.full w.bit_pos v.rest b h)

pub write_bit-HasWritten :
    (w : BitWriter) (bs : List ℕ) (b : ℕ)
    → HasWritten w bs
    → b < 2
    → HasWritten (write_bit w b) (bs ++ b ∷ [])
write_bit-HasWritten w bs b v h = elim (compare_cases w.bit_pos 7) [
  | inl more ↦ grows-HasWritten w bs b v h more
  | inr (inl last) ↦ fills-HasWritten w bs b v h last
  | inr (inr past) ↦ absurd (omega (arith, v.partial))
]
