-- ===== src/Tlv/Decode.antt =====
-- The loop of `decode` on any input.
use ferricast.Base.{
  ℕ, zero, suc, ◌+◌, ◌≤◌, ◌<◌, ◌≡◌, refl, sym, ap, ◌∙◌, List, [], ◌∷◌, ◌++◌, Option, none, some,
  arith,
}
use ferricast.Base.{
  length, take, drop, length-drop, length-append, take-append, drop-append, length-take,
  take-append-drop, append_assoc, le→ltb, lt→ltb, ◌==◌, if◌then◌else◌,
}
use native.Mathlib.Decide.{dec_lt}
use ferricast.Tlv.{Table, get, extend, decode_loop}

-- What `or_default` starts from.
abbrev pub or_empty : Option (List ℕ) → List ℕ
or_empty none = []
or_empty (some v) = v

pub get-extend :
    (tag : ℕ) (bytes : List ℕ) (m : Table) (t : ℕ)
    → get t (extend tag bytes m)
      ≡ (if tag == t then some (or_empty (get t m) ++ bytes) else get t m)
unfolding get extend
get-extend tag bytes [] t = refl
get-extend tag bytes ((u, v) ∷ m) t = ground (arith, get-extend tag bytes m t)

-- Every fuel that covers the input of the loop of `decode` gives the same table: the loop never
-- stops for want of fuel.
pub decode_loop_fuel :
    (f g : ℕ) (bytes : List ℕ) (m : Table)
    → length bytes ≤ f
    → length bytes ≤ g
    → decode_loop f bytes m ≡ decode_loop g bytes m
unfolding decode_loop
decode_loop_fuel f g [] m p q = refl
decode_loop_fuel f g (tag ∷ []) m p q = refl
decode_loop_fuel zero g (tag ∷ n ∷ rest) m p q = absurd (omega arith)
decode_loop_fuel (suc f) zero (tag ∷ n ∷ rest) m p q = absurd (omega arith)
decode_loop_fuel (suc f) (suc g) (tag ∷ n ∷ rest) m p q =
    ground
      (arith, length-drop n rest, decode_loop_fuel f g (drop n rest) (extend tag (take n rest) m))

-- Extending twice by one tag is extending once by both.
pub extend-extend :
    (tag : ℕ) (a b : List ℕ) (m : Table) → extend tag b (extend tag a m) ≡ extend tag (a ++ b) m
unfolding extend
extend-extend tag a b [] = ground arith
extend-extend tag a b ((t, v) ∷ m) = ground (arith, extend-extend tag a b m, append_assoc v a b)

-- One round on a whole chunk.
pub decode_loop-chunk :
    (f tag : ℕ) (chunk rest : List ℕ) (m : Table)
    → length chunk + length rest + 2 ≤ f
    → decode_loop f (tag ∷ length chunk ∷ chunk ++ rest) m
      ≡ decode_loop (length rest) rest (extend tag chunk m)
unfolding decode_loop
decode_loop-chunk zero tag chunk rest m h = absurd (omega arith)
decode_loop-chunk (suc f) tag chunk rest m h =
    rw (le→ltb (length (chunk ++ rest)) (length chunk) (omega (arith, length-append chunk rest))) (
      rw (take-append, drop-append)
        (decode_loop_fuel f (length rest) rest (extend tag chunk m) (omega arith) (omega arith)))

-- What is left is no whole chunk: the loop stops there.
pub data IsCut : List ℕ → Type 0 where
  nothing : IsCut []
  lone : (tag : ℕ) → IsCut (tag ∷ [])
  short :
      (tag data_len : ℕ) (rest : List ℕ) → length rest < data_len → IsCut (tag ∷ data_len ∷ rest)

pub decode_loop-cut : (f : ℕ) (m : Table) {tail : List ℕ} → IsCut tail → decode_loop f tail m ≡ m
unfolding decode_loop
decode_loop-cut f m nothing = refl
decode_loop-cut f m (lone tag) = refl
decode_loop-cut zero m (short tag n rest h) = refl
decode_loop-cut (suc f) m (short tag n rest h) = rw (lt→ltb (length rest) n h)

-- Chunks as `decode` reads them off, each with its tag, and the bytes they stand in.
abbrev pub chunk_bytes : List (ℕ × List ℕ) → List ℕ
chunk_bytes [] = []
chunk_bytes ((tag, chunk) ∷ chunks) = tag ∷ length chunk ∷ chunk ++ chunk_bytes chunks

abbrev pub collect : List (ℕ × List ℕ) → Table → Table
collect [] m = m
collect ((tag, chunk) ∷ chunks) m = collect chunks (extend tag chunk m)

-- What a loop that started from `m` at `bytes` has made: the bytes are whole chunks and a cut tail,
-- and the chunks are collected in their order.
abbrev pub Parsed : List ℕ → Table → Table → Type 0
Parsed bytes m result =
    (chunks : List (ℕ × List ℕ)) × (tail : List ℕ) × (bytes ≡ chunk_bytes chunks ++ tail)
    × IsCut tail
    × (result ≡ collect chunks m)

chunk-Parsed :
    (tag n : ℕ) (rest : List ℕ) (m result : Table)
    → n ≤ length rest
    → Parsed (drop n rest) (extend tag (take n rest) m) result
    → Parsed (tag ∷ n ∷ rest) m result
chunk-Parsed tag n rest m result h (chunks, tail, e, cut, made) =
    let whole : length (take n rest) ≡ n = omega (arith, length-take n rest) in
    (
      (tag, take n rest) ∷ chunks,
      tail,
      ap (λ (k : ℕ). tag ∷ k ∷ rest) (sym whole)
          ∙ ap (λ l. tag ∷ length (take n rest) ∷ l)
              (sym (take-append-drop n rest)
                ∙ ap (λ l. take n rest ++ l) e
                ∙ sym (append_assoc (take n rest) (chunk_bytes chunks) tail)),
      cut,
      made,
    )

-- On every input, with fuel that covers it, the loop of `decode` reads off whole chunks, each of as
-- many bytes as its length byte tells, collects them in the table in their order, and stops where
-- what is left is no whole chunk.
pub decode_loop-Parsed :
    (f : ℕ) (bytes : List ℕ) (m : Table) → length bytes ≤ f → Parsed bytes m (decode_loop f bytes m)
unfolding decode_loop
decode_loop-Parsed f [] m h = ([], [], refl, nothing, refl)
decode_loop-Parsed f (tag ∷ []) m h = ([], tag ∷ [], refl, lone tag, refl)
decode_loop-Parsed zero (tag ∷ n ∷ rest) m h = absurd (omega arith)
decode_loop-Parsed (suc f) (tag ∷ n ∷ rest) m h = elim (dec_lt (length rest) n) [
  | yes cut ↦ ([], tag ∷ n ∷ rest, refl, short tag n rest cut, rw (lt→ltb (length rest) n cut) refl)
  | no whole ↦
      let more = extend tag (take n rest) m in
      let there = le→ltb (length rest) n (omega arith) in
      let later = decode_loop-Parsed f (drop n rest) more (omega (arith, length-drop n rest)) in
      rw there (chunk-Parsed tag n rest m (decode_loop f (drop n rest) more) (omega arith) later)
]
