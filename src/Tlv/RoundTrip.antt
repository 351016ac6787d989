-- ===== src/Tlv/RoundTrip.antt =====
-- `decode` reads back what `encode` wrote, also with a cut item behind it.
use ferricast.Base.{
  ℕ, zero, suc, ◌≤◌, ◌<◌, ◌≡◌, refl, sym, ap, ◌∙◌, ap₂, Bool, true, false, min, List, [], ◌∷◌, ◌++◌,
  append_assoc, append-nil, Option, none, some, arith,
}
use ferricast.Base.{
  length, take, drop, length-drop, length-take, length-append, take-append-drop, ◌==◌,
  if◌then◌else◌, All, All-append,
}
use ferricast.Tlv.{
  Table, get, extend, encode_chunks, encode_item, encode, decode_loop, decode, ok, tlv_error,
  check_error, tlv_type_error,
}
use ferricast.Tlv.Decode.{
  get-extend, or_empty, extend-extend, decode_loop-chunk, decode_loop-cut, decode_loop_fuel, IsCut,
}

-- All bytes that the items hold under a tag, in their order; `none` if no item has the tag.
abbrev pub collected : ℕ → List (ℕ × List ℕ) → Option (List ℕ)
collected t [] = none
collected t ((tag, v) ∷ items) =
    if tag == t then some (v ++ or_empty (collected t items)) else collected t items

abbrev table_from : Table → List (ℕ × List ℕ) → Table
table_from m [] = m
table_from m ((tag, v) ∷ items) = table_from (extend tag v m) items

abbrev join : Option (List ℕ) → Option (List ℕ) → Option (List ℕ)
join none b = b
join (some a) b = some (a ++ or_empty b)

get-table_from :
    (t : ℕ) (m : Table) (items : List (ℕ × List ℕ))
    → get t (table_from m items) ≡ join (get t m) (collected t items)
get-table_from t m [] = join_none (get t m)
  where
    join_none : (o : Option (List ℕ)) → o ≡ join o none
    join_none none = refl
    join_none (some a) = ap some (sym (append-nil a))
get-table_from t m ((tag, v) ∷ items) =
    get-table_from t (extend tag v m) items ∙ rw (get-extend tag v m t) (split (tag == t) (get t m))
  where
    split :
        (b : Bool) (o : Option (List ℕ))
        → join (if b then some (or_empty o ++ v) else o) (collected t items)
          ≡ join o (if b then some (v ++ or_empty (collected t items)) else collected t items)
    split true none = refl
    split true (some a) = ap some (append_assoc a v (or_empty (collected t items)))
    split false o = refl

-- The size of the next chunk of a value.
abbrev chunk_size : List ℕ → ℕ
chunk_size v = min (length v) 255

-- One round of both loops.
decode_loop-encode_chunks :
    (fuel tag b : ℕ) (bs rest : List ℕ) (f : ℕ) (m : Table)
    → length (encode_chunks (suc fuel) tag (b ∷ bs) ++ rest) ≤ f
    → let n = chunk_size (b ∷ bs) in
      let later = encode_chunks fuel tag (drop n (b ∷ bs)) ++ rest in
      decode_loop f (encode_chunks (suc fuel) tag (b ∷ bs) ++ rest) m
      ≡ decode_loop (length later) later (extend tag (take n (b ∷ bs)) m)
unfolding encode_chunks
decode_loop-encode_chunks fuel tag b bs rest f m h =
    let v : List ℕ = b ∷ bs in
    let n = chunk_size v in
    let chunk = take n v in
    let later = encode_chunks fuel tag (drop n v) ++ rest in
    let size : length chunk ≡ n = omega (arith, length-take n v) in
    let shape : (tag ∷ n ∷ chunk ++ encode_chunks fuel tag (drop n v)) ++ rest
        ≡ tag ∷ length chunk ∷ chunk ++ later =
      ap₂ (λ (k : ℕ) (l : List ℕ). tag ∷ k ∷ l) (sym size) (append_assoc chunk _ rest) in
    ap (λ l. decode_loop f l m) shape
    ∙ decode_loop-chunk f tag chunk later m
        (omega (arith, ap length shape, length-append chunk later))

decode_loop-no_chunks :
    (fuel tag : ℕ) (a rest : List ℕ) (f : ℕ) (m : Table)
    → length (encode_chunks fuel tag [] ++ rest) ≤ f
    → decode_loop f (encode_chunks fuel tag [] ++ rest) (extend tag a m)
      ≡ decode_loop (length rest) rest (extend tag (a ++ []) m)
unfolding encode_chunks
decode_loop-no_chunks fuel tag a rest f m k =
    rw append-nil (decode_loop_fuel f (length rest) rest (extend tag a m) k (omega arith))

-- The value may have been begun, with `a` already in the table.
decode_loop-chunks :
    (fuel tag : ℕ) (v a rest : List ℕ) (f : ℕ) (m : Table)
    → length v ≤ fuel
    → length (encode_chunks fuel tag v ++ rest) ≤ f
    → decode_loop f (encode_chunks fuel tag v ++ rest) (extend tag a m)
      ≡ decode_loop (length rest) rest (extend tag (a ++ v) m)
decode_loop-chunks fuel tag [] a rest f m h k = decode_loop-no_chunks fuel tag a rest f m k
decode_loop-chunks zero tag (b ∷ bs) a rest f m h k = absurd (omega arith)
decode_loop-chunks (suc fuel) tag (b ∷ bs) a rest f m h k =
    let v : List ℕ = b ∷ bs in
    let n = chunk_size v in
    let more =
      decode_loop-chunks fuel tag (drop n v) (a ++ take n v) rest _ m
        (omega (arith, length-drop n v)) (omega arith) in
    decode_loop-encode_chunks fuel tag b bs rest f (extend tag a m) k
    ∙ rw extend-extend more
    ∙ ap (λ (w : List ℕ). decode_loop (length rest) rest (extend tag w m))
        (append_assoc a (take n v) (drop n v) ∙ ap (λ w. a ++ w) (take-append-drop n v))

decode_loop-encode_item :
    (tag : ℕ) (v rest : List ℕ) (f : ℕ) (m : Table)
    → length (encode_item tag v ++ rest) ≤ f
    → decode_loop f (encode_item tag v ++ rest) m ≡ decode_loop (length rest) rest (extend tag v m)
unfolding encode_item
decode_loop-encode_item tag [] rest f m h = decode_loop-chunk f tag [] rest m (omega arith)
decode_loop-encode_item tag (b ∷ bs) rest f m h =
    let v : List ℕ = b ∷ bs in
    let n = chunk_size v in
    decode_loop-encode_chunks (length bs) tag b bs rest f m h
    ∙ decode_loop-chunks (length bs) tag (drop n v) (take n v) rest _ m
        (omega (arith, length-drop n v)) (omega arith)
    ∙ ap (λ (w : List ℕ). decode_loop (length rest) rest (extend tag w m)) (take-append-drop n v)

decode_loop-encode :
    (items : List (ℕ × List ℕ)) (tail : List ℕ) (f : ℕ) (m : Table)
    → IsCut tail
    → length (encode items ++ tail) ≤ f
    → decode_loop f (encode items ++ tail) m ≡ table_from m items
unfolding encode
decode_loop-encode [] tail f m c h = decode_loop-cut f m c
decode_loop-encode ((tag, v) ∷ items) tail f m c h =
    let later = encode items ++ tail in
    let shape : (encode_item tag v ++ encode items) ++ tail ≡ encode_item tag v ++ later =
      append_assoc (encode_item tag v) (encode items) tail in
    ap (λ l. decode_loop f l m) shape
    ∙ decode_loop-encode_item tag v later f m (omega (arith, ap length shape))
    ∙ decode_loop-encode items tail (length later) (extend tag v m) c (omega arith)

decode-encode_table :
    (items : List (ℕ × List ℕ)) (tail : List ℕ)
    → IsCut tail
    → decode (encode items ++ tail)
      ≡ check_error (table_from [] items) (collected tlv_type_error items)
unfolding decode
decode-encode_table items tail c =
    rw (decode_loop-encode items tail (length (encode items ++ tail)) [] c (omega arith))
      (ap (check_error (table_from [] items)) (get-table_from tlv_type_error [] items))

-- What a peer reads of the items that `encode` wrote, with a cut item or nothing behind them. If no
-- item has the error tag, `decode` succeeds, and under every tag its table holds the bytes of all
-- items with that tag, in order, and nothing if there is no such item.
pub decode-encode :
    (items : List (ℕ × List ℕ)) (tail : List ℕ)
    → IsCut tail
    → collected tlv_type_error items ≡ none
    → (m : Table) × (decode (encode items ++ tail) ≡ ok m)
      × ((tag : ℕ) → get tag m ≡ collected tag items)
unfolding check_error get
decode-encode items tail c e = (
  table_from [] items,
  rw (decode-encode_table items tail c, e),
  λ tag. get-table_from tag [] items,
)

-- If an item has the error tag, `decode` fails with the bytes of all such items, also where a cut
-- item stands behind the encoded ones.
pub decode-encode_error :
    (items : List (ℕ × List ℕ)) (tail code : List ℕ)
    → IsCut tail
    → collected tlv_type_error items ≡ some code
    → decode (encode items ++ tail) ≡ tlv_error code
unfolding check_error
decode-encode_error items tail code c e = rw (decode-encode_table items tail c, e)

-- An item of bytes.
abbrev pub IsByteItem : ℕ × List ℕ → Type 0
IsByteItem (tag, value) = (tag < 256) × All (λ b. b < 256) value

All-take : (n : ℕ) (v : List ℕ) → All (λ b. b < 256) v → All (λ b. b < 256) (take n v)
All-take zero v h = tt
All-take (suc n) [] h = tt
All-take (suc n) (b ∷ v) (h, hs) = (h, All-take n v hs)

All-drop : (n : ℕ) (v : List ℕ) → All (λ b. b < 256) v → All (λ b. b < 256) (drop n v)
All-drop zero v h = h
All-drop (suc n) [] h = tt
All-drop (suc n) (b ∷ v) (h, hs) = All-drop n v hs

encode_chunks-bytes :
    (fuel tag : ℕ) (v : List ℕ)
    → tag < 256
    → All (λ b. b < 256) v
    → All (λ b. b < 256) (encode_chunks fuel tag v)
unfolding encode_chunks
encode_chunks-bytes fuel tag [] t h = tt
encode_chunks-bytes zero tag (b ∷ bs) t h = tt
encode_chunks-bytes (suc fuel) tag (b ∷ bs) t h =
    let n = chunk_size (b ∷ bs) in
    (
      t,
      (
        omega arith,
        All-append (λ b. b < 256) (take n (b ∷ bs)) _ (All-take n (b ∷ bs) h)
            (encode_chunks-bytes fuel tag (drop n (b ∷ bs)) t (All-drop n (b ∷ bs) h)),
      ),
    )

encode_item-bytes :
    (tag : ℕ) (v : List ℕ) → IsByteItem (tag, v) → All (λ b. b < 256) (encode_item tag v)
unfolding encode_item
encode_item-bytes tag [] (t, h) = omega arith
encode_item-bytes tag (b ∷ bs) (t, h) = encode_chunks-bytes (length (b ∷ bs)) tag (b ∷ bs) t h

-- `encode` writes bytes: where tags and values are bytes, so is everything written, the lengths of
-- the chunks included.
pub encode-bytes :
    (items : List (ℕ × List ℕ)) → All IsByteItem items → All (λ b. b < 256) (encode items)
unfolding encode
encode-bytes [] h = tt
encode-bytes ((tag, v) ∷ items) (h, hs) =
    All-append (λ b. b < 256) (encode_item tag v) (encode items) (encode_item-bytes tag v h)
      (encode-bytes items hs)
