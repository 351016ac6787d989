-- ===== src/Tlv.antt =====
-- crates/airplay/src/tlv.rs: the tag-length-value coding of the AirPlay pairing messages.
-- A byte slice is a list of numbers below 256. Writing into a `Vec` never fails, so `encode`
-- has no error case.
pub mod Decode
pub mod RoundTrip
mod Tests
use ferricast.Base.{
  ℕ, zero, suc, ◌+◌, min, List, [], ◌∷◌, ◌++◌, Option, none, some, ltb, leb, ◌==◌, if◌then◌else◌,
}
use ferricast.Base.{length, take, drop}

abbrev pub tlv_type_error : ℕ
tlv_type_error = 7

-- The inner loop of `encode`: chunks of at most 255 bytes. A round takes a byte at least, so
-- `length value` rounds are enough.
pub encode_chunks : ℕ → ℕ → List ℕ → List ℕ
encode_chunks fuel tag [] = []
encode_chunks zero tag (b ∷ bs) = []
encode_chunks (suc fuel) tag (b ∷ bs) =
    let chunk_len = min (length (b ∷ bs)) 255 in
    tag ∷ chunk_len ∷ take chunk_len (b ∷ bs) ++ encode_chunks fuel tag (drop chunk_len (b ∷ bs))

-- One item: an empty value is written as a chunk of length 0.
pub encode_item : ℕ → List ℕ → List ℕ
unfolding encode_chunks
encode_item tag [] = tag ∷ 0 ∷ []
encode_item tag (b ∷ bs) = encode_chunks (length (b ∷ bs)) tag (b ∷ bs)

pub encode : List (ℕ × List ℕ) → List ℕ
unfolding encode_item
encode [] = []
encode ((tag, value) ∷ items) = encode_item tag value ++ encode items

-- `HashMap<u8, Vec<u8>>` as an association list.
abbrev pub Table : Type 0
Table = List (ℕ × List ℕ)

pub get : ℕ → Table → Option (List ℕ)
get tag [] = none
get tag ((t, v) ∷ m) = if t == tag then some v else get tag m

-- `entry(tag).or_default().extend_from_slice(bytes)`
pub extend : ℕ → List ℕ → Table → Table
extend tag bytes [] = (tag, bytes) ∷ []
extend tag bytes ((t, v) ∷ m) =
    if t == tag then (t, v ++ bytes) ∷ m else (t, v) ∷ extend tag bytes m

-- The list is `bytes[offset..]`. A round takes two bytes at least.
pub decode_loop : ℕ → List ℕ → Table → Table
unfolding extend
decode_loop fuel [] result = result
decode_loop fuel (tag ∷ []) result = result
decode_loop zero (tag ∷ data_len ∷ rest) result = result
decode_loop (suc fuel) (tag ∷ data_len ∷ rest) result =
    let more = decode_loop fuel (drop data_len rest) (extend tag (take data_len rest) result) in
    if ltb (length rest) data_len then result else more

pub data Decoded : Type 0 where
  ok : Table → Decoded
  tlv_error : List ℕ → Decoded

check_error : Table → Option (List ℕ) → Decoded
check_error result none = ok result
check_error result (some code) = tlv_error code

pub decode : List ℕ → Decoded
unfolding decode_loop get check_error
decode bytes =
    let result = decode_loop (length bytes) bytes [] in
    check_error result (get tlv_type_error result)
