-- ===== src/Tlv/Tests.antt =====
-- Messages at concrete values.
use ferricast.Base.{ℕ, ◌≡◌, refl, List, [], ◌∷◌, ◌++◌, arith, length, replicate}
use ferricast.Tlv.{Table, encode, decode, decode_loop, ok, tlv_error, get}
use ferricast.Tlv.Decode.{lone, short, Parsed, decode_loop-Parsed}
use ferricast.Tlv.RoundTrip.{collected, decode-encode, decode-encode_error}

-- Pair-setup M2, with the salt in two pieces.
abbrev items : List (ℕ × List ℕ)
items = (6, 2 ∷ []) ∷ (2, 1 ∷ 2 ∷ []) ∷ (3, []) ∷ (2, 9 ∷ []) ∷ []

encode-items : encode items ≡ 6 ∷ 1 ∷ 2 ∷ 2 ∷ 2 ∷ 1 ∷ 2 ∷ 3 ∷ 0 ∷ 2 ∷ 1 ∷ 9 ∷ []
unfolding encode
encode-items = refl

decode-items : decode (encode items) ≡ ok ((6, 2 ∷ []) ∷ (2, 1 ∷ 2 ∷ 9 ∷ []) ∷ (3, []) ∷ [])
unfolding encode decode
decode-items = refl

long_value : length (encode ((5, replicate 300 7) ∷ [])) ≡ 304
unfolding encode
long_value = refl

decode-encode_example :
    (m : Table) × (decode (encode items ++ (4 ∷ 9 ∷ 1 ∷ [])) ≡ ok m)
    × ((tag : ℕ) → get tag m ≡ collected tag items)
decode-encode_example = decode-encode items (4 ∷ 9 ∷ 1 ∷ []) (short 4 9 (1 ∷ []) (omega arith)) refl

decode-encode_error_example :
    decode (encode ((6, 4 ∷ []) ∷ (7, 2 ∷ []) ∷ []) ++ (1 ∷ [])) ≡ tlv_error (2 ∷ [])
decode-encode_error_example =
    decode-encode_error ((6, 4 ∷ []) ∷ (7, 2 ∷ []) ∷ []) (1 ∷ []) (2 ∷ []) (lone 1) refl

-- A whole chunk and one that is cut.
decode_loop-Parsed_example :
    Parsed (6 ∷ 1 ∷ 2 ∷ 4 ∷ 9 ∷ 1 ∷ []) [] (decode_loop 6 (6 ∷ 1 ∷ 2 ∷ 4 ∷ 9 ∷ 1 ∷ []) [])
decode_loop-Parsed_example = decode_loop-Parsed 6 (6 ∷ 1 ∷ 2 ∷ 4 ∷ 9 ∷ 1 ∷ []) [] (omega arith)
