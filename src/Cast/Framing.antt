-- ===== src/Cast/Framing.antt =====
-- What decoding does with the front of a buffer.
use ferricast.Base.{
  ℕ, ◌+◌, ◌<◌, ◌≤◌, ◌≡◌, refl, ap, ◌∙◌, List, [], ◌∷◌, ◌++◌, Option, none, arith, if_lt, if_ge,
}
use ferricast.Base.{length, drop, get_or, take-append, drop-append, length-append}
use ferricast.Base.Words.{u8, shr}
use ferricast.Cast.{
  max_message_size, ok, put_u32, from_be_bytes, decode_payload, decoded, decode_length_prefixed,
}

-- Of two decompositions of a list the shorter first part begins the longer one.
pub split_append {ℓ} :
    {A : Type ℓ} (xs ys zs ws : List A)
    → xs ++ ys ≡ zs ++ ws
    → length zs ≤ length xs
    → (e : List A) × (xs ≡ zs ++ e) × (e ++ ys ≡ ws)
split_append xs ys [] ws h k = (xs, refl, h)
split_append [] ys (z ∷ zs) ws h k = absurd (omega arith)
split_append (x ∷ xs) ys (z ∷ zs) ws h k =
    let (e, same, rest) = split_append xs ys zs ws (ap (drop 1) h) (omega arith) in
    (e, ap (λ l. x ∷ l) same ∙ ap (λ d. d ∷ zs ++ e) (ap (λ l. get_or l 0 x) h), rest)

pub from_be_bytes-put_u32 :
    (n : ℕ)
    → n ≤ max_message_size
    → from_be_bytes (u8 (shr n 24)) (u8 (shr n 16)) (u8 (shr n 8)) (u8 n) ≡ n
from_be_bytes-put_u32 n h = omega arith

module _ {M : Type 0} (decode : List ℕ → Option M) where
  -- Decoding waits at a front of a frame that is not the whole frame.
  pub decode_waits :
      (n : ℕ) (payload buf more : List ℕ)
      → n ≤ max_message_size
      → buf ++ more ≡ put_u32 n ++ payload
      → length buf < 4 + n
      → decode_length_prefixed decode buf ≡ (ok none, buf)
  unfolding decode_length_prefixed decode_payload
  decode_waits n payload [] more small h k = refl
  decode_waits n payload (a ∷ []) more small h k = refl
  decode_waits n payload (a ∷ b ∷ []) more small h k = refl
  decode_waits n payload (a ∷ b ∷ c ∷ []) more small h k = refl
  decode_waits n payload (a ∷ b ∷ c ∷ d ∷ rest) more small h k =
      let value : from_be_bytes a b c d ≡ n =
        ap (λ l. from_be_bytes (get_or l 0 0) (get_or l 1 0) (get_or l 2 0) (get_or l 3 0)) h
        ∙ from_be_bytes-put_u32 n small in
      ap (λ v. decode_payload decode v (a ∷ b ∷ c ∷ d ∷ rest)) value
      ∙ if_ge max_message_size n _ _ small
      ∙ if_lt (length (a ∷ b ∷ c ∷ d ∷ rest)) (4 + n) _ _ k

  -- Decoding takes a whole frame off the buffer.
  pub decode_takes :
      (payload buf : List ℕ)
      → length payload ≤ max_message_size
      → decode_length_prefixed decode ((put_u32 (length payload) ++ payload) ++ buf)
        ≡ (decoded decode (decode payload), buf)
  unfolding decode_length_prefixed decode_payload
  decode_takes payload buf small =
      let n = length payload in
      let whole = (put_u32 n ++ payload) ++ buf in
      ap (λ v. decode_payload decode v whole) (from_be_bytes-put_u32 n small)
      ∙ if_ge max_message_size n _ _ small
      ∙ if_ge (length whole) (4 + n) _ _ (omega (arith, length-append payload buf))
      ∙ ap (λ p. (decoded decode (decode p), drop n (payload ++ buf))) (take-append payload buf)
      ∙ ap (λ b. (decoded decode (decode payload), b)) (drop-append payload buf)
