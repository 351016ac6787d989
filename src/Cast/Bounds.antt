-- ===== src/Cast/Bounds.antt =====
-- What the buffer of `recv` can hold while it waits.
use ferricast.Base.{ℕ, ◌+◌, ◌≤◌, List, [], ◌∷◌, ◌++◌, Option, some, none, arith, if_ge}
use ferricast.Base.{length, drop, take}
use ferricast.Cast.{
  max_message_size, CastResult, ok, err, Read, bytes_read, read_failed, Received, oversize,
  from_be_bytes, decoded, decode_payload, decode_length_prefixed, round, return_or, recv,
}

module _ {M : Type 0} where
  -- A result that asks for more bytes comes with a buffer of at most the prefix and the limit.
  abbrev Bounded : CastResult (Option M) × List ℕ → Type 0
  Bounded (ok none, buf) = length buf ≤ max_message_size + 4
  Bounded other = Unit {0}

  abbrev pub Fits : Received M → Type 0
  Fits oversize = ⊥
  Fits other = Unit {0}

module _ {M : Type 0} (decode : List ℕ → Option M) where
  decoded-Bounded : (o : Option M) (buf : List ℕ) → Bounded (decoded decode o, buf)
  unfolding decoded
  decoded-Bounded none buf = tt
  decoded-Bounded (some msg) buf = tt

  decode_payload-Bounded : (n : ℕ) (buf : List ℕ) → Bounded (decode_payload decode n buf)
  unfolding decode_payload
  decode_payload-Bounded n buf =
      ground (arith, decoded-Bounded (decode (take n (drop 4 buf))) (drop n (drop 4 buf)))

  decode-Bounded : (buf : List ℕ) → Bounded (decode_length_prefixed decode buf)
  unfolding decode_length_prefixed
  decode-Bounded [] = omega arith
  decode-Bounded (a ∷ []) = omega arith
  decode-Bounded (a ∷ b ∷ []) = omega arith
  decode-Bounded (a ∷ b ∷ c ∷ []) = omega arith
  decode-Bounded (a ∷ b ∷ c ∷ d ∷ rest) =
      decode_payload-Bounded (from_be_bytes a b c d) (a ∷ b ∷ c ∷ d ∷ rest)

  return_or-Fits :
      (r : CastResult (Option M) × List ℕ) (reads : List Read)
      (next : Received M × List Read × List ℕ)
      → Bounded r
      → Fits next.0
      → Fits (return_or decode (round decode r.0 r.1) reads r.1 next).0
  unfolding round return_or
  return_or-Fits (ok (some msg), buf) reads next h k = tt
  return_or-Fits (err e, buf) reads next h k = tt
  return_or-Fits (ok none, buf) reads next h k =
      let stays =
        if_ge {A = Option (Received M)} (max_message_size + 8) (length buf) (some oversize) none
          (omega arith) in
      rw stays k

  -- Whatever the reads give, and whatever the buffer holds at first, `recv` never answers with
  -- its own size check.
  pub recv-Fits : (reads : List Read) (buf : List ℕ) → Fits (recv decode reads buf).0
  unfolding recv
  recv-Fits [] buf = return_or-Fits _ _ _ (decode-Bounded buf) tt
  recv-Fits (read_failed ∷ reads) buf = return_or-Fits _ _ _ (decode-Bounded buf) tt
  recv-Fits (bytes_read [] ∷ reads) buf = return_or-Fits _ _ _ (decode-Bounded buf) tt
  recv-Fits (bytes_read (b ∷ bs) ∷ reads) buf =
      let buf' = (decode_length_prefixed decode buf).1 in
      return_or-Fits _ _ _ (decode-Bounded buf) (recv-Fits reads (buf' ++ b ∷ bs))
