-- ===== src/Cast.antt =====
-- crates/chromecast/src/castv2.rs and wire.rs: the length-prefixed messages of the cast
-- channel, and the loop that reads them from the connection. The protobuf coding of a message
-- (`encoded_len`, `encode` and `decode` of the prost crate) is a parameter.
pub mod Framing
pub mod Delivery
pub mod Errors
pub mod Bounds
mod Tests
use ferricast.Base.{ℕ, ◌+◌, ◌*◌, ◌^◌, List, [], ◌∷◌, ◌++◌, Option, none, some, ltb, if◌then◌else◌}
use ferricast.Base.{length, take, drop}
use ferricast.Base.Words.{u8, shr}

abbrev pub max_message_size : ℕ
max_message_size = 1024 * 1024

abbrev pub length_prefix_size : ℕ
length_prefix_size = 4

-- The errors that coding a frame can give: the size beside its limit, and prost's refusal of a
-- payload. Writing into a `Vec` never fails, so `encode` has no error.
pub data CastV2Error : Type 0 where
  frame_too_large : ℕ → ℕ → CastV2Error
  decode_error : CastV2Error

pub data CastResult (A : Type 0) : Type 0 where
  ok : A → CastResult A
  err : CastV2Error → CastResult A

-- `put_u32` and `u32::from_be_bytes`.
abbrev pub put_u32 : ℕ → List ℕ
put_u32 x = u8 (shr x 24) ∷ u8 (shr x 16) ∷ u8 (shr x 8) ∷ u8 x ∷ []

abbrev pub from_be_bytes : ℕ → ℕ → ℕ → ℕ → ℕ
from_be_bytes a b c d = a * 2 ^ 24 + b * 2 ^ 16 + c * 2 ^ 8 + d

-- What `read_buf` gives: bytes added to the buffer, none of them at the end of the stream, or
-- an error.
pub data Read : Type 0 where
  bytes_read : List ℕ → Read
  read_failed : Read

-- What `recv` returns. `oversize` is its own size check, `closed` is `Ok(None)`.
pub data Received (M : Type 0) : Type 0 where
  message : M → Received M
  protocol : CastV2Error → Received M
  oversize : Received M
  connection : Received M
  closed : Received M

module _ {M : Type 0} (encoded_len : M → ℕ) (encode : M → List ℕ) where
  pub encode_length_prefixed : M → CastResult (List ℕ)
  encode_length_prefixed msg =
      let proto_len = encoded_len msg in
      if ltb max_message_size proto_len
      then err (frame_too_large proto_len max_message_size)
      else ok (put_u32 proto_len ++ encode msg)

module _ {M : Type 0} (decode : List ℕ → Option M) where
  pub decoded : Option M → CastResult (Option M)
  decoded none = err decode_error
  decoded (some msg) = ok (some msg)

  -- The result beside what is left in the buffer: a payload that does not decode is consumed.
  decode_payload : ℕ → List ℕ → CastResult (Option M) × List ℕ
  unfolding decoded
  decode_payload msg_len buf =
      let total = length_prefix_size + msg_len in
      let after_prefix = drop length_prefix_size buf in
      if ltb max_message_size msg_len
      then (err (frame_too_large msg_len max_message_size), buf)
      else if ltb (length buf) total
      then (ok none, buf)
      else (decoded (decode (take msg_len after_prefix)), drop msg_len after_prefix)

  -- `ok none`: more bytes are needed.
  pub decode_length_prefixed : List ℕ → CastResult (Option M) × List ℕ
  unfolding decode_payload
  decode_length_prefixed (a ∷ b ∷ c ∷ d ∷ rest) =
      decode_payload (from_be_bytes a b c d) (a ∷ b ∷ c ∷ d ∷ rest)
  decode_length_prefixed short = (ok none, short)

  -- What a round of the loop returns before it reads, if it does.
  pub round : CastResult (Option M) → List ℕ → Option (Received M)
  round (ok (some msg)) buf = some (message msg)
  round (err e) buf = some (protocol e)
  round (ok none) buf = if ltb (max_message_size + 8) (length buf) then some oversize else none

  -- A call's answer, with the reads that are left and the buffer.
  abbrev pub State : Type 0
  State = Received M × List Read × List ℕ

  pub return_or : Option (Received M) → List Read → List ℕ → State → State
  return_or none reads buf next = next
  return_or (some answer) reads buf next = (answer, reads, buf)

  -- The list tells what the reads will give, in order; at its end the stream is at its end.
  pub recv : List Read → List ℕ → State
  unfolding decode_length_prefixed round return_or
  recv [] buf =
      let (result, buf') = decode_length_prefixed buf in
      return_or (round result buf') [] buf' (closed, [], buf')
  recv (read_failed ∷ reads) buf =
      let (result, buf') = decode_length_prefixed buf in
      return_or (round result buf') (read_failed ∷ reads) buf' (connection, reads, buf')
  recv (bytes_read [] ∷ reads) buf =
      let (result, buf') = decode_length_prefixed buf in
      return_or (round result buf') (bytes_read [] ∷ reads) buf' (closed, reads, buf')
  recv (bytes_read (b ∷ bs) ∷ reads) buf =
      let (result, buf') = decode_length_prefixed buf in
      let next = recv reads (buf' ++ b ∷ bs) in
      return_or (round result buf') (bytes_read (b ∷ bs) ∷ reads) buf' next
