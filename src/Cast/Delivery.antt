-- ===== src/Cast/Delivery.antt =====
-- What calls of `recv` give from a stream that arrives in pieces.
use ferricast.Base.{
  ℕ, zero, suc, ◌+◌, ◌<◌, ◌≤◌, ◌≡◌, ◌⊎◌, refl, sym, ap, ◌∙◌, List, [], ◌∷◌, ◌++◌, Option, some,
  none, map, arith, if_ge, inl, inr, compare_cases, append-nil, append_assoc,
}
use ferricast.Base.{length, All, length-append}
use ferricast.Cast.{
  max_message_size, CastResult, ok, err, Read, bytes_read, read_failed, Received, message, closed,
  put_u32, encode_length_prefixed, decoded, decode_length_prefixed, round, return_or, recv,
}
use ferricast.Cast.Framing.{split_append, decode_waits, decode_takes}

-- The bytes that the reads give up to the end of the stream.
abbrev pub bytes_of : List Read → List ℕ
bytes_of [] = []
bytes_of (bytes_read bs ∷ reads) = bs ++ bytes_of reads
bytes_of (read_failed ∷ reads) = bytes_of reads

-- Reads that give at least a byte each and do not fail.
abbrev pub Delivers : List Read → Type 0
Delivers [] = Unit {0}
Delivers (bytes_read (b ∷ bs) ∷ reads) = Delivers reads
Delivers (other ∷ reads) = ⊥

lt_or_le : (a b : ℕ) → (a < b) ⊎ (b ≤ a)
lt_or_le a b = elim (compare_cases a b) [
  | inl h ↦ inl h
  | inr (inl h) ↦ inr (omega arith)
  | inr (inr h) ↦ inr (omega arith)
]

regroup : (a b c d : List ℕ) → a ++ ((b ++ c) ++ d) ≡ (a ++ b) ++ (c ++ d)
regroup a b c d = ap (λ l. a ++ l) (append_assoc b c d) ∙ sym (append_assoc a b (c ++ d))

abbrev pub bytes_sent : CastResult (List ℕ) → List ℕ
bytes_sent (ok bs) = bs
bytes_sent (err e) = []

module _ {M : Type 0} (decode : List ℕ → Option M) where
  -- The answers of calls of `recv`, one after the other.
  abbrev pub recv_times : ℕ → List Read → List ℕ → List (Received M)
  recv_times zero reads buf = []
  recv_times (suc n) reads buf =
      let (answer, reads', buf') = recv decode reads buf in answer ∷ recv_times n reads' buf'

  recv_ready :
      (reads : List Read) (buf buf' : List ℕ) (r : CastResult (Option M)) (a : Received M)
      → decode_length_prefixed decode buf ≡ (r, buf')
      → round decode r buf' ≡ some a
      → recv decode reads buf ≡ (a, reads, buf')
  unfolding recv return_or
  recv_ready [] buf buf' r a h k = rw (h, k) refl
  recv_ready (read_failed ∷ reads) buf buf' r a h k = rw (h, k) refl
  recv_ready (bytes_read [] ∷ reads) buf buf' r a h k = rw (h, k) refl
  recv_ready (bytes_read (b ∷ bs) ∷ reads) buf buf' r a h k = rw (h, k) refl

  round_waits :
      (buf : List ℕ) → length buf ≤ max_message_size + 8 → round decode (ok none) buf ≡ none
  unfolding round
  round_waits buf h = if_ge (max_message_size + 8) (length buf) _ _ h

  recv_more :
      (b : ℕ) (bs : List ℕ) (reads : List Read) (buf : List ℕ)
      → decode_length_prefixed decode buf ≡ (ok none, buf)
      → length buf ≤ max_message_size + 8
      → recv decode (bytes_read (b ∷ bs) ∷ reads) buf ≡ recv decode reads (buf ++ b ∷ bs)
  unfolding recv return_or
  recv_more b bs reads buf h k = rw (h, round_waits buf k) refl

  recv_end :
      (buf : List ℕ)
      → decode_length_prefixed decode buf ≡ (ok none, buf)
      → length buf ≤ max_message_size + 8
      → recv decode [] buf ≡ (closed, [], buf)
  unfolding recv return_or
  recv_end buf h k = rw (h, round_waits buf k) refl

  -- When the stream ends inside a frame of an allowed size, with no read failing, `recv` answers
  -- `closed`, its answer at a clean end, and leaves the cut frame in the buffer.
  pub recv_cut_short :
      (payload : List ℕ) (reads : List Read) (buf more : List ℕ)
      → length payload ≤ max_message_size
      → Delivers reads
      → buf ++ (bytes_of reads ++ more) ≡ put_u32 (length payload) ++ payload
      → 0 < length more
      → recv decode reads buf ≡ (closed, [], buf ++ bytes_of reads)
  recv_cut_short payload [] buf more small d h k =
      let n = length payload in
      let short : length buf < 4 + n = omega (arith, ap length h, length-append buf more) in
      recv_end buf (decode_waits decode n payload buf more small h short) (omega arith)
      ∙ ap (λ b. (closed, [], b)) (sym (append-nil buf))
  recv_cut_short payload (bytes_read (b ∷ bs) ∷ reads) buf more small d h k =
      let n = length payload in
      let rest = bytes_of (bytes_read (b ∷ bs) ∷ reads) ++ more in
      let short : length buf < 4 + n = omega (
        arith,
        ap length h,
        length-append buf rest,
        length-append (bytes_of (bytes_read (b ∷ bs) ∷ reads)) more,
      ) in
      recv_more b bs reads buf (decode_waits decode n payload buf rest small h short) (omega arith)
      ∙ recv_cut_short payload reads (buf ++ b ∷ bs) more small d
          (sym (regroup buf (b ∷ bs) (bytes_of reads) more) ∙ h) k
      ∙ ap (λ l. (closed, [], l)) (append_assoc buf (b ∷ bs) (bytes_of reads))
  recv_cut_short payload (bytes_read [] ∷ reads) buf more small d h k = absurd d
  recv_cut_short payload (read_failed ∷ reads) buf more small d h k = absurd d

  -- A whole frame in the buffer is what the call gives.
  recv_arrived :
      (payload : List ℕ) (msg : M) (reads : List Read) (buf later extra : List ℕ)
      → length payload ≤ max_message_size
      → decode payload ≡ some msg
      → buf ≡ (put_u32 (length payload) ++ payload) ++ extra
      → recv decode reads buf ≡ (message msg, reads, extra)
  unfolding round decoded
  recv_arrived payload msg reads buf later extra small value same =
      let taken : decode_length_prefixed decode buf ≡ (ok (some msg), extra) =
        ap (decode_length_prefixed decode) same
        ∙ decode_takes decode payload extra small
        ∙ ap (λ o. (decoded decode o, extra)) value in
      recv_ready reads buf extra (ok (some msg)) (message msg) taken refl

  abbrev Given : M → List Read → List ℕ → List ℕ → Type 0
  Given msg reads buf later =
      (reads' : List Read) × (buf' : List ℕ) × (recv decode reads buf ≡ (message msg, reads', buf'))
      × Delivers reads'
      × (buf' ++ bytes_of reads' ≡ later)

  recv_split :
      (payload : List ℕ) (msg : M) (reads : List Read) (buf later : List ℕ)
      → length payload ≤ max_message_size
      → decode payload ≡ some msg
      → Delivers reads
      → buf ++ bytes_of reads ≡ (put_u32 (length payload) ++ payload) ++ later
      → 4 + length payload ≤ length buf
      → Given msg reads buf later
  recv_split payload msg reads buf later small value d h k =
      let frame = put_u32 (length payload) ++ payload in
      let (extra, same, rest) = split_append buf (bytes_of reads) frame later h (omega arith) in
      (reads, extra, recv_arrived payload msg reads buf later extra small value same, d, rest)

  -- A frame at the front of a stream is what the next call gives.
  recv_frame :
      (payload : List ℕ) (msg : M) (reads : List Read) (buf later : List ℕ)
      → length payload ≤ max_message_size
      → decode payload ≡ some msg
      → Delivers reads
      → buf ++ bytes_of reads ≡ (put_u32 (length payload) ++ payload) ++ later
      → Given msg reads buf later
  recv_frame payload msg [] buf later small value d h =
      let n = length payload in
      recv_split payload msg [] buf later small value d h (
        omega (
          arith,
          ap length h,
          ap length (append-nil buf),
          length-append (put_u32 n ++ payload) later,
        ))
  recv_frame payload msg (bytes_read (b ∷ bs) ∷ reads) buf later small value d h =
      elim (lt_or_le (length buf) (4 + length payload)) [
        | inl short ↦
            let n = length payload in
            let rest = bytes_of (bytes_read (b ∷ bs) ∷ reads) in
            let waits = decode_waits decode n (payload ++ later) buf rest small h short in
            let (reads', buf', same, d', tail) =
              recv_frame payload msg reads (buf ++ b ∷ bs) later small value d
                (append_assoc buf (b ∷ bs) (bytes_of reads) ∙ h) in
            (reads', buf', recv_more b bs reads buf waits (omega arith) ∙ same, d', tail)
        | inr long ↦
            recv_split payload msg (bytes_read (b ∷ bs) ∷ reads) buf later small value d h long
      ]
  recv_frame payload msg (bytes_read [] ∷ reads) buf later small value d h = absurd d
  recv_frame payload msg (read_failed ∷ reads) buf later small value d h = absurd d

  recv_nothing :
      (reads : List Read) (buf : List ℕ)
      → Delivers reads
      → buf ++ bytes_of reads ≡ []
      → recv decode reads buf ≡ (closed, [], [])
  unfolding decode_length_prefixed
  recv_nothing [] [] d h = recv_end [] refl (omega arith)
  recv_nothing [] (c ∷ cs) d h = absurd (omega (arith, ap length h))
  recv_nothing (bytes_read (b ∷ bs) ∷ reads) buf d h =
      absurd
        (omega (arith, ap length h, length-append buf (bytes_of (bytes_read (b ∷ bs) ∷ reads))))
  recv_nothing (bytes_read [] ∷ reads) buf d h = absurd d
  recv_nothing (read_failed ∷ reads) buf d h = absurd d

module _ {M : Type 0} (encoded_len : M → ℕ) (encode : M → List ℕ) (decode : List ℕ → Option M)
    (encoded_len-length : (msg : M) → length (encode msg) ≡ encoded_len msg)
    (decode-encode : (msg : M) → decode (encode msg) ≡ some msg) where
  -- What a connection carries when messages are sent over it.
  abbrev pub stream : List M → List ℕ
  stream [] = []
  stream (msg ∷ msgs) = bytes_sent (encode_length_prefixed encoded_len encode msg) ++ stream msgs

  frame_sent :
      (msg : M)
      → encoded_len msg ≤ max_message_size
      → encode_length_prefixed encoded_len encode msg
        ≡ ok (put_u32 (length (encode msg)) ++ encode msg)
  unfolding encode_length_prefixed
  frame_sent msg small =
      if_ge max_message_size (encoded_len msg) _ _ small
      ∙ ap (λ n. ok (put_u32 n ++ encode msg)) (sym (encoded_len-length msg))

  recv_times_from :
      (msgs : List M) (reads : List Read) (buf : List ℕ)
      → All (λ msg. encoded_len msg ≤ max_message_size) msgs
      → Delivers reads
      → buf ++ bytes_of reads ≡ stream msgs
      → recv_times decode (suc (length msgs)) reads buf ≡ map message msgs ++ closed ∷ []
  recv_times_from [] reads buf small d h = ap (λ s. s.0 ∷ []) (recv_nothing decode reads buf d h)
  recv_times_from (msg ∷ msgs) reads buf (small, smalls) d h =
      let sent = ap (λ r. bytes_sent r ++ stream msgs) (frame_sent msg small) in
      let (reads', buf', same, d', rest) =
        recv_frame decode (encode msg) msg reads buf (stream msgs)
          (omega (arith, encoded_len-length msg, small)) (decode-encode msg) d (h ∙ sent) in
      ap (λ s. s.0 ∷ recv_times decode (suc (length msgs)) s.1 s.2) same
      ∙ ap (λ l. message msg ∷ l) (recv_times_from msgs reads' buf' smalls d' rest)

  -- Messages of an allowed size, sent one after the other, are received in their order, however
  -- the connection cuts their bytes into reads that do not fail, and the call after the last one
  -- gives `closed`, if a protobuf encoding has the length told for it and decodes to its message.
  pub recv_times-stream :
      (msgs : List M) (reads : List Read)
      → All (λ msg. encoded_len msg ≤ max_message_size) msgs
      → Delivers reads
      → bytes_of reads ≡ stream msgs
      → recv_times decode (suc (length msgs)) reads [] ≡ map message msgs ++ closed ∷ []
  recv_times-stream msgs reads small d h = recv_times_from msgs reads [] small d h
