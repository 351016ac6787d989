-- ===== src/Hls/Http/Limits.antt =====
-- How much of a connection `read_request` takes for a request.
use ferricast.Base.{
  ℕ, ◌+◌, ◌≤◌, ◌≡◌, refl, ap, subst, List, [], ◌∷◌, ◌++◌, Option, none, some, Bool, ◌||◌, ltb,
  arith, length, Bool-cases, inl, inr,
}
use ferricast.Text.{Bytes, bytes_eq, split_once, trim_end_matches}
use ferricast.Hls.Http.{
  Range, Parsed, parsed, refused, is_crlf, max_request_bytes, read_header, read_headers,
  read_after_method, read_request,
}

abbrev pub bytes_of : List Bytes → ℕ
bytes_of [] = 0
bytes_of (l ∷ ls) = length l + bytes_of ls

-- A request was read from the first lines, which with the `total` bytes before them are at most
-- `max_request_bytes`, and the lines behind are left as they were.
abbrev pub Within : ℕ → List Bytes → Parsed → Type 0
Within total lines (refused e) = Unit
Within total lines (parsed request rest) =
    (used : List Bytes) × (lines ≡ used ++ rest) × (total + bytes_of used ≤ max_request_bytes)

Within-cons :
    (total : ℕ) (line : Bytes) (lines : List Bytes) (p : Parsed)
    → Within (total + length line) lines p
    → Within total (line ∷ lines) p
Within-cons total line lines (refused e) h = tt
Within-cons total line lines (parsed request rest) (used, e, le) =
    (line ∷ used, ap (λ l. line ∷ l) e, omega (arith, le))

read_headers-Within :
    (method path : Bytes) (total : ℕ) (state : Bool × Option Range) (lines : List Bytes)
    → total ≤ max_request_bytes
    → Within total lines (read_headers method path total state lines)
unfolding read_headers
read_headers-Within method path total (close, range) [] h = ([], refl, omega (arith, h))
read_headers-Within method path total (close, range) (hdr ∷ hdrs) h =
    elim (Bool-cases (ltb max_request_bytes (total + length hdr))) [
      | inl e ↦ rw e tt
      | inr e ↦
          let fits : total + length hdr ≤ max_request_bytes = ground arith in
          elim (Bool-cases (bytes_eq hdr (13 ∷ 10 ∷ []) || bytes_eq hdr (10 ∷ []))) [
            | inl blank ↦ rw e (rw blank (hdr ∷ [], refl, omega (arith, fits)))
            | inr more ↦ rw e (
                rw more (
                  Within-cons total hdr hdrs _ (
                    read_headers-Within method path (total + length hdr)
                      (read_header hdr (close, range)) hdrs fits)))
          ]
    ]

read_after_method-Within :
    (pair : Option (Bytes × Bytes)) (total : ℕ) (lines : List Bytes)
    → total ≤ max_request_bytes
    → Within total lines (read_after_method pair total lines)
unfolding read_after_method
read_after_method-Within none total lines h = tt
read_after_method-Within (some (method, rest)) total lines h =
    read_headers-Within method _ total _ lines h

-- A request that is accepted takes at most `max_request_bytes` bytes of the connection, whole lines
-- from its front, and leaves the lines behind for the next request.
pub read_request-Within : (lines : List Bytes) → Within 0 lines (read_request lines)
unfolding read_request
read_request-Within [] = tt
read_request-Within (first_line ∷ lines) =
    elim (Bool-cases (ltb max_request_bytes (length first_line))) [
      | inl e ↦ rw e tt
      | inr e ↦
          let fits : length first_line ≤ max_request_bytes = ground arith in
          let pair = split_once 32 (trim_end_matches is_crlf first_line) in
          let same : length first_line ≡ 0 + length first_line = omega arith in
          rw e (
            Within-cons 0 first_line lines (read_after_method pair (length first_line) lines) (
              subst (λ n. Within n lines (read_after_method pair (length first_line) lines)) same
                (read_after_method-Within pair (length first_line) lines fits)))
    ]
