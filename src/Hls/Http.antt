-- ===== src/Hls/Http.antt =====
-- crates/hls/src/http.rs: the requests that the HLS server reads. A connection's input is the list
-- of the lines that `read_line` gives, each with its newline; requests are ASCII.
pub mod Paths
pub mod Ranges
pub mod Response
pub mod Calendar
pub mod Handler
pub mod Reload
pub mod Limits
pub mod Served
pub mod Composed
mod Tests
use ferricast.Base.{
  ℕ, zero, suc, ◌+◌, ◌-◌, ◌*◌, ◌≡◌, List, [], ◌∷◌, ◌++◌, Option, none, some, Bool, true, false, not,
  ◌&&◌, ◌||◌, ltb, leb, ◌==◌, if◌then◌else◌, min, length, is_empty,
}
use ferricast.Base.Words.{u32_max, u64_max}
use ferricast.Text.{
  Bytes, codes, bytes_eq, strip_prefix, strip_suffix, is_some, split_once, split, contains_byte,
  trim, trim_end_matches, eq_ignore_case, parse_uint,
}

infixl 5 ◌>>=◌
abbrev pub ◌>>=◌ {ℓ κ} : {A : Type ℓ} {B : Type κ} → Option A → (A → Option B) → Option B
none >>= f = none
some a >>= f = f a

-- A range as it was asked for: the first byte, and the last one if it is given.
abbrev pub Range : Type 0
Range = ℕ × Option ℕ

-- The end of a range, which may be left out.
unfoldable pub range_end : Bytes → Option (Option ℕ)
range_end [] = some none
range_end (b ∷ bs) = do last ← parse_uint u64_max (b ∷ bs); some (some last)

unfoldable pub range_bounds : Bytes → Option Range
range_bounds rest = do
  (first, last) ← split_once 45 rest
  start ← parse_uint u64_max (trim first)
  end' ← range_end (trim last)
  some (start, end')

unfoldable pub parse_range : Bytes → Option Range
parse_range value = do
  rest ← strip_prefix (codes "bytes=") value
  if contains_byte 44 rest then none else range_bounds rest

abbrev last_byte : Option ℕ → ℕ → ℕ
last_byte none total = total - 1
last_byte (some e) total = min e (total - 1)

unfoldable pub resolve_range : Option Range → ℕ → Option (ℕ × ℕ)
resolve_range none total = none
resolve_range (some (start, end')) total =
    let last = last_byte end' total in
    if leb total start then none else if ltb last start then none else some (start, last + 1)

abbrev starts_with : Bytes → Bytes → Bool
starts_with prefix path = is_some (strip_prefix prefix path)

abbrev ends_with : Bytes → Bytes → Bool
ends_with suffix path = is_some (strip_suffix suffix path)

unfoldable pub is_segment_path : Bytes → Bool
is_segment_path path = starts_with (codes "/segment-") path && ends_with (codes ".ts") path

unfoldable pub parse_segment_seq : Bytes → Option ℕ
parse_segment_seq path = do
  body ← strip_prefix (codes "/segment-") path
  num ← strip_suffix (codes ".ts") body
  parse_uint u64_max num

unfoldable pub is_part_path : Bytes → Bool
is_part_path path = starts_with (codes "/part-") path && ends_with (codes ".ts") path

unfoldable pub parse_part_seq_and_idx : Bytes → Option (ℕ × ℕ)
parse_part_seq_and_idx path = do
  rest ← strip_prefix (codes "/part-") path
  body ← strip_suffix (codes ".ts") rest
  (seg, idx) ← split_once 46 body
  seq ← parse_uint u64_max seg
  part ← parse_uint u32_max idx
  some (seq, part)

-- `match k`: which of the two numbers a pair sets. What does not parse sets `None`.
abbrev pub reload_key : Bytes → Bytes → Option ℕ × Option ℕ → Option ℕ × Option ℕ
reload_key k v (msn, part) =
    if bytes_eq k (codes "_HLS_msn")
    then (parse_uint u64_max v, part)
    else if bytes_eq k (codes "_HLS_part")
    then (msn, parse_uint u32_max v)
    else (msn, part)

-- The loop over the pairs: one without `=` ends it with nothing.
unfoldable pub reload_loop : List Bytes → Option ℕ × Option ℕ → Option (Option ℕ × Option ℕ)
reload_loop [] found = some found
reload_loop (pair ∷ pairs) found = do
  (k, v) ← split_once 61 pair
  reload_loop pairs (reload_key k v found)

abbrev with_part : Option ℕ → Option ℕ → Option (ℕ × Option ℕ)
with_part none part = none
with_part (some m) part = some (m, part)

unfoldable pub parse_blocking_reload : Bytes → Option (ℕ × Option ℕ)
parse_blocking_reload [] = none
parse_blocking_reload (b ∷ bs) = do
  (msn, part) ← reload_loop (split 38 (b ∷ bs)) (none, none)
  with_part msn part

pub record Request : Type 0 where
  pub method : Bytes
  pub path : Bytes
  pub connection_close : Bool
  pub range : Option Range

pub data RequestError : Type 0 where
  client_closed line_too_long missing_path headers_too_long : RequestError

-- A request with the lines behind it, or why there is none.
pub data Parsed : Type 0 where
  parsed : Request → List Bytes → Parsed
  refused : RequestError → Parsed

abbrev pub max_request_bytes : ℕ
max_request_bytes = 8 * 1024

abbrev pub is_crlf : ℕ → Bool
is_crlf b = b == 13 || b == 10

abbrev connection_of : Bytes → Bool → Bool
connection_of value close =
    if eq_ignore_case value (codes "close")
    then true
    else if eq_ignore_case value (codes "keep-alive")
    then false
    else close

abbrev named_header : Bytes → Bytes → Bool × Option Range → Bool × Option Range
named_header name value (close, range) =
    if eq_ignore_case name (codes "Connection")
    then (connection_of value close, range)
    else if eq_ignore_case name (codes "Range")
    then (close, parse_range value)
    else (close, range)

abbrev header_pair : Option (Bytes × Bytes) → Bool × Option Range → Bool × Option Range
header_pair none state = state
header_pair (some (name, value)) state =
    named_header (trim name) (trim_end_matches is_crlf (trim value)) state

-- What one header line sets: whether to close, and the range.
unfoldable pub read_header : Bytes → Bool × Option Range → Bool × Option Range
read_header hdr state = header_pair (split_once 58 hdr) state

unfoldable pub read_headers : Bytes → Bytes → ℕ → Bool × Option Range → List Bytes → Parsed
read_headers method path total (close, range) [] =
    parsed (record { method = method; path = path; connection_close = close; range = range }) []
read_headers method path total (close, range) (hdr ∷ hdrs) =
    let rest =
      read_headers method path (total + length hdr) (read_header hdr (close, range)) hdrs in
    if ltb max_request_bytes (total + length hdr)
    then refused headers_too_long
    else if bytes_eq hdr (13 ∷ 10 ∷ []) || bytes_eq hdr (10 ∷ [])
    then parsed (record { method = method; path = path; connection_close = close; range = range })
        hdrs
    else rest

-- `splitn(3, ' ')` of the first line, with HTTP/1.0 for a version that is not given.
abbrev version_of : Option (Bytes × Bytes) → Bytes → Bytes × Bytes
version_of none path = (path, codes "HTTP/1.0")
version_of (some (path, version)) rest = (path, version)

unfoldable pub read_after_method : Option (Bytes × Bytes) → ℕ → List Bytes → Parsed
read_after_method none total lines = refused missing_path
read_after_method (some (method, rest)) total lines =
    let (path, version) = version_of (split_once 32 rest) rest in
    read_headers method path total (eq_ignore_case version (codes "HTTP/1.0"), none) lines

unfoldable pub read_request : List Bytes → Parsed
read_request [] = refused client_closed
read_request (first_line ∷ lines) =
    let line = trim_end_matches is_crlf first_line in
    if ltb max_request_bytes (length first_line)
    then refused line_too_long
    else read_after_method (split_once 32 line) (length first_line) lines
