-- ===== src/Hls/Http/Handler.antt =====
-- crates/hls/src/http.rs: one turn of the loop of `handle`, from a request to its answer, and the
-- wait of the blocking reload. The ring that other tasks change is given as its states at the times
-- the handler looks.
use ferricast.Base.{
  ℕ, ◌-◌, List, [], ◌∷◌, Option, none, some, Bool, true, false, not, ◌&&◌, ◌||◌, ltb, if◌then◌else◌,
  length, take, drop,
}
use ferricast.Text.{Bytes, codes, bytes_eq, split_once}
use ferricast.M3u8.{Floats, M3u8Error, Result, ok, err}
use ferricast.Hls.Ring.{Part, Segment, SegmentRing, get, get_part, has_reached}
use ferricast.Hls.Playlist.{build_playlist}
use ferricast.Hls.Http.{
  Request, Range, resolve_range, is_segment_path, parse_segment_seq, is_part_path,
  parse_part_seq_and_idx, parse_blocking_reload,
}
use ferricast.Hls.Http.Response.{write_ok, write_partial_content, write_status, write_options}

-- What a request leads to: the bytes written with the status that is logged, and the segment of
-- which bytes were sent, for the statistics; or an error that ends the connection.
pub data Outcome : Type 0 where
  answered : ℕ → Bytes → Option ℕ → Outcome
  failed : M3u8Error → Outcome

abbrev playlist_target_duration_headroom : ℕ
playlist_target_duration_headroom = 4

-- What stands before `?`, and the query behind it.
abbrev path_and_query : Option (Bytes × Bytes) → Bytes → Bytes × Bytes
path_and_query none path = (path, [])
path_and_query (some (p, q)) path = (p, q)

unfoldable pub split_path : Bytes → Bytes × Bytes
split_path path = path_and_query (split_once 63 path) path

abbrev pub is_get : Request → Bool
is_get request = bytes_eq request.method (codes "GET")

abbrev pub get_or_head : Request → Bool
get_or_head request = is_get request || bytes_eq request.method (codes "HEAD")

unfoldable pub is_playlist_path : Bytes → Bool
is_playlist_path path =
    bytes_eq path (codes "/")
    || bytes_eq path (codes "/playlist.m3u8")
    || bytes_eq path (codes "/index.m3u8")

module _ {F : Type 0} where
  -- The states of the ring at each wake-up before the deadline. The answer has the state in which
  -- the handler goes on.
  unfoldable pub wait_for_msn :
      SegmentRing F → List (SegmentRing F) → ℕ → Option ℕ → Bool × SegmentRing F
  wait_for_msn ring [] msn part = (has_reached ring msn part, ring)
  wait_for_msn ring (next ∷ later) msn part =
      let rest = wait_for_msn next later msn part in
      if has_reached ring msn part then (true, ring) else rest

  abbrev pub after_reload :
      Option (ℕ × Option ℕ) → SegmentRing F → List (SegmentRing F) → SegmentRing F
  after_reload none ring later = ring
  after_reload (some (msn, part)) ring later = (wait_for_msn ring later msn part).1

-- The interval that is sent: the whole body where the range is not resolved.
abbrev pub sent_interval : Option (ℕ × ℕ) → ℕ → ℕ × ℕ
sent_interval none total = (0, total)
sent_interval (some interval) total = interval

-- `&s.data[start..end]`
abbrev pub slice : ℕ × ℕ → Bytes → Bytes
slice (start, end') body = take (end' - start) (drop start body)

-- Whether the answer counts as the delivery of a segment.
abbrev pub delivery : Request → ℕ → Bytes → Option ℕ
delivery request seq sent = if is_get request && ltb 0 (length sent) then some seq else none

abbrev pub keep_alive : Request → Bool
keep_alive request = not request.connection_close

module _ (now : ℕ) (request : Request) where
  unfoldable pub bad_request : Outcome
  bad_request =
      answered 400 (write_status now 400 (codes "Bad Request") [] (keep_alive request)) none

  unfoldable pub not_found : Outcome
  not_found = answered 404 (write_status now 404 (codes "Not Found") [] (keep_alive request)) none

  unfoldable pub playlist_reply : Result Bytes → Outcome
  playlist_reply (err e) = failed e
  playlist_reply (ok body) =
      answered 200
        (write_ok now (codes "application/vnd.apple.mpegurl") body (is_get request) false false
          (keep_alive request))
        none

  unfoldable pub part_reply : {F : Type 0} → Option (Part F) → Outcome
  part_reply none = not_found
  part_reply (some p) =
      answered 200
        (write_ok now (codes "video/mp2t") p.bytes (is_get request) true false (keep_alive request))
        none

  unfoldable pub part_route : {F : Type 0} → SegmentRing F → Option (ℕ × ℕ) → Outcome
  part_route ring none = bad_request
  part_route ring (some (seg_seq, part_idx)) = part_reply (get_part ring seg_seq part_idx)

  abbrev pub segment_bytes : Option Range → ℕ × ℕ → Bytes → ℕ → Bytes
  segment_bytes none interval sent total =
      write_ok now (codes "video/mp2t") sent (is_get request) true true (keep_alive request)
  segment_bytes (some r) (start, end') sent total =
      write_partial_content now (codes "video/mp2t") sent (is_get request) start end' total
        (keep_alive request)

  unfoldable pub segment_reply : {F : Type 0} → ℕ → Option (Segment F) → Outcome
  segment_reply seq none = not_found
  segment_reply seq (some s) =
      let total = length s.bytes in
      let interval = sent_interval (resolve_range request.range total) total in
      let sent = slice interval s.bytes in
      answered 200 (segment_bytes request.range interval sent total) (delivery request seq sent)

  unfoldable pub segment_route : {F : Type 0} → SegmentRing F → Option ℕ → Outcome
  segment_route ring none = bad_request
  segment_route ring (some seq) = segment_reply seq (get ring seq)

  module _ {F : Type 0} (f : Floats F) (ring : SegmentRing F) (later : List (SegmentRing F)) where
    unfoldable pub get_route : Bytes → Bytes → Outcome
    get_route path query =
        if is_playlist_path path
        then playlist_reply (
            build_playlist f (after_reload (parse_blocking_reload query) ring later)
              playlist_target_duration_headroom)
        else if is_part_path path
        then part_route ring (parse_part_seq_and_idx path)
        else if is_segment_path path
        then segment_route ring (parse_segment_seq path)
        else not_found

    unfoldable pub respond : Outcome
    respond =
        let (path_only, query) = split_path request.path in
        if bytes_eq request.method (codes "OPTIONS")
        then answered 204 (write_options now (keep_alive request)) none
        else if get_or_head request
        then get_route path_only query
        else not_found
