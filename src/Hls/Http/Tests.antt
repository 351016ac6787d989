-- ===== src/Hls/Http/Tests.antt =====
-- The HTTP server at concrete requests.
use ferricast.Base.{◌≡◌, refl, ◌↔◌, List, [], ◌∷◌, ◌++◌, map, none, some, true, false, arith, All}
use ferricast.Text.{Bytes, codes, show, show_from}
use ferricast.M3u8.Tests.{millis, millis-one_line}
use ferricast.M3u8.Reader.{entries}
use ferricast.Hls.Ring.{run, new}
use ferricast.Hls.Ring.Log.{log, empty_log}
use ferricast.Hls.Ring.Lookup.{kept}
use ferricast.Hls.Playlist.Entries.{named}
use ferricast.Hls.Playlist.Tests.{millis-FloatLaws, calls, ring-Sound}
use ferricast.Hls.Http.{parse_range, resolve_range, parse_blocking_reload, read_request}
use ferricast.Hls.Http.Response.{write_ok}
use ferricast.Hls.Http.Handler.{answered, respond, segment_reply}
use ferricast.Hls.Http.Calendar.{
  http_date, civil_from_days, wrap_year, year_of_era, day_of_year, date_in_year,
}
use ferricast.Hls.Http.Calendar.Steps.{date_after, civil_from_days-date_after}
use ferricast.Hls.Http.Paths.{segment_path}
use ferricast.Hls.Http.Ranges.{
  Asked, Covered, range_value, IsInterval, resolve_range-IsInterval, parse_range-value,
}
use ferricast.Hls.Http.Reload.{msn_pair, part_pair, parse_blocking_reload-pairs}
use ferricast.Hls.Http.Limits.{Within, read_request-Within}
use ferricast.Hls.Http.Served.{respond-run}
use ferricast.Hls.Http.Composed.{fetch, fetch_gets, Served, playlist-Served}

-- The times of the source's own tests: 2024-01-15 12:34:56 and 2024-02-29.
date_2024 : http_date 1705322096 ≡ codes "Mon, 15 Jan 2024 12:34:56 GMT"
unfolding http_date civil_from_days wrap_year year_of_era day_of_year date_in_year show show_from
date_2024 = refl

date_leap_day : http_date 1709164800 ≡ codes "Thu, 29 Feb 2024 00:00:00 GMT"
unfolding http_date civil_from_days wrap_year year_of_era day_of_year date_in_year show show_from
date_leap_day = refl

civil_from_days-date_after_example : civil_from_days 2 ≡ date_after 2
civil_from_days-date_after_example = civil_from_days-date_after 2 (omega arith)

-- A range that ends before it starts, and one that reaches past the body.
inverted : resolve_range (some (5, some 3)) 1000 ≡ none
unfolding resolve_range
inverted = refl

resolve_range-IsInterval_example :
    IsInterval 1000 (resolve_range (some (0, some 9999)) 1000)
    × (Covered (resolve_range (some (0, some 9999)) 1000) 999 ↔ Asked (0, some 9999) 1000 999)
resolve_range-IsInterval_example = resolve_range-IsInterval (0, some 9999) 1000 999

parse_range-value_example : parse_range (range_value 100 (some 199)) ≡ some (100, some 199)
parse_range-value_example = parse_range-value 100 (some 199) (omega arith) (omega arith)

parse_blocking_reload-pairs_example :
    (parse_blocking_reload (msn_pair 12 ++ 38 ∷ part_pair 3) ≡ some (12, some 3))
    × (parse_blocking_reload (part_pair 3 ++ 38 ∷ msn_pair 12) ≡ some (12, some 3))
    × (parse_blocking_reload (msn_pair 12) ≡ some (12, none))
parse_blocking_reload-pairs_example = parse_blocking_reload-pairs 12 3 (omega arith) (omega arith)

abbrev get_lines : List Bytes
get_lines =
    (codes "GET / HTTP/1.1" ++ 13 ∷ 10 ∷ [])
    ∷ (codes "Connection: close" ++ 13 ∷ 10 ∷ [])
    ∷ (13 ∷ 10 ∷ [])
    ∷ codes "GET"
    ∷ []

read_request-Within_example : Within 0 get_lines (read_request get_lines)
read_request-Within_example = read_request-Within get_lines

respond-run_example :
    respond 0 (fetch (segment_path 2)) millis (run (new 2) calls) []
    ≡ segment_reply 0 (fetch (segment_path 2)) 2 (kept 2 (log empty_log calls) 2)
respond-run_example =
    respond-run millis 0 (fetch (segment_path 2)) 2 calls [] 2 (fetch_gets (segment_path 2)) refl
      (omega arith) (omega arith)

playlist-Served_example :
    (text : Bytes) × (respond 0 (fetch (codes "/playlist.m3u8")) millis (run (new 2) calls) []
      ≡ answered 200
          (write_ok 0 (codes "application/vnd.apple.mpegurl") text true false false true)
          none)
    × (entries text ≡ map (named millis) (run (new 2) calls).segments)
    × All (Served millis 0 (run (new 2) calls)) (run (new 2) calls).segments
playlist-Served_example =
    playlist-Served millis 0 millis-FloatLaws millis-one_line 2 calls [] (omega arith) ring-Sound
