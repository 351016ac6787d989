-- ===== src/Hls/Playlist/Tests.antt =====
-- The live playlist of a ring at concrete values: durations in milliseconds.
use ferricast.Base.{ℕ, ◌<◌, ◌≡◌, refl, List, [], ◌∷◌, map, true, false, arith, All}
use ferricast.Text.{Bytes}
use ferricast.M3u8.{ok}
use ferricast.M3u8.Tests.{millis, millis-one_line}
use ferricast.M3u8.Reader.{entries}
use ferricast.Hls.Ring.{
  Call, low_latency, part_flushed, completed, pushed, run, step, new, enable_low_latency,
  push_pending_part, complete_pending_segment, push, push_with_parts, evict,
}
use ferricast.Hls.Playlist.{build_playlist}
use ferricast.Hls.Playlist.Target.{FloatLaws, Sound}
use ferricast.Hls.Playlist.Entries.{named, build_playlist-entries}

pub millis-FloatLaws : FloatLaws ℕ millis
millis-FloatLaws = record {
  ceiled-max_left = λ a b. omega arith;
  ceiled-max_right = λ a b. omega arith;
  positive-max_left = λ a b h. ground arith;
  positive-max_right = λ a b h. ground arith;
  rounded-ceiled = λ d fin pos. let h : 0 < d = ground arith in omega arith;
  rounded-zero = λ d fin neg pos. let h : d ≡ 0 = ground arith in omega arith;
}

-- Three segments in a ring for two; the last one closes with its part, and one part is pending.
abbrev pub calls : List (Call ℕ)
calls =
    low_latency 300
    ∷ pushed 2000 false (1 ∷ 2 ∷ []) 10
    ∷ pushed 2100 true (3 ∷ []) 20
    ∷ part_flushed 300 true (4 ∷ []) 25
    ∷ completed 580 false (4 ∷ []) 30
    ∷ part_flushed 300 true (5 ∷ []) 40
    ∷ []

pub ring-Sound : All (Sound ℕ millis) (run (new 2) calls).segments
unfolding run step new enable_low_latency push_pending_part complete_pending_segment push
    push_with_parts evict
ring-Sound = (
  record { finite = refl; not_negative = refl; fits_byte = omega arith },
  (record { finite = refl; not_negative = refl; fits_byte = omega arith }, tt),
)

build_playlist-entries_example :
    (text : Bytes) × (build_playlist millis (run (new 2) calls) 1 ≡ ok text)
    × (entries text ≡ map (named millis) (run (new 2) calls).segments)
build_playlist-entries_example =
    build_playlist-entries millis millis-FloatLaws millis-one_line (run (new 2) calls) 1 ring-Sound
