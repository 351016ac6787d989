-- ===== src/M3u8/Tests.antt =====
-- The writer at concrete values: durations in milliseconds.
use ferricast.Base.{ℕ, ◌+◌, ◌*◌, ◌/◌, ◌≡◌, refl, [], ◌∷◌, map, true, false, ltb, max, arith}
use ferricast.Text.{codes, show, contains_byte, strip_prefix}
use ferricast.Text.Numbers.{show-Digit, Digit-Lacks}
use ferricast.Text.Laws.{Lacks}
use ferricast.M3u8.{Floats, M3u8Writer, new_segment, new_part, default_writer, to_string}
use ferricast.M3u8.Reader.{entries}
use ferricast.M3u8.Lines.{entry}
use ferricast.M3u8.RoundTrip.{entries-to_string}

-- Times in whole milliseconds in the place of `f32`; what is printed is their number.
abbrev pub millis : Floats ℕ
millis = record {
  is_finite = λ d. true;
  is_negative = λ d. false;
  is_positive = λ d. ltb 0 d;
  zero_f = 0;
  max_f = max;
  rounded = λ d. max 1 ((d + 500) / 1000);
  ceiled = λ d. (d + 999) / 1000;
  triple = λ d. d * 3;
  of_u8 = λ n. n * 1000;
  show3 = show;
}

pub millis-one_line : (d : ℕ) → Lacks 10 (millis.show3 d)
millis-one_line d = Digit-Lacks 10 (show d) (show-Digit d) (λ (lo, hi). omega (arith, lo))

abbrev playlist : M3u8Writer ℕ
playlist = record default_writer {
  segments = new_segment 2500 (codes "video10.ts") ∷ new_segment 3000 (codes "video11.ts") ∷ [];
  parts_by_segment = (new_part 500 (codes "a.0.ts") ∷ []) ∷ [];
}

entries-to_string_example :
    entries (to_string millis playlist) ≡ map (entry millis) playlist.segments
unfolding new_segment new_part default_writer contains_byte strip_prefix
entries-to_string_example =
    entries-to_string millis millis-one_line playlist
      (
        record { uri_line = refl; uri_content = refl; uri_no_info = refl; date_line = λ d h. cc },
        (
          record { uri_line = refl; uri_content = refl; uri_no_info = refl; date_line = λ d h. cc },
          tt,
        ),
      )
      ((refl, tt), tt) tt
