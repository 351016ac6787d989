-- ===== src/Hls/Http/Paths.antt =====
-- The paths that the playlist names are those that the handler parses.
use ferricast.Base.{
  ℕ, ◌≤◌, ◌≡◌, refl, sym, ap, ◌∙◌, [], ◌∷◌, ◌++◌, append_assoc, some, true, false, arith,
}
use ferricast.Base.Words.{u32_max, u64_max}
use ferricast.Text.{Bytes, codes, show, bytes_eq, strip_prefix, strip_suffix, contains_byte}
use ferricast.Text.Laws.{
  Lacks, Lacks-append, strip_prefix-append, strip_suffix-append, split_once-append, split_once-none,
}
use ferricast.Text.Numbers.{show-Digit, Digit-Lacks, parse_uint-show}
use ferricast.Hls.Playlist.{segment_uri, part_uri}
use ferricast.Hls.Http.{is_segment_path, parse_segment_seq, is_part_path, parse_part_seq_and_idx}
use ferricast.Hls.Http.Handler.{is_playlist_path, split_path}

abbrev pub segment_path : ℕ → Bytes
segment_path seq = 47 ∷ segment_uri seq

abbrev pub part_path : ℕ → ℕ → Bytes
part_path seq idx = 47 ∷ part_uri seq idx

segment_body :
    (seq : ℕ) → strip_prefix (codes "/segment-") (segment_path seq) ≡ some (show seq ++ codes ".ts")
unfolding segment_uri
segment_body seq = strip_prefix-append (codes "/segment-") (show seq ++ codes ".ts")

-- The handler reads the number back from the path of a segment.
pub parse_segment_seq-path :
    (seq : ℕ) → seq ≤ u64_max → parse_segment_seq (segment_path seq) ≡ some seq
unfolding parse_segment_seq
parse_segment_seq-path seq h =
    rw (segment_body seq)
      (rw (strip_suffix-append (show seq) (codes ".ts")) (parse_uint-show u64_max seq h))

part_body :
    (seq idx : ℕ)
    → strip_prefix (codes "/part-") (part_path seq idx)
      ≡ some ((show seq ++ 46 ∷ show idx) ++ codes ".ts")
unfolding part_uri
part_body seq idx =
    strip_prefix-append (codes "/part-") (show seq ++ 46 ∷ (show idx ++ codes ".ts"))
    ∙ ap some (sym (append_assoc (show seq) (46 ∷ show idx) (codes ".ts")))

pub show-Lacks : (c n : ℕ) → ¬ (48 ≤ c × c ≤ 57) → Lacks c (show n)
show-Lacks c n h = Digit-Lacks c (show n) (show-Digit n) (λ (lo, hi). h (lo, omega (arith, hi)))

-- The handler reads the numbers of a segment and a part back from the path of a part.
pub parse_part_seq_and_idx-path :
    (seq idx : ℕ)
    → seq ≤ u64_max
    → idx ≤ u32_max
    → parse_part_seq_and_idx (part_path seq idx) ≡ some (seq, idx)
unfolding parse_part_seq_and_idx
parse_part_seq_and_idx-path seq idx h k =
    let dot : Lacks 46 (show seq) = show-Lacks 46 seq (λ (lo, hi). omega (arith, lo)) in
    rw (part_body seq idx) (
      rw (strip_suffix-append (show seq ++ 46 ∷ show idx) (codes ".ts")) (
        rw (split_once-append 46 (show seq) (show idx) dot)
          (rw (parse_uint-show u64_max seq h) (rw (parse_uint-show u32_max idx k) refl))))

-- Which route a path takes.
pub record SegmentRoute (path : Bytes) : Type 0 where
  pub no_query : split_path path ≡ (path, [])
  pub not_playlist : is_playlist_path path ≡ false
  pub not_part : is_part_path path ≡ false
  pub segment : is_segment_path path ≡ true

pub record PartRoute (path : Bytes) : Type 0 where
  pub no_query : split_path path ≡ (path, [])
  pub not_playlist : is_playlist_path path ≡ false
  pub part : is_part_path path ≡ true

lacking_query : (path : Bytes) → Lacks 63 path → split_path path ≡ (path, [])
unfolding split_path
lacking_query path h = rw (split_once-none 63 path h) refl

segment_ends :
    (seq : ℕ) → strip_suffix (codes ".ts") (segment_path seq) ≡ some (codes "/segment-" ++ show seq)
unfolding segment_uri
segment_ends seq = strip_suffix-append (codes "/segment-" ++ show seq) (codes ".ts")

show-query : (n : ℕ) → Lacks 63 (show n)
show-query n = show-Lacks 63 n (λ (lo, hi). omega (arith, hi))

segment_path-query : (seq : ℕ) → Lacks 63 (segment_path seq)
unfolding segment_uri contains_byte
segment_path-query seq = Lacks-append 63 (show seq) (codes ".ts") (show-query seq) refl

segment_not_playlist : (seq : ℕ) → is_playlist_path (segment_path seq) ≡ false
unfolding is_playlist_path bytes_eq segment_uri
segment_not_playlist seq = refl

segment_not_part : (seq : ℕ) → is_part_path (segment_path seq) ≡ false
unfolding is_part_path strip_prefix segment_uri
segment_not_part seq = refl

is_segment_path-path : (seq : ℕ) → is_segment_path (segment_path seq) ≡ true
unfolding is_segment_path
is_segment_path-path seq = rw (segment_body seq) (rw (segment_ends seq) refl)

pub segment_path-SegmentRoute : (seq : ℕ) → SegmentRoute (segment_path seq)
segment_path-SegmentRoute seq = record {
  no_query = lacking_query (segment_path seq) (segment_path-query seq);
  not_playlist = segment_not_playlist seq;
  not_part = segment_not_part seq;
  segment = is_segment_path-path seq;
}

part_ends :
    (seq idx : ℕ)
    → strip_suffix (codes ".ts") (part_path seq idx)
      ≡ some (codes "/part-" ++ (show seq ++ 46 ∷ show idx))
unfolding part_uri
part_ends seq idx =
    ap (λ l. strip_suffix (codes ".ts") (codes "/part-" ++ l))
      (sym (append_assoc (show seq) (46 ∷ show idx) (codes ".ts")))
    ∙ strip_suffix-append (codes "/part-" ++ (show seq ++ 46 ∷ show idx)) (codes ".ts")

part_path-query : (seq idx : ℕ) → Lacks 63 (part_path seq idx)
unfolding part_uri contains_byte
part_path-query seq idx =
    Lacks-append 63 (show seq) (46 ∷ (show idx ++ codes ".ts")) (show-query seq)
      (Lacks-append 63 (show idx) (codes ".ts") (show-query idx) refl)

part_not_playlist : (seq idx : ℕ) → is_playlist_path (part_path seq idx) ≡ false
unfolding is_playlist_path bytes_eq part_uri
part_not_playlist seq idx = refl

is_part_path-path : (seq idx : ℕ) → is_part_path (part_path seq idx) ≡ true
unfolding is_part_path
is_part_path-path seq idx = rw (part_body seq idx) (rw (part_ends seq idx) refl)

pub part_path-PartRoute : (seq idx : ℕ) → PartRoute (part_path seq idx)
part_path-PartRoute seq idx = record {
  no_query = lacking_query (part_path seq idx) (part_path-query seq idx);
  not_playlist = part_not_playlist seq idx;
  part = is_part_path-path seq idx;
}
