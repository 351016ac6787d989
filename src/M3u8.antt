-- ===== src/M3u8.antt =====
-- crates/m3u8/src/lib.rs: the writer of media playlists. `F` stands for `f32` and comes with the
-- operations that the writer uses (`Floats`). A playlist is the list of its lines; each call of
-- `push_str` and `writeln!` writes one. Formatting into a `String` never fails.
pub mod Reader
pub mod Lines
pub mod RoundTrip
pub mod Tests
use ferricast.Base.{
  ℕ, zero, suc, ◌+◌, ◌-◌, ◌*◌, ◌<◌, ◌≤◌, ◌≡◌, List, [], ◌∷◌, ◌++◌, map, Option, none, some, Bool,
  true, false, not, ◌&&◌, ◌||◌, ltb, leb, ◌==◌, if◌then◌else◌, max, min, length, is_empty,
}
use ferricast.Text.{Bytes, codes, show, is_some}

-- What the code uses of `f32`.
pub record Floats (F : Type 0) : Type 0 where
  pub is_finite : F → Bool
  -- `d < 0.0` and `d > 0.0`
  pub is_negative : F → Bool
  pub is_positive : F → Bool
  pub zero_f : F
  -- `f32::max`
  pub max_f : F → F → F
  -- `d.round().max(1.0) as u32` and `d.ceil() as u32`
  pub rounded : F → ℕ
  pub ceiled : F → ℕ
  -- `d * 3.0`, and `n as f32`
  pub triple : F → F
  pub of_u8 : ℕ → F
  -- `{:.3}`
  pub show3 : F → Bytes

pub data M3u8Version : Type 0 where
  v3 v6 : M3u8Version

abbrev pub version_number : M3u8Version → ℕ
version_number v3 = 3
version_number v6 = 6

pub data PlaylistType : Type 0 where
  live vod : PlaylistType

pub record Segment (F : Type 0) : Type 0 where
  pub duration : F
  pub uri : Bytes
  pub discontinuity : Bool
  pub program_date_time : Option Bytes

pub record Part (F : Type 0) : Type 0 where
  pub duration : F
  pub uri : Bytes
  pub independent : Bool
  pub last_of_segment : Bool

pub record M3u8Writer (F : Type 0) : Type 0 where
  pub version : M3u8Version
  pub target_duration : ℕ
  pub media_sequence : ℕ
  pub discontinuity_sequence : ℕ
  pub independent_segments : Bool
  pub playlist_type : PlaylistType
  pub segments : List (Segment F)
  pub parts_by_segment : List (List (Part F))
  pub pending_parts : List (Part F)
  pub part_target_secs : Option F
  pub can_block_reload : Bool
  pub part_hold_back_secs : Option F
  pub hold_back_secs : Option F

-- `FerricastError::M3u8`, by what went wrong.
pub data M3u8Error : Type 0 where
  no_segment invalid_duration : M3u8Error
  over_target : ℕ → ℕ → M3u8Error

pub data Result {ℓ} (A : Type ℓ) : Type ℓ where
  ok : A → Result A
  err : M3u8Error → Result A

infixl 5 ◌>>=◌
abbrev pub ◌>>=◌ {ℓ κ} : {A : Type ℓ} {B : Type κ} → Result A → (A → Result B) → Result B
ok a >>= f = f a
err e >>= f = err e

module _ {F : Type 0} where
  unfoldable pub new_segment : F → Bytes → Segment F
  new_segment duration uri = record {
    duration = duration;
    uri = uri;
    discontinuity = false;
    program_date_time = none;
  }

  unfoldable pub new_part : F → Bytes → Part F
  new_part duration uri = record {
    duration = duration;
    uri = uri;
    independent = false;
    last_of_segment = false;
  }

  -- `M3u8Writer::default()`
  unfoldable pub default_writer : M3u8Writer F
  default_writer = record {
    version = v3;
    target_duration = 6;
    media_sequence = 0;
    discontinuity_sequence = 0;
    independent_segments = true;
    playlist_type = live;
    segments = [];
    parts_by_segment = [];
    pending_parts = [];
    part_target_secs = none;
    can_block_reload = false;
    part_hold_back_secs = none;
    hold_back_secs = none;
  }

  unfoldable pub live_writer : M3u8Version → M3u8Writer F
  unfolding default_writer
  live_writer version = record default_writer { version = version; playlist_type = live }

  unfoldable pub vod_writer : M3u8Version → M3u8Writer F
  unfolding default_writer
  vod_writer version = record default_writer { version = version; playlist_type = vod }

  unfoldable pub with_target_duration : M3u8Writer F → ℕ → M3u8Writer F
  with_target_duration w seconds = record w { target_duration = max seconds 1 }

  unfoldable pub with_media_sequence : M3u8Writer F → ℕ → M3u8Writer F
  with_media_sequence w seq = record w { media_sequence = seq }

  unfoldable pub with_discontinuity_sequence : M3u8Writer F → ℕ → M3u8Writer F
  with_discontinuity_sequence w seq = record w { discontinuity_sequence = seq }

  unfoldable pub with_independent_segments : M3u8Writer F → Bool → M3u8Writer F
  with_independent_segments w on = record w { independent_segments = on }

  unfoldable pub with_part_hold_back : M3u8Writer F → F → M3u8Writer F
  with_part_hold_back w secs = record w { part_hold_back_secs = some secs }

  unfoldable pub with_hold_back : M3u8Writer F → F → M3u8Writer F
  with_hold_back w secs = record w { hold_back_secs = some secs }

  -- `while parts_by_segment.len() < segments.len() { parts_by_segment.push(Vec::new()) }`, and the
  -- write at the last index.
  unfoldable pub set_parts : ℕ → List (List (Part F)) → List (Part F) → List (List (Part F))
  set_parts zero l parts = parts ∷ []
  set_parts (suc n) [] parts = [] ∷ set_parts n [] parts
  set_parts (suc n) (p ∷ ps) parts = p ∷ set_parts n ps parts

  unfoldable pub attach_parts : M3u8Writer F → List (Part F) → Result (M3u8Writer F)
  attach_parts w parts =
      if is_empty w.segments
      then err no_segment
      else ok (record w {
        parts_by_segment = set_parts (length w.segments - 1) w.parts_by_segment parts;
      })

  unfoldable pub set_pending_parts : M3u8Writer F → List (Part F) → M3u8Writer F
  set_pending_parts w parts = record w { pending_parts = parts }

abbrev pub when : Bool → Bytes → List Bytes
when false line = []
when true line = line ∷ []

-- `Some(x) => …`, and nothing for `None`.
abbrev pub when_some {ℓ} : {A : Type ℓ} → Option A → (A → Bytes) → List Bytes
when_some none line = []
when_some (some x) line = line x ∷ []

abbrev pub if_set : Bool → Bytes → Bytes
if_set false text = []
if_set true text = text

-- The comma between two attributes.
abbrev comma : Bool → Bytes
comma first = if_set (not first) (codes ",")

abbrev pub is_vod : PlaylistType → Bool
is_vod live = false
is_vod vod = true

abbrev or_keep : {F : Type 0} → Option F → F → Option F
or_keep none d = some d
or_keep (some x) d = some x

module _ {F : Type 0} (f : Floats F) where
  unfoldable pub with_part_target : M3u8Writer F → F → M3u8Writer F
  with_part_target w secs = record w {
    part_target_secs = some secs;
    can_block_reload = true;
    part_hold_back_secs = or_keep w.part_hold_back_secs (f.triple secs);
    hold_back_secs = or_keep w.hold_back_secs (f.triple (f.of_u8 w.target_duration));
  }

  unfoldable pub add_segment : M3u8Writer F → Segment F → Result (M3u8Writer F)
  add_segment w segment =
      let r = f.rounded segment.duration in
      if not (f.is_finite segment.duration) || f.is_negative segment.duration
      then err invalid_duration
      else if ltb w.target_duration r
      then err (over_target r w.target_duration)
      else ok (record w { segments = w.segments ++ segment ∷ [] })

  unfoldable pub hold_back : Bool → Option F → Bytes
  hold_back first none = []
  hold_back first (some hb) = comma first ++ codes "HOLD-BACK=" ++ f.show3 hb

  unfoldable pub part_hold_back : Bool → Option F → Bytes
  part_hold_back first none = []
  part_hold_back first (some phb) = comma first ++ codes "PART-HOLD-BACK=" ++ f.show3 phb

  unfoldable pub control_line : M3u8Writer F → Bytes
  unfolding hold_back part_hold_back
  control_line w =
      codes "#EXT-X-SERVER-CONTROL:"
      ++ if_set w.can_block_reload (codes "CAN-BLOCK-RELOAD=YES")
      ++ hold_back (not w.can_block_reload) w.hold_back_secs
      ++ part_hold_back (not w.can_block_reload && not (is_some w.hold_back_secs))
          w.part_hold_back_secs

  unfoldable pub part_line : Part F → Bytes
  part_line part =
      codes "#EXT-X-PART:DURATION="
      ++ f.show3 part.duration
      ++ codes ",URI=\""
      ++ part.uri
      ++ codes "\""
      ++ if_set part.independent (codes ",INDEPENDENT=YES")
      ++ if_set part.last_of_segment (codes ",GAP=NO")

  unfoldable pub header_lines : M3u8Writer F → List Bytes
  header_lines w =
      codes "#EXTM3U"
      ∷ (codes "#EXT-X-VERSION:" ++ show (version_number w.version))
      ∷ (when w.independent_segments (codes "#EXT-X-INDEPENDENT-SEGMENTS")
          ++ (when (is_vod w.playlist_type) (codes "#EXT-X-PLAYLIST-TYPE:VOD")
              ++ ((codes "#EXT-X-TARGETDURATION:" ++ show w.target_duration)
                  ∷ (codes "#EXT-X-MEDIA-SEQUENCE:" ++ show w.media_sequence)
                  ∷ (when (ltb 0 w.discontinuity_sequence)
                        (codes "#EXT-X-DISCONTINUITY-SEQUENCE:" ++ show w.discontinuity_sequence)
                      ++ (when_some w.part_target_secs
                            (λ pt. codes "#EXT-X-PART-INF:PART-TARGET=" ++ f.show3 pt)
                          ++ when
                              (w.can_block_reload
                                || is_some w.part_hold_back_secs
                                || is_some w.hold_back_secs)
                              (control_line w))))))

  -- One segment, with the parts that are listed under its index.
  unfoldable pub segment_lines : Segment F → List (Part F) → List Bytes
  segment_lines seg parts =
      when seg.discontinuity (codes "#EXT-X-DISCONTINUITY")
      ++ (when_some seg.program_date_time (λ pdt. codes "#EXT-X-PROGRAM-DATE-TIME:" ++ pdt)
          ++ (map part_line parts
              ++ ((codes "#EXTINF:" ++ f.show3 seg.duration ++ codes ",") ∷ seg.uri ∷ [])))

  -- `parts_by_segment.get(i)` goes along with the segments.
  unfoldable pub all_segment_lines : List (Segment F) → List (List (Part F)) → List Bytes
  all_segment_lines [] parts = []
  all_segment_lines (s ∷ ss) [] = segment_lines s [] ++ all_segment_lines ss []
  all_segment_lines (s ∷ ss) (p ∷ ps) = segment_lines s p ++ all_segment_lines ss ps

  unfoldable pub playlist_lines : M3u8Writer F → List Bytes
  playlist_lines w =
      header_lines w
      ++ (all_segment_lines w.segments w.parts_by_segment
          ++ (map part_line w.pending_parts
              ++ when (is_vod w.playlist_type) (codes "#EXT-X-ENDLIST")))

-- Every line ends in a newline.
unfoldable pub text_of : List Bytes → Bytes
text_of [] = []
text_of (l ∷ ls) = l ++ 10 ∷ text_of ls

unfoldable pub to_string : {F : Type 0} → Floats F → M3u8Writer F → Bytes
to_string f w = text_of (playlist_lines f w)
