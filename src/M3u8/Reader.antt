-- ===== src/M3u8/Reader.antt =====
-- A reader of media playlists, as RFC 8216 has it: the line behind `#EXTINF` names a segment, other
-- lines with `#` and empty lines are passed over. It shows what a player finds in the text of
-- crates/m3u8/src/lib.rs.
use ferricast.Base.{
  ℕ, ◌≡◌, refl, ap, ◌∙◌, List, [], ◌∷◌, ◌++◌, Option, none, some, Bool, true, false, not, ◌&&◌,
  ◌==◌, if◌then◌else◌, arith, All,
}
use ferricast.Text.{Bytes, codes, show, split, strip_prefix, contains_byte}
use ferricast.Text.Laws.{Lacks, split-append}
use ferricast.Text.Numbers.{show-Digit, Digit-Lacks}
use ferricast.M3u8.{Segment, Part, when, if_set, text_of}

-- A line that is neither empty nor begins with `#`.
abbrev pub is_content : Bytes → Bool
is_content [] = false
is_content (b ∷ bs) = not (b == 35)

abbrev pub next_entry : Bytes → Option Bytes → Bytes → List (Bytes × Bytes) → List (Bytes × Bytes)
next_entry last (some info) line rest = rest
next_entry last none line rest = if is_content line then (last, line) ∷ rest else rest

abbrev pub next_info : Bytes → Option Bytes → Bytes
next_info last none = last
next_info last (some info) = info

-- The segments of a playlist: what stands behind `#EXTINF:`, and the URI.
unfoldable pub read_entries : Bytes → List Bytes → List (Bytes × Bytes)
read_entries last [] = []
read_entries last (line ∷ lines) =
    let info = strip_prefix (codes "#EXTINF:") line in
    next_entry last info line (read_entries (next_info last info) lines)

unfoldable pub entries : Bytes → List (Bytes × Bytes)
entries text = read_entries [] (split 10 text)

-- A line that the reader passes over.
pub record Passed (line : Bytes) : Type 0 where
  pub one_line : Lacks 10 line
  pub no_info : strip_prefix (codes "#EXTINF:") line ≡ none
  pub no_content : is_content line ≡ false

pub read_entries-Passed :
    (last : Bytes) (lines rest : List Bytes)
    → All Passed lines
    → read_entries last (lines ++ rest) ≡ read_entries last rest
unfolding read_entries
read_entries-Passed last [] rest h = refl
read_entries-Passed last (l ∷ ls) rest (p, ps) =
    rw p.no_info (rw p.no_content (read_entries-Passed last ls rest ps))

pub split-text_of :
    (lines : List Bytes) → All (Lacks 10) lines → split 10 (text_of lines) ≡ lines ++ [] ∷ []
unfolding text_of split
split-text_of [] h = refl
split-text_of (l ∷ ls) (h, hs) =
    split-append 10 l (text_of ls) h ∙ ap (λ r. l ∷ r) (split-text_of ls hs)

pub show-Lacks : (n : ℕ) → Lacks 10 (show n)
show-Lacks n = Digit-Lacks 10 (show n) (show-Digit n) (λ (lo, hi). omega (arith, lo))

-- What the code relies on for a playlist to keep its lines apart.
pub record Readable (F : Type 0) (seg : Segment F) : Type 0 where
  pub uri_line : Lacks 10 seg.uri
  pub uri_content : is_content seg.uri ≡ true
  pub uri_no_info : strip_prefix (codes "#EXTINF:") seg.uri ≡ none
  pub date_line : (d : Bytes) → seg.program_date_time ≡ some d → Lacks 10 d

abbrev pub PartLine : {F : Type 0} → Part F → Type 0
PartLine part = Lacks 10 part.uri

pub when-Passed : (b : Bool) (line : Bytes) → Passed line → All Passed (when b line)
when-Passed false line h = tt
when-Passed true line h = (h, tt)

abbrev one_line? : Bytes → Bool
one_line? [] = true
one_line? (b ∷ bs) = not (b == 10) && one_line? bs

pub literal : (text : Bytes) → one_line? text ≡ true → Lacks 10 text
unfolding contains_byte
literal [] h = refl
literal (b ∷ bs) h = ground (arith, literal bs)

pub if_set-Lacks : (b : Bool) (text : Bytes) → Lacks 10 text → Lacks 10 (if_set b text)
unfolding contains_byte
if_set-Lacks false text h = refl
if_set-Lacks true text h = h

pub nothing : (last : Bytes) → read_entries last [] ≡ []
unfolding read_entries
nothing last = refl

pub empty-Passed : Passed []
unfolding strip_prefix
empty-Passed = record { one_line = literal _ refl; no_info = refl; no_content = refl }

pub one_lines : (lines : List Bytes) → All Passed lines → All (Lacks 10) lines
one_lines [] h = tt
one_lines (l ∷ ls) (h, hs) = (h.one_line, one_lines ls hs)
