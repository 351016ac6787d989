-- ===== src/Nal/HevcSets.antt =====
-- crates/encoder/src/h265/headers.rs: the video, sequence and picture parameter sets. The calls of
-- the bit writer are listed in their order.
use ferricast.Base.{
  ℕ, zero, suc, ◌-◌, ◌^◌, List, [], ◌∷◌, ◌++◌, Option, none, some, ltb, if◌then◌else◌, max, bit_and,
  replicate,
}
use ferricast.Base.Words.{ℤ, pos, shr}
use ferricast.Nal.Hevc.{BitWriter, new, write_bits, write_ue, write_se, rbsp_trailing, finalize_nal}

pub record ConformanceWindow : Type 0 where
  pub left : ℕ
  pub right : ℕ
  pub top : ℕ
  pub bottom : ℕ

pub record StreamParams : Type 0 where
  pub profile_idc : ℕ
  pub level_idc : ℕ
  pub tier_flag : ℕ
  pub width : ℕ
  pub height : ℕ
  pub fps : ℕ
  pub conformance_window : Option ConformanceWindow
  pub bit_depth_luma_minus8 : ℕ
  pub bit_depth_chroma_minus8 : ℕ
  pub max_num_ref_frames : ℕ

abbrev pub vps_nut : ℕ
vps_nut = 32

abbrev pub sps_nut : ℕ
sps_nut = 33

abbrev pub pps_nut : ℕ
pps_nut = 34

-- A call of `write_bits` with value and width, of `write_ue`, and of `write_se`.
pub data Element : Type 0 where
  u : ℕ → ℕ → Element
  ue : ℕ → Element
  se : ℤ → Element

unfoldable pub write_all : BitWriter → List Element → BitWriter
write_all w [] = w
write_all w (u value width ∷ es) = write_all (write_bits w value width) es
write_all w (ue value ∷ es) = write_all (write_ue w value) es
write_all w (se value ∷ es) = write_all (write_se w value) es

-- The compatibility flag of the profile, of 32.
unfoldable pub compatibility_flags : ℕ → ℕ
compatibility_flags profile_idc = if ltb profile_idc 32 then 2 ^ (31 - profile_idc) else 0

-- `for _ in max_sub_layers_minus1..8`
unfoldable pub reserved_pairs : ℕ → List Element
reserved_pairs zero = []
reserved_pairs (suc n) = replicate (8 - suc n) (u 0 2)

unfoldable pub sub_layer_flags : ℕ → List Element
sub_layer_flags zero = []
sub_layer_flags (suc n) = u 0 1 ∷ u 0 1 ∷ sub_layer_flags n

unfoldable pub profile_tier_level : StreamParams → ℕ → List Element
profile_tier_level p max_sub_layers_minus1 =
    let compat = compatibility_flags p.profile_idc in
    u 0 2
      ∷ u p.tier_flag 1
      ∷ u p.profile_idc 5
      ∷ u (shr compat 16) 16
      ∷ u (bit_and compat 0xffff) 16
      ∷ u 1 1
      ∷ u 0 1
      ∷ u 1 1
      ∷ u 1 1
      ∷ u 0 22
      ∷ u 0 21
      ∷ u 0 1
      ∷ u p.level_idc 8
      ∷ sub_layer_flags max_sub_layers_minus1
    ++ reserved_pairs max_sub_layers_minus1

unfoldable pub vps_elements : StreamParams → List Element
vps_elements p =
    (u 0 4 ∷ u 1 1 ∷ u 1 1 ∷ u 0 6 ∷ u 0 3 ∷ u 1 1 ∷ u 0xffff 16 ∷ [])
    ++ profile_tier_level p 0
    ++ u 0 1
      ∷ ue p.max_num_ref_frames
      ∷ ue 0
      ∷ ue 0
      ∷ u 0 6
      ∷ ue 0
      ∷ u 1 1
      ∷ u 1 32
      ∷ u (max p.fps 1) 32
      ∷ u 0 1
      ∷ ue 0
      ∷ u 0 1
      ∷ []

unfoldable pub window_elements : Option ConformanceWindow → List Element
window_elements none = u 0 1 ∷ []
window_elements (some cw) = u 1 1 ∷ ue cw.left ∷ ue cw.right ∷ ue cw.top ∷ ue cw.bottom ∷ []

unfoldable pub vui_elements : StreamParams → List Element
vui_elements p =
    u 0 1
    ∷ u 0 1
    ∷ u 0 1
    ∷ u 0 1
    ∷ u 0 1
    ∷ u 0 1
    ∷ u 0 1
    ∷ u 0 1
    ∷ u 1 1
    ∷ u 1 32
    ∷ u (max p.fps 1) 32
    ∷ u 0 1
    ∷ u 0 1
    ∷ u 0 1
    ∷ []

-- Coding tools: block sizes, flags, and the reference picture set with one frame back.
unfoldable pub coding_elements : ℕ → ℕ → List Element
coding_elements min_cb_log2_minus3 diff_max_min_cb_log2 =
    ue min_cb_log2_minus3
    ∷ ue diff_max_min_cb_log2
    ∷ ue 0
    ∷ ue 3
    ∷ ue 3
    ∷ ue 3
    ∷ u 0 1
    ∷ u 1 1
    ∷ u 1 1
    ∷ u 0 1
    ∷ ue 1
    ∷ ue 1
    ∷ ue 0
    ∷ ue 0
    ∷ u 1 1
    ∷ u 0 1
    ∷ u 1 1
    ∷ u 1 1
    ∷ []

unfoldable pub sps_elements : StreamParams → ℕ → ℕ → List Element
sps_elements p min_cb_log2_minus3 diff_max_min_cb_log2 =
    (u 0 4 ∷ u 0 3 ∷ u 1 1 ∷ [])
    ++ profile_tier_level p 0
    ++ (ue 0 ∷ ue 1 ∷ ue p.width ∷ ue p.height ∷ [])
    ++ window_elements p.conformance_window
    ++ (ue p.bit_depth_luma_minus8
        ∷ ue p.bit_depth_chroma_minus8
        ∷ ue 4
        ∷ u 0 1
        ∷ ue p.max_num_ref_frames
        ∷ ue 0
        ∷ ue 0
        ∷ [])
    ++ coding_elements min_cb_log2_minus3 diff_max_min_cb_log2
    ++ u 1 1 ∷ vui_elements p
    ++ u 0 1 ∷ []

unfoldable pub pps_elements : ℤ → List Element
pps_elements init_qp_minus26 =
    ue 0
    ∷ ue 0
    ∷ u 0 1
    ∷ u 0 1
    ∷ u 0 3
    ∷ u 0 1
    ∷ u 0 1
    ∷ ue 0
    ∷ ue 0
    ∷ se init_qp_minus26
    ∷ u 0 1
    ∷ u 0 1
    ∷ u 0 1
    ∷ se (pos 0)
    ∷ se (pos 0)
    ∷ u 0 1
    ∷ u 0 1
    ∷ u 0 1
    ∷ u 0 1
    ∷ u 0 1
    ∷ u 0 1
    ∷ u 1 1
    ∷ u 0 1
    ∷ u 0 1
    ∷ u 0 1
    ∷ ue 0
    ∷ u 0 1
    ∷ u 0 1
    ∷ []

-- The payload that a list of elements makes, with its trailing bits.
unfoldable pub payload : List Element → List ℕ
payload es = (rbsp_trailing (write_all new es)).out

unfoldable pub build_vps : StreamParams → List ℕ
build_vps p = finalize_nal vps_nut (payload (vps_elements p))

unfoldable pub build_sps : StreamParams → ℕ → ℕ → List ℕ
build_sps p min_cb_log2_minus3 diff_max_min_cb_log2 =
    finalize_nal sps_nut (payload (sps_elements p min_cb_log2_minus3 diff_max_min_cb_log2))

unfoldable pub build_pps : ℤ → List ℕ
build_pps init_qp_minus26 = finalize_nal pps_nut (payload (pps_elements init_qp_minus26))
