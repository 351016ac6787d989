-- ===== src/Nal/Avc.antt =====
-- crates/encoder/src/h264/headers.rs: the sequence and picture parameter sets.
use ferricast.Base.{ℕ, List, Bool, true, false, Option, none, some, ◌||◌, ◌==◌, if◌then◌else◌}
use ferricast.Base.Words.{ℤ, pos}
use ferricast.Nal.Writer.{BitWriter, new, write_bits, write_flag, write_ue, write_se}
use ferricast.Nal.Escape.{finalize_nal}

pub record FrameCrop : Type 0 where
  pub left : ℕ
  pub right : ℕ
  pub top : ℕ
  pub bottom : ℕ

pub record VuiParams : Type 0 where
  pub num_units_in_tick : ℕ
  pub time_scale : ℕ
  pub fixed_frame_rate_flag : Bool

pub record SpsParams : Type 0 where
  pub profile_idc : ℕ
  pub constraint_flags : ℕ
  pub level_idc : ℕ
  pub seq_parameter_set_id : ℕ
  pub pic_width_in_mbs_minus1 : ℕ
  pub pic_height_in_map_units_minus1 : ℕ
  pub log2_max_frame_num_minus4 : ℕ
  pub log2_max_pic_order_cnt_lsb_minus4 : ℕ
  pub max_num_ref_frames : ℕ
  pub frame_cropping : Option FrameCrop
  pub vui : Option VuiParams

abbrev pub high : ℕ
high = 100

-- The profiles whose SPS carries the chroma format and the bit depths.
abbrev pub has_chroma_fields : ℕ → Bool
has_chroma_fields p =
    p == high
    || p == 110
    || p == 122
    || p == 244
    || p == 44
    || p == 83
    || p == 86
    || p == 118
    || p == 128

unfoldable pub write_chroma : BitWriter → BitWriter
write_chroma w =
    let w1 = write_ue (write_ue (write_ue w 1) 0) 0 in write_flag (write_flag w1 false) false

unfoldable pub write_cropping : BitWriter → Option FrameCrop → BitWriter
write_cropping w none = write_flag w false
write_cropping w (some c) =
    write_ue (write_ue (write_ue (write_ue (write_flag w true) c.left) c.right) c.top) c.bottom

unfoldable pub write_vui : BitWriter → VuiParams → BitWriter
write_vui w v =
    let w1 = write_flag (write_flag (write_flag (write_flag w false) false) false) false in
    let w2 = write_bits (write_flag w1 true) v.num_units_in_tick 32 in
    let w3 = write_flag (write_bits w2 v.time_scale 32) v.fixed_frame_rate_flag in
    write_flag (write_flag (write_flag (write_flag w3 false) false) false) false

unfoldable pub write_vui_parameters : BitWriter → Option VuiParams → BitWriter
write_vui_parameters w none = write_flag w false
write_vui_parameters w (some v) = write_vui (write_flag w true) v

-- The payload of an SPS, as far as its writer goes.
unfoldable pub sps_payload : SpsParams → BitWriter
sps_payload p =
    let w1 =
      write_bits (write_bits (write_bits new p.profile_idc 8) p.constraint_flags 8) p.level_idc 8 in
    let w2 = write_ue w1 p.seq_parameter_set_id in
    let w3 = if has_chroma_fields p.profile_idc then write_chroma w2 else w2 in
    let w4 = write_ue (write_ue w3 p.log2_max_frame_num_minus4) 0 in
    let w5 = write_ue (write_ue w4 p.log2_max_pic_order_cnt_lsb_minus4) p.max_num_ref_frames in
    let w6 = write_ue (write_flag w5 false) p.pic_width_in_mbs_minus1 in
    let w7 = write_flag (write_flag (write_ue w6 p.pic_height_in_map_units_minus1) true) true in
    write_vui_parameters (write_cropping w7 p.frame_cropping) p.vui

unfoldable pub build_sps : SpsParams → List ℕ
build_sps p = finalize_nal (sps_payload p) 3 7

pub record PpsParams : Type 0 where
  pub pic_parameter_set_id : ℕ
  pub seq_parameter_set_id : ℕ
  pub entropy_coding_mode_flag : Bool
  pub num_ref_idx_l0_default_active_minus1 : ℕ
  pub pic_init_qp_minus26 : ℤ
  pub deblocking_filter_control_present_flag : Bool
  pub transform_8x8_mode_flag : Bool

unfoldable pub write_transform_8x8 : BitWriter → BitWriter
write_transform_8x8 w = write_se (write_flag (write_flag w true) false) (pos 0)

unfoldable pub pps_payload : PpsParams → BitWriter
pps_payload p =
    let w1 = write_ue (write_ue new p.pic_parameter_set_id) p.seq_parameter_set_id in
    let w2 = write_ue (write_flag (write_flag w1 p.entropy_coding_mode_flag) false) 0 in
    let w3 = write_ue (write_ue w2 p.num_ref_idx_l0_default_active_minus1) 0 in
    let w4 = write_se (write_bits (write_flag w3 false) 0 2) p.pic_init_qp_minus26 in
    let w5 = write_se (write_se w4 (pos 0)) (pos 0) in
    let w6 = write_flag w5 p.deblocking_filter_control_present_flag in
    let w7 = write_flag (write_flag w6 false) false in
    if p.transform_8x8_mode_flag then write_transform_8x8 w7 else w7

unfoldable pub build_pps : PpsParams → List ℕ
build_pps p = finalize_nal (pps_payload p) 3 8
