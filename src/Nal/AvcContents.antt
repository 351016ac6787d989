-- ===== src/Nal/AvcContents.antt =====
-- What the H.264 parameter sets say of a stream, as the standard names it.
use ferricast.Base.{ℕ, ◌-◌, ◌%◌, ◌^◌, ◌<◌, ◌≡◌, Bool, true, false, Option, none, some}
use ferricast.Base.Words.{ℤ, pos}
use ferricast.Nal.Hevc.{mapped}
use ferricast.Nal.Avc.{FrameCrop, VuiParams, SpsParams, PpsParams, has_chroma_fields}
use ferricast.Nal.AvcSyntax.{Chroma, AvcVui, AvcSequence, AvcPicture, is_high_profile}
use ferricast.Nal.AvcElements.{bit_of}

abbrev pub chroma_of : Bool → Option Chroma
chroma_of false = none
chroma_of true = some (record {
  chroma_format_idc = 1;
  bit_depth_luma_minus8 = 0;
  bit_depth_chroma_minus8 = 0;
  qpprime_y_zero_transform_bypass = 0;
})

abbrev pub vui_of : Option VuiParams → Option AvcVui
vui_of none = none
vui_of (some v) = some (record {
  num_units_in_tick = v.num_units_in_tick % 2 ^ 32;
  time_scale = v.time_scale % 2 ^ 32;
  fixed_frame_rate = bit_of v.fixed_frame_rate_flag % 2;
  pic_struct_present = 0;
})

-- A progressive stream; the chroma format stands where the profile has one.
abbrev pub sps_of : SpsParams → Bool → Option FrameCrop → Option VuiParams → AvcSequence
sps_of p chroma crop vui = record {
  profile_idc = p.profile_idc % 2 ^ 8;
  constraint_flags = p.constraint_flags % 2 ^ 8;
  level_idc = p.level_idc % 2 ^ 8;
  sps_id = p.seq_parameter_set_id;
  chroma_format = chroma_of chroma;
  log2_max_frame_num_minus4 = p.log2_max_frame_num_minus4;
  log2_max_pic_order_cnt_lsb_minus4 = p.log2_max_pic_order_cnt_lsb_minus4;
  max_num_ref_frames = p.max_num_ref_frames;
  gaps_in_frame_num_allowed = 0;
  pic_width_in_mbs_minus1 = p.pic_width_in_mbs_minus1;
  pic_height_in_map_units_minus1 = p.pic_height_in_map_units_minus1;
  direct_8x8_inference = 1;
  cropping = crop;
  vui_info = vui_of vui;
}

abbrev pub CropHasCodes : Option FrameCrop → Type 0
CropHasCodes none = Unit {0}
CropHasCodes (some c) =
    (c.left < 2 ^ 32 - 1) × (c.right < 2 ^ 32 - 1) × (c.top < 2 ^ 32 - 1) × (c.bottom < 2 ^ 32 - 1)

-- Each number written as an Exp-Golomb code has one, and the profile is not one of those, 134, 135,
-- 138 and 139, for which the standard has a chroma format and the code writes none.
pub record SpsHasCodes (p : SpsParams) : Type 0 where
  pub profile : is_high_profile (p.profile_idc % 2 ^ 8) ≡ has_chroma_fields p.profile_idc
  pub id : p.seq_parameter_set_id < 2 ^ 32 - 1
  pub frame_num : p.log2_max_frame_num_minus4 < 2 ^ 32 - 1
  pub order_count : p.log2_max_pic_order_cnt_lsb_minus4 < 2 ^ 32 - 1
  pub frames : p.max_num_ref_frames < 2 ^ 32 - 1
  pub width : p.pic_width_in_mbs_minus1 < 2 ^ 32 - 1
  pub height : p.pic_height_in_map_units_minus1 < 2 ^ 32 - 1
  pub crop : CropHasCodes p.frame_cropping

abbrev pub extension_of : Bool → Option (ℕ × ℤ)
extension_of false = none
extension_of true = some (1, pos 0)

abbrev pub pps_of : PpsParams → AvcPicture
pps_of p = record {
  pps_id = p.pic_parameter_set_id;
  sps_id = p.seq_parameter_set_id;
  entropy_coding_mode = bit_of p.entropy_coding_mode_flag % 2;
  bottom_field_pic_order_present = 0;
  num_ref_idx_l0_default_active_minus1 = p.num_ref_idx_l0_default_active_minus1;
  num_ref_idx_l1_default_active_minus1 = 0;
  weighted_pred = 0;
  weighted_bipred_idc = 0;
  pic_init_qp_minus26 = p.pic_init_qp_minus26;
  pic_init_qs_minus26 = pos 0;
  chroma_qp_index_offset = pos 0;
  deblocking_filter_control_present = bit_of p.deblocking_filter_control_present_flag % 2;
  constrained_intra_pred = 0;
  redundant_pic_cnt_present = 0;
  extension = extension_of p.transform_8x8_mode_flag;
}

pub record PpsHasCodes (p : PpsParams) : Type 0 where
  pub pps_id : p.pic_parameter_set_id < 2 ^ 32 - 1
  pub sps_id : p.seq_parameter_set_id < 2 ^ 32 - 1
  pub references : p.num_ref_idx_l0_default_active_minus1 < 2 ^ 32 - 1
  pub init_qp : mapped p.pic_init_qp_minus26 < 2 ^ 32 - 1
