-- ===== src/Nal/AvcSyntax.antt =====
-- The parameter sets of H.264 as a decoder reads them, after the tables of clauses 7.3.2 and E.1.1
-- of the standard. Optional syntax that a progressive 4:2:0 stream without scaling matrices and
-- slice groups does not have is refused.
use ferricast.Base.{ℕ, Bool, true, false, ◌||◌, Option, none, some, ◌==◌, if◌then◌else◌}
use ferricast.Base.Words.{ℤ}
use ferricast.Nal.Avc.{FrameCrop}
use ferricast.Nal.Syntax.{Syntax, done, field_u, field_ue, field_se, ◌>>=◌}
use ferricast.Nal.HevcSyntax.{field_fixed, field_ue_fixed}

-- The profiles with a chroma format in their SPS.
abbrev pub is_high_profile : ℕ → Bool
is_high_profile p =
    p == 100
    || p == 110
    || p == 122
    || p == 244
    || p == 44
    || p == 83
    || p == 86
    || p == 118
    || p == 128
    || p == 138
    || p == 139
    || p == 134
    || p == 135

-- Chroma format and bit depths.
pub record Chroma : Type 0 where
  pub chroma_format_idc : ℕ
  pub bit_depth_luma_minus8 : ℕ
  pub bit_depth_chroma_minus8 : ℕ
  pub qpprime_y_zero_transform_bypass : ℕ

abbrev pub chroma : Syntax Chroma
chroma = do
  chroma_format_idc ← field_ue_fixed 1
  bit_depth_luma_minus8 ← field_ue
  bit_depth_chroma_minus8 ← field_ue
  qpprime_y_zero_transform_bypass ← field_u 1
  _ ← field_fixed 1 0
  done (record {
    chroma_format_idc = chroma_format_idc;
    bit_depth_luma_minus8 = bit_depth_luma_minus8;
    bit_depth_chroma_minus8 = bit_depth_chroma_minus8;
    qpprime_y_zero_transform_bypass = qpprime_y_zero_transform_bypass;
  })

abbrev chroma_if : Bool → Syntax (Option Chroma)
chroma_if false = done none
chroma_if true = do c ← chroma; done (some c)

abbrev crop_if : ℕ → Syntax (Option FrameCrop)
crop_if flag = if flag == 0 then done none else do
  left ← field_ue
  right ← field_ue
  top ← field_ue
  bottom ← field_ue
  done (some (record { left = left; right = right; top = top; bottom = bottom }))

abbrev crop : Syntax (Option FrameCrop)
crop = do flag ← field_u 1; crop_if flag

-- vui_parameters( ) with the timing information alone.
pub record AvcVui : Type 0 where
  pub num_units_in_tick : ℕ
  pub time_scale : ℕ
  pub fixed_frame_rate : ℕ
  pub pic_struct_present : ℕ

abbrev pub vui_parameters : Syntax AvcVui
vui_parameters = do
  _ ← field_fixed 1 0
  _ ← field_fixed 1 0
  _ ← field_fixed 1 0
  _ ← field_fixed 1 0
  _ ← field_fixed 1 1
  num_units_in_tick ← field_u 32
  time_scale ← field_u 32
  fixed_frame_rate ← field_u 1
  _ ← field_fixed 1 0
  _ ← field_fixed 1 0
  pic_struct_present ← field_u 1
  _ ← field_fixed 1 0
  done (record {
    num_units_in_tick = num_units_in_tick;
    time_scale = time_scale;
    fixed_frame_rate = fixed_frame_rate;
    pic_struct_present = pic_struct_present;
  })

abbrev vui_if : ℕ → Syntax (Option AvcVui)
vui_if flag = if flag == 0 then done none else do v ← vui_parameters; done (some v)

abbrev vui : Syntax (Option AvcVui)
vui = do flag ← field_u 1; vui_if flag

-- seq_parameter_set_data( ), 7.3.2.1.1
pub record AvcSequence : Type 0 where
  pub profile_idc : ℕ
  pub constraint_flags : ℕ
  pub level_idc : ℕ
  pub sps_id : ℕ
  pub chroma_format : Option Chroma
  pub log2_max_frame_num_minus4 : ℕ
  pub log2_max_pic_order_cnt_lsb_minus4 : ℕ
  pub max_num_ref_frames : ℕ
  pub gaps_in_frame_num_allowed : ℕ
  pub pic_width_in_mbs_minus1 : ℕ
  pub pic_height_in_map_units_minus1 : ℕ
  pub direct_8x8_inference : ℕ
  pub cropping : Option FrameCrop
  pub vui_info : Option AvcVui

abbrev pub avc_sequence : Syntax AvcSequence
avc_sequence = do
  profile_idc ← field_u 8
  constraint_flags ← field_u 8
  level_idc ← field_u 8
  sps_id ← field_ue
  chroma_format ← chroma_if (is_high_profile profile_idc)
  log2_max_frame_num_minus4 ← field_ue
  _ ← field_ue_fixed 0
  log2_max_pic_order_cnt_lsb_minus4 ← field_ue
  max_num_ref_frames ← field_ue
  gaps_in_frame_num_allowed ← field_u 1
  pic_width_in_mbs_minus1 ← field_ue
  pic_height_in_map_units_minus1 ← field_ue
  _ ← field_fixed 1 1
  direct_8x8_inference ← field_u 1
  cropping ← crop
  vui_info ← vui
  done (record {
    profile_idc = profile_idc;
    constraint_flags = constraint_flags;
    level_idc = level_idc;
    sps_id = sps_id;
    chroma_format = chroma_format;
    log2_max_frame_num_minus4 = log2_max_frame_num_minus4;
    log2_max_pic_order_cnt_lsb_minus4 = log2_max_pic_order_cnt_lsb_minus4;
    max_num_ref_frames = max_num_ref_frames;
    gaps_in_frame_num_allowed = gaps_in_frame_num_allowed;
    pic_width_in_mbs_minus1 = pic_width_in_mbs_minus1;
    pic_height_in_map_units_minus1 = pic_height_in_map_units_minus1;
    direct_8x8_inference = direct_8x8_inference;
    cropping = cropping;
    vui_info = vui_info;
  })

-- What stands behind the rest of a PPS where it goes on: `more_rbsp_data( )` tells.
abbrev extension_if : Bool → Syntax (Option (ℕ × ℤ))
extension_if false = done none
extension_if true = do
  transform_8x8_mode ← field_u 1
  _ ← field_fixed 1 0
  second_chroma_qp_index_offset ← field_se
  done (some (transform_8x8_mode, second_chroma_qp_index_offset))

-- pic_parameter_set_rbsp( ), 7.3.2.2, of which it is known whether it has an extension.
pub record AvcPicture : Type 0 where
  pub pps_id : ℕ
  pub sps_id : ℕ
  pub entropy_coding_mode : ℕ
  pub bottom_field_pic_order_present : ℕ
  pub num_ref_idx_l0_default_active_minus1 : ℕ
  pub num_ref_idx_l1_default_active_minus1 : ℕ
  pub weighted_pred : ℕ
  pub weighted_bipred_idc : ℕ
  pub pic_init_qp_minus26 : ℤ
  pub pic_init_qs_minus26 : ℤ
  pub chroma_qp_index_offset : ℤ
  pub deblocking_filter_control_present : ℕ
  pub constrained_intra_pred : ℕ
  pub redundant_pic_cnt_present : ℕ
  pub extension : Option (ℕ × ℤ)

abbrev pub avc_picture : Bool → Syntax AvcPicture
avc_picture more = do
  pps_id ← field_ue
  sps_id ← field_ue
  entropy_coding_mode ← field_u 1
  bottom_field_pic_order_present ← field_u 1
  _ ← field_ue_fixed 0
  num_ref_idx_l0_default_active_minus1 ← field_ue
  num_ref_idx_l1_default_active_minus1 ← field_ue
  weighted_pred ← field_u 1
  weighted_bipred_idc ← field_u 2
  pic_init_qp_minus26 ← field_se
  pic_init_qs_minus26 ← field_se
  chroma_qp_index_offset ← field_se
  deblocking_filter_control_present ← field_u 1
  constrained_intra_pred ← field_u 1
  redundant_pic_cnt_present ← field_u 1
  extension ← extension_if more
  done (record {
    pps_id = pps_id;
    sps_id = sps_id;
    entropy_coding_mode = entropy_coding_mode;
    bottom_field_pic_order_present = bottom_field_pic_order_present;
    num_ref_idx_l0_default_active_minus1 = num_ref_idx_l0_default_active_minus1;
    num_ref_idx_l1_default_active_minus1 = num_ref_idx_l1_default_active_minus1;
    weighted_pred = weighted_pred;
    weighted_bipred_idc = weighted_bipred_idc;
    pic_init_qp_minus26 = pic_init_qp_minus26;
    pic_init_qs_minus26 = pic_init_qs_minus26;
    chroma_qp_index_offset = chroma_qp_index_offset;
    deblocking_filter_control_present = deblocking_filter_control_present;
    constrained_intra_pred = constrained_intra_pred;
    redundant_pic_cnt_present = redundant_pic_cnt_present;
    extension = extension;
  })
