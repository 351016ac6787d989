-- ===== src/Nal/HevcSequence.antt =====
-- The sequence parameter set of H.265 as a decoder reads it, after the tables of clauses 7.3.2.2,
-- 7.3.7 and E.2.1 of the standard.
use ferricast.Base.{ℕ, Option, none, some, ◌==◌, if◌then◌else◌}
use ferricast.Nal.Syntax.{Syntax, done, field_u, field_ue, ◌>>=◌}
use ferricast.Nal.HevcSets.{ConformanceWindow}
use ferricast.Nal.HevcSyntax.{
  ProfileTierLevel, Buffering, Timing, field_fixed, field_ue_fixed, general_syntax, buffering,
  timing,
}

-- Offsets are there if the flag before them is set.
abbrev window_if : ℕ → Syntax (Option ConformanceWindow)
window_if flag = if flag == 0 then done none else do
  left ← field_ue
  right ← field_ue
  top ← field_ue
  bottom ← field_ue
  done (some (record { left = left; right = right; top = top; bottom = bottom }))

abbrev conformance_window : Syntax (Option ConformanceWindow)
conformance_window = do flag ← field_u 1; window_if flag

-- Block sizes and transform depths.
pub record Blocks : Type 0 where
  pub log2_min_luma_coding_block_size_minus3 : ℕ
  pub log2_diff_max_min_luma_coding_block_size : ℕ
  pub log2_min_luma_transform_block_size_minus2 : ℕ
  pub log2_diff_max_min_luma_transform_block_size : ℕ
  pub max_transform_hierarchy_depth_inter : ℕ
  pub max_transform_hierarchy_depth_intra : ℕ

abbrev pub blocks : Syntax Blocks
blocks = do
  log2_min_luma_coding_block_size_minus3 ← field_ue
  log2_diff_max_min_luma_coding_block_size ← field_ue
  log2_min_luma_transform_block_size_minus2 ← field_ue
  log2_diff_max_min_luma_transform_block_size ← field_ue
  max_transform_hierarchy_depth_inter ← field_ue
  max_transform_hierarchy_depth_intra ← field_ue
  done (record {
    log2_min_luma_coding_block_size_minus3 = log2_min_luma_coding_block_size_minus3;
    log2_diff_max_min_luma_coding_block_size = log2_diff_max_min_luma_coding_block_size;
    log2_min_luma_transform_block_size_minus2 = log2_min_luma_transform_block_size_minus2;
    log2_diff_max_min_luma_transform_block_size = log2_diff_max_min_luma_transform_block_size;
    max_transform_hierarchy_depth_inter = max_transform_hierarchy_depth_inter;
    max_transform_hierarchy_depth_intra = max_transform_hierarchy_depth_intra;
  })

-- st_ref_pic_set( 0 ) with one picture before the current one.
pub record ReferenceSet : Type 0 where
  pub delta_poc_s0_minus1 : ℕ
  pub used_by_curr_pic_s0 : ℕ

abbrev pub reference_set : Syntax ReferenceSet
reference_set = do
  _ ← field_ue_fixed 1
  _ ← field_ue_fixed 0
  delta_poc_s0_minus1 ← field_ue
  used_by_curr_pic_s0 ← field_u 1
  done (record {
    delta_poc_s0_minus1 = delta_poc_s0_minus1;
    used_by_curr_pic_s0 = used_by_curr_pic_s0;
  })

-- vui_parameters( ) with the timing information alone.
pub record Vui : Type 0 where
  pub neutral_chroma_indication : ℕ
  pub field_seq : ℕ
  pub frame_field_info_present : ℕ
  pub ticks : Timing

abbrev pub vui_parameters : Syntax Vui
vui_parameters = do
  _ ← field_fixed 1 0
  _ ← field_fixed 1 0
  _ ← field_fixed 1 0
  _ ← field_fixed 1 0
  neutral_chroma_indication ← field_u 1
  field_seq ← field_u 1
  frame_field_info_present ← field_u 1
  _ ← field_fixed 1 0
  _ ← field_fixed 1 1
  ticks ← timing
  _ ← field_fixed 1 0
  _ ← field_fixed 1 0
  _ ← field_fixed 1 0
  done (record {
    neutral_chroma_indication = neutral_chroma_indication;
    field_seq = field_seq;
    frame_field_info_present = frame_field_info_present;
    ticks = ticks;
  })

-- seq_parameter_set_rbsp( ), 7.3.2.2
pub record SequenceSet : Type 0 where
  pub vps_id : ℕ
  pub temporal_id_nesting : ℕ
  pub general : ProfileTierLevel
  pub sps_id : ℕ
  pub chroma_format_idc : ℕ
  pub pic_width_in_luma_samples : ℕ
  pub pic_height_in_luma_samples : ℕ
  pub window : Option ConformanceWindow
  pub bit_depth_luma_minus8 : ℕ
  pub bit_depth_chroma_minus8 : ℕ
  pub log2_max_pic_order_cnt_lsb_minus4 : ℕ
  pub sub_layer_ordering_info_present : ℕ
  pub limits : Buffering
  pub block_sizes : Blocks
  pub amp_enabled : ℕ
  pub sample_adaptive_offset_enabled : ℕ
  pub references : ReferenceSet
  pub temporal_mvp_enabled : ℕ
  pub strong_intra_smoothing_enabled : ℕ
  pub vui : Vui

abbrev pub sequence_parameter_set : Syntax SequenceSet
sequence_parameter_set = do
  vps_id ← field_u 4
  _ ← field_fixed 3 0
  temporal_id_nesting ← field_u 1
  general ← general_syntax
  sps_id ← field_ue
  chroma_format_idc ← field_ue_fixed 1
  pic_width_in_luma_samples ← field_ue
  pic_height_in_luma_samples ← field_ue
  window ← conformance_window
  bit_depth_luma_minus8 ← field_ue
  bit_depth_chroma_minus8 ← field_ue
  log2_max_pic_order_cnt_lsb_minus4 ← field_ue
  sub_layer_ordering_info_present ← field_u 1
  limits ← buffering
  block_sizes ← blocks
  _ ← field_fixed 1 0
  amp_enabled ← field_u 1
  sample_adaptive_offset_enabled ← field_u 1
  _ ← field_fixed 1 0
  _ ← field_ue_fixed 1
  references ← reference_set
  _ ← field_fixed 1 0
  temporal_mvp_enabled ← field_u 1
  strong_intra_smoothing_enabled ← field_u 1
  _ ← field_fixed 1 1
  vui ← vui_parameters
  _ ← field_fixed 1 0
  done (record {
    vps_id = vps_id;
    temporal_id_nesting = temporal_id_nesting;
    general = general;
    sps_id = sps_id;
    chroma_format_idc = chroma_format_idc;
    pic_width_in_luma_samples = pic_width_in_luma_samples;
    pic_height_in_luma_samples = pic_height_in_luma_samples;
    window = window;
    bit_depth_luma_minus8 = bit_depth_luma_minus8;
    bit_depth_chroma_minus8 = bit_depth_chroma_minus8;
    log2_max_pic_order_cnt_lsb_minus4 = log2_max_pic_order_cnt_lsb_minus4;
    sub_layer_ordering_info_present = sub_layer_ordering_info_present;
    limits = limits;
    block_sizes = block_sizes;
    amp_enabled = amp_enabled;
    sample_adaptive_offset_enabled = sample_adaptive_offset_enabled;
    references = references;
    temporal_mvp_enabled = temporal_mvp_enabled;
    strong_intra_smoothing_enabled = strong_intra_smoothing_enabled;
    vui = vui;
  })
