-- ===== src/Nal/HevcContents.antt =====
-- What the HEVC parameter sets say of a stream, as the standard names it.
use ferricast.Base.{ℕ, ◌-◌, ◌%◌, ◌^◌, ◌<◌, Option, none, some, max}
use ferricast.Base.Words.{ℤ, pos}
use ferricast.Nal.HevcSets.{StreamParams, ConformanceWindow, compatibility_flags}
use ferricast.Nal.HevcSyntax.{ProfileTierLevel, Buffering, Timing, VideoSet, PictureSet}
use ferricast.Nal.HevcSequence.{SequenceSet}

-- What the parameters ask for: a progressive stream of one profile and level.
abbrev pub general_of : StreamParams → ProfileTierLevel
general_of p = record {
  profile_space = 0;
  tier_flag = p.tier_flag % 2;
  profile_idc = p.profile_idc % 2 ^ 5;
  profile_compatibility = compatibility_flags p.profile_idc;
  progressive_source = 1;
  interlaced_source = 0;
  non_packed = 1;
  frame_only = 1;
  reserved = 0;
  inbld = 0;
  level_idc = p.level_idc % 2 ^ 8;
}

-- One second has `fps` ticks.
abbrev pub ticks_of : StreamParams → Timing
ticks_of p = record { num_units_in_tick = 1; time_scale = max p.fps 1 % 2 ^ 32 }

abbrev pub limits_of : StreamParams → Buffering
limits_of p = record {
  max_dec_pic_buffering_minus1 = p.max_num_ref_frames;
  max_num_reorder_pics = 0;
  max_latency_increase_plus1 = 0;
}

abbrev pub video_of : StreamParams → VideoSet
video_of p = record {
  vps_id = 0;
  base_layer_internal = 1;
  base_layer_available = 1;
  max_layers_minus1 = 0;
  temporal_id_nesting = 1;
  general = general_of p;
  sub_layer_ordering_info_present = 0;
  limits = limits_of p;
  max_layer_id = 0;
  ticks = ticks_of p;
}

-- 4:2:0 pictures of the given size, each predicted from the one before.
abbrev pub sequence_of : StreamParams → ℕ → ℕ → SequenceSet
sequence_of p min_cb diff_cb = record {
  vps_id = 0;
  temporal_id_nesting = 1;
  general = general_of p;
  sps_id = 0;
  chroma_format_idc = 1;
  pic_width_in_luma_samples = p.width;
  pic_height_in_luma_samples = p.height;
  window = p.conformance_window;
  bit_depth_luma_minus8 = p.bit_depth_luma_minus8;
  bit_depth_chroma_minus8 = p.bit_depth_chroma_minus8;
  log2_max_pic_order_cnt_lsb_minus4 = 4;
  sub_layer_ordering_info_present = 0;
  limits = limits_of p;
  block_sizes = record {
    log2_min_luma_coding_block_size_minus3 = min_cb;
    log2_diff_max_min_luma_coding_block_size = diff_cb;
    log2_min_luma_transform_block_size_minus2 = 0;
    log2_diff_max_min_luma_transform_block_size = 3;
    max_transform_hierarchy_depth_inter = 3;
    max_transform_hierarchy_depth_intra = 3;
  };
  amp_enabled = 1;
  sample_adaptive_offset_enabled = 1;
  references = record { delta_poc_s0_minus1 = 0; used_by_curr_pic_s0 = 1 };
  temporal_mvp_enabled = 1;
  strong_intra_smoothing_enabled = 1;
  vui = record {
    neutral_chroma_indication = 0;
    field_seq = 0;
    frame_field_info_present = 0;
    ticks = ticks_of p;
  };
}

-- No tools but the loop filter across slices.
abbrev pub picture_of : ℤ → PictureSet
picture_of qp = record {
  pps_id = 0;
  sps_id = 0;
  dependent_slice_segments = 0;
  output_flag_present = 0;
  num_extra_slice_header_bits = 0;
  sign_data_hiding = 0;
  cabac_init_present = 0;
  num_ref_idx_l0_default_active_minus1 = 0;
  num_ref_idx_l1_default_active_minus1 = 0;
  init_qp_minus26 = qp;
  constrained_intra_pred = 0;
  transform_skip = 0;
  cb_qp_offset = pos 0;
  cr_qp_offset = pos 0;
  slice_chroma_qp_offsets_present = 0;
  weighted_pred = 0;
  weighted_bipred = 0;
  transquant_bypass = 0;
  entropy_coding_sync = 0;
  loop_filter_across_slices = 1;
  lists_modification_present = 0;
  log2_parallel_merge_level_minus2 = 0;
  slice_segment_header_extension_present = 0;
}

-- The parameters of which every number that is written as an Exp-Golomb code has one.
abbrev pub WindowHasCodes : Option ConformanceWindow → Type 0
WindowHasCodes none = Unit {0}
WindowHasCodes (some w) =
    (w.left < 2 ^ 32 - 1) × (w.right < 2 ^ 32 - 1) × (w.top < 2 ^ 32 - 1) × (w.bottom < 2 ^ 32 - 1)

pub record HasCodes (p : StreamParams) : Type 0 where
  pub width : p.width < 2 ^ 32 - 1
  pub height : p.height < 2 ^ 32 - 1
  pub window : WindowHasCodes p.conformance_window
  pub depth_luma : p.bit_depth_luma_minus8 < 2 ^ 32 - 1
  pub depth_chroma : p.bit_depth_chroma_minus8 < 2 ^ 32 - 1
  pub frames : p.max_num_ref_frames < 2 ^ 32 - 1
