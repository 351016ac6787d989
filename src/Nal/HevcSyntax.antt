-- ===== src/Nal/HevcSyntax.antt =====
-- The parameter sets of H.265 as a decoder reads them, after the tables of clauses 7.3.1.2 and
-- 7.3.2 of the standard. Optional syntax that a single-layer stream without ranges, tiles, scaling
-- lists or further sub-layers does not have is refused.
use ferricast.Base.{ℕ, ◌+◌, ◌*◌, ◌^◌, ◌==◌, if◌then◌else◌}
use ferricast.Base.Words.{ℤ}
use ferricast.Nal.Syntax.{Syntax, done, refuse, field_u, field_ue, field_se, ◌>>=◌}

-- profile_tier_level( 1, 0 )
pub record ProfileTierLevel : Type 0 where
  pub profile_space : ℕ
  pub tier_flag : ℕ
  pub profile_idc : ℕ
  pub profile_compatibility : ℕ
  pub progressive_source : ℕ
  pub interlaced_source : ℕ
  pub non_packed : ℕ
  pub frame_only : ℕ
  pub reserved : ℕ
  pub inbld : ℕ
  pub level_idc : ℕ

-- The limits of the one sub-layer.
pub record Buffering : Type 0 where
  pub max_dec_pic_buffering_minus1 : ℕ
  pub max_num_reorder_pics : ℕ
  pub max_latency_increase_plus1 : ℕ

-- Where a set carries the timing information.
pub record Timing : Type 0 where
  pub num_units_in_tick : ℕ
  pub time_scale : ℕ

-- A field whose value decides on syntax that is refused.
abbrev pub field_fixed : ℕ → ℕ → Syntax ℕ
field_fixed n expected = do value ← field_u n; if value == expected then done value else refuse

abbrev pub field_ue_fixed : ℕ → Syntax ℕ
field_ue_fixed expected = do value ← field_ue; if value == expected then done value else refuse

abbrev pub general_syntax : Syntax ProfileTierLevel
general_syntax = do
  profile_space ← field_u 2
  tier_flag ← field_u 1
  profile_idc ← field_u 5
  flags_0_to_15 ← field_u 16
  flags_16_to_31 ← field_u 16
  progressive_source ← field_u 1
  interlaced_source ← field_u 1
  non_packed ← field_u 1
  frame_only ← field_u 1
  reserved_22 ← field_u 22
  reserved_21 ← field_u 21
  inbld ← field_u 1
  level_idc ← field_u 8
  done (record {
    profile_space = profile_space;
    tier_flag = tier_flag;
    profile_idc = profile_idc;
    profile_compatibility = flags_0_to_15 * 2 ^ 16 + flags_16_to_31;
    progressive_source = progressive_source;
    interlaced_source = interlaced_source;
    non_packed = non_packed;
    frame_only = frame_only;
    reserved = reserved_22 * 2 ^ 21 + reserved_21;
    inbld = inbld;
    level_idc = level_idc;
  })

abbrev pub buffering : Syntax Buffering
buffering = do
  max_dec_pic_buffering_minus1 ← field_ue
  max_num_reorder_pics ← field_ue
  max_latency_increase_plus1 ← field_ue
  done (record {
    max_dec_pic_buffering_minus1 = max_dec_pic_buffering_minus1;
    max_num_reorder_pics = max_num_reorder_pics;
    max_latency_increase_plus1 = max_latency_increase_plus1;
  })

abbrev pub timing : Syntax Timing
timing = do
  num_units_in_tick ← field_u 32
  time_scale ← field_u 32
  done (record { num_units_in_tick = num_units_in_tick; time_scale = time_scale })

-- video_parameter_set_rbsp( ), 7.3.2.1
pub record VideoSet : Type 0 where
  pub vps_id : ℕ
  pub base_layer_internal : ℕ
  pub base_layer_available : ℕ
  pub max_layers_minus1 : ℕ
  pub temporal_id_nesting : ℕ
  pub general : ProfileTierLevel
  pub sub_layer_ordering_info_present : ℕ
  pub limits : Buffering
  pub max_layer_id : ℕ
  pub ticks : Timing

abbrev pub video_parameter_set : Syntax VideoSet
video_parameter_set = do
  vps_id ← field_u 4
  base_layer_internal ← field_u 1
  base_layer_available ← field_u 1
  max_layers_minus1 ← field_u 6
  _ ← field_fixed 3 0
  temporal_id_nesting ← field_u 1
  _ ← field_fixed 16 0xffff
  general ← general_syntax
  sub_layer_ordering_info_present ← field_u 1
  limits ← buffering
  max_layer_id ← field_u 6
  _ ← field_ue_fixed 0
  _ ← field_fixed 1 1
  ticks ← timing
  _ ← field_fixed 1 0
  _ ← field_ue_fixed 0
  _ ← field_fixed 1 0
  done (record {
    vps_id = vps_id;
    base_layer_internal = base_layer_internal;
    base_layer_available = base_layer_available;
    max_layers_minus1 = max_layers_minus1;
    temporal_id_nesting = temporal_id_nesting;
    general = general;
    sub_layer_ordering_info_present = sub_layer_ordering_info_present;
    limits = limits;
    max_layer_id = max_layer_id;
    ticks = ticks;
  })

-- pic_parameter_set_rbsp( ), 7.3.2.3
pub record PictureSet : Type 0 where
  pub pps_id : ℕ
  pub sps_id : ℕ
  pub dependent_slice_segments : ℕ
  pub output_flag_present : ℕ
  pub num_extra_slice_header_bits : ℕ
  pub sign_data_hiding : ℕ
  pub cabac_init_present : ℕ
  pub num_ref_idx_l0_default_active_minus1 : ℕ
  pub num_ref_idx_l1_default_active_minus1 : ℕ
  pub init_qp_minus26 : ℤ
  pub constrained_intra_pred : ℕ
  pub transform_skip : ℕ
  pub cb_qp_offset : ℤ
  pub cr_qp_offset : ℤ
  pub slice_chroma_qp_offsets_present : ℕ
  pub weighted_pred : ℕ
  pub weighted_bipred : ℕ
  pub transquant_bypass : ℕ
  pub entropy_coding_sync : ℕ
  pub loop_filter_across_slices : ℕ
  pub lists_modification_present : ℕ
  pub log2_parallel_merge_level_minus2 : ℕ
  pub slice_segment_header_extension_present : ℕ

abbrev pub picture_parameter_set : Syntax PictureSet
picture_parameter_set = do
  pps_id ← field_ue
  sps_id ← field_ue
  dependent_slice_segments ← field_u 1
  output_flag_present ← field_u 1
  num_extra_slice_header_bits ← field_u 3
  sign_data_hiding ← field_u 1
  cabac_init_present ← field_u 1
  num_ref_idx_l0_default_active_minus1 ← field_ue
  num_ref_idx_l1_default_active_minus1 ← field_ue
  init_qp_minus26 ← field_se
  constrained_intra_pred ← field_u 1
  transform_skip ← field_u 1
  _ ← field_fixed 1 0
  cb_qp_offset ← field_se
  cr_qp_offset ← field_se
  slice_chroma_qp_offsets_present ← field_u 1
  weighted_pred ← field_u 1
  weighted_bipred ← field_u 1
  transquant_bypass ← field_u 1
  _ ← field_fixed 1 0
  entropy_coding_sync ← field_u 1
  loop_filter_across_slices ← field_u 1
  _ ← field_fixed 1 0
  _ ← field_fixed 1 0
  lists_modification_present ← field_u 1
  log2_parallel_merge_level_minus2 ← field_ue
  slice_segment_header_extension_present ← field_u 1
  _ ← field_fixed 1 0
  done (record {
    pps_id = pps_id;
    sps_id = sps_id;
    dependent_slice_segments = dependent_slice_segments;
    output_flag_present = output_flag_present;
    num_extra_slice_header_bits = num_extra_slice_header_bits;
    sign_data_hiding = sign_data_hiding;
    cabac_init_present = cabac_init_present;
    num_ref_idx_l0_default_active_minus1 = num_ref_idx_l0_default_active_minus1;
    num_ref_idx_l1_default_active_minus1 = num_ref_idx_l1_default_active_minus1;
    init_qp_minus26 = init_qp_minus26;
    constrained_intra_pred = constrained_intra_pred;
    transform_skip = transform_skip;
    cb_qp_offset = cb_qp_offset;
    cr_qp_offset = cr_qp_offset;
    slice_chroma_qp_offsets_present = slice_chroma_qp_offsets_present;
    weighted_pred = weighted_pred;
    weighted_bipred = weighted_bipred;
    transquant_bypass = transquant_bypass;
    entropy_coding_sync = entropy_coding_sync;
    loop_filter_across_slices = loop_filter_across_slices;
    lists_modification_present = lists_modification_present;
    log2_parallel_merge_level_minus2 = log2_parallel_merge_level_minus2;
    slice_segment_header_extension_present = slice_segment_header_extension_present;
  })
