-- ===== src/Nal/Tests.antt =====
-- Parameter sets at concrete values.
use ferricast.Base.{refl, arith, ℕ, List, [], ◌∷◌, ◌++◌, false, some, ◌≡◌, ◌<◌, ◌^◌, ◌-◌}
use ferricast.Nal.Avc.{SpsParams, PpsParams, build_sps, build_pps, has_chroma_fields}
use ferricast.Nal.AvcSyntax.{avc_sequence, avc_picture}
use ferricast.Nal.AvcParameters.{read_nal, build_sps-read, build_pps-read}
use ferricast.Nal.AvcContents.{sps_of, pps_of, SpsHasCodes, PpsHasCodes}
use ferricast.Base.{drop, true}
use ferricast.Base.Words.{pos, negsuc}
use ferricast.Nal.Hevc.{new, write_ue, mapped}
use ferricast.Nal.HevcSets
use ferricast.Nal.HevcSets.{StreamParams, build_vps}
use ferricast.Nal.HevcBits.{written, byte_bits, bits}
use ferricast.Nal.Writer
use ferricast.Nal.AvcBits.{HasWritten}
use ferricast.Nal.AvcCodes.{write_ue-HasWritten}
use ferricast.Nal.HevcCoded.{Carries}
use ferricast.Nal.HevcSyntax.{video_parameter_set, picture_parameter_set}
use ferricast.Nal.HevcSequence.{sequence_parameter_set}
use ferricast.Nal.HevcContents.{video_of, sequence_of, picture_of, HasCodes}
use ferricast.Nal.HevcParameters.{parameter_sets-Carries}
use ferricast.Nal.ExpGolomb.{read_ue, write_ue-read}
use ferricast.Nal.Escape.{
  unescape, emulation_prevent, contains_code, unescape-emulation_prevent, emulation_prevent-clean,
}
use ferricast.Nal.Writer.{finish_rbsp}

abbrev rbsp : List ℕ
rbsp = 0xaa ∷ 0 ∷ 0 ∷ 1 ∷ 0 ∷ 0 ∷ 0 ∷ []

abbrev sps : SpsParams
sps = record {
  profile_idc = 100;
  constraint_flags = 0;
  level_idc = 40;
  seq_parameter_set_id = 0;
  pic_width_in_mbs_minus1 = 119;
  pic_height_in_map_units_minus1 = 67;
  log2_max_frame_num_minus4 = 4;
  log2_max_pic_order_cnt_lsb_minus4 = 4;
  max_num_ref_frames = 1;
  frame_cropping = some (record { left = 0; right = 0; top = 0; bottom = 4 });
  vui = some (record { num_units_in_tick = 1; time_scale = 60; fixed_frame_rate_flag = true });
}

abbrev pps : PpsParams
pps = record {
  pic_parameter_set_id = 0;
  seq_parameter_set_id = 0;
  entropy_coding_mode_flag = true;
  num_ref_idx_l0_default_active_minus1 = 0;
  pic_init_qp_minus26 = pos 0;
  deblocking_filter_control_present_flag = true;
  transform_8x8_mode_flag = false;
}

abbrev stream : StreamParams
stream = record {
  profile_idc = 1;
  level_idc = 123;
  tier_flag = 0;
  width = 1920;
  height = 1080;
  fps = 60;
  conformance_window = some (record { left = 0; right = 0; top = 0; bottom = 8 });
  bit_depth_luma_minus8 = 0;
  bit_depth_chroma_minus8 = 0;
  max_num_ref_frames = 1;
}

unescape-emulation_prevent_example : unescape 0 (emulation_prevent rbsp) ≡ rbsp
unescape-emulation_prevent_example = unescape-emulation_prevent rbsp

emulation_prevent-clean_example : contains_code (emulation_prevent rbsp) ≡ false
emulation_prevent-clean_example = emulation_prevent-clean rbsp

stream-HasCodes : HasCodes stream
stream-HasCodes = record {
  width = omega arith;
  height = omega arith;
  window = (omega arith, omega arith, omega arith, omega arith);
  depth_luma = omega arith;
  depth_chroma = omega arith;
  frames = omega arith;
}

qp-fits : mapped (negsuc 3) < 2 ^ 32 - 1
unfolding mapped
qp-fits = omega arith

parameter_sets-Carries_example :
    Carries video_parameter_set 32 (video_of stream) (build_vps stream)
    × Carries sequence_parameter_set 33 (sequence_of stream 0 2) (HevcSets.build_sps stream 0 2)
    × Carries picture_parameter_set 34 (picture_of (negsuc 3)) (HevcSets.build_pps (negsuc 3))
parameter_sets-Carries_example =
    parameter_sets-Carries stream 0 2 (negsuc 3) stream-HasCodes (omega arith) (omega arith) qp-fits

write_ue-read_example :
    (code : List ℕ) × (written (write_ue new 119) ≡ written new ++ code)
    × ((rest : List ℕ) → read_ue (code ++ rest) ≡ some (119, rest))
unfolding new
write_ue-read_example =
    write_ue-read new 119 (record { partial = omega arith; small = omega arith }) (omega arith)

new-HasWritten : HasWritten Writer.new []
unfolding Writer.new byte_bits bits
new-HasWritten = record {
  full = [];
  rest = 0;
  partial = omega arith;
  small = omega arith;
  bytes = refl;
  all_bits = refl;
}

write_ue-HasWritten_example :
    (c : List ℕ) × HasWritten (Writer.write_ue Writer.new 119) c
    × ((rest : List ℕ) → read_ue (c ++ rest) ≡ some (119, rest))
write_ue-HasWritten_example = write_ue-HasWritten Writer.new [] 119 new-HasWritten (omega arith)

sps-HasCodes : SpsHasCodes sps
sps-HasCodes = record {
  profile = refl;
  id = omega arith;
  frame_num = omega arith;
  order_count = omega arith;
  frames = omega arith;
  width = omega arith;
  height = omega arith;
  crop = (omega arith, omega arith, omega arith, omega arith);
}

build_sps-read_example :
    (read_nal avc_sequence 0x67 (build_sps sps)
      ≡ some (sps_of sps (has_chroma_fields 100) sps.frame_cropping sps.vui))
    × (contains_code (drop 5 (build_sps sps)) ≡ false)
build_sps-read_example = build_sps-read sps sps-HasCodes

pps-HasCodes : PpsHasCodes pps
unfolding mapped
pps-HasCodes = record {
  pps_id = omega arith;
  sps_id = omega arith;
  references = omega arith;
  init_qp = omega arith;
}

build_pps-read_example :
    (read_nal (avc_picture false) 0x68 (build_pps pps) ≡ some (pps_of pps))
    × (contains_code (drop 5 (build_pps pps)) ≡ false)
build_pps-read_example = build_pps-read pps pps-HasCodes
