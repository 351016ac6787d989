-- ===== src/Nal/AvcElements.antt =====
-- The H.264 parameter sets as lists of syntax elements.
use ferricast.Base.{
  ℕ, List, [], ◌∷◌, ◌++◌, ◌≡◌, refl, ap, ◌∙◌, Bool, true, false, Option, none, some, if◌then◌else◌,
}
use ferricast.Base.Words.{pos}
use ferricast.Nal.Writer.{BitWriter, new, write_bits, write_flag, write_ue}
use ferricast.Nal.HevcSets.{Element, u, ue, se}
use ferricast.Nal.Avc.{
  FrameCrop, VuiParams, SpsParams, PpsParams, has_chroma_fields, write_chroma, write_cropping,
  write_vui, write_vui_parameters, sps_payload, pps_payload, write_transform_8x8,
}
use ferricast.Nal.AvcPayload.{write_elements}

abbrev pub bit_of : Bool → ℕ
bit_of b = if b then 1 else 0

abbrev pub chroma_elements : Bool → List Element
chroma_elements true = ue 1 ∷ ue 0 ∷ ue 0 ∷ u 0 1 ∷ u 0 1 ∷ []
chroma_elements false = []

abbrev pub cropping_elements : Option FrameCrop → List Element
cropping_elements none = u 0 1 ∷ []
cropping_elements (some c) = u 1 1 ∷ ue c.left ∷ ue c.right ∷ ue c.top ∷ ue c.bottom ∷ []

abbrev pub avc_vui_elements : Option VuiParams → List Element
avc_vui_elements none = u 0 1 ∷ []
avc_vui_elements (some v) =
    u 1 1
    ∷ u 0 1
    ∷ u 0 1
    ∷ u 0 1
    ∷ u 0 1
    ∷ u 1 1
    ∷ u v.num_units_in_tick 32
    ∷ u v.time_scale 32
    ∷ u (bit_of v.fixed_frame_rate_flag) 1
    ∷ u 0 1
    ∷ u 0 1
    ∷ u 0 1
    ∷ u 0 1
    ∷ []

-- The SPS for a choice of its three optional parts.
abbrev pub sps_list : SpsParams → Bool → Option FrameCrop → Option VuiParams → List Element
sps_list p chroma crop vui =
    (u p.profile_idc 8 ∷ u p.constraint_flags 8 ∷ u p.level_idc 8 ∷ ue p.seq_parameter_set_id ∷ [])
    ++ (chroma_elements chroma
        ++ ((ue p.log2_max_frame_num_minus4
              ∷ ue 0
              ∷ ue p.log2_max_pic_order_cnt_lsb_minus4
              ∷ ue p.max_num_ref_frames
              ∷ u 0 1
              ∷ ue p.pic_width_in_mbs_minus1
              ∷ ue p.pic_height_in_map_units_minus1
              ∷ u 1 1
              ∷ u 1 1
              ∷ [])
            ++ (cropping_elements crop ++ avc_vui_elements vui)))

abbrev pub extension_elements : Bool → List Element
extension_elements true = u 1 1 ∷ u 0 1 ∷ se (pos 0) ∷ []
extension_elements false = []

abbrev pub pps_list : PpsParams → List Element
pps_list p =
    (ue p.pic_parameter_set_id
      ∷ ue p.seq_parameter_set_id
      ∷ u (bit_of p.entropy_coding_mode_flag) 1
      ∷ u 0 1
      ∷ ue 0
      ∷ ue p.num_ref_idx_l0_default_active_minus1
      ∷ ue 0
      ∷ u 0 1
      ∷ u 0 2
      ∷ se p.pic_init_qp_minus26
      ∷ se (pos 0)
      ∷ se (pos 0)
      ∷ u (bit_of p.deblocking_filter_control_present_flag) 1
      ∷ u 0 1
      ∷ u 0 1
      ∷ [])
    ++ extension_elements p.transform_8x8_mode_flag

write_elements-append :
    (a b : List Element) (w : BitWriter)
    → write_elements w (a ++ b) ≡ write_elements (write_elements w a) b
unfolding write_elements
write_elements-append [] b w = refl
write_elements-append (u v n ∷ es) b w = write_elements-append es b (write_bits w v n)
write_elements-append (ue v ∷ es) b w = write_elements-append es b (write_ue w v)
write_elements-append (se v ∷ es) b w = write_elements-append es b _

write_flag-bits : (w : BitWriter) (b : Bool) → write_flag w b ≡ write_bits w (bit_of b) 1
unfolding write_flag write_bits
write_flag-bits w true = refl
write_flag-bits w false = refl

write_cropping-elements :
    (w : BitWriter) (c : Option FrameCrop)
    → write_elements w (cropping_elements c) ≡ write_cropping w c
unfolding write_elements write_cropping write_flag write_bits
write_cropping-elements w none = refl
write_cropping-elements w (some c) = refl

write_vui-flag :
    (w : BitWriter) (units scale : ℕ) (b : Bool)
    → let v : VuiParams = record {
      num_units_in_tick = units;
      time_scale = scale;
      fixed_frame_rate_flag = b;
    } in
      write_elements w (avc_vui_elements (some v)) ≡ write_vui_parameters w (some v)
unfolding write_elements write_vui write_vui_parameters write_flag write_bits
write_vui-flag w units scale true = refl
write_vui-flag w units scale false = refl

write_vui-elements :
    (w : BitWriter) (v : Option VuiParams)
    → write_elements w (avc_vui_elements v) ≡ write_vui_parameters w v
unfolding write_elements write_vui_parameters write_flag write_bits
write_vui-elements w none = refl
write_vui-elements w (some v) =
    write_vui-flag w v.num_units_in_tick v.time_scale v.fixed_frame_rate_flag

write_chroma-elements :
    (w : BitWriter) (b : Bool)
    → write_elements w (chroma_elements b) ≡ (if b then write_chroma w else w)
unfolding write_elements write_chroma write_flag write_bits
write_chroma-elements w true = refl
write_chroma-elements w false = refl

-- `sps_payload` writes the elements of its parameters.
pub sps_payload-elements :
    (p : SpsParams)
    → write_elements new (sps_list p (has_chroma_fields p.profile_idc) p.frame_cropping p.vui)
      ≡ sps_payload p
unfolding write_elements sps_payload write_flag write_bits
sps_payload-elements p =
    let chroma = chroma_elements (has_chroma_fields p.profile_idc) in
    let tail = cropping_elements p.frame_cropping ++ avc_vui_elements p.vui in
    let middle : List Element =
      ue p.log2_max_frame_num_minus4
      ∷ ue 0
      ∷ ue p.log2_max_pic_order_cnt_lsb_minus4
      ∷ ue p.max_num_ref_frames
      ∷ u 0 1
      ∷ ue p.pic_width_in_mbs_minus1
      ∷ ue p.pic_height_in_map_units_minus1
      ∷ u 1 1
      ∷ u 1 1
      ∷ [] in
    let first : List Element =
      u p.profile_idc 8
      ∷ u p.constraint_flags 8
      ∷ u p.level_idc 8
      ∷ ue p.seq_parameter_set_id
      ∷ [] in
    let w2 = write_elements new first in
    write_elements-append chroma (middle ++ tail) w2
    ∙ ap (λ w. write_elements w (middle ++ tail))
        (write_chroma-elements w2 (has_chroma_fields p.profile_idc))
    ∙ write_elements-append (cropping_elements p.frame_cropping) (avc_vui_elements p.vui) _
    ∙ ap (λ w. write_elements w (avc_vui_elements p.vui))
        (write_cropping-elements _ p.frame_cropping)
    ∙ write_vui-elements _ p.vui

write_extension-elements :
    (w : BitWriter) (b : Bool)
    → write_elements w (extension_elements b) ≡ (if b then write_transform_8x8 w else w)
unfolding write_elements write_transform_8x8 write_flag write_bits
write_extension-elements w true = refl
write_extension-elements w false = refl

pps_flags :
    (p : PpsParams) (entropy deblocking : Bool)
    → p.entropy_coding_mode_flag ≡ entropy
    → p.deblocking_filter_control_present_flag ≡ deblocking
    → write_elements new (pps_list p) ≡ pps_payload p
unfolding write_elements pps_payload write_flag write_bits
pps_flags p true true e d = rw (e, d) (write_extension-elements _ p.transform_8x8_mode_flag)
pps_flags p true false e d = rw (e, d) (write_extension-elements _ p.transform_8x8_mode_flag)
pps_flags p false true e d = rw (e, d) (write_extension-elements _ p.transform_8x8_mode_flag)
pps_flags p false false e d = rw (e, d) (write_extension-elements _ p.transform_8x8_mode_flag)

-- `pps_payload` writes the elements of its parameters.
pub pps_payload-elements : (p : PpsParams) → write_elements new (pps_list p) ≡ pps_payload p
pps_payload-elements p =
    pps_flags p p.entropy_coding_mode_flag p.deblocking_filter_control_present_flag refl refl
