-- ===== src/Nal/AvcParameters.antt =====
-- What a decoder reads from the H.264 parameter sets.
use ferricast.Base.{
  ℕ, ◌-◌, ◌%◌, ◌^◌, ◌<◌, ◌≡◌, refl, sym, ap, ◌∙◌, List, [], ◌∷◌, Bool, true, false, ◌&&◌, ◌==◌,
  if◌then◌else◌, Option, none, some, All, All-append, replicate, drop, lt→ltb, arith,
}
use ferricast.Nal.Escape.{
  nal_annexb, finalize_nal, emulation_prevent, unescape, contains_code, unescape-emulation_prevent,
  emulation_prevent-clean,
}
use ferricast.Nal.Hevc.{mapped}
use ferricast.Nal.Writer.{BitWriter, new, finish_rbsp}
use ferricast.Nal.Avc.{
  FrameCrop, VuiParams, SpsParams, PpsParams, has_chroma_fields, sps_payload, pps_payload,
  build_sps, build_pps,
}
use ferricast.Nal.HevcSets.{Element}
use ferricast.Nal.HevcBits.{byte_bits}
use ferricast.Nal.HevcPayload.{element_bits, HasCode}
use ferricast.Nal.Syntax.{Syntax, parse, follow, parse-follow}
use ferricast.Nal.HevcCoded.{behind_syntax, behind_syntax-trailing}
use ferricast.Nal.HevcParameters.{every_coded, every_coded→All}
use ferricast.Nal.AvcPayload.{
  write_elements, write_elements-HasWritten, finish_rbsp-bits, new-HasWritten,
}
use ferricast.Nal.AvcSyntax.{avc_sequence, avc_picture, is_high_profile}
use ferricast.Nal.AvcElements.{
  chroma_elements, cropping_elements, avc_vui_elements, sps_list, pps_list, sps_payload-elements,
  pps_payload-elements,
}
use ferricast.Nal.AvcContents.{sps_of, pps_of, CropHasCodes, SpsHasCodes, PpsHasCodes}

-- 7.3.1: a unit with this header byte, in the byte stream of annex B.
abbrev pub read_nal : {A : Type 0} → Syntax A → ℕ → List ℕ → Option A
read_nal syntax header (a ∷ b ∷ c ∷ d ∷ first ∷ ebsp) =
    let starts = a == 0 && b == 0 && c == 0 && d == 1 in
    if starts && first == header
    then behind_syntax (parse syntax (byte_bits (unescape 0 ebsp)))
    else none
read_nal syntax header other = none

-- A finished writer that has written the elements makes a payload that is read by their syntax.
rbsp-read :
    {A : Type 0}
    → (syntax : Syntax A) (es : List Element) (w : BitWriter) (value : A)
    → write_elements new es ≡ w
    → All HasCode es
    → follow syntax es ≡ some (value, [])
    → behind_syntax (parse syntax (byte_bits (unescape 0 (emulation_prevent (finish_rbsp w)))))
      ≡ some value
rbsp-read syntax es w value same codes e =
    let done_writing = write_elements-HasWritten es new [] new-HasWritten codes in
    let (pad, few, coded) =
      finish_rbsp-bits (write_elements new es) (element_bits es) done_writing in
    ap (λ l. behind_syntax (parse syntax (byte_bits l)))
      (unescape-emulation_prevent (finish_rbsp w) ∙ ap finish_rbsp (sym same))
    ∙ ap (λ l. behind_syntax (parse syntax l)) coded
    ∙ ap behind_syntax (parse-follow syntax es value (1 ∷ replicate pad 0) codes e)
    ∙ behind_syntax-trailing value pad few

follow_sps :
    (p : SpsParams) (chroma : Bool) (crop : Option FrameCrop) (vui : Option VuiParams)
    → is_high_profile (p.profile_idc % 2 ^ 8) ≡ chroma
    → follow avc_sequence (sps_list p chroma crop vui) ≡ some (sps_of p chroma crop vui, [])
follow_sps p true none none e = rw e refl
follow_sps p true none (some v) e = rw e refl
follow_sps p true (some c) none e = rw e refl
follow_sps p true (some c) (some v) e = rw e refl
follow_sps p false none none e = rw e refl
follow_sps p false none (some v) e = rw e refl
follow_sps p false (some c) none e = rw e refl
follow_sps p false (some c) (some v) e = rw e refl

crop_coded : (c : Option FrameCrop) → CropHasCodes c → All HasCode (cropping_elements c)
crop_coded none tt = (tt, tt)
crop_coded (some c) (left, right, top, bottom) = (tt, (left, (right, (top, (bottom, tt)))))

chroma_every : (b : Bool) → every_coded (chroma_elements b) ≡ true
chroma_every true = refl
chroma_every false = refl

chroma_coded : (b : Bool) → All HasCode (chroma_elements b)
chroma_coded b = every_coded→All (chroma_elements b) (chroma_every b)

vui_coded : (v : Option VuiParams) → All HasCode (avc_vui_elements v)
vui_coded none = every_coded→All (avc_vui_elements none) refl
vui_coded (some v) = every_coded→All (avc_vui_elements (some v)) refl

sps_coded :
    (p : SpsParams)
    → SpsHasCodes p
    → All HasCode (sps_list p (has_chroma_fields p.profile_idc) p.frame_cropping p.vui)
sps_coded p c =
    let chroma = chroma_elements (has_chroma_fields p.profile_idc) in
    let zero_coded : 0 < 2 ^ 32 - 1 = omega arith in
    let ends =
      All-append HasCode (cropping_elements p.frame_cropping) (avc_vui_elements p.vui)
        (crop_coded p.frame_cropping c.crop) (vui_coded p.vui) in
    let chroma_there = chroma_coded (has_chroma_fields p.profile_idc) in
    (
      tt,
      (
        tt,
        (
          tt,
          (
            c.id,
            All-append HasCode chroma _ chroma_there (
              c.frame_num,
              (
                zero_coded,
                (c.order_count, (c.frames, (tt, (c.width, (c.height, (tt, (tt, ends))))))),
              ),
            ),
          ),
        ),
      ),
    )

-- A decoder that follows the standard reads from the SPS what the parameters say: profile,
-- constraints, level, picture size and cropping, counters, reference frames and timing, and the
-- chroma format where the profile has one; and no start code stands behind the header byte. The
-- conditions are that each number written as an Exp-Golomb code is below 2 ^ 32 - 1, and that the
-- profile is none of 134, 135, 138 and 139.
pub build_sps-read :
    (p : SpsParams)
    → SpsHasCodes p
    → (read_nal avc_sequence 0x67 (build_sps p)
        ≡ some (sps_of p (has_chroma_fields p.profile_idc) p.frame_cropping p.vui))
      × (contains_code (drop 5 (build_sps p)) ≡ false)
unfolding build_sps finalize_nal nal_annexb
build_sps-read p c =
    let chroma = has_chroma_fields p.profile_idc in
    (
      rbsp-read avc_sequence (sps_list p chroma p.frame_cropping p.vui) (sps_payload p)
          (sps_of p chroma p.frame_cropping p.vui) (sps_payload-elements p) (sps_coded p c)
          (follow_sps p chroma p.frame_cropping p.vui c.profile),
      emulation_prevent-clean (finish_rbsp (sps_payload p)),
    )

follow_pps :
    (p : PpsParams) (more : Bool)
    → p.transform_8x8_mode_flag ≡ more
    → follow (avc_picture p.transform_8x8_mode_flag) (pps_list p) ≡ some (pps_of p, [])
follow_pps p true e = rw e refl
follow_pps p false e = rw e refl

pps_coded :
    (p : PpsParams) (more : Bool)
    → p.transform_8x8_mode_flag ≡ more
    → PpsHasCodes p
    → All HasCode (pps_list p)
unfolding mapped
pps_coded p true e c = every_coded→All (pps_list p) (
    rw
      (
        e,
        lt→ltb p.pic_parameter_set_id (2 ^ 32 - 1) c.pps_id,
        lt→ltb p.seq_parameter_set_id (2 ^ 32 - 1) c.sps_id,
        lt→ltb p.num_ref_idx_l0_default_active_minus1 (2 ^ 32 - 1) c.references,
        lt→ltb (mapped p.pic_init_qp_minus26) (2 ^ 32 - 1) c.init_qp,
      )
      refl)
pps_coded p false e c = every_coded→All (pps_list p) (
    rw
      (
        e,
        lt→ltb p.pic_parameter_set_id (2 ^ 32 - 1) c.pps_id,
        lt→ltb p.seq_parameter_set_id (2 ^ 32 - 1) c.sps_id,
        lt→ltb p.num_ref_idx_l0_default_active_minus1 (2 ^ 32 - 1) c.references,
        lt→ltb (mapped p.pic_init_qp_minus26) (2 ^ 32 - 1) c.init_qp,
      )
      refl)

-- A decoder that follows the standard reads from the PPS what the parameters say: identifiers,
-- entropy coding, references, initial QP, deblocking control, and the 8x8 transform where it is
-- asked for; and no start code stands behind the header byte. The condition is that each number
-- written as an Exp-Golomb code is below 2 ^ 32 - 1. The reader is told whether the set goes on
-- with its extension.
pub build_pps-read :
    (p : PpsParams)
    → PpsHasCodes p
    → (read_nal (avc_picture p.transform_8x8_mode_flag) 0x68 (build_pps p) ≡ some (pps_of p))
      × (contains_code (drop 5 (build_pps p)) ≡ false)
unfolding build_pps finalize_nal nal_annexb
build_pps-read p c = (
  rbsp-read (avc_picture p.transform_8x8_mode_flag) (pps_list p) (pps_payload p) (pps_of p)
      (pps_payload-elements p) (pps_coded p p.transform_8x8_mode_flag refl c)
      (follow_pps p p.transform_8x8_mode_flag refl),
  emulation_prevent-clean (finish_rbsp (pps_payload p)),
)
