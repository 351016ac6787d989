-- ===== src/Nal/HevcParameters.antt =====
-- What a decoder reads from the HEVC parameter sets.
use ferricast.Base.{
  ℕ, ◌+◌, ◌-◌, ◌*◌, ◌%◌, ◌^◌, ◌<◌, ◌≡◌, refl, ap, List, [], ◌∷◌, Option, none, some, All, bit_and,
  arith, Bool, true, false, Bool-cases, inl, inr, ltb, ltb→lt, lt→ltb, ◌≤◌, if◌then◌else◌,
}
use ferricast.Base.Words.{ℤ, shr}
use ferricast.Base.Bits.{bit_and-low}
use ferricast.Nal.Hevc.{nal_header, mapped}
use ferricast.Nal.HevcSets.{
  StreamParams, ConformanceWindow, Element, u, ue, se, coding_elements, vui_elements,
  sub_layer_flags, reserved_pairs, vps_nut, sps_nut, pps_nut, vps_elements, sps_elements,
  pps_elements, build_vps, build_sps, build_pps, compatibility_flags, window_elements,
}
use ferricast.Nal.HevcSets
use native.Mathlib.Nat.{pow-le-pow_right}
use ferricast.Nal.HevcPayload.{HasCode}
use ferricast.Nal.Syntax.{follow}
use ferricast.Nal.HevcSyntax.{ProfileTierLevel, video_parameter_set, picture_parameter_set}
use ferricast.Nal.HevcSequence.{sequence_parameter_set}
use ferricast.Nal.HevcContents.{
  general_of, video_of, sequence_of, picture_of, WindowHasCodes, HasCodes,
}
use ferricast.Nal.HevcCoded.{Carries, finalize_nal-Carries}

follow_picture :
    (qp : ℤ) → follow picture_parameter_set (pps_elements qp) ≡ some (picture_of qp, [])
unfolding pps_elements
follow_picture qp = refl

-- The two halves of the flags make the flags.
compatibility_flags-bound : (idc : ℕ) → compatibility_flags idc < 2 ^ 32
unfolding compatibility_flags
compatibility_flags-bound idc = elim (Bool-cases (ltb idc 32)) [
  | inl e ↦
      let room : 2 ^ (31 - idc) ≤ 2 ^ 31 =
        pow-le-pow_right {n = 2} (omega arith) {i = 31 - idc} {j = 31} (omega arith) in
      rw e (omega (arith, room))
  | inr e ↦ rw e (omega arith)
]

flags_read : ℕ → ℕ
flags_read flags = shr flags 16 % 2 ^ 16 * 2 ^ 16 + bit_and flags 0xffff % 2 ^ 16

flags_read-eq :
    (p : StreamParams)
    → flags_read (compatibility_flags p.profile_idc) ≡ compatibility_flags p.profile_idc
unfolding flags_read
flags_read-eq p =
    let c = compatibility_flags p.profile_idc in
    omega (arith, bit_and-low 16 c, compatibility_flags-bound p.profile_idc)

abbrev with_flags : StreamParams → ℕ → ProfileTierLevel
with_flags p flags = record (general_of p) { profile_compatibility = flags }

follow_video :
    (p : StreamParams) → follow video_parameter_set (vps_elements p) ≡ some (video_of p, [])
unfolding vps_elements HevcSets.profile_tier_level sub_layer_flags reserved_pairs flags_read
follow_video p =
    ap (λ flags. some (record (video_of p) { general = with_flags p flags }, [])) (flags_read-eq p)

follow_sequence :
    (p : StreamParams) (window : Option ConformanceWindow) (min_cb diff_cb : ℕ)
    → p.conformance_window ≡ window
    → follow sequence_parameter_set (sps_elements p min_cb diff_cb)
      ≡ some (sequence_of p min_cb diff_cb, [])
unfolding sps_elements HevcSets.profile_tier_level sub_layer_flags reserved_pairs window_elements
    coding_elements vui_elements flags_read
follow_sequence p none min_cb diff_cb e = rw e (
    ap
      (λ flags.
        some (
          record (sequence_of p min_cb diff_cb) { general = with_flags p flags; window = none },
          [],
        ))
      (flags_read-eq p))
follow_sequence p (some w) min_cb diff_cb e = rw e (
    ap
      (λ flags. some (
        record (sequence_of p min_cb diff_cb) { general = with_flags p flags; window = some w },
        [],
      ))
      (flags_read-eq p))

abbrev pub is_coded : Element → Bool
is_coded (u value width) = true
is_coded (ue value) = ltb value (2 ^ 32 - 1)
is_coded (se value) = ltb (mapped value) (2 ^ 32 - 1)

abbrev pub every_coded : List Element → Bool
every_coded [] = true
every_coded (e ∷ es) = if is_coded e then every_coded es else false

pub every_coded→All : (es : List Element) → every_coded es ≡ true → All HasCode es
every_coded→All [] h = tt
every_coded→All (u value width ∷ es) h = (tt, every_coded→All es h)
every_coded→All (ue value ∷ es) h = elim (Bool-cases (ltb value (2 ^ 32 - 1))) [
  | inl e ↦ (ltb→lt value (2 ^ 32 - 1) e, every_coded→All es (rw e at h))
  | inr e ↦ let h' = rw e at h in cc
]
every_coded→All (se value ∷ es) h = elim (Bool-cases (ltb (mapped value) (2 ^ 32 - 1))) [
  | inl e ↦ (ltb→lt (mapped value) (2 ^ 32 - 1) e, every_coded→All es (rw e at h))
  | inr e ↦ let h' = rw e at h in cc
]

picture_coded : (qp : ℤ) → mapped qp < 2 ^ 32 - 1 → All HasCode (pps_elements qp)
unfolding pps_elements mapped
picture_coded qp h = every_coded→All (pps_elements qp) (rw (lt→ltb (mapped qp) (2 ^ 32 - 1) h) refl)

video_coded : (p : StreamParams) → HasCodes p → All HasCode (vps_elements p)
unfolding vps_elements HevcSets.profile_tier_level sub_layer_flags reserved_pairs
video_coded p c =
    every_coded→All (vps_elements p) (rw (lt→ltb p.max_num_ref_frames (2 ^ 32 - 1) c.frames) refl)

sequence_coded :
    (p : StreamParams) (window : Option ConformanceWindow) (min_cb diff_cb : ℕ)
    → HasCodes p
    → p.conformance_window ≡ window
    → WindowHasCodes window
    → min_cb < 2 ^ 32 - 1
    → diff_cb < 2 ^ 32 - 1
    → All HasCode (sps_elements p min_cb diff_cb)
unfolding sps_elements HevcSets.profile_tier_level sub_layer_flags reserved_pairs window_elements
    coding_elements vui_elements
sequence_coded p none min_cb diff_cb c e tt hm hd =
    every_coded→All (sps_elements p min_cb diff_cb) (
      rw
        (
          e,
          lt→ltb p.width (2 ^ 32 - 1) c.width,
          lt→ltb p.height (2 ^ 32 - 1) c.height,
          lt→ltb p.bit_depth_luma_minus8 (2 ^ 32 - 1) c.depth_luma,
          lt→ltb p.bit_depth_chroma_minus8 (2 ^ 32 - 1) c.depth_chroma,
          lt→ltb p.max_num_ref_frames (2 ^ 32 - 1) c.frames,
          lt→ltb min_cb (2 ^ 32 - 1) hm,
          lt→ltb diff_cb (2 ^ 32 - 1) hd,
        )
        refl)
sequence_coded p (some w) min_cb diff_cb c e (left, right, top, bottom) hm hd =
    every_coded→All (sps_elements p min_cb diff_cb) (
      rw
        (
          e,
          lt→ltb p.width (2 ^ 32 - 1) c.width,
          lt→ltb p.height (2 ^ 32 - 1) c.height,
          lt→ltb w.left (2 ^ 32 - 1) left,
          lt→ltb w.right (2 ^ 32 - 1) right,
          lt→ltb w.top (2 ^ 32 - 1) top,
          lt→ltb w.bottom (2 ^ 32 - 1) bottom,
          lt→ltb p.bit_depth_luma_minus8 (2 ^ 32 - 1) c.depth_luma,
          lt→ltb p.bit_depth_chroma_minus8 (2 ^ 32 - 1) c.depth_chroma,
          lt→ltb p.max_num_ref_frames (2 ^ 32 - 1) c.frames,
          lt→ltb min_cb (2 ^ 32 - 1) hm,
          lt→ltb diff_cb (2 ^ 32 - 1) hd,
        )
        refl)

-- A decoder that follows the standard reads from the VPS, the SPS and the PPS what the parameters
-- say: profile, level, picture size and window, bit depths, reference frames, frame rate, coding
-- block sizes and initial QP, beside the fixed choices of this encoder. The units have the types of
-- their sets and no start code behind their headers. The condition is that each number written as
-- an Exp-Golomb code is below 2 ^ 32 - 1.
pub parameter_sets-Carries :
    (p : StreamParams) (min_cb diff_cb : ℕ) (qp : ℤ)
    → HasCodes p
    → min_cb < 2 ^ 32 - 1
    → diff_cb < 2 ^ 32 - 1
    → mapped qp < 2 ^ 32 - 1
    → Carries video_parameter_set 32 (video_of p) (build_vps p)
      × Carries sequence_parameter_set 33
          (sequence_of p min_cb diff_cb)
          (build_sps p min_cb diff_cb)
      × Carries picture_parameter_set 34 (picture_of qp) (build_pps qp)
unfolding build_vps build_sps build_pps nal_header
parameter_sets-Carries p min_cb diff_cb qp c hm hd hq = (
  finalize_nal-Carries video_parameter_set 32 (vps_elements p) (video_of p) refl (video_coded p c)
      (follow_video p),
  finalize_nal-Carries sequence_parameter_set 33 (sps_elements p min_cb diff_cb)
      (sequence_of p min_cb diff_cb) refl
      (sequence_coded p p.conformance_window min_cb diff_cb c refl c.window hm hd)
      (follow_sequence p p.conformance_window min_cb diff_cb refl),
  finalize_nal-Carries picture_parameter_set 34 (pps_elements qp) (picture_of qp) refl
      (picture_coded qp hq) (follow_picture qp),
)
