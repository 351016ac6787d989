-- ===== src/Cast/Errors.antt =====
-- crates/chromecast/src/castv2.rs: the detailed error codes of a media session, and which of them
-- a new session may cure. An `i64` code is an integer.
use ferricast.Base.{ℕ, ◌≡◌, refl, ap, ◌∙◌, List, [], ◌∷◌, Bool, true, false, ◌==◌}
use ferricast.Base.{if◌then◌else◌, All, Bool-cases, inl, inr, ==_iff}
use ferricast.Base.Words.{ℤ, pos, negsuc}

pub data MediaDetailedErrorCode : Type 0 where
  media_unknown : MediaDetailedErrorCode
  media_aborted : MediaDetailedErrorCode
  media_decode : MediaDetailedErrorCode
  media_network : MediaDetailedErrorCode
  media_src_not_supported : MediaDetailedErrorCode
  source_buffer_failure : MediaDetailedErrorCode
  mediakeys_unknown : MediaDetailedErrorCode
  mediakeys_network : MediaDetailedErrorCode
  mediakeys_unsupported : MediaDetailedErrorCode
  mediakeys_webcrypto : MediaDetailedErrorCode
  network_unknown : MediaDetailedErrorCode
  segment_network : MediaDetailedErrorCode
  hls_network_master_playlist : MediaDetailedErrorCode
  hls_network_playlist : MediaDetailedErrorCode
  hls_network_no_key_response : MediaDetailedErrorCode
  hls_network_key_load : MediaDetailedErrorCode
  hls_network_invalid_segment : MediaDetailedErrorCode
  hls_segment_parsing : MediaDetailedErrorCode
  dash_network : MediaDetailedErrorCode
  dash_no_init : MediaDetailedErrorCode
  smooth_network : MediaDetailedErrorCode
  smooth_no_media_data : MediaDetailedErrorCode
  manifest_unknown : MediaDetailedErrorCode
  hls_manifest_master : MediaDetailedErrorCode
  hls_manifest_playlist : MediaDetailedErrorCode
  dash_manifest_unknown : MediaDetailedErrorCode
  dash_manifest_no_periods : MediaDetailedErrorCode
  dash_manifest_no_mime_type : MediaDetailedErrorCode
  dash_invalid_segment_info : MediaDetailedErrorCode
  smooth_manifest : MediaDetailedErrorCode
  segment_unknown : MediaDetailedErrorCode
  text_unknown : MediaDetailedErrorCode
  app : MediaDetailedErrorCode
  break_clip_loading_error : MediaDetailedErrorCode
  break_seek_interceptor_error : MediaDetailedErrorCode
  image_error : MediaDetailedErrorCode
  load_interrupted : MediaDetailedErrorCode
  load_failed : MediaDetailedErrorCode
  media_error_message : MediaDetailedErrorCode
  generic : MediaDetailedErrorCode
  unknown : ℤ → MediaDetailedErrorCode

-- The numbers the enumeration declares, and the integer that `Unknown` carries.
pub discriminant : MediaDetailedErrorCode → ℤ
discriminant media_unknown = pos 100
discriminant media_aborted = pos 101
discriminant media_decode = pos 102
discriminant media_network = pos 103
discriminant media_src_not_supported = pos 104
discriminant source_buffer_failure = pos 110
discriminant mediakeys_unknown = pos 200
discriminant mediakeys_network = pos 201
discriminant mediakeys_unsupported = pos 202
discriminant mediakeys_webcrypto = pos 203
discriminant network_unknown = pos 300
discriminant segment_network = pos 301
discriminant hls_network_master_playlist = pos 311
discriminant hls_network_playlist = pos 312
discriminant hls_network_no_key_response = pos 313
discriminant hls_network_key_load = pos 314
discriminant hls_network_invalid_segment = pos 315
discriminant hls_segment_parsing = pos 316
discriminant dash_network = pos 321
discriminant dash_no_init = pos 322
discriminant smooth_network = pos 331
discriminant smooth_no_media_data = pos 332
discriminant manifest_unknown = pos 400
discriminant hls_manifest_master = pos 411
discriminant hls_manifest_playlist = pos 412
discriminant dash_manifest_unknown = pos 420
discriminant dash_manifest_no_periods = pos 421
discriminant dash_manifest_no_mime_type = pos 422
discriminant dash_invalid_segment_info = pos 423
discriminant smooth_manifest = pos 431
discriminant segment_unknown = pos 500
discriminant text_unknown = pos 600
discriminant app = pos 900
discriminant break_clip_loading_error = pos 901
discriminant break_seek_interceptor_error = pos 902
discriminant image_error = pos 903
discriminant load_interrupted = pos 904
discriminant load_failed = pos 905
discriminant media_error_message = pos 906
discriminant generic = pos 999
discriminant (unknown other) = other

-- The arms of `from_code`.
arms : List (ℕ × MediaDetailedErrorCode)
arms =
    (100, media_unknown)
    ∷ (101, media_aborted)
    ∷ (102, media_decode)
    ∷ (103, media_network)
    ∷ (104, media_src_not_supported)
    ∷ (110, source_buffer_failure)
    ∷ (200, mediakeys_unknown)
    ∷ (201, mediakeys_network)
    ∷ (202, mediakeys_unsupported)
    ∷ (203, mediakeys_webcrypto)
    ∷ (300, network_unknown)
    ∷ (301, segment_network)
    ∷ (311, hls_network_master_playlist)
    ∷ (312, hls_network_playlist)
    ∷ (313, hls_network_no_key_response)
    ∷ (314, hls_network_key_load)
    ∷ (315, hls_network_invalid_segment)
    ∷ (316, hls_segment_parsing)
    ∷ (321, dash_network)
    ∷ (322, dash_no_init)
    ∷ (331, smooth_network)
    ∷ (332, smooth_no_media_data)
    ∷ (400, manifest_unknown)
    ∷ (411, hls_manifest_master)
    ∷ (412, hls_manifest_playlist)
    ∷ (420, dash_manifest_unknown)
    ∷ (421, dash_manifest_no_periods)
    ∷ (422, dash_manifest_no_mime_type)
    ∷ (423, dash_invalid_segment_info)
    ∷ (431, smooth_manifest)
    ∷ (500, segment_unknown)
    ∷ (600, text_unknown)
    ∷ (900, app)
    ∷ (901, break_clip_loading_error)
    ∷ (902, break_seek_interceptor_error)
    ∷ (903, image_error)
    ∷ (904, load_interrupted)
    ∷ (905, load_failed)
    ∷ (906, media_error_message)
    ∷ (999, generic)
    ∷ []

first_arm : List (ℕ × MediaDetailedErrorCode) → ℕ → MediaDetailedErrorCode
first_arm [] code = unknown (pos code)
first_arm ((c, name) ∷ rest) code = if c == code then name else first_arm rest code

pub from_code : ℤ → MediaDetailedErrorCode
unfolding arms first_arm
from_code (pos code) = first_arm arms code
from_code (negsuc n) = unknown (negsuc n)

pub is_retryable : MediaDetailedErrorCode → Bool
is_retryable media_network = true
is_retryable network_unknown = true
is_retryable segment_network = true
is_retryable segment_unknown = true
is_retryable hls_network_master_playlist = true
is_retryable hls_network_playlist = true
is_retryable hls_network_invalid_segment = true
is_retryable dash_network = true
is_retryable smooth_network = true
is_retryable load_interrupted = true
is_retryable load_failed = true
is_retryable media_error_message = true
is_retryable generic = true
is_retryable (unknown other) = true
is_retryable name = false

first_arm-discriminant :
    (l : List (ℕ × MediaDetailedErrorCode)) (code : ℕ)
    → All (λ arm. discriminant arm.1 ≡ pos arm.0) l
    → discriminant (first_arm l code) ≡ pos code
unfolding first_arm discriminant
first_arm-discriminant [] code h = refl
first_arm-discriminant ((c, name) ∷ rest) code (h, hs) = elim (Bool-cases (c == code)) [
  | inl e ↦ rw e (h ∙ ap pos ((==_iff c code).0 e))
  | inr e ↦ rw e (first_arm-discriminant rest code hs)
]

arms-discriminant : All (λ arm. discriminant arm.1 ≡ pos arm.0) arms
unfolding arms discriminant
arms-discriminant = (
  refl,
  (
    refl,
    (
      refl,
      (
        refl,
        (
          refl,
          (
            refl,
            (
              refl,
              (
                refl,
                (
                  refl,
                  (
                    refl,
                    (
                      refl,
                      (
                        refl,
                        (
                          refl,
                          (
                            refl,
                            (
                              refl,
                              (
                                refl,
                                (
                                  refl,
                                  (
                                    refl,
                                    (
                                      refl,
                                      (
                                        refl,
                                        (
                                          refl,
                                          (
                                            refl,
                                            (
                                              refl,
                                              (
                                                refl,
                                                (
                                                  refl,
                                                  (
                                                    refl,
                                                    (
                                                      refl,
                                                      (
                                                        refl,
                                                        (
                                                          refl,
                                                          (
                                                            refl,
                                                            (
                                                            refl,
                                                            (
                                                            refl,
                                                            (
                                                            refl,
                                                            (
                                                            refl,
                                                            (
                                                            refl,
                                                            (
                                                            refl,
                                                            (refl, (refl, (refl, (refl, tt)))),
                                                            ),
                                                            ),
                                                            ),
                                                            ),
                                                            ),
                                                            ),
                                                          ),
                                                        ),
                                                      ),
                                                    ),
                                                  ),
                                                ),
                                              ),
                                            ),
                                          ),
                                        ),
                                      ),
                                    ),
                                  ),
                                ),
                              ),
                            ),
                          ),
                        ),
                      ),
                    ),
                  ),
                ),
              ),
            ),
          ),
        ),
      ),
    ),
  ),
)

-- Every code of a receiver is told by the variant that the code is turned into.
pub discriminant-from_code : (code : ℤ) → discriminant (from_code code) ≡ code
unfolding from_code discriminant
discriminant-from_code (pos code) = first_arm-discriminant arms code arms-discriminant
discriminant-from_code (negsuc n) = refl

retried : is_retryable (from_code (pos 301)) ≡ true
unfolding from_code is_retryable
retried = refl

not_retried : is_retryable (from_code (pos 104)) ≡ false
unfolding from_code is_retryable
not_retried = refl
