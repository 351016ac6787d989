-- ===== src/Hls/Playlist/Target.antt =====
-- The playlist's target duration is enough for every segment of the ring, so `add_segment` refuses
-- none of them.
use ferricast.Base.{
  ℕ, ◌≤◌, ◌≡◌, List, [], ◌∷◌, true, false, ◌&&◌, if◌then◌else◌, max, arith, All, Bool-cases, inl,
  inr,
}
use ferricast.M3u8.{Floats}
use ferricast.Hls.Ring.{Segment}
use ferricast.Hls.Playlist.{fold_max, observed_ceil, target_of}

-- What the code relies on of `f32`: `max` of numbers is no less than either, in its ceiling and its
-- sign, and no number rounds above its ceiling.
pub record FloatLaws (F : Type 0) (f : Floats F) : Type 0 where
  pub ceiled-max_left : (a b : F) → f.ceiled a ≤ f.ceiled (f.max_f a b)
  pub ceiled-max_right : (a b : F) → f.ceiled b ≤ f.ceiled (f.max_f a b)
  pub positive-max_left : (a b : F) → f.is_positive a ≡ true → f.is_positive (f.max_f a b) ≡ true
  pub positive-max_right : (a b : F) → f.is_positive b ≡ true → f.is_positive (f.max_f a b) ≡ true
  pub rounded-ceiled :
      (d : F) → f.is_finite d ≡ true → f.is_positive d ≡ true → f.rounded d ≤ max 1 (f.ceiled d)
  pub rounded-zero :
      (d : F)
      → f.is_finite d ≡ true
      → f.is_negative d ≡ false
      → f.is_positive d ≡ false
      → f.rounded d ≡ 1

-- A duration that a segment can have: finite, not negative, and at most 255 seconds when rounded.
pub record Sound (F : Type 0) (f : Floats F) (s : Segment F) : Type 0 where
  pub finite : f.is_finite s.duration_secs ≡ true
  pub not_negative : f.is_negative s.duration_secs ≡ false
  pub fits_byte : f.rounded s.duration_secs ≤ 255

-- What `add_segment` asks of a segment.
pub record Allowed (F : Type 0) (f : Floats F) (target : ℕ) (s : Segment F) : Type 0 where
  pub finite : f.is_finite s.duration_secs ≡ true
  pub not_negative : f.is_negative s.duration_secs ≡ false
  pub fits : f.rounded s.duration_secs ≤ target

module _ {F : Type 0} (f : Floats F) (laws : FloatLaws F f) where
  fold_max-above : (acc : F) (ss : List (Segment F)) → f.ceiled acc ≤ f.ceiled (fold_max f acc ss)
  unfolding fold_max
  fold_max-above acc [] = omega arith
  fold_max-above acc (s ∷ ss) =
      elim (Bool-cases (f.is_finite s.duration_secs && f.is_positive s.duration_secs)) [
        | inl e ↦ rw e (
            omega (
              arith,
              laws.ceiled-max_left acc s.duration_secs,
              fold_max-above (f.max_f acc s.duration_secs) ss,
            ))
        | inr e ↦ rw e (fold_max-above acc ss)
      ]

  fold_max-positive :
      (acc : F) (ss : List (Segment F))
      → f.is_positive acc ≡ true
      → f.is_positive (fold_max f acc ss) ≡ true
  unfolding fold_max
  fold_max-positive acc [] h = h
  fold_max-positive acc (s ∷ ss) h =
      elim (Bool-cases (f.is_finite s.duration_secs && f.is_positive s.duration_secs)) [
        | inl e ↦ rw e (
            fold_max-positive (f.max_f acc s.duration_secs) ss
              (laws.positive-max_left acc s.duration_secs h))
        | inr e ↦ rw e (fold_max-positive acc ss h)
      ]

  -- The maximum `m` takes account of the segment.
  Under : F → Segment F → Type 0
  Under m s =
      f.is_finite s.duration_secs ≡ true
      → f.is_positive s.duration_secs ≡ true
      → (f.is_positive m ≡ true) × (f.ceiled s.duration_secs ≤ f.ceiled m)

  fold_max-Under : (acc : F) (ss : List (Segment F)) → All (Under (fold_max f acc ss)) ss
  unfolding fold_max Under
  fold_max-Under acc [] = tt
  fold_max-Under acc (s ∷ ss) = (
    (λ fin pos. rw fin (
        rw pos (
          fold_max-positive (f.max_f acc s.duration_secs) ss
              (laws.positive-max_right acc s.duration_secs pos),
          omega (
            arith,
            laws.ceiled-max_right acc s.duration_secs,
            fold_max-above (f.max_f acc s.duration_secs) ss,
          ),
        ))),
    fold_max-Under
        (if f.is_finite s.duration_secs && f.is_positive s.duration_secs
          then f.max_f acc s.duration_secs
          else acc)
        ss,
  )

  fits_target :
      (ss : List (Segment F)) (least : ℕ) (s : Segment F)
      → Sound F f s
      → Under (fold_max f f.zero_f ss) s
      → f.rounded s.duration_secs ≤ target_of f ss least
  unfolding Under target_of observed_ceil
  fits_target ss least s sound under = elim (Bool-cases (f.is_positive s.duration_secs)) [
    | inl pos ↦
        let (m, above) = under sound.finite pos in
        rw m (
          omega
            (arith, above, sound.fits_byte, laws.rounded-ceiled s.duration_secs sound.finite pos))
    | inr pos ↦
        let one = laws.rounded-zero s.duration_secs sound.finite sound.not_negative pos in
        omega (arith, one)
  ]

  All-Allowed :
      (ss : List (Segment F)) (least : ℕ) (rest : List (Segment F))
      → All (Sound F f) rest
      → All (Under (fold_max f f.zero_f ss)) rest
      → All (Allowed F f (target_of f ss least)) rest
  All-Allowed ss least [] h k = tt
  All-Allowed ss least (s ∷ rest) (h, hs) (k, ks) = (
    record { finite = h.finite; not_negative = h.not_negative; fits = fits_target ss least s h k },
    All-Allowed ss least rest hs ks,
  )

  pub target_of-Allowed :
      (ss : List (Segment F)) (least : ℕ)
      → All (Sound F f) ss
      → All (Allowed F f (target_of f ss least)) ss
  target_of-Allowed ss least h = All-Allowed ss least ss h (fold_max-Under f.zero_f ss)
