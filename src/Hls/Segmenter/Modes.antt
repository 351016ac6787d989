-- ===== src/Hls/Segmenter/Modes.antt =====
-- Publishing parts does not change the segments: the machine with parts and the one without, side
-- by side over the same events.
use ferricast.Base.{
  ℕ, suc, ◌+◌, ◌%◌, ◌^◌, ◌≡◌, refl, sym, ap, ap₂, ◌∙◌, List, [], ◌∷◌, ◌++◌, append_assoc,
  append-nil, map, Bool, true, false, ltb, if◌then◌else◌, arith, length, is_empty, Bool-cases, inl,
  inr,
}
use ferricast.MpegTs.Muxer.{MpegTs, drain}
use ferricast.Hls.Ring.{Part, Segment, SegmentRing, push_pending_part, push_with_parts, evict}
use ferricast.Hls.Segmenter.{
  SegmenterConfig, Filling, Phase, waiting, ended, filling, Segmenter, concat, push_part,
}
use ferricast.Hls.Segmenter.Prefix.{behind}

pub concat-snoc : (l : List (List ℕ)) (p : List ℕ) → concat (l ++ p ∷ []) ≡ concat l ++ p
concat-snoc [] p = append-nil p
concat-snoc (x ∷ xs) p = ap (λ r. x ++ r) (concat-snoc xs p) ∙ sym (append_assoc x (concat xs) p)

-- The same phase of a segment: what the classic muxer holds is what was cut off in parts, and what
-- the other still holds.
abbrev pub SamePhase : MpegTs → Phase → MpegTs → Phase → Type 0
SamePhase m waiting m' waiting = m ≡ m'
SamePhase m ended m' ended = Unit
SamePhase m (filling o) m' (filling o') =
    (o.started ≡ o'.started) × (m ≡ behind (concat o'.local_parts) m')
SamePhase m p m' p' = ⊥

-- A property of both branches is one of the conditional.
pub if_elim {ℓ κ} :
    {A : Type ℓ}
    → (P : A → Type κ) (b : Bool) (x y : A) → (b ≡ true → P x)
    → (b ≡ false → P y)
    → P (if b then x else y)
if_elim P true x y h k = h refl
if_elim P false x y h k = k refl

is_empty→≡ : {A : Type 0} → (xs : List A) → is_empty xs ≡ true → xs ≡ []
is_empty→≡ [] h = refl
is_empty→≡ (x ∷ xs) h = cc

module _ {F : Type 0} where
  -- A segment without its parts.
  abbrev pub plain : Segment F → Segment F
  plain s = record s { parts = [] }

  length-map-plain : (ss : List (Segment F)) → length (map plain ss) ≡ length ss
  length-map-plain [] = refl
  length-map-plain (s ∷ ss) = omega (arith, length-map-plain ss)

  map-append : (xs ys : List (Segment F)) → map plain (xs ++ ys) ≡ map plain xs ++ map plain ys
  map-append [] ys = refl
  map-append (x ∷ xs) ys = ap (λ r. plain x ∷ r) (map-append xs ys)

  evict-plain :
      (capacity : ℕ) (ss : List (Segment F))
      → map plain (evict capacity ss) ≡ evict capacity (map plain ss)
  unfolding evict
  evict-plain capacity [] = refl
  evict-plain capacity (s ∷ ss) =
      let len : suc (length (map plain ss)) ≡ suc (length ss) =
        omega (arith, length-map-plain ss) in
      rw len (elim (Bool-cases (ltb capacity (suc (length ss)))) [
        | inl e ↦ rw e (evict-plain capacity ss)
        | inr e ↦ rw e refl
      ])

  -- Two rings with the same segments but for the parts.
  pub record SameRing (c l : SegmentRing F) : Type 0 where
    pub capacity_eq : l.capacity ≡ c.capacity
    pub segments_eq : map plain l.segments ≡ map plain c.segments
    pub next_eq : l.next_seq ≡ c.next_seq
    pub discontinuity_eq : l.discontinuity_seq ≡ c.discontinuity_seq

  abbrev bare : ℕ → F → List ℕ → ℕ → Segment F
  bare seq d body now = record {
    seq = seq;
    duration_secs = d;
    discontinuity = false;
    produced_at = now;
    bytes = body;
    parts = [];
  }

  pushed_segments :
      (r : SegmentRing F) (d : F) (body : List ℕ) (ps : List (Part F)) (now : ℕ)
      → map plain (push_with_parts r d false body ps now).1.segments
        ≡ evict r.capacity (map plain r.segments ++ bare r.next_seq d body now ∷ [])
  unfolding push_with_parts
  pushed_segments r d body ps now =
      evict-plain r.capacity _ ∙ ap (evict r.capacity) (map-append r.segments _)

  pub push_with_parts-SameRing :
      (c l : SegmentRing F) (d : F) (body body' : List ℕ) (ps qs : List (Part F)) (now : ℕ)
      → SameRing c l
      → body' ≡ body
      → SameRing
          (push_with_parts c d false body ps now).1
          (push_with_parts l d false body' qs now).1
  unfolding push_with_parts
  push_with_parts-SameRing c l d body body' ps qs now h e = record {
    capacity_eq = h.capacity_eq;
    segments_eq =
        pushed_segments l d body' qs now
        ∙ ap₂ (λ cap segs. evict cap (segs ++ bare l.next_seq d body' now ∷ [])) h.capacity_eq
            h.segments_eq
        ∙ ap₂ (λ n b. evict c.capacity (map plain c.segments ++ bare n d b now ∷ [])) h.next_eq e
        ∙ sym (pushed_segments c d body ps now);
    next_eq = ap (λ n. (n + 1) % 2 ^ 64) h.next_eq;
    discontinuity_eq = h.discontinuity_eq;
  }

  pub record Same (c l : Segmenter F) : Type 0 where
    pub rings : SameRing c.ring l.ring
    pub anchor_eq : c.video_wall_anchor ≡ l.video_wall_anchor
    pub phases : SamePhase c.muxer c.phase l.muxer l.phase

  -- What the machine with parts is in after it cut off a part.
  pub record Cut (c : Segmenter F) (l : Segmenter F) (o' : Filling) (p : Segmenter F × Filling)
      : Type 0 where
    pub rings : SameRing c.ring p.0.ring
    pub anchor_eq : p.0.video_wall_anchor ≡ l.video_wall_anchor
    pub started_eq : p.1.started ≡ o'.started
    pub muxers : c.muxer ≡ behind (concat p.1.local_parts) p.0.muxer
    pub drained : p.0.muxer.out ≡ []

  module _ (secs : ℕ → F) (cfg : SegmenterConfig F) where
    pub push_part-Cut :
        (c l : Segmenter F) (o' : Filling) (now : ℕ)
        → SameRing c.ring l.ring
        → c.muxer ≡ behind (concat o'.local_parts) l.muxer
        → Cut c l o' (push_part secs cfg l o' now)
    unfolding push_part drain push_pending_part
    push_part-Cut c l o' now h e =
        if_elim (Cut c l o') (is_empty l.muxer.out) _ _
          (λ nothing. record {
            rings = h;
            anchor_eq = refl;
            started_eq = refl;
            muxers =
                e
                ∙ ap
                    (λ out. record (behind (concat o'.local_parts) l.muxer) {
                      out = concat o'.local_parts ++ out;
                    })
                    (is_empty→≡ l.muxer.out nothing);
            drained = refl;
          })
          (λ some_left. record {
            rings = record {
              capacity_eq = h.capacity_eq;
              segments_eq = h.segments_eq;
              next_eq = h.next_eq;
              discontinuity_eq = h.discontinuity_eq;
            };
            anchor_eq = refl;
            started_eq = refl;
            muxers =
                e
                ∙ ap (λ out. record (behind (concat o'.local_parts) l.muxer) { out = out })
                    (sym (concat-snoc o'.local_parts l.muxer.out) ∙ sym (append-nil _));
            drained = refl;
          })
