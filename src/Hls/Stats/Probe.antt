-- ===== src/Hls/Stats/Probe.antt =====
-- What the GETs of a session are told: the bandwidth probe answers once.
use ferricast.Base.{◌≡◌, refl, ap, ap₂, List, [], ◌∷◌, map, Option, none, some, true}
use ferricast.Hls.Stats.{
  Inner, SegmentGetTelemetry, Delivered, new_stats, probe, record_segment_get,
}

module _ {G : Type 0} (average : List G → G) where
  -- What each GET of a session is told, from a state on.
  abbrev pub tell : Inner G → List (Delivered G) → List (SegmentGetTelemetry G)
  tell g [] = []
  tell g (d ∷ ds) = let (told, next) = record_segment_get average g d in told ∷ tell next ds

  abbrev pub no_answer : Delivered G → Option G
  no_answer d = none

  -- The answers of the probe: nothing for the first two GETs, the mean of three samples at the
  -- third, and nothing ever after.
  abbrev pub answers : List (Delivered G) → List (Option G)
  answers (a ∷ b ∷ c ∷ rest) =
      none ∷ none ∷ some (average (a.mbps ∷ b.mbps ∷ c.mbps ∷ [])) ∷ map no_answer rest
  answers short = map no_answer short

  probe_done-probe :
      (g : Inner G) (m : G)
      → g.probe_done ≡ true
      → probe average g m ≡ (g.probe_samples_mbps, true, none)
  unfolding probe
  probe_done-probe g m h = rw h refl

  done_tell :
      (g : Inner G) (ds : List (Delivered G))
      → g.probe_done ≡ true
      → map (λ t. t.probe_avg_mbps) (tell g ds) ≡ map no_answer ds
  unfolding record_segment_get
  done_tell g [] h = refl
  done_tell g (d ∷ ds) h =
      let same = probe_done-probe g d.mbps h in
      ap₂ (λ x xs. x ∷ xs) (ap (λ p. p.2) same)
        (done_tell (record_segment_get average g d).1 ds (ap (λ p. p.1) same))

  -- In a session from its start, the bandwidth probe answers as described, whatever is delivered.
  pub tell-answers :
      (ds : List (Delivered G)) → map (λ t. t.probe_avg_mbps) (tell new_stats ds) ≡ answers ds
  unfolding record_segment_get probe new_stats
  tell-answers [] = refl
  tell-answers (a ∷ []) = refl
  tell-answers (a ∷ b ∷ []) = refl
  tell-answers (a ∷ b ∷ c ∷ rest) =
      ap (λ l. none ∷ none ∷ some (average (a.mbps ∷ b.mbps ∷ c.mbps ∷ [])) ∷ l)
        (done_tell _ rest refl)
