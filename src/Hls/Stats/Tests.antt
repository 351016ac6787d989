-- ===== src/Hls/Stats/Tests.antt =====
-- The statistics at concrete deliveries.
use ferricast.Base.{ℕ, ◌+◌, ◌/◌, ◌≡◌, List, [], ◌∷◌, map}
use ferricast.Hls.Stats.{Delivered, new_stats}
use ferricast.Hls.Stats.Probe.{tell, answers, tell-answers}

-- Speeds in whole kbps; the mean of three.
abbrev mean : List ℕ → ℕ
mean (a ∷ b ∷ c ∷ []) = (a + b + c) / 3
mean other = 0

abbrev deliveries : List (Delivered ℕ)
deliveries =
    record { seq = 4; mbps = 3000; completed_at = 10 }
    ∷ record { seq = 5; mbps = 6000; completed_at = 20 }
    ∷ record { seq = 6; mbps = 9000; completed_at = 30 }
    ∷ record { seq = 7; mbps = 1000; completed_at = 40 }
    ∷ []

tell-answers_example :
    map (λ t. t.probe_avg_mbps) (tell mean new_stats deliveries) ≡ answers mean deliveries
tell-answers_example = tell-answers mean deliveries
