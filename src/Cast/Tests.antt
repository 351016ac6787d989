-- ===== src/Cast/Tests.antt =====
-- The cast channel at concrete messages: a message is its own bytes, and coding does nothing.
use ferricast.Base.{ℕ, ◌≡◌, refl, List, [], ◌∷◌, ◌++◌, Option, some, map, arith}
use ferricast.Base.{length}
use ferricast.Cast.{Read, bytes_read, message, closed, encode_length_prefixed, recv}
use ferricast.Cast.Delivery.{recv_times, recv_times-stream, recv_cut_short}
use ferricast.Cast.Bounds.{Fits, recv-Fits}

abbrev plain : List ℕ → Option (List ℕ)
plain bytes = some bytes

abbrev own_bytes : List ℕ → List ℕ
own_bytes msg = msg

-- Two messages of three and two bytes, cut inside the first prefix and inside the second one.
abbrev pieces : List Read
pieces =
    bytes_read (0 ∷ 0 ∷ [])
    ∷ bytes_read (0 ∷ 3 ∷ 10 ∷ 11 ∷ 12 ∷ 0 ∷ [])
    ∷ bytes_read (0 ∷ 0 ∷ 2 ∷ 20 ∷ 21 ∷ [])
    ∷ []

recv_times-stream_example :
    recv_times plain 3 pieces []
    ≡ map message ((10 ∷ 11 ∷ 12 ∷ []) ∷ (20 ∷ 21 ∷ []) ∷ []) ++ closed ∷ []
unfolding encode_length_prefixed
recv_times-stream_example =
    recv_times-stream length own_bytes plain (λ msg. refl) (λ msg. refl)
      ((10 ∷ 11 ∷ 12 ∷ []) ∷ (20 ∷ 21 ∷ []) ∷ []) pieces (omega arith, (omega arith, tt)) tt refl

recv_cut_short_example :
    recv plain (bytes_read (0 ∷ 0 ∷ 0 ∷ 3 ∷ 10 ∷ []) ∷ []) []
    ≡ (closed, [], 0 ∷ 0 ∷ 0 ∷ 3 ∷ 10 ∷ [])
recv_cut_short_example =
    recv_cut_short plain (10 ∷ 11 ∷ 12 ∷ []) (bytes_read (0 ∷ 0 ∷ 0 ∷ 3 ∷ 10 ∷ []) ∷ []) []
      (11 ∷ 12 ∷ []) (omega arith) tt refl (omega arith)

recv-Fits_example : Fits (recv plain pieces []).0
recv-Fits_example = recv-Fits plain pieces []
