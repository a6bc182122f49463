-- ===== src/RawPackets/Examples.antt =====
-- A run of the raw clients in which every call succeeds.
use home_work.Base.{ℕ, List, [], ◌∷◌, some}
use home_work.Posix.{Answer, start}
use home_work.Posix.Ensures.{Ensures, Clean, Waits}
use home_work.RawPackets.Programs.{loopback_main, frame_main, first_main}
use home_work.RawPackets.Valid.{Sends, is_datagram, is_frame, is_headed, raw_clients-Ensures}

abbrev gives : ℕ → Answer
gives n = record { value = some n; payload = 2 ∷ 4 ∷ 6 ∷ 8 ∷ 10 ∷ 12 ∷ 14 ∷ [] }

abbrev successes : List Answer
successes = gives 3 ∷ gives 0 ∷ gives 0 ∷ gives 1 ∷ gives 55 ∷ gives 0 ∷ []

raw_clients-Ensures_example :
    Ensures
      (λ _ p. ⊥)
      (Clean (Sends is_datagram))
      (Waits (Sends is_datagram))
      (loopback_main (start successes))
    × Ensures
        (λ _ p. ⊥)
        (Clean (Sends is_frame))
        (Waits (Sends is_frame))
        (frame_main (start successes))
    × Ensures
        (λ _ p. ⊥)
        (Clean (Sends is_headed))
        (Waits (Sends is_headed))
        (first_main (7 ∷ 9 ∷ []) (start successes))
raw_clients-Ensures_example = raw_clients-Ensures (7 ∷ 9 ∷ []) successes
