-- ===== src/Checksum/Examples.antt =====
-- The checksum of five bytes.
use home_work.Base.{ℕ, ◌+◌, ◌*◌, ◌<◌, ◌≡◌, refl, [], ◌∷◌, some, arith}
use home_work.Libc.{Bytes}
use home_work.Checksum.{sum_words, fold_twice, checksum_twice, checksum_loop}
use home_work.Checksum.Verifies.{word_sum, checksums-verify}

abbrev packet : Bytes
packet = 255 ∷ 255 ∷ 1 ∷ 255 ∷ 7 ∷ []

checksum_of_packet : checksum_twice packet ≡ 247
unfolding checksum_twice sum_words fold_twice
checksum_of_packet = refl

checksums-verify_example :
    (checksum_loop packet ≡ some (checksum_twice packet))
    × (checksum_twice packet < 65536)
    × (k : ℕ) × (word_sum packet + checksum_twice packet ≡ 65535 * k)
checksums-verify_example = checksums-verify packet refl (omega arith)
