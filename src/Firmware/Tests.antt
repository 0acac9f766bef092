-- ===== src/Firmware/Tests.antt =====
-- Concrete version tags.
use kfmon.Prelude.{
  ℕ, ◌+◌, ◌*◌, ◌≡◌, refl, true, some, [], codes, CString, char_at, leb, ◌∷◌, ◌++◌, arith,
}
use kfmon.Firmware.{
  AtLeast, version, crashed, fw_version_check, firmware_field, strsep, split_comma, until_nul,
  strip_lf, classify,
}
use kfmon.Firmware.Thresholds.{IsVersionOrder, line_feed, fw_version_check-thresholds}

-- A stand-in for strverscmp: versions of a one-digit major version, by it and the first digit of the
-- minor one.
abbrev rank : CString → ℕ
rank s = char_at s 0 * 1000 + char_at s 2

abbrev by_rank : AtLeast
by_rank a b = leb (rank b) (rank a)

by_rank-IsVersionOrder : IsVersionOrder by_rank
by_rank-IsVersionOrder = record {
  transitive = λ a b c p q. leb-trans (rank c) (rank b) (rank a) q p;
  five = refl;
  five_six = refl;
}
  where
    leb-trans : (k m n : ℕ) → leb k m ≡ true → leb m n ≡ true → leb k n ≡ true
    leb-trans k m n p q = ground arith

fw_version_check-thresholds_example :
    (v : ℕ) × (fw_version_check by_rank
        (some (codes "N4181" ++ b',' ∷ (codes "4.1.15" ++ b',' ∷ (codes "5.6.210000" ++ 10 ∷ []))))
      ≡ version (by_rank (codes "5.6.210000") (codes "4.29.18730")) v)
    × (leb 42 v ≡ by_rank (codes "5.6.210000") (codes "4.29.18730"))
    × (leb 50 v ≡ by_rank (codes "5.6.210000") (codes "5.0.111111"))
    × (leb 56 v ≡ by_rank (codes "5.6.210000") (codes "5.6.209315"))
fw_version_check-thresholds_example =
    fw_version_check-thresholds (codes "N4181") (codes "4.1.15") (omega arith) (omega arith) by_rank
      (codes "5.6.210000") line_feed (omega arith) by_rank-IsVersionOrder

newest : fw_version_check by_rank (some (codes "N4181,4.1.15,5.6.210000,x")) ≡ version true 56
unfolding fw_version_check strip_lf until_nul firmware_field strsep split_comma classify
newest = refl

-- Two fields only.
too_short : fw_version_check by_rank (some (codes "N4181,4.1.15")) ≡ crashed
unfolding fw_version_check strip_lf until_nul firmware_field strsep split_comma classify
too_short = refl
