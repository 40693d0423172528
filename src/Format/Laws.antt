-- ===== src/Format/Laws.antt =====
-- The number that `relativeTime` prints is the age, rounded down to its unit.
use jvm_scout.Base.{ℕ, suc, ◌*◌, ◌<◌, ◌≤◌, arith}
use jvm_scout.Format.{Scale, second, minute, hour, day, month, year, age_of}

-- The seconds of a unit; a month has 30 days and a year has 12 months.
abbrev pub seconds : Scale → ℕ
seconds second = 1
seconds minute = 60
seconds hour = 3600
seconds day = 86400
seconds month = 2592000
seconds year = 31104000

-- How many of a unit are printed at most, before the next unit is taken; there is none after years.
abbrev pub IsSmall : ℕ → Scale → Type 0
IsSmall n second = n < 60
IsSmall n minute = (0 < n) × (n < 60)
IsSmall n hour = (0 < n) × (n < 24)
IsSmall n day = (0 < n) × (n < 30)
IsSmall n month = (0 < n) × (n < 12)
IsSmall n year = 0 < n

-- An age of `s` seconds is printed as `n` units, where `n` is the number of whole units in it, at least
-- one of a unit above seconds, and fewer than make up the next unit.
pub age_of-bounds :
    (s : ℕ)
    → ((age_of s).0 * seconds (age_of s).1 ≤ s)
      × (s < suc (age_of s).0 * seconds (age_of s).1)
      × IsSmall (age_of s).0 (age_of s).1
unfolding age_of
age_of-bounds s = ground arith
