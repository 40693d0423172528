-- ===== src/Format.antt =====
-- frontend/src/lib/format.ts. `to_fixed` is `toFixed(1)` of the quotient of its arguments with a
-- trailing `.0` left out, and a time is what `getTime` gives, none where the text is no date.
pub mod Laws
use jvm_scout.Base.{
  ℕ, ◌+◌, ◌-◌, ◌*◌, ◌/◌, ◌++◌, Option, none, some, Text, codes, show, ltb, if◌then◌else◌,
}

-- The unit of an age.
pub data Scale : Type 0 where
  second minute hour day month year : Scale

unfoldable pub suffix : Scale → Text
suffix second = codes "s ago"
suffix minute = codes "m ago"
suffix hour = codes "h ago"
suffix day = codes "d ago"
suffix month = codes "mo ago"
suffix year = codes "y ago"

-- The number and the unit that `relativeTime` prints, of an age in seconds.
unfoldable pub age_of : ℕ → ℕ × Scale
age_of s =
    let m = s / 60 in
    let h = m / 60 in
    let d = h / 24 in
    let mo = d / 30 in
    if ltb s 60
    then (s, second)
    else if ltb m 60
    then (m, minute)
    else if ltb h 24
    then (h, hour)
    else if ltb d 30
    then (d, day)
    else if ltb mo 12
    then (mo, month)
    else (mo / 12, year)

-- `relativeTime`; a time in the future is 0 seconds ago, and NaN is printed in years.
unfoldable pub relative_time : ℕ → Option ℕ → Text
relative_time now none = codes "NaN" ++ suffix year
relative_time now (some time) =
    let (n, scale) = age_of ((now - time) / 1000) in show n ++ suffix scale

-- `compactNumber`, of a count.
unfoldable pub compact_number : (to_fixed : ℕ → ℕ → Text) → ℕ → Text
compact_number to_fixed n =
    if ltb n 1000
    then show n
    else if ltb n 10000
    then to_fixed n 1000 ++ codes "k"
    else if ltb n 1000000
    then show ((n + 500) / 1000) ++ codes "k"
    else to_fixed n 1000000 ++ codes "M"
