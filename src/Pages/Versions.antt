-- ===== src/Pages/Versions.antt =====
-- frontend/src/routes/_authenticated/applications.$id.tsx: `compareSemver`, with `parseInt(n, 10)`.
pub mod Order
use jvm_scout.Base.{
  ℕ, ◌-◌, ◌+◌, ◌*◌, ◌∷◌, [], List, Option, none, some, ◌&&◌, Ordering, Comparator, Text, trim_start,
  split_on, map, leb, nat_dec, if◌then◌else◌, ◌==◌, ◌or_else◌, Bool,
}
use jvm_scout.Base.Int.{ℤ, pos, compare_int, negated}

abbrev pub is_digit : ℕ → Bool
is_digit c = leb 48 c && leb c 57

-- The number that the leading digits stand for, after those read; none if there is no digit.
unfoldable pub leading_number : Option ℕ → Text → Option ℕ
leading_number read [] = read
leading_number read (c ∷ s) =
    let rest = leading_number (some ((read or_else 0) * 10 + (c - 48))) s in
    if is_digit c then rest else read

abbrev signed : (ℕ → ℤ) → Option ℕ → Option ℤ
signed f none = none
signed f (some n) = some (f n)

abbrev pub after_space : Text → Option ℤ
after_space [] = none
after_space (c ∷ s) =
    if c == 45
    then signed negated (leading_number none s)
    else if c == 43
    then signed pos (leading_number none s)
    else signed pos (leading_number none (c ∷ s))

-- `parseInt(s, 10)`; none is NaN.
unfoldable pub parse_int : Text → Option ℤ
parse_int s = after_space (trim_start s)

-- `s.split(".").map((n) => parseInt(n, 10) || 0)`; `.` is the code unit 46.
unfoldable pub parts_of : Text → List ℤ
parts_of s = map (λ n. parse_int n or_else pos 0) (split_on 46 s)

abbrev pub first_decides : Ordering → Ordering → Ordering
first_decides Ordering.eq rest = rest
first_decides Ordering.lt rest = Ordering.lt
first_decides Ordering.gt rest = Ordering.gt

-- The loop of `compareSemver`; a missing part is 0.
unfoldable pub compare_parts : List ℤ → List ℤ → Ordering
compare_parts [] [] = Ordering.eq
compare_parts (a ∷ rest) [] = first_decides (compare_int a (pos 0)) (compare_parts rest [])
compare_parts [] (b ∷ bs) = first_decides (compare_int (pos 0) b) (compare_parts [] bs)
compare_parts (a ∷ rest) (b ∷ bs) = first_decides (compare_int a b) (compare_parts rest bs)

unfoldable pub compare_semver : Comparator Text
compare_semver a b = compare_parts (parts_of a) (parts_of b)
