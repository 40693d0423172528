-- ===== src/Client/Series.antt =====
-- frontend/src/integrations/collector/client.ts: `isSeriesIncreasing`. The source compares with
-- `first * 1.2` in floating point; on counts that are exact the test is `6 * first < 5 * last`.
use Prim.Native.Nat.{◌/◌}
use jvm_scout.Base.{
  ℕ, zero, suc, ◌+◌, ◌*◌, ◌≤◌, ◌<◌, ◌≡◌, refl, arith, ◌∷◌, [], List, Option, none, some, Bool, true,
  false, ◌&&◌, ◌↔◌, length, take, drop, sum_by, ltb, if◌then◌else◌,
}

-- The variables `first` and `last`.
pub record Halves : Type 0 where
  pub first : ℕ
  pub last : ℕ

-- The loop, from the index `i` on.
unfoldable pub add_halves : ℕ → ℕ → List ℕ → Halves → Halves
add_halves mid i [] h = h
add_halves mid i (b ∷ bs) h =
    add_halves mid (suc i) bs
      (if ltb i mid then record h { first = h.first + b } else record h { last = h.last + b })

abbrev pub halves_of : List ℕ → Halves
halves_of bs = add_halves (length bs / 2) 0 bs (record { first = 0; last = 0 })

unfoldable pub is_series_increasing : Option (List ℕ) → Bool
is_series_increasing none = false
is_series_increasing (some bs) =
    if ltb (length bs) 2
    then false
    else ltb 0 (halves_of bs).last && ltb (6 * (halves_of bs).first) (5 * (halves_of bs).last)

abbrev total : List ℕ → ℕ
total = sum_by (λ b. b)

add_halves_late :
    (mid i : ℕ) (bs : List ℕ) (h : Halves)
    → mid ≤ i
    → ((add_halves mid i bs h).first ≡ h.first) × ((add_halves mid i bs h).last ≡ h.last + total bs)
unfolding add_halves
add_halves_late mid i [] h late = (refl, omega arith)
add_halves_late mid i (b ∷ bs) h late =
    let past : ltb i mid ≡ false = ground arith in
    let (f, l) = add_halves_late mid (suc i) bs (record h { last = h.last + b }) (omega arith) in
    rw (past, add_halves) (f, omega (arith, l))

add_halves_lem :
    (n mid i : ℕ) (bs : List ℕ) (h : Halves)
    → mid ≡ n + i
    → ((add_halves mid i bs h).first ≡ h.first + total (take n bs))
      × ((add_halves mid i bs h).last ≡ h.last + total (drop n bs))
unfolding add_halves
add_halves_lem zero mid i bs h e =
    let (f, l) = add_halves_late mid i bs h (omega arith) in (omega (arith, f), l)
add_halves_lem (suc n) mid i [] h e = (omega arith, omega arith)
add_halves_lem (suc n) mid i (b ∷ bs) h e =
    let before : ltb i mid ≡ true = ground arith in
    let (f, l) = add_halves_lem n mid (suc i) bs (record h { first = h.first + b }) (omega arith) in
    rw (before, add_halves) (omega (arith, f), l)

-- A series is increasing exactly if it has two buckets or more and those from the middle on sum to
-- more than 1.2 times the others.
pub is_series_increasing_lem :
    (bs : List ℕ)
    → (is_series_increasing (some bs) ≡ true) ↔ (
        (2 ≤ length bs)
        × (6 * total (take (length bs / 2) bs) < 5 * total (drop (length bs / 2) bs)))
unfolding is_series_increasing
is_series_increasing_lem bs =
    let (f, l) =
      add_halves_lem (length bs / 2) (length bs / 2) 0 bs (record { first = 0; last = 0 })
        (omega arith) in
    (λ h. (ground (arith, f, l), ground (arith, f, l)), λ h. ground (arith, f, l, h.0, h.1))
