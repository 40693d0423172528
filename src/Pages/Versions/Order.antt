-- ===== src/Pages/Versions/Order.antt =====
-- `compareSemver` orders the versions: it is what `sort` needs of a comparator.
use jvm_scout.Base.{
  ℕ, zero, suc, ◌+◌, ◌≤◌, ◌≡◌, refl, sym, arith, [], ◌∷◌, List, false, Ordering, is_gt, flip_sign,
  IsOrder, length, Text,
}
use jvm_scout.Base.Int.{ℤ, pos, negsuc, compare_int}
use jvm_scout.Pages.Versions.{first_decides, compare_parts, compare_semver, parts_of}

-- The first part, which is 0 when there is none, and the others.
abbrev head_of : List ℤ → ℤ
head_of [] = pos 0
head_of (a ∷ rest) = a

abbrev tail_of : List ℤ → List ℤ
tail_of [] = []
tail_of (a ∷ rest) = rest

compare_parts-step :
    (xs ys : List ℤ)
    → compare_parts xs ys
      ≡ first_decides
          (compare_int (head_of xs) (head_of ys))
          (compare_parts (tail_of xs) (tail_of ys))
unfolding compare_parts
compare_parts-step [] [] = ground arith
compare_parts-step (a ∷ rest) [] = refl
compare_parts-step [] (b ∷ bs) = refl
compare_parts-step (a ∷ rest) (b ∷ bs) = refl

compare_int-flip : (a b : ℤ) → compare_int b a ≡ flip_sign (compare_int a b)
compare_int-flip (pos a) (pos b) = ground arith
compare_int-flip (pos a) (negsuc b) = refl
compare_int-flip (negsuc a) (pos b) = refl
compare_int-flip (negsuc a) (negsuc b) = ground arith

first_decides-flip :
    (o r : Ordering) → flip_sign (first_decides o r) ≡ first_decides (flip_sign o) (flip_sign r)
first_decides-flip Ordering.lt r = refl
first_decides-flip Ordering.eq r = refl
first_decides-flip Ordering.gt r = refl

compare_parts-flip : (xs ys : List ℤ) → compare_parts ys xs ≡ flip_sign (compare_parts xs ys)
unfolding compare_parts
compare_parts-flip [] [] = refl
compare_parts-flip (a ∷ rest) [] =
    rw (compare_int-flip a (pos 0), compare_parts-flip rest [])
      (sym (first_decides-flip (compare_int a (pos 0)) (compare_parts rest [])))
compare_parts-flip [] (b ∷ bs) =
    rw (compare_int-flip (pos 0) b, compare_parts-flip [] bs)
      (sym (first_decides-flip (compare_int (pos 0) b) (compare_parts [] bs)))
compare_parts-flip (a ∷ rest) (b ∷ bs) =
    rw (compare_int-flip a b, compare_parts-flip rest bs)
      (sym (first_decides-flip (compare_int a b) (compare_parts rest bs)))

-- `a` is at most `b`, and `b` at most `c`, where the rest decides between equals.
first_decides_trans :
    (a b c : ℤ) (r s t : Ordering)
    → (is_gt r ≡ false → is_gt s ≡ false → is_gt t ≡ false)
    → is_gt (first_decides (compare_int a b) r) ≡ false
    → is_gt (first_decides (compare_int b c) s) ≡ false
    → is_gt (first_decides (compare_int a c) t) ≡ false
first_decides_trans (pos a) (pos b) (pos c) r s t h k l = ground (arith, h, k, l)
first_decides_trans (pos a) (pos b) (negsuc c) r s t h k l = ground (arith, k, l)
first_decides_trans (pos a) (negsuc b) c r s t h k l = cc
first_decides_trans (negsuc a) (pos b) (pos c) r s t h k l = refl
first_decides_trans (negsuc a) (pos b) (negsuc c) r s t h k l = cc
first_decides_trans (negsuc a) (negsuc b) (pos c) r s t h k l = refl
first_decides_trans (negsuc a) (negsuc b) (negsuc c) r s t h k l = ground (arith, h, k, l)

length-tail_of : (xs : List ℤ) (n : ℕ) → length xs ≤ suc n → length (tail_of xs) ≤ n
length-tail_of [] n h = omega arith
length-tail_of (x ∷ xs) n h = omega arith

compare_parts_trans :
    (n : ℕ) (xs ys zs : List ℤ)
    → length xs ≤ n
    → length ys ≤ n
    → length zs ≤ n
    → is_gt (compare_parts xs ys) ≡ false
    → is_gt (compare_parts ys zs) ≡ false
    → is_gt (compare_parts xs zs) ≡ false
unfolding compare_parts
compare_parts_trans zero [] ys [] i j k h l = refl
compare_parts_trans zero (x ∷ xs) ys zs i j k h l = absurd (omega arith)
compare_parts_trans zero [] ys (z ∷ zs) i j k h l = absurd (omega arith)
compare_parts_trans (suc n) xs ys zs i j k h l = rw (compare_parts-step xs zs) (
    first_decides_trans (head_of xs) (head_of ys) (head_of zs)
      (compare_parts (tail_of xs) (tail_of ys)) (compare_parts (tail_of ys) (tail_of zs))
      (compare_parts (tail_of xs) (tail_of zs))
      (compare_parts_trans n (tail_of xs) (tail_of ys) (tail_of zs) (length-tail_of xs n i)
        (length-tail_of ys n j) (length-tail_of zs n k))
      (rw (compare_parts-step xs ys) at h) (rw (compare_parts-step ys zs) at l))

pub compare_semver-flip : (s t : Text) → compare_semver t s ≡ flip_sign (compare_semver s t)
unfolding compare_semver
compare_semver-flip s t = compare_parts-flip (parts_of s) (parts_of t)

pub compare_semver-IsOrder : IsOrder (λ (t : Text). Unit {0}) compare_semver
unfolding compare_semver
compare_semver-IsOrder = record {
  asymm = λ x y p q h. let flipped = compare_parts-flip (parts_of x) (parts_of y) in ground arith;
  trans = λ x y z p q r h k.
      let longest = length (parts_of x) + (length (parts_of y) + length (parts_of z)) in
      compare_parts_trans longest (parts_of x) (parts_of y) (parts_of z) (omega arith) (omega arith)
        (omega arith) h k;
}
