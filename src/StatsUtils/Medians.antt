-- ===== src/StatsUtils/Medians.antt =====
-- The median splits a sorted array in two halves.
use ti_features.Prelude.{
  ℕ, zero, suc, ◌+◌, ◌-◌, ◌/◌, ◌%◌, ◌^◌, ◌≤◌, ◌<◌, ◌≡◌, ◌⊎◌, add32, leb, refl, sym, ◌∙◌, Bool, true,
  false, List, [], ◌∷◌, ltb, ◌==◌, get_or, length, Bool-cases, inl, inr, arith,
}
use mathlib.Core.Path.{subst}
use ti_features.Sorting.{sort_small_uint_array}
use ti_features.Sorting.Sorted.{IsSortedFrom, IsSorted, count_if, count_if-sort, sort-IsSorted}
use ti_features.StatsUtils.{calc_median_uint}

from-get_or :
    (bound : ℕ) (xs : List ℕ) (k : ℕ)
    → IsSortedFrom bound xs
    → k < length xs
    → bound ≤ get_or xs k 0
from-get_or bound [] k s h = absurd (omega arith)
from-get_or bound (x ∷ xs) zero (b, s) h = b
from-get_or bound (x ∷ xs) (suc k) (b, s) h =
    let rest = from-get_or x xs k s (omega arith) in omega arith

-- Nothing in a sorted list is below a bound of it.
none_below :
    (v bound : ℕ) (xs : List ℕ) → v ≤ bound → IsSortedFrom bound xs → count_if (λ x. ltb x v) xs ≡ 0
none_below v bound [] h s = refl
none_below v bound (x ∷ xs) h (b, s) =
    let off : ltb x v ≡ false = ground arith in
    rw off (omega (arith, none_below v x xs (omega arith) s))

count_if-le : (p : ℕ → Bool) (xs : List ℕ) → count_if p xs ≤ length xs
count_if-le p [] = omega arith
count_if-le p (x ∷ xs) = ground (arith, count_if-le p xs)

-- Up to its index, a sorted list has what is below an element.
below-get_or :
    (v bound : ℕ) (xs : List ℕ) (k : ℕ)
    → IsSortedFrom bound xs
    → k < length xs
    → v ≤ get_or xs k 0
    → count_if (λ x. ltb x v) xs ≤ k
below-get_or v bound [] k s l h = absurd (omega arith)
below-get_or v bound (x ∷ xs) zero (b, s) l h =
    let off : ltb x v ≡ false = ground arith in rw off (omega (arith, none_below v x xs h s))
below-get_or v bound (x ∷ xs) (suc k) (b, s) l h =
    let rest = below-get_or v x xs k s (omega arith) h in ground arith

-- And from it on, what is above.
above-get_or :
    (v bound : ℕ) (xs : List ℕ) (k : ℕ)
    → IsSortedFrom bound xs
    → k < length xs
    → get_or xs k 0 ≤ v
    → count_if (λ x. ltb v x) xs + k + 1 ≤ length xs
above-get_or v bound [] k s l h = absurd (omega arith)
above-get_or v bound (x ∷ xs) zero (b, s) l h =
    let off : ltb v x ≡ false = ground arith in
    rw off (omega (arith, count_if-le (λ y. ltb v y) xs))
above-get_or v bound (x ∷ xs) (suc k) (b, s) l h =
    let high = from-get_or x xs k s (omega arith) in
    let off : ltb v x ≡ false = ground arith in
    rw off (omega (arith, above-get_or v x xs k s (omega arith) h))

get_or_step :
    (bound : ℕ) (xs : List ℕ) (k : ℕ)
    → IsSortedFrom bound xs
    → suc k < length xs
    → get_or xs k 0 ≤ get_or xs (suc k) 0
get_or_step bound [] k s h = absurd (omega arith)
get_or_step bound (x ∷ xs) zero (b, s) h = from-get_or x xs 0 s (omega arith)
get_or_step bound (x ∷ xs) (suc k) (b, s) h = get_or_step x xs k s (omega arith)

-- At most half of the numbers are below, and at most half above.
abbrev pub Splits : ℕ → List ℕ → Type 0
Splits m xs =
    (count_if (λ x. ltb x m) xs ≤ length xs / 2) × (count_if (λ x. ltb m x) xs ≤ length xs / 2)

-- A number between two elements of a sorted list.
between :
    (m : ℕ) (xs : List ℕ) (low high : ℕ)
    → IsSorted xs
    → low < length xs
    → high < length xs
    → get_or xs low 0 ≤ m
    → m ≤ get_or xs high 0
    → (count_if (λ x. ltb x m) xs ≤ high) × (count_if (λ x. ltb m x) xs + low + 1 ≤ length xs)
between m xs low high s l h a b = (below-get_or m 0 xs high s h b, above-get_or m 0 xs low s l a)

middle-Splits :
    (xs : List ℕ)
    → IsSorted xs
    → 0 < length xs
    → (length xs ≡ 1) ⊎ (length xs % 2 ≡ 1)
    → Splits (get_or xs (length xs / 2) 0) xs
middle-Splits xs s pos odd =
    let k = length xs / 2 in
    let (low, high) =
      between (get_or xs k 0) xs k k s (omega arith) (omega arith) (omega arith) (omega arith) in
    elim odd [ inl one ↦ (low, omega arith) | inr e ↦ (low, omega arith) ]

mean-Splits :
    (xs : List ℕ)
    → IsSorted xs
    → 0 < length xs
    → length xs % 2 ≡ 0
    → get_or xs (length xs / 2) 0 < 2 ^ 31
    → Splits (add32 (get_or xs (length xs / 2 - 1) 0) (get_or xs (length xs / 2) 0) / 2) xs
mean-Splits xs s pos even small =
    let n = length xs in
    let k = n / 2 - 1 in
    let step = get_or_step 0 xs k s (omega arith) in
    let next : suc k ≡ n / 2 = omega arith in
    let step' : get_or xs k 0 ≤ get_or xs (n / 2) 0 =
      subst (λ i. get_or xs k 0 ≤ get_or xs i 0) next step in
    let (low, high) =
      between (add32 (get_or xs k 0) (get_or xs (n / 2) 0) / 2) xs k (n / 2) s (omega arith)
        (omega arith) (omega arith) (omega arith) in
    (low, omega arith)

-- The median of a sorted array.
calc_median_uint-Splits :
    (xs : List ℕ)
    → IsSorted xs
    → 0 < length xs
    → get_or xs (length xs / 2) 0 < 2 ^ 31
    → Splits (calc_median_uint xs) xs
unfolding calc_median_uint
calc_median_uint-Splits xs s pos small =
    let n = length xs in
    let some_left : n == 0 ≡ false = ground arith in
    rw some_left (elim (Bool-cases (n == 1)) [
      | inl one ↦
          (let e : n ≡ 1 = ground arith in
            let first : n / 2 ≡ 0 = omega arith in
            rw one (subst (λ i. Splits (get_or xs i 0) xs) first (middle-Splits xs s pos (inl e))))
      | inr more ↦ rw more (elim (Bool-cases (n % 2 == 0)) [
        | inl even ↦ rw even (mean-Splits xs s pos (ground arith) small)
        | inr odd ↦ rw odd (middle-Splits xs s pos (inr (ground arith)))
      ])
    ])

-- Every number has a property that a sort keeps.
count_if-all : (xs : List ℕ) → count_if (λ x. true) xs ≡ length xs
count_if-all [] = refl
count_if-all (x ∷ xs) = omega (arith, count_if-all xs)

count_if-none :
    (test : ℕ → Bool) (xs : List ℕ) (k : ℕ)
    → count_if test xs ≡ 0
    → k < length xs
    → test (get_or xs k 0) ≡ false
count_if-none test [] k e h = absurd (omega arith)
count_if-none test (x ∷ xs) zero e h = ground arith
count_if-none test (x ∷ xs) (suc k) e h = count_if-none test xs k (ground arith) (omega arith)

pub length-sort : (arr : List ℕ) → length (sort_small_uint_array arr) ≡ length arr
length-sort arr =
    sym (count_if-all (sort_small_uint_array arr))
    ∙ count_if-sort (λ x. true) arr
    ∙ count_if-all arr

-- For an array that is not empty and has no number of 2 ^ 31 or more, the median of its sorted copy
-- splits the array: at most half of the numbers are below it, and at most half above.
pub calc_median_uint-sort :
    (arr : List ℕ)
    → 0 < length arr
    → count_if (λ x. leb (2 ^ 31) x) arr ≡ 0
    → Splits (calc_median_uint (sort_small_uint_array arr)) arr
calc_median_uint-sort arr pos small =
    let sorted = sort_small_uint_array arr in
    let m = calc_median_uint sorted in
    let len = length-sort arr in
    let none_large = count_if-sort (λ x. leb (2 ^ 31) x) arr ∙ small in
    let k = length sorted / 2 in
    let off = count_if-none (λ x. leb (2 ^ 31) x) sorted k none_large (omega arith) in
    let (low, high) =
      calc_median_uint-Splits sorted (sort-IsSorted arr) (omega arith) (ground arith) in
    (
      omega (arith, count_if-sort (λ x. ltb x m) arr),
      omega (arith, count_if-sort (λ x. ltb m x) arr),
    )
