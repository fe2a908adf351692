-- ===== src/StatsUtils.antt =====
-- src/utils/stats_utils.h: medians, percentiles, moments and entropy of an array. The sort of the
-- C library is an argument.
pub mod Medians
use ti_features.Prelude.{
  ℕ, ◌+◌, ◌-◌, ◌/◌, ◌%◌, Bool, ◌&&◌, ◌||◌, Option, none, some, List, [], ◌∷◌, add32, add64, ltb,
  leb, ◌==◌, if◌then◌else◌, get_or, length,
}
use ti_features.Double.{Double}

-- `calc_median_uint`
unfoldable pub calc_median_uint : List ℕ → ℕ
calc_median_uint arr =
    let n = length arr in
    if n == 0
    then 0
    else if n == 1
    then get_or arr 0 0
    else if n % 2 == 0
    then add32 (get_or arr (n / 2 - 1) 0) (get_or arr (n / 2) 0) / 2
    else get_or arr (n / 2) 0

-- The first loop of `calc_shannon_entropy`.
unfoldable pub total_of : ℕ → List ℕ → ℕ
total_of total [] = total
total_of total (n ∷ hist) = total_of (add64 total n) hist

module _ {D : Type 0} ⦃d : Double D⦄ where
  -- `calc_median_double`
  unfoldable pub calc_median_double : List D → D
  calc_median_double arr =
      let n = length arr in
      let zero_d = d.of_ℕ 0 in
      if n == 0
      then zero_d
      else if n == 1
      then get_or arr 0 zero_d
      else if n % 2 == 0
      then d.div (d.add (get_or arr (n / 2 - 1) zero_d) (get_or arr (n / 2) zero_d)) (d.of_ℕ 2)
      else get_or arr (n / 2) zero_d

  -- `arr[lower] * (1.0 - frac) + arr[upper] * frac`
  unfoldable pub interpolate : D → D → D → D
  interpolate low high frac = d.add (d.mul low (d.sub (d.of_ℕ 1) frac)) (d.mul high frac)

  -- `idx` of the percentile functions.
  abbrev pub place_of : ℕ → D → D
  place_of n p = d.mul (d.div p (d.of_ℕ 100)) (d.of_ℕ (n - 1))

  -- `calc_percentile_double`
  unfoldable pub calc_percentile_double : List D → D → D
  unfolding interpolate
  calc_percentile_double arr p =
      let n = length arr in
      let zero_d = d.of_ℕ 0 in
      let lower = d.to_ℕ (place_of n p) in
      let frac = d.sub (place_of n p) (d.of_ℕ lower) in
      if n == 0
      then zero_d
      else if n == 1 || d.le p zero_d
      then get_or arr 0 zero_d
      else if d.le (d.of_ℕ 100) p || leb n (lower + 1)
      then get_or arr (n - 1) zero_d
      else interpolate (get_or arr lower zero_d) (get_or arr (lower + 1) zero_d) frac

  -- `calc_percentile_uint`
  unfoldable pub calc_percentile_uint : List ℕ → D → ℕ
  unfolding interpolate
  calc_percentile_uint arr p =
      let n = length arr in
      let lower = d.to_ℕ (place_of n p) in
      let frac = d.sub (place_of n p) (d.of_ℕ lower) in
      if n == 0
      then 0
      else if n == 1 || d.le p (d.of_ℕ 0)
      then get_or arr 0 0
      else if d.le (d.of_ℕ 100) p || leb n (lower + 1)
      then get_or arr (n - 1) 0
      else d.to_ℕ
          (interpolate (d.of_ℕ (get_or arr lower 0)) (d.of_ℕ (get_or arr (lower + 1) 0)) frac)

  -- `for (...) sum += term(arr[i])`
  unfoldable pub sum_by : (D → D) → D → List D → D
  sum_by term sum [] = sum
  sum_by term sum (x ∷ xs) = sum_by term (d.add sum (term x)) xs

  -- `calc_skewness`
  unfoldable pub calc_skewness : List D → D → D → D
  unfolding sum_by
  calc_skewness arr mean std =
      let z : D → D = λ x. d.div (d.sub x mean) std in
      let cube : D → D = λ x. d.mul (d.mul (z x) (z x)) (z x) in
      if ltb (length arr) 3 || d.eq std (d.of_ℕ 0)
      then d.of_ℕ 0
      else d.div (sum_by cube (d.of_ℕ 0) arr) (d.of_ℕ (length arr))

  -- `calc_kurtosis`
  unfoldable pub calc_kurtosis : List D → D → D → D
  unfolding sum_by
  calc_kurtosis arr mean std =
      let z : D → D = λ x. d.div (d.sub x mean) std in
      let fourth : D → D = λ x. d.mul (d.mul (d.mul (z x) (z x)) (z x)) (z x) in
      if ltb (length arr) 4 || d.eq std (d.of_ℕ 0)
      then d.of_ℕ 0
      else d.sub (d.div (sum_by fourth (d.of_ℕ 0) arr) (d.of_ℕ (length arr))) (d.of_ℕ 3)

  -- `calc_cv`
  unfoldable pub calc_cv : D → D → D
  calc_cv mean std = if d.eq mean (d.of_ℕ 0) then d.of_ℕ 0 else d.div std mean

  -- Its second loop.
  unfoldable pub entropy_from : D → ℕ → List ℕ → D
  entropy_from entropy total [] = entropy
  entropy_from entropy total (n ∷ hist) =
      let p = d.div (d.of_ℕ n) (d.of_ℕ total) in
      entropy_from (if ltb 0 n then d.sub entropy (d.mul p (d.log2 p)) else entropy) total hist

  -- `calc_shannon_entropy`
  unfoldable pub calc_shannon_entropy : List ℕ → D
  unfolding total_of entropy_from
  calc_shannon_entropy hist =
      let total = total_of 0 hist in
      if total == 0 then d.of_ℕ 0 else entropy_from (d.of_ℕ 0) total hist

-- `copy_and_sort_uint` and `copy_and_sort_double`: `none` is NULL, and `allocated` whether there is
-- memory for the copy.
unfoldable pub copy_and_sort : {A : Type 0} → (List A → List A) → Bool → List A → Option (List A)
copy_and_sort qsort allocated arr =
    if length arr == 0 then none else if allocated then some (qsort arr) else none
