-- ===== src/Iat/Features.antt =====
-- src/calc_iat.cpp, the features that `calc_derived_iat` takes from the sequence of times between
-- packets, by way of the temporary buffers.
use ti_features.Prelude.{
  ℕ, ◌+◌, ◌-◌, ◌/◌, ◌||◌, Option, none, some, List, [], ◌∷◌, length, get_or, set, drop, tabulate,
  replicate, add32, ltb, leb, ◌==◌, if◌then◌else◌,
}
use ti_features.Double.{Double, zeroed_double}
use ti_features.CircularBuffer.{CircularBuffer, get}
use ti_features.MemoryPool.{zeroed_ℕ}
use ti_features.StatsUtils.{
  calc_median_double, calc_percentile_double, calc_skewness, calc_kurtosis, calc_shannon_entropy,
  sum_by,
}
use ti_features.Rings.{TempBuffers}
use ti_features.Iat.Region.{Region, write, read, copy_to}

module _ {D : Type 0} ⦃d : Double D⦄ where
  -- The smallest and the largest of `calc_iat_entropy_double`.
  unfoldable pub min_max : D → D → List D → D × D
  min_max low high [] = (low, high)
  min_max low high (x ∷ xs) =
      min_max (if d.lt x low then x else low) (if d.lt high x then x else high) xs

  -- `idx`, which is not negative where `low` is the minimum.
  unfoldable pub bin_of : D → D → D → ℕ
  bin_of low span x =
      let idx = d.to_ℕ (d.mul (d.div (d.sub x low) span) (d.of_ℕ 31)) in
      if leb 32 idx then 31 else idx

  unfoldable pub fill_bins : D → D → List ℕ → List D → List ℕ
  unfolding bin_of
  fill_bins low span bins [] = bins
  fill_bins low span bins (x ∷ xs) =
      let idx = bin_of low span x in
      fill_bins low span (set bins idx (add32 (get_or bins idx 0) 1)) xs

  -- `calc_iat_entropy_double`
  unfoldable pub calc_iat_entropy_double : List D → D
  unfolding min_max fill_bins
  calc_iat_entropy_double [] = d.of_ℕ 0
  calc_iat_entropy_double (x ∷ xs) =
      let (low, high) = min_max x x xs in
      if d.eq low high
      then d.of_ℕ 0
      else calc_shannon_entropy (fill_bins low (d.sub high low) (replicate 32 0) (x ∷ xs))

  -- The loop of `calc_iat_autocorr_double` over the pairs that are `lag` apart.
  unfoldable pub autocorr_from : D → D → D → List D → List D → D
  autocorr_from mean num den xs [] = if d.lt (d.of_ℕ 0) den then d.div num den else d.of_ℕ 0
  autocorr_from mean num den [] (y ∷ ys) = if d.lt (d.of_ℕ 0) den then d.div num den else d.of_ℕ 0
  autocorr_from mean num den (x ∷ xs) (y ∷ ys) =
      let d1 = d.sub x mean in
      autocorr_from mean (d.add num (d.mul d1 (d.sub y mean))) (d.add den (d.mul d1 d1)) xs ys

  abbrev pub mean_of : List D → D
  mean_of arr = d.div (sum_by (λ x. x) (d.of_ℕ 0) arr) (d.of_ℕ (length arr))

  -- `calc_iat_autocorr_double`
  unfoldable pub calc_iat_autocorr_double : List D → ℕ → D
  unfolding autocorr_from
  calc_iat_autocorr_double arr lag =
      if leb (length arr) lag || lag == 0
      then d.of_ℕ 0
      else autocorr_from (mean_of arr) (d.of_ℕ 0) (d.of_ℕ 0) arr (drop lag arr)

  -- The loop of `interval_ratio_mean`, after the first element.
  unfoldable pub ratio_from : D → ℕ → D → List D → D
  ratio_from sum n last [] = if ltb 0 n then d.div sum (d.of_ℕ n) else d.of_ℕ 0
  ratio_from sum n last (x ∷ xs) =
      let taken = d.lt (d.of_ℕ 0) last in
      ratio_from (if taken then d.add sum (d.div x last) else sum) (if taken then add32 n 1 else n)
        x xs

  -- `interval_ratio_mean`
  unfoldable pub interval_ratio_mean : List D → D
  unfolding ratio_from
  interval_ratio_mean [] = d.of_ℕ 0
  interval_ratio_mean (x ∷ xs) = ratio_from (d.of_ℕ 0) 0 x xs

  -- The standard deviation as the derived features compute it.
  unfoldable pub std_of : List D → D
  std_of arr =
      let n = length arr in
      let mean = mean_of arr in
      let sum_sq = sum_by (λ x. d.mul x x) (d.of_ℕ 0) arr in
      if ltb 1 n
      then d.sqrt (d.div (d.sub sum_sq (d.mul (d.mul (d.of_ℕ n) mean) mean)) (d.of_ℕ (n - 1)))
      else d.of_ℕ 0

  -- The nine numbers of a sequence: `arr` is the buffer at the sums, `sorted` its sorted copy, and
  -- `late` the buffer when the moments are taken.
  unfoldable pub sequence_values : List D → List D → List D → List D
  unfolding std_of
  sequence_values arr sorted late =
      let mean = mean_of arr in
      let std = std_of arr in
      mean
      ∷ std
      ∷ get_or sorted 0 (d.of_ℕ 0)
      ∷ get_or sorted (length arr - 1) (d.of_ℕ 0)
      ∷ calc_median_double sorted
      ∷ calc_percentile_double sorted (d.of_ℕ 25)
      ∷ calc_percentile_double sorted (d.of_ℕ 75)
      ∷ calc_skewness late mean std
      ∷ calc_kurtosis late mean std
      ∷ []

-- The elements of a ring by index, as `circular_buffer_get` gives them.
unfoldable pub values : CircularBuffer ℕ → List (Option ℕ)
values ring = tabulate (get ring) ring.count 0

-- Where the second buffer starts, counted in doubles from the first.
abbrev pub distance : Option ℕ → Option ℕ → ℕ
distance none second = 0
distance (some first) none = 0
distance (some first) (some second) = (second - first) / 8

abbrev pub second_place : TempBuffers → ℕ
second_place bufs = distance bufs.temp_double_buffer bufs.temp_double_buffer_2

module _ {D : Type 0} ⦃d : Double D⦄ where
  -- `log((double)*val + 1.0)`
  abbrev pub log_of : ℕ → D
  log_of v = d.log (d.add (d.of_ℕ v) (d.of_ℕ 1))

  -- The first loop: the sequence into one buffer, the logarithms into the other.
  unfoldable pub fill_both : Region D → ℕ → ℕ → List (Option ℕ) → Region D
  fill_both mem second i [] = mem
  fill_both mem second i (none ∷ vs) = fill_both mem second (i + 1) vs
  fill_both mem second i (some v ∷ vs) =
      fill_both (write (write mem i (d.of_ℕ v)) (second + i) (log_of v)) second (i + 1) vs

  -- The second loop, which fills the first buffer again.
  unfoldable pub refill : Region D → ℕ → List (Option ℕ) → Region D
  refill mem i [] = mem
  refill mem i (none ∷ vs) = refill mem (i + 1) vs
  refill mem i (some v ∷ vs) = refill (write mem i (d.of_ℕ v)) (i + 1) vs

  -- `qsort` on so many doubles from a place on.
  unfoldable pub sort_region : (List D → List D) → Region D → ℕ → ℕ → Region D
  sort_region qsort mem place n = copy_to mem place (qsort (read mem place n))

  -- The copy for sorting, "in the second half of the buffer".
  unfoldable pub prepare : (List D → List D) → TempBuffers → List (Option ℕ) → Region D → Region D
  unfolding fill_both sort_region
  prepare qsort bufs vs mem =
      let max_len = bufs.temp_uint_buffer_size in
      let filled = fill_both mem (second_place bufs) 0 vs in
      sort_region qsort (copy_to filled max_len (read filled 0 (length vs))) max_len (length vs)
