-- ===== src/Window/Derived.antt =====
-- src/calc_window.cpp, `calc_derived_window`: the fields over the windows that have packets.
pub mod Room
use Prim.Native.String.{String}
use ti_features.Prelude.{
  ℕ, ◌+◌, ◌-◌, ◌*◌, ◌%◌, ◌^◌, Bool, ◌&&◌, ◌||◌, not, Option, none, some, List, [], ◌∷◌, ◌++◌,
  length, get_or, map, take, drop, ltb, ◌==◌, if◌then◌else◌, is_set,
}
use ti_features.Double.{Double}
use ti_features.Config.{Config}
use ti_features.StatsUtils.{
  calc_median_uint, calc_percentile_uint, calc_skewness, calc_kurtosis, copy_and_sort,
}
use ti_features.Output.{Fields, number, label}
use ti_features.Window.{Window}

-- The counts that are not 0, in order: what the loops copy, and how many windows have packets.
unfoldable pub busy : List ℕ → List ℕ
busy [] = []
busy (c ∷ counts) = let rest = busy counts in if ltb 0 c then c ∷ rest else rest

-- The allocations of a block: the array, its sorted copy, and the array of doubles.
pub record Memory : Type 0 where
  pub has_counts : Bool
  pub has_sorted : Bool
  pub has_double : Bool

-- The smallest and the largest: the first starts from window 0, the second from 0.
unfoldable pub low_high : ℕ → ℕ → List ℕ → ℕ × ℕ
low_high low high [] = (low, high)
low_high low high (c ∷ counts) =
    low_high (if ltb c low then c else low) (if ltb high c then c else high) counts

-- What the memory of `malloc` holds where nothing was stored makes the array as long as there
-- are windows with packets.
unfoldable pub stored_array : ℕ → List ℕ → List ℕ → List ℕ
stored_array valid counts unset = take valid (counts ++ drop (length counts) unset)

module _ {D : Type 0} ⦃d : Double D⦄ where
  unfoldable pub sum_counts : D → List ℕ → D
  sum_counts sum [] = sum
  sum_counts sum (c ∷ counts) = sum_counts (d.add sum (d.of_ℕ c)) counts

  -- The squares are products of unsigned int, which wrap.
  unfoldable pub sum_squares : D → List ℕ → D
  sum_squares sum [] = sum
  sum_squares sum (c ∷ counts) = sum_squares (d.add sum (d.of_ℕ (c * c % 2 ^ 32))) counts

  -- `mean` and `std` over so many windows.
  unfoldable pub moments : ℕ → List ℕ → D × D
  unfolding sum_counts sum_squares
  moments valid counts =
      let mean = d.div (sum_counts (d.of_ℕ 0) counts) (d.of_ℕ valid) in
      let sum_sq = sum_squares (d.of_ℕ 0) counts in
      (
        mean,
        if ltb 1 valid
            then d.sqrt
                (d.div (d.sub sum_sq (d.mul (d.mul (d.of_ℕ valid) mean) mean)) (d.of_ℕ (valid - 1)))
            else d.of_ℕ 0,
      )

  -- One block: `all` is the array of every window, and `unset` what the new array holds before.
  unfoldable pub block_fields :
      (List ℕ → List ℕ)
      → Memory
      → ℕ
      → List ℕ
      → List ℕ
      → List String
      → List String
      → List String
      → Fields D
  unfolding busy low_high moments stored_array
  block_fields qsort m valid all unset keys sorted_keys moment_keys =
      let counts = busy all in
      let (mean, std) = moments valid counts in
      let (low, high) = low_high (get_or all 0 0) 0 counts in
      let arr = stored_array valid counts unset in
      let values : List D = map d.of_ℕ arr in
      label keys (mean ∷ std ∷ d.of_ℕ low ∷ d.of_ℕ high ∷ [])
      ++ elim (copy_and_sort qsort m.has_sorted arr) [
        | none ↦ []
        | some sorted ↦
            label sorted_keys (
              d.of_ℕ (calc_median_uint sorted)
              ∷ d.of_ℕ (calc_percentile_uint sorted (d.of_ℕ 25))
              ∷ d.of_ℕ (calc_percentile_uint sorted (d.of_ℕ 75))
              ∷ [])
            ++ (if m.has_double
                then label moment_keys
                    (calc_skewness values mean std ∷ calc_kurtosis values mean std ∷ [])
                else [])
      ]

  abbrev pub pkt_block : (List ℕ → List ℕ) → Memory → ℕ → List ℕ → List ℕ → Fields D
  pkt_block qsort m valid all unset =
      block_fields qsort m valid all unset
        ("window_packet_count_mean" ∷ "window_packet_count_std" ∷ "window_packet_count_min"
          ∷ "window_packet_count_max" ∷ [])
        ("window_packet_count_median" ∷ "window_packet_count_q1" ∷ "window_packet_count_q3" ∷ [])
        ("window_packet_count_skew" ∷ "window_packet_count_kurt" ∷ [])

  abbrev pub byte_block : (List ℕ → List ℕ) → Memory → ℕ → List ℕ → List ℕ → Fields D
  byte_block qsort m valid all unset =
      block_fields qsort m valid all unset
        ("window_byte_count_mean" ∷ "window_byte_count_std" ∷ "window_byte_count_min"
          ∷ "window_byte_count_max" ∷ [])
        ("window_byte_count_median" ∷ "window_byte_count_q1" ∷ "window_byte_count_q3" ∷ [])
        ("window_byte_count_skew" ∷ "window_byte_count_kurt" ∷ [])

  -- The byte block, or the return where there is no memory for its array.
  unfoldable pub byte_part : Config → (List ℕ → List ℕ) → Memory → List ℕ → Window → Fields D
  unfolding block_fields
  byte_part cfg qsort m unset s =
      if is_set cfg.enable_window_byte && m.has_counts
      then byte_block qsort m (length (busy (take s.num_windows s.window_pkt_counts)))
          (take s.num_windows s.window_byte_counts) unset
      else []

  -- `calc_derived_window`, by the memory for each block and what it holds before.
  unfoldable pub calc_derived_window :
      Config → (List ℕ → List ℕ) → Memory × Memory → List ℕ × List ℕ → Window → Fields D
  unfolding byte_part
  calc_derived_window cfg qsort (m_pkt, m_byte) (unset_pkt, unset_byte) s =
      let valid = length (busy (take s.num_windows s.window_pkt_counts)) in
      if valid == 0
      then []
      else if is_set cfg.enable_window_pkt
      then (if m_pkt.has_counts
          then pkt_block qsort m_pkt valid (take s.num_windows s.window_pkt_counts) unset_pkt
            ++ byte_part cfg qsort m_byte unset_byte s
          else [])
      else byte_part cfg qsort m_byte unset_byte s
