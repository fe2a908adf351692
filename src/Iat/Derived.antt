-- ===== src/Iat/Derived.antt =====
-- src/calc_iat.cpp, `calc_derived_iat`: the fields that it adds to the JSON object of a flow.
pub mod Buffers
pub mod Keys
use Prim.Native.String.{String}
use ti_features.Prelude.{
  ℕ, zero, suc, ◌+◌, ◌-◌, ◌/◌, Bool, true, false, ◌&&◌, ◌||◌, Option, none, some, List, [], ◌∷◌,
  ◌++◌, length, get_or, map, replicate, add64, ltb, leb, ◌==◌, if◌then◌else◌, is_set,
}
use ti_features.Double.{Double, zeroed_double}
use ti_features.Config.{Config}
use ti_features.BoundedArray.{BoundedArray, contents}
use ti_features.CircularBuffer.{CircularBuffer}
use ti_features.FeatureStats.{RunningStats}
use ti_features.FeatureStats.Derived.{
  running_stats_std, running_stats_cv, running_stats_skew, running_stats_kurt,
}
use ti_features.StatsUtils.{
  calc_median_double, calc_percentile_double, calc_skewness, calc_kurtosis, copy_and_sort,
}
use ti_features.Behavior.{is_interactive_session}
use ti_features.Rings.{TempBuffers}
use ti_features.Output.{Fields, label}
use ti_features.Iat.{Iat}
use ti_features.Iat.Region.{Region, read, copy_to}
use ti_features.Iat.Features.{
  calc_iat_entropy_double, calc_iat_autocorr_double, interval_ratio_mean, sequence_values, values,
  second_place, prepare, refill, sort_region, mean_of, std_of,
}

abbrev pub head_keys : List String
head_keys =
    "iat_entropy" ∷ "iat_autocorr_lag_1" ∷ "iat_autocorr_lag_2" ∷ "iat_autocorr_lag_3"
    ∷ "iat_autocorr_lag_4" ∷ "iat_autocorr_lag_5" ∷ "iat_median" ∷ "iat_q1" ∷ "iat_q3"
    ∷ "interval_ratio_mean" ∷ []

abbrev pub sequence_keys : List String
sequence_keys =
    "iat_sequence_mean" ∷ "iat_sequence_std" ∷ "iat_sequence_min" ∷ "iat_sequence_max"
    ∷ "iat_sequence_median" ∷ "iat_sequence_q1" ∷ "iat_sequence_q3" ∷ "iat_sequence_skew"
    ∷ "iat_sequence_kurt" ∷ []

abbrev pub log_keys : List String
log_keys =
    "log_iat_sequence_mean" ∷ "log_iat_sequence_std" ∷ "log_iat_sequence_min"
    ∷ "log_iat_sequence_max" ∷ "log_iat_sequence_median" ∷ "log_iat_sequence_q1"
    ∷ "log_iat_sequence_q3" ∷ "log_iat_sequence_skew" ∷ "log_iat_sequence_kurt" ∷ []

abbrev pub stats_keys : List String
stats_keys =
    "iat_mean" ∷ "iat_std" ∷ "iat_min" ∷ "iat_max" ∷ "iat_skew" ∷ "iat_kurt"
    ∷ "interval_coefficient_of_variation" ∷ []

module _ {D : Type 0} ⦃d : Double D⦄ where
  -- The fields of the sequence itself, before the statistics of its sums.
  unfoldable pub head_values : List D → List D → List D
  head_values arr sorted =
      calc_iat_entropy_double arr
      ∷ calc_iat_autocorr_double arr 1
      ∷ calc_iat_autocorr_double arr 2
      ∷ calc_iat_autocorr_double arr 3
      ∷ calc_iat_autocorr_double arr 4
      ∷ calc_iat_autocorr_double arr 5
      ∷ calc_median_double sorted
      ∷ calc_percentile_double sorted (d.of_ℕ 25)
      ∷ calc_percentile_double sorted (d.of_ℕ 75)
      ∷ interval_ratio_mean arr
      ∷ []

  -- The memory when the sequence is read: sorted in the second half, and filled again in the first.
  unfoldable pub ready : (List D → List D) → TempBuffers → List (Option ℕ) → Region D → Region D
  unfolding prepare refill
  ready qsort bufs vs mem = refill (prepare qsort bufs vs mem) 0 vs

  -- The memory after the logarithms were copied and sorted.
  unfoldable pub sorted_logs : (List D → List D) → TempBuffers → ℕ → Region D → Region D
  unfolding sort_region
  sorted_logs qsort bufs n mem =
      let max_len = bufs.temp_uint_buffer_size in
      sort_region qsort (copy_to mem max_len (read mem (second_place bufs) n)) max_len n

  -- The fields under the key prefix `iat_sequence_`.
  unfoldable pub sequence_fields : TempBuffers → ℕ → Region D → Fields D
  sequence_fields bufs n mem =
      let arr = read mem 0 n in
      let sorted = read mem bufs.temp_uint_buffer_size n in
      label sequence_keys (sequence_values arr sorted arr)

  -- The fields under the key prefix `log_iat_sequence_`.
  unfoldable pub log_fields : (List D → List D) → TempBuffers → ℕ → Region D → Fields D
  unfolding sorted_logs
  log_fields qsort bufs n mem =
      let last = sorted_logs qsort bufs n mem in
      label log_keys (
        sequence_values (read mem (second_place bufs) n) (read last bufs.temp_uint_buffer_size n)
          (read last (second_place bufs) n))

  -- All fields that the ring of times between packets gives.
  unfoldable pub ring_fields :
      (List D → List D) → TempBuffers → CircularBuffer ℕ → Region D → Fields D
  unfolding head_values ready sequence_fields log_fields
  ring_fields qsort bufs ring mem =
      let n = ring.count in
      let max_len = bufs.temp_uint_buffer_size in
      let now = ready qsort bufs (values ring) mem in
      if ltb 0 n && leb n max_len
      then label head_keys (head_values (read now 0 n) (read now max_len n))
        ++ (sequence_fields bufs n now ++ log_fields qsort bufs n now)
      else label head_keys (replicate 10 (d.of_ℕ 0))
        ++ (label sequence_keys (replicate 9 (d.of_ℕ 0)) ++ label log_keys (replicate 9 (d.of_ℕ 0)))

  -- The part of `calc_derived_iat` under `enable_iat_stats`.
  unfoldable pub stats_fields : (List D → List D) → TempBuffers → Region D → Iat D → Fields D
  unfolding ring_fields
  stats_fields qsort bufs mem s =
      label stats_keys (
        s.iat_stats.mean
        ∷ running_stats_std s.iat_stats
        ∷ s.iat_stats.min_val
        ∷ s.iat_stats.max_val
        ∷ running_stats_skew s.iat_stats
        ∷ running_stats_kurt s.iat_stats
        ∷ running_stats_cv s.iat_stats
        ∷ [])
      ++ ring_fields qsort bufs s.iat_seq mem

  -- The quartiles of one direction, where there is memory for the sorted copy.
  unfoldable pub quartiles : (List D → List D) → Bool → ℕ → List String → BoundedArray ℕ → Fields D
  quartiles qsort allocated max_len keys iats =
      if ltb 0 iats.count && leb iats.count max_len
      then elim (copy_and_sort qsort allocated (map d.of_ℕ (contents iats))) [
        | none ↦ []
        | some sorted ↦ label keys (
            calc_median_double sorted
            ∷ calc_percentile_double sorted (d.of_ℕ 25)
            ∷ calc_percentile_double sorted (d.of_ℕ 75)
            ∷ [])
      ]
      else []

  -- The statistics of one direction.
  unfoldable pub direction_values : RunningStats D → List D
  direction_values s =
      s.mean
      ∷ running_stats_std s
      ∷ running_stats_cv s
      ∷ s.min_val
      ∷ s.max_val
      ∷ running_stats_skew s
      ∷ running_stats_kurt s
      ∷ []

  -- The part under `enable_iat_fwd_bwd`; `memory` is whether there is memory for each copy.
  unfoldable pub direction_fields : (List D → List D) → Bool × Bool → TempBuffers → Iat D → Fields D
  unfolding quartiles direction_values
  direction_fields qsort memory bufs s =
      label
        ("fwd_iat_mean" ∷ "fwd_iat_std" ∷ "fwd_iat_cv" ∷ "fwd_iat_min" ∷ "fwd_iat_max"
          ∷ "fwd_iat_skew" ∷ "fwd_iat_kurt" ∷ [])
        (direction_values s.fwd_iat.fwd_stats)
      ++ (quartiles qsort (memory.0) bufs.temp_uint_buffer_size
            ("fwd_iat_median" ∷ "fwd_iat_q1" ∷ "fwd_iat_q3" ∷ []) s.fwd_iats
          ++ (label
                ("bwd_iat_mean" ∷ "bwd_iat_std" ∷ "bwd_iat_cv" ∷ "bwd_iat_min" ∷ "bwd_iat_max"
                  ∷ "bwd_iat_skew" ∷ "bwd_iat_kurt" ∷ [])
                (direction_values s.bwd_iat.bwd_stats)
              ++ quartiles qsort (memory.1) bufs.temp_uint_buffer_size
                  ("bwd_iat_median" ∷ "bwd_iat_q1" ∷ "bwd_iat_q3" ∷ []) s.bwd_iats))

  -- The part under `enable_iat_active`.
  unfoldable pub active_fields : Iat D → Fields D
  active_fields s =
      let total_time = add64 s.active_time_us s.idle_time_us in
      label ("active_time" ∷ "idle_time" ∷ []) (
        d.div (d.of_ℕ s.active_time_us) (d.of_ℕ 1000000)
        ∷ d.div (d.of_ℕ s.idle_time_us) (d.of_ℕ 1000000)
        ∷ [])
      ++ (if ltb 0 total_time
          then label ("active_time_ratio" ∷ [])
              (d.div (d.of_ℕ s.active_time_us) (d.of_ℕ total_time) ∷ [])
          else [])
