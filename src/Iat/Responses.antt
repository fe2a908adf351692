-- ===== src/Iat/Responses.antt =====
-- src/calc_iat.cpp, `calc_derived_iat`: the response delays, and all parts of the function.
use ti_features.Prelude.{
  Bool, ◌&&◌, none, some, List, [], ◌∷◌, ◌++◌, get_or, ltb, leb, if◌then◌else◌, is_set,
}
use ti_features.Double.{Double}
use ti_features.Config.{Config}
use ti_features.BoundedArray.{BoundedArray, contents}
use ti_features.StatsUtils.{
  calc_median_double, calc_percentile_double, calc_skewness, calc_kurtosis, copy_and_sort,
}
use ti_features.Behavior.{is_interactive_session}
use ti_features.Rings.{TempBuffers}
use ti_features.Output.{Fields, label}
use ti_features.Iat.{Iat}
use ti_features.Iat.Region.{Region}
use ti_features.Iat.Features.{min_max, mean_of, std_of}
use ti_features.Iat.Derived.{stats_fields, direction_fields, active_fields}

module _ {D : Type 0} ⦃d : Double D⦄ where
  -- The fields for more than one delay.
  unfoldable pub spread_fields : (List D → List D) → Bool → List D → Fields D
  unfolding std_of
  spread_fields qsort allocated arr =
      let mean = mean_of arr in
      let std = std_of arr in
      label ("response_delay_std" ∷ []) (std ∷ [])
      ++ (elim (copy_and_sort qsort allocated arr) [
        | none ↦ []
        | some sorted ↦
            label ("response_delay_median" ∷ "response_delay_q1" ∷ "response_delay_q3" ∷ []) (
              calc_median_double sorted
              ∷ calc_percentile_double sorted (d.of_ℕ 25)
              ∷ calc_percentile_double sorted (d.of_ℕ 75)
              ∷ [])
      ]
          ++ label ("response_delay_skew" ∷ "response_delay_kurt" ∷ [])
              (calc_skewness arr mean std ∷ calc_kurtosis arr mean std ∷ []))

  -- The fields for one delay.
  unfoldable pub single_fields : D → Fields D
  single_fields mean =
      label
        ("response_delay_std" ∷ "response_delay_median" ∷ "response_delay_q1" ∷ "response_delay_q3"
          ∷ "response_delay_skew" ∷ "response_delay_kurt" ∷ [])
        (d.of_ℕ 0 ∷ mean ∷ mean ∷ mean ∷ d.of_ℕ 0 ∷ d.of_ℕ 0 ∷ [])

  -- The part of `calc_derived_iat` under `enable_iat_response`.
  unfoldable pub response_fields :
      Config → (List D → List D) → Bool → TempBuffers → BoundedArray D → Fields D
  unfolding spread_fields single_fields min_max
  response_fields cfg qsort allocated bufs delays =
      let arr = contents delays in
      let mean = mean_of arr in
      let (low, high) = min_max (get_or arr 0 (d.of_ℕ 0)) (d.of_ℕ 0) arr in
      if ltb 0 delays.count && leb delays.count bufs.temp_uint_buffer_size
      then label ("response_delay_mean" ∷ "response_delay_min" ∷ "response_delay_max" ∷ [])
          (mean ∷ low ∷ high ∷ [])
        ++ ((if ltb 1 delays.count then spread_fields qsort allocated arr else single_fields mean)
            ++ label ("is_interactive_session" ∷ [])
                ((if is_interactive_session cfg mean then d.of_ℕ 1 else d.of_ℕ 0) ∷ []))
      else []

  -- `calc_derived_iat`: `memory` is whether there is memory for each sorted copy.
  unfoldable pub calc_derived_iat :
      Config → (List D → List D) → Bool × Bool × Bool → TempBuffers → Region D → Iat D → Fields D
  unfolding stats_fields direction_fields active_fields response_fields
  calc_derived_iat cfg qsort (fwd_memory, bwd_memory, response_memory) bufs mem s =
      (if is_set cfg.enable_iat_stats then stats_fields qsort bufs mem s else [])
      ++ ((if is_set cfg.enable_iat_fwd_bwd
            then direction_fields qsort (fwd_memory, bwd_memory) bufs s
            else [])
          ++ ((if is_set cfg.enable_iat_active then active_fields s else [])
              ++ (if is_set cfg.enable_iat_response
                  then response_fields cfg qsort response_memory bufs s.resp_delays
                  else [])))
