-- ===== src/Behavior/Derived.antt =====
-- src/calc_behavior.cpp, `calc_derived_behavior`: the fields of the behaviour of a flow.
use Prim.Native.String.{String}
use ti_features.Prelude.{
  ℕ, Bool, ◌&&◌, none, some, List, [], ◌∷◌, ◌++◌, length, get_or, map, take, sub64, ltb,
  if◌then◌else◌,
}
use ti_features.Double.{Double}
use ti_features.Config.{Config}
use ti_features.Flow.{FlowState}
use ti_features.Window.{Window}
use ti_features.FeatureStats.Derived.{running_stats_cv}
use ti_features.StatsUtils.{
  calc_median_double, calc_percentile_double, calc_skewness, calc_kurtosis, copy_and_sort,
}
use ti_features.Output.{Fields, text, label}
use ti_features.Behavior.{
  FlowPattern, download_heavy, upload_heavy, balanced, asymmetric, is_bulk_transfer,
  is_short_connection, calc_flow_asymmetry_ratio, get_flow_pattern, has_regular_intervals,
}
use ti_features.Iat.Features.{min_max, mean_of, std_of}

abbrev pattern_text : FlowPattern → String
pattern_text download_heavy = "download_heavy"
pattern_text upload_heavy = "upload_heavy"
pattern_text balanced = "balanced"
pattern_text asymmetric = "asymmetric"

-- The bitrates of the windows that have packets.
unfoldable pub busy_rates : List ℕ → List ℕ → List ℕ
busy_rates [] rates = []
busy_rates (p ∷ pkts) [] = []
busy_rates (p ∷ pkts) (r ∷ rates) =
    let rest = busy_rates pkts rates in if ltb 0 p then r ∷ rest else rest

unfoldable pub rates_of : Window → List ℕ
unfolding busy_rates
rates_of s =
    busy_rates (take s.num_windows s.window_pkt_counts) (take s.num_windows s.window_bitrate)

module _ {D : Type 0} ⦃d : Double D⦄ where
  abbrev flag : Bool → D
  flag b = if b then d.of_ℕ 1 else d.of_ℕ 0

  -- The part under `enable_behavior_basic`.
  unfoldable pub basic_fields : Config → FlowState D → Fields D
  basic_fields cfg f =
      let duration_s = d.div (d.of_ℕ (sub64 f.last_pkt_us f.flow_start_us)) (d.of_ℕ 1000000) in
      let bytes = d.of_ℕ f.counters.total_bytes in
      let throughput = d.div (d.div bytes duration_s) (d.of_ℕ 1024) in
      label ("flow_duration" ∷ []) (duration_s ∷ [])
      ++ (if d.lt (d.of_ℕ 0) duration_s
          then label
              ("avg_bitrate" ∷ "avg_packet_rate" ∷ "avg_throughput" ∷ "is_bulk_transfer"
                ∷ "short_connection_ratio" ∷ [])
              (d.div (d.mul bytes (d.of_ℕ 8)) duration_s
                ∷ d.div (d.of_ℕ f.counters.total_packets) duration_s
                ∷ throughput
                ∷ flag (is_bulk_transfer cfg throughput)
                ∷ flag (is_short_connection cfg duration_s)
                ∷ [])
          else [])

  -- `max_v` over the windows that have packets.
  unfoldable pub max_from : D → List ℕ → D
  max_from max_v [] = max_v
  max_from max_v (r ∷ rates) = max_from (if d.lt max_v (d.of_ℕ r) then d.of_ℕ r else max_v) rates

  -- `peak_bitrate`
  unfoldable pub peak_fields : Window → Fields D
  unfolding rates_of max_from
  peak_fields s =
      if ltb 0 (length (rates_of s))
      then label ("peak_bitrate" ∷ []) (max_from (d.of_ℕ 0) (rates_of s) ∷ [])
      else []

  -- The part under `enable_behavior_pattern`; no packet is counted as ICMP.
  unfoldable pub pattern_fields : D → FlowState D → Fields D
  unfolding peak_fields
  pattern_fields infinity f =
      let ratio = calc_flow_asymmetry_ratio infinity f.counters.fwd_bytes f.counters.bwd_bytes in
      let total = f.counters.total_packets in
      let tcp = f.tcp.tcp_packets in
      let share : ℕ → D = λ n. d.div (d.of_ℕ n) (d.of_ℕ total) in
      label ("flow_asymmetry_ratio" ∷ []) (ratio ∷ [])
      ++ (("flow_pattern", text (pattern_text (get_flow_pattern ratio)))
          ∷ (label ("has_regular_intervals" ∷ [])
                (flag (has_regular_intervals (running_stats_cv f.iat.iat_stats)) ∷ [])
              ++ ((if ltb 0 total
                    then label
                        ("protocol_tcp_ratio" ∷ "protocol_udp_ratio" ∷ "protocol_icmp_ratio"
                          ∷ "protocol_other_ratio" ∷ [])
                        (share tcp
                          ∷ share f.udp_packets
                          ∷ share 0
                          ∷ share (sub64 (sub64 total tcp) f.udp_packets)
                          ∷ [])
                    else [])
                  ++ peak_fields f.window)))

  -- The statistics of the bitrates, where there is memory for them and for their sorted copy.
  unfoldable pub rate_fields : (List D → List D) → Bool → Bool → Window → Fields D
  unfolding min_max std_of
  rate_fields qsort has_values has_sorted s =
      let arr : List D = map d.of_ℕ (rates_of s) in
      let mean = mean_of arr in
      let std = std_of arr in
      let first = get_or arr 0 (d.of_ℕ 0) in
      let (low, high) = min_max first first arr in
      if ltb 0 (length arr) && has_values
      then label
          ("instant_bitrate_mean" ∷ "instant_bitrate_std" ∷ "instant_bitrate_min"
            ∷ "instant_bitrate_max" ∷ [])
          (mean ∷ std ∷ low ∷ high ∷ [])
        ++ elim (copy_and_sort qsort has_sorted arr) [
          | none ↦ []
          | some sorted ↦
              label
                ("instant_bitrate_median" ∷ "instant_bitrate_q1" ∷ "instant_bitrate_q3"
                  ∷ "instant_bitrate_skew" ∷ "instant_bitrate_kurt" ∷ "bitrate_percentile_25"
                  ∷ "bitrate_percentile_50" ∷ "bitrate_percentile_75" ∷ "bitrate_percentile_90"
                  ∷ [])
                (calc_median_double sorted
                  ∷ calc_percentile_double sorted (d.of_ℕ 25)
                  ∷ calc_percentile_double sorted (d.of_ℕ 75)
                  ∷ calc_skewness arr mean std
                  ∷ calc_kurtosis arr mean std
                  ∷ calc_percentile_double sorted (d.of_ℕ 25)
                  ∷ calc_percentile_double sorted (d.of_ℕ 50)
                  ∷ calc_percentile_double sorted (d.of_ℕ 75)
                  ∷ calc_percentile_double sorted (d.of_ℕ 90)
                  ∷ [])
        ]
      else []
