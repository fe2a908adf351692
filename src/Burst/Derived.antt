-- ===== src/Burst/Derived.antt =====
-- src/calc_burst.cpp, `calc_burst_statistics` and `calc_burstiness_index`: the fields of the bursts.
use Prim.Native.String.{String}
use ti_features.Prelude.{ℕ, ◌-◌, List, [], ◌∷◌, take, map, ltb, ◌==◌, if◌then◌else◌}
use ti_features.Double.{Double}
use ti_features.StatsUtils.{sum_by}
use ti_features.Output.{Fields, label}
use ti_features.Burst.{Burst}

-- The sums of the loop over the bursts, and the largest rate of packets.
pub record Totals (D : Type 0) : Type 0 where
  pub total_size : D
  pub total_size_sq : D
  pub total_duration_us : D
  pub total_pkt_count : D
  pub peak_pkt_rate : D

abbrev pub none_keys : List String
none_keys =
    "burst_count" ∷ "avg_burst_duration" ∷ "avg_burst_size" ∷ "burst_size_std"
    ∷ "burst_interval_mean" ∷ "burst_packet_count_mean" ∷ "burst_packet_rate_peak"
    ∷ "burstiness_index" ∷ []

abbrev pub burst_keys : List String
burst_keys =
    "burst_count" ∷ "avg_burst_size" ∷ "avg_burst_duration" ∷ "burst_packet_count_mean"
    ∷ "burst_packet_rate_peak" ∷ "burst_size_std" ∷ "burst_interval_mean" ∷ "burstiness_index" ∷ []

module _ {D : Type 0} ⦃d : Double D⦄ where
  -- The largest rate after a burst of so many packets, which took so long.
  unfoldable pub peak_after : D → ℕ → ℕ → D
  peak_after peak pkts duration =
      let pkt_rate = d.div (d.mul (d.of_ℕ pkts) (d.of_ℕ 1000000)) (d.of_ℕ duration) in
      if ltb 0 duration then (if d.lt peak pkt_rate then pkt_rate else peak) else peak

  -- The loop over the sizes, the durations and the numbers of packets.
  unfoldable pub totals_from : Totals D → List ℕ → List ℕ → List ℕ → Totals D
  unfolding peak_after
  totals_from t (size ∷ sizes) (duration ∷ durations) (pkts ∷ counts) =
      totals_from
        (record {
          total_size = d.add t.total_size (d.of_ℕ size);
          total_size_sq = d.add t.total_size_sq (d.mul (d.of_ℕ size) (d.of_ℕ size));
          total_duration_us = d.add t.total_duration_us (d.of_ℕ duration);
          total_pkt_count = d.add t.total_pkt_count (d.of_ℕ pkts);
          peak_pkt_rate = peak_after t.peak_pkt_rate pkts duration;
        })
        sizes durations counts
  totals_from t _ _ _ = t

  unfoldable pub totals_of : Burst → Totals D
  unfolding totals_from
  totals_of s =
      totals_from
        (record {
          total_size = d.of_ℕ 0;
          total_size_sq = d.of_ℕ 0;
          total_duration_us = d.of_ℕ 0;
          total_pkt_count = d.of_ℕ 0;
          peak_pkt_rate = d.of_ℕ 0;
        })
        (take s.burst_count s.burst_sizes) (take s.burst_count s.burst_durations)
        (take s.burst_count s.burst_packet_counts)

  -- The intervals as doubles, one fewer than the bursts.
  abbrev pub intervals_of : Burst → List D
  intervals_of s = map d.of_ℕ (take (s.burst_count - 1) s.burst_intervals)

  -- `calc_burstiness_index`
  unfoldable pub calc_burstiness_index : Burst → D
  calc_burstiness_index s =
      let arr : List D = intervals_of s in
      let n = d.of_ℕ (s.burst_count - 1) in
      let mean = d.div (sum_by (λ x. x) (d.of_ℕ 0) arr) n in
      let sum_sq = sum_by (λ x. d.mul x x) (d.of_ℕ 0) arr in
      let variance = d.div (d.sub sum_sq (d.mul (d.mul n mean) mean)) (d.sub n (d.of_ℕ 1)) in
      if ltb s.burst_count 2
      then d.of_ℕ 0
      else (if d.lt (d.of_ℕ 0) mean then d.div (d.sqrt variance) mean else d.of_ℕ 0)

  -- `size_std`
  unfoldable pub size_std_of : ℕ → D → D → D
  size_std_of bursts avg_size size_sq =
      if ltb 1 bursts
      then d.sqrt (
          d.div (d.sub size_sq (d.mul (d.mul (d.of_ℕ bursts) avg_size) avg_size))
            (d.of_ℕ (bursts - 1)))
      else d.of_ℕ 0

  -- `burst_interval_mean`, in seconds.
  unfoldable pub interval_mean_of : Burst → D
  interval_mean_of s =
      if ltb 1 s.burst_count
      then d.div (d.div (sum_by (λ x. x) (d.of_ℕ 0) (intervals_of s)) (d.of_ℕ (s.burst_count - 1)))
          (d.of_ℕ 1000000)
      else d.of_ℕ 0

  -- `calc_burst_statistics`
  unfoldable pub calc_burst_statistics : Burst → Fields D
  unfolding totals_of size_std_of interval_mean_of calc_burstiness_index
  calc_burst_statistics s =
      let zero_d : D = d.of_ℕ 0 in
      let t : Totals D = totals_of s in
      let n = d.of_ℕ s.burst_count in
      let avg_size = d.div t.total_size n in
      if s.burst_count == 0
      then label none_keys
          (d.of_ℕ s.burst_count ∷ zero_d ∷ zero_d ∷ zero_d ∷ zero_d ∷ zero_d ∷ zero_d ∷ zero_d ∷ [])
      else label burst_keys (
          d.of_ℕ s.burst_count
          ∷ avg_size
          ∷ d.div (d.div t.total_duration_us n) (d.of_ℕ 1000000)
          ∷ d.div t.total_pkt_count n
          ∷ t.peak_pkt_rate
          ∷ size_std_of s.burst_count avg_size t.total_size_sq
          ∷ interval_mean_of s
          ∷ calc_burstiness_index s
          ∷ [])
