-- ===== src/Basic.antt =====
-- src/calc_basic.cpp, the functions called for each packet: the counters of packets and bytes, and
-- the statistics and arrays of packet lengths.
pub mod Sums
pub mod Stored
use ti_features.Prelude.{ℕ, Bool, true, ◌&&◌, add32, add64, ltb, leb, is_set, if◌then◌else◌}
use ti_features.Double.{Double}
use ti_features.Config.{Config}
use ti_features.CircularBuffer.{CircularBuffer, push}
use ti_features.MemoryPool.{zeroed_ℕ}
use ti_features.BoundedArray.{BoundedArray, append}
use ti_features.FeatureStats.{
  RunningStats, DirectionalStats, Direction, unknown, fwd, bwd, running_stats_update,
  directional_stats_update,
}

-- The counters of `flow_feature_state_t` that `calc_basic_counters` updates.
pub record Counters (D : Type 0) : Type 0 where
  pub total_packets : ℕ
  pub fwd_packets : ℕ
  pub bwd_packets : ℕ
  pub total_bytes : ℕ
  pub fwd_bytes : ℕ
  pub bwd_bytes : ℕ
  pub fwd_payload_bytes : ℕ
  pub bwd_payload_bytes : ℕ
  pub l2_packets : ℕ
  pub fwd_payload_stats : RunningStats D
  pub bwd_payload_stats : RunningStats D
  pub fwd_payload_sizes : BoundedArray ℕ
  pub bwd_payload_sizes : BoundedArray ℕ

-- The fields that `calc_packet_length_stats` updates. `first_n_is_set` is whether the pointer
-- `first_n_lens` is not null.
pub record Lengths (D : Type 0) : Type 0 where
  pub small_pkt_count : ℕ
  pub large_pkt_count : ℕ
  pub pkt_len_stats : RunningStats D
  pub fwd_pkt_len : DirectionalStats D
  pub bwd_pkt_len : DirectionalStats D
  pub pkt_len_seq : CircularBuffer ℕ
  pub first_n_is_set : Bool
  pub first_n_lens : BoundedArray ℕ
  pub fwd_pkt_lens : BoundedArray ℕ
  pub bwd_pkt_lens : BoundedArray ℕ

module _ {D : Type 0} ⦃d : Double D⦄ where
  -- The part of `calc_basic_counters` on the two directions.
  unfoldable pub count_direction : Config → Counters D → Direction → ℕ → ℕ → Counters D
  count_direction cfg s fwd pkt_len payload_len =
      let counted = record s {
        fwd_packets = add64 s.fwd_packets 1;
        fwd_bytes = add64 s.fwd_bytes pkt_len;
        fwd_payload_bytes = add64 s.fwd_payload_bytes payload_len;
      } in
      if is_set cfg.need_payload_dir && ltb 0 payload_len
      then record counted {
        fwd_payload_stats = running_stats_update s.fwd_payload_stats (d.of_ℕ payload_len);
        fwd_payload_sizes = append s.fwd_payload_sizes payload_len;
      }
      else counted
  count_direction cfg s bwd pkt_len payload_len =
      let counted = record s {
        bwd_packets = add64 s.bwd_packets 1;
        bwd_bytes = add64 s.bwd_bytes pkt_len;
        bwd_payload_bytes = add64 s.bwd_payload_bytes payload_len;
      } in
      if is_set cfg.need_payload_dir && ltb 0 payload_len
      then record counted {
        bwd_payload_stats = running_stats_update s.bwd_payload_stats (d.of_ℕ payload_len);
        bwd_payload_sizes = append s.bwd_payload_sizes payload_len;
      }
      else counted
  count_direction cfg s unknown pkt_len payload_len = s

  -- `calc_basic_counters`
  unfoldable pub calc_basic_counters : Config → Counters D → Direction → ℕ → ℕ → Counters D
  calc_basic_counters cfg s direction pkt_len payload_len =
      let counted = record s {
        total_packets = add64 s.total_packets 1;
        l2_packets = add64 s.l2_packets 1;
        total_bytes = add64 s.total_bytes pkt_len;
      } in
      count_direction cfg counted direction pkt_len payload_len

  -- The online statistics of the packet length and the counts of small and of large packets.
  unfoldable pub count_sizes : Config → Lengths D → ℕ → Lengths D
  count_sizes cfg s pkt_len =
      if is_set cfg.enable_basic_pkt_length
      then record s {
        pkt_len_stats = running_stats_update s.pkt_len_stats (d.of_ℕ pkt_len);
        small_pkt_count =
            if leb pkt_len cfg.small_pkt_threshold
            then add32 s.small_pkt_count 1
            else s.small_pkt_count;
        large_pkt_count =
            if leb cfg.large_pkt_threshold pkt_len
            then add32 s.large_pkt_count 1
            else s.large_pkt_count;
      }
      else s

  -- Both statistics take every packet of either direction.
  unfoldable pub update_directional : Config → Lengths D → Direction → ℕ → Lengths D
  update_directional cfg s direction pkt_len =
      if is_set cfg.need_fwd_bwd_pkt_lens
      then record s {
        fwd_pkt_len = directional_stats_update s.fwd_pkt_len direction (d.of_ℕ pkt_len);
        bwd_pkt_len = directional_stats_update s.bwd_pkt_len direction (d.of_ℕ pkt_len);
      }
      else s

  -- The arrays of packet lengths by direction.
  unfoldable pub store_direction : Lengths D → Direction → ℕ → Lengths D
  store_direction s fwd pkt_len = record s { fwd_pkt_lens = append s.fwd_pkt_lens pkt_len }
  store_direction s bwd pkt_len = record s { bwd_pkt_lens = append s.bwd_pkt_lens pkt_len }
  store_direction s unknown pkt_len = s

  -- `calc_packet_length_stats`
  unfoldable pub calc_packet_length_stats : Config → Lengths D → Direction → ℕ → Lengths D
  calc_packet_length_stats cfg s direction pkt_len =
      let s1 = count_sizes cfg s pkt_len in
      let s2 = update_directional cfg s1 direction pkt_len in
      let s3 =
        if is_set cfg.need_pkt_len_seq
        then record s2 { pkt_len_seq = (push s2.pkt_len_seq pkt_len).1 }
        else s2 in
      let s4 =
        if is_set cfg.need_first_n && s3.first_n_is_set
        then record s3 { first_n_lens = append s3.first_n_lens pkt_len }
        else s3 in
      if is_set cfg.need_fwd_bwd_pkt_lens then store_direction s4 direction pkt_len else s4
