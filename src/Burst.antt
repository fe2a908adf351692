-- ===== src/Burst.antt =====
-- src/calc_burst.cpp, `calc_burst_update`: packets that follow one another closely form a burst,
-- and a burst of at least two packets is recorded when the next one starts.
pub mod Records
pub mod Derived
use ti_features.Prelude.{ℕ, ◌+◌, ◌-◌, Bool, List, add32, sub64, ltb, leb, if◌then◌else◌, set}
use ti_features.Config.{Config}

-- The burst fields of `flow_feature_state_t`, with the elements of its arrays in the pool.
pub record Burst : Type 0 where
  pub burst_start_us : ℕ
  pub burst_byte_count : ℕ
  pub burst_pkt_count : ℕ
  pub burst_count : ℕ
  pub burst_sizes : List ℕ
  pub burst_durations : List ℕ
  pub burst_intervals : List ℕ
  pub burst_packet_counts : List ℕ

-- The end of a burst: it is recorded if it has two packets and the arrays have room.
unfoldable pub record_burst : ℕ → Burst → ℕ → ℕ → Burst
record_burst capacity s iat_us ts_us =
    if ltb 1 s.burst_pkt_count
    then (if ltb s.burst_count capacity
        then record s {
          burst_sizes = set s.burst_sizes s.burst_count s.burst_byte_count;
          burst_durations = set s.burst_durations s.burst_count (sub64 ts_us s.burst_start_us);
          burst_packet_counts = set s.burst_packet_counts s.burst_count s.burst_pkt_count;
          burst_intervals =
              if ltb 0 s.burst_count
              then set s.burst_intervals (s.burst_count - 1) iat_us
              else s.burst_intervals;
          burst_count = add32 s.burst_count 1;
        }
        else s)
    else s

-- `calc_burst_update`; the capacity is `actual_seq_len` of the pool.
unfoldable pub calc_burst_update : Config → ℕ → Burst → ℕ → ℕ → ℕ → Burst
unfolding record_burst
calc_burst_update cfg capacity s pkt_len iat_us ts_us =
    if leb iat_us cfg.burst_iat_threshold_us
    then record s {
      burst_byte_count = add32 s.burst_byte_count pkt_len;
      burst_pkt_count = add32 s.burst_pkt_count 1;
    }
    else record (record_burst capacity s iat_us ts_us) {
      burst_start_us = ts_us;
      burst_byte_count = pkt_len;
      burst_pkt_count = 1;
    }
