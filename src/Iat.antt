-- ===== src/Iat.antt =====
-- src/calc_iat.cpp, the functions called for each packet: times between packets, in all and by
-- direction, active and idle time, and response delays.
pub mod Times
pub mod Delays
pub mod Region
pub mod Bins
pub mod Features
pub mod Derived
pub mod Responses
use ti_features.Prelude.{ℕ, Bool, add64, sub64, leb, ltb, ◌==◌, ◌&&◌, is_set, if◌then◌else◌}
use ti_features.Double.{Double, zeroed_double}
use ti_features.Config.{Config}
use ti_features.MemoryPool.{zeroed_ℕ}
use ti_features.CircularBuffer.{CircularBuffer, push}
use ti_features.BoundedArray.{BoundedArray, append}
use ti_features.FeatureStats.{
  RunningStats, DirectionalStats, Direction, unknown, fwd, bwd, running_stats_update,
}

-- The fields of `flow_feature_state_t` for arrival times and response delays.
pub record Iat (D : Type 0) : Type 0 where
  pub last_arrival_us : ℕ
  pub last_fwd_us : ℕ
  pub last_bwd_us : ℕ
  pub iat_stats : RunningStats D
  pub fwd_iat : DirectionalStats D
  pub bwd_iat : DirectionalStats D
  pub fwd_iats : BoundedArray ℕ
  pub bwd_iats : BoundedArray ℕ
  pub iat_seq : CircularBuffer ℕ
  pub active_time_us : ℕ
  pub idle_time_us : ℕ
  pub last_req_ts : ℕ
  pub resp_delays : BoundedArray D

module _ {D : Type 0} ⦃d : Double D⦄ where
  -- The part of `calc_iat_update` on the two directions.
  unfoldable pub update_directions : Iat D → Direction → ℕ → Iat D
  update_directions s fwd ts_us =
      let iat = sub64 ts_us s.last_fwd_us in
      if ltb 0 s.last_fwd_us
      then record s {
        fwd_iat = record (s.fwd_iat) {
          fwd_stats = running_stats_update s.fwd_iat.fwd_stats (d.of_ℕ iat);
        };
        fwd_iats = append s.fwd_iats iat;
      }
      else s
  update_directions s bwd ts_us =
      let iat = sub64 ts_us s.last_bwd_us in
      if ltb 0 s.last_bwd_us
      then record s {
        bwd_iat = record (s.bwd_iat) {
          bwd_stats = running_stats_update s.bwd_iat.bwd_stats (d.of_ℕ iat);
        };
        bwd_iats = append s.bwd_iats iat;
      }
      else s
  update_directions s unknown ts_us = s

  -- `calc_active_idle_time`
  unfoldable pub calc_active_idle_time : Config → Iat D → ℕ → Iat D
  calc_active_idle_time cfg s iat_us =
      if leb iat_us cfg.active_iat_threshold_us
      then record s { active_time_us = add64 s.active_time_us iat_us }
      else record s { idle_time_us = add64 s.idle_time_us iat_us }

  -- The times that `calc_iat_update` stores at its end.
  unfoldable pub store_times : Iat D → Direction → ℕ → Iat D
  store_times s fwd ts_us = record s { last_fwd_us = ts_us; last_arrival_us = ts_us }
  store_times s bwd ts_us = record s { last_bwd_us = ts_us; last_arrival_us = ts_us }
  store_times s unknown ts_us = record s { last_arrival_us = ts_us }

  -- `calc_iat_update` for a packet that is not the first.
  unfoldable pub update_later : Config → Iat D → ℕ → Direction → Iat D
  update_later cfg s ts_us direction =
      let iat = sub64 ts_us s.last_arrival_us in
      let s1 =
        if is_set cfg.enable_iat_stats
        then record s { iat_stats = running_stats_update s.iat_stats (d.of_ℕ iat) }
        else s in
      let s2 = if is_set cfg.need_fwd_bwd_iats then update_directions s1 direction ts_us else s1 in
      let s3 =
        if is_set cfg.need_iat_seq then record s2 { iat_seq = (push s2.iat_seq iat).1 } else s2 in
      let s4 = if is_set cfg.enable_iat_active then calc_active_idle_time cfg s3 iat else s3 in
      store_times s4 direction ts_us

  -- `calc_iat_update`
  unfoldable pub calc_iat_update : Config → Iat D → ℕ → Direction → Iat D
  calc_iat_update cfg s ts_us direction =
      if s.last_arrival_us == 0
      then record s { last_arrival_us = ts_us }
      else update_later cfg s ts_us direction

  -- `calc_response_delay`; a delay is stored in milliseconds.
  unfoldable pub calc_response_delay : Iat D → ℕ → Direction → Iat D
  calc_response_delay s ts_us fwd = record s { last_req_ts = ts_us }
  calc_response_delay s ts_us bwd =
      if ltb 0 s.last_req_ts
      then record s {
        resp_delays =
            append s.resp_delays (d.div (d.of_ℕ (sub64 ts_us s.last_req_ts)) (d.of_ℕ 1000));
        last_req_ts = 0;
      }
      else s
  calc_response_delay s ts_us unknown = s
