-- ===== src/Behavior.antt =====
-- src/calc_behavior.cpp: how the behaviour of a flow is classified.
pub mod Derived
pub mod Traffic
pub mod Peak
use Prim.Native.String.{String}
use ti_features.Prelude.{
  ℕ, ◌+◌, ◌-◌, ◌*◌, Bool, ◌&&◌, List, [], ◌∷◌, ◌++◌, ltb, leb, ◌==◌, sub64, sub32, if◌then◌else◌,
  is_set, Option, none, some,
}
use ti_features.Double.{Double}
use ti_features.Config.{Config}

module _ {D : Type 0} ⦃d : Double D⦄ where
  -- `is_interactive_session`
  unfoldable pub is_interactive_session : Config → D → Bool
  is_interactive_session cfg delay_ms = d.lt delay_ms (d.of_ℕ cfg.interactive_threshold_ms)

  -- `is_bulk_transfer`
  unfoldable pub is_bulk_transfer : Config → D → Bool
  is_bulk_transfer cfg throughput = d.lt (d.of_ℕ cfg.bulk_transfer_kbps) throughput

  -- `is_short_connection`
  unfoldable pub is_short_connection : Config → D → Bool
  is_short_connection cfg duration_s = d.lt duration_s (d.of_ℕ cfg.short_conn_threshold_s)

  -- `calc_flow_asymmetry_ratio`; `infinity` is the macro INFINITY.
  unfoldable pub calc_flow_asymmetry_ratio : D → ℕ → ℕ → D
  calc_flow_asymmetry_ratio infinity fwd_bytes bwd_bytes =
      if bwd_bytes == 0
      then (if fwd_bytes == 0 then d.of_ℕ 1 else infinity)
      else d.div (d.of_ℕ fwd_bytes) (d.of_ℕ bwd_bytes)

-- The texts of `get_flow_pattern`.
pub data FlowPattern : Type 0 where
  download_heavy upload_heavy balanced asymmetric : FlowPattern

module _ {D : Type 0} ⦃d : Double D⦄ where
  -- A decimal constant, such as 1.25 by 125 and 100.
  abbrev pub decimal : ℕ → ℕ → D
  decimal n m = d.div (d.of_ℕ n) (d.of_ℕ m)

  -- `get_flow_pattern`
  unfoldable pub get_flow_pattern : D → FlowPattern
  get_flow_pattern ratio =
      if d.lt ratio (decimal 1 2)
      then download_heavy
      else if d.lt (d.of_ℕ 2) ratio
      then upload_heavy
      else if d.le (decimal 8 10) ratio && d.le ratio (decimal 125 100)
      then balanced
      else asymmetric

  -- `has_regular_intervals`
  unfoldable pub has_regular_intervals : D → Bool
  has_regular_intervals cv = d.lt cv (decimal 1 2)
