-- ===== src/Behavior/Traffic.antt =====
-- src/calc_behavior.cpp, `calc_derived_behavior`: the entropy of the bytes over the windows, and
-- all parts of the function.
use Prim.Native.String.{String}
use ti_features.Prelude.{
  ℕ, Bool, ◌&&◌, List, [], ◌∷◌, ◌++◌, length, take, ltb, if◌then◌else◌, is_set,
}
use ti_features.Double.{Double}
use ti_features.Config.{Config}
use ti_features.Flow.{FlowState}
use ti_features.Window.{Window}
use ti_features.Window.Derived.{busy, sum_counts}
use ti_features.Output.{Fields, label}
use ti_features.Behavior.Derived.{basic_fields, pattern_fields, rate_fields}

abbrev entropy_keys : List String
entropy_keys = "traffic_entropy_ts_mean" ∷ "traffic_entropy_ts_peak" ∷ []

module _ {D : Type 0} ⦃d : Double D⦄ where
  -- The sum and the largest of the terms `-p * log2(p)` of the windows that have bytes.
  unfoldable pub entropy_terms : D → D → D → List ℕ → D × D
  entropy_terms total ent_sum ent_peak [] = (ent_sum, ent_peak)
  entropy_terms total ent_sum ent_peak (c ∷ counts) =
      let p = d.div (d.of_ℕ c) total in
      let e = d.mul (d.negate p) (d.log2 p) in
      entropy_terms total (d.add ent_sum e) (if d.lt ent_peak e then e else ent_peak) counts

  -- The block of the entropy.
  unfoldable pub entropy_fields : Window → Fields D
  unfolding entropy_terms busy sum_counts
  entropy_fields s =
      let counts = busy (take s.num_windows s.window_byte_counts) in
      let total : D = sum_counts (d.of_ℕ 0) counts in
      let (ent_sum, ent_peak) = entropy_terms total (d.of_ℕ 0) (d.of_ℕ 0) counts in
      if ltb 0 (length counts) && d.lt (d.of_ℕ 0) total
      then label entropy_keys (d.div ent_sum (d.of_ℕ (length counts)) ∷ ent_peak ∷ [])
      else label entropy_keys (d.of_ℕ 0 ∷ d.of_ℕ 0 ∷ [])

  -- `calc_derived_behavior`, by whether there is memory for the bitrates and their sorted copy.
  unfoldable pub calc_derived_behavior :
      Config → (List D → List D) → Bool → Bool → D → FlowState D → Fields D
  unfolding basic_fields pattern_fields rate_fields entropy_fields
  calc_derived_behavior cfg qsort has_values has_sorted infinity f =
      (if is_set cfg.enable_behavior_basic then basic_fields cfg f else [])
      ++ ((if is_set cfg.enable_behavior_pattern then pattern_fields infinity f else [])
          ++ (if is_set cfg.enable_behavior_bitrate
              then rate_fields qsort has_values has_sorted f.window ++ entropy_fields f.window
              else []))
