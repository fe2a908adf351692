-- ===== src/FeatureStats/Derived.antt =====
-- src/feature_stats.h: what is read off the online statistics at the end of a flow.
use ti_features.Prelude.{◌-◌, ltb, ◌||◌, if◌then◌else◌}
use ti_features.Double.{Double}
use ti_features.FeatureStats.{RunningStats}

module _ {D : Type 0} ⦃d : Double D⦄ where
  -- `running_stats_variance`
  unfoldable pub running_stats_variance : RunningStats D → D
  running_stats_variance s = if ltb 1 s.count then d.div s.m2 (d.of_ℕ (s.count - 1)) else d.of_ℕ 0

  -- `running_stats_std`
  unfoldable pub running_stats_std : RunningStats D → D
  unfolding running_stats_variance
  running_stats_std s = d.sqrt (running_stats_variance s)

  -- `running_stats_cv`
  unfoldable pub running_stats_cv : RunningStats D → D
  unfolding running_stats_std
  running_stats_cv s =
      if d.eq s.mean (d.of_ℕ 0) then d.of_ℕ 0 else d.div (running_stats_std s) s.mean

  -- `running_stats_skew`
  unfoldable pub running_stats_skew : RunningStats D → D
  unfolding running_stats_variance
  running_stats_skew s =
      let var = running_stats_variance s in
      if ltb s.count 3 || d.eq var (d.of_ℕ 0)
      then d.of_ℕ 0
      else d.div (d.div s.m3 (d.of_ℕ s.count)) (d.pow var (d.div (d.of_ℕ 3) (d.of_ℕ 2)))

  -- `running_stats_kurt`
  unfoldable pub running_stats_kurt : RunningStats D → D
  unfolding running_stats_variance
  running_stats_kurt s =
      let var = running_stats_variance s in
      if ltb s.count 4 || d.eq var (d.of_ℕ 0)
      then d.of_ℕ 0
      else d.sub (d.div (d.div s.m4 (d.of_ℕ s.count)) (d.mul var var)) (d.of_ℕ 3)
