-- ===== src/FeatureStats.antt =====
-- src/feature_stats.h: the online statistics of a value, in all and by direction, and the counts of
-- the size classes of neighbouring packets. (The histogram of that file is used nowhere.)
pub mod Bounds
pub mod Bigram
pub mod Derived
use ti_features.Prelude.{
  ℕ, ◌*◌, ◌+◌, ◌-◌, ◌^◌, Bool, true, false, List, add32, add64, ltb, leb, ◌==◌, if◌then◌else◌,
  replicate, set, get_or, mul64, List, [], ◌∷◌,
}
use ti_features.Double.{Double}
use ti_features.Config.{Config}

-- `running_stats_t`
pub record RunningStats (D : Type 0) : Type 0 where
  pub mean : D
  pub m2 : D
  pub m3 : D
  pub m4 : D
  pub min_val : D
  pub max_val : D
  pub count : ℕ

-- DIR_UNKNOWN, DIR_FWD and DIR_BWD; any other value is treated as unknown.
pub data Direction : Type 0 where
  unknown fwd bwd : Direction

abbrev pub is_fwd : Direction → Bool
is_fwd fwd = true
is_fwd _ = false

abbrev pub is_bwd : Direction → Bool
is_bwd bwd = true
is_bwd _ = false

-- `directional_running_stats_t`
pub record DirectionalStats (D : Type 0) : Type 0 where
  pub fwd_stats : RunningStats D
  pub bwd_stats : RunningStats D

module _ {D : Type 0} ⦃d : Double D⦄ where
  open d use {of_ℕ, negate, add, sub, mul, div, sqrt, lt}

  -- `running_stats_init`
  unfoldable pub running_stats_init : RunningStats D
  running_stats_init = record {
    mean = of_ℕ 0;
    m2 = of_ℕ 0;
    m3 = of_ℕ 0;
    m4 = of_ℕ 0;
    min_val = of_ℕ (10 ^ 18);
    max_val = negate (of_ℕ (10 ^ 18));
    count = 0;
  }

  -- `running_stats_update`
  unfoldable pub running_stats_update : RunningStats D → D → RunningStats D
  running_stats_update s x =
      let n = add64 s.count 1 in
      let delta = sub x s.mean in
      let mean = add s.mean (div delta (of_ℕ n)) in
      let delta2 = sub x mean in
      let delta3 = mul delta delta2 in
      record {
        mean = mean;
        m2 = add s.m2 (mul delta delta2);
        m3 =
            add s.m3 (
              sub (mul delta3 delta2)
                (div (mul (mul (mul (of_ℕ 3) delta2) delta2) delta) (of_ℕ n)));
        m4 = add s.m4 (
            add
              (sub (mul (mul delta3 delta2) delta2)
                (div (mul (mul (mul (of_ℕ 4) delta3) delta2) delta) (of_ℕ n)))
              (div (mul (mul (mul (of_ℕ 6) delta2) delta2) delta2) (of_ℕ (mul64 n n))));
        min_val = if lt x s.min_val then x else s.min_val;
        max_val = if lt s.max_val x then x else s.max_val;
        count = n;
      }

  -- `running_stats_variance`
  pub running_stats_variance : RunningStats D → D
  running_stats_variance s = if ltb 1 s.count then div s.m2 (of_ℕ (s.count - 1)) else of_ℕ 0

  -- `running_stats_std`
  pub running_stats_std : RunningStats D → D
  running_stats_std s = sqrt (running_stats_variance s)

  -- `directional_stats_update`
  unfoldable pub directional_stats_update : DirectionalStats D → Direction → D → DirectionalStats D
  unfolding running_stats_update
  directional_stats_update s fwd x = record s { fwd_stats = running_stats_update s.fwd_stats x }
  directional_stats_update s bwd x = record s { bwd_stats = running_stats_update s.bwd_stats x }
  directional_stats_update s unknown x = s

-- `pkt_size_class`
pub data SizeClass : Type 0 where
  small medium large : SizeClass

-- The enumeration's numbers.
abbrev pub class_index : SizeClass → ℕ
class_index small = 0
class_index medium = 1
class_index large = 2

-- `get_pkt_size_class`
unfoldable pub get_pkt_size_class : Config → ℕ → SizeClass
get_pkt_size_class cfg len =
    if leb len cfg.small_pkt_threshold
    then small
    else if leb len cfg.large_pkt_threshold
    then medium
    else large

-- `bigram_stats_t`
pub record BigramStats : Type 0 where
  pub counts : List ℕ
  pub total : ℕ

-- `bigram_init`
unfoldable pub bigram_init : BigramStats
bigram_init = record { counts = replicate 9 0; total = 0 }

-- `bigram_update`
unfoldable pub bigram_update : BigramStats → SizeClass → SizeClass → BigramStats
bigram_update b prev curr =
    let idx = class_index prev * 3 + class_index curr in
    if ltb idx 9
    then record {
      counts = set b.counts idx (add32 (get_or b.counts idx 0) 1);
      total = add32 b.total 1;
    }
    else b
