-- ===== src/FeatureStats/Bounds.antt =====
-- What the online statistics keep: the number of values and their range.
use ti_features.Prelude.{◌+◌, ◌^◌, ◌<◌, ◌≡◌, refl, false, List, [], ◌∷◌, length, arith}
use ti_features.Double.{Double, IsOrdered}
use ti_features.FeatureStats.{RunningStats, running_stats_init, running_stats_update}

module _ {D : Type 0} ⦃d : Double D⦄ where
  -- The statistics after a run of values.
  unfoldable pub update_all : RunningStats D → List D → RunningStats D
  update_all s [] = s
  update_all s (x ∷ xs) = update_all (running_stats_update s x) xs

  abbrev pub AllIn : List D → D → D → Type 0
  AllIn [] low high = Unit {0}
  AllIn (x ∷ xs) low high = (d.lt x low ≡ false) × (d.lt high x ≡ false) × AllIn xs low high

  module _ (laws : IsOrdered D) where
    open laws use {IsNumber, of_ℕ-IsNumber, negate-IsNumber, lt_irrefl, lt_asymm, ge_trans}

    abbrev pub AllNumbers : List D → Type 0
    AllNumbers [] = Unit {0}
    AllNumbers (x ∷ xs) = IsNumber x × AllNumbers xs

    pub record HasRange (s : RunningStats D) : Type 0 where
      pub low : IsNumber s.min_val
      pub high : IsNumber s.max_val

    update-HasRange :
        (s : RunningStats D) (x : D) → HasRange s → IsNumber x → HasRange (running_stats_update s x)
    unfolding running_stats_update
    update-HasRange s x v n = ground arith

    update_wider :
        (s : RunningStats D) (x : D)
        → let new = running_stats_update s x in
          (d.lt x new.min_val ≡ false)
          × (d.lt new.max_val x ≡ false)
          × (d.lt s.min_val new.min_val ≡ false)
          × (d.lt new.max_val s.max_val ≡ false)
          × (s.count + 1 < 2 ^ 64 → new.count ≡ s.count + 1)
    unfolding running_stats_update
    update_wider s x = ground (
      arith,
      lt_irrefl x,
      lt_irrefl s.min_val,
      lt_irrefl s.max_val,
      lt_asymm x s.min_val,
      lt_asymm s.max_val x,
    )

    update_all-range :
        (s : RunningStats D) (xs : List D)
        → HasRange s
        → AllNumbers xs
        → let new = update_all s xs in
          HasRange new
          × (d.lt s.min_val new.min_val ≡ false)
          × (d.lt new.max_val s.max_val ≡ false)
          × AllIn xs new.min_val new.max_val
    unfolding update_all
    update_all-range s [] v n = (v, lt_irrefl s.min_val, lt_irrefl s.max_val, tt)
    update_all-range s (x ∷ xs) v (n, ns) =
        let one = update-HasRange s x v n in
        let (low, high, down, up, _) = update_wider s x in
        let (range, lower, upper, all) = update_all-range (running_stats_update s x) xs one ns in
        (
          range,
          ge_trans _ _ _ v.low one.low range.low down lower,
          ge_trans _ _ _ range.high one.high v.high upper up,
          (
            ge_trans _ _ _ n one.low range.low low lower,
            ge_trans _ _ _ range.high one.high n upper high,
            all,
          ),
        )

    update_all-count :
        (s : RunningStats D) (xs : List D)
        → s.count + length xs < 2 ^ 64
        → (update_all s xs).count ≡ s.count + length xs
    unfolding update_all
    update_all-count s [] h = omega arith
    update_all-count s (x ∷ xs) h =
        let (_, _, _, _, one) = update_wider s x in
        let next = one (omega arith) in
        omega (arith, update_all-count (running_stats_update s x) xs (omega arith))

    init-HasRange : HasRange running_stats_init × ((running_stats_init {D = D}).count ≡ 0)
    unfolding running_stats_init
    init-HasRange =
        (record { low = of_ℕ-IsNumber _; high = negate-IsNumber _ (of_ℕ-IsNumber _) }, refl)

    -- After the updates for a run of fewer than 2 ^ 64 numbers the statistics count them all, and
    -- no value lies below the minimum or above the maximum.
    pub update_all_lem :
        (xs : List D)
        → AllNumbers xs
        → length xs < 2 ^ 64
        → let s = update_all running_stats_init xs in
          (s.count ≡ length xs) × AllIn xs s.min_val s.max_val
    update_all_lem xs n h =
        let (range, none_yet) = init-HasRange in
        let (_, _, _, all) = update_all-range running_stats_init xs range n in
        (omega (arith, update_all-count running_stats_init xs (omega arith)), all)
