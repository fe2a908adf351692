-- ===== src/FeatureStats/Bigram.antt =====
-- The counts of neighbouring size classes.
use ti_features.Prelude.{
  ℕ, zero, suc, ◌+◌, ◌*◌, ◌-◌, ◌^◌, ◌≤◌, ◌<◌, ◌≡◌, refl, List, [], ◌∷◌, length, set, get_or, arith,
  length-set, add32_small, get_or-set_self, get_or-set_ne, if◌then◌else◌, ◌==◌,
}
use ti_features.FeatureStats.{
  SizeClass, small, medium, large, class_index, BigramStats, bigram_init, bigram_update,
}

unfoldable pub sum : List ℕ → ℕ
sum [] = 0
sum (x ∷ xs) = x + sum xs

sum-set : (xs : List ℕ) (i v : ℕ) → i < length xs → sum (set xs i v) + get_or xs i 0 ≡ sum xs + v
unfolding sum
sum-set [] i v h = absurd (omega arith)
sum-set (x ∷ xs) zero v h = omega arith
sum-set (x ∷ xs) (suc i) v h = omega (arith, sum-set xs i v (omega arith))

get_or-le-sum : (xs : List ℕ) (i : ℕ) → get_or xs i 0 ≤ sum xs
unfolding sum
get_or-le-sum [] i = omega arith
get_or-le-sum (x ∷ xs) zero = omega arith
get_or-le-sum (x ∷ xs) (suc i) = omega (arith, get_or-le-sum xs i)

pub record IsCounted (b : BigramStats) : Type 0 where
  pub nine : length b.counts ≡ 9
  pub total_eq : b.total ≡ sum b.counts

abbrev pub pair_count : BigramStats → SizeClass → SizeClass → ℕ
pair_count b p c = get_or b.counts (class_index p * 3 + class_index c) 0

-- `bigram_init` counts nothing.
pub bigram_init-IsCounted : IsCounted bigram_init
unfolding bigram_init sum
bigram_init-IsCounted = record { nine = refl; total_eq = refl }

class_index-lt : (c : SizeClass) → class_index c < 3
class_index-lt small = omega arith
class_index-lt medium = omega arith
class_index-lt large = omega arith

-- `bigram_update` counts its pair of classes once and no other pair, and the total remains the sum
-- of the counts, as long as fewer than 2 ^ 32 - 1 pairs were counted.
bigram_update_lem :
    (b : BigramStats) (prev curr p c : SizeClass)
    → IsCounted b
    → b.total < 2 ^ 32 - 1
    → IsCounted (bigram_update b prev curr)
      × ((bigram_update b prev curr).total ≡ b.total + 1)
      × (pair_count (bigram_update b prev curr) p c
          ≡ pair_count b p c
            + (if class_index p == class_index prev
                then (if class_index c == class_index curr then 1 else 0)
                else 0))
unfolding bigram_update
bigram_update_lem b prev curr p c v h =
    let i = class_index prev * 3 + class_index curr in
    let j = class_index p * 3 + class_index c in
    let seen = get_or b.counts i 0 in
    ground (
      arith,
      class_index-lt prev,
      class_index-lt curr,
      class_index-lt p,
      class_index-lt c,
      length-set b.counts i (seen + 1),
      sum-set b.counts i (seen + 1),
      get_or-le-sum b.counts i,
      get_or-set_self b.counts i (seen + 1) 0,
      get_or-set_ne b.counts i j (seen + 1) 0,
      add32_small seen 1,
      add32_small b.total 1,
    )
