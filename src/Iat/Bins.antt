-- ===== src/Iat/Bins.antt =====
-- The bins of the entropy of times between packets.
use ti_features.Prelude.{
  ℕ, zero, suc, ◌+◌, ◌^◌, ◌<◌, ◌≡◌, ◌∙◌, List, [], ◌∷◌, length, total, total-replicate, length-set,
  length-replicate, get_or, set, replicate, add32, arith,
}
use ti_features.Double.{Double}
use ti_features.Iat.Features.{bin_of, fill_bins}

total-add :
    (xs : List ℕ) (i : ℕ)
    → i < length xs
    → total xs + 1 < 2 ^ 32
    → total (set xs i (add32 (get_or xs i 0) 1)) ≡ total xs + 1
total-add [] i l h = absurd (omega arith)
total-add (x ∷ xs) zero l h = omega arith
total-add (x ∷ xs) (suc i) l h = omega (arith, total-add xs i (omega arith) (omega arith))

module _ {D : Type 0} ⦃d : Double D⦄ where
  -- Whatever the arithmetic of `double` gives, the bin is one of the 32.
  bin_of-lt : (low span x : D) → bin_of low span x < 32
  unfolding bin_of
  bin_of-lt low span x = ground arith

  total-fill_bins :
      (low span : D) (bins : List ℕ) (xs : List D)
      → length bins ≡ 32
      → total bins + length xs < 2 ^ 32
      → (total (fill_bins low span bins xs) ≡ total bins + length xs)
        × (length (fill_bins low span bins xs) ≡ 32)
  unfolding fill_bins
  total-fill_bins low span bins [] len h = (omega arith, len)
  total-fill_bins low span bins (x ∷ xs) len h =
      let i = bin_of low span x in
      let v = add32 (get_or bins i 0) 1 in
      let within = bin_of-lt low span x in
      let one = total-add bins i (omega arith) (omega arith) in
      let (rest, same) =
        total-fill_bins low span (set bins i v) xs (length-set bins i v ∙ len) (omega arith) in
      (omega arith, same)

  -- For fewer than 2 ^ 32 values and whatever the arithmetic of `double` gives, each value is
  -- counted in one of the 32 bins of the entropy, and no count is made outside of them.
  fill_bins-total :
      (low span : D) (xs : List D)
      → length xs < 2 ^ 32
      → (total (fill_bins low span (replicate 32 0) xs) ≡ length xs)
        × (length (fill_bins low span (replicate 32 0) xs) ≡ 32)
  fill_bins-total low span xs h =
      let zeros = total-replicate 32 in
      let (count, same) =
        total-fill_bins low span (replicate 32 0) xs (length-replicate {A = ℕ} 32 0)
          (omega arith) in
      (omega arith, same)
