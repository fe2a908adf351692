-- ===== src/Fft.antt =====
-- src/utils/fft.cpp: the sizes, the bins with the largest magnitudes and the peak of the power.
pub mod Sizes
pub mod TopBins
pub mod Compute
use ti_features.Prelude.{
  ℕ, zero, suc, ◌+◌, ◌-◌, ◌*◌, ◌/◌, ◌^◌, Bool, true, false, ◌&&◌, ◌||◌, Option, none, some, List,
  [], ◌∷◌, length, get_or, set, map, tabulate, replicate, drop, ltb, leb, ◌==◌, if◌then◌else◌,
}
use ti_features.Double.{Double, zeroed_double}

-- The loop that rounds the size up to a power of two, on fuel; `none` is the return of -1 where the
-- size would pass INT_MAX.
unfoldable pub round_up : ℕ → ℕ → ℕ → Option ℕ
round_up zero n fft_size = none
round_up (suc fuel) n fft_size =
    let rest = round_up fuel n (fft_size * 2) in
    if ltb fft_size n then (if ltb 1073741823 fft_size then none else rest) else some fft_size

-- The size of the transform: an int has 31 bits, so 32 rounds are enough.
unfoldable pub fft_size_of : ℕ → Option ℕ
unfolding round_up
fft_size_of n = round_up 32 n 1

-- One entry of `top_k_indices` and `top_k_mags`; `none` is the index -1.
pub record Bin (D : Type 0) : Type 0 where
  pub index : Option ℕ
  pub mag : D

-- The shift by one place, which drops the last entry.
unfoldable pub but_last : {A : Type 0} → List A → List A
but_last [] = []
but_last (x ∷ []) = []
but_last (x ∷ y ∷ xs) = x ∷ but_last (y ∷ xs)

-- `fft_result_t` after a transform.
pub record FftResult (D : Type 0) : Type 0 where
  pub n : ℕ
  pub magnitudes : List D
  pub frequencies : List D
  pub mag_mean : D
  pub mag_std : D
  pub mag_min : D
  pub mag_max : D
  pub mag_median : D
  pub mag_q1 : D
  pub mag_q3 : D
  pub mag_skew : D
  pub mag_kurt : D

-- Which allocations succeed: the input, the output of the transform, the arrays of the result, and
-- the copy for sorting.
pub record Memory : Type 0 where
  pub has_input : Bool
  pub has_output : Bool
  pub has_result : Bool
  pub has_sorted : Bool

-- cos, sin and qsort of the C library, and the constant PI.
pub record Library (D : Type 0) : Type 0 where
  pub cos : D → D
  pub sin : D → D
  pub pi : D
  pub qsort : List D → List D

module _ {D : Type 0} ⦃d : Double D⦄ where
  -- The loops of `fft_get_top_k` over `j` and `l`: a bin goes before the first that is smaller.
  unfoldable pub insert_bin : Bin D → List (Bin D) → List (Bin D)
  unfolding but_last
  insert_bin b [] = []
  insert_bin b (t ∷ top) = if d.lt t.mag b.mag then b ∷ but_last (t ∷ top) else t ∷ insert_bin b top

  -- The loop over the magnitudes from bin `i` on.
  unfoldable pub top_from : ℕ → List D → List (Bin D) → List (Bin D)
  unfolding insert_bin
  top_from i [] top = top
  top_from i (x ∷ mags) top =
      top_from (i + 1) mags (insert_bin (record { index = some i; mag = x }) top)

  abbrev pub no_bin : Bin D
  no_bin = record { index = none; mag = d.negate (d.of_ℕ 1) }

  -- `fft_get_top_k`; `none` is the return of -1.
  unfoldable pub fft_get_top_k : FftResult D → ℕ → Option (List (Bin D))
  unfolding top_from
  fft_get_top_k r k =
      if leb r.n 1 || k == 0 || ltb 5 k
      then none
      else some (top_from 1 (drop 1 r.magnitudes) (replicate k no_bin))

  -- The loop of `fft_compute_psd_peak`.
  unfoldable pub peak_from : D → List D → D
  peak_from peak [] = peak
  peak_from peak (x ∷ mags) =
      let psd = d.mul x x in peak_from (if d.lt peak psd then psd else peak) mags

  -- `fft_compute_psd_peak`
  unfoldable pub fft_compute_psd_peak : FftResult D → D
  unfolding peak_from
  fft_compute_psd_peak r =
      if leb r.n 1 then d.of_ℕ 0 else peak_from (d.of_ℕ 0) (drop 1 r.magnitudes)

  -- The inner loop of `fft_butterfly`, for the bin `k` of `n`.
  unfoldable pub dft_sum : Library D → ℕ → ℕ → ℕ → List D → List D → D × D → D × D
  dft_sum lib n k t (re ∷ real) (im ∷ imag) (sum_re, sum_im) =
      let angle =
        d.div (d.mul (d.mul (d.mul (d.of_ℕ 2) lib.pi) (d.of_ℕ k)) (d.of_ℕ t)) (d.of_ℕ n) in
      let c = lib.cos angle in
      let s = lib.sin angle in
      dft_sum lib n k (t + 1) real imag (
        d.add sum_re (d.add (d.mul re c) (d.mul im s)),
        d.add sum_im (d.sub (d.mul im c) (d.mul re s)),
      )
  dft_sum lib n k t _ _ sums = sums

  -- `fft_butterfly`, where there is memory: one pair for each bin.
  unfoldable pub fft_butterfly : Library D → ℕ → List D → List D → List (D × D)
  unfolding dft_sum
  fft_butterfly lib n real imag =
      tabulate (λ k. dft_sum lib n k 0 real imag (d.of_ℕ 0, d.of_ℕ 0)) n 0
