-- ===== src/Fft/Compute.antt =====
-- src/utils/fft.cpp, `fft_compute` and `fft_compute_statistics`.
use ti_features.Prelude.{
  ℕ, zero, suc, ◌-◌, ◌*◌, ◌/◌, ◌^◌, ◌≤◌, ◌<◌, ◌≡◌, ◌⊎◌, refl, sym, ap, ◌∙◌, Bool, true, false, ◌&&◌,
  Option, none, some, List, [], ◌∷◌, ◌++◌, length, length-tabulate, get_or, map, tabulate,
  replicate, ltb, ◌==◌, if◌then◌else◌, Bool-cases, lt→ltb, inl, inr, arith,
}
use mathlib.Core.Path.{subst}
use ti_features.Double.{Double, zeroed_double}
use ti_features.Fft.{FftResult, Library, Memory, fft_size_of, fft_butterfly}
use ti_features.Fft.Sizes.{doubled, doubled-twice, le-doubled, IsSizeFor, fft_size_of_lem}

-- The sums of the powers of the magnitudes, and the smallest and the largest.
pub record Sums (D : Type 0) : Type 0 where
  pub sum : D
  pub sum_sq : D
  pub sum_cube : D
  pub sum_quad : D
  pub low : D
  pub high : D

-- Whether every allocation of a transform succeeds.
abbrev pub all_memory : Memory → Bool
all_memory m = (m.has_input && m.has_output) && (m.has_result && m.has_sorted)

module _ {D : Type 0} ⦃d : Double D⦄ where
  unfoldable pub sums_of : Sums D → List D → Sums D
  sums_of s [] = s
  sums_of s (v ∷ mags) =
      sums_of
        (record {
          sum = d.add s.sum v;
          sum_sq = d.add s.sum_sq (d.mul v v);
          sum_cube = d.add s.sum_cube (d.mul (d.mul v v) v);
          sum_quad = d.add s.sum_quad (d.mul (d.mul (d.mul v v) v) v);
          low = if d.lt v s.low then v else s.low;
          high = if d.lt s.high v then v else s.high;
        })
        mags

  -- `variance`, which is not negative.
  unfoldable pub variance_of : ℕ → D → D → D
  variance_of n mean sum_sq =
      let v =
        if ltb 1 n
        then d.div (d.sub sum_sq (d.mul (d.mul (d.of_ℕ n) mean) mean)) (d.of_ℕ (n - 1))
        else d.of_ℕ 0 in
      if d.lt v (d.of_ℕ 0) then d.of_ℕ 0 else v

  -- `mag_skew`
  unfoldable pub skew_of : ℕ → D → D → Sums D → D
  skew_of n mean std s =
      let m3 =
        d.add
          (d.sub (d.div s.sum_cube (d.of_ℕ n))
            (d.div (d.mul (d.mul (d.of_ℕ 3) mean) s.sum_sq) (d.of_ℕ n)))
          (d.mul (d.mul (d.mul (d.of_ℕ 2) mean) mean) mean) in
      if d.lt (d.of_ℕ 0) std then d.div m3 (d.mul (d.mul std std) std) else d.of_ℕ 0

  -- `mag_kurt`
  unfoldable pub kurt_of : ℕ → D → D → Sums D → D
  kurt_of n mean variance s =
      let m4 =
        d.sub
          (d.add
            (d.sub (d.div s.sum_quad (d.of_ℕ n))
              (d.div (d.mul (d.mul (d.of_ℕ 4) mean) s.sum_cube) (d.of_ℕ n)))
            (d.div (d.mul (d.mul (d.mul (d.of_ℕ 6) mean) mean) s.sum_sq) (d.of_ℕ n)))
          (d.mul (d.mul (d.mul (d.mul (d.of_ℕ 3) mean) mean) mean) mean) in
      if d.lt (d.of_ℕ 0) variance
      then d.sub (d.div m4 (d.mul variance variance)) (d.of_ℕ 3)
      else d.of_ℕ 0

  -- `fft_compute_statistics`, by whether there is memory for the sorted copy.
  unfoldable pub fft_compute_statistics : Library D → Bool → List D → List D → Option (FftResult D)
  unfolding sums_of variance_of skew_of kurt_of
  fft_compute_statistics lib has_sorted magnitudes frequencies =
      let n = length magnitudes in
      let first = get_or magnitudes 0 (d.of_ℕ 0) in
      let zero_d = d.of_ℕ 0 in
      let start : Sums D = record {
        sum = zero_d;
        sum_sq = zero_d;
        sum_cube = zero_d;
        sum_quad = zero_d;
        low = first;
        high = first;
      } in
      let sums = sums_of start magnitudes in
      let sorted = lib.qsort magnitudes in
      let mean = d.div sums.sum (d.of_ℕ n) in
      let variance = variance_of n mean sums.sum_sq in
      let std = d.sqrt variance in
      if ltb 0 n && has_sorted
      then some (record {
        n = n;
        magnitudes = magnitudes;
        frequencies = frequencies;
        mag_mean = mean;
        mag_std = std;
        mag_min = sums.low;
        mag_max = sums.high;
        mag_median = get_or sorted (n / 2) zero_d;
        mag_q1 = get_or sorted (n / 4) zero_d;
        mag_q3 = get_or sorted (3 * n / 4) zero_d;
        mag_skew = skew_of n mean std sums;
        mag_kurt = kurt_of n mean variance sums;
      })
      else none

  -- `sqrt(real[i] * real[i] + imag[i] * imag[i])`
  unfoldable pub magnitude : D × D → D
  magnitude (re, im) = d.sqrt (d.add (d.mul re re) (d.mul im im))

  -- What `fft_compute` does once the size is known.
  unfoldable pub transform : Library D → Memory → List ℕ → ℕ → Option (FftResult D)
  unfolding fft_compute_statistics magnitude
  transform lib m input size =
      let real = map d.of_ℕ input ++ replicate (size - length input) (d.of_ℕ 0) in
      let bins = fft_butterfly lib size real (replicate size (d.of_ℕ 0)) in
      let half = size / 2 in
      if (m.has_input && m.has_output) && (ltb 0 half && m.has_result)
      then fft_compute_statistics lib m.has_sorted
          (tabulate (λ i. magnitude (get_or bins i (d.of_ℕ 0, d.of_ℕ 0))) half 0)
          (tabulate (λ i. d.div (d.of_ℕ i) (d.of_ℕ size)) half 0)
      else none

  -- `fft_compute`, for pointers that are not null; `none` is the return of -1.
  unfoldable pub fft_compute : Library D → Memory → List ℕ → Option (FftResult D)
  unfolding transform
  fft_compute lib m input = if length input == 0 then none else elim (fft_size_of (length input)) [
    | none ↦ none
    | some size ↦ transform lib m input size
  ]

  -- What a transform of an input should return: a result of half the size, a power of two, with
  -- as many magnitudes and frequencies, or none where the input is too short or too long or
  -- memory is missing.
  abbrev pub IsResultFor : List ℕ → Memory → Option (FftResult D) → Type 0
  IsResultFor input m none = (length input < 2) ⊎ ((2 ^ 30 < length input) ⊎ (all_memory m ≡ false))
  IsResultFor input m (some r) =
      (all_memory m ≡ true)
      × (length input ≤ 2 ^ 30)
      × ((k : ℕ) × (r.n ≡ doubled k 1))
      × (length input ≤ r.n * 2)
      × (r.n < length input)
      × (length r.magnitudes ≡ r.n)
      × (length r.frequencies ≡ r.n)

  statistics-none :
      (lib : Library D) (mags freqs : List D) → fft_compute_statistics lib false mags freqs ≡ none
  unfolding fft_compute_statistics
  statistics-none lib mags freqs = elim (Bool-cases (ltb 0 (length mags))) [
    | inl e ↦ rw e refl
    | inr e ↦ rw e refl
  ]

  statistics-some :
      (lib : Library D) (mags freqs : List D)
      → 0 < length mags
      → (r : FftResult D) × (fft_compute_statistics lib true mags freqs ≡ some r)
        × (r.n ≡ length mags)
        × (r.magnitudes ≡ mags)
        × (r.frequencies ≡ freqs)
  unfolding fft_compute_statistics
  statistics-some lib mags freqs h = rw (lt→ltb 0 (length mags) h) (_, refl, refl, refl, refl)

  -- The result for arrays of a length, by whether there is memory for the sorted copy.
  statistics-IsResultFor :
      (lib : Library D) (m : Memory) (input : List ℕ) (mags freqs : List D) (k : ℕ)
      → ((m.has_input && m.has_output) && m.has_result) ≡ true
      → 0 < length mags
      → length mags ≡ doubled k 1
      → length freqs ≡ length mags
      → length input ≤ 2 ^ 30
      → length input ≤ length mags * 2
      → length mags < length input
      → IsResultFor input m (fft_compute_statistics lib m.has_sorted mags freqs)
  statistics-IsResultFor lib m input mags freqs k have pos e same small above below =
      elim (Bool-cases m.has_sorted) [
        | inl s ↦
            (let (r, found, n, ms, fs) = statistics-some lib mags freqs pos in
              subst (IsResultFor input m)
                (sym (ap (λ b. fft_compute_statistics lib b mags freqs) s ∙ found))
                (
                  ground arith,
                  small,
                  (k, n ∙ e),
                  omega arith,
                  omega arith,
                  ap length ms ∙ sym n,
                  ap length fs ∙ same ∙ sym n,
                ))
        | inr s ↦
            subst (IsResultFor input m)
              (sym (
                ap (λ b. fft_compute_statistics lib b mags freqs) s
                ∙ statistics-none lib mags freqs))
              (inr (inr (ground arith)))
      ]

  transform-IsResultFor :
      (lib : Library D) (m : Memory) (input : List ℕ) (k : ℕ)
      → length input ≤ 2 ^ 30
      → length input ≤ doubled k 1
      → doubled k 1 < length input * 2
      → IsResultFor input m (transform lib m input (doubled k 1))
  unfolding transform
  transform-IsResultFor lib m input zero small above below =
      let guard : ((m.has_input && m.has_output) && (ltb 0 0 && m.has_result)) ≡ false =
        ground arith in
      rw guard (inl (omega arith))
  transform-IsResultFor lib m input (suc k) small above below =
      let size = doubled (suc k) 1 in
      let twice = doubled-twice k 1 in
      let low = le-doubled k 1 in
      let half : size / 2 ≡ doubled k 1 = omega arith in
      elim (Bool-cases ((m.has_input && m.has_output) && m.has_result)) [
        | inl have ↦
            (let guard : ((m.has_input && m.has_output) && (ltb 0 (size / 2) && m.has_result))
                  ≡ true =
                ground arith in
              let real = map d.of_ℕ input ++ replicate (size - length input) (d.of_ℕ 0) in
              let bins = fft_butterfly lib size real (replicate size (d.of_ℕ 0)) in
              let mags =
                tabulate (λ i. magnitude (get_or bins i (d.of_ℕ 0, d.of_ℕ 0))) (size / 2) 0 in
              let freqs = tabulate (λ i. d.div (d.of_ℕ i) (d.of_ℕ size)) (size / 2) 0 in
              let len : length mags ≡ size / 2 =
                length-tabulate (λ i. magnitude (get_or bins i (d.of_ℕ 0, d.of_ℕ 0))) (size / 2)
                  0 in
              let len' : length freqs ≡ size / 2 =
                length-tabulate (λ i. d.div (d.of_ℕ i) (d.of_ℕ size)) (size / 2) 0 in
              rw guard (
                statistics-IsResultFor lib m input mags freqs k have (omega arith) (len ∙ half)
                  (len' ∙ sym len) small (omega arith) (omega arith)))
        | inr missing ↦
            (let guard : ((m.has_input && m.has_output) && (ltb 0 (size / 2) && m.has_result))
                  ≡ false =
                ground arith in
              rw guard (inr (inr (ground arith))))
      ]

  -- What follows the rounding of the size.
  sized-IsResultFor :
      (lib : Library D) (m : Memory) (input : List ℕ) (size : Option ℕ)
      → IsSizeFor (length input) size
      → IsResultFor input m (elim size [ none ↦ none | some s ↦ transform lib m input s ])
  sized-IsResultFor lib m input none large = inr (inl large)
  sized-IsResultFor lib m input (some s) (small, (k, e), above, below) =
      subst (λ n. IsResultFor input m (transform lib m input n)) (sym e)
        (transform-IsResultFor lib m input k small (omega arith) (omega arith))

  -- For every input and whatever allocations succeed: `fft_compute` returns -1 exactly for an input
  -- of fewer than 2 or more than 2 ^ 30 numbers or where an allocation fails. Otherwise the
  -- result has half as many bins as the smallest power of two that holds the input, and as many
  -- magnitudes and frequencies.
  pub fft_compute_lem :
      (lib : Library D) (m : Memory) (input : List ℕ)
      → IsResultFor input m (fft_compute lib m input)
  unfolding fft_compute
  fft_compute_lem lib m input = elim (Bool-cases (length input == 0)) [
    | inl e ↦ rw e (inl (ground arith))
    | inr e ↦ rw e (
        sized-IsResultFor lib m input (fft_size_of (length input))
          (fft_size_of_lem (length input) (ground arith)))
  ]
