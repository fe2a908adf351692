-- ===== src/Tests/Transforms.antt =====
-- Transforms of small inputs.
use ti_features.Prelude.{ℕ, ◌≡◌, refl, true, some, [], ◌∷◌, take, drop, replicate, arith, ◌++◌}
use ti_features.Double.{count_double}
use ti_features.Sorting.{sort_small_uint_array}
use ti_features.Fft.{FftResult, Library, Memory, fft_size_of, fft_get_top_k, no_bin}
use ti_features.Fft.Sizes.{IsSizeFor, fft_size_of_lem}
use ti_features.Fft.TopBins.{ranking, Descends, fft_get_top_k-ranking}
use ti_features.Fft.Compute.{fft_compute, IsResultFor, fft_compute_lem}
use ti_features.BoundedArray
use ti_features.BoundedArray.{BoundedArray}
use ti_features.Basic.{Lengths}
use ti_features.Output.{keys_of}
use ti_features.FreqDomain.{all_keys, fwd_keys, calc_derived_fft}
use ti_features.FreqDomain.Keys.{keys_of-calc_derived_fft}
use ti_features.Tests.{counts-IsOrdered, all_on, room_for_two-IsValid}
use ti_features.Tests.Times.{no_lengths}
use ti_features.Tests.Derived.{iats, iats-IsValid}

fft_size_of_lem_example : IsSizeFor 5 (fft_size_of 5)
fft_size_of_lem_example = fft_size_of_lem 5 (omega arith)

size_of_five : fft_size_of 5 ≡ some 8
unfolding fft_size_of
size_of_five = refl

abbrev result : FftResult ℕ
result = record {
  n = 4;
  magnitudes = 90 ∷ 3 ∷ 8 ∷ 5 ∷ [];
  frequencies = 0 ∷ 0 ∷ 0 ∷ 0 ∷ [];
  mag_mean = 0;
  mag_std = 0;
  mag_min = 0;
  mag_max = 0;
  mag_median = 0;
  mag_q1 = 0;
  mag_q3 = 0;
  mag_skew = 0;
  mag_kurt = 0;
}

fft_get_top_k-ranking_example :
    let all = ranking 1 (drop 1 result.magnitudes) (replicate 2 no_bin) in
    (fft_get_top_k result 2 ≡ some (take 2 all)) × Descends all
fft_get_top_k-ranking_example =
    fft_get_top_k-ranking counts-IsOrdered result 2 (omega arith) (omega arith) (omega arith)

-- Functions on unsigned integers stand in for those of the C library.
abbrev library : Library ℕ
library = record { cos = λ x. x; sin = λ x. x; pi = 3; qsort = sort_small_uint_array }

abbrev memory : Memory
memory = record { has_input = true; has_output = true; has_result = true; has_sorted = true }

fft_compute_lem_example :
    IsResultFor (4 ∷ 2 ∷ 9 ∷ []) memory (fft_compute library memory (4 ∷ 2 ∷ 9 ∷ []))
fft_compute_lem_example = fft_compute_lem library memory (4 ∷ 2 ∷ 9 ∷ [])

abbrev two_lens : BoundedArray ℕ
two_lens = record { cells = 60 ∷ 1500 ∷ []; count = 2; capacity = 2 }

two_lens-IsValid : BoundedArray.IsValid two_lens
two_lens-IsValid = record { room = refl; within = omega arith; small = omega arith }

abbrev lengths : Lengths ℕ
lengths = record no_lengths { pkt_len_seq = iats; fwd_pkt_lens = two_lens }

keys_of-calc_derived_fft_example :
    keys_of (calc_derived_fft all_on library true memory memory memory lengths)
    ≡ (all_keys ++ ("psd_peak" ∷ [])) ++ (fwd_keys ++ [])
keys_of-calc_derived_fft_example =
    keys_of-calc_derived_fft all_on library true memory memory memory lengths (700 ∷ 30 ∷ [])
      iats-IsValid two_lens-IsValid room_for_two-IsValid
