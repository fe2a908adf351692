-- ===== src/FreqDomain.antt =====
-- src/calc_freq_domain.cpp: the fields of the transforms of a flow's packet lengths.
pub mod Keys
use Prim.Native.String.{String}
use ti_features.Prelude.{
  ℕ, Bool, Option, none, some, List, [], ◌∷◌, ◌++◌, ltb, replicate, if◌then◌else◌, is_set,
}
use ti_features.Double.{Double}
use ti_features.CircularBuffer.{CircularBuffer, get_array}
use ti_features.MemoryPool.{zeroed_ℕ}
use ti_features.BoundedArray.{BoundedArray, contents}
use ti_features.Config.{Config}
use ti_features.Basic.{Lengths}
use ti_features.Output.{Fields, label}
use ti_features.Fft.{Bin, FftResult, Library, Memory, fft_get_top_k, fft_compute_psd_peak}
use ti_features.Fft.Compute.{fft_compute}

-- The keys of the transform of all packets, as `output_fft_result` prints them with "all".
abbrev pub all_keys : List String
all_keys =
    "all_fft_freq_0_idx" ∷ "all_fft_mag_0" ∷ "all_fft_freq_1_idx" ∷ "all_fft_mag_1"
    ∷ "all_fft_freq_2_idx" ∷ "all_fft_mag_2" ∷ "all_fft_freq_3_idx" ∷ "all_fft_mag_3"
    ∷ "all_fft_freq_4_idx" ∷ "all_fft_mag_4" ∷ "all_fft_magnitude_mean" ∷ "all_fft_magnitude_std"
    ∷ "all_fft_magnitude_min" ∷ "all_fft_magnitude_max" ∷ "all_fft_magnitude_median"
    ∷ "all_fft_magnitude_q1" ∷ "all_fft_magnitude_q3" ∷ "all_fft_magnitude_skew"
    ∷ "all_fft_magnitude_kurt" ∷ []

abbrev pub fwd_keys : List String
fwd_keys =
    "fwd_fft_freq_0_idx" ∷ "fwd_fft_mag_0" ∷ "fwd_fft_freq_1_idx" ∷ "fwd_fft_mag_1"
    ∷ "fwd_fft_freq_2_idx" ∷ "fwd_fft_mag_2" ∷ "fwd_fft_freq_3_idx" ∷ "fwd_fft_mag_3"
    ∷ "fwd_fft_freq_4_idx" ∷ "fwd_fft_mag_4" ∷ "fwd_fft_magnitude_mean" ∷ "fwd_fft_magnitude_std"
    ∷ "fwd_fft_magnitude_min" ∷ "fwd_fft_magnitude_max" ∷ "fwd_fft_magnitude_median"
    ∷ "fwd_fft_magnitude_q1" ∷ "fwd_fft_magnitude_q3" ∷ "fwd_fft_magnitude_skew"
    ∷ "fwd_fft_magnitude_kurt" ∷ []

abbrev pub bwd_keys : List String
bwd_keys =
    "bwd_fft_freq_0_idx" ∷ "bwd_fft_mag_0" ∷ "bwd_fft_freq_1_idx" ∷ "bwd_fft_mag_1"
    ∷ "bwd_fft_freq_2_idx" ∷ "bwd_fft_mag_2" ∷ "bwd_fft_freq_3_idx" ∷ "bwd_fft_mag_3"
    ∷ "bwd_fft_freq_4_idx" ∷ "bwd_fft_mag_4" ∷ "bwd_fft_magnitude_mean" ∷ "bwd_fft_magnitude_std"
    ∷ "bwd_fft_magnitude_min" ∷ "bwd_fft_magnitude_max" ∷ "bwd_fft_magnitude_median"
    ∷ "bwd_fft_magnitude_q1" ∷ "bwd_fft_magnitude_q3" ∷ "bwd_fft_magnitude_skew"
    ∷ "bwd_fft_magnitude_kurt" ∷ []

module _ {D : Type 0} ⦃d : Double D⦄ where
  -- What `calc_fft_all` does with the array of the ring.
  unfoldable pub transform_array : Library D → Memory → Option (List ℕ) × ℕ → Option (FftResult D)
  transform_array lib m (none, count) = none
  transform_array lib m (some seq, count) = if ltb count 2 then none else fft_compute lib m seq

  -- `calc_fft_all`; `none` is the return of -1.
  unfoldable pub calc_fft_all : Library D → Memory → Bool → CircularBuffer ℕ → Option (FftResult D)
  unfolding transform_array
  calc_fft_all lib m allocated ring = transform_array lib m (get_array ring allocated)

  -- `calc_fft_fwd`
  unfoldable pub calc_fft_fwd : Library D → Memory → Lengths D → Option (FftResult D)
  calc_fft_fwd lib m s =
      if ltb s.fwd_pkt_lens.count 2 then none else fft_compute lib m (contents s.fwd_pkt_lens)

  -- `calc_fft_bwd`
  unfoldable pub calc_fft_bwd : Library D → Memory → Lengths D → Option (FftResult D)
  calc_fft_bwd lib m s =
      if ltb s.bwd_pkt_lens.count 2 then none else fft_compute lib m (contents s.bwd_pkt_lens)

  -- The bins by what `fft_get_top_k` did: where it failed, the entries are those of `memset`.
  unfoldable pub bins_after : Option (List (Bin D)) → List (Bin D)
  bins_after none = replicate 5 (record { index = some 0; mag = d.of_ℕ 0 })
  bins_after (some top) = top

  -- The bins after `fft_get_top_k(&result, 5)`, whose return is not read.
  unfoldable pub top_bins : FftResult D → List (Bin D)
  unfolding bins_after
  top_bins r = bins_after (fft_get_top_k r 5)

  unfoldable pub index_value : Option ℕ → D
  index_value none = d.negate (d.of_ℕ 1)
  index_value (some i) = d.of_ℕ i

  -- The loop over the five bins.
  unfoldable pub bin_values : List (Bin D) → List D
  unfolding index_value
  bin_values [] = []
  bin_values (b ∷ bins) = index_value b.index ∷ b.mag ∷ bin_values bins

  -- The values of a transform, in the order of the keys.
  unfoldable pub transform_values : FftResult D → List D
  unfolding top_bins bin_values
  transform_values r =
      bin_values (top_bins r)
      ++ (r.mag_mean ∷ r.mag_std ∷ r.mag_min ∷ r.mag_max ∷ r.mag_median ∷ r.mag_q1 ∷ r.mag_q3
          ∷ r.mag_skew ∷ r.mag_kurt ∷ [])

  -- `output_fft_result`
  unfoldable pub output_fft_result : FftResult D → Fields D
  unfolding transform_values
  output_fft_result r =
      label all_keys (transform_values r) ++ label ("psd_peak" ∷ []) (fft_compute_psd_peak r ∷ [])

  -- The part under `enable_fft_global`.
  unfoldable pub global_fields : Option (FftResult D) → Fields D
  unfolding output_fft_result
  global_fields none = []
  global_fields (some r) = output_fft_result r

  -- The parts under `enable_fft_fwd` and `enable_fft_bwd`, with their keys.
  unfoldable pub direction_fields : List String → Option (FftResult D) → Fields D
  unfolding transform_values
  direction_fields keys none = []
  direction_fields keys (some r) = label keys (transform_values r)

  -- `calc_derived_fft`, by whether there is memory for the array of the ring and for each of the
  -- three transforms.
  unfoldable pub calc_derived_fft :
      Config → Library D → Bool → Memory → Memory → Memory → Lengths D → Fields D
  unfolding calc_fft_all calc_fft_fwd calc_fft_bwd global_fields direction_fields
  calc_derived_fft cfg lib allocated all_m fwd_m bwd_m s =
      (if is_set cfg.enable_fft_global
        then global_fields (calc_fft_all lib all_m allocated s.pkt_len_seq)
        else [])
      ++ ((if is_set cfg.enable_fft_fwd
            then direction_fields fwd_keys (calc_fft_fwd lib fwd_m s)
            else [])
          ++ (if is_set cfg.enable_fft_bwd
              then direction_fields bwd_keys (calc_fft_bwd lib bwd_m s)
              else []))
