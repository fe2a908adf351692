-- ===== src/FreqDomain/Keys.antt =====
-- Which fields of the transforms there are.
use Prim.Native.String.{String}
use ti_features.Prelude.{
  ℕ, suc, ◌+◌, ◌^◌, ◌≤◌, ◌<◌, ◌≡◌, refl, ap, ◌∙◌, Bool, true, false, ◌&&◌, Option, none, some, List,
  [], ◌∷◌, ◌++◌, length, length-take, ltb, leb, ◌==◌, if◌then◌else◌, is_set, Bool-cases, inl, inr,
  arith, ◌*◌, drop, replicate, ◌⊎◌,
}
use mathlib.Core.Path.{ap₂}
use ti_features.Double.{Double}
use ti_features.CircularBuffer.{CircularBuffer}
use ti_features.CircularBuffer.Valid.{IsValid}
use ti_features.CircularBuffer.Refine.{contents as ring_contents}
use ti_features.CircularBuffer.Read.{get_array_lem}
use ti_features.MemoryPool.{zeroed_ℕ}
use ti_features.BoundedArray.{BoundedArray, contents, IsValid as IsValidArray}
use ti_features.Config.{Config}
use ti_features.Basic.{Lengths}
use ti_features.Output.{Fields, label, keys_of}
use ti_features.Fft.{
  Bin, FftResult, Library, Memory, insert_bin, but_last, top_from, fft_get_top_k, no_bin,
}
use ti_features.Fft.Sizes.{le-doubled}
use ti_features.Fft.Compute.{all_memory, fft_compute, IsResultFor, fft_compute_lem}
use ti_features.FreqDomain.{
  all_keys, fwd_keys, bwd_keys, transform_array, calc_fft_all, calc_fft_fwd, calc_fft_bwd,
  bins_after, top_bins, bin_values, transform_values, output_fft_result, global_fields,
  direction_fields, calc_derived_fft,
}

-- Whether there is a transform of an input.
abbrev pub is_transformable : Memory → List ℕ → Bool
is_transformable m xs = (leb 2 (length xs) && leb (length xs) (2 ^ 30)) && all_memory m

abbrev pub keys_if : Bool → List String → List String
keys_if true keys = keys
keys_if false keys = []

is_transformable-false :
    (m : Memory) (xs : List ℕ)
    → (length xs < 2) ⊎ ((2 ^ 30 < length xs) ⊎ (all_memory m ≡ false))
    → is_transformable m xs ≡ false
is_transformable-false m xs (inl short) = ground arith
is_transformable-false m xs (inr (inl long)) = ground arith
is_transformable-false m xs (inr (inr missing)) = ground arith

length-contents : (b : BoundedArray ℕ) → IsValidArray b → length (contents b) ≡ b.count
length-contents b v = ground (arith, length-take b.count b.cells)

module _ {D : Type 0} ⦃d : Double D⦄ where
  length-but_last : (b : Bin D) (l : List (Bin D)) → length (but_last (b ∷ l)) ≡ length l
  unfolding but_last
  length-but_last b [] = refl
  length-but_last b (c ∷ l) = ap suc (length-but_last c l)

  length-insert_bin : (b : Bin D) (top : List (Bin D)) → length (insert_bin b top) ≡ length top
  unfolding insert_bin
  length-insert_bin b [] = refl
  length-insert_bin b (t ∷ top) = elim (Bool-cases (d.lt t.mag b.mag)) [
    | inl e ↦ rw e (ap suc (length-but_last t top))
    | inr e ↦ rw e (ap suc (length-insert_bin b top))
  ]

  length-top_from :
      (i : ℕ) (mags : List D) (top : List (Bin D)) → length (top_from i mags top) ≡ length top
  unfolding top_from
  length-top_from i [] top = refl
  length-top_from i (x ∷ mags) top =
      length-top_from (i + 1) mags (insert_bin (record { index = some i; mag = x }) top)
      ∙ length-insert_bin (record { index = some i; mag = x }) top

  length-bins_after : (r : FftResult D) → length (bins_after (fft_get_top_k r 5)) ≡ 5
  unfolding bins_after fft_get_top_k
  length-bins_after r = elim (Bool-cases (leb r.n 1)) [
    | inl e ↦ rw (e, bins_after) refl
    | inr e ↦ rw (e, bins_after) (length-top_from 1 (drop 1 r.magnitudes) (replicate 5 no_bin))
  ]

  -- The keys that are put out with enough values.
  keys_of-label :
      (keys : List String) (vs : List D) → length keys ≤ length vs → keys_of (label keys vs) ≡ keys
  keys_of-label [] vs h = refl
  keys_of-label (k ∷ keys) [] h = absurd (omega arith)
  keys_of-label (k ∷ keys) (v ∷ vs) h = ap (λ ks. k ∷ ks) (keys_of-label keys vs (omega arith))

  keys_of-append : (fs gs : Fields D) → keys_of (fs ++ gs) ≡ keys_of fs ++ keys_of gs
  keys_of-append [] gs = refl
  keys_of-append ((k, v) ∷ fs) gs = ap (λ ks. k ∷ ks) (keys_of-append fs gs)

  length-bin_values :
      (bins : List (Bin D)) (vs : List D)
      → length (bin_values bins ++ vs) ≡ length bins * 2 + length vs
  unfolding bin_values
  length-bin_values [] vs = omega arith
  length-bin_values (b ∷ bins) vs = let rest = length-bin_values bins vs in omega arith

  length-transform_values : (r : FftResult D) → length (transform_values r) ≡ 19
  unfolding transform_values top_bins
  length-transform_values r =
      length-bin_values (top_bins r) _ ∙ ap (λ n. n * 2 + 9) (length-bins_after r)

  transformable-IsResultFor :
      (m : Memory) (xs : List ℕ) (r : FftResult D)
      → IsResultFor xs m (some r)
      → is_transformable m xs ≡ true
  transformable-IsResultFor m xs r (have, small, (k, e), above, below, _, _) =
      let low = le-doubled k 1 in ground arith

  keys_of-direction_fields :
      (keys : List String) (m : Memory) (xs : List ℕ) (r : Option (FftResult D))
      → length keys ≡ 19
      → IsResultFor xs m r
      → keys_of (direction_fields keys r) ≡ keys_if (is_transformable m xs) keys
  unfolding direction_fields
  keys_of-direction_fields keys m xs none len h = rw (is_transformable-false m xs h) refl
  keys_of-direction_fields keys m xs (some r) len h =
      let enough = length-transform_values r in
      rw (transformable-IsResultFor m xs r h)
        (keys_of-label keys (transform_values r) (omega arith))

  keys_of-global_fields :
      (m : Memory) (xs : List ℕ) (r : Option (FftResult D))
      → IsResultFor xs m r
      → keys_of (global_fields r) ≡ keys_if (is_transformable m xs) (all_keys ++ ("psd_peak" ∷ []))
  unfolding global_fields output_fft_result
  keys_of-global_fields m xs none h = rw (is_transformable-false m xs h) refl
  keys_of-global_fields m xs (some r) h =
      let enough = length-transform_values r in
      rw (transformable-IsResultFor m xs r h) (
        keys_of-append (label all_keys (transform_values r)) _
        ∙ ap (λ ks. ks ++ ("psd_peak" ∷ []))
            (keys_of-label all_keys (transform_values r) (omega arith)))

  -- The guard that each of the three functions has before it calls `fft_compute`.
  guarded-IsResultFor :
      (lib : Library D) (m : Memory) (xs : List ℕ) (count : ℕ)
      → length xs ≡ count
      → IsResultFor xs m (if ltb count 2 then none else fft_compute lib m xs)
  guarded-IsResultFor lib m xs count e = elim (Bool-cases (ltb count 2)) [
    | inl short ↦ rw short (inl (ground arith))
    | inr long ↦ rw long (fft_compute_lem lib m xs)
  ]

  array-IsResultFor :
      (lib : Library D) (m : Memory) (ring : CircularBuffer ℕ) (xs : List ℕ)
      → IsValid ring xs
      → IsResultFor (ring_contents xs ring) m (calc_fft_all lib m true ring)
  unfolding calc_fft_all transform_array
  array-IsResultFor lib m ring xs v =
      let (array, _, count) = get_array_lem ring xs v in
      rw array (elim (Bool-cases (ring.count == 0)) [
        | inl e ↦ rw (e, transform_array) (inl (ground arith))
        | inr e ↦
            rw (e, transform_array)
              (guarded-IsResultFor lib m (ring_contents xs ring) ring.count count)
      ])

  array-keys :
      (lib : Library D) (m : Memory) (allocated : Bool) (ring : CircularBuffer ℕ) (xs : List ℕ)
      → IsValid ring xs
      → keys_of (global_fields (calc_fft_all lib m allocated ring))
        ≡ keys_if
            (allocated && is_transformable m (ring_contents xs ring))
            (all_keys ++ ("psd_peak" ∷ []))
  unfolding calc_fft_all transform_array global_fields
  array-keys lib m false ring xs v =
      let (_, none_left, _) = get_array_lem ring xs v in rw none_left refl
  array-keys lib m true ring xs v =
      keys_of-global_fields m (ring_contents xs ring) (calc_fft_all lib m true ring)
        (array-IsResultFor lib m ring xs v)

  keys_of-if :
      (b t : Bool) (fs : Fields D) (keys : List String)
      → keys_of fs ≡ keys_if t keys
      → keys_of (if b then fs else []) ≡ keys_if (b && t) keys
  keys_of-if true t fs keys e = e
  keys_of-if false t fs keys e = refl

  -- For a valid ring and valid arrays of packet lengths, whatever the switches are and whatever
  -- allocations succeed: each transform puts out all of its keys, in their order, exactly where
  -- it is switched on, there is memory, and it has from 2 to 2 ^ 30 lengths; otherwise it puts out
  -- none.
  pub keys_of-calc_derived_fft :
      (cfg : Config) (lib : Library D) (allocated : Bool) (all_m fwd_m bwd_m : Memory)
      (s : Lengths D) (xs : List ℕ)
      → IsValid s.pkt_len_seq xs
      → IsValidArray s.fwd_pkt_lens
      → IsValidArray s.bwd_pkt_lens
      → keys_of (calc_derived_fft cfg lib allocated all_m fwd_m bwd_m s)
        ≡ keys_if
            (is_set cfg.enable_fft_global
              && (allocated && is_transformable all_m (ring_contents xs s.pkt_len_seq)))
            (all_keys ++ ("psd_peak" ∷ []))
          ++ (keys_if
                (is_set cfg.enable_fft_fwd && is_transformable fwd_m (contents s.fwd_pkt_lens))
                fwd_keys
              ++ keys_if
                  (is_set cfg.enable_fft_bwd && is_transformable bwd_m (contents s.bwd_pkt_lens))
                  bwd_keys)
  unfolding calc_derived_fft calc_fft_fwd calc_fft_bwd
  keys_of-calc_derived_fft cfg lib allocated all_m fwd_m bwd_m s xs v fv bv =
      let fwd_result =
        guarded-IsResultFor lib fwd_m (contents s.fwd_pkt_lens) s.fwd_pkt_lens.count
          (length-contents s.fwd_pkt_lens fv) in
      let bwd_result =
        guarded-IsResultFor lib bwd_m (contents s.bwd_pkt_lens) s.bwd_pkt_lens.count
          (length-contents s.bwd_pkt_lens bv) in
      keys_of-append _ _
      ∙ ap₂ (λ a b. a ++ b)
          (keys_of-if (is_set cfg.enable_fft_global) _ _ (all_keys ++ ("psd_peak" ∷ []))
            (array-keys lib all_m allocated s.pkt_len_seq xs v))
          (keys_of-append _ _
            ∙ ap₂ (λ a b. a ++ b)
                (keys_of-if (is_set cfg.enable_fft_fwd) _ _ fwd_keys
                  (keys_of-direction_fields fwd_keys fwd_m _ _ refl fwd_result))
                (keys_of-if (is_set cfg.enable_fft_bwd) _ _ bwd_keys
                  (keys_of-direction_fields bwd_keys bwd_m _ _ refl bwd_result)))
