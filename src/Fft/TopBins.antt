-- ===== src/Fft/TopBins.antt =====
-- The bins kept are the first of all bins in the order of their magnitudes.
use ti_features.Prelude.{
  ℕ, zero, suc, ◌+◌, ◌≤◌, ◌<◌, ◌≡◌, refl, sym, ap, ◌∙◌, false, some, List, [], ◌∷◌, length, take,
  drop, replicate, length-replicate, ltb, leb, ◌==◌, ◌||◌, if◌then◌else◌, Bool-cases, inl, inr,
  arith,
}
use ti_features.Double.{Double, IsOrdered}
use ti_features.Fft.{Bin, FftResult, but_last, insert_bin, top_from, fft_get_top_k, no_bin}

but_last-take :
    {A : Type 0} (k : ℕ) (l : List A) → suc k ≤ length l → but_last (take (suc k) l) ≡ take k l
unfolding but_last
but_last-take k [] h = absurd (omega arith)
but_last-take zero (x ∷ xs) h = refl
but_last-take (suc k) (x ∷ []) h = absurd (omega arith)
but_last-take (suc k) (x ∷ y ∷ xs) h = ap (λ l. x ∷ l) (but_last-take k (y ∷ xs) (omega arith))

module _ {D : Type 0} ⦃d : Double D⦄ where
  -- A bin put in its place, without an end to the list.
  abbrev place_bin : Bin D → List (Bin D) → List (Bin D)
  place_bin b [] = b ∷ []
  place_bin b (t ∷ top) = if d.lt t.mag b.mag then b ∷ t ∷ top else t ∷ place_bin b top

  -- All bins from bin `i` on in the order of their magnitudes, of equal ones the first before.
  abbrev pub ranking : ℕ → List D → List (Bin D) → List (Bin D)
  ranking i [] acc = acc
  ranking i (x ∷ mags) acc =
      ranking (i + 1) mags (place_bin (record { index = some i; mag = x }) acc)

  -- No magnitude is larger than the one before it.
  abbrev NotAbove : D → List (Bin D) → Type 0
  NotAbove m [] = Unit {0}
  NotAbove m (t ∷ top) = d.lt m t.mag ≡ false

  abbrev pub Descends : List (Bin D) → Type 0
  Descends [] = Unit {0}
  Descends (t ∷ top) = NotAbove t.mag top × Descends top

  insert_bin-take :
      (b : Bin D) (k : ℕ) (l : List (Bin D))
      → k ≤ length l
      → insert_bin b (take k l) ≡ take k (place_bin b l)
  unfolding insert_bin
  insert_bin-take b zero l h = refl
  insert_bin-take b (suc k) [] h = absurd (omega arith)
  insert_bin-take b (suc k) (t ∷ l) h = elim (Bool-cases (d.lt t.mag b.mag)) [
    | inl e ↦ rw e (ap (λ l'. b ∷ l') (but_last-take k (t ∷ l) (omega arith)))
    | inr e ↦ rw e (ap (λ l'. t ∷ l') (insert_bin-take b k l (omega arith)))
  ]

  length-place_bin : (b : Bin D) (l : List (Bin D)) → length (place_bin b l) ≡ suc (length l)
  length-place_bin b [] = refl
  length-place_bin b (t ∷ l) = elim (Bool-cases (d.lt t.mag b.mag)) [
    | inl e ↦ rw e refl
    | inr e ↦ rw e (ap suc (length-place_bin b l))
  ]

  top_from-take :
      (i : ℕ) (mags : List D) (k : ℕ) (acc : List (Bin D))
      → k ≤ length acc
      → top_from i mags (take k acc) ≡ take k (ranking i mags acc)
  unfolding top_from
  top_from-take i [] k acc h = refl
  top_from-take i (x ∷ mags) k acc h =
      let b : Bin D = record { index = some i; mag = x } in
      let longer = length-place_bin b acc in
      ap (top_from (i + 1) mags) (insert_bin-take b k acc h)
      ∙ top_from-take (i + 1) mags k (place_bin b acc) (omega arith)

  take-all : (k : ℕ) (l : List (Bin D)) → length l ≡ k → take k l ≡ l
  take-all zero [] h = refl
  take-all zero (t ∷ l) h = absurd (omega arith)
  take-all (suc k) [] h = refl
  take-all (suc k) (t ∷ l) h = ap (λ l'. t ∷ l') (take-all k l (omega arith))

  module _ (o : IsOrdered D) where
    place_bin-NotAbove :
        (m : D) (b : Bin D) (l : List (Bin D))
        → d.lt m b.mag ≡ false
        → NotAbove m l
        → NotAbove m (place_bin b l)
    place_bin-NotAbove m b [] h n = h
    place_bin-NotAbove m b (t ∷ l) h n = elim (Bool-cases (d.lt t.mag b.mag)) [
      | inl e ↦ rw e h
      | inr e ↦ rw e n
    ]

    place_bin-Descends : (b : Bin D) (l : List (Bin D)) → Descends l → Descends (place_bin b l)
    place_bin-Descends b [] s = (tt, tt)
    place_bin-Descends b (t ∷ l) (n, s) = elim (Bool-cases (d.lt t.mag b.mag)) [
      | inl e ↦ rw e (o.lt_asymm t.mag b.mag e, (n, s))
      | inr e ↦ rw e (place_bin-NotAbove t.mag b l e n, place_bin-Descends b l s)
    ]

    ranking-Descends :
        (i : ℕ) (mags : List D) (acc : List (Bin D)) → Descends acc → Descends (ranking i mags acc)
    ranking-Descends i [] acc s = s
    ranking-Descends i (x ∷ mags) acc s =
        ranking-Descends (i + 1) mags (place_bin (record { index = some i; mag = x }) acc)
          (place_bin-Descends (record { index = some i; mag = x }) acc s)

    no_bins-Descends : (k : ℕ) → Descends (replicate k no_bin)
    no_bins-Descends zero = tt
    no_bins-Descends (suc zero) = (tt, tt)
    no_bins-Descends (suc (suc k)) = (o.lt_irrefl (no_bin.mag), no_bins-Descends (suc k))

    -- For 1 to 5 bins and a transform of more than one, `fft_get_top_k` keeps the first of all
    -- bins but the constant one, in the order of their magnitudes, filled up with empty bins of
    -- magnitude -1; and in that order no magnitude is larger than the one before it.
    pub fft_get_top_k-ranking :
        (r : FftResult D) (k : ℕ)
        → 1 < r.n
        → 0 < k
        → k ≤ 5
        → let all = ranking 1 (drop 1 r.magnitudes) (replicate k no_bin) in
          (fft_get_top_k r k ≡ some (take k all)) × Descends all
    unfolding fft_get_top_k
    fft_get_top_k-ranking r k large pos few =
        let empty : List (Bin D) = replicate k no_bin in
        let guard : (leb r.n 1 || k == 0 || ltb 5 k) ≡ false = ground arith in
        let whole : take k empty ≡ empty = take-all k empty (length-replicate k no_bin) in
        let len : length empty ≡ k = length-replicate k no_bin in
        (
          rw guard (
              ap (λ l. some (top_from 1 (drop 1 r.magnitudes) l)) (sym whole)
              ∙ ap some (top_from-take 1 (drop 1 r.magnitudes) k empty (omega arith))),
          ranking-Descends 1 (drop 1 r.magnitudes) empty (no_bins-Descends k),
        )
