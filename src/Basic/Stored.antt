-- ===== src/Basic/Stored.antt =====
-- The packet lengths that are kept after a run of packets.
use ti_features.Prelude.{
  ℕ, ◌≡◌, ◌≢◌, refl, ap, is_set, Bool-cases, inl, inr, ◌∙◌, Bool, true, false, map, List, [], ◌∷◌,
  ◌++◌, take, arith, if◌then◌else◌, ◌+◌, ◌%◌, ◌^◌, leb,
}
use ti_features.Double.{Double}
use ti_features.Config.{Config}
use mathlib.Core.Path.{subst}
use ti_features.FeatureStats.{
  DirectionalStats, Direction, unknown, fwd, bwd, directional_stats_update,
}
use ti_features.FeatureStats.Bounds.{update_all}
use ti_features.BoundedArray.{append, append_all, IsValid, contents, contents-append_all}
use ti_features.Basic.{
  Lengths, calc_packet_length_stats, count_sizes, update_directional, store_direction,
}

-- The lengths of the packets.
abbrev pub lengths_of : List (Direction × ℕ) → List ℕ
lengths_of [] = []
lengths_of ((_, pkt_len) ∷ ps) = pkt_len ∷ lengths_of ps

-- The lengths of the forward packets, or of the backward ones.
abbrev pub lengths_in : Bool → List (Direction × ℕ) → List ℕ
lengths_in forward [] = []
lengths_in true ((fwd, pkt_len) ∷ ps) = pkt_len ∷ lengths_in true ps
lengths_in true ((bwd, pkt_len) ∷ ps) = lengths_in true ps
lengths_in true ((unknown, pkt_len) ∷ ps) = lengths_in true ps
lengths_in false ((bwd, pkt_len) ∷ ps) = pkt_len ∷ lengths_in false ps
lengths_in false ((fwd, pkt_len) ∷ ps) = lengths_in false ps
lengths_in false ((unknown, pkt_len) ∷ ps) = lengths_in false ps

-- How many packets are at most as long as a bound, and how many at least.
abbrev pub count_up_to : ℕ → List (Direction × ℕ) → ℕ
count_up_to bound [] = 0
count_up_to bound ((_, pkt_len) ∷ ps) = (if leb pkt_len bound then 1 else 0) + count_up_to bound ps

abbrev pub count_from : ℕ → List (Direction × ℕ) → ℕ
count_from bound [] = 0
count_from bound ((_, pkt_len) ∷ ps) = (if leb bound pkt_len then 1 else 0) + count_from bound ps

module _ {D : Type 0} ⦃d : Double D⦄ where
  -- The calls of `calc_packet_length_stats` for a run of packets.
  unfoldable pub store : Config → Lengths D → List (Direction × ℕ) → Lengths D
  store cfg s [] = s
  store cfg s ((direction, pkt_len) ∷ ps) =
      store cfg (calc_packet_length_stats cfg s direction pkt_len) ps

  store_frame :
      (s : Lengths D) (direction : Direction) (pkt_len : ℕ)
      → let new = store_direction s direction pkt_len in
        (new.first_n_lens ≡ s.first_n_lens)
        × (new.first_n_is_set ≡ s.first_n_is_set)
        × (new.small_pkt_count ≡ s.small_pkt_count)
        × (new.large_pkt_count ≡ s.large_pkt_count)
        × (new.fwd_pkt_len ≡ s.fwd_pkt_len)
        × (new.bwd_pkt_len ≡ s.bwd_pkt_len)
  unfolding store_direction
  store_frame s fwd pkt_len = (refl, refl, refl, refl, refl, refl)
  store_frame s bwd pkt_len = (refl, refl, refl, refl, refl, refl)
  store_frame s unknown pkt_len = (refl, refl, refl, refl, refl, refl)

  step_first_n :
      (cfg : Config) (s : Lengths D) (direction : Direction) (pkt_len : ℕ)
      → cfg.need_first_n ≢ 0
      → s.first_n_is_set ≡ true
      → let new = calc_packet_length_stats cfg s direction pkt_len in
        (new.first_n_lens ≡ append s.first_n_lens pkt_len) × (new.first_n_is_set ≡ true)
  unfolding calc_packet_length_stats count_sizes update_directional
  step_first_n cfg s direction pkt_len on there = grind (arith, store_frame)

  step_sizes :
      (cfg : Config) (s : Lengths D) (direction : Direction) (pkt_len : ℕ)
      → cfg.enable_basic_pkt_length ≢ 0
      → let new = calc_packet_length_stats cfg s direction pkt_len in
        (new.small_pkt_count % 2 ^ 32
          ≡ (s.small_pkt_count + (if leb pkt_len cfg.small_pkt_threshold then 1 else 0)) % 2 ^ 32)
        × (new.large_pkt_count % 2 ^ 32
            ≡ (s.large_pkt_count + (if leb cfg.large_pkt_threshold pkt_len then 1 else 0)) % 2 ^ 32)
  unfolding calc_packet_length_stats count_sizes update_directional
  step_sizes cfg s direction pkt_len on = grind (arith, store_frame)

  sizes_frame :
      (cfg : Config) (s : Lengths D) (pkt_len : ℕ)
      → let new = count_sizes cfg s pkt_len in
        (new.fwd_pkt_len ≡ s.fwd_pkt_len) × (new.bwd_pkt_len ≡ s.bwd_pkt_len)
  unfolding count_sizes
  sizes_frame cfg s pkt_len = elim (Bool-cases (is_set cfg.enable_basic_pkt_length)) [
    | inl e ↦ rw e (refl, refl)
    | inr e ↦ rw e (refl, refl)
  ]

  step_directional :
      (cfg : Config) (s : Lengths D) (direction : Direction) (pkt_len : ℕ)
      → cfg.need_fwd_bwd_pkt_lens ≢ 0
      → let new = calc_packet_length_stats cfg s direction pkt_len in
        (new.fwd_pkt_len ≡ directional_stats_update s.fwd_pkt_len direction (d.of_ℕ pkt_len))
        × (new.bwd_pkt_len ≡ directional_stats_update s.bwd_pkt_len direction (d.of_ℕ pkt_len))
  unfolding calc_packet_length_stats update_directional
  step_directional cfg s direction pkt_len on =
      let (f, b) = sizes_frame cfg s pkt_len in grind (arith, store_frame)

  -- The statistics hold the forward lengths of a run on top of the one, and the backward lengths
  -- on top of the other.
  abbrev pub HoldsBoth : DirectionalStats D → DirectionalStats D → List (Direction × ℕ) → Type 0
  HoldsBoth new old ps =
      (new.fwd_stats ≡ update_all old.fwd_stats (map d.of_ℕ (lengths_in true ps)))
      × (new.bwd_stats ≡ update_all old.bwd_stats (map d.of_ℕ (lengths_in false ps)))

  update-HoldsBoth :
      (new old : DirectionalStats D) (direction : Direction) (pkt_len : ℕ)
      (ps : List (Direction × ℕ))
      → HoldsBoth new (directional_stats_update old direction (d.of_ℕ pkt_len)) ps
      → HoldsBoth new old ((direction, pkt_len) ∷ ps)
  unfolding directional_stats_update update_all
  update-HoldsBoth new old fwd pkt_len ps h = h
  update-HoldsBoth new old bwd pkt_len ps h = h
  update-HoldsBoth new old unknown pkt_len ps h = h

  -- When the lengths by direction are needed, after a run of packets `fwd_pkt_len` and
  -- `bwd_pkt_len` each hold both directions: in either of them the forward statistics have taken all
  -- forward lengths of the run, in their order, and the backward statistics all backward lengths.
  pub store-directional :
      (cfg : Config) (s : Lengths D) (ps : List (Direction × ℕ))
      → cfg.need_fwd_bwd_pkt_lens ≢ 0
      → HoldsBoth (store cfg s ps).fwd_pkt_len s.fwd_pkt_len ps
        × HoldsBoth (store cfg s ps).bwd_pkt_len s.bwd_pkt_len ps
  unfolding store update_all
  store-directional cfg s [] on = ((refl, refl), (refl, refl))
  store-directional cfg s ((direction, pkt_len) ∷ ps) on =
      let new = calc_packet_length_stats cfg s direction pkt_len in
      let (f, b) = step_directional cfg s direction pkt_len on in
      let (hf, hb) = store-directional cfg new ps on in
      (
        update-HoldsBoth _ s.fwd_pkt_len direction pkt_len ps
            (subst (λ o. HoldsBoth (store cfg new ps).fwd_pkt_len o ps) f hf),
        update-HoldsBoth _ s.bwd_pkt_len direction pkt_len ps
            (subst (λ o. HoldsBoth (store cfg new ps).bwd_pkt_len o ps) b hb),
      )

  -- When packet lengths are counted, after a run of packets the counts of small and of large
  -- packets have grown by the packets that are at most as long as the one threshold and by those
  -- that are at least as long as the other (modulo 2 ^ 32).
  store-sizes :
      (cfg : Config) (s : Lengths D) (ps : List (Direction × ℕ))
      → cfg.enable_basic_pkt_length ≢ 0
      → let new = store cfg s ps in
        (new.small_pkt_count % 2 ^ 32
          ≡ (s.small_pkt_count + count_up_to cfg.small_pkt_threshold ps) % 2 ^ 32)
        × (new.large_pkt_count % 2 ^ 32
            ≡ (s.large_pkt_count + count_from cfg.large_pkt_threshold ps) % 2 ^ 32)
  unfolding store
  store-sizes cfg s [] on = ground arith
  store-sizes cfg s ((direction, pkt_len) ∷ ps) on = ground (
    arith,
    step_sizes cfg s direction pkt_len on,
    store-sizes cfg (calc_packet_length_stats cfg s direction pkt_len) ps on,
  )

  store-first_n_append :
      (cfg : Config) (s : Lengths D) (ps : List (Direction × ℕ))
      → cfg.need_first_n ≢ 0
      → s.first_n_is_set ≡ true
      → (store cfg s ps).first_n_lens ≡ append_all s.first_n_lens (lengths_of ps)
  unfolding store append_all
  store-first_n_append cfg s [] on there = refl
  store-first_n_append cfg s ((direction, pkt_len) ∷ ps) on there =
      let new = calc_packet_length_stats cfg s direction pkt_len in
      let (first, there1) = step_first_n cfg s direction pkt_len on there in
      store-first_n_append cfg new ps on there1 ∙ ap (λ b. append_all b (lengths_of ps)) first

  -- When the first lengths are needed and their array is there, a run of packets stores the
  -- lengths of its first packets, in order, as many as there is room for.
  store-first_n :
      (cfg : Config) (s : Lengths D) (ps : List (Direction × ℕ))
      → cfg.need_first_n ≢ 0
      → s.first_n_is_set ≡ true
      → IsValid s.first_n_lens
      → contents (store cfg s ps).first_n_lens
        ≡ take s.first_n_lens.capacity (contents s.first_n_lens ++ lengths_of ps)
  store-first_n cfg s ps on there v =
      let (held, _, _) = contents-append_all s.first_n_lens (lengths_of ps) v in
      ap contents (store-first_n_append cfg s ps on there) ∙ held
