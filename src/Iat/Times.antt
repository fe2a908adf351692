-- ===== src/Iat/Times.antt =====
-- Active, idle and elapsed time.
use ti_features.Prelude.{
  ℕ, ◌+◌, ◌%◌, ◌^◌, ◌<◌, ◌≡◌, ◌≢◌, refl, sym, ap, ◌∙◌, List, [], ◌∷◌, arith, sub64,
}
use ti_features.Double.{Double}
use ti_features.Config.{Config}
use ti_features.FeatureStats.{Direction, unknown, fwd, bwd}
use ti_features.Iat.{
  Iat, update_directions, calc_active_idle_time, store_times, update_later, calc_iat_update,
}

-- The time of the last packet.
abbrev pub last_time : ℕ → List (ℕ × Direction) → ℕ
last_time t [] = t
last_time t ((ts_us, _) ∷ ps) = last_time ts_us ps

-- Every packet has a time that is not zero and fits in a machine word.
abbrev pub AreTimes : List (ℕ × Direction) → Type 0
AreTimes [] = Unit {0}
AreTimes ((ts_us, _) ∷ ps) = (ts_us ≢ 0) × (ts_us < 2 ^ 64) × AreTimes ps

transport_lt : {a b c : ℕ} → a ≡ b → b < c → a < c
transport_lt e h = omega arith

-- Two gaps that follow each other add up to the gap from the first time to the last.
join_gaps :
    (sum sum1 sum2 : ℕ) {first middle new end end1 : ℕ}
    → new ≡ middle
    → end1 ≡ end
    → middle < 2 ^ 64
    → first < 2 ^ 64
    → sum1 % 2 ^ 64 ≡ (sum + sub64 middle first) % 2 ^ 64
    → sum2 % 2 ^ 64 ≡ (sum1 + sub64 end1 new) % 2 ^ 64
    → sum2 % 2 ^ 64 ≡ (sum + sub64 end first) % 2 ^ 64
join_gaps sum sum1 sum2 e e1 h k sums rest = omega arith

module _ {D : Type 0} ⦃d : Double D⦄ where
  -- The calls of `calc_iat_update` for a run of packets: times and directions.
  unfoldable pub run : Config → Iat D → List (ℕ × Direction) → Iat D
  run cfg s [] = s
  run cfg s ((ts_us, direction) ∷ ps) = run cfg (calc_iat_update cfg s ts_us direction) ps

  directions_frame :
      (s : Iat D) (direction : Direction) (ts_us : ℕ)
      → let new = update_directions s direction ts_us in
        (new.active_time_us ≡ s.active_time_us) × (new.idle_time_us ≡ s.idle_time_us)
  unfolding update_directions
  directions_frame s fwd ts_us = ground arith
  directions_frame s bwd ts_us = ground arith
  directions_frame s unknown ts_us = ground arith

  active_idle_sum :
      (cfg : Config) (s : Iat D) (iat_us : ℕ)
      → let new = calc_active_idle_time cfg s iat_us in
        (new.active_time_us + new.idle_time_us) % 2 ^ 64
        ≡ (s.active_time_us + s.idle_time_us + iat_us) % 2 ^ 64
  unfolding calc_active_idle_time
  active_idle_sum cfg s iat_us = ground arith

  store_frame :
      (s : Iat D) (direction : Direction) (ts_us : ℕ)
      → let new = store_times s direction ts_us in
        (new.active_time_us ≡ s.active_time_us)
        × (new.idle_time_us ≡ s.idle_time_us)
        × (new.last_arrival_us ≡ ts_us)
  unfolding store_times
  store_frame s fwd ts_us = (refl, refl, refl)
  store_frame s bwd ts_us = (refl, refl, refl)
  store_frame s unknown ts_us = (refl, refl, refl)

  -- What a packet after the first adds to the active or to the idle time.
  later_times :
      (cfg : Config) (s : Iat D) (ts_us : ℕ) (direction : Direction)
      → cfg.enable_iat_active ≢ 0
      → let new = update_later cfg s ts_us direction in
        ((new.active_time_us + new.idle_time_us) % 2 ^ 64
          ≡ (s.active_time_us + s.idle_time_us + sub64 ts_us s.last_arrival_us) % 2 ^ 64)
        × (new.last_arrival_us ≡ ts_us)
  unfolding update_later
  later_times cfg s ts_us direction on =
      grind (arith, store_frame, active_idle_sum, directions_frame)

  calc_iat_update-later :
      (cfg : Config) (s : Iat D) (ts_us : ℕ) (direction : Direction)
      → s.last_arrival_us ≢ 0
      → calc_iat_update cfg s ts_us direction ≡ update_later cfg s ts_us direction
  unfolding calc_iat_update
  calc_iat_update-later cfg s ts_us direction h = ground arith

  run-later :
      (cfg : Config) (s : Iat D) (ts_us : ℕ) (direction : Direction) (ps : List (ℕ × Direction))
      → s.last_arrival_us ≢ 0
      → run cfg s ((ts_us, direction) ∷ ps) ≡ run cfg (update_later cfg s ts_us direction) ps
  unfolding run
  run-later cfg s ts_us direction ps h =
      ap (λ x. run cfg x ps) (calc_iat_update-later cfg s ts_us direction h)

  -- When active and idle time are switched on, a first packet has come, and the packets that
  -- follow have times that are not zero, then after them the sum of active and idle time has grown
  -- by the time from that first packet to the last one (all modulo 2 ^ 64): no gap between packets
  -- is lost or counted twice, whatever the directions and the other switches are.
  pub run-active_idle :
      (cfg : Config) (s : Iat D) (ps : List (ℕ × Direction))
      → cfg.enable_iat_active ≢ 0
      → s.last_arrival_us ≢ 0
      → s.last_arrival_us < 2 ^ 64
      → AreTimes ps
      → ((run cfg s ps).active_time_us + (run cfg s ps).idle_time_us) % 2 ^ 64
        ≡ (s.active_time_us
            + s.idle_time_us
            + sub64 (last_time s.last_arrival_us ps) s.last_arrival_us)
          % 2 ^ 64
  unfolding run
  run-active_idle cfg s [] on h t ok = omega arith
  run-active_idle cfg s ((ts_us, direction) ∷ ps) on h t (nonzero, small, ok) =
      let (sums, last) = later_times cfg s ts_us direction on in
      let new = update_later cfg s ts_us direction in
      let rest =
        run-active_idle cfg new ps on (λ e. nonzero (sym last ∙ e)) (transport_lt last small) ok in
      rw (run-later cfg s ts_us direction ps h)
        (join_gaps _ _ _ last (ap (λ t1. last_time t1 ps) last) small t sums rest)
