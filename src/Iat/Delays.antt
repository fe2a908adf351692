-- ===== src/Iat/Delays.antt =====
-- Response delays, and the time between packets of one direction.
use ti_features.Prelude.{
  Bool, true, false, Bool-cases, inl, inr, leb, is_set, if◌then◌else◌, ap, ◌∙◌, ◌==◌, ℕ, ◌≡◌, ◌≢◌,
  refl, [], ◌∷◌, ◌++◌, arith, take, lt→ltb, sub64,
}
use ti_features.Double.{Double}
use ti_features.Config.{Config}
use ti_features.CircularBuffer.{CircularBuffer}
use ti_features.FeatureStats.{RunningStats, Direction, unknown, fwd, bwd}
use ti_features.BoundedArray.{IsValid, contents, contents-append}
use ti_features.Iat.{
  Iat, calc_response_delay, calc_iat_update, update_later, update_directions, calc_active_idle_time,
  store_times,
}

-- What is recorded of the times between packets of one direction: the arrays and the statistics.
abbrev pub SameDirections : {D : Type 0} → Iat D → Iat D → Type 0
SameDirections s t =
    (t.fwd_iats ≡ s.fwd_iats)
    × (t.bwd_iats ≡ s.bwd_iats)
    × (t.fwd_iat ≡ s.fwd_iat)
    × (t.bwd_iat ≡ s.bwd_iat)

module _ {D : Type 0} ⦃d : Double D⦄ where
  -- A forward packet at a time that is not zero, then a backward packet, append one delay as far as
  -- the array's capacity goes: the time between the two in milliseconds. No request is left waiting,
  -- so a second backward packet changes nothing.
  calc_response_delay-pair :
      (s : Iat D) (t1 t2 t3 : ℕ)
      → t1 ≢ 0
      → IsValid s.resp_delays
      → let answered = calc_response_delay (calc_response_delay s t1 fwd) t2 bwd in
        (contents answered.resp_delays
          ≡ take s.resp_delays.capacity
              (contents s.resp_delays ++ (d.div (d.of_ℕ (sub64 t2 t1)) (d.of_ℕ 1000) ∷ [])))
        × (calc_response_delay answered t3 bwd ≡ answered)
  unfolding calc_response_delay
  calc_response_delay-pair s t1 t2 t3 h v =
      rw (lt→ltb 0 t1 (ground arith))
        (contents-append s.resp_delays (d.div (d.of_ℕ (sub64 t2 t1)) (d.of_ℕ 1000)) v, refl)

  directions-none :
      (s : Iat D) (ts_us : ℕ) (direction : Direction)
      → s.last_fwd_us ≡ 0
      → s.last_bwd_us ≡ 0
      → update_directions s direction ts_us ≡ s
  unfolding update_directions
  directions-none s ts_us fwd f b = ground arith
  directions-none s ts_us bwd f b = ground arith
  directions-none s ts_us unknown f b = refl

  store_frame :
      (s : Iat D) (direction : Direction) (ts_us : ℕ)
      → let new = store_times s direction ts_us in SameDirections s new
  unfolding store_times
  store_frame s fwd ts_us = (refl, refl, refl, refl)
  store_frame s bwd ts_us = (refl, refl, refl, refl)
  store_frame s unknown ts_us = (refl, refl, refl, refl)

  kept_if :
      {A : Type 0}
      → (kept : Iat D → A) (test : Bool) {s t : Iat D} → kept s ≡ kept t
      → kept (if test then s else t) ≡ kept t
  kept_if kept true e = e
  kept_if kept false e = refl

  active_frame :
      (cfg : Config) (s : Iat D) (iat_us : ℕ)
      → let new = calc_active_idle_time cfg s iat_us in SameDirections s new
  unfolding calc_active_idle_time
  active_frame cfg s iat_us = elim (Bool-cases (leb iat_us cfg.active_iat_threshold_us)) [
    | inl e ↦ rw e (refl, refl, refl, refl)
    | inr e ↦ rw e (refl, refl, refl, refl)
  ]

  -- What every step of `update_later` keeps is kept by it.
  later-keeps :
      {A : Type 0} (cfg : Config) (s : Iat D) (ts_us : ℕ) (direction : Direction) (kept : Iat D → A)
      → ((t : Iat D) (x : RunningStats D) → kept (record t { iat_stats = x }) ≡ kept t)
      → ((t : Iat D) (x : CircularBuffer ℕ) → kept (record t { iat_seq = x }) ≡ kept t)
      → ((t : Iat D) (x : ℕ) → kept (calc_active_idle_time cfg t x) ≡ kept t)
      → ((t : Iat D) → kept (store_times t direction ts_us) ≡ kept t)
      → s.last_fwd_us ≡ 0
      → s.last_bwd_us ≡ 0
      → kept (update_later cfg s ts_us direction) ≡ kept s
  unfolding update_later
  later-keeps cfg s ts_us direction kept stats seq active stored f b =
      stored _
      ∙ kept_if kept (is_set cfg.enable_iat_active) (active _ _)
      ∙ kept_if kept (is_set cfg.need_iat_seq) (seq _ _)
      ∙ kept_if kept (is_set cfg.need_fwd_bwd_iats) (
          ap kept (
            directions-none _ ts_us direction
              (kept_if (λ t. t.last_fwd_us) (is_set cfg.enable_iat_stats) refl ∙ f)
              (kept_if (λ t. t.last_bwd_us) (is_set cfg.enable_iat_stats) refl ∙ b)))
      ∙ kept_if kept (is_set cfg.enable_iat_stats) (stats _ _)

  later-none :
      (cfg : Config) (s : Iat D) (ts_us : ℕ) (direction : Direction)
      → s.last_fwd_us ≡ 0
      → s.last_bwd_us ≡ 0
      → let new = update_later cfg s ts_us direction in SameDirections s new
  later-none cfg s ts_us direction f b = (
    later-keeps cfg s ts_us direction (λ t. t.fwd_iats) (λ t x. refl) (λ t x. refl)
        (λ t x. (active_frame cfg t x).0) (λ t. (store_frame t direction ts_us).0) f b,
    later-keeps cfg s ts_us direction (λ t. t.bwd_iats) (λ t x. refl) (λ t x. refl)
        (λ t x. (active_frame cfg t x).1) (λ t. (store_frame t direction ts_us).1) f b,
    later-keeps cfg s ts_us direction (λ t. t.fwd_iat) (λ t x. refl) (λ t x. refl)
        (λ t x. (active_frame cfg t x).2) (λ t. (store_frame t direction ts_us).2) f b,
    later-keeps cfg s ts_us direction (λ t. t.bwd_iat) (λ t x. refl) (λ t x. refl)
        (λ t x. (active_frame cfg t x).3) (λ t. (store_frame t direction ts_us).3) f b,
  )

  first_eq :
      (cfg : Config) (s : Iat D) (ts_us : ℕ) (direction : Direction)
      → s.last_arrival_us ≡ 0
      → calc_iat_update cfg s ts_us direction ≡ record s { last_arrival_us = ts_us }
  unfolding calc_iat_update
  first_eq cfg s ts_us direction h = ground arith

  update-none :
      (cfg : Config) (s : Iat D) (ts_us : ℕ) (direction : Direction)
      → s.last_fwd_us ≡ 0
      → s.last_bwd_us ≡ 0
      → let new = calc_iat_update cfg s ts_us direction in SameDirections s new
  unfolding calc_iat_update
  update-none cfg s ts_us direction f b = elim (Bool-cases (s.last_arrival_us == 0)) [
    | inl e ↦ rw e (refl, refl, refl, refl)
    | inr e ↦ rw e (later-none cfg s ts_us direction f b)
  ]

  -- After the first packet of a flow, whatever its direction is, no time is stored for either
  -- direction, so the second packet, even one of the same direction, adds nothing to the arrays and
  -- to the statistics of the times between packets of one direction.
  pub first_directional_iat :
      (cfg : Config) (s : Iat D) (t1 t2 : ℕ) (direction1 direction2 : Direction)
      → s.last_arrival_us ≡ 0
      → s.last_fwd_us ≡ 0
      → s.last_bwd_us ≡ 0
      → let first = calc_iat_update cfg s t1 direction1 in
        ((first.last_fwd_us ≡ 0) × (first.last_bwd_us ≡ 0))
        × SameDirections s (calc_iat_update cfg first t2 direction2)
  first_directional_iat cfg s t1 t2 direction1 direction2 h f b =
      rw (first_eq cfg s t1 direction1 h)
        ((f, b), update-none cfg (record s { last_arrival_us = t1 }) t2 direction2 f b)
