-- ===== src/Flow/Stepped/Times.antt =====
-- The updates of times keep their arrays sound and push onto their ring the time that they record.
use ti_features.Prelude.{
  ℕ, Bool, true, false, Option, none, some, List, ltb, leb, ◌==◌, if_both, is_set, sub64,
  if◌then◌else◌, Bool-cases, inl, inr,
}
use ti_features.Double.{Double, zeroed_double}
use ti_features.Config.{Config}
use ti_features.CircularBuffer.{push}
use ti_features.MemoryPool.{zeroed_ℕ}
use ti_features.FeatureStats.{Direction, fwd, bwd, unknown}
use ti_features.Rings.Rebound.{Holds}
use ti_features.Iat.{
  Iat, calc_iat_update, update_later, update_directions, calc_active_idle_time, store_times,
  calc_response_delay,
}
use ti_features.Flow.Data.{update_iat}
use ti_features.Flow.Valid.{push-Holds, gained, HasRoom, append-HasRoom}

-- The time since the packet before that a packet gives to the ring, for the time of that one.
abbrev pub iat_of : Config → ℕ → ℕ → Option ℕ
iat_of cfg last_arrival_us ts_us =
    if last_arrival_us == 0
    then none
    else (if is_set cfg.need_iat_seq then some (sub64 ts_us last_arrival_us) else none)

module _ {D : Type 0} ⦃d : Double D⦄ where
  -- The arrays of times, and the ring of times that holds a sequence.
  abbrev pub IatRoom : ℕ → List ℕ → Iat D → Type 0
  IatRoom n xs s =
      HasRoom n s.fwd_iats
      × HasRoom n s.bwd_iats
      × HasRoom 1000 s.resp_delays
      × Holds n 8 s.iat_seq xs

  update_directions-Room :
      (n : ℕ) (xs : List ℕ) (s : Iat D) (direction : Direction) (ts_us : ℕ)
      → IatRoom n xs s
      → IatRoom n xs (update_directions s direction ts_us)
  unfolding update_directions
  update_directions-Room n xs s fwd ts_us (f, b, r, q) =
      if_both (IatRoom n xs) (ltb 0 s.last_fwd_us) _ s (append-HasRoom n s.fwd_iats _ f, b, r, q)
        (f, b, r, q)
  update_directions-Room n xs s bwd ts_us (f, b, r, q) =
      if_both (IatRoom n xs) (ltb 0 s.last_bwd_us) _ s (f, append-HasRoom n s.bwd_iats _ b, r, q)
        (f, b, r, q)
  update_directions-Room n xs s unknown ts_us r = r

  store_times-Room :
      (n : ℕ) (xs : List ℕ) (s : Iat D) (direction : Direction) (ts_us : ℕ)
      → IatRoom n xs s
      → IatRoom n xs (store_times s direction ts_us)
  unfolding store_times
  store_times-Room n xs s fwd ts_us r = r
  store_times-Room n xs s bwd ts_us r = r
  store_times-Room n xs s unknown ts_us r = r

  -- The push of a time under a condition.
  store_iat-Room :
      (n : ℕ) (xs : List ℕ) (s : Iat D) (test : Bool) (iat : ℕ)
      → IatRoom n xs s
      → IatRoom n
          (gained n xs (if test then some iat else none))
          (if test then record s { iat_seq = (push s.iat_seq iat).1 } else s)
  store_iat-Room n xs s true iat (f, b, r, q) = (f, b, r, push-Holds n 8 _ xs iat q)
  store_iat-Room n xs s false iat r = r

  update_later-Room :
      (cfg : Config) (n : ℕ) (xs : List ℕ) (s : Iat D) (ts_us : ℕ) (direction : Direction)
      → IatRoom n xs s
      → IatRoom n
          (gained n xs
            (if is_set cfg.need_iat_seq then some (sub64 ts_us s.last_arrival_us) else none))
          (update_later cfg s ts_us direction)
  unfolding update_later calc_active_idle_time
  update_later-Room cfg n xs s ts_us direction r =
      let on = is_set cfg.need_iat_seq in
      let iat = sub64 ts_us s.last_arrival_us in
      let ys = gained n xs (if on then some iat else none) in
      let r1 = if_both (IatRoom n xs) (is_set cfg.enable_iat_stats) _ s r r in
      let r2 =
        if_both (IatRoom n xs) (is_set cfg.need_fwd_bwd_iats) _ _
          (update_directions-Room n xs _ direction ts_us r1) r1 in
      let r3 = store_iat-Room n xs _ on iat r2 in
      let r4 =
        if_both (IatRoom n ys) (is_set cfg.enable_iat_active) _ _
          (if_both (IatRoom n ys) (leb _ cfg.active_iat_threshold_us) _ _ r3 r3) r3 in
      store_times-Room n ys _ direction ts_us r4

  response-Room :
      (n : ℕ) (xs : List ℕ) (s : Iat D) (ts_us : ℕ) (direction : Direction)
      → IatRoom n xs s
      → IatRoom n xs (calc_response_delay s ts_us direction)
  unfolding calc_response_delay
  response-Room n xs s ts_us fwd r = r
  response-Room n xs s ts_us bwd (f, b, r, q) =
      if_both (IatRoom n xs) (ltb 0 s.last_req_ts) _ s
        (f, b, append-HasRoom 1000 s.resp_delays _ r, q) (f, b, r, q)
  response-Room n xs s ts_us unknown r = r

  pub iat-Room :
      (cfg : Config) (n : ℕ) (xs : List ℕ) (s : Iat D) (ts_us : ℕ) (direction : Direction)
      → IatRoom n xs s
      → IatRoom n
          (gained n xs (iat_of cfg s.last_arrival_us ts_us))
          (update_iat cfg s ts_us direction)
  unfolding update_iat calc_iat_update
  iat-Room cfg n xs s ts_us direction r = elim (Bool-cases (s.last_arrival_us == 0)) [
    | inl e ↦ rw e (
        if_both (IatRoom n xs) (is_set cfg.enable_iat_response) _ _
          (response-Room n xs _ ts_us direction r) r)
    | inr e ↦
        (let updated = update_later-Room cfg n xs s ts_us direction r in
          let ys =
            gained n xs
              (if is_set cfg.need_iat_seq then some (sub64 ts_us s.last_arrival_us) else none) in
          rw e (
            if_both (IatRoom n ys) (is_set cfg.enable_iat_response) _ _
              (response-Room n ys _ ts_us direction updated) updated))
  ]
