-- ===== src/Flow/Life.antt =====
-- A flow from its first call to its last.
use ti_features.Prelude.{
  ℕ, ◌+◌, ◌%◌, ◌^◌, ◌≡◌, refl, ap, ◌∙◌, ◌&&◌, Bool, true, false, Option, none, some, List, [], ◌∷◌,
  ◌++◌, length, arith, ◌⊎◌, inl, inr, add64,
}
use ti_features.Double.{Double, zeroed_double}
use ti_features.Config.{Config}
use ti_features.Basic.{Counters, calc_basic_counters, count_direction}
use ti_features.FeatureStats.{Direction}
use ti_features.CircularBuffer.{Status, done, failed}
use ti_features.MemoryPool.{Pool, FlowLevel, upgrade}
use ti_features.Flow.{FlowState, pending, data_state, close, Call, Memory, System}
use ti_features.Flow.Packet.{time_of, state_flag}
use ti_features.Flow.Grow.{take_block, grow_to, grow_by, grow}
use ti_features.Flow.Data.{process_data, update}
use ti_features.Flow.Process.{
  give_me, on_data, on_first, on_pending, on_close, on_state, traffic_process,
}
use ti_features.Flow.Started.{has_memory}
use ti_features.Flow.Reach.{IsSound, process_data-IsSound, create-cases}
use ti_features.Flow.Processed.{retimed-Represents}

-- Calls for packets between the first and the last.
abbrev pub AreData : List (Memory × Call) → Type 0
AreData [] = Unit {0}
AreData ((m, c) ∷ calls) = (state_flag c ≡ data_state) × AreData calls

Status-cases : (s : Status) → (s ≡ done) ⊎ (s ≡ failed)
Status-cases done = inl refl
Status-cases failed = inr refl

module _ {D : Type 0} ⦃d : Double D⦄ where
  -- What a check leaves alone.
  abbrev Frame : FlowState D → FlowState D → Type 0
  Frame f new =
      (new.counters.total_packets ≡ f.counters.total_packets)
      × (new.flow_start_us ≡ f.flow_start_us)
      × (new.last_pkt_us ≡ f.last_pkt_us)

  grow_to-Frame :
      (larger : Bool) (has : ℕ → Bool) (f : FlowState D) (pool : Pool D) (level : FlowLevel)
      → Frame f (grow_to larger has f pool level)
  unfolding grow_to take_block
  grow_to-Frame larger has f pool level = elim (Status-cases (upgrade pool level larger).0) [
    | inl e ↦ rw (e, grow_to) (refl, refl, refl)
    | inr e ↦ rw (e, grow_to) (refl, refl, refl)
  ]

  grow_by-Frame :
      (m : Memory) (f : FlowState D) (ask : Bool) (pool : Pool D) (next : Option FlowLevel)
      → Frame f (grow_by m f ask pool next)
  unfolding grow_by
  grow_by-Frame m f false pool next = (refl, refl, refl)
  grow_by-Frame m f true pool none = (refl, refl, refl)
  grow_by-Frame m f true pool (some level) = grow_to-Frame m.has_larger m.has_snapshot f pool level

  grow-Frame : (m : Memory) (f : FlowState D) → Frame f (grow m f)
  unfolding grow
  grow-Frame m f = grow_by-Frame m f _ _ _

  total-counters :
      (cfg : Config) (s : Counters D) (direction : Direction) (pkt_len payload_len : ℕ)
      → (calc_basic_counters cfg s direction pkt_len payload_len).total_packets
        ≡ add64 s.total_packets 1
  unfolding calc_basic_counters count_direction
  total-counters cfg s direction pkt_len payload_len = ground arith

  -- A packet is counted, and its time stored.
  total-process_data :
      (cfg : Config) (sys : System) (m : Memory) (c : Call) (f : FlowState D)
      → let new = process_data cfg sys m c f in
        (new.counters.total_packets ≡ add64 f.counters.total_packets 1)
        × (new.flow_start_us ≡ f.flow_start_us)
        × (new.last_pkt_us ≡ time_of cfg c)
  unfolding process_data update
  total-process_data cfg sys m c f =
      let timed = record f { last_pkt_us = time_of cfg c } in
      let (total, start, last) = grow-Frame m timed in
      (total-counters cfg (grow m timed).counters _ _ _ ∙ ap (λ n. add64 n 1) total, start, last)

  -- The states that features were computed from, with those of later calls.
  abbrev pub closed_first : Option (FlowState D) → List (FlowState D) → List (FlowState D)
  closed_first none closed = closed
  closed_first (some f) closed = f ∷ closed

  -- The calls of `traffic_process` for a flow: its slot after them, and the states that features were
  -- computed from.
  unfoldable pub run :
      Config
      → System
      → Option (FlowState D)
      → List (Memory × Call)
      → Option (FlowState D) × List (FlowState D)
  run cfg sys slot [] = (slot, [])
  run cfg sys slot ((m, c) ∷ calls) =
      let out = traffic_process cfg sys m c slot in
      let (last, closed) = run cfg sys out.slot calls in (last, closed_first out.closed closed)

  -- What a flow's state has after some more packets.
  abbrev After : FlowState D → ℕ → FlowState D → Type 0
  After f n new =
      IsSound (some new)
      × (new.counters.total_packets % 2 ^ 64 ≡ (f.counters.total_packets + n) % 2 ^ 64)
      × (new.flow_start_us ≡ f.flow_start_us)

  run-data :
      (cfg : Config) (sys : System) (f : FlowState D) (calls rest : List (Memory × Call))
      → AreData calls
      → IsSound (some f)
      → (new : FlowState D) × (run cfg sys (some f) (calls ++ rest) ≡ run cfg sys (some new) rest)
        × After f (length calls) new
  unfolding run traffic_process on_state on_data
  run-data cfg sys f [] rest are s = (f, refl, (s, omega arith, refl))
  run-data cfg sys f ((m, c) ∷ calls) rest (e, are) s =
      let next = process_data cfg sys m c f in
      let (total, start, _) = total-process_data cfg sys m c f in
      let (new, same, (sound, totals, starts)) =
        run-data cfg sys next calls rest are (process_data-IsSound cfg sys m c f s) in
      (new, rw e same, (sound, omega arith, starts ∙ start))

  first_call :
      (cfg : Config) (sys : System) (m : Memory) (c : Call)
      → state_flag c ≡ pending
      → m.has_state && has_memory m ≡ true
      → (f : FlowState D) × (traffic_process cfg sys m c none
          ≡ record { slot = some f; closed = none; answer = give_me })
        × IsSound (some f)
        × (f.counters.total_packets ≡ 1)
        × (f.flow_start_us ≡ time_of cfg c)
  unfolding traffic_process on_state on_pending on_first on_data
  first_call cfg sys m c e there = elim (create-cases ⦃d = d⦄ cfg m c) [
    | inr (missing, _) ↦ absurd (ground arith)
    | inl (_, (f, made, (v, _, _, none_yet), start)) ↦
        (let timed = record f { last_pkt_us = time_of cfg c } in
          let (total, starts, _) = total-process_data cfg sys m c timed in
          (
            process_data cfg sys m c timed,
            rw (e, made) refl,
            process_data-IsSound cfg sys m c timed
                (_, retimed-Represents f _ f.flow_start_us (time_of cfg c) v),
            omega arith,
            starts ∙ start,
          ))
  ]

  -- A flow whose first call finds memory for its state goes through its packets to its close,
  -- whatever the later allocations: its slot is empty at the end, and features are computed just
  -- once, from a sound state that has counted the first packet and every packet up to the close, and
  -- that started at the first packet's time.
  pub run_life :
      (cfg : Config) (sys : System) (m : Memory) (c : Call) (calls : List (Memory × Call))
      (m' : Memory) (c' : Call)
      → state_flag c ≡ pending
      → m.has_state && has_memory m ≡ true
      → AreData calls
      → state_flag c' ≡ close
      → (f : FlowState D) × (run cfg sys none ((m, c) ∷ calls ++ ((m', c') ∷ [])) ≡ (none, f ∷ []))
        × IsSound (some f)
        × (f.counters.total_packets % 2 ^ 64 ≡ (1 + length calls) % 2 ^ 64)
        × (f.flow_start_us ≡ time_of cfg c)
  unfolding run traffic_process on_state on_close
  run_life cfg sys m c calls m' c' first there are last =
      let (f1, opened, sound, total, start) = first_call cfg sys m c first there in
      let (f, same, (sound', total', start')) =
        run-data cfg sys f1 calls ((m', c') ∷ []) are sound in
      let closing : run cfg sys (some f) ((m', c') ∷ []) ≡ (none, f ∷ []) = rw last refl in
      (
        f,
        ap
              (λ out.
                let (slot, closed) = run cfg sys out.slot (calls ++ ((m', c') ∷ [])) in
                (slot, closed_first out.closed closed))
              opened
            ∙ same
            ∙ closing,
        sound',
        omega arith,
        start' ∙ start,
      )
