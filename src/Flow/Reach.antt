-- ===== src/Flow/Reach.antt =====
-- The slot of a flow over the calls of the traffic processor.
use mathlib.Core.Path.{subst}
use ti_features.Prelude.{
  ℕ, ◌≡◌, refl, ap, sym, ◌∙◌, ◌&&◌, Bool, true, false, Option, none, some, ◌⊎◌, inl, inr,
}
use ti_features.Double.{Double, zeroed_double}
use ti_features.Config.{Config}
use ti_features.CircularBuffer.{Status, done, failed}
use ti_features.Flow.{
  FlowState, OpState, pending, data_state, close, other_state, Call, Memory, System,
}
use ti_features.Flow.Packet.{time_of, state_flag}
use ti_features.Flow.Init.{flow_state_init}
use ti_features.Flow.Data.{process_data}
use ti_features.Flow.Process.{
  Outcome, open_flow, create, on_data, on_first, on_pending, on_close, on_state, traffic_process,
}
use ti_features.Flow.Valid.{Sequences, Represents}
use ti_features.Flow.Processed.{process_data-Represents, retimed-Represents}
use ti_features.Flow.Started.{flow_state_init_lem, has_memory, IsFresh}

Status-cases : (s : Status) → (s ≡ done) ⊎ (s ≡ failed)
Status-cases done = inl refl
Status-cases failed = inr refl

module _ {D : Type 0} ⦃d : Double D⦄ where
  -- A slot that is empty or has a sound state.
  abbrev pub IsSound : Option (FlowState D) → Type 0
  IsSound none = Unit {0}
  IsSound (some f) = (h : Sequences) × Represents f h

  pub process_data-IsSound :
      (cfg : Config) (sys : System) (m : Memory) (c : Call) (f : FlowState D)
      → IsSound (some f)
      → IsSound (some (process_data cfg sys m c f))
  process_data-IsSound cfg sys m c f (h, v) =
      let (new, sound, _, _, _) = process_data-Represents cfg sys m c f h v in (new, sound)

  open_flow-cases :
      (has : Bool) (o : Option (FlowState D)) (all : Bool) (ts_us : ℕ)
      → ((all ≡ true) × ((f : FlowState D) × (o ≡ some f) × IsFresh f))
        ⊎ ((all ≡ false) × (o ≡ none))
      → let new = open_flow has o ts_us in
        ((has && all ≡ true)
          × ((f : FlowState D) × (new ≡ some f) × IsFresh f × (f.flow_start_us ≡ ts_us)))
        ⊎ ((has && all ≡ false) × (new ≡ none))
  unfolding open_flow
  open_flow-cases false o all ts_us c = inr (refl, refl)
  open_flow-cases true o all ts_us (inr (e, k)) = inr (e, ap (λ x. open_flow true x ts_us) k)
  open_flow-cases true o all ts_us (inl (e, (f, k, (v, level, count, total)))) = inl (
    e,
    (
      record f { flow_start_us = ts_us },
      ap (λ x. open_flow true x ts_us) k,
      (retimed-Represents f _ ts_us f.last_pkt_us v, level, count, total),
      refl,
    ),
  )

  -- A flow's state is made when all memory for it is there; it is then new, from the packet's time.
  pub create-cases :
      (cfg : Config) (m : Memory) (c : Call)
      → let new = create {D = D} cfg m c in
        ((m.has_state && has_memory m ≡ true)
          × ((f : FlowState D) × (new ≡ some f) × IsFresh f × (f.flow_start_us ≡ time_of cfg c)))
        ⊎ ((m.has_state && has_memory m ≡ false) × (new ≡ none))
  unfolding create
  create-cases cfg m c =
      open_flow-cases m.has_state (flow_state_init cfg m) (has_memory m) (time_of cfg c)
        (flow_state_init_lem cfg m)

  create-IsSound :
      (cfg : Config) (m : Memory) (c : Call) (o : Option (FlowState D))
      → create cfg m c ≡ o
      → IsSound o
  create-IsSound cfg m c o same = elim (create-cases cfg m c) [
    | inl (_, (f, e, (v, _, _, _), _)) ↦ subst IsSound (sym e ∙ same) (_, v)
    | inr (_, e) ↦ subst IsSound (sym e ∙ same) tt
  ]

  -- A slot, and a state that features are computed from, that are sound.
  abbrev BothSound : Outcome D → Type 0
  BothSound out = IsSound out.slot × IsSound out.closed

  on_first-BothSound :
      (cfg : Config) (sys : System) (m : Memory) (c : Call) (o : Option (FlowState D))
      → IsSound o
      → BothSound (on_first cfg sys m c o)
  unfolding on_first on_data
  on_first-BothSound cfg sys m c none s = (tt, tt)
  on_first-BothSound cfg sys m c (some f) (h, v) = (
    process_data-IsSound cfg sys m c _
        (h, retimed-Represents f h f.flow_start_us (time_of cfg c) v),
    tt,
  )

  on_state-BothSound :
      (state : OpState) (cfg : Config) (sys : System) (m : Memory) (c : Call)
      (pme : Option (FlowState D))
      → IsSound pme
      → BothSound (on_state state cfg sys m c pme)
  unfolding on_state on_pending on_data on_close
  on_state-BothSound pending cfg sys m c none s =
      on_first-BothSound cfg sys m c _ (create-IsSound cfg m c _ refl)
  on_state-BothSound pending cfg sys m c (some f) s = on_first-BothSound cfg sys m c (some f) s
  on_state-BothSound data_state cfg sys m c none s = (tt, tt)
  on_state-BothSound data_state cfg sys m c (some f) s = (process_data-IsSound cfg sys m c f s, tt)
  on_state-BothSound close cfg sys m c none s = (tt, tt)
  on_state-BothSound close cfg sys m c (some f) s = (tt, s)
  on_state-BothSound other_state cfg sys m c pme s = (s, tt)

  -- The slots that some calls for a flow lead to, from an empty one.
  pub data IsReachable (cfg : Config) (sys : System) : Option (FlowState D) → Type 0 where
    empty : IsReachable cfg sys none
    call :
        (m : Memory) (c : Call) (slot : Option (FlowState D))
        → IsReachable cfg sys slot
        → IsReachable cfg sys (traffic_process cfg sys m c slot).slot

  -- Whatever the calls for a flow are, in whatever order, and whichever allocations fail, its slot
  -- is empty or has a sound state.
  pub IsReachable-IsSound :
      (cfg : Config) (sys : System) (slot : Option (FlowState D))
      → IsReachable cfg sys slot
      → IsSound slot
  unfolding traffic_process
  IsReachable-IsSound cfg sys _ empty = tt
  IsReachable-IsSound cfg sys _ (call m c slot r) =
      (on_state-BothSound (state_flag c) cfg sys m c slot (IsReachable-IsSound cfg sys slot r)).0

  -- After any calls for a flow, whichever allocations fail, what the next call hands on for the
  -- features, if it hands on anything, is a sound state.
  closed-IsSound :
      (cfg : Config) (sys : System) (slot : Option (FlowState D)) (m : Memory) (c : Call)
      → IsReachable cfg sys slot
      → IsSound (traffic_process cfg sys m c slot).closed
  unfolding traffic_process
  closed-IsSound cfg sys slot m c r =
      (on_state-BothSound (state_flag c) cfg sys m c slot (IsReachable-IsSound cfg sys slot r)).1
