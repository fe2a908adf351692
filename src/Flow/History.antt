-- ===== src/Flow/History.antt =====
-- What the rings of a flow hold after its packets, across its moves to larger blocks.
use mathlib.Core.Path.{subst}
use mathlib.Core.List.{map-append, append_assoc, append-nil}
use ti_features.Prelude.{
  length-map, ℕ, zero, suc, ◌+◌, ◌*◌, ◌/◌, ◌≤◌, ◌<◌, ◌≡◌, ◌≢◌, ◌↔◌, refl, ap, sym, ◌∙◌, ◌&&◌, Bool,
  true, false, List, [], ◌∷◌, ◌++◌, map, length, length-append, keep_last, keep_last_all,
  keep_last-append, arith, if◌then◌else◌, if_field, ◌⊎◌, inl, inr, is_set, Bool-cases,
}
use ti_features.Double.{Double, zeroed_double}
use ti_features.Config.{Config}
use ti_features.MemoryPool.{
  Pool, FlowLevel, tiny, small, medium, large, rank, level_to_seq_len, check_upgrade, zeroed_ℕ,
}
use ti_features.MemoryPool.Upgrade
use ti_features.MemoryPool.Upgrade.{check_upgrade_lem}
use ti_features.Rings.Rebound.{kept}
use ti_features.Flow.{FlowState, Call, Memory, System}
use ti_features.Flow.Packet.{sizes_of, time_of}
use ti_features.Flow.Grow.{shared_pool}
use ti_features.Flow.Data.{process_data}
use ti_features.Flow.Valid.{pushed, Sequences, Represents}
use ti_features.Flow.Grown.Rings.{survivors}
use ti_features.Flow.Grown.Blocks.{seq_len_small}
use ti_features.Flow.Grown.{moves, checked-IsValid}
use ti_features.Flow.Started.Rings.{no_sequences}
use ti_features.Flow.Started.{IsFresh}
use ti_features.Flow.Processed.{process_data-Represents}

and_true : (b : Bool) → b && true ≡ b
and_true true = refl
and_true false = refl

is_set-true : (n : ℕ) → n ≢ 0 → is_set n ≡ true
is_set-true zero h = absurd (h refl)
is_set-true (suc n) h = refl

-- The next element goes on from what a ring of `n` elements holds of all so far, when the ring keeps
-- its capacity or has not lost any.
keep_last-next :
    {A : Type 0} (n m : ℕ) (xs old : List A) (x : A)
    → old ≡ keep_last n xs
    → (m ≡ n) ⊎ (length xs ≤ n)
    → keep_last m (old ++ (x ∷ [])) ≡ keep_last m (xs ++ (x ∷ []))
keep_last-next n m xs old x e (inl same) =
    ap (λ l. keep_last m (l ++ (x ∷ []))) (e ∙ ap (λ k. keep_last k xs) (sym same))
    ∙ keep_last-append m xs (x ∷ [])
keep_last-next n m xs old x e (inr fits) =
    ap (λ l. keep_last m (l ++ (x ∷ []))) (e ∙ keep_last_all n xs fits)

-- A ring holds the values of the last packets.
abbrev Tracks : {A : Type 0} → (Call → A) → ℕ → List Call → List A → Type 0
Tracks value n calls xs = xs ≡ keep_last n (map value calls)

Tracks-next :
    {A : Type 0} (value : Call → A) (flag n m : ℕ) (calls : List Call) (moved has : Bool) (c : Call)
    (old new : List A)
    → flag ≢ 0
    → has ≡ true
    → (m ≡ n) ⊎ (length calls ≤ n)
    → Tracks value n calls old
    → new ≡ pushed (is_set flag) m (if moved then kept has old else old) (value c)
    → Tracks value m (calls ++ (c ∷ [])) new
Tracks-next value flag n m calls moved has c old new on there fits t e =
    let none_lost : (if moved then kept has old else old) ≡ old =
      rw there (elim (Bool-cases moved) [ inl k ↦ rw k refl | inr k ↦ rw k refl ]) in
    e
    ∙ ap (λ b. pushed b m (if moved then kept has old else old) (value c)) (is_set-true flag on)
    ∙ ap (λ l. keep_last m (l ++ (value c ∷ []))) none_lost
    ∙ keep_last-next n m (map value calls) old (value c) t (shorter fits)
    ∙ ap (keep_last m) (sym (map-append value calls (c ∷ [])))
  where
    shorter : (m ≡ n) ⊎ (length calls ≤ n) → (m ≡ n) ⊎ (length (map value calls) ≤ n)
    shorter (inl same) = inl same
    shorter (inr h) = inr (omega (arith, length-map value calls))

-- The calls for a flow's packets, without what memory there was.
abbrev pub packets_of : List (Memory × Call) → List Call
packets_of [] = []
packets_of ((_, c) ∷ calls) = c ∷ packets_of calls

-- Calls in which memory for a larger block and for every snapshot is there.
abbrev pub AreSupplied : List (Memory × Call) → Type 0
AreSupplied [] = Unit {0}
AreSupplied ((m, _) ∷ calls) =
    (m.has_larger ≡ true) × ((i : ℕ) → m.has_snapshot i ≡ true) × AreSupplied calls

-- The rings of lengths, directions and times hold the values of the last of some packets.
abbrev AllTrack : Config → ℕ → List Call → Sequences → Type 0
AllTrack cfg n calls h =
    Tracks (λ c. (sizes_of c).pkt_len) n calls h.pkt_len
    × Tracks (λ c. (sizes_of c).direction) n calls h.dir
    × Tracks (time_of cfg) n calls h.ts

-- Below the largest level, the pool has counted all of the packets, and they are too few to move.
abbrev OnTime : FlowLevel → ℕ → ℕ → Type 0
OnTime level count n = level ≢ large → (count ≡ n) × (n < level_to_seq_len level * 8 / 10)

-- A packet moves its flow in time for the next level.
next-OnTime :
    (old new : FlowLevel) (count counted n : ℕ) (ask : Bool)
    → OnTime old count n
    → (ask ≡ true) ↔ ((old ≢ large) × (level_to_seq_len old * 8 / 10 ≤ counted))
    → rank new ≡ (if ask then rank old + 1 else rank old)
    → (old ≢ large → counted ≡ count + 1)
    → OnTime new counted (n + 1)
      × ((level_to_seq_len new ≡ level_to_seq_len old) ⊎ (n ≤ level_to_seq_len old))
next-OnTime tiny new count counted n ask on asks level up = ground arith
next-OnTime small new count counted n ask on asks level up = ground arith
next-OnTime medium new count counted n ask on asks level up = ground arith
next-OnTime large new count counted n ask on asks level up = ground arith

large-cases : (level : FlowLevel) → (level ≡ large) ⊎ (level ≢ large)
large-cases large = inl refl
large-cases tiny = inr (λ e. ground arith)
large-cases small = inr (λ e. ground arith)
large-cases medium = inr (λ e. ground arith)

module _ {D : Type 0} ⦃d : Double D⦄ where
  -- The branch OP_STATE_DATA for a run of packets.
  unfoldable pub process_all : Config → System → FlowState D → List (Memory × Call) → FlowState D
  process_all cfg sys f [] = f
  process_all cfg sys f ((m, c) ∷ calls) = process_all cfg sys (process_data cfg sys m c f) calls

  counted_eq :
      (pool : Pool D)
      → pool.level ≢ large
      → pool.current_pkt_count < 5000
      → (check_upgrade pool).1.current_pkt_count ≡ pool.current_pkt_count + 1
  unfolding check_upgrade
  counted_eq pool below few = ground arith

  -- A flow whose rings hold the values of some packets, and that has moved in time.
  abbrev Remembers : Config → FlowState D → List Call → Type 0
  Remembers cfg f calls =
      (h : Sequences) × Represents f h
      × AllTrack cfg f.mem_pool.actual_seq_len calls h
      × OnTime f.mem_pool.level f.mem_pool.current_pkt_count (length calls)

  process_data-Remembers :
      (cfg : Config) (sys : System) (m : Memory) (c : Call) (f : FlowState D) (calls : List Call)
      → cfg.need_pkt_len_seq ≢ 0
      → cfg.need_dir_seq ≢ 0
      → cfg.need_ts_seq ≢ 0
      → m.has_larger ≡ true
      → ((i : ℕ) → m.has_snapshot i ≡ true)
      → Remembers cfg f calls
      → Remembers cfg (process_data cfg sys m c f) (calls ++ (c ∷ []))
  process_data-Remembers cfg sys m c f calls lens dirs times larger snap
        (h, v, (len, dir, ts), on) =
      let f' = process_data cfg sys m c f in
      let n = f.mem_pool.actual_seq_len in
      let n' = f'.mem_pool.actual_seq_len in
      let (h', v', (len', dir', ts', _, _, _, _, _, _, _, _, _, _), level, count) =
        process_data-Represents cfg sys m c f h v in
      let pool = shared_pool f in
      let valid = checked-IsValid f h f.mem_pool.current_pkt_count f.mem_pool.needs_upgrade v in
      let (asks, _) = check_upgrade_lem pool valid in
      let (ask, _) = check_upgrade pool in
      let moved : moves m f ≡ ask = ap (λ b. ask && b) larger ∙ and_true ask in
      let small = seq_len_small f.mem_pool v.pool_valid in
      let same = v.pool_valid.seq_len_eq in
      let (on', fits) =
        next-OnTime f.mem_pool.level f'.mem_pool.level f.mem_pool.current_pkt_count
          f'.mem_pool.current_pkt_count (length calls) ask on
          (
            λ e. let (below, due) = asks.0 e in (below, omega (arith, due, count, same)),
            λ p. asks.1 (p.0, omega (arith, p.1, count, same)),
          )
          (level ∙ ap (λ b. if b then rank f.mem_pool.level + 1 else rank f.mem_pool.level) moved)
          (λ below.
            let (all, few) = on below in
            count ∙ counted_eq pool below (omega (arith, all, few, small.1, same))) in
      let longer : (n' ≡ n) ⊎ (length calls ≤ n) = elim fits [
        | inl e ↦ inl (v'.pool_valid.seq_len_eq ∙ e ∙ sym same)
        | inr e ↦ inr (omega (arith, e, same))
      ] in
      let before =
        if_field (λ (s : Sequences). s.pkt_len) (moves m f) (survivors m.has_snapshot h) h in
      let before_dir =
        if_field (λ (s : Sequences). s.dir) (moves m f) (survivors m.has_snapshot h) h in
      let before_ts =
        if_field (λ (s : Sequences). s.ts) (moves m f) (survivors m.has_snapshot h) h in
      (
        h',
        v',
        (
          Tracks-next (λ c. (sizes_of c).pkt_len) cfg.need_pkt_len_seq n n' calls (moves m f)
              (m.has_snapshot 0) c h.pkt_len h'.pkt_len lens (snap 0) longer len
              (len'
                ∙ ap (λ l. pushed (is_set cfg.need_pkt_len_seq) n' l (sizes_of c).pkt_len) before),
          Tracks-next (λ c. (sizes_of c).direction) cfg.need_dir_seq n n' calls (moves m f)
              (m.has_snapshot 2) c h.dir h'.dir dirs (snap 2) longer dir
              (dir'
                ∙ ap (λ l. pushed (is_set cfg.need_dir_seq) n' l (sizes_of c).direction)
                    before_dir),
          Tracks-next (time_of cfg) cfg.need_ts_seq n n' calls (moves m f) (m.has_snapshot 3) c h.ts
              h'.ts times (snap 3) longer ts
              (ts' ∙ ap (λ l. pushed (is_set cfg.need_ts_seq) n' l (time_of cfg c)) before_ts),
        ),
        subst (OnTime f'.mem_pool.level f'.mem_pool.current_pkt_count)
            (sym (length-append calls (c ∷ []))) on',
      )

  process_all-Remembers :
      (cfg : Config) (sys : System) (f : FlowState D) (before : List Call)
      (calls : List (Memory × Call))
      → cfg.need_pkt_len_seq ≢ 0
      → cfg.need_dir_seq ≢ 0
      → cfg.need_ts_seq ≢ 0
      → AreSupplied calls
      → Remembers cfg f before
      → Remembers cfg (process_all cfg sys f calls) (before ++ packets_of calls)
  unfolding process_all
  process_all-Remembers cfg sys f before [] lens dirs times s r =
      subst (Remembers cfg f) (sym (append-nil before)) r
  process_all-Remembers cfg sys f before ((m, c) ∷ calls) lens dirs times (larger, snap, s) r =
      let f' = process_data cfg sys m c f in
      let next = process_data-Remembers cfg sys m c f before lens dirs times larger snap r in
      subst (Remembers cfg (process_all cfg sys f' calls))
        (append_assoc before (c ∷ []) (packets_of calls))
        (process_all-Remembers cfg sys f' (before ++ (c ∷ [])) calls lens dirs times s next)

  IsFresh-Remembers : (cfg : Config) (f : FlowState D) → IsFresh f → Remembers cfg f []
  IsFresh-Remembers cfg f (v, level, count, _) =
      let n = f.mem_pool.actual_seq_len in
      (
        no_sequences,
        v,
        (
          sym (keep_last_all n [] (omega arith)),
          sym (keep_last_all n [] (omega arith)),
          sym (keep_last_all n [] (omega arith)),
        ),
        λ below. (count, omega (arith, ap level_to_seq_len level)),
      )

  -- The packets that a flow's rings hold on to, at any level.
  last_packets :
      {A : Type 0} (value : Call → A) (f : FlowState D) (calls : List Call) (xs : List A)
      → Upgrade.IsValid f.mem_pool
      → OnTime f.mem_pool.level f.mem_pool.current_pkt_count (length calls)
      → Tracks value f.mem_pool.actual_seq_len calls xs
      → xs ≡ keep_last 5000 (map value calls)
  last_packets value f calls xs v on t = elim (large-cases f.mem_pool.level) [
    | inl e ↦ t ∙ ap (λ n. keep_last n (map value calls)) (v.seq_len_eq ∙ ap level_to_seq_len e)
    | inr e ↦
        (let (_, few) = on e in
          let small = seq_len_small f.mem_pool v in
          let long = length-map value calls in
          let same = v.seq_len_eq in
          t
          ∙ keep_last_all f.mem_pool.actual_seq_len (map value calls) (omega arith)
          ∙ sym (keep_last_all 5000 (map value calls) (omega arith)))
  ]

  -- When the configuration needs them and memory is there for every move, the rings of a flow hold
  -- the lengths, the directions and the times of its packets in order, up to the last 5000, however
  -- often the flow has moved to a larger block.
  pub process_all-sequences :
      (cfg : Config) (sys : System) (f : FlowState D) (calls : List (Memory × Call))
      → cfg.need_pkt_len_seq ≢ 0
      → cfg.need_dir_seq ≢ 0
      → cfg.need_ts_seq ≢ 0
      → AreSupplied calls
      → IsFresh f
      → let packets = packets_of calls in
        (h : Sequences) × Represents (process_all cfg sys f calls) h
        × (h.pkt_len ≡ keep_last 5000 (map (λ c. (sizes_of c).pkt_len) packets))
        × (h.dir ≡ keep_last 5000 (map (λ c. (sizes_of c).direction) packets))
        × (h.ts ≡ keep_last 5000 (map (time_of cfg) packets))
  process_all-sequences cfg sys f calls lens dirs times s fresh =
      let packets = packets_of calls in
      let last = process_all cfg sys f calls in
      let (h, v, (len, dir, ts), on) =
        process_all-Remembers cfg sys f [] calls lens dirs times s
          (IsFresh-Remembers cfg f fresh) in
      (
        h,
        v,
        last_packets (λ c. (sizes_of c).pkt_len) last packets h.pkt_len v.pool_valid on len,
        last_packets (λ c. (sizes_of c).direction) last packets h.dir v.pool_valid on dir,
        last_packets (time_of cfg) last packets h.ts v.pool_valid on ts,
      )
