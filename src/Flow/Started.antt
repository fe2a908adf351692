-- ===== src/Flow/Started.antt =====
-- The state of a new flow is sound and its rings are empty.
pub mod Rings
use mathlib.Core.Path.{subst}
use ti_features.Prelude.{
  ℕ, ◌+◌, ◌*◌, ◌^◌, ◌≤◌, ◌<◌, ◌≡◌, refl, ap, sym, ◌∙◌, ◌&&◌, Bool, true, false, Option, none, some,
  List, [], length, length-replicate, arith, ltb, ◌==◌, if◌then◌else◌, ◌>>=◌, ◌⊎◌, inl, inr,
}
use ti_features.Double.{Double, zeroed_double}
use ti_features.Config.{Config}
use ti_features.CircularBuffer.{CircularBuffer, Zeroed}
use ti_features.MemoryPool.{
  Pool, Slice, FlowLevel, tiny, init_ex, calc_size_ex, get_ring_buffer, level_to_seq_len, zeroed_ℕ,
}
use ti_features.MemoryPool.Layout.{IsLaidOut, init_ex-IsLaidOut}
use ti_features.MemoryPool.Upgrade.{IsValid}
use ti_features.BoundedArray
use ti_features.BoundedArray.{BoundedArray}
use ti_features.FeatureStats.{Direction}
use ti_features.Rings.{TempBuffers, empty_ring, bind_temp_buffers}
use ti_features.Rings.Moves.{empty_ring-contents}
use ti_features.Rings.Rebound.{Holds, get_ring_buffer-some}
use ti_features.Flow.{FlowState, SeqRings, Memory, zeroed_direction, rings_of}
use ti_features.Flow.Init.{
  init_ring, init_rings, bind_array, first_n_capacity_of, fill_state, set_up, flow_state_init,
}
use ti_features.Flow.Grow.{stored_arrays}
use ti_features.Flow.Started.Rings.{no_sequences, empty_rings, empty_rings-AllHold, init_rings-some}
use ti_features.Flow.Valid.{Sequences, AllHold, HasRoom, HaveRoom, Represents}
use ti_features.Flow.Grown.Regions.{relaid, bind-frame}
use ti_features.Flow.Grown.Blocks.{seq_len_small}

bind_array-HasRoom :
    {A : Type 0} (a : Slice A) (n : ℕ) → length a.cells ≡ n → n ≤ 5000 → HasRoom n (bind_array a n)
bind_array-HasRoom a n fits small =
    (record { room = fits; within = omega arith; small = omega arith }, refl)

-- Whether all that `flow_state_init` allocates is there.
abbrev pub has_memory : Memory → Bool
has_memory m = m.has_first_n && m.has_pool && m.has_block

module _ {D : Type 0} ⦃d : Double D⦄ where
  fill_state-HaveRoom :
      (cfg : Config) (pool : Pool D) (temp : TempBuffers) (r : SeqRings)
      → IsValid pool
      → pool.num_windows ≡ 100
      → pool.resp_delay_capacity ≡ 1000
      → HaveRoom pool.actual_seq_len (fill_state cfg pool temp r)
  unfolding fill_state
  fill_state-HaveRoom cfg pool temp r v e k =
      let (_, small) = seq_len_small pool v in
      let fits = v.laid_out in
      let n = pool.actual_seq_len in
      record {
        fwd_payload_sizes_room =
            bind_array-HasRoom pool.arrays.fwd_payload_sizes n fits.fwd_payload_sizes_fits.0 small;
        bwd_payload_sizes_room =
            bind_array-HasRoom pool.arrays.bwd_payload_sizes n fits.bwd_payload_sizes_fits.0 small;
        fwd_pkt_lens_room =
            bind_array-HasRoom pool.arrays.fwd_pkt_lens n fits.fwd_pkt_lens_fits.0 small;
        bwd_pkt_lens_room =
            bind_array-HasRoom pool.arrays.bwd_pkt_lens n fits.bwd_pkt_lens_fits.0 small;
        fwd_iats_room = bind_array-HasRoom pool.arrays.fwd_iats n fits.fwd_iats_fits.0 small;
        bwd_iats_room = bind_array-HasRoom pool.arrays.bwd_iats n fits.bwd_iats_fits.0 small;
        first_n_room = record {
          room = length-replicate (first_n_capacity_of cfg) 0;
          within = omega arith;
          small = ground arith;
        };
        resp_delays_valid = record {
          room = fits.resp_delays_fits.0 ∙ k;
          within = omega arith;
          small = omega arith;
        };
        resp_delays_eq = refl;
        burst_room = record {
          sizes_room = fits.burst_sizes_fits.0;
          durations_room = fits.burst_durations_fits.0;
          intervals_room = fits.burst_intervals_fits.0;
          counts_room = fits.burst_packet_counts_fits.0;
          within = omega arith;
          small = omega arith;
        };
        windows_room = (
          refl,
          fits.window_pkt_counts_fits.0 ∙ e,
          fits.window_byte_counts_fits.0 ∙ e,
          fits.window_bitrate_fits.0 ∙ e,
        );
      }

  fill_state-Represents :
      (cfg : Config) (pool : Pool D) (temp : TempBuffers) (offset : ℕ)
      → IsValid pool
      → pool.num_windows ≡ 100
      → pool.resp_delay_capacity ≡ 1000
      → offset ≤ pool.temp_mem_size
      → Represents
          (fill_state cfg
            (record pool { temp_mem_offset = offset })
            temp
            (empty_rings pool.actual_seq_len))
          no_sequences
  unfolding fill_state stored_arrays
  fill_state-Represents cfg pool temp offset v e k inside =
      let n = pool.actual_seq_len in
      let (positive, small) = seq_len_small pool v in
      let laid =
        relaid (fill_state cfg pool temp (empty_rings n)) pool offset pool.current_pkt_count n
          pool.num_windows pool.resp_delay_capacity pool.needs_upgrade
          (fill_state-HaveRoom cfg pool temp (empty_rings n) v e k) e k inside v.laid_out in
      let valid : IsValid (record pool { temp_mem_offset = offset }) = record {
        seq_len_eq = v.seq_len_eq;
        laid_out = laid;
      } in
      let rings = empty_rings-AllHold n positive (omega arith) in
      record {
        pool_valid = valid;
        windows_eq = e;
        delays_eq = k;
        rings = rings;
        room =
            fill_state-HaveRoom cfg (record pool { temp_mem_offset = offset }) temp (empty_rings n)
              valid e k;
      }

  -- A pool of the smallest level, as `flow_state_init` asks for it.
  init_ex-some :
      (pool : Pool D) × (init_ex tiny 100 1000 true ≡ some pool)
      × IsValid pool
      × (pool.level ≡ tiny)
      × (pool.current_pkt_count ≡ 0)
      × (pool.num_windows ≡ 100)
      × (pool.resp_delay_capacity ≡ 1000)
  unfolding init_ex
  init_ex-some = (
    _,
    refl,
    record { seq_len_eq = refl; laid_out = init_ex-IsLaidOut tiny 100 1000 _ refl },
    refl,
    refl,
    refl,
    refl,
  )

  -- A sound state at the smallest level, with empty rings and no packet counted.
  abbrev pub IsFresh : FlowState D → Type 0
  IsFresh f =
      Represents f no_sequences
      × (f.mem_pool.level ≡ tiny)
      × (f.mem_pool.current_pkt_count ≡ 0)
      × (f.counters.total_packets ≡ 0)

  pub set_up-IsFresh :
      (cfg : Config) → (f : FlowState D) × (set_up cfg true true true ≡ some f) × IsFresh f
  unfolding set_up fill_state
  set_up-IsFresh cfg =
      let (pool, made, v, level, count, e, k) = init_ex-some in
      let n = pool.actual_seq_len in
      let (temp, bound) = bind_temp_buffers pool n in
      let (frame, inside) = bind-frame pool n v.laid_out.temp_within in
      let (positive, _) = seq_len_small pool v in
      let fits : pool.ring_buffer_size ≡ bound.ring_buffer_size =
        sym (ap (λ p. p.ring_buffer_size) frame) in
      let rings = init_rings-some bound n (omega (arith, v.laid_out.rings_fit)) positive in
      (
        fill_state cfg bound temp (empty_rings n),
        rw (made, rings) refl,
        (
          subst (λ p. Represents (fill_state cfg p temp (empty_rings n)) no_sequences) (sym frame)
              (fill_state-Represents cfg pool temp bound.temp_mem_offset v e k inside),
          ap (λ p. p.level) frame ∙ level,
          ap (λ p. p.current_pkt_count) frame ∙ count,
          refl,
        ),
      )

  set_up-cases :
      (cfg : Config) (has_first_n has_pool has_block : Bool)
      → let o = set_up {D = D} cfg has_first_n has_pool has_block in
        let all = has_first_n && has_pool && has_block in
        ((all ≡ true) × ((f : FlowState D) × (o ≡ some f) × IsFresh f))
        ⊎ ((all ≡ false) × (o ≡ none))
  unfolding set_up init_ex
  set_up-cases cfg true true true = inl (refl, set_up-IsFresh cfg)
  set_up-cases cfg true true false = inr (refl, refl)
  set_up-cases cfg true false has_block = inr (refl, refl)
  set_up-cases cfg false has_pool has_block = inr (refl, refl)

  -- `flow_state_init` succeeds when all of its memory is there, and fails when some is not. When it
  -- succeeds the state is sound, at the smallest level, with empty rings and no packet counted.
  pub flow_state_init_lem :
      (cfg : Config) (m : Memory)
      → ((has_memory m ≡ true) × ((f : FlowState D) × (flow_state_init cfg m ≡ some f) × IsFresh f))
        ⊎ ((has_memory m ≡ false) × (flow_state_init {D = D} cfg m ≡ none))
  unfolding flow_state_init
  flow_state_init_lem cfg m = set_up-cases cfg m.has_first_n m.has_pool m.has_block
