-- ===== src/MemoryPool/Layout.antt =====
-- Where the regions of a block lie: in order, apart, inside the block, and large enough.
use mathlib.Core.Path.{subst}
use mathlib.Core.Option.{some-injective}
use ti_features.Prelude.{
  ℕ, ◌+◌, ◌-◌, ◌*◌, ◌%◌, ◌^◌, ◌≤◌, ◌<◌, ◌≡◌, refl, true, some, length, arith, length-replicate,
}
use ti_features.CircularBuffer.{Zeroed}
use ti_features.MemoryPool.{
  FlowLevel, tiny, small, level_to_seq_len, calc_size_ex, Slice, Pool, u32_size, u64_size,
  temp_size, starts, init_ex,
}

-- An array of `n` elements of `size` bytes that ends where the next region may start.
abbrev pub Fits : {A : Type 0} → Slice A → ℕ → ℕ → ℕ → Type 0
Fits a n size next = (length a.cells ≡ n) × (a.start + n * size ≤ next)

-- The arrays, the ring region and the temporary region follow one another without overlap, and end
-- with the block. The ring region holds the thirteen sequences: ten of unsigned int, two of unsigned
-- long long and one of signed char, 57 bytes for each packet.
pub record IsLaidOut {D : Type 0} (pool : Pool D) (s w r : ℕ) : Type 0 where
  pub fwd_pkt_lens_fits : Fits pool.arrays.fwd_pkt_lens s u32_size pool.arrays.bwd_pkt_lens.start
  pub bwd_pkt_lens_fits : Fits pool.arrays.bwd_pkt_lens s u32_size pool.arrays.fwd_iats.start
  pub fwd_iats_fits : Fits pool.arrays.fwd_iats s u64_size pool.arrays.bwd_iats.start
  pub bwd_iats_fits : Fits pool.arrays.bwd_iats s u64_size pool.arrays.fwd_payload_sizes.start
  pub fwd_payload_sizes_fits :
      Fits pool.arrays.fwd_payload_sizes s u32_size pool.arrays.bwd_payload_sizes.start
  pub bwd_payload_sizes_fits :
      Fits pool.arrays.bwd_payload_sizes s u32_size pool.arrays.window_pkt_counts.start
  pub window_pkt_counts_fits :
      Fits pool.arrays.window_pkt_counts w u32_size pool.arrays.window_byte_counts.start
  pub window_byte_counts_fits :
      Fits pool.arrays.window_byte_counts w u32_size pool.arrays.window_bitrate.start
  pub window_bitrate_fits : Fits pool.arrays.window_bitrate w u32_size pool.arrays.burst_sizes.start
  pub burst_sizes_fits : Fits pool.arrays.burst_sizes s u32_size pool.arrays.burst_durations.start
  pub burst_durations_fits :
      Fits pool.arrays.burst_durations s u64_size pool.arrays.burst_intervals.start
  pub burst_intervals_fits :
      Fits pool.arrays.burst_intervals s u64_size pool.arrays.burst_packet_counts.start
  pub burst_packet_counts_fits :
      Fits pool.arrays.burst_packet_counts s u32_size pool.arrays.resp_delays.start
  pub resp_delays_fits : Fits pool.arrays.resp_delays r u64_size pool.ring_buffer_data
  pub ring_fits : pool.ring_buffer_data + pool.ring_buffer_size ≡ pool.temp_mem
  pub rings_fit : 57 * s ≤ pool.ring_buffer_size
  pub temp_fits : pool.temp_mem + pool.temp_mem_size ≡ pool.dynamic_mem_size
  pub temp_is : pool.temp_mem_size ≡ temp_size
  pub temp_aligned : pool.temp_mem % 64 ≡ 0
  pub temp_within : pool.temp_mem_offset ≤ pool.temp_mem_size

-- The request stays far below 2 ^ 64 for any configuration of unsigned int values, and is a
-- multiple of 64.
calc_size_ex-lt :
    (level : FlowLevel) (w r : ℕ)
    → w < 2 ^ 32
    → r < 2 ^ 32
    → (calc_size_ex level w r < 2 ^ 37) × (calc_size_ex level w r % 64 ≡ 0)
unfolding calc_size_ex
calc_size_ex-lt tiny w r h k = omega arith
calc_size_ex-lt small w r h k = omega arith
calc_size_ex-lt _ w r h k = omega arith

-- The last regions: what the arrays leave of the block.
pub tail_fits :
    (level : FlowLevel) (w r : ℕ)
    → let s = level_to_seq_len level in
      let total = calc_size_ex level w r in
      let end = (starts s w r).end in
      (end + (total - end - temp_size) ≡ total - temp_size)
      × (57 * s ≤ total - end - temp_size)
      × (total - temp_size + temp_size ≡ total)
      × ((total - temp_size) % 64 ≡ 0)
unfolding calc_size_ex
tail_fits level w r = omega arith

module _ {D : Type 0} ⦃z : Zeroed D⦄ where
  -- `flow_mem_pool_init_ex` cuts the block into regions that do not overlap and hold what is stored
  -- in them, at every level.
  pub init_ex-IsLaidOut :
      (level : FlowLevel) (w r : ℕ) (pool : Pool D)
      → init_ex level w r true ≡ some pool
      → IsLaidOut pool (level_to_seq_len level) w r
  unfolding init_ex
  init_ex-IsLaidOut level w r pool e =
      let (ring_eq, rings, temp_eq, aligned) = tail_fits level w r in
      subst (λ p. IsLaidOut p (level_to_seq_len level) w r) (some-injective _ _ e)
        (record {
          fwd_pkt_lens_fits = (length-replicate (level_to_seq_len level) 0, omega arith);
          bwd_pkt_lens_fits = (length-replicate (level_to_seq_len level) 0, omega arith);
          fwd_iats_fits = (length-replicate (level_to_seq_len level) 0, omega arith);
          bwd_iats_fits = (length-replicate (level_to_seq_len level) 0, omega arith);
          fwd_payload_sizes_fits = (length-replicate (level_to_seq_len level) 0, omega arith);
          bwd_payload_sizes_fits = (length-replicate (level_to_seq_len level) 0, omega arith);
          window_pkt_counts_fits = (length-replicate w 0, omega arith);
          window_byte_counts_fits = (length-replicate w 0, omega arith);
          window_bitrate_fits = (length-replicate w 0, omega arith);
          burst_sizes_fits = (length-replicate (level_to_seq_len level) 0, omega arith);
          burst_durations_fits = (length-replicate (level_to_seq_len level) 0, omega arith);
          burst_intervals_fits = (length-replicate (level_to_seq_len level) 0, omega arith);
          burst_packet_counts_fits = (length-replicate (level_to_seq_len level) 0, omega arith);
          resp_delays_fits = (length-replicate r z.zeroed, omega arith);
          ring_fits = ring_eq;
          rings_fit = rings;
          temp_fits = temp_eq;
          temp_is = refl;
          temp_aligned = aligned;
          temp_within = omega arith;
        })
