-- ===== src/Flow/Grown/Blocks.antt =====
-- The state that has taken a larger block over is sound.
use ti_features.Prelude.{ℕ, ◌≤◌, ◌<◌, ◌≡◌, refl, sym, ◌∙◌, length, arith}
use ti_features.Double.{Double, zeroed_double}
use ti_features.MemoryPool.{Pool, Slice, zeroed_ℕ}
use ti_features.MemoryPool.Upgrade.{IsValid}
use ti_features.BoundedArray.{BoundedArray}
use ti_features.Rings.{TempBuffers, no_buffers}
use ti_features.Flow.{FlowState, SeqRings, zeroed_direction, rings_of}
use ti_features.Flow.Grow.{take_over, stored_arrays, take_block}
use ti_features.Flow.Grown.Regions.{relaid}
use ti_features.Flow.Valid.{Sequences, AllHold, HasRoom, HaveRoom, Represents}

take_over-HasRoom :
    {A : Type 0} (s : ℕ) (b : BoundedArray A)
    → HasRoom s b
    → (n : ℕ) (a : Slice A) → s ≤ n
    → n ≤ 5000
    → length a.cells ≡ n
    → HasRoom n (take_over b a n)
take_over-HasRoom s b (v, e) n a longer small fits =
    (record { room = fits; within = omega (arith, v.within); small = omega arith }, refl)

module _ {D : Type 0} ⦃d : Double D⦄ where
  pub seq_len_small :
      (pool : Pool D) → IsValid pool → (0 < pool.actual_seq_len) × (pool.actual_seq_len ≤ 5000)
  seq_len_small pool v = ground arith

  -- The arrays that a valid and larger pool hands over have room.
  take_block-HaveRoom :
      (f : FlowState D) (pool : Pool D) (temp : TempBuffers) (r : SeqRings) (s : ℕ)
      → HaveRoom s f
      → s ≤ pool.actual_seq_len
      → IsValid pool
      → pool.num_windows ≡ 100
      → pool.resp_delay_capacity ≡ 1000
      → HaveRoom pool.actual_seq_len (take_block f pool temp r)
  unfolding take_block
  take_block-HaveRoom f pool temp r s room longer v e k =
      let (_, small) = seq_len_small pool v in
      let fits = v.laid_out in
      record {
        fwd_payload_sizes_room =
            take_over-HasRoom s f.counters.fwd_payload_sizes room.fwd_payload_sizes_room
              pool.actual_seq_len pool.arrays.fwd_payload_sizes longer small
              fits.fwd_payload_sizes_fits.0;
        bwd_payload_sizes_room =
            take_over-HasRoom s f.counters.bwd_payload_sizes room.bwd_payload_sizes_room
              pool.actual_seq_len pool.arrays.bwd_payload_sizes longer small
              fits.bwd_payload_sizes_fits.0;
        fwd_pkt_lens_room =
            take_over-HasRoom s f.lengths.fwd_pkt_lens room.fwd_pkt_lens_room pool.actual_seq_len
              pool.arrays.fwd_pkt_lens longer small fits.fwd_pkt_lens_fits.0;
        bwd_pkt_lens_room =
            take_over-HasRoom s f.lengths.bwd_pkt_lens room.bwd_pkt_lens_room pool.actual_seq_len
              pool.arrays.bwd_pkt_lens longer small fits.bwd_pkt_lens_fits.0;
        fwd_iats_room =
            take_over-HasRoom s f.iat.fwd_iats room.fwd_iats_room pool.actual_seq_len
              pool.arrays.fwd_iats longer small fits.fwd_iats_fits.0;
        bwd_iats_room =
            take_over-HasRoom s f.iat.bwd_iats room.bwd_iats_room pool.actual_seq_len
              pool.arrays.bwd_iats longer small fits.bwd_iats_fits.0;
        first_n_room = room.first_n_room;
        resp_delays_valid = record {
          room = fits.resp_delays_fits.0 ∙ k ∙ sym room.resp_delays_eq;
          within = room.resp_delays_valid.within;
          small = room.resp_delays_valid.small;
        };
        resp_delays_eq = room.resp_delays_eq;
        burst_room = record {
          sizes_room = fits.burst_sizes_fits.0;
          durations_room = fits.burst_durations_fits.0;
          intervals_room = fits.burst_intervals_fits.0;
          counts_room = fits.burst_packet_counts_fits.0;
          within = omega (arith, room.burst_room.within);
          small = omega arith;
        };
        windows_room = (
          room.windows_room.0,
          fits.window_pkt_counts_fits.0 ∙ e,
          fits.window_byte_counts_fits.0 ∙ e,
          fits.window_bitrate_fits.0 ∙ e,
        );
      }

  -- A valid and larger pool stays valid with other temporary buffers.
  pub offset-IsValid :
      (f : FlowState D) (pool : Pool D) (s offset : ℕ)
      → HaveRoom s f
      → s ≤ pool.actual_seq_len
      → IsValid pool
      → pool.num_windows ≡ 100
      → pool.resp_delay_capacity ≡ 1000
      → offset ≤ pool.temp_mem_size
      → IsValid (record pool { temp_mem_offset = offset })
  unfolding take_block stored_arrays
  offset-IsValid f pool s offset room longer v e k inside =
      let moved = take_block-HaveRoom f pool no_buffers (rings_of f) s room longer v e k in
      record {
        seq_len_eq = v.seq_len_eq;
        laid_out =
            relaid (take_block f pool no_buffers (rings_of f)) pool offset pool.current_pkt_count
              pool.actual_seq_len pool.num_windows pool.resp_delay_capacity pool.needs_upgrade moved
              e k inside v.laid_out;
      }

  pub take_block-Represents :
      (f : FlowState D) (pool : Pool D) (temp : TempBuffers) (r : SeqRings) (s : ℕ) (h : Sequences)
      → HaveRoom s f
      → s ≤ pool.actual_seq_len
      → IsValid pool
      → pool.num_windows ≡ 100
      → pool.resp_delay_capacity ≡ 1000
      → AllHold pool.actual_seq_len r h
      → Represents (take_block f pool temp r) h
  unfolding take_block
  take_block-Represents f pool temp r s h room longer v e k rings = record {
    pool_valid = v;
    windows_eq = e;
    delays_eq = k;
    rings = record {
      pkt_len_holds = rings.pkt_len_holds;
      iat_holds = rings.iat_holds;
      dir_holds = rings.dir_holds;
      ts_holds = rings.ts_holds;
      tcp_window_holds = rings.tcp_window_holds;
      udp_len_holds = rings.udp_len_holds;
      ip_ttl_holds = rings.ip_ttl_holds;
      ip_tos_holds = rings.ip_tos_holds;
      payload_size_holds = rings.payload_size_holds;
      payload_size_diff_holds = rings.payload_size_diff_holds;
      l3_len_holds = rings.l3_len_holds;
      l4_len_holds = rings.l4_len_holds;
      payload_len_holds = rings.payload_len_holds;
    };
    room = take_block-HaveRoom f pool temp r s room longer v e k;
  }
