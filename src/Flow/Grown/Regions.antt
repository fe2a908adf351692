-- ===== src/Flow/Grown/Regions.antt =====
-- The regions of a pool stay where they are when packets are counted and buffers are bound.
use ti_features.Prelude.{ℕ, ◌≤◌, ◌≡◌, sym, ◌∙◌, Bool, arith}
use ti_features.Double.{Double, zeroed_double}
use ti_features.MemoryPool.{Pool, zeroed_ℕ, check_upgrade, alloc_temp}
use ti_features.MemoryPool.Layout.{IsLaidOut}
use ti_features.Rings.{bind_temp_buffers}
use ti_features.Flow.{FlowState, zeroed_direction}
use ti_features.Flow.Grow.{stored_arrays}
use ti_features.Flow.Valid.{HaveRoom}

module _ {D : Type 0} ⦃d : Double D⦄ where
  -- What the components have stored, the counts of packets and the temporary buffers do not move
  -- the regions.
  pub relaid :
      (f : FlowState D) (pool : Pool D) (offset count s w r : ℕ) (needs : Bool)
      → HaveRoom s f
      → w ≡ 100
      → r ≡ 1000
      → offset ≤ pool.temp_mem_size
      → IsLaidOut pool s w r
      → IsLaidOut
          (record pool {
            arrays = stored_arrays f pool.arrays;
            temp_mem_offset = offset;
            current_pkt_count = count;
            needs_upgrade = needs;
          })
          s
          w
          r
  unfolding stored_arrays
  relaid f pool offset count s w r needs h e k inside v = record {
    fwd_pkt_lens_fits = (h.fwd_pkt_lens_room.0.room ∙ h.fwd_pkt_lens_room.1, v.fwd_pkt_lens_fits.1);
    bwd_pkt_lens_fits = (h.bwd_pkt_lens_room.0.room ∙ h.bwd_pkt_lens_room.1, v.bwd_pkt_lens_fits.1);
    fwd_iats_fits = (h.fwd_iats_room.0.room ∙ h.fwd_iats_room.1, v.fwd_iats_fits.1);
    bwd_iats_fits = (h.bwd_iats_room.0.room ∙ h.bwd_iats_room.1, v.bwd_iats_fits.1);
    fwd_payload_sizes_fits =
        (h.fwd_payload_sizes_room.0.room ∙ h.fwd_payload_sizes_room.1, v.fwd_payload_sizes_fits.1);
    bwd_payload_sizes_fits =
        (h.bwd_payload_sizes_room.0.room ∙ h.bwd_payload_sizes_room.1, v.bwd_payload_sizes_fits.1);
    window_pkt_counts_fits = (h.windows_room.1 ∙ sym e, v.window_pkt_counts_fits.1);
    window_byte_counts_fits = (h.windows_room.2 ∙ sym e, v.window_byte_counts_fits.1);
    window_bitrate_fits = (h.windows_room.3 ∙ sym e, v.window_bitrate_fits.1);
    burst_sizes_fits = (h.burst_room.sizes_room, v.burst_sizes_fits.1);
    burst_durations_fits = (h.burst_room.durations_room, v.burst_durations_fits.1);
    burst_intervals_fits = (h.burst_room.intervals_room, v.burst_intervals_fits.1);
    burst_packet_counts_fits = (h.burst_room.counts_room, v.burst_packet_counts_fits.1);
    resp_delays_fits = (h.resp_delays_valid.room ∙ h.resp_delays_eq ∙ sym k, v.resp_delays_fits.1);
    ring_fits = v.ring_fits;
    rings_fit = v.rings_fit;
    temp_fits = v.temp_fits;
    temp_is = v.temp_is;
    temp_aligned = v.temp_aligned;
    temp_within = inside;
  }

  pub bind-frame :
      (pool : Pool D) (n : ℕ)
      → pool.temp_mem_offset ≤ pool.temp_mem_size
      → let bound = (bind_temp_buffers pool n).1 in
        (bound ≡ record pool { temp_mem_offset = bound.temp_mem_offset })
        × (bound.temp_mem_offset ≤ pool.temp_mem_size)
  unfolding bind_temp_buffers alloc_temp
  bind-frame pool n h = ground arith

  pub check-frame :
      (pool : Pool D)
      → let new = (check_upgrade pool).1 in
        new ≡ record pool {
          current_pkt_count = new.current_pkt_count;
          needs_upgrade = new.needs_upgrade;
        }
  unfolding check_upgrade
  check-frame pool = ground arith
