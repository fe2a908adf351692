-- ===== src/Flow/Grow.antt =====
-- src/ti_features.cpp, the first part of the branch OP_STATE_DATA: a flow moves to a larger block.
-- The pool and the state share the arrays: what the components have written to their arrays is in
-- the pool before it is upgraded, and the components take the new arrays over.
use ti_features.Prelude.{ℕ, Bool, true, false, Option, none, some, List}
use ti_features.Double.{Double, zeroed_double}
use ti_features.CircularBuffer.{Zeroed, done, failed}
use ti_features.MemoryPool.{
  Pool, Arrays, Slice, FlowLevel, zeroed_ℕ, check_upgrade, upgrade, next_level,
}
use ti_features.Rings.{TempBuffers, capture, rebind, bind_temp_buffers}
use ti_features.BoundedArray.{BoundedArray}
use ti_features.Flow.{FlowState, SeqRings, Memory, zeroed_direction, rings_of}

-- The array of the pool with the elements that the state has stored through its pointer.
abbrev pub stored : {A : Type 0} → Slice A → List A → Slice A
stored a cells = record a { cells = cells }

-- The arrays of the pool as the components have left them.
unfoldable pub stored_arrays : {D : Type 0} → FlowState D → Arrays D → Arrays D
stored_arrays f a = record {
  fwd_pkt_lens = stored a.fwd_pkt_lens f.lengths.fwd_pkt_lens.cells;
  bwd_pkt_lens = stored a.bwd_pkt_lens f.lengths.bwd_pkt_lens.cells;
  fwd_iats = stored a.fwd_iats f.iat.fwd_iats.cells;
  bwd_iats = stored a.bwd_iats f.iat.bwd_iats.cells;
  fwd_payload_sizes = stored a.fwd_payload_sizes f.counters.fwd_payload_sizes.cells;
  bwd_payload_sizes = stored a.bwd_payload_sizes f.counters.bwd_payload_sizes.cells;
  window_pkt_counts = stored a.window_pkt_counts f.window.window_pkt_counts;
  window_byte_counts = stored a.window_byte_counts f.window.window_byte_counts;
  window_bitrate = stored a.window_bitrate f.window.window_bitrate;
  burst_sizes = stored a.burst_sizes f.burst.burst_sizes;
  burst_durations = stored a.burst_durations f.burst.burst_durations;
  burst_intervals = stored a.burst_intervals f.burst.burst_intervals;
  burst_packet_counts = stored a.burst_packet_counts f.burst.burst_packet_counts;
  resp_delays = stored a.resp_delays f.iat.resp_delays.cells;
}

abbrev pub shared_pool : {D : Type 0} → FlowState D → Pool D
shared_pool f = record (f.mem_pool) { arrays = stored_arrays f f.mem_pool.arrays }

-- The rings bound to the new block from their snapshots, one behind the other.
unfoldable pub rebind_rings :
    {D : Type 0} → ⦃y : Zeroed D⦄ → (ℕ → Bool) → SeqRings → Pool D → ℕ → SeqRings
rebind_rings has r pool s =
    let r1 = rebind r.pkt_len_seq pool 0 s 4 (capture r.pkt_len_seq (has 0)) in
    let r2 = rebind r.iat_seq pool (r1.2) s 8 (capture r.iat_seq (has 1)) in
    let r3 = rebind r.dir_seq pool (r2.2) s 1 (capture r.dir_seq (has 2)) in
    let r4 = rebind r.ts_seq pool (r3.2) s 8 (capture r.ts_seq (has 3)) in
    let r5 = rebind r.tcp_window_seq pool (r4.2) s 4 (capture r.tcp_window_seq (has 4)) in
    let r6 = rebind r.udp_len_seq pool (r5.2) s 4 (capture r.udp_len_seq (has 5)) in
    let r7 = rebind r.ip_ttl_seq pool (r6.2) s 4 (capture r.ip_ttl_seq (has 6)) in
    let r8 = rebind r.ip_tos_seq pool (r7.2) s 4 (capture r.ip_tos_seq (has 7)) in
    let r9 = rebind r.payload_size_seq pool (r8.2) s 4 (capture r.payload_size_seq (has 8)) in
    let r10 =
      rebind r.payload_size_diff_seq pool (r9.2) s 4 (capture r.payload_size_diff_seq (has 9)) in
    let r11 = rebind r.l3_len_seq pool (r10.2) s 4 (capture r.l3_len_seq (has 10)) in
    let r12 = rebind r.l4_len_seq pool (r11.2) s 4 (capture r.l4_len_seq (has 11)) in
    let r13 = rebind r.payload_len_seq pool (r12.2) s 4 (capture r.payload_len_seq (has 12)) in
    record {
      pkt_len_seq = r1.1;
      iat_seq = r2.1;
      dir_seq = r3.1;
      ts_seq = r4.1;
      tcp_window_seq = r5.1;
      udp_len_seq = r6.1;
      ip_ttl_seq = r7.1;
      ip_tos_seq = r8.1;
      payload_size_seq = r9.1;
      payload_size_diff_seq = r10.1;
      l3_len_seq = r11.1;
      l4_len_seq = r12.1;
      payload_len_seq = r13.1;
    }

-- A component's array taken over from the new block, with its new capacity.
abbrev pub take_over : {A : Type 0} → BoundedArray A → Slice A → ℕ → BoundedArray A
take_over b a capacity = record b { cells = a.cells; capacity = capacity }

-- The state once the pool has moved to its new block: pointers, capacities, buffers and rings.
unfoldable pub take_block :
    {D : Type 0} → FlowState D → Pool D → TempBuffers → SeqRings → FlowState D
take_block f pool temp r =
    let a = pool.arrays in
    let s = pool.actual_seq_len in
    record f {
      mem_pool = pool;
      temp = temp;
      counters = record (f.counters) {
        fwd_payload_sizes = take_over f.counters.fwd_payload_sizes a.fwd_payload_sizes s;
        bwd_payload_sizes = take_over f.counters.bwd_payload_sizes a.bwd_payload_sizes s;
      };
      lengths = record (f.lengths) {
        pkt_len_seq = r.pkt_len_seq;
        fwd_pkt_lens = take_over f.lengths.fwd_pkt_lens a.fwd_pkt_lens s;
        bwd_pkt_lens = take_over f.lengths.bwd_pkt_lens a.bwd_pkt_lens s;
      };
      iat = record (f.iat) {
        fwd_iats = take_over f.iat.fwd_iats a.fwd_iats s;
        bwd_iats = take_over f.iat.bwd_iats a.bwd_iats s;
        iat_seq = r.iat_seq;
        resp_delays = record (f.iat.resp_delays) { cells = a.resp_delays.cells };
      };
      tcp = record (f.tcp) { tcp_window_seq = r.tcp_window_seq };
      ip = record (f.ip) { ip_ttl_seq = r.ip_ttl_seq; ip_tos_seq = r.ip_tos_seq };
      payload = record (f.payload) {
        size_seq = r.payload_size_seq;
        size_diff_seq = r.payload_size_diff_seq;
      };
      burst = record (f.burst) {
        burst_sizes = a.burst_sizes.cells;
        burst_durations = a.burst_durations.cells;
        burst_intervals = a.burst_intervals.cells;
        burst_packet_counts = a.burst_packet_counts.cells;
      };
      window = record (f.window) {
        window_pkt_counts = a.window_pkt_counts.cells;
        window_byte_counts = a.window_byte_counts.cells;
        window_bitrate = a.window_bitrate.cells;
      };
      dir_seq = r.dir_seq;
      ts_seq = r.ts_seq;
      udp_len_seq = r.udp_len_seq;
      l3_len_seq = r.l3_len_seq;
      l4_len_seq = r.l4_len_seq;
      payload_len_seq = r.payload_len_seq;
    }

module _ {D : Type 0} ⦃d : Double D⦄ where
  -- The move to a level, by which allocations succeed, from the pool that `flow_mem_pool_check_upgrade` left.
  unfoldable pub grow_to : Bool → (ℕ → Bool) → FlowState D → Pool D → FlowLevel → FlowState D
  unfolding take_block
  grow_to has_larger has_snapshot f pool level =
      let (status, larger) = upgrade pool level has_larger in
      let (temp, bound) = bind_temp_buffers larger larger.actual_seq_len in
      elim status [
        | failed ↦ record f { mem_pool = pool }
        | done ↦
            take_block f bound temp
              (rebind_rings has_snapshot (rings_of f) bound bound.actual_seq_len)
      ]

  -- What follows the check: `ask` is its answer.
  unfoldable pub grow_by : Memory → FlowState D → Bool → Pool D → Option FlowLevel → FlowState D
  unfolding grow_to
  grow_by m f false pool next = record f { mem_pool = pool }
  grow_by m f true pool none = record f { mem_pool = pool }
  grow_by m f true pool (some level) = grow_to m.has_larger m.has_snapshot f pool level

  -- The check for each packet, and the move where it asks for one.
  unfoldable pub grow : Memory → FlowState D → FlowState D
  unfolding grow_by stored_arrays
  grow m f =
      let (ask, pool) = check_upgrade (shared_pool f) in
      grow_by m f ask pool (next_level f.mem_pool.level)
