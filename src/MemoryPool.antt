-- ===== src/MemoryPool.antt =====
-- src/utils/memory_pool.h: one block of memory for each flow, cut into arrays, a ring region and
-- a region for temporary buffers, in four sizes; a flow moves up as its packets come in.
-- A pointer into the block is its offset there; an array carries its elements too, as the
-- code writes each array through its own pointer. A size is a plain
-- number, as size_t has 64 bits.
mod Sizes
mod Block
pub mod Layout
pub mod Temp
pub mod Upgrade
use ti_features.Prelude.{
  ℕ, zero, suc, ◌+◌, ◌-◌, ◌*◌, ◌/◌, ◌%◌, ◌^◌, Bool, true, false, ◌&&◌, ◌||◌, Option, none, some,
  List, ◌++◌, add32, ltb, leb, ◌==◌, if◌then◌else◌, replicate, take,
}
use ti_features.CircularBuffer.{Zeroed, Status, done, failed}
unfoldable pub use Sizes.*
unfoldable pub use Block.*

module _ {D : Type 0} ⦃z : Zeroed D⦄ where
  -- `flow_mem_pool_init_ex`; `none` stands for -1, after which the callers drop the pool.
  unfoldable pub init_ex : FlowLevel → ℕ → ℕ → Bool → Option (Pool D)
  init_ex level w r allocated =
      let s = level_to_seq_len level in
      let at = starts s w r in
      let total_size = calc_size_ex level w r in
      if allocated
      then some (record {
        arrays = record {
          fwd_pkt_lens = alloc_array at.fwd_pkt_lens s;
          bwd_pkt_lens = alloc_array at.bwd_pkt_lens s;
          fwd_iats = alloc_array at.fwd_iats s;
          bwd_iats = alloc_array at.bwd_iats s;
          fwd_payload_sizes = alloc_array at.fwd_payload_sizes s;
          bwd_payload_sizes = alloc_array at.bwd_payload_sizes s;
          window_pkt_counts = alloc_array at.window_pkt_counts w;
          window_byte_counts = alloc_array at.window_byte_counts w;
          window_bitrate = alloc_array at.window_bitrate w;
          burst_sizes = alloc_array at.burst_sizes s;
          burst_durations = alloc_array at.burst_durations s;
          burst_intervals = alloc_array at.burst_intervals s;
          burst_packet_counts = alloc_array at.burst_packet_counts s;
          resp_delays = alloc_array at.resp_delays r;
        };
        dynamic_mem_size = total_size;
        dynamic_mem_offset = at.end;
        temp_mem = total_size - temp_size;
        temp_mem_size = temp_size;
        temp_mem_offset = 0;
        ring_buffer_data = at.end;
        ring_buffer_size = total_size - at.end - temp_size;
        level = level;
        actual_seq_len = s;
        current_pkt_count = 0;
        needs_upgrade = false;
        num_windows = w;
        resp_delay_capacity = r;
      })
      else none

  -- `flow_mem_pool_init`
  pub init : MemConfig → Bool → Option (Pool D)
  init cfg = init_ex (config_level cfg) cfg.num_windows cfg.resp_delay_capacity

  -- `flow_mem_pool_check_upgrade`: whether to upgrade, and the pool.
  unfoldable pub check_upgrade : Pool D → Bool × Pool D
  check_upgrade pool =
      if leb (rank large) (rank pool.level)
      then (false, record pool { needs_upgrade = false })
      else let counted =
          if ltb pool.current_pkt_count (2 ^ 32 - 1)
          then add32 pool.current_pkt_count 1
          else pool.current_pkt_count in
        let eighty = pool.actual_seq_len * 8 % 2 ^ 32 / 10 in
        let threshold = if eighty == 0 then 1 else eighty in
        if leb threshold counted && leb (rank pool.level + 1) (rank large)
        then (true, record pool { current_pkt_count = counted; needs_upgrade = true })
        else (false, record pool { current_pkt_count = counted })

  -- `flow_mem_pool_alloc_temp`: the place of the buffer, if there is one. The alignments are powers
  -- of two, for which the mask `& ~(alignment - 1)` rounds down to a multiple.
  unfoldable pub alloc_temp : Pool D → ℕ → ℕ → Option ℕ × Pool D
  alloc_temp pool size alignment =
      if size == 0 || ltb pool.temp_mem_size size
      then (none, pool)
      else let aligned =
          if ltb 1 alignment
          then (pool.temp_mem_offset + alignment - 1) / alignment * alignment
          else pool.temp_mem_offset in
        let offset = if ltb pool.temp_mem_size (aligned + size) then 0 else aligned in
        (some (pool.temp_mem + offset), record pool { temp_mem_offset = offset + size })

  -- `flow_mem_pool_reset_temp`
  pub reset_temp : Pool D → Pool D
  reset_temp pool = record pool { temp_mem_offset = 0 }

  -- `flow_mem_pool_get_ring_buffer`
  unfoldable pub get_ring_buffer : Pool D → ℕ → Option ℕ
  get_ring_buffer pool offset =
      if leb pool.ring_buffer_size offset then none else some (pool.ring_buffer_data + offset)

  -- The pool of the new block, in `flow_mem_pool_upgrade` after the allocation. The bytes of the old
  -- ring region, which the source copies as they stand, are left out: the rings are then laid out anew
  -- and filled from their snapshots, so nothing reads them.
  grown_pool : Pool D → FlowLevel → Pool D
  grown_pool pool new_level =
      let s = level_to_seq_len new_level in
      let c = if ltb pool.actual_seq_len s then pool.actual_seq_len else s in
      let w = pool.num_windows in
      let r = pool.resp_delay_capacity in
      let at = starts s w r in
      let new_size = calc_size_ex new_level w r in
      let old = pool.arrays in
      record pool {
        arrays = record {
          fwd_pkt_lens = upgrade_array at.fwd_pkt_lens c s old.fwd_pkt_lens;
          bwd_pkt_lens = upgrade_array at.bwd_pkt_lens c s old.bwd_pkt_lens;
          fwd_iats = upgrade_array at.fwd_iats c s old.fwd_iats;
          bwd_iats = upgrade_array at.bwd_iats c s old.bwd_iats;
          fwd_payload_sizes = upgrade_array at.fwd_payload_sizes c s old.fwd_payload_sizes;
          bwd_payload_sizes = upgrade_array at.bwd_payload_sizes c s old.bwd_payload_sizes;
          window_pkt_counts = upgrade_array at.window_pkt_counts w w old.window_pkt_counts;
          window_byte_counts = upgrade_array at.window_byte_counts w w old.window_byte_counts;
          window_bitrate = upgrade_array at.window_bitrate w w old.window_bitrate;
          burst_sizes = upgrade_array at.burst_sizes c s old.burst_sizes;
          burst_durations = upgrade_array at.burst_durations c s old.burst_durations;
          burst_intervals = upgrade_array at.burst_intervals c s old.burst_intervals;
          burst_packet_counts = upgrade_array at.burst_packet_counts c s old.burst_packet_counts;
          resp_delays = upgrade_array at.resp_delays r r old.resp_delays;
        };
        dynamic_mem_size = new_size;
        dynamic_mem_offset = at.end;
        temp_mem = new_size - temp_size;
        temp_mem_size = temp_size;
        temp_mem_offset = 0;
        ring_buffer_data = at.end;
        ring_buffer_size = new_size - at.end - temp_size;
        level = new_level;
        actual_seq_len = s;
        needs_upgrade = false;
      }

  -- `flow_mem_pool_upgrade`
  unfoldable pub upgrade : Pool D → FlowLevel → Bool → Status × Pool D
  unfolding grown_pool
  upgrade pool new_level allocated =
      if leb (rank new_level) (rank pool.level)
      then (failed, pool)
      else if allocated
      then (done, grown_pool pool new_level)
      else (failed, pool)
