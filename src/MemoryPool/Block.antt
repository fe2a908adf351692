-- ===== src/MemoryPool/Block.antt =====
-- The arrays of a block and where they start.
use ti_features.Prelude.{ℕ, ◌+◌, ◌-◌, ◌*◌, Bool, List, ◌++◌, replicate, take}
use ti_features.CircularBuffer.{Zeroed}
use ti_features.MemoryPool.Sizes.{FlowLevel, u32_size, u64_size}

-- An array in the block: where it starts, and its elements.
pub record Slice (A : Type 0) : Type 0 where
  pub start : ℕ
  pub cells : List A

-- The array pointers of `flow_mem_pool_t`; `D` is the type `double`.
pub record Arrays (D : Type 0) : Type 0 where
  pub fwd_pkt_lens : Slice ℕ
  pub bwd_pkt_lens : Slice ℕ
  pub fwd_iats : Slice ℕ
  pub bwd_iats : Slice ℕ
  pub fwd_payload_sizes : Slice ℕ
  pub bwd_payload_sizes : Slice ℕ
  pub window_pkt_counts : Slice ℕ
  pub window_byte_counts : Slice ℕ
  pub window_bitrate : Slice ℕ
  pub burst_sizes : Slice ℕ
  pub burst_durations : Slice ℕ
  pub burst_intervals : Slice ℕ
  pub burst_packet_counts : Slice ℕ
  pub resp_delays : Slice D

-- `flow_mem_pool_t`
pub record Pool (D : Type 0) : Type 0 where
  pub arrays : Arrays D
  pub dynamic_mem_size : ℕ
  pub dynamic_mem_offset : ℕ
  pub temp_mem : ℕ
  pub temp_mem_size : ℕ
  pub temp_mem_offset : ℕ
  pub ring_buffer_data : ℕ
  pub ring_buffer_size : ℕ
  pub level : FlowLevel
  pub actual_seq_len : ℕ
  pub current_pkt_count : ℕ
  pub needs_upgrade : Bool
  pub num_windows : ℕ
  pub resp_delay_capacity : ℕ

-- `dynamic_mem_offset` (`offset` in the upgrade) before each array is placed, and at the end.
pub record Starts : Type 0 where
  pub fwd_pkt_lens : ℕ
  pub bwd_pkt_lens : ℕ
  pub fwd_iats : ℕ
  pub bwd_iats : ℕ
  pub fwd_payload_sizes : ℕ
  pub bwd_payload_sizes : ℕ
  pub window_pkt_counts : ℕ
  pub window_byte_counts : ℕ
  pub window_bitrate : ℕ
  pub burst_sizes : ℕ
  pub burst_durations : ℕ
  pub burst_intervals : ℕ
  pub burst_packet_counts : ℕ
  pub resp_delays : ℕ
  pub end : ℕ

-- The offsets that ALLOC_ARRAY, and the UPGRADE_ macros alike, give the arrays in their order, for
-- `s` elements of a sequence, `w` windows and `r` response delays.
abbrev pub starts : ℕ → ℕ → ℕ → Starts
starts s w r =
    let at1 : ℕ = 0 + s * u32_size in
    let at2 : ℕ = at1 + s * u32_size in
    let at3 : ℕ = at2 + s * u64_size in
    let at4 : ℕ = at3 + s * u64_size in
    let at5 : ℕ = at4 + s * u32_size in
    let at6 : ℕ = at5 + s * u32_size in
    let at7 : ℕ = at6 + w * u32_size in
    let at8 : ℕ = at7 + w * u32_size in
    let at9 : ℕ = at8 + w * u32_size in
    let at10 : ℕ = at9 + s * u32_size in
    let at11 : ℕ = at10 + s * u64_size in
    let at12 : ℕ = at11 + s * u64_size in
    let at13 : ℕ = at12 + s * u32_size in
    let at14 : ℕ = at13 + r * u64_size in
    record {
      fwd_pkt_lens = 0;
      bwd_pkt_lens = at1;
      fwd_iats = at2;
      bwd_iats = at3;
      fwd_payload_sizes = at4;
      bwd_payload_sizes = at5;
      window_pkt_counts = at6;
      window_byte_counts = at7;
      window_bitrate = at8;
      burst_sizes = at9;
      burst_durations = at10;
      burst_intervals = at11;
      burst_packet_counts = at12;
      resp_delays = at13;
      end = at14;
    }

-- ALLOC_ARRAY: an array of zeroed elements at an offset.
abbrev pub alloc_array : {A : Type 0} ⦃z : Zeroed A⦄ → ℕ → ℕ → Slice A
alloc_array ⦃z⦄ start n = record { start = start; cells = replicate n z.zeroed }

-- UPGRADE_SEQ_ARRAY and UPGRADE_FIXED_ARRAY: the first `copied` elements of the old array, in a
-- zeroed array of `n`.
abbrev pub upgrade_array : {A : Type 0} ⦃z : Zeroed A⦄ → ℕ → ℕ → ℕ → Slice A → Slice A
upgrade_array ⦃z⦄ start copied n old = record {
  start = start;
  cells = take copied old.cells ++ replicate (n - copied) z.zeroed;
}

instance abbrev pub zeroed_ℕ : Zeroed ℕ
zeroed_ℕ = record { zeroed = 0 }
