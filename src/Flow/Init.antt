-- ===== src/Flow/Init.antt =====
-- src/ti_features.cpp, `flow_state_init`: the state of a new flow.
use ti_features.Prelude.{
  ℕ, ◌+◌, ◌*◌, ◌>>=◌, Bool, true, false, Option, none, some, ltb, ◌==◌, if◌then◌else◌, replicate,
}
use ti_features.Double.{Double, zeroed_double}
use ti_features.CircularBuffer.{CircularBuffer, Zeroed}
use ti_features.MemoryPool.{Pool, Slice, tiny, init_ex, get_ring_buffer, zeroed_ℕ}
use ti_features.Rings.{TempBuffers, empty_ring, bind_temp_buffers}
use ti_features.BoundedArray.{BoundedArray}
use ti_features.Config.{Config, default_first_n_packets, max_first_n_packets}
use ti_features.FeatureStats.{DirectionalStats, running_stats_init, small, bigram_init}
use ti_features.Flow.{FlowState, SeqRings, Memory, zeroed_direction}

-- The macro INIT_RING_BUFFER: an empty ring at an offset of the pool's ring region, with the next
-- offset; `none` stands for the jump to `cleanup`.
unfoldable pub init_ring :
    {D A : Type 0}
    → ⦃y : Zeroed D⦄ ⦃z : Zeroed A⦄ → Pool D
    → ℕ
    → ℕ
    → ℕ
    → Option (CircularBuffer A × ℕ)
init_ring pool ring_offset capacity elem_size = elim (get_ring_buffer pool ring_offset) [
  | none ↦ none
  | some _ ↦ some (empty_ring capacity elem_size, ring_offset + capacity * elem_size)
]

-- The thirteen rings, one behind the other.
unfoldable pub init_rings : {D : Type 0} → ⦃y : Zeroed D⦄ → Pool D → ℕ → Option SeqRings
unfolding init_ring
init_rings pool seq_len = do
  (pkt_len_seq, at1) ← init_ring pool 0 seq_len 4
  (iat_seq, at2) ← init_ring pool at1 seq_len 8
  (dir_seq, at3) ← init_ring pool at2 seq_len 1
  (ts_seq, at4) ← init_ring pool at3 seq_len 8
  (tcp_window_seq, at5) ← init_ring pool at4 seq_len 4
  (udp_len_seq, at6) ← init_ring pool at5 seq_len 4
  (ip_ttl_seq, at7) ← init_ring pool at6 seq_len 4
  (ip_tos_seq, at8) ← init_ring pool at7 seq_len 4
  (payload_size_seq, at9) ← init_ring pool at8 seq_len 4
  (payload_size_diff_seq, at10) ← init_ring pool at9 seq_len 4
  (l3_len_seq, at11) ← init_ring pool at10 seq_len 4
  (l4_len_seq, at12) ← init_ring pool at11 seq_len 4
  (payload_len_seq, at13) ← init_ring pool at12 seq_len 4
  some (record {
    pkt_len_seq = pkt_len_seq;
    iat_seq = iat_seq;
    dir_seq = dir_seq;
    ts_seq = ts_seq;
    tcp_window_seq = tcp_window_seq;
    udp_len_seq = udp_len_seq;
    ip_ttl_seq = ip_ttl_seq;
    ip_tos_seq = ip_tos_seq;
    payload_size_seq = payload_size_seq;
    payload_size_diff_seq = payload_size_diff_seq;
    l3_len_seq = l3_len_seq;
    l4_len_seq = l4_len_seq;
    payload_len_seq = payload_len_seq;
  })

-- An array of the pool with nothing stored in it yet.
abbrev pub bind_array : {A : Type 0} → Slice A → ℕ → BoundedArray A
bind_array a capacity = record { cells = a.cells; count = 0; capacity = capacity }

-- `first_n_capacity`
abbrev pub first_n_capacity_of : Config → ℕ
first_n_capacity_of cfg =
    if cfg.first_n_packets == 0
    then default_first_n_packets
    else if ltb max_first_n_packets cfg.first_n_packets
    then max_first_n_packets
    else cfg.first_n_packets

module _ {D : Type 0} ⦃d : Double D⦄ where
  abbrev pub no_directional : DirectionalStats D
  no_directional = record { fwd_stats = running_stats_init; bwd_stats = running_stats_init }

  -- What `flow_state_init` stores, over zeroed memory, once it has the pool, the buffers and the
  -- rings.
  unfoldable pub fill_state : Config → Pool D → TempBuffers → SeqRings → FlowState D
  fill_state cfg pool temp rings =
      let arrays = pool.arrays in
      let seq_len = pool.actual_seq_len in
      record {
        flow_start_us = 0;
        last_pkt_us = 0;
        udp_packets = 0;
        mem_pool = pool;
        temp = temp;
        counters = record {
          total_packets = 0;
          fwd_packets = 0;
          bwd_packets = 0;
          total_bytes = 0;
          fwd_bytes = 0;
          bwd_bytes = 0;
          fwd_payload_bytes = 0;
          bwd_payload_bytes = 0;
          l2_packets = 0;
          fwd_payload_stats = running_stats_init;
          bwd_payload_stats = running_stats_init;
          fwd_payload_sizes = bind_array arrays.fwd_payload_sizes seq_len;
          bwd_payload_sizes = bind_array arrays.bwd_payload_sizes seq_len;
        };
        lengths = record {
          small_pkt_count = 0;
          large_pkt_count = 0;
          pkt_len_stats = running_stats_init;
          fwd_pkt_len = no_directional;
          bwd_pkt_len = no_directional;
          pkt_len_seq = rings.pkt_len_seq;
          first_n_is_set = true;
          -- The memory that `malloc` gives; no element past `count` is read.
          first_n_lens = record {
            cells = replicate (first_n_capacity_of cfg) 0;
            count = 0;
            capacity = first_n_capacity_of cfg;
          };
          fwd_pkt_lens = bind_array arrays.fwd_pkt_lens seq_len;
          bwd_pkt_lens = bind_array arrays.bwd_pkt_lens seq_len;
        };
        iat = record {
          last_arrival_us = 0;
          last_fwd_us = 0;
          last_bwd_us = 0;
          iat_stats = running_stats_init;
          fwd_iat = no_directional;
          bwd_iat = no_directional;
          fwd_iats = bind_array arrays.fwd_iats seq_len;
          bwd_iats = bind_array arrays.bwd_iats seq_len;
          iat_seq = rings.iat_seq;
          active_time_us = 0;
          idle_time_us = 0;
          last_req_ts = 0;
          resp_delays = bind_array arrays.resp_delays 1000;
        };
        tcp = record {
          tcp_packets = 0;
          tcp_syn_count = 0;
          tcp_fin_count = 0;
          tcp_rst_count = 0;
          tcp_psh_count = 0;
          tcp_ack_count = 0;
          tcp_urg_count = 0;
          tcp_syn_only_count = 0;
          tcp_syn_ack_count = 0;
          tcp_ack_only_count = 0;
          tcp_payload_packets = 0;
          tcp_window_update_count = 0;
          tcp_zero_window_count = 0;
          tcp_retransmission_count = 0;
          has_last_tcp_window = 0;
          last_tcp_window = 0;
          last_rst_ts = 0;
          rst_interval_sum_us = 0;
          rst_interval_count = 0;
          has_last_fwd_seq = 0;
          has_last_bwd_seq = 0;
          last_fwd_seq = 0;
          last_bwd_seq = 0;
          tcp_window_stats = running_stats_init;
          tcp_window_seq = rings.tcp_window_seq;
        };
        ip = record {
          ip_ttl_stats = running_stats_init;
          ip_tos_stats = running_stats_init;
          ip_ttl_seq = rings.ip_ttl_seq;
          ip_tos_seq = rings.ip_tos_seq;
          src_ip = 0;
          dst_ip = 0;
          src_ip_is_private = false;
          dst_ip_is_private = false;
          ip_frag_count = 0;
        };
        ports = record {
          src_port = 0;
          dst_port = 0;
          unique_src_ports = 0;
          unique_dst_ports = 0;
          well_known_src_count = 0;
          well_known_dst_count = 0;
        };
        payload = record {
          size_stats = running_stats_init;
          size_seq = rings.payload_size_seq;
          size_diff_stats = running_stats_init;
          size_diff_seq = rings.payload_size_diff_seq;
          last_payload_len = 0;
          has_last_payload_len = 0;
          total_bytes = 0;
          non_empty_count = 0;
          entropy_stats = running_stats_init;
          markov_entropy_stats = running_stats_init;
          compression_ratio_stats = running_stats_init;
          autocorr_lag1_stats = running_stats_init;
          shapes = record { http = 0; json = 0; xml = 0; tls = 0; ssh = 0 };
          bytes = record {
            byte_stats = running_stats_init;
            byte_hist = replicate 16 0;
            byte_hist_full = replicate 256 0;
            printable_count = 0;
            alnum_count = 0;
            first_bytes = record { cells = replicate 256 0; count = 0; capacity = 256 };
          };
          mod_stats = replicate 8 running_stats_init;
        };
        magics = record {
          http_get = 0;
          http_post = 0;
          tls_1_0 = 0;
          tls_1_1 = 0;
          tls_1_2 = 0;
          tls_1_3 = 0;
          ssh = 0;
          jpeg = 0;
          png = 0;
          gif = 0;
        };
        burst = record {
          burst_start_us = 0;
          burst_byte_count = 0;
          burst_pkt_count = 0;
          burst_count = 0;
          burst_sizes = arrays.burst_sizes.cells;
          burst_durations = arrays.burst_durations.cells;
          burst_intervals = arrays.burst_intervals.cells;
          burst_packet_counts = arrays.burst_packet_counts.cells;
        };
        window = record {
          window_size_ms = cfg.window_size_ms;
          num_windows = 100;
          current_window = 0;
          window_start_us = 0;
          window_pkt_counts = arrays.window_pkt_counts.cells;
          window_byte_counts = arrays.window_byte_counts.cells;
          window_bitrate = arrays.window_bitrate.cells;
        };
        bigram = bigram_init;
        last_pkt_size_class = small;
        udp_len_stats = running_stats_init;
        dir_seq = rings.dir_seq;
        ts_seq = rings.ts_seq;
        udp_len_seq = rings.udp_len_seq;
        l3_len_seq = rings.l3_len_seq;
        l4_len_seq = rings.l4_len_seq;
        payload_len_seq = rings.payload_len_seq;
      }

  -- `flow_state_init`, by which of its allocations succeed: `first_n_lens`, the pool and its block.
  unfoldable pub set_up : Config → Bool → Bool → Bool → Option (FlowState D)
  unfolding init_rings fill_state
  set_up cfg false has_pool has_block = none
  set_up cfg true false has_block = none
  set_up cfg true true has_block = do
    pool ← init_ex tiny 100 1000 has_block
    (let (temp, bound) = bind_temp_buffers pool pool.actual_seq_len in
        do rings ← init_rings bound pool.actual_seq_len; some (fill_state cfg bound temp rings))

  -- `flow_state_init`; `none` stands for -1, after which all that was allocated is freed.
  unfoldable pub flow_state_init : Config → Memory → Option (FlowState D)
  unfolding set_up
  flow_state_init cfg m = set_up cfg m.has_first_n m.has_pool m.has_block
