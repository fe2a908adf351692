-- ===== src/Tests.antt =====
-- Concrete states and packets, which the examples of the modules below run on. They take unsigned
-- integers for `double`.
mod Sequences
mod Derived
mod Transforms
mod Storage
mod Moves
mod Packets
mod Times
mod Payloads
mod Flows
use ti_features.Prelude.{
  ℕ, ◌-◌, ◌≡◌, refl, Bool, true, false, List, [], ◌∷◌, Option, none, some, arith, replicate, ltb,
  leb, not,
}
use ti_features.Double.{Double, IsOrdered, count_double}
use ti_features.Config.{Config, default_settings, default_outputs, default_switches, Env}
use ti_features.CircularBuffer.{CircularBuffer}
use ti_features.BoundedArray.{BoundedArray, IsValid}
use ti_features.FeatureStats.{RunningStats, DirectionalStats}
use ti_features.MemoryPool.{zeroed_ℕ, Slice, Arrays, Pool, tiny, init_ex}

-- Every switch and every need is on.
abbrev all_on : Config
all_on = record {
  settings = default_settings;
  outputs = default_outputs;
  switches = default_switches;
  needs = record {
    need_pkt_len_seq = 1;
    need_dir_seq = 1;
    need_ts_seq = 1;
    need_l3_l4_payload_seq = 1;
    need_fwd_bwd_pkt_lens = 1;
    need_first_n = 1;
    need_payload_dir = 1;
    need_fwd_bwd_iats = 1;
    need_window_update = 1;
    need_iat_seq = 1;
  };
}

-- A profile without entries, on a system where everything works, or where no log opens.
abbrev defaults : Bool → Env
defaults log = record {
  load_uint = λ part key value. value;
  load_string = λ part key value. value;
  load_string_nodef = λ part key. none;
  create_log = log;
  build_sni_bridge = λ name. some 3;
  register_callback = true;
  get_bridge_id = some 1;
  kafka_connects = λ brokers. true;
  creates_topic = λ topic. true;
}

abbrev no_stats : RunningStats ℕ
no_stats = record { mean = 0; m2 = 0; m3 = 0; m4 = 0; min_val = 0; max_val = 0; count = 0 }

abbrev no_directional : DirectionalStats ℕ
no_directional = record { fwd_stats = no_stats; bwd_stats = no_stats }

-- A ring that is not allocated.
abbrev no_ring : CircularBuffer ℕ
no_ring = record {
  cells = none;
  elem_size = 0;
  capacity = 0;
  count = 0;
  head = 0;
  tail = 0;
  is_full = false;
}

-- An empty array with room for two.
abbrev room_for_two : BoundedArray ℕ
room_for_two = record { cells = 0 ∷ 0 ∷ []; count = 0; capacity = 2 }

room_for_two-IsValid : IsValid room_for_two
room_for_two-IsValid = record { room = refl; within = omega arith; small = omega arith }

-- The order of the unsigned integers has the laws that the theorems on order take.
counts-IsOrdered : IsOrdered ℕ
counts-IsOrdered = record {
  IsNumber = λ n. Unit {0};
  of_ℕ-IsNumber = λ n. tt;
  negate-IsNumber = λ n h. tt;
  lt_irrefl = λ x. ground arith;
  lt_asymm = λ x y h. ground arith;
  ge_trans = λ x y z nx ny nz h k. ground arith;
}

abbrev no_slice : Slice ℕ
no_slice = record { start = 0; cells = [] }

-- A pool without a block.
abbrev no_pool : Pool ℕ
no_pool = record {
  arrays = record {
    fwd_pkt_lens = no_slice;
    bwd_pkt_lens = no_slice;
    fwd_iats = no_slice;
    bwd_iats = no_slice;
    fwd_payload_sizes = no_slice;
    bwd_payload_sizes = no_slice;
    window_pkt_counts = no_slice;
    window_byte_counts = no_slice;
    window_bitrate = no_slice;
    burst_sizes = no_slice;
    burst_durations = no_slice;
    burst_intervals = no_slice;
    burst_packet_counts = no_slice;
    resp_delays = no_slice;
  };
  dynamic_mem_size = 0;
  dynamic_mem_offset = 0;
  temp_mem = 0;
  temp_mem_size = 0;
  temp_mem_offset = 0;
  ring_buffer_data = 0;
  ring_buffer_size = 0;
  level = tiny;
  actual_seq_len = 0;
  current_pkt_count = 0;
  needs_upgrade = false;
  num_windows = 0;
  resp_delay_capacity = 0;
}

abbrev pool_or : Option (Pool ℕ) → Pool ℕ
pool_or none = no_pool
pool_or (some pool) = pool

-- A fresh pool of the smallest level, with four windows and room for two response delays.
tiny_pool : Pool ℕ
tiny_pool = pool_or (init_ex tiny 4 2 true)
