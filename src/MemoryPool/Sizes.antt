-- ===== src/MemoryPool/Sizes.antt =====
-- The levels of a flow, and the size of the block that each takes.
use ti_features.Prelude.{ℕ, ◌+◌, ◌*◌, ◌/◌, Option, none, some, leb, if◌then◌else◌}

-- `flow_level_t`
pub data FlowLevel : Type 0 where
  tiny small medium large : FlowLevel

-- The enumeration's numbers.
abbrev pub rank : FlowLevel → ℕ
rank tiny = 0
rank small = 1
rank medium = 2
rank large = 3

-- `(flow_level_t)((int)level + 1)`, and `none` past FLOW_LEVEL_LARGE.
abbrev pub next_level : FlowLevel → Option FlowLevel
next_level tiny = some small
next_level small = some medium
next_level medium = some large
next_level large = none

-- `flow_mem_guess_level`
unfoldable pub guess_level : ℕ → FlowLevel
guess_level pkt_count =
    if leb pkt_count 100
    then tiny
    else if leb pkt_count 500
    then small
    else if leb pkt_count 2000
    then medium
    else large

-- `flow_mem_level_to_seq_len`
abbrev pub level_to_seq_len : FlowLevel → ℕ
level_to_seq_len tiny = 64
level_to_seq_len small = 256
level_to_seq_len medium = 1000
level_to_seq_len large = 5000

-- sizeof(unsigned int), sizeof(unsigned long long) and sizeof(double), sizeof(signed char)
abbrev pub u32_size : ℕ
u32_size = 4

abbrev pub u64_size : ℕ
u64_size = 8

abbrev pub i8_size : ℕ
i8_size = 1

abbrev pub temp_size : ℕ
temp_size = 8192

-- The sum of `flow_mem_pool_calc_size_ex` before it is aligned.
abbrev pub raw_size : ℕ → ℕ → ℕ → ℕ
raw_size seq_len num_windows resp_delay_capacity =
    seq_len * u32_size
    + seq_len * u32_size
    + seq_len * u64_size
    + seq_len * u64_size
    + seq_len * u32_size
    + seq_len * u32_size
    + num_windows * u32_size
    + num_windows * u32_size
    + num_windows * u32_size
    + seq_len * u32_size
    + seq_len * u64_size
    + seq_len * u64_size
    + seq_len * u32_size
    + resp_delay_capacity * u64_size
    + 5 * seq_len * u32_size
    + 4 * seq_len * u64_size
    + 1 * seq_len * i8_size
    + 4 * seq_len * u32_size
    + temp_size

-- `flow_mem_pool_calc_size_ex`; `(size + 63) & ~63` is the next multiple of 64.
unfoldable pub calc_size_ex : FlowLevel → ℕ → ℕ → ℕ
calc_size_ex level num_windows resp_delay_capacity =
    (raw_size (level_to_seq_len level) num_windows resp_delay_capacity + 63) / 64 * 64

-- `flow_mem_config_t`, without `enable_tiered_alloc`, which nothing reads.
pub record MemConfig : Type 0 where
  pub max_seq_len : ℕ
  pub num_windows : ℕ
  pub resp_delay_capacity : ℕ

-- The level that `flow_mem_pool_calc_size` and `flow_mem_pool_init` take for a configuration.
pub config_level : MemConfig → FlowLevel
config_level cfg =
    if leb cfg.max_seq_len 64
    then tiny
    else if leb cfg.max_seq_len 256
    then small
    else if leb cfg.max_seq_len 1000
    then medium
    else large

-- `flow_mem_pool_calc_size`
pub calc_size : MemConfig → ℕ
calc_size cfg = calc_size_ex (config_level cfg) cfg.num_windows cfg.resp_delay_capacity
