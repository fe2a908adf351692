-- ===== src/Config/Switches.antt =====
-- The part of `feat_config_read` on the switches, and the flags computed from them.
use ti_features.Prelude.{ℕ, Bool, true, false, ◌&&◌, ◌||◌, is_set}
use ti_features.Config.Fields.{Switches, Needs, Env}

-- The switches.
unfoldable pub read_switches : Env → Switches
read_switches env = record {
  enable_basic = env.load_uint "FEATURES" "enable_basic" 1;
  enable_iat = env.load_uint "FEATURES" "enable_iat" 1;
  enable_protocol = env.load_uint "FEATURES" "enable_protocol" 1;
  enable_payload = env.load_uint "FEATURES" "enable_payload" 1;
  enable_sequence = env.load_uint "FEATURES" "enable_sequence" 1;
  enable_fft = env.load_uint "FEATURES" "enable_fft" 1;
  enable_window = env.load_uint "FEATURES" "enable_window" 1;
  enable_behavior = env.load_uint "FEATURES" "enable_behavior" 1;
  enable_basic_ratios = env.load_uint "FEATURES" "enable_basic_ratios" 1;
  enable_basic_payload_dir = env.load_uint "FEATURES" "enable_basic_payload_dir" 1;
  enable_basic_first_n = env.load_uint "FEATURES" "enable_basic_first_n" 1;
  enable_basic_pkt_length = env.load_uint "FEATURES" "enable_basic_pkt_length" 1;
  enable_iat_stats = env.load_uint "FEATURES" "enable_iat_stats" 1;
  enable_iat_fwd_bwd = env.load_uint "FEATURES" "enable_iat_fwd_bwd" 1;
  enable_iat_active = env.load_uint "FEATURES" "enable_iat_active" 1;
  enable_iat_response = env.load_uint "FEATURES" "enable_iat_response" 1;
  enable_burst = env.load_uint "FEATURES" "enable_burst" 1;
  enable_protocol_tcp_flags = env.load_uint "FEATURES" "enable_protocol_tcp_flags" 1;
  enable_protocol_tcp_window = env.load_uint "FEATURES" "enable_protocol_tcp_window" 1;
  enable_protocol_ip = env.load_uint "FEATURES" "enable_protocol_ip" 1;
  enable_protocol_udp = env.load_uint "FEATURES" "enable_protocol_udp" 1;
  enable_protocol_port = env.load_uint "FEATURES" "enable_protocol_port" 1;
  enable_payload_size = env.load_uint "FEATURES" "enable_payload_size" 1;
  enable_payload_content = env.load_uint "FEATURES" "enable_payload_content" 1;
  enable_payload_hist = env.load_uint "FEATURES" "enable_payload_hist" 1;
  enable_payload_magic = env.load_uint "FEATURES" "enable_payload_magic" 1;
  enable_payload_stats = env.load_uint "FEATURES" "enable_payload_stats" 1;
  enable_sequence_stats = env.load_uint "FEATURES" "enable_sequence_stats" 1;
  enable_raw_sequences = env.load_uint "FEATURES" "enable_raw_sequences" 1;
  enable_chunk_sequences = env.load_uint "FEATURES" "enable_chunk_sequences" 1;
  enable_rate_sequences = env.load_uint "FEATURES" "enable_rate_sequences" 1;
  enable_fft_global = env.load_uint "FEATURES" "enable_fft_global" 1;
  enable_fft_fwd = env.load_uint "FEATURES" "enable_fft_fwd" 1;
  enable_fft_bwd = env.load_uint "FEATURES" "enable_fft_bwd" 1;
  enable_window_pkt = env.load_uint "FEATURES" "enable_window_pkt" 1;
  enable_window_byte = env.load_uint "FEATURES" "enable_window_byte" 1;
  enable_behavior_basic = env.load_uint "FEATURES" "enable_behavior_basic" 1;
  enable_behavior_pattern = env.load_uint "FEATURES" "enable_behavior_pattern" 1;
  enable_behavior_bitrate = env.load_uint "FEATURES" "enable_behavior_bitrate" 1;
}

-- The int that a condition stores.
abbrev pub flag : Bool → ℕ
flag true = 1
flag false = 0

-- The compound flags at the end of `feat_config_read`.
unfoldable pub compute_needs : Switches → Needs
compute_needs s = record {
  need_pkt_len_seq = flag (
      is_set s.enable_fft_global
      || is_set s.enable_sequence_stats
      || is_set s.enable_raw_sequences
      || is_set s.enable_chunk_sequences
      || is_set s.enable_rate_sequences);
  need_dir_seq = flag (
      is_set s.enable_sequence_stats
      || is_set s.enable_raw_sequences
      || is_set s.enable_chunk_sequences
      || is_set s.enable_rate_sequences);
  need_ts_seq = flag (is_set s.enable_chunk_sequences || is_set s.enable_rate_sequences);
  need_l3_l4_payload_seq = s.enable_raw_sequences;
  need_fwd_bwd_pkt_lens =
      flag (is_set s.enable_basic_pkt_length || is_set s.enable_fft_fwd || is_set s.enable_fft_bwd);
  need_first_n = flag (is_set s.enable_basic && is_set s.enable_basic_first_n);
  need_payload_dir = flag (is_set s.enable_basic && is_set s.enable_basic_payload_dir);
  need_fwd_bwd_iats = flag (is_set s.enable_iat && is_set s.enable_iat_fwd_bwd);
  need_window_update = flag (
      is_set s.enable_window_pkt
      || is_set s.enable_window_byte
      || is_set s.enable_behavior_pattern
      || is_set s.enable_behavior_bitrate);
  need_iat_seq = flag (
      is_set s.enable_iat_stats || is_set s.enable_sequence_stats || is_set s.enable_raw_sequences);
}
