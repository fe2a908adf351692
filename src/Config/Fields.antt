-- ===== src/Config/Fields.antt =====
-- The fields of the configuration and their defaults.
use Prim.Native.String.{String}
use ti_features.Prelude.{ℕ, Bool, false, Option, some}

-- The thresholds, and what feeds the outputs.
pub record Settings : Type 0 where
  pub max_seq_len : ℕ
  pub first_n_packets : ℕ
  pub run_mode : ℕ
  pub small_pkt_threshold : ℕ
  pub large_pkt_threshold : ℕ
  pub burst_iat_threshold_us : ℕ
  pub active_iat_threshold_us : ℕ
  pub window_size_ms : ℕ
  pub instant_bitrate_window_ms : ℕ
  pub interactive_threshold_ms : ℕ
  pub bulk_transfer_kbps : ℕ
  pub short_conn_threshold_s : ℕ

pub record Outputs : Type 0 where
  pub has_log : Bool
  pub output_to_log : ℕ
  pub send_kafka_flag : ℕ
  pub kafka_brokers : String
  pub topic_name : String
  pub has_producer : Bool
  pub feature_bridge_flag : ℕ
  pub feature_bridge_id : Option ℕ
  pub feature_bridge_name : String
  pub sni_bridge_flag : ℕ
  pub sni_bridge_id : Option ℕ
  pub sni_bridge_name : String

-- The switches of the feature modules and of their parts.
pub record Switches : Type 0 where
  pub enable_basic : ℕ
  pub enable_iat : ℕ
  pub enable_protocol : ℕ
  pub enable_payload : ℕ
  pub enable_sequence : ℕ
  pub enable_fft : ℕ
  pub enable_window : ℕ
  pub enable_behavior : ℕ
  pub enable_basic_ratios : ℕ
  pub enable_basic_payload_dir : ℕ
  pub enable_basic_first_n : ℕ
  pub enable_basic_pkt_length : ℕ
  pub enable_iat_stats : ℕ
  pub enable_iat_fwd_bwd : ℕ
  pub enable_iat_active : ℕ
  pub enable_iat_response : ℕ
  pub enable_burst : ℕ
  pub enable_protocol_tcp_flags : ℕ
  pub enable_protocol_tcp_window : ℕ
  pub enable_protocol_ip : ℕ
  pub enable_protocol_udp : ℕ
  pub enable_protocol_port : ℕ
  pub enable_payload_size : ℕ
  pub enable_payload_content : ℕ
  pub enable_payload_hist : ℕ
  pub enable_payload_magic : ℕ
  pub enable_payload_stats : ℕ
  pub enable_sequence_stats : ℕ
  pub enable_raw_sequences : ℕ
  pub enable_chunk_sequences : ℕ
  pub enable_rate_sequences : ℕ
  pub enable_fft_global : ℕ
  pub enable_fft_fwd : ℕ
  pub enable_fft_bwd : ℕ
  pub enable_window_pkt : ℕ
  pub enable_window_byte : ℕ
  pub enable_behavior_basic : ℕ
  pub enable_behavior_pattern : ℕ
  pub enable_behavior_bitrate : ℕ

-- The flags that say what each packet has to record.
pub record Needs : Type 0 where
  pub need_pkt_len_seq : ℕ
  pub need_dir_seq : ℕ
  pub need_ts_seq : ℕ
  pub need_l3_l4_payload_seq : ℕ
  pub need_fwd_bwd_pkt_lens : ℕ
  pub need_first_n : ℕ
  pub need_payload_dir : ℕ
  pub need_fwd_bwd_iats : ℕ
  pub need_window_update : ℕ
  pub need_iat_seq : ℕ

-- `ti_feature_config_t`
pub record Config : Type 0 where
  pub settings : Settings
  pub open settings use *
  pub outputs : Outputs
  pub open outputs use *
  pub switches : Switches
  pub open switches use *
  pub needs : Needs
  pub open needs use *

abbrev pub max_first_n_packets : ℕ
max_first_n_packets = 1024

abbrev pub default_first_n_packets : ℕ
default_first_n_packets = 10

abbrev pub default_settings : Settings
default_settings = record {
  max_seq_len = 5000;
  first_n_packets = 10;
  run_mode = 0;
  small_pkt_threshold = 64;
  large_pkt_threshold = 1200;
  burst_iat_threshold_us = 1000;
  active_iat_threshold_us = 1000;
  window_size_ms = 1000;
  instant_bitrate_window_ms = 100;
  interactive_threshold_ms = 100;
  bulk_transfer_kbps = 10;
  short_conn_threshold_s = 2;
}

abbrev pub default_outputs : Outputs
default_outputs = record {
  has_log = false;
  output_to_log = 0;
  send_kafka_flag = 0;
  kafka_brokers = "";
  topic_name = "";
  has_producer = false;
  feature_bridge_flag = 1;
  feature_bridge_id = some 0;
  feature_bridge_name = "FEATURE_BRIDGE";
  sni_bridge_flag = 0;
  sni_bridge_id = some 0;
  sni_bridge_name = "";
}

abbrev pub default_switches : Switches
default_switches = record {
  enable_basic = 1;
  enable_iat = 1;
  enable_protocol = 1;
  enable_payload = 1;
  enable_sequence = 1;
  enable_fft = 1;
  enable_window = 1;
  enable_behavior = 1;
  enable_basic_ratios = 1;
  enable_basic_payload_dir = 1;
  enable_basic_first_n = 1;
  enable_basic_pkt_length = 1;
  enable_iat_stats = 1;
  enable_iat_fwd_bwd = 1;
  enable_iat_active = 1;
  enable_iat_response = 1;
  enable_burst = 1;
  enable_protocol_tcp_flags = 1;
  enable_protocol_tcp_window = 1;
  enable_protocol_ip = 1;
  enable_protocol_udp = 1;
  enable_protocol_port = 1;
  enable_payload_size = 1;
  enable_payload_content = 1;
  enable_payload_hist = 1;
  enable_payload_magic = 1;
  enable_payload_stats = 1;
  enable_sequence_stats = 1;
  enable_raw_sequences = 1;
  enable_chunk_sequences = 1;
  enable_rate_sequences = 1;
  enable_fft_global = 1;
  enable_fft_fwd = 1;
  enable_fft_bwd = 1;
  enable_window_pkt = 1;
  enable_window_byte = 1;
  enable_behavior_basic = 1;
  enable_behavior_pattern = 1;
  enable_behavior_bitrate = 1;
}

abbrev pub no_needs : Needs
no_needs = record {
  need_pkt_len_seq = 0;
  need_dir_seq = 0;
  need_ts_seq = 0;
  need_l3_l4_payload_seq = 0;
  need_fwd_bwd_pkt_lens = 0;
  need_first_n = 0;
  need_payload_dir = 0;
  need_fwd_bwd_iats = 0;
  need_window_update = 0;
  need_iat_seq = 0;
}

-- What the code outside the plugin answers while the configuration is read.
pub record Env : Type 0 where
  -- MESA_load_profile_uint_def and MESA_load_profile_short_def: section, key, default.
  pub load_uint : String → String → ℕ → ℕ
  -- MESA_load_profile_string_def
  pub load_string : String → String → String → String
  -- MESA_load_profile_string_nodef
  pub load_string_nodef : String → String → Option String
  -- MESA_create_runtime_log_handle
  pub create_log : Bool
  -- stream_bridge_build of the SNI bridge, and the registration of its callback
  pub build_sni_bridge : String → Option ℕ
  pub register_callback : Bool
  -- TF_get_brgid(FEATURE_BRIDGE)
  pub get_bridge_id : Option ℕ
  -- KafkaConnection and CreateTopicHandle
  pub kafka_connects : String → Bool
  pub creates_topic : String → Bool
