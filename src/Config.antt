-- ===== src/Config.antt =====
-- src/feature_config.h and .cpp: the settings, their defaults, and how a profile is read.
-- Integers of the C code are numbers, a switch being on unless it is 0; a bridge id is `none` where
-- the int is negative. The profile loader, the logger, the bridges and Kafka are an environment of
-- answers.
mod Fields
mod Switches
pub mod Laws
use ti_features.Prelude.{
  ℕ, Bool, true, false, not, ◌&&◌, ◌||◌, Option, none, some, ltb, ◌==◌, is_set, if◌then◌else◌,
}
use ti_features.CircularBuffer.{Status, done, failed}
unfoldable pub use Fields.*
unfoldable pub use Switches.*

-- `feat_config_init`: zeroed memory, then the defaults.
unfoldable pub init : Config
init = record {
  settings = default_settings;
  outputs = default_outputs;
  switches = default_switches;
  needs = no_needs;
}

-- The first part of `feat_config_read`: the settings, with `first_n_packets` bounded.
unfoldable pub read_settings : Env → Settings
read_settings env =
    let first_n = env.load_uint "FEATURE" "first_n_packets" default_first_n_packets in
    record {
      max_seq_len = env.load_uint "FEATURE" "max_seq_len" 5000;
      first_n_packets =
          if first_n == 0
          then default_first_n_packets
          else if ltb max_first_n_packets first_n
          then max_first_n_packets
          else first_n;
      run_mode = env.load_uint "FEATURE" "run_mode" 0;
      small_pkt_threshold = env.load_uint "FEATURE" "small_pkt_threshold" 64;
      large_pkt_threshold = env.load_uint "FEATURE" "large_pkt_threshold" 1200;
      burst_iat_threshold_us = env.load_uint "BURST" "burst_iat_threshold_us" 1000;
      active_iat_threshold_us = env.load_uint "ACTIVE" "active_iat_threshold_us" 1000;
      window_size_ms = env.load_uint "WINDOW" "window_size_ms" 1000;
      instant_bitrate_window_ms = env.load_uint "WINDOW" "instant_bitrate_window_ms" 100;
      interactive_threshold_ms = env.load_uint "BEHAVIOR" "interactive_threshold_ms" 100;
      bulk_transfer_kbps = env.load_uint "BEHAVIOR" "bulk_transfer_kbps" 10;
      short_conn_threshold_s = env.load_uint "BEHAVIOR" "short_conn_threshold_s" 2;
    }

-- Where `feat_config_read` gives up after the log was opened, the log is closed again.
abbrev give_up : Outputs → Status × Outputs
give_up o = (failed, record o { has_log = false })

-- The part of `feat_config_read` on the SNI bridge.
unfoldable pub read_sni : Env → Outputs → Status × Outputs
read_sni env o =
    let id = env.build_sni_bridge o.sni_bridge_name in
    if is_set o.sni_bridge_flag
    then elim id [
      | none ↦ give_up (record o { sni_bridge_id = none })
      | some n ↦
          if env.register_callback
          then (done, record o { sni_bridge_id = some n })
          else give_up (record o { sni_bridge_id = some n })
    ]
    else (done, o)

-- The part on the feature bridge, whose failure is only logged.
unfoldable pub read_feature_bridge : Env → Outputs → Outputs
read_feature_bridge env o =
    if is_set o.feature_bridge_flag then record o { feature_bridge_id = env.get_bridge_id } else o

-- The part on Kafka; the producer is deleted again where connecting or the topic fails.
unfoldable pub read_kafka : Env → Outputs → Status × Outputs
read_kafka env old =
    let o = record old {
      send_kafka_flag = env.load_uint "KAFKA" "send_kafka_flag" 0;
      output_to_log = env.load_uint "KAFKA" "output_to_log" 1;
    } in
    let topic = env.load_string "KAFKA" "kafka_topic" "flow_features" in
    if is_set o.send_kafka_flag
    then elim (env.load_string_nodef "KAFKA" "kafka_brokers") [
      | none ↦ give_up o
      | some brokers ↦
          if env.kafka_connects brokers
          then (if env.creates_topic topic
              then (
                done,
                record o { kafka_brokers = brokers; topic_name = topic; has_producer = true },
              )
              else give_up (record o { kafka_brokers = brokers; topic_name = topic }))
          else give_up (record o { kafka_brokers = brokers })
    ]
    else (done, o)

-- The outputs read before the SNI bridge is opened.
unfoldable pub read_outputs : Env → Outputs → Outputs
read_outputs env o = record o {
  has_log = true;
  feature_bridge_flag = env.load_uint "BRIDGE" "feature_bridge_flag" 1;
  feature_bridge_name = env.load_string "BRIDGE" "feature_bridge_name" "FEATURE_BRIDGE";
  sni_bridge_flag = env.load_uint "BRIDGE" "sni_bridge_flag" 1;
  sni_bridge_name = env.load_string "BRIDGE" "sni_bridge_name" "SNI_BRIDGE";
}

-- `feat_config_read` once the log is open: the parts in order; a part that fails ends it.
unfoldable pub read_parts : Env → Status × Config
unfolding init
read_parts env =
    let base = record init { settings = read_settings env } in
    let (sni_status, sni) = read_sni env (read_outputs env base.outputs) in
    let (kafka_status, kafka) = read_kafka env (read_feature_bridge env sni) in
    let switches = read_switches env in
    elim sni_status [
      | failed ↦ (failed, record base { outputs = sni })
      | done ↦ elim kafka_status [
        | failed ↦ (failed, record base { outputs = kafka })
        | done ↦ (
          done,
          record base { outputs = kafka; switches = switches; needs = compute_needs switches },
        )
      ]
    ]

-- `feat_config_read`
unfoldable pub read : Env → Status × Config
read env = if env.create_log then read_parts env else (failed, init)

-- `feat_config_destroy`
unfoldable pub destroy : Config → Config
destroy c = record c {
  outputs = record (c.outputs) {
    has_log = false;
    has_producer = not (is_set c.send_kafka_flag) && c.has_producer;
  };
}

-- `sni_bridge_enabled` of src/ti_features.cpp
unfoldable pub sni_bridge_enabled : Config → Bool
sni_bridge_enabled c =
    is_set c.sni_bridge_flag && elim c.sni_bridge_id [ none ↦ false | some _ ↦ true ]
