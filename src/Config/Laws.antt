-- ===== src/Config/Laws.antt =====
-- What a read configuration guarantees, whatever the profile says.
use ti_features.Prelude.{◌≤◌, ◌≡◌, true, false, is_set, arith}
use ti_features.CircularBuffer.{done, failed}
use ti_features.Config.{
  Outputs, Env, read, read_parts, read_settings, read_sni, read_kafka, read_feature_bridge,
  read_outputs, destroy, init, max_first_n_packets,
}

-- However `feat_config_read` ends, `first_n_packets` lies between 1 and 1024.
read-first_n_bounds :
    (env : Env) → let n = (read env).1.first_n_packets in (1 ≤ n) × (n ≤ max_first_n_packets)
unfolding read read_parts read_settings init
read-first_n_bounds env = ground arith

read_sni-Released :
    (env : Env) (o : Outputs)
    → o.has_log ≡ true
    → o.has_producer ≡ false
    → let (s, new) = read_sni env o in
      (new.has_producer ≡ false)
      × (s ≡ failed → new.has_log ≡ false)
      × (s ≡ done → new.has_log ≡ true)
unfolding read_sni
read_sni-Released env o h k = ground arith

read_kafka-Released :
    (env : Env) (o : Outputs)
    → o.has_log ≡ true
    → o.has_producer ≡ false
    → let (s, new) = read_kafka env o in
      (s ≡ failed → (new.has_log ≡ false) × (new.has_producer ≡ false))
      × (s ≡ done → (new.has_log ≡ true) × (new.has_producer ≡ is_set new.send_kafka_flag))
unfolding read_kafka
read_kafka-Released env o h k = ground arith

-- How `feat_config_read` leaves the outputs, for either status.
read-Released :
    (env : Env)
    → ((read env).0 ≡ failed → ((read env).1.has_log ≡ false) × ((read env).1.has_producer ≡ false))
      × ((read env).0 ≡ done
          → ((read env).1.has_log ≡ true)
            × ((read env).1.has_producer ≡ is_set (read env).1.send_kafka_flag))
unfolding read read_parts read_outputs read_feature_bridge init
read-Released env =
    let opened = read_outputs env init.outputs in
    let after_sni = (read_sni env opened).1 in
    ground (
      arith,
      read_sni-Released env opened,
      read_kafka-Released env (read_feature_bridge env after_sni),
    )

-- A failed `feat_config_read` leaves no log and no Kafka producer open, whichever of its steps
-- failed.
pub read-failed :
    (env : Env)
    → (read env).0 ≡ failed
    → ((read env).1.has_log ≡ false) × ((read env).1.has_producer ≡ false)
read-failed env = (read-Released env).0

-- A successful `feat_config_read` leaves the log open, and a Kafka producer just if Kafka is
-- switched on. `feat_config_destroy` then closes the log and the producer.
pub read-done :
    (env : Env)
    → (read env).0 ≡ done
    → ((read env).1.has_log ≡ true)
      × ((read env).1.has_producer ≡ is_set (read env).1.send_kafka_flag)
      × ((destroy (read env).1).has_log ≡ false)
      × ((destroy (read env).1).has_producer ≡ false)
unfolding destroy
read-done env h = let (log, producer) = (read-Released env).1 h in ground arith
