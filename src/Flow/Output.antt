-- ===== src/Flow/Output.antt =====
-- src/ti_features.cpp, the branch OP_STATE_CLOSE of `traffic_process` and
-- `flow_state_compute_features`: which features are computed of a flow, and where they are sent.
use Prim.Native.String.{String}
use ti_features.Prelude.{
  ℕ, ◌≡◌, refl, Bool, true, false, not, ◌&&◌, ◌||◌, Option, none, some, List, [], ◌∷◌, ◌++◌, is_set,
  if◌then◌else◌, arith, Bool-cases, inl, inr, ◌+◌,
}
use ti_features.CircularBuffer.{done}
use ti_features.Config.{Config, Env, read, sni_bridge_enabled}
use ti_features.Config.Laws.{read-done}

-- The groups of features in the JSON of a flow, in the order in which they are written.
pub data Feature : Type 0 where
  tuple sni basic iat burst protocol payload sequence fft window behavior totals : Feature

-- A group that is written under a condition.
abbrev pub write_if : Bool → Feature → List Feature
write_if true feature = feature ∷ []
write_if false feature = []

-- `flow_state_compute_features`; `none` where there is no JSON object. `has_sni` is whether the bridge
-- has a name for the stream.
unfoldable pub compute_features : Config → Bool → Bool → Option (List Feature)
compute_features cfg has_object has_sni =
    if has_object
    then some (
        tuple ∷ write_if (sni_bridge_enabled cfg && has_sni) sni
        ++ write_if (is_set cfg.enable_basic) basic
        ++ write_if (is_set cfg.enable_iat) iat
        ++ write_if (is_set cfg.enable_burst) burst
        ++ write_if (is_set cfg.enable_protocol) protocol
        ++ write_if (is_set cfg.enable_payload) payload
        ++ write_if (is_set cfg.enable_sequence) sequence
        ++ write_if (is_set cfg.enable_fft) fft
        ++ write_if (is_set cfg.enable_window) window
        ++ write_if (is_set cfg.enable_behavior) behavior
        ++ (totals ∷ []))
    else none

-- Where the text of a flow's JSON goes: to `SendData` of the Kafka producer with a topic, to the log,
-- and to a bridge as a copy. `asks_queue` is the call of the producer's `MessageInQueue`.
pub data Output : Type 0 where
  to_kafka : String → Output
  asks_queue : Output
  to_log : Output
  to_bridge : ℕ → Output

-- The calls of the Kafka producer: the length of its queue is asked for the log where `SendData`
-- does not return 0.
unfoldable pub kafka_part : Config → Bool → List Output
kafka_part cfg enqueued =
    if is_set cfg.send_kafka_flag
    then to_kafka cfg.topic_name ∷ (if enqueued then [] else asks_queue ∷ [])
    else []

-- The copy for the bridge.
unfoldable pub bridge_part : Config → Bool → Option ℕ → List Output
bridge_part cfg copies none = []
bridge_part cfg copies (some id) =
    if is_set cfg.feature_bridge_flag && copies then to_bridge id ∷ [] else []

-- The sends of the branch OP_STATE_CLOSE: `prints` is whether there is memory for the text,
-- `enqueued` whether `SendData` returns 0, and `copies` whether there is memory for the copy.
unfoldable pub send : Config → Option (List Feature) → Bool → Bool → Bool → List Output
unfolding kafka_part bridge_part
send cfg none prints enqueued copies = []
send cfg (some features) prints enqueued copies =
    if (is_set cfg.send_kafka_flag || is_set cfg.output_to_log || is_set cfg.feature_bridge_flag)
      && prints
    then kafka_part cfg enqueued
      ++ ((if is_set cfg.output_to_log then to_log ∷ [] else [])
          ++ bridge_part cfg copies cfg.feature_bridge_id)
    else []

-- How many outputs pass a test.
abbrev pub tally : (Output → Bool) → List Output → ℕ
tally test [] = 0
tally test (o ∷ outputs) = (if test o then 1 else 0) + tally test outputs

abbrev pub is_send : Output → Bool
is_send (to_kafka topic) = true
is_send asks_queue = false
is_send to_log = false
is_send (to_bridge id) = false

abbrev pub is_query : Output → Bool
is_query asks_queue = true
is_query (to_kafka topic) = false
is_query to_log = false
is_query (to_bridge id) = false

-- Whether there is a text to send.
abbrev pub has_text : Option (List Feature) → Bool → Bool
has_text none prints = false
has_text (some features) prints = prints

bridge_part-quiet :
    (cfg : Config) (copies : Bool) (id : Option ℕ)
    → (tally is_send (bridge_part cfg copies id) ≡ 0)
      × (tally is_query (bridge_part cfg copies id) ≡ 0)
unfolding bridge_part
bridge_part-quiet cfg copies none = (refl, refl)
bridge_part-quiet cfg copies (some n) =
    elim (Bool-cases (is_set cfg.feature_bridge_flag && copies)) [
      | inl e ↦ rw e (refl, refl)
      | inr e ↦ rw e (refl, refl)
    ]

-- What the log and the bridge add to the calls of the producer is nothing.
tally-rest :
    (log : Bool) (rest : List Output)
    → tally is_send rest ≡ 0
    → tally is_query rest ≡ 0
    → (tally is_send ((if log then to_log ∷ [] else []) ++ rest) ≡ 0)
      × (tally is_query ((if log then to_log ∷ [] else []) ++ rest) ≡ 0)
tally-rest true rest h q = (omega arith, omega arith)
tally-rest false rest h q = (h, q)

tally-parts :
    (kafka log bridge prints enqueued : Bool) (topic : String) (rest : List Output)
    → tally is_send rest ≡ 0
    → tally is_query rest ≡ 0
    → let outputs =
        if ((kafka || log) || bridge) && prints
        then (if kafka then to_kafka topic ∷ (if enqueued then [] else asks_queue ∷ []) else [])
          ++ rest
        else [] in
      (tally is_send outputs ≡ (if kafka && prints then 1 else 0))
      × (tally is_query outputs ≡ (if (kafka && prints) && not enqueued then 1 else 0))
tally-parts true log bridge true true topic rest h q = (omega arith, omega arith)
tally-parts true log bridge true false topic rest h q = (omega arith, omega arith)
tally-parts true log bridge false enqueued topic rest h q = (refl, refl)
tally-parts false true bridge true enqueued topic rest h q = (h, q)
tally-parts false true bridge false enqueued topic rest h q = (refl, refl)
tally-parts false false true true enqueued topic rest h q = (h, q)
tally-parts false false true false enqueued topic rest h q = (refl, refl)
tally-parts false false false prints enqueued topic rest h q = (refl, refl)

-- How often a flow calls the producer, by the flag.
tally-send :
    (cfg : Config) (features : Option (List Feature)) (prints enqueued copies : Bool)
    → let outputs = send cfg features prints enqueued copies in
      let sends = is_set cfg.send_kafka_flag && has_text features prints in
      (tally is_send outputs ≡ (if sends then 1 else 0))
      × (tally is_query outputs ≡ (if sends && not enqueued then 1 else 0))
unfolding send kafka_part
tally-send cfg none prints enqueued copies = ground arith
tally-send cfg (some features) prints enqueued copies =
    let (s, q) = bridge_part-quiet cfg copies cfg.feature_bridge_id in
    let (s', q') =
      tally-rest (is_set cfg.output_to_log) (bridge_part cfg copies cfg.feature_bridge_id) s q in
    tally-parts (is_set cfg.send_kafka_flag) (is_set cfg.output_to_log)
      (is_set cfg.feature_bridge_flag) prints enqueued cfg.topic_name _ s' q'

-- After the configuration was read with success, the close of a flow calls `SendData` exactly
-- once if there is a producer and a text of the flow's features, and never otherwise; and it
-- asks the producer for its queue exactly once if `SendData` then failed, and never otherwise. So
-- the pointer `kafka_producer` is not null in either call.
pub send-kafka :
    (env : Env) (features : Option (List Feature)) (prints enqueued copies : Bool)
    → (read env).0 ≡ done
    → let cfg = (read env).1 in
      let outputs = send cfg features prints enqueued copies in
      let sends = cfg.has_producer && has_text features prints in
      (tally is_send outputs ≡ (if sends then 1 else 0))
      × (tally is_query outputs ≡ (if sends && not enqueued then 1 else 0))
send-kafka env features prints enqueued copies h =
    let (_, producer, _, _) = read-done env h in
    rw producer (tally-send (read env).1 features prints enqueued copies)
