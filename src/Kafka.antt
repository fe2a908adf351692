-- ===== src/Kafka.antt =====
-- src/KafkaProducer.cpp and .h: the producer of a Kafka client. What librdkafka answers is an
-- argument, and each operation returns the calls that it makes of it.
pub mod Life
pub mod Handles
pub mod Balanced
use Prim.Native.String.{String}
use text.Mathlib.Text.{◌==◌ as str_eq}
use ti_features.Prelude.{
  ℕ, ◌+◌, Bool, true, false, ◌&&◌, ◌||◌, Option, none, some, List, [], ◌∷◌, ◌++◌, ◌==◌ as nat_eq,
  if◌then◌else◌,
}

-- The pointer `kafka`: the constructor does not set it.
pub data Client : Type 0 where
  unset null live : Client

-- A topic handle is a number.
pub record Producer : Type 0 where
  pub kafka : Client
  pub topic_handle_map : List (String × ℕ)

-- The calls of librdkafka that take or give back a handle, and those that send.
pub data Call : Type 0 where
  kafka_new : Bool → Call
  brokers_add : Call
  metadata : Call
  kafka_destroy : Call
  topic_new : String → Option ℕ → Call
  topic_destroy : ℕ → Call
  produce : ℕ → Call
  poll : Call
  flush : Call
  wait_destroyed : Call

-- `KafkaProducer::KafkaProducer`
abbrev pub new_producer : Producer
new_producer = record { kafka = unset; topic_handle_map = [] }

-- The returns 0, -1, -2 and -3.
pub data Connection : Type 0 where
  connected no_client no_brokers probe_failed : Connection

-- `KafkaConnection`: whether there is a client, whether it took a broker, and whether it answers.
unfoldable pub kafka_connection : Producer → Bool → Bool → Bool → Producer × Connection × List Call
kafka_connection p false took answers = (record p { kafka = null }, no_client, kafka_new false ∷ [])
kafka_connection p true false answers =
    (record p { kafka = live }, no_brokers, kafka_new true ∷ brokers_add ∷ [])
kafka_connection p true true false = (
  record p { kafka = null },
  probe_failed,
  kafka_new true ∷ brokers_add ∷ metadata ∷ kafka_destroy ∷ [],
)
kafka_connection p true true true =
    (record p { kafka = live }, connected, kafka_new true ∷ brokers_add ∷ metadata ∷ [])

-- `topicHandleMap.count` and `operator[]` of a name that is there.
unfoldable pub find_handle : List (String × ℕ) → String → Option ℕ
find_handle [] topic = none
find_handle ((name, handle) ∷ rest) topic =
    if str_eq name topic then some handle else find_handle rest topic

-- The test `!kafka`.
unfoldable pub is_null : Client → Bool
is_null null = true
is_null live = false
is_null unset = false

-- A topic that is not in the map yet, by what `rd_kafka_topic_new` answers.
unfoldable pub add_topic : Producer → String → Option ℕ → Producer × Option ℕ × List Call
add_topic p topic none = (p, none, topic_new topic none ∷ [])
add_topic p topic (some handle) = (
  record p { topic_handle_map = (topic, handle) ∷ p.topic_handle_map },
  some handle,
  topic_new topic (some handle) ∷ metadata ∷ [],
)

-- `CreateTopicHandle` when the client is there, by what the map has.
unfoldable pub create_by : Producer → String → Option ℕ → Option ℕ → Producer × Option ℕ × List Call
unfolding add_topic
create_by p topic answer (some handle) = (p, some handle, [])
create_by p topic answer none = add_topic p topic answer

-- `CreateTopicHandle`
unfoldable pub create_topic_handle : Producer → String → Option ℕ → Producer × Option ℕ × List Call
unfolding create_by find_handle is_null
create_topic_handle p topic answer =
    if is_null p.kafka
    then (p, none, [])
    else create_by p topic answer (find_handle p.topic_handle_map topic)

-- What `SendData` does with the handle; the result is whether it returns 0.
unfoldable pub send_on : Bool → Producer × Option ℕ × List Call → Producer × Bool × List Call
send_on enqueued (p, none, calls) = (p, false, calls)
send_on enqueued (p, some handle, calls) = (p, enqueued, calls ++ (produce handle ∷ poll ∷ []))

abbrev pub not_sendable : Bool → ℕ → Bool
not_sendable true paylen = nat_eq paylen 0
not_sendable false paylen = true

-- The choice of the handle: a name in the map is found there, and `CreateTopicHandle` is called
-- for any other.
unfoldable pub send_by :
    Producer → String → Option ℕ → Bool → Option ℕ → Producer × Bool × List Call
unfolding create_topic_handle send_on
send_by p topic answer enqueued (some handle) = send_on enqueued (p, some handle, [])
send_by p topic answer enqueued none = send_on enqueued (create_topic_handle p topic answer)

-- `SendData`, by what `rd_kafka_topic_new` and `rd_kafka_produce` answer.
unfoldable pub send_data :
    Producer → String → Bool → ℕ → Option ℕ → Bool → Producer × Bool × List Call
unfolding send_by
send_data p topic has_payload paylen answer enqueued =
    if is_null p.kafka || not_sendable has_payload paylen
    then (p, false, [])
    else send_by p topic answer enqueued (find_handle p.topic_handle_map topic)

-- `Flush`, `KafkaPoll` and `MessageInQueue`, which only ask the client.
unfoldable pub ask : Producer → Call → List Call
unfolding is_null
ask p call = if is_null p.kafka then [] else call ∷ []

-- The loop of the destructor.
unfoldable pub destroy_topics : List (String × ℕ) → List Call
destroy_topics [] = []
destroy_topics ((name, handle) ∷ rest) = topic_destroy handle ∷ destroy_topics rest

-- `KafkaProducer::~KafkaProducer`
unfoldable pub destroy : Producer → List Call
unfolding destroy_topics is_null
destroy p =
    (if is_null p.kafka then [] else flush ∷ [])
    ++ (destroy_topics p.topic_handle_map
        ++ (if is_null p.kafka then [] else kafka_destroy ∷ wait_destroyed ∷ []))
