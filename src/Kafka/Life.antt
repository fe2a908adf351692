-- ===== src/Kafka/Life.antt =====
-- The life of a producer as the calls that it makes, and how calls are counted.
use Prim.Native.String.{String}
use text.Mathlib.Text.{◌==◌ as str_eq}
use ti_features.Prelude.{
  ℕ, ◌+◌, ◌≡◌, Bool, true, Option, some, List, [], ◌∷◌, ◌++◌, ◌==◌ as nat_eq, if◌then◌else◌, arith,
}
use ti_features.Kafka.{
  Producer, Call, kafka_new, kafka_destroy, topic_new, topic_destroy, poll, flush, new_producer,
  kafka_connection, create_topic_handle, send_data, ask, destroy,
}

-- The methods that are called between the connection and the destructor.
pub data Request : Type 0 where
  send : String → Bool → ℕ → Option ℕ → Bool → Request
  create : String → Option ℕ → Request
  flush_request : Request
  poll_request : Request

unfoldable pub serve : Producer → Request → Producer × List Call
unfolding send_data create_topic_handle ask
serve p (send topic has_payload paylen answer enqueued) =
    let (p', ok, calls) = send_data p topic has_payload paylen answer enqueued in (p', calls)
serve p (create topic answer) =
    let (p', handle, calls) = create_topic_handle p topic answer in (p', calls)
serve p flush_request = (p, ask p flush)
serve p poll_request = (p, ask p poll)

-- The requests in turn, and the destructor behind them.
unfoldable pub serve_all : Producer → List Request → List Call
unfolding serve destroy
serve_all p [] = destroy p
serve_all p (r ∷ rs) = let (p', calls) = serve p r in calls ++ serve_all p' rs

-- The life of a producer, by what the connection is answered.
unfoldable pub life : Bool → Bool → Bool → List Request → List Call
unfolding kafka_connection serve_all
life client took answers rs =
    let (p, connection, calls) = kafka_connection new_producer client took answers in
    calls ++ serve_all p rs

-- The calls of a kind, counted.
abbrev pub tally : (Call → ℕ) → List Call → ℕ
tally counts [] = 0
tally counts (c ∷ calls) = counts c + tally counts calls

-- The calls that create a handle, create one for a name, give a handle back, and open and close
-- the client.
abbrev pub creates : ℕ → Call → ℕ
creates h (topic_new topic (some handle)) = if nat_eq handle h then 1 else 0
creates h _ = 0

abbrev pub names : String → Call → ℕ
names t (topic_new topic (some handle)) = if str_eq topic t then 1 else 0
names t _ = 0

abbrev pub destroys : ℕ → Call → ℕ
destroys h (topic_destroy handle) = if nat_eq handle h then 1 else 0
destroys h _ = 0

abbrev pub opens : Call → ℕ
opens (kafka_new true) = 1
opens _ = 0

abbrev pub closes : Call → ℕ
closes kafka_destroy = 1
closes _ = 0

pub tally-append :
    (counts : Call → ℕ) (a b : List Call) → tally counts (a ++ b) ≡ tally counts a + tally counts b
tally-append counts [] b = omega arith
tally-append counts (c ∷ a) b = omega (arith, tally-append counts a b)
