-- ===== src/Kafka/Balanced.antt =====
-- Every handle that a producer takes from librdkafka is given back once.
use Prim.Native.String.{String}
use ti_features.Prelude.{
  ℕ, ◌+◌, ◌≤◌, ◌≡◌, refl, ap, ◌∙◌, Bool, true, false, List, [], ◌∷◌, ◌++◌, if◌then◌else◌, arith,
}
use ti_features.Kafka.{
  Client, null, live, Producer, Call, kafka_new, brokers_add, metadata, kafka_destroy, flush,
  wait_destroyed, is_null, destroy_topics, destroy,
}
use ti_features.Kafka.Life.{
  tally, creates, names, destroys, opens, closes, tally-append, Request, serve, serve_all, life,
}
use ti_features.Kafka.Handles.{held, entries, serve-Balances}

module _ (h : ℕ) (t : String) where
  -- The books of a producer that is destroyed in the end.
  record Settles (p : Producer) (calls : List Call) : Type 0 where
    settled : tally (creates h) calls + held h p.topic_handle_map ≡ tally (destroys h) calls
    named_once : tally (names t) calls + entries t p.topic_handle_map ≤ 1
    none_opened : tally opens calls ≡ 0
    client_closed : tally closes calls ≡ (if is_null p.kafka then 0 else 1)

  destroy_topics-Settles :
      (map : List (String × ℕ))
      → (tally (destroys h) (destroy_topics map) ≡ held h map)
        × (tally (creates h) (destroy_topics map) ≡ 0)
        × (tally (names t) (destroy_topics map) ≡ 0)
        × (tally opens (destroy_topics map) ≡ 0)
        × (tally closes (destroy_topics map) ≡ 0)
  unfolding destroy_topics
  destroy_topics-Settles [] = (refl, refl, refl, refl, refl)
  destroy_topics-Settles ((name, handle) ∷ rest) =
      let (a, b, c, e, f) = destroy_topics-Settles rest in
      (omega arith, omega arith, omega arith, omega arith, omega arith)

  tail-Settles :
      (p : Producer)
      → let tail = if is_null p.kafka then [] else kafka_destroy ∷ wait_destroyed ∷ [] in
        let head = if is_null p.kafka then [] else flush ∷ [] in
        let all = head ++ (destroy_topics p.topic_handle_map ++ tail) in
        (counts : Call → ℕ)
        → tally counts all
          ≡ tally counts head
            + (tally counts (destroy_topics p.topic_handle_map) + tally counts tail)
  tail-Settles p counts =
      let tail : List Call = if is_null p.kafka then [] else kafka_destroy ∷ wait_destroyed ∷ [] in
      let head : List Call = if is_null p.kafka then [] else flush ∷ [] in
      omega (
        arith,
        tally-append counts head (destroy_topics p.topic_handle_map ++ tail),
        tally-append counts (destroy_topics p.topic_handle_map) tail,
      )

  destroy-Settles : (p : Producer) → entries t p.topic_handle_map ≤ 1 → Settles p (destroy p)
  unfolding destroy
  destroy-Settles p u =
      let (a, b, c, e, f) = destroy_topics-Settles p.topic_handle_map in
      let split = tail-Settles p in
      let of_creates = split (creates h) in
      let of_names = split (names t) in
      let of_destroys = split (destroys h) in
      let of_opens = split opens in
      let of_closes = split closes in
      record {
        settled = ground arith;
        named_once = ground arith;
        none_opened = ground arith;
        client_closed = ground arith;
      }

  serve_all-Settles :
      (p : Producer) (rs : List Request)
      → entries t p.topic_handle_map ≤ 1
      → Settles p (serve_all p rs)
  unfolding serve_all
  serve_all-Settles p [] u = destroy-Settles p u
  serve_all-Settles p (r ∷ rs) u =
      let (p', calls) = serve p r in
      let b = serve-Balances h t p r u in
      let rest = serve_all p' rs in
      let s = serve_all-Settles p' rs (b.once) in
      record {
        settled = omega (
          arith,
          b.created,
          b.kept,
          s.settled,
          tally-append (creates h) calls rest,
          tally-append (destroys h) calls rest,
        );
        named_once = omega (arith, b.named, s.named_once, tally-append (names t) calls rest);
        none_opened = omega (arith, b.opened, s.none_opened, tally-append opens calls rest);
        client_closed =
            tally-append closes calls rest
            ∙ omega (arith, b.closed)
            ∙ s.client_closed
            ∙ ap (λ k. if is_null k then 0 else 1) b.client;
      }

-- The books after a connection that makes no handle for a topic.
balanced_from :
    (kafka : Client) (calls : List Call) (rs : List Request) (h : ℕ) (t : String)
    → tally (creates h) calls ≡ 0
    → tally (destroys h) calls ≡ 0
    → tally (names t) calls ≡ 0
    → tally opens calls ≡ tally closes calls + (if is_null kafka then 0 else 1)
    → let all = calls ++ serve_all (record { kafka = kafka; topic_handle_map = [] }) rs in
      (tally (creates h) all ≡ tally (destroys h) all)
      × (tally (names t) all ≤ 1)
      × (tally opens all ≡ tally closes all)
balanced_from kafka calls rs h t a b c e =
    let p : Producer = record { kafka = kafka; topic_handle_map = [] } in
    let rest = serve_all p rs in
    let s = serve_all-Settles h t p rs (omega arith) in
    (
      omega (
        arith,
        s.settled,
        tally-append (creates h) calls rest,
        tally-append (destroys h) calls rest,
      ),
      omega (arith, s.named_once, tally-append (names t) calls rest),
      omega (
        arith,
        s.none_opened,
        s.client_closed,
        tally-append opens calls rest,
        tally-append closes calls rest,
      ),
    )

-- Whatever librdkafka answers and whatever is asked of a producer between its connection and its
-- destructor: over its whole life a topic handle is given back exactly as often as it was
-- created, at most one handle is created for a name, and the client is closed exactly as often
-- as it was opened.
pub life-balanced :
    (client took answers : Bool) (rs : List Request) (h : ℕ) (t : String)
    → let calls = life client took answers rs in
      (tally (creates h) calls ≡ tally (destroys h) calls)
      × (tally (names t) calls ≤ 1)
      × (tally opens calls ≡ tally closes calls)
unfolding life
life-balanced false took answers rs h t =
    balanced_from null (kafka_new false ∷ []) rs h t refl refl refl refl
life-balanced true false answers rs h t =
    balanced_from live (kafka_new true ∷ brokers_add ∷ []) rs h t refl refl refl refl
life-balanced true true false rs h t =
    balanced_from null (kafka_new true ∷ brokers_add ∷ metadata ∷ kafka_destroy ∷ []) rs h t refl
      refl refl refl
life-balanced true true true rs h t =
    balanced_from live (kafka_new true ∷ brokers_add ∷ metadata ∷ []) rs h t refl refl refl refl
