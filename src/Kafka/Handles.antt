-- ===== src/Kafka/Handles.antt =====
-- What each method does to the books on a handle and on a name.
use Prim.Native.String.{String}
use text.Mathlib.Text.{◌==◌ as str_eq}
use text.Mathlib.TextEquality.{eq_iff}
use ti_features.Prelude.{
  ℕ, ◌+◌, ◌≤◌, ◌≡◌, refl, Bool, ◌||◌, Option, none, some, List, [], ◌∷◌, ◌==◌ as nat_eq,
  if◌then◌else◌, Bool-cases, inl, inr, arith,
}
use mathlib.Core.Path.{subst}
use ti_features.Kafka.{
  Producer, Call, produce, poll, flush, find_handle, is_null, add_topic, create_by,
  create_topic_handle, send_on, send_by, send_data, not_sendable, ask,
}
use ti_features.Kafka.Life.{
  tally, creates, names, destroys, opens, closes, tally-append, Request, send, create,
  flush_request, poll_request, serve,
}

-- How often the map has a handle, and a name.
abbrev pub held : ℕ → List (String × ℕ) → ℕ
held h [] = 0
held h ((name, handle) ∷ rest) = (if nat_eq handle h then 1 else 0) + held h rest

abbrev pub entries : String → List (String × ℕ) → ℕ
entries t [] = 0
entries t ((name, handle) ∷ rest) = (if str_eq name t then 1 else 0) + entries t rest

-- A name that is not found is not in the map.
entries-none : (map : List (String × ℕ)) (t : String) → find_handle map t ≡ none → entries t map ≡ 0
unfolding find_handle
entries-none [] t e = refl
entries-none ((name, handle) ∷ rest) t e = elim (Bool-cases (str_eq name t)) [
  | inl found ↦ absurd (ground arith)
  | inr other ↦ rw other (omega (arith, entries-none rest t (ground arith)))
]

-- What calls do to the books: the handle and the name they are kept for are section parameters.
module _ (h : ℕ) (t : String) where
  pub record Balances (p p' : Producer) (calls : List Call) : Type 0 where
    pub client : p'.kafka ≡ p.kafka
    pub created : tally (creates h) calls + held h p.topic_handle_map ≡ held h p'.topic_handle_map
    pub named : tally (names t) calls + entries t p.topic_handle_map ≡ entries t p'.topic_handle_map
    pub once : entries t p'.topic_handle_map ≤ 1
    pub kept : tally (destroys h) calls ≡ 0
    pub opened : tally opens calls ≡ 0
    pub closed : tally closes calls ≡ 0

  nothing-Balances : (p : Producer) → entries t p.topic_handle_map ≤ 1 → Balances p p []
  nothing-Balances p u = record {
    client = refl;
    created = omega arith;
    named = omega arith;
    once = u;
    kept = refl;
    opened = refl;
    closed = refl;
  }

  -- A name that is not there is there once after it was added.
  added_once :
      (map : List (String × ℕ)) (topic : String)
      → entries t map ≤ 1
      → find_handle map topic ≡ none
      → (if str_eq topic t then 1 else 0) + entries t map ≤ 1
  added_once map topic u e = elim (Bool-cases (str_eq topic t)) [
    | inl same ↦
        (let absent : entries t map ≡ 0 =
            entries-none map t
              (subst (λ n. find_handle map n ≡ none) ((eq_iff topic t).0 same) e) in
          rw same (omega arith))
    | inr other ↦ rw other (omega arith)
  ]

  add_topic-Balances :
      (p : Producer) (topic : String) (answer : Option ℕ)
      → entries t p.topic_handle_map ≤ 1
      → find_handle p.topic_handle_map topic ≡ none
      → let (p', handle, calls) = add_topic p topic answer in Balances p p' calls
  unfolding add_topic
  add_topic-Balances p topic none u e = record {
    client = refl;
    created = omega arith;
    named = omega arith;
    once = u;
    kept = refl;
    opened = refl;
    closed = refl;
  }
  add_topic-Balances p topic (some handle) u e = record {
    client = refl;
    created = omega arith;
    named = omega arith;
    once = added_once p.topic_handle_map topic u e;
    kept = refl;
    opened = refl;
    closed = refl;
  }

  create_by-Balances :
      (p : Producer) (topic : String) (answer found : Option ℕ)
      → entries t p.topic_handle_map ≤ 1
      → find_handle p.topic_handle_map topic ≡ found
      → let (p', handle, calls) = create_by p topic answer found in Balances p p' calls
  unfolding create_by
  create_by-Balances p topic answer none u e = add_topic-Balances p topic answer u e
  create_by-Balances p topic answer (some handle) u e = nothing-Balances p u

  create_topic_handle-Balances :
      (p : Producer) (topic : String) (answer : Option ℕ)
      → entries t p.topic_handle_map ≤ 1
      → let (p', handle, calls) = create_topic_handle p topic answer in Balances p p' calls
  unfolding create_topic_handle
  create_topic_handle-Balances p topic answer u = elim (Bool-cases (is_null p.kafka)) [
    | inl e ↦ rw e (nothing-Balances p u)
    | inr e ↦ rw e (create_by-Balances p topic answer (find_handle p.topic_handle_map topic) u refl)
  ]

  -- Calls that neither create nor give back leave the books as they are.
  send_on-Balances :
      (p p' : Producer) (enqueued : Bool) (handle : Option ℕ) (calls : List Call)
      → Balances p p' calls
      → let (p'', ok, calls') = send_on enqueued (p', handle, calls) in Balances p p'' calls'
  unfolding send_on
  send_on-Balances p p' enqueued none calls b = b
  send_on-Balances p p' enqueued (some handle) calls b =
      let sent = produce handle ∷ poll ∷ [] in
      record {
        client = b.client;
        created = omega (arith, b.created, tally-append (creates h) calls sent);
        named = omega (arith, b.named, tally-append (names t) calls sent);
        once = b.once;
        kept = omega (arith, b.kept, tally-append (destroys h) calls sent);
        opened = omega (arith, b.opened, tally-append opens calls sent);
        closed = omega (arith, b.closed, tally-append closes calls sent);
      }

  send_by-Balances :
      (p : Producer) (topic : String) (answer : Option ℕ) (enqueued : Bool) (found : Option ℕ)
      → entries t p.topic_handle_map ≤ 1
      → let (p', ok, calls) = send_by p topic answer enqueued found in Balances p p' calls
  unfolding send_by
  send_by-Balances p topic answer enqueued none u =
      let (p', handle, calls) = create_topic_handle p topic answer in
      send_on-Balances p p' enqueued handle calls (create_topic_handle-Balances p topic answer u)
  send_by-Balances p topic answer enqueued (some handle) u =
      send_on-Balances p p enqueued (some handle) [] (nothing-Balances p u)

  send_data-Balances :
      (p : Producer) (topic : String) (has_payload : Bool) (paylen : ℕ) (answer : Option ℕ)
      (enqueued : Bool)
      → entries t p.topic_handle_map ≤ 1
      → let (p', ok, calls) = send_data p topic has_payload paylen answer enqueued in
        Balances p p' calls
  unfolding send_data
  send_data-Balances p topic has_payload paylen answer enqueued u =
      elim (Bool-cases (is_null p.kafka || not_sendable has_payload paylen)) [
        | inl e ↦ rw e (nothing-Balances p u)
        | inr e ↦
            rw e (send_by-Balances p topic answer enqueued (find_handle p.topic_handle_map topic) u)
      ]

  quiet-Balances :
      (p : Producer) (call : Call)
      → entries t p.topic_handle_map ≤ 1
      → creates h call ≡ 0
      → names t call ≡ 0
      → destroys h call ≡ 0
      → opens call ≡ 0
      → closes call ≡ 0
      → Balances p p (ask p call)
  unfolding ask
  quiet-Balances p call u a b c e f = elim (Bool-cases (is_null p.kafka)) [
    | inl n ↦ rw n (nothing-Balances p u)
    | inr n ↦ rw n (record {
      client = refl;
      created = omega arith;
      named = omega arith;
      once = u;
      kept = omega arith;
      opened = omega arith;
      closed = omega arith;
    })
  ]

  pub serve-Balances :
      (p : Producer) (r : Request)
      → entries t p.topic_handle_map ≤ 1
      → let (p', calls) = serve p r in Balances p p' calls
  unfolding serve
  serve-Balances p (send topic has_payload paylen answer enqueued) u =
      send_data-Balances p topic has_payload paylen answer enqueued u
  serve-Balances p (create topic answer) u = create_topic_handle-Balances p topic answer u
  serve-Balances p flush_request u = quiet-Balances p flush u refl refl refl refl refl
  serve-Balances p poll_request u = quiet-Balances p poll u refl refl refl refl refl
