-- ===== src/Tests/Flows.antt =====
-- Examples of flows: calls of the traffic processor, and what they lead to.
use ti_features.Prelude.{
  ℕ, ◌+◌, ◌%◌, ◌^◌, ◌≡◌, ◌⊎◌, ◌&&◌, refl, true, false, List, [], ◌∷◌, Option, none, some, map,
  keep_last, arith, if◌then◌else◌,
}
use ti_features.Double.{count_double, zeroed_double}
use ti_features.Config.{sni_bridge_enabled, read, read_parts, read_sni, read_kafka, read_outputs}
use ti_features.FeatureStats.{fwd, bwd}
use ti_features.MemoryPool.{rank, check_upgrade}
use ti_features.Flow.{FlowState, tcp, pending, data_state, close, mac, Call, Memory, System}
use ti_features.Flow.Packet.{sizes_of, header_sizes, time_of, state_flag, sizes_of-pkt_len}
use ti_features.Flow.Init.{flow_state_init}
use ti_features.Flow.Grow.{shared_pool}
use ti_features.Flow.Grown.{moves}
use ti_features.Flow.Grown.Rings.{survivors}
use ti_features.Flow.Data.{process_data}
use ti_features.Flow.Process.{traffic_process}
use ti_features.Flow.Valid.{Sequences, Represents}
use ti_features.Flow.Started.Rings.{no_sequences}
use ti_features.Flow.Started.{set_up-IsFresh, flow_state_init_lem, has_memory, IsFresh}
use ti_features.Flow.Processed.{Follows, process_data-Represents}
use ti_features.Flow.Reach.{IsSound, empty, call, IsReachable-IsSound}
use ti_features.Flow.Life.{run, run_life}
use ti_features.Flow.History.{process_all, process_all-sequences}
use ti_features.Flow.Entries.{sni_entry, is_put, is_freed, CarriesName, sni_entry_lem}
use ti_features.Flow.Output.{compute_features, send, tally, is_send, is_query, has_text, send-kafka}
use ti_features.Tests.{all_on, defaults}

-- A system whose numbers are in host order already, with payloads that do not compress.
abbrev plain_system : System
plain_system = record {
  htons = λ n. n;
  ntohs = λ n. n;
  ntohl = λ n. n;
  isalnum = λ b. false;
  compress = λ payload. none;
}

abbrev plenty : Memory
plenty = record {
  has_state = true;
  has_first_n = true;
  has_pool = true;
  has_block = true;
  has_larger = true;
  has_snapshot = λ i. true;
}

-- A TCP segment with SYN, of 54 bytes in an Ethernet frame of 60, sent at 5 s.
abbrev syn_call : Call
syn_call = record {
  stream = tcp;
  packet = some (record {
    bytes = [];
    ihl = 5;
    iph = record { ttl = 64; tos = 0; saddr = 1; daddr = 2; frag_off = 0 };
    doff = 5;
    flags = record { syn = true; ack = false; fin = false; rst = false; psh = false; urg = false };
    window = 1024;
    seq = 7;
  });
  datalen = some 0;
  curdir = fwd;
  pktstate = pending;
  opstate = pending;
  is_ipv4 = true;
  paddr = some (4000, 443);
  tv_sec = 5;
  tv_usec = 0;
  platform_ms = 0;
  raw_tot_len = some 60;
  raw_pkt_type = some mac;
}

-- The answer to it, a later packet of the flow, and its close.
abbrev data_call : Call
data_call = record syn_call { curdir = bwd; pktstate = data_state; tv_usec = 200 }

abbrev close_call : Call
close_call = record syn_call { pktstate = close }

sizes_of-pkt_len_example : (sizes_of syn_call).pkt_len ≡ 60
unfolding header_sizes
sizes_of-pkt_len_example =
    sizes_of-pkt_len syn_call 60 mac (omega arith) refl refl refl (omega arith) (omega arith)

flow_state_init_lem_example :
    ((has_memory plenty ≡ true)
      × ((f : FlowState ℕ) × (flow_state_init all_on plenty ≡ some f) × IsFresh f))
    ⊎ ((has_memory plenty ≡ false) × (flow_state_init {D = ℕ} all_on plenty ≡ none))
flow_state_init_lem_example = flow_state_init_lem all_on plenty

-- A new flow.
abbrev new_flow : FlowState ℕ
new_flow = (set_up-IsFresh all_on).0

new_flow-IsFresh : IsFresh new_flow
new_flow-IsFresh = (set_up-IsFresh all_on).2

process_data-Represents_example :
    let f = process_data all_on plain_system plenty data_call new_flow in
    let moved = moves plenty new_flow in
    (new : Sequences) × Represents f new
    × Follows all_on plain_system data_call new_flow f.mem_pool.actual_seq_len
        (if moved then survivors (λ i. true) no_sequences else no_sequences)
        new
    × (rank f.mem_pool.level
        ≡ (if moved then rank new_flow.mem_pool.level + 1 else rank new_flow.mem_pool.level))
    × (f.mem_pool.current_pkt_count ≡ (check_upgrade (shared_pool new_flow)).1.current_pkt_count)
process_data-Represents_example =
    process_data-Represents all_on plain_system plenty data_call new_flow no_sequences
      (new_flow-IsFresh.0)

-- The slot after the first segment.
abbrev first_slot : Option (FlowState ℕ)
first_slot = (traffic_process all_on plain_system plenty syn_call none).slot

IsReachable-IsSound_example : IsSound first_slot
IsReachable-IsSound_example =
    IsReachable-IsSound all_on plain_system first_slot (call plenty syn_call none empty)

run_life_example :
    (f : FlowState ℕ) × (run all_on plain_system none
        ((plenty, syn_call) ∷ (plenty, data_call) ∷ (plenty, close_call) ∷ [])
      ≡ (none, f ∷ []))
    × IsSound (some f)
    × (f.counters.total_packets % 2 ^ 64 ≡ 2 % 2 ^ 64)
    × (f.flow_start_us ≡ time_of all_on syn_call)
unfolding state_flag
run_life_example =
    run_life all_on plain_system plenty syn_call ((plenty, data_call) ∷ []) plenty close_call refl
      refl (refl, tt) refl

process_all-sequences_example :
    let calls : List (Memory × Call) = (plenty, syn_call) ∷ (plenty, data_call) ∷ [] in
    (h : Sequences) × Represents (process_all all_on plain_system new_flow calls) h
    × (h.pkt_len ≡ keep_last 5000 (map (λ c. (sizes_of c).pkt_len) (syn_call ∷ data_call ∷ [])))
    × (h.dir ≡ keep_last 5000 (map (λ c. (sizes_of c).direction) (syn_call ∷ data_call ∷ [])))
    × (h.ts ≡ keep_last 5000 (map (time_of all_on) (syn_call ∷ data_call ∷ [])))
process_all-sequences_example =
    process_all-sequences all_on plain_system new_flow
      ((plenty, syn_call) ∷ (plenty, data_call) ∷ []) (λ e. ground arith) (λ e. ground arith)
      (λ e. ground arith) (refl, (λ i. refl), (refl, (λ i. refl), tt)) new_flow-IsFresh

-- The name "a.de" on a bridge that is on.
sni_entry_lem_example :
    let name : List ℕ = 97 ∷ 46 ∷ 100 ∷ 101 ∷ [] in
    let fate = sni_entry all_on true true true (some name) in
    let wanted = (true && sni_bridge_enabled all_on) && true in
    (is_put fate ≡ (wanted && true))
    × (is_freed fate ≡ (wanted && false))
    × CarriesName all_on name fate
sni_entry_lem_example =
    sni_entry_lem all_on true true true (97 ∷ 46 ∷ 100 ∷ 101 ∷ [])
      ((λ e. ground arith), ((λ e. ground arith), ((λ e. ground arith), ((λ e. ground arith), tt))))

send-kafka_example :
    let cfg = (read (defaults true)).1 in
    let outputs = send cfg (compute_features cfg true true) true false true in
    let sends = cfg.has_producer && has_text (compute_features cfg true true) true in
    (tally is_send outputs ≡ (if sends then 1 else 0))
    × (tally is_query outputs ≡ (if sends && true then 1 else 0))
unfolding read read_parts read_sni read_kafka read_outputs
send-kafka_example =
    send-kafka (defaults true) (compute_features (read (defaults true)).1 true true) true false true
      refl
