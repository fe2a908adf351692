-- ===== src/Tests/Times.antt =====
-- Examples of times, delays, counters and lengths.
use ti_features.Prelude.{ℕ, ◌+◌, ◌%◌, ◌^◌, ◌≡◌, refl, true, List, [], ◌∷◌, arith, sub64}
use ti_features.Double.{count_double}
use ti_features.FeatureStats.{fwd, bwd, Direction}
use ti_features.Iat.{Iat, calc_iat_update}
use ti_features.Iat.Times.{run-active_idle}
use ti_features.Iat.Times
use ti_features.Iat.Delays.{SameDirections, first_directional_iat}
use ti_features.BoundedArray.{contents}
use ti_features.Basic.{Counters, Lengths}
use ti_features.Basic.Sums.{Packet, run-counts, run-payload_sizes}
use ti_features.Basic.Sums
use ti_features.FeatureStats.Bounds.{update_all}
use ti_features.Basic.Stored.{store, store-directional}
use ti_features.Tests.{
  all_on, no_stats, no_directional, no_ring, room_for_two, room_for_two-IsValid,
}

-- A flow without packets.
abbrev pub no_packets : Iat ℕ
no_packets = record {
  last_arrival_us = 0;
  last_fwd_us = 0;
  last_bwd_us = 0;
  iat_stats = no_stats;
  fwd_iat = no_directional;
  bwd_iat = no_directional;
  fwd_iats = room_for_two;
  bwd_iats = room_for_two;
  iat_seq = no_ring;
  active_time_us = 0;
  idle_time_us = 0;
  last_req_ts = 0;
  resp_delays = room_for_two;
}

abbrev one_packet : Iat ℕ
one_packet = record no_packets { last_arrival_us = 100 }

abbrev times : List (ℕ × Direction)
times = (150, fwd) ∷ (9150, bwd) ∷ []

run-active_idle_example :
    let new = Times.run all_on one_packet times in
    (new.active_time_us + new.idle_time_us) % 2 ^ 64 ≡ (0 + 0 + sub64 9150 100) % 2 ^ 64
run-active_idle_example =
    run-active_idle all_on one_packet times (omega arith) (omega arith) (omega arith)
      (omega arith, omega arith, (omega arith, omega arith, tt))

first_directional_iat_example :
    let first = calc_iat_update all_on no_packets 100 fwd in
    ((first.last_fwd_us ≡ 0) × (first.last_bwd_us ≡ 0))
    × SameDirections no_packets (calc_iat_update all_on first 150 fwd)
first_directional_iat_example =
    first_directional_iat all_on no_packets 100 150 fwd fwd refl refl refl

abbrev no_counts : Counters ℕ
no_counts = record {
  total_packets = 0;
  fwd_packets = 0;
  bwd_packets = 0;
  total_bytes = 0;
  fwd_bytes = 0;
  bwd_bytes = 0;
  fwd_payload_bytes = 0;
  bwd_payload_bytes = 0;
  l2_packets = 0;
  fwd_payload_stats = no_stats;
  bwd_payload_stats = no_stats;
  fwd_payload_sizes = room_for_two;
  bwd_payload_sizes = room_for_two;
}

abbrev packets : List Packet
packets =
    record { direction = fwd; pkt_len = 60; payload_len = 0 }
    ∷ record { direction = fwd; pkt_len = 100; payload_len = 40 }
    ∷ record { direction = bwd; pkt_len = 1500; payload_len = 1440 }
    ∷ []

run-counts_example :
    let new = Sums.run all_on no_counts packets in
    (new.total_packets % 2 ^ 64 ≡ 3)
    × (new.total_bytes % 2 ^ 64 ≡ 1660)
    × (new.fwd_packets % 2 ^ 64 ≡ 2)
    × (new.bwd_packets % 2 ^ 64 ≡ 1)
    × (new.fwd_bytes % 2 ^ 64 ≡ 160)
    × (new.bwd_bytes % 2 ^ 64 ≡ 1500)
run-counts_example = run-counts all_on no_counts packets

run-payload_sizes_example :
    let new = Sums.run all_on no_counts packets in
    (contents new.fwd_payload_sizes ≡ 40 ∷ []) × (contents new.bwd_payload_sizes ≡ 1440 ∷ [])
run-payload_sizes_example =
    run-payload_sizes all_on no_counts packets (omega arith) room_for_two-IsValid
      room_for_two-IsValid

abbrev pub no_lengths : Lengths ℕ
no_lengths = record {
  small_pkt_count = 0;
  large_pkt_count = 0;
  pkt_len_stats = no_stats;
  fwd_pkt_len = no_directional;
  bwd_pkt_len = no_directional;
  pkt_len_seq = no_ring;
  first_n_is_set = true;
  first_n_lens = room_for_two;
  fwd_pkt_lens = room_for_two;
  bwd_pkt_lens = room_for_two;
}

abbrev sizes : List (Direction × ℕ)
sizes = (fwd, 60) ∷ (bwd, 1500) ∷ (bwd, 1400) ∷ []

store-directional_example :
    let new = store all_on no_lengths sizes in
    ((new.fwd_pkt_len.fwd_stats ≡ update_all no_stats (60 ∷ []))
      × (new.fwd_pkt_len.bwd_stats ≡ update_all no_stats (1500 ∷ 1400 ∷ [])))
    × ((new.bwd_pkt_len.fwd_stats ≡ update_all no_stats (60 ∷ []))
        × (new.bwd_pkt_len.bwd_stats ≡ update_all no_stats (1500 ∷ 1400 ∷ [])))
store-directional_example = store-directional all_on no_lengths sizes (λ e. ground arith)
