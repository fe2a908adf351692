-- ===== src/Tests/Packets.antt =====
-- Examples of statistics, bursts and windows.
use ti_features.Prelude.{ℕ, zero, suc, ◌≡◌, refl, List, [], ◌∷◌, arith, get_or}
use ti_features.Double.{count_double}
use ti_features.FeatureStats.{BigramStats, running_stats_init}
use ti_features.FeatureStats.Bounds.{update_all, AllIn, update_all_lem}
use ti_features.FeatureStats.Bigram.{sum, IsCounted}
use ti_features.Burst.{Burst, calc_burst_update}
use ti_features.Burst.Records.{IsValid, calc_burst_update-IsValid, first_duration}
use ti_features.Burst.Records
use ti_features.Window.{Window}
use ti_features.Window.Bitrate.{run, IsUnrated, run_unrated}
use ti_features.Tests.{all_on, counts-IsOrdered}

update_all_lem_example :
    let s = update_all {D = ℕ} running_stats_init (3 ∷ 1 ∷ 2 ∷ []) in
    (s.count ≡ 3) × AllIn (3 ∷ 1 ∷ 2 ∷ []) s.min_val s.max_val
unfolding counts-IsOrdered
update_all_lem_example =
    update_all_lem counts-IsOrdered (3 ∷ 1 ∷ 2 ∷ []) (tt, (tt, (tt, tt))) (omega arith)

-- Two pairs of small packets have been counted.
abbrev pairs : BigramStats
pairs = record { counts = 2 ∷ 0 ∷ 0 ∷ 0 ∷ 0 ∷ 0 ∷ 0 ∷ 0 ∷ 0 ∷ []; total = 2 }

pairs-IsCounted : IsCounted pairs
unfolding sum
pairs-IsCounted = record { nine = refl; total_eq = refl }

-- A burst of two packets and 300 bytes since time 5 is open, and none is recorded.
abbrev burst : Burst
burst = record {
  burst_start_us = 5;
  burst_byte_count = 300;
  burst_pkt_count = 2;
  burst_count = 0;
  burst_sizes = 0 ∷ 0 ∷ [];
  burst_durations = 0 ∷ 0 ∷ [];
  burst_intervals = 0 ∷ 0 ∷ [];
  burst_packet_counts = 0 ∷ 0 ∷ [];
}

burst-IsValid : IsValid 2 burst
burst-IsValid = record {
  sizes_room = refl;
  durations_room = refl;
  intervals_room = refl;
  counts_room = refl;
  within = omega arith;
  small = omega arith;
}

abbrev no_burst : Burst
no_burst = record burst { burst_start_us = 0; burst_byte_count = 0; burst_pkt_count = 0 }

no_burst-IsValid : IsValid 2 no_burst
no_burst-IsValid = record {
  sizes_room = refl;
  durations_room = refl;
  intervals_room = refl;
  counts_room = refl;
  within = omega arith;
  small = omega arith;
}

abbrev close_packets : List (ℕ × ℕ × ℕ)
close_packets = (100, 0, 70000) ∷ (100, 10, 70010) ∷ []

first_duration_example :
    let new =
      calc_burst_update all_on 2 (Records.run all_on 2 no_burst close_packets) 100 9000 79010 in
    (new.burst_count ≡ 1) × (get_or new.burst_durations 0 0 ≡ 79010)
first_duration_example =
    first_duration all_on 2 no_burst close_packets 100 9000 79010 no_burst-IsValid (omega arith)
      refl refl refl (omega arith, omega arith, (omega arith, omega arith, tt)) (omega arith)
      (omega arith) (omega arith)

-- Two windows of a second, none entered.
abbrev pub windows : Window
windows = record {
  window_pkt_counts = 0 ∷ 0 ∷ [];
  window_byte_counts = 0 ∷ 0 ∷ [];
  window_bitrate = 0 ∷ 0 ∷ [];
  window_size_ms = 1000;
  num_windows = 2;
  current_window = 0;
  window_start_us = 0;
}

two_zeros : (w : ℕ) → get_or windows.window_bitrate w 0 ≡ 0
two_zeros zero = refl
two_zeros (suc zero) = refl
two_zeros (suc (suc w)) = refl

pub windows-IsUnrated : IsUnrated windows
windows-IsUnrated = record {
  windows_lt = omega arith;
  within = omega arith;
  unopened = λ e. refl;
  later = λ w le. two_zeros w;
  rates = two_zeros;
}

run_unrated_example :
    get_or (run windows ((1500, 100) ∷ (1500, 1200000) ∷ [])).window_bitrate 0 0 ≡ 0
run_unrated_example =
    run_unrated windows ((1500, 100) ∷ (1500, 1200000) ∷ []) 0 windows-IsUnrated
      (omega arith, (omega arith, tt))
