-- ===== src/Tests/Derived.antt =====
-- The features at the end of small flows, and a producer's life.
use ti_features.Prelude.{
  ℕ, ◌≤◌, ◌≡◌, refl, true, false, none, some, List, [], ◌∷◌, ◌++◌, length, map, take, inr, arith,
}
use ti_features.Double.{count_double}
use ti_features.CircularBuffer.{CircularBuffer}
use ti_features.CircularBuffer.Valid.{IsValid}
use ti_features.CircularBuffer.Refine.{contents}
use ti_features.MemoryPool.{Pool, zeroed_ℕ}
use ti_features.Rings.{bind_temp_buffers}
use ti_features.Output.{label}
use ti_features.Sorting.{sort_small_uint_array}
use ti_features.Sorting.Again.{sort-sort}
use ti_features.StatsUtils.{calc_median_uint}
use ti_features.StatsUtils.Medians.{Splits, length-sort, calc_median_uint-sort}
use ti_features.Iat.Region.{Region}
use ti_features.Iat.Features.{sequence_values}
use ti_features.Iat.Derived.{head_values, ring_fields, head_keys, sequence_keys, log_keys}
use ti_features.Iat.Derived.Buffers.{SortsOnce, ring_fields_lem}
use ti_features.Window.Bitrate.{run}
use ti_features.Window.Derived.{busy}
use ti_features.Window.Derived.Room.{run-bytes_fit}
use ti_features.Kafka.Life.{
  Request, send, create, poll_request, life, tally, creates, destroys, names, opens, closes,
}
use ti_features.Kafka.Balanced.{life-balanced}
use ti_features.Tests.{no_pool}
use ti_features.Tests.Packets.{windows}

abbrev sizes : List ℕ
sizes = 60 ∷ 1500 ∷ 40 ∷ 900 ∷ []

sizes_median : calc_median_uint (sort_small_uint_array sizes) ≡ 480
unfolding calc_median_uint sort_small_uint_array
sizes_median = refl

calc_median_uint-sort_example : Splits (calc_median_uint (sort_small_uint_array sizes)) sizes
calc_median_uint-sort_example = calc_median_uint-sort sizes (omega arith) (omega arith)

-- The insertion sort stands in for qsort.
sort-SortsOnce : SortsOnce sort_small_uint_array
sort-SortsOnce = record { length-qsort = length-sort; qsort-qsort = sort-sort }

abbrev pub iats : CircularBuffer ℕ
iats = record {
  cells = some (700 ∷ 30 ∷ []);
  elem_size = 8;
  capacity = 2;
  count = 2;
  head = 0;
  tail = 0;
  is_full = true;
}

pub iats-IsValid : IsValid iats (700 ∷ 30 ∷ [])
iats-IsValid = record {
  held = refl;
  long = refl;
  sized = omega arith;
  nonempty = omega arith;
  small = omega arith;
  full_iff = refl;
  count_le = omega arith;
  head_eq = refl;
  tail_lt = omega arith;
  tail_zero = λ e. refl;
}

abbrev temp_pool : Pool ℕ
temp_pool = record no_pool { temp_mem = 640; temp_mem_size = 8192 }

abbrev blank : Region ℕ
blank i = 0

ring_fields_lem_example :
    let arr = contents (700 ∷ 30 ∷ []) iats in
    let sorted = sort_small_uint_array (map (λ n. n) arr) in
    ring_fields sort_small_uint_array (bind_temp_buffers temp_pool 40).0 iats blank
    ≡ label head_keys (head_values (map (λ n. n) arr) sorted)
      ++ (label sequence_keys (sequence_values (map (λ n. n) arr) sorted (map (λ n. n) arr))
          ++ label log_keys (sequence_values sorted sorted sorted))
ring_fields_lem_example =
    ring_fields_lem sort_small_uint_array sort-SortsOnce temp_pool 40 iats (700 ∷ 30 ∷ []) blank
      iats-IsValid (omega arith) (omega arith) (omega arith)

abbrev packets : List (ℕ × ℕ)
packets = (1500, 100) ∷ (1500, 1200000) ∷ []

run-bytes_fit_example :
    let w = run windows packets in
    length (busy (take w.num_windows w.window_byte_counts))
    ≤ length (busy (take w.num_windows w.window_pkt_counts))
run-bytes_fit_example = run-bytes_fit windows packets ((inr refl, (inr refl, tt)), omega arith)

abbrev requests : List Request
requests =
    create "flows" (some 7)
    ∷ send "flows" true 80 none true
    ∷ send "alerts" true 80 (some 8) false
    ∷ poll_request
    ∷ []

life-balanced_example :
    let calls = life true true true requests in
    (tally (creates 8) calls ≡ tally (destroys 8) calls)
    × (tally (names "alerts") calls ≤ 1)
    × (tally opens calls ≡ tally closes calls)
life-balanced_example = life-balanced true true true requests 8 "alerts"

life_run : tally (creates 8) (life true true true requests) ≡ 1
unfolding life
life_run = refl
