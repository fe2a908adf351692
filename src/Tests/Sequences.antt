-- ===== src/Tests/Sequences.antt =====
-- Runs on the sequences of small flows.
use ti_features.Prelude.{ℕ, ◌+◌, ◌≡◌, refl, List, [], ◌∷◌, length, map, arith}
use ti_features.FeatureStats.{Direction, unknown, fwd, bwd}
use ti_features.Sorting.{sort_small_uint_array}
use ti_features.Sorting.Sorted.{occurrences, IsSorted, sort_small_uint_array_lem}
use ti_features.Sequence.{Sample, Row, length_runs, dl_chunk_seq}
use ti_features.Sequence.Complexity.{same_text, calc_lz78_complexity}
use ti_features.Sequence.Complexity.Phrases.{IsParsed, IsPrinting, calc_lz78_complexity-IsParsed}
use ti_features.Double.{count_double}
use ti_features.Sequence.Runs.{spread, values, ArePositive, length_runs-spread}
use ti_features.Sequence.Printed.{
  serialize_array, split_text, HasNoComma, split_text-serialize_array,
}

abbrev sizes : List ℕ
sizes = 60 ∷ 1500 ∷ 1500 ∷ 60 ∷ 60 ∷ 60 ∷ []

sizes_sorted : sort_small_uint_array sizes ≡ 60 ∷ 60 ∷ 60 ∷ 60 ∷ 1500 ∷ 1500 ∷ []
unfolding sort_small_uint_array
sizes_sorted = refl

sort_small_uint_array_example :
    IsSorted (sort_small_uint_array sizes)
    × (occurrences 60 (sort_small_uint_array sizes) ≡ occurrences 60 sizes)
sort_small_uint_array_example = sort_small_uint_array_lem sizes 60

sizes_runs : length_runs sizes ≡ 1 ∷ 2 ∷ 3 ∷ []
unfolding length_runs
sizes_runs = refl

length_runs-spread_example :
    (spread (values sizes) (length_runs sizes) ≡ sizes)
    × (length (length_runs sizes) ≡ length (values sizes))
    × ArePositive (length_runs sizes)
length_runs-spread_example = length_runs-spread sizes (omega arith)

abbrev sample : ℕ → ℕ → Direction → Sample
sample ts len dir = record { ts = ts; len = len; dir = dir }

abbrev packets : List Sample
packets = sample 5 60 fwd ∷ sample 9 40 fwd ∷ sample 12 900 bwd ∷ sample 200012 100 bwd ∷ []

packets_chunks : dl_chunk_seq packets ≡ 100 ∷ 900 ∷ 100 ∷ []
unfolding dl_chunk_seq
packets_chunks = refl

abbrev no_row : Row
no_row = record { l2 = 0; l3 = 0; l4 = 0; payload = 0; iat = 0 }

-- Directions as the stream prints them: 1, 0 and -1.
abbrev print_direction : Direction → List ℕ
print_direction unknown = 48 ∷ []
print_direction fwd = 49 ∷ []
print_direction bwd = 45 ∷ 49 ∷ []

print_direction-HasNoComma : (d : Direction) → HasNoComma (print_direction d)
print_direction-HasNoComma unknown = (refl, tt)
print_direction-HasNoComma fwd = (refl, tt)
print_direction-HasNoComma bwd = (refl, (refl, tt))

split_text-serialize_array_example :
    split_text (serialize_array print_direction (fwd ∷ bwd ∷ fwd ∷ []))
    ≡ map print_direction (fwd ∷ bwd ∷ fwd ∷ [])
split_text-serialize_array_example =
    split_text-serialize_array print_direction fwd (bwd ∷ fwd ∷ []) print_direction-HasNoComma

-- One code for each number.
abbrev print_code : ℕ → List ℕ
print_code x = (200 + x) ∷ []

print_code-IsPrinting : IsPrinting print_code
unfolding same_text
print_code-IsPrinting = record { no_bar = λ x. (ground arith, tt); distinct = λ x y. ground arith }

-- The phrases are 60, 60 40, and 40.
three_phrases : calc_lz78_complexity {D = ℕ} print_code (60 ∷ 60 ∷ 40 ∷ 40 ∷ 60 ∷ []) ≡ 3
unfolding calc_lz78_complexity
three_phrases = refl

calc_lz78_complexity-IsParsed_example :
    (phrases : List (List ℕ)) × (rest : List ℕ) × IsParsed phrases rest
      (60 ∷ 60 ∷ 40 ∷ 40 ∷ 60 ∷ [])
    × (calc_lz78_complexity {D = ℕ} print_code (60 ∷ 60 ∷ 40 ∷ 40 ∷ 60 ∷ []) ≡ length phrases)
calc_lz78_complexity-IsParsed_example =
    calc_lz78_complexity-IsParsed print_code (60 ∷ 60 ∷ 40 ∷ 40 ∷ 60 ∷ []) print_code-IsPrinting
      (omega arith)
