-- ===== src/Sorting.antt =====
-- src/calc_basic.cpp, `sort_small_uint_array`: the insertion sort that medians are taken with.
pub mod Sorted
pub mod Again
use ti_features.Prelude.{
  ℕ, zero, suc, ◌+◌, ◌-◌, ◌*◌, ◌/◌, ◌%◌, ◌^◌, Bool, ◌&&◌, ◌||◌, List, add32, ltb, leb, ◌==◌,
  if◌then◌else◌, get_or, set, length,
}

-- The inner loop of `sort_small_uint_array`, which ends with `arr[j + 1] = key`; the last argument is
-- `j + 1`.
unfoldable pub shift : List ℕ → ℕ → ℕ → List ℕ
shift arr key zero = set arr 0 key
shift arr key (suc j) =
    let moved = shift (set arr (suc j) (get_or arr j 0)) key j in
    if ltb key (get_or arr j 0) then moved else set arr (suc j) key

-- The outer loop from index `i`, for so many rounds.
unfoldable pub sort_from : ℕ → ℕ → List ℕ → List ℕ
unfolding shift
sort_from zero i arr = arr
sort_from (suc rounds) i arr = sort_from rounds (suc i) (shift arr (get_or arr i 0) i)

-- `sort_small_uint_array`
unfoldable pub sort_small_uint_array : List ℕ → List ℕ
unfolding sort_from
sort_small_uint_array arr = sort_from (length arr - 1) 1 arr
