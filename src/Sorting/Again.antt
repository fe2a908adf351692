-- ===== src/Sorting/Again.antt =====
-- A sorted array is left as it is.
use ti_features.Prelude.{ℕ, ◌≡◌, refl, ap, ◌∙◌, false, List, [], ◌∷◌, ◌++◌, ltb, arith}
use mathlib.Core.List.{append-nil}
use ti_features.Sorting.{sort_small_uint_array, sort_from}
use ti_features.Sorting.Sorted.{
  IsSortedFrom, IsSorted, rev_onto, insert_all, sort_small_uint_array_eq, sort-IsSorted,
}

insert_all-sorted :
    (last : ℕ) (xs rs : List ℕ)
    → IsSortedFrom last xs
    → insert_all xs (last ∷ rs) ≡ rev_onto xs (last ∷ rs)
insert_all-sorted last [] rs s = refl
insert_all-sorted last (x ∷ xs) rs (h, s) =
    let e : ltb x last ≡ false = ground arith in rw e (insert_all-sorted x xs (last ∷ rs) s)

rev_onto-twice : (xs acc ys : List ℕ) → rev_onto (rev_onto xs acc) ys ≡ rev_onto acc (xs ++ ys)
rev_onto-twice [] acc ys = refl
rev_onto-twice (x ∷ xs) acc ys = rev_onto-twice xs (x ∷ acc) ys

sort_of_IsSorted : (arr : List ℕ) → IsSorted arr → sort_small_uint_array arr ≡ arr
unfolding sort_small_uint_array sort_from
sort_of_IsSorted [] s = refl
sort_of_IsSorted (x ∷ xs) (h, s) =
    sort_small_uint_array_eq x xs
    ∙ ap (λ l. rev_onto l []) (insert_all-sorted x xs [] s)
    ∙ rev_onto-twice xs (x ∷ []) []
    ∙ ap (λ l. x ∷ l) (append-nil xs)

pub sort-sort :
    (arr : List ℕ) → sort_small_uint_array (sort_small_uint_array arr) ≡ sort_small_uint_array arr
sort-sort arr = sort_of_IsSorted (sort_small_uint_array arr) (sort-IsSorted arr)
