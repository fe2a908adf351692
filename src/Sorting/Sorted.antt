-- ===== src/Sorting/Sorted.antt =====
-- The insertion sort sorts.
use mathlib.Core.Path.{subst}
use ti_features.Prelude.{
  Bool, ℕ, suc, ◌+◌, ◌-◌, ◌≤◌, ◌≡◌, refl, sym, ap, ◌∙◌, List, [], ◌∷◌, length, get_or, set, ltb,
  ◌==◌, if◌then◌else◌, Bool-cases, inl, inr, arith,
}
use ti_features.Sorting.{shift, sort_from, sort_small_uint_array}

-- How many numbers pass a test.
abbrev pub count_if : (ℕ → Bool) → List ℕ → ℕ
count_if test [] = 0
count_if test (x ∷ xs) = (if test x then 1 else 0) + count_if test xs

-- How often a number occurs.
abbrev pub occurrences : ℕ → List ℕ → ℕ
occurrences n = count_if (λ x. x == n)

-- Every number is at least a bound and at most the next.
abbrev pub IsSortedFrom : ℕ → List ℕ → Type 0
IsSortedFrom bound [] = Unit {0}
IsSortedFrom bound (x ∷ xs) = (bound ≤ x) × IsSortedFrom x xs

abbrev pub IsSorted : List ℕ → Type 0
IsSorted = IsSortedFrom 0

-- An array as its sorted part, from the last element on, and the rest.
abbrev pub rev_onto : List ℕ → List ℕ → List ℕ
rev_onto [] acc = acc
rev_onto (r ∷ rs) acc = rev_onto rs (r ∷ acc)

get_or-rev_onto :
    (rs acc : List ℕ) (k : ℕ) → get_or (rev_onto rs acc) (length rs + k) 0 ≡ get_or acc k 0
get_or-rev_onto [] acc k = ap (λ i. get_or acc i 0) {x = 0 + k} {y = k} (omega arith)
get_or-rev_onto (r ∷ rs) acc k =
    ap (λ i. get_or (rev_onto rs (r ∷ acc)) i 0) {y = length rs + suc k} (omega arith)
    ∙ get_or-rev_onto rs (r ∷ acc) (suc k)

set-rev_onto :
    (rs acc : List ℕ) (k v : ℕ)
    → set (rev_onto rs acc) (length rs + k) v ≡ rev_onto rs (set acc k v)
set-rev_onto [] acc k v = ap (λ i. set acc i v) {x = 0 + k} {y = k} (omega arith)
set-rev_onto (r ∷ rs) acc k v =
    ap (λ i. set (rev_onto rs (r ∷ acc)) i v) {y = length rs + suc k} (omega arith)
    ∙ set-rev_onto rs (r ∷ acc) (suc k) v

-- The insertion of a number into a list that descends.
abbrev pub insert : ℕ → List ℕ → List ℕ
insert key [] = key ∷ []
insert key (r ∷ rs) = if ltb key r then r ∷ insert key rs else key ∷ r ∷ rs

-- The inner loop inserts, and the element at its start is overwritten.
shift-insert :
    (key y : ℕ) (rs rest : List ℕ)
    → shift (rev_onto rs (y ∷ rest)) key (length rs) ≡ rev_onto (insert key rs) rest
unfolding shift
shift-insert key y [] rest = refl
shift-insert key y (r ∷ rs) rest =
    let arr = rev_onto rs (r ∷ y ∷ rest) in
    let there : get_or arr (length rs) 0 ≡ r =
      ap (λ i. get_or arr i 0) {y = length rs + 0} (omega arith)
      ∙ get_or-rev_onto rs (r ∷ y ∷ rest) 0 in
    let placed : (v : ℕ) → set arr (suc (length rs)) v ≡ rev_onto rs (r ∷ v ∷ rest) = λ v.
      ap (λ i. set arr i v) {y = length rs + 1} (omega arith)
      ∙ set-rev_onto rs (r ∷ y ∷ rest) 1 v in
    elim (Bool-cases (ltb key r)) [
      | inl e ↦
          rw (there, e)
            (ap (λ a. shift a key (length rs)) (placed r) ∙ shift-insert key r rs (r ∷ rest))
      | inr e ↦ rw (there, e) (placed key)
    ]

abbrev pub insert_all : List ℕ → List ℕ → List ℕ
insert_all [] rs = rs
insert_all (y ∷ rest) rs = insert_all rest (insert y rs)

length-insert : (key : ℕ) (rs : List ℕ) → length (insert key rs) ≡ suc (length rs)
length-insert key [] = refl
length-insert key (r ∷ rs) = elim (Bool-cases (ltb key r)) [
  | inl e ↦ rw e (ap suc (length-insert key rs))
  | inr e ↦ rw e refl
]

-- The outer loop inserts one element of the rest after the other.
sort_from-insert_all :
    (rs rest : List ℕ)
    → sort_from (length rest) (length rs) (rev_onto rs rest) ≡ rev_onto (insert_all rest rs) []
unfolding sort_from
sort_from-insert_all rs [] = refl
sort_from-insert_all rs (y ∷ rest) =
    let arr = rev_onto rs (y ∷ rest) in
    let key : get_or arr (length rs) 0 ≡ y =
      ap (λ i. get_or arr i 0) {y = length rs + 0} (omega arith)
      ∙ get_or-rev_onto rs (y ∷ rest) 0 in
    ap (λ k. sort_from (length rest) (suc (length rs)) (shift arr k (length rs))) key
    ∙ ap (sort_from (length rest) (suc (length rs))) (shift-insert y y rs rest)
    ∙ ap (λ n. sort_from (length rest) n (rev_onto (insert y rs) rest)) (sym (length-insert y rs))
    ∙ sort_from-insert_all (insert y rs) rest

-- Lists that descend.
abbrev HeadLe : ℕ → List ℕ → Type 0
HeadLe bound [] = Unit {0}
HeadLe bound (x ∷ xs) = x ≤ bound

abbrev Descends : List ℕ → Type 0
Descends [] = Unit {0}
Descends (x ∷ xs) = HeadLe x xs × Descends xs

insert-HeadLe :
    (key bound : ℕ) (rs : List ℕ) → key ≤ bound → HeadLe bound rs → HeadLe bound (insert key rs)
insert-HeadLe key bound [] h k = h
insert-HeadLe key bound (r ∷ rs) h k = elim (Bool-cases (ltb key r)) [
  | inl e ↦ rw e k
  | inr e ↦ rw e h
]

insert-Descends : (key : ℕ) (rs : List ℕ) → Descends rs → Descends (insert key rs)
insert-Descends key [] d = (tt, tt)
insert-Descends key (r ∷ rs) (h, d) = elim (Bool-cases (ltb key r)) [
  | inl e ↦ rw e (insert-HeadLe key r rs (ground arith) h, insert-Descends key rs d)
  | inr e ↦ rw e (ground arith, (h, d))
]

insert_all-Descends : (rest rs : List ℕ) → Descends rs → Descends (insert_all rest rs)
insert_all-Descends [] rs d = d
insert_all-Descends (y ∷ rest) rs d =
    insert_all-Descends rest (insert y rs) (insert-Descends y rs d)

weaken : (low high : ℕ) (xs : List ℕ) → low ≤ high → IsSortedFrom high xs → IsSortedFrom low xs
weaken low high [] h s = tt
weaken low high (x ∷ xs) h (k, s) = (omega arith, s)

rev_onto-IsSorted :
    (bound : ℕ) (rs acc : List ℕ)
    → HeadLe bound rs
    → Descends rs
    → IsSortedFrom bound acc
    → IsSorted (rev_onto rs acc)
rev_onto-IsSorted bound [] acc h d s = weaken 0 bound acc (omega arith) s
rev_onto-IsSorted bound (r ∷ rs) acc h (k, d) s =
    rev_onto-IsSorted r rs (r ∷ acc) k d (omega arith, weaken r bound acc h s)

Descends-IsSorted : (rs : List ℕ) → Descends rs → IsSorted (rev_onto rs [])
Descends-IsSorted [] d = tt
Descends-IsSorted (r ∷ rs) (h, d) = rev_onto-IsSorted r rs (r ∷ []) h d (omega arith, tt)

count_if-insert :
    (test : ℕ → Bool) (key : ℕ) (rs : List ℕ)
    → count_if test (insert key rs) ≡ (if test key then 1 else 0) + count_if test rs
count_if-insert test key [] = refl
count_if-insert test key (r ∷ rs) = elim (Bool-cases (ltb key r)) [
  | inl e ↦ rw e (omega (arith, count_if-insert test key rs))
  | inr e ↦ rw e refl
]

count_if-insert_all :
    (test : ℕ → Bool) (rest rs : List ℕ)
    → count_if test (insert_all rest rs) ≡ count_if test rs + count_if test rest
count_if-insert_all test [] rs = omega arith
count_if-insert_all test (y ∷ rest) rs =
    omega (arith, count_if-insert_all test rest (insert y rs), count_if-insert test y rs)

count_if-rev_onto :
    (test : ℕ → Bool) (rs acc : List ℕ)
    → count_if test (rev_onto rs acc) ≡ count_if test rs + count_if test acc
count_if-rev_onto test [] acc = omega arith
count_if-rev_onto test (r ∷ rs) acc = omega (arith, count_if-rev_onto test rs (r ∷ acc))

pub sort_small_uint_array_eq :
    (x : ℕ) (xs : List ℕ) → sort_small_uint_array (x ∷ xs) ≡ rev_onto (insert_all xs (x ∷ [])) []
unfolding sort_small_uint_array
sort_small_uint_array_eq x xs =
    ap (λ n. sort_from n 1 (x ∷ xs)) {x = length (x ∷ xs) - 1} {y = length xs} (omega arith)
    ∙ sort_from-insert_all (x ∷ []) xs

-- The sort keeps how many numbers pass a test.
pub count_if-sort :
    (test : ℕ → Bool) (arr : List ℕ) → count_if test (sort_small_uint_array arr) ≡ count_if test arr
unfolding sort_small_uint_array sort_from
count_if-sort test [] = refl
count_if-sort test (x ∷ xs) =
    ap (count_if test) (sort_small_uint_array_eq x xs)
    ∙ omega (
      arith,
      count_if-rev_onto test (insert_all xs (x ∷ [])) [],
      count_if-insert_all test xs (x ∷ []),
    )

pub sort-IsSorted : (arr : List ℕ) → IsSorted (sort_small_uint_array arr)
unfolding sort_small_uint_array sort_from
sort-IsSorted [] = tt
sort-IsSorted (x ∷ xs) =
    subst IsSorted (sym (sort_small_uint_array_eq x xs))
      (Descends-IsSorted (insert_all xs (x ∷ [])) (insert_all-Descends xs (x ∷ []) (tt, tt)))

-- `sort_small_uint_array` leaves the array sorted, with every number as often as before.
pub sort_small_uint_array_lem :
    (arr : List ℕ) (n : ℕ)
    → IsSorted (sort_small_uint_array arr)
      × (occurrences n (sort_small_uint_array arr) ≡ occurrences n arr)
sort_small_uint_array_lem arr n = (sort-IsSorted arr, count_if-sort (λ x. x == n) arr)
