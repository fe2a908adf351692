-- ===== src/Sequence/Runs.antt =====
-- The runs of equal lengths stand for the sequence.
use ti_features.Prelude.{
  ℕ, zero, suc, ◌+◌, ◌^◌, ◌<◌, ◌≡◌, refl, ap, ◌∙◌, List, [], ◌∷◌, length, add32, ◌==◌,
  if◌then◌else◌, Bool-cases, inl, inr, arith,
}
use ti_features.Sequence.{runs_from, length_runs}

-- So many copies of a number in front of a list.
abbrev repeat : ℕ → ℕ → List ℕ → List ℕ
repeat zero x rest = rest
repeat (suc n) x rest = x ∷ repeat n x rest

-- The sequence that values and the lengths of their runs stand for.
abbrev pub spread : List ℕ → List ℕ → List ℕ
spread [] runs = []
spread (x ∷ xs) [] = []
spread (x ∷ xs) (n ∷ runs) = repeat n x (spread xs runs)

abbrev values_from : ℕ → List ℕ → List ℕ
values_from last [] = last ∷ []
values_from last (x ∷ xs) = let rest = values_from x xs in if x == last then rest else last ∷ rest

-- A sequence without the elements that are equal to the one before.
abbrev pub values : List ℕ → List ℕ
values [] = []
values (x ∷ xs) = values_from x xs

-- Every run is there: none is of length 0.
abbrev pub ArePositive : List ℕ → Type 0
ArePositive [] = Unit {0}
ArePositive (n ∷ ns) = (0 < n) × ArePositive ns

repeat-suc : (n x : ℕ) (rest : List ℕ) → repeat (suc n) x rest ≡ repeat n x (x ∷ rest)
repeat-suc zero x rest = refl
repeat-suc (suc n) x rest = ap (λ l. x ∷ l) (repeat-suc n x rest)

repeat-add32 :
    (n x : ℕ) (rest : List ℕ) → n + 1 < 2 ^ 32 → repeat (add32 n 1) x rest ≡ repeat n x (x ∷ rest)
repeat-add32 n x rest h =
    ap (λ k. repeat k x rest) {x = add32 n 1} {y = suc n} (omega arith) ∙ repeat-suc n x rest

spread-runs_from :
    (last cur : ℕ) (xs : List ℕ)
    → cur + length xs < 2 ^ 32
    → spread (values_from last xs) (runs_from last cur xs) ≡ repeat cur last xs
unfolding runs_from
spread-runs_from last cur [] h = refl
spread-runs_from last cur (x ∷ xs) h = elim (Bool-cases (x == last)) [
  | inl e ↦
      (let same : x ≡ last = ground arith in
        rw e (
          spread-runs_from x (add32 cur 1) xs (omega arith)
          ∙ repeat-add32 cur x xs (omega arith)
          ∙ ap (λ y. repeat cur y (x ∷ xs)) same))
  | inr e ↦ rw e (ap (repeat cur last) (spread-runs_from x 1 xs (omega arith)))
]

runs_from-ArePositive :
    (last cur : ℕ) (xs : List ℕ)
    → 0 < cur
    → cur + length xs < 2 ^ 32
    → ArePositive (runs_from last cur xs)
unfolding runs_from
runs_from-ArePositive last cur [] p h = (p, tt)
runs_from-ArePositive last cur (x ∷ xs) p h = elim (Bool-cases (x == last)) [
  | inl e ↦ rw e (runs_from-ArePositive x (add32 cur 1) xs (omega arith) (omega arith))
  | inr e ↦ rw e (p, runs_from-ArePositive x 1 xs (omega arith) (omega arith))
]

length-runs_from :
    (last cur : ℕ) (xs : List ℕ) → length (runs_from last cur xs) ≡ length (values_from last xs)
unfolding runs_from
length-runs_from last cur [] = refl
length-runs_from last cur (x ∷ xs) = elim (Bool-cases (x == last)) [
  | inl e ↦ rw e (length-runs_from x (add32 cur 1) xs)
  | inr e ↦ rw e (ap suc (length-runs_from x 1 xs))
]

-- For fewer than 2 ^ 32 packets, the values of the sequence, each repeated as often as its run is
-- long, give the sequence again. There is one run for each value, and none is empty.
pub length_runs-spread :
    (seq : List ℕ)
    → length seq < 2 ^ 32
    → (spread (values seq) (length_runs seq) ≡ seq)
      × (length (length_runs seq) ≡ length (values seq))
      × ArePositive (length_runs seq)
unfolding length_runs
length_runs-spread [] h = (refl, refl, tt)
length_runs-spread (x ∷ xs) h = (
  spread-runs_from x 1 xs (omega arith),
  length-runs_from x 1 xs,
  runs_from-ArePositive x 1 xs (omega arith) (omega arith),
)
