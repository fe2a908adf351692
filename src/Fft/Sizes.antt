-- ===== src/Fft/Sizes.antt =====
-- The size of a transform is the smallest power of two that holds its input.
use ti_features.Prelude.{
  ℕ, zero, suc, ◌+◌, ◌*◌, ◌^◌, ◌≤◌, ◌<◌, ◌≡◌, refl, sym, ap, true, false, Option, none, some, ltb,
  leb, Bool-cases, inl, inr, arith,
}
use mathlib.Core.Path.{subst}
use ti_features.Fft.{round_up, fft_size_of}

-- A number doubled so many times.
abbrev pub doubled : ℕ → ℕ → ℕ
doubled zero s = s
doubled (suc k) s = doubled k (s * 2)

pub doubled-twice : (k s : ℕ) → doubled k (s * 2) ≡ doubled k s * 2
doubled-twice zero s = refl
doubled-twice (suc k) s = doubled-twice k (s * 2)

pub le-doubled : (k s : ℕ) → s ≤ doubled k s
le-doubled zero s = omega arith
le-doubled (suc k) s = let rest = le-doubled k (s * 2) in omega arith

-- Too large an input: the size passes the largest power that an int holds.
round_up-none : (fuel gap n s : ℕ) → doubled gap s ≡ 2 ^ 30 → 2 ^ 30 < n → round_up fuel n s ≡ none
unfolding round_up
round_up-none zero gap n s e h = refl
round_up-none (suc fuel) zero n s e h = ground arith
round_up-none (suc fuel) (suc gap) n s e h =
    let low = le-doubled (suc gap) s in
    let more : ltb s n ≡ true = ground arith in
    let rest = round_up-none fuel gap n (s * 2) e h in rw more (ground arith)

-- Otherwise the size is found before the fuel is gone.
round_up_lem :
    (fuel j n : ℕ)
    → fuel + j ≡ 32
    → n ≤ 2 ^ 30
    → doubled j 1 < n * 2
    → (k : ℕ) × (round_up fuel n (doubled j 1) ≡ some (doubled k 1))
      × (n ≤ doubled k 1)
      × (doubled k 1 < n * 2)
unfolding round_up
round_up_lem zero j n e small low =
    let all : doubled j 1 ≡ doubled 32 1 = ap (λ i. doubled i 1) {x = j} {y = 32} (omega arith) in
    absurd (omega arith)
round_up_lem (suc fuel) j n e small low = elim (Bool-cases (ltb (doubled j 1) n)) [
  | inl more ↦
      (let next = doubled-twice j 1 in
        let fits : ltb 1073741823 (doubled j 1) ≡ false = ground arith in
        let (k, found, above, below) =
          round_up_lem fuel (suc j) n (omega arith) small (ground arith) in
        rw (more, fits)
          (k, subst (λ s. round_up fuel n s ≡ some (doubled k 1)) next found, above, below))
  | inr done ↦ rw done (j, refl, ground arith, low)
]

-- What the size of a transform of `n` numbers should be: a power of two that is not below `n` and
-- below its double, or none for more than 2 ^ 30 numbers.
abbrev pub IsSizeFor : ℕ → Option ℕ → Type 0
IsSizeFor n none = 2 ^ 30 < n
IsSizeFor n (some size) =
    (n ≤ 2 ^ 30) × ((k : ℕ) × (size ≡ doubled k 1)) × (n ≤ size) × (size < n * 2)

-- An input that is not empty gets the smallest power of two that holds it, or is refused where it
-- has more than 2 ^ 30 numbers; the loop ends in either case within 32 rounds.
pub fft_size_of_lem : (n : ℕ) → 0 < n → IsSizeFor n (fft_size_of n)
unfolding fft_size_of
fft_size_of_lem n pos = elim (Bool-cases (leb n (2 ^ 30))) [
  | inl e ↦
      (let small : n ≤ 2 ^ 30 = ground arith in
        let (k, found, above, below) = round_up_lem 32 0 n refl small (omega arith) in
        subst (IsSizeFor n) (sym found) (small, (k, refl), above, below))
  | inr e ↦
      (let large : 2 ^ 30 < n = ground arith in
        subst (IsSizeFor n) (sym (round_up-none 32 30 n 1 refl large)) large)
]
