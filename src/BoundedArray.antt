-- ===== src/BoundedArray.antt =====
-- An array of the pool with the count of the elements stored in it and its capacity, as
-- `fwd_iats`, `fwd_iat_count` and `fwd_iat_capacity` of src/feat_state.h. The code appends to each
-- of them by `if (count < capacity) array[count++] = x`.
use ti_features.Prelude.{
  ℕ, zero, suc, ◌^◌, ◌≤◌, ◌<◌, ◌≡◌, refl, ap, sym, ◌∙◌, List, [], ◌∷◌, ◌++◌, length, length-set,
  length-append, length-take, set, take, arith, add32, ltb, if◌then◌else◌, Bool-cases, inl, inr,
}
use mathlib.Core.List.{append_assoc, append-nil}

pub record BoundedArray (A : Type 0) : Type 0 where
  pub cells : List A
  pub count : ℕ
  pub capacity : ℕ

unfoldable pub append : {A : Type 0} → BoundedArray A → A → BoundedArray A
append b x =
    if ltb b.count b.capacity
    then record b { cells = set b.cells b.count x; count = add32 b.count 1 }
    else b

pub record IsValid {A : Type 0} (b : BoundedArray A) : Type 0 where
  pub room : length b.cells ≡ b.capacity
  pub within : b.count ≤ b.capacity
  pub small : b.capacity < 2 ^ 32

module _ {A : Type 0} where
  -- What has been stored.
  abbrev pub contents : BoundedArray A → List A
  contents b = take b.count b.cells

  pub append-IsValid :
      (b : BoundedArray A) (x : A)
      → IsValid b
      → IsValid (append b x) × ((append b x).capacity ≡ b.capacity)
  unfolding append
  append-IsValid b x v = ground (arith, length-set b.cells b.count x)

  take-set :
      (xs : List A) (n : ℕ) (x : A)
      → n < length xs
      → take (suc n) (set xs n x) ≡ take n xs ++ (x ∷ [])
  take-set [] n x h = absurd (omega arith)
  take-set (y ∷ xs) zero x h = refl
  take-set (y ∷ xs) (suc n) x h = ap (◌∷◌ y) (take-set xs n x (omega arith))

  pub take_all : (xs : List A) (n : ℕ) → length xs ≤ n → take n xs ≡ xs
  take_all [] zero h = refl
  take_all [] (suc n) h = refl
  take_all (x ∷ xs) zero h = absurd (omega arith)
  take_all (x ∷ xs) (suc n) h = ap (◌∷◌ x) (take_all xs n (omega arith))

  take-append_full : (xs ys : List A) (n : ℕ) → n ≤ length xs → take n (xs ++ ys) ≡ take n xs
  take-append_full xs ys zero h = refl
  take-append_full [] ys (suc n) h = absurd (omega arith)
  take-append_full (x ∷ xs) ys (suc n) h = ap (◌∷◌ x) (take-append_full xs ys n (omega arith))

  -- An element is appended as long as there is room.
  pub contents-append :
      (b : BoundedArray A) (x : A)
      → IsValid b
      → contents (append b x) ≡ take b.capacity (contents b ++ (x ∷ []))
  unfolding append
  contents-append b x v =
      let long = length-take b.count b.cells in
      let longer = length-append (contents b) (x ∷ []) in
      elim (Bool-cases (ltb b.count b.capacity)) [
        | inl e ↦ rw e (
            ap (λ n. take n (set b.cells b.count x)) {y = suc b.count} (ground arith)
            ∙ take-set b.cells b.count x (ground arith)
            ∙ sym (take_all (contents b ++ (x ∷ [])) b.capacity (ground arith)))
        | inr e ↦ rw e (
            sym (take_all (contents b) b.capacity (ground arith))
            ∙ sym (take-append_full (contents b) (x ∷ []) b.capacity (ground arith)))
      ]

  -- The appends for a run of elements.
  unfoldable pub append_all : BoundedArray A → List A → BoundedArray A
  append_all b [] = b
  append_all b (x ∷ xs) = append_all (append b x) xs

  take-take_append : (n : ℕ) (xs ys : List A) → take n (take n xs ++ ys) ≡ take n (xs ++ ys)
  take-take_append zero xs ys = refl
  take-take_append (suc n) [] ys = refl
  take-take_append (suc n) (x ∷ xs) ys = ap (◌∷◌ x) (take-take_append n xs ys)

  -- The array holds the first elements of the run, as many as there is room for.
  pub contents-append_all :
      (b : BoundedArray A) (xs : List A)
      → IsValid b
      → (contents (append_all b xs) ≡ take b.capacity (contents b ++ xs))
        × IsValid (append_all b xs)
        × ((append_all b xs).capacity ≡ b.capacity)
  unfolding append_all
  contents-append_all b [] v =
      let long = length-take b.count b.cells in
      (
        rw (append-nil (contents b)) (sym (take_all (contents b) b.capacity (ground arith))),
        v,
        refl,
      )
  contents-append_all b (x ∷ xs) v =
      let (next, cap) = append-IsValid b x v in
      let (held, valid, caps) = contents-append_all (append b x) xs next in
      (
        held
            ∙ ap (λ n. take n (contents (append b x) ++ xs)) cap
            ∙ ap (λ l. take b.capacity (l ++ xs)) (contents-append b x v)
            ∙ take-take_append b.capacity (contents b ++ (x ∷ [])) xs
            ∙ ap (take b.capacity) (append_assoc (contents b) (x ∷ []) xs),
        valid,
        caps ∙ cap,
      )
