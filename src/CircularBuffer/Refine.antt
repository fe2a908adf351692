-- ===== src/CircularBuffer/Refine.antt =====
-- A ring of capacity n behaves as the list of the last n elements pushed.
use native.Mathlib.Nat.{mod-eq_of_lt, mod-eq-sub-mod}
use mathlib.Core.Path.{ap₂, subst}
use ti_features.Prelude.{
  ℕ, suc, ◌+◌, ◌-◌, ◌%◌, ◌^◌, ◌≤◌, ◌<◌, ◌≡◌, sym, ap, ◌∙◌, true, false, List, [], ◌∷◌, ◌++◌, ◌≢◌,
  arith, length, length-append, length-tabulate, drop, keep_last, tabulate, tabulate-snoc,
  tabulate_ext, get_or, get_or-set_self, get_or-set_ne, set, add32, ltb, if◌then◌else◌, Bool-cases,
  inl, inr, some, ◌==◌,
}
use ti_features.CircularBuffer.{Zeroed, CircularBuffer, push_into, actual_index}
use ti_features.CircularBuffer.Valid.{IsValid}

-- `(t + k) % capacity`, for an offset of at most one round.
slot_eq :
    (t k capacity : ℕ)
    → t < capacity
    → k ≤ capacity
    → capacity ≤ 2 ^ 31
    → add32 t k % capacity ≡ (if ltb (t + k) capacity then t + k else t + k - capacity)
slot_eq t k capacity h i s = elim (Bool-cases (ltb (t + k) capacity)) [
  | inl e ↦ rw e (ap (λ n. n % capacity) (omega arith) ∙ mod-eq_of_lt (ground arith))
  | inr e ↦ rw e (
      let p : capacity ≤ t + k = ground arith in
      ap (λ n. n % capacity) (omega arith)
      ∙ mod-eq-sub-mod {n = t + k} {m = capacity} p
      ∙ mod-eq_of_lt {n = t + k - capacity} {m = capacity} (omega arith))
]

module _ {A : Type 0} ⦃z : Zeroed A⦄ where
  abbrev pub read : List A → CircularBuffer A → ℕ → A
  read xs cb i = get_or xs (actual_index cb i) z.zeroed

  -- What a ring holds, oldest first.
  abbrev pub contents : List A → CircularBuffer A → List A
  contents xs cb = tabulate (read xs cb) cb.count 0

  abbrev pub around : List A → ℕ → ℕ → ℕ → A
  around xs t capacity i = get_or xs (add32 t i % capacity) z.zeroed

  -- The write of a full ring replaces the oldest element by the newest.
  around-set :
      (xs : List A) (t n : ℕ) (x : A)
      → length xs ≡ suc n
      → t < suc n
      → suc n ≤ 2 ^ 31
      → tabulate (around (set xs t x) (add32 t 1 % suc n) (suc n)) (suc n) 0
        ≡ tabulate (around xs t (suc n)) n 1 ++ (x ∷ [])
  around-set xs t n x l h s =
      tabulate-snoc (around (set xs t x) (add32 t 1 % suc n) (suc n)) n 0
      ∙ ap₂ (λ a b. a ++ (b ∷ []))
          (tabulate_ext (around (set xs t x) (add32 t 1 % suc n) (suc n)) (around xs t (suc n)) n 0
            1
            (λ k lt.
              ap (λ i. get_or (set xs t x) i z.zeroed) (here k lt)
              ∙ get_or-set_ne xs t (add32 t (1 + k) % suc n) x z.zeroed (apart k lt)))
          (ap (λ i. get_or (set xs t x) i z.zeroed) last
            ∙ get_or-set_self xs t x z.zeroed (omega arith))
    where
      start : add32 t 1 % suc n ≡ (if ltb (t + 1) (suc n) then t + 1 else t + 1 - suc n)
      start = slot_eq t 1 (suc n) h (omega arith) s

      start_lt : add32 t 1 % suc n < suc n
      start_lt = omega arith

      here : (k : ℕ) → k < n → add32 (add32 t 1 % suc n) (0 + k) % suc n ≡ add32 t (1 + k) % suc n
      here k lt = ground (
        arith,
        start,
        slot_eq (add32 t 1 % suc n) (0 + k) (suc n) start_lt,
        slot_eq t (1 + k) (suc n) h,
      )

      apart : (k : ℕ) → k < n → t ≢ add32 t (1 + k) % suc n
      apart k lt e = ground (arith, slot_eq t (1 + k) (suc n) h)

      last : add32 (add32 t 1 % suc n) (0 + n) % suc n ≡ t
      last = ground (arith, start, slot_eq (add32 t 1 % suc n) (0 + n) (suc n) start_lt)

  abbrev full_ring : List A → ℕ → ℕ → ℕ → CircularBuffer A
  full_ring xs size n t = record {
    cells = some xs;
    elem_size = size;
    capacity = suc n;
    count = suc n;
    head = t;
    tail = t;
    is_full = true;
  }

  abbrev open_ring : List A → ℕ → ℕ → ℕ → CircularBuffer A
  open_ring xs size capacity c = record {
    cells = some xs;
    elem_size = size;
    capacity = capacity;
    count = c;
    head = c;
    tail = 0;
    is_full = false;
  }

  abbrev PushKeeps : List A → A → CircularBuffer A → Type 0
  PushKeeps xs x cb =
      contents (set xs cb.head x) (push_into cb xs x)
      ≡ keep_last cb.capacity (contents xs cb ++ (x ∷ []))

  full-PushKeeps :
      (xs : List A) (size n t : ℕ) (x : A)
      → length xs ≡ suc n
      → t < suc n
      → suc n ≤ 2 ^ 31
      → PushKeeps xs x (full_ring xs size n t)
  unfolding push_into
  full-PushKeeps xs size n t x l h s =
      let old = tabulate (around xs t (suc n)) (suc n) 0 in
      let one : length (old ++ (x ∷ [])) - suc n ≡ 1 =
        omega
          (arith, length-append old (x ∷ []), length-tabulate (around xs t (suc n)) (suc n) 0) in
      around-set xs t n x l h s ∙ ap (λ d. drop d (old ++ (x ∷ []))) (sym one)

  open-PushKeeps :
      (xs : List A) (size capacity c : ℕ) (x : A)
      → length xs ≡ capacity
      → c < capacity
      → capacity ≤ 2 ^ 31
      → PushKeeps xs x (open_ring xs size capacity c)
  unfolding push_into
  open-PushKeeps xs size capacity c x l h s =
      let old = tabulate (λ i. get_or xs i z.zeroed) c 0 in
      let none_dropped : length (old ++ (x ∷ [])) - capacity ≡ 0 =
        omega
          (arith, length-append old (x ∷ []), length-tabulate (λ i. get_or xs i z.zeroed) c 0) in
      ap (λ n. tabulate new_read n 0) {y = suc c} (omega arith)
      ∙ tabulate-snoc new_read c 0
      ∙ ap₂ (λ a b. a ++ (b ∷ []))
          (tabulate_ext new_read (λ i. get_or xs i z.zeroed) c 0 0
            (λ k lt.
              ap (λ i. get_or (set xs c x) i z.zeroed) (place k (omega arith))
              ∙ get_or-set_ne xs c k x z.zeroed (omega arith)
              ∙ ap (λ i. get_or xs i z.zeroed) (omega arith)))
          (ap (λ i. get_or (set xs c x) i z.zeroed) (place c (omega arith))
            ∙ get_or-set_self xs c x z.zeroed (omega arith))
      ∙ ap (λ d. drop d (old ++ (x ∷ []))) (sym none_dropped)
    where
      new_read : ℕ → A
      new_read i =
          get_or (set xs c x) (if add32 c 1 == capacity then add32 0 i % capacity else i) z.zeroed

      place :
          (k : ℕ)
          → k ≤ c
          → (if add32 c 1 == capacity then add32 0 (0 + k) % capacity else 0 + k) ≡ k
      place k lt = ground (arith, slot_eq 0 (0 + k) capacity)

  full_shape :
      (cb : CircularBuffer A) (xs : List A)
      → IsValid cb xs
      → cb.is_full ≡ true
      → full_ring xs cb.elem_size (cb.capacity - 1) cb.tail ≡ cb
  full_shape cb xs v e = ground arith

  open_shape :
      (cb : CircularBuffer A) (xs : List A)
      → IsValid cb xs
      → cb.is_full ≡ false
      → open_ring xs cb.elem_size cb.capacity cb.count ≡ cb
  open_shape cb xs v e = ground arith

  -- `circular_buffer_push` appends the element and forgets what exceeds the capacity.
  pub contents-push :
      (cb : CircularBuffer A) (xs : List A) (x : A)
      → IsValid cb xs
      → contents (set xs cb.head x) (push_into cb xs x)
        ≡ keep_last cb.capacity (contents xs cb ++ (x ∷ []))
  contents-push cb xs x v = elim (Bool-cases cb.is_full) [
    | inl e ↦ subst (PushKeeps xs x) (full_shape cb xs v e) (
        full-PushKeeps xs cb.elem_size (cb.capacity - 1) cb.tail x (ground arith) (ground arith)
          (ground arith))
    | inr e ↦ subst (PushKeeps xs x) (open_shape cb xs v e) (
        open-PushKeeps xs cb.elem_size cb.capacity cb.count x (ground arith) (ground arith)
          (ground arith))
  ]
