-- ===== src/Rings/Moves.antt =====
-- A ring that moves to a larger block keeps what it holds, and the temporary buffers lie apart.
use native.Mathlib.Nat.{mod-eq_of_lt, mod_self}
use ti_features.Prelude.{
  ℕ, suc, ◌+◌, ◌-◌, ◌*◌, ◌%◌, ◌^◌, ◌≤◌, ◌<◌, ◌≡◌, refl, ap, ◌∙◌, Bool, true, false, ◌&&◌, Option,
  none, some, List, [], ◌∷◌, ◌++◌, length, length-append, length-replicate, get_or, replicate,
  tabulate, tabulate_ext, arith, ltb, ◌==◌, if◌then◌else◌, Bool-cases, inl, inr, add32,
}
use ti_features.CircularBuffer.{Zeroed, CircularBuffer, done, get_array}
use ti_features.CircularBuffer.Valid.{IsValid}
use ti_features.CircularBuffer.Refine.{read, contents}
use ti_features.CircularBuffer.Read.{get_array_lem}
use ti_features.BoundedArray.{take_all}
use ti_features.MemoryPool.{Pool, get_ring_buffer}
use ti_features.Rings.{Snapshot, capture, fill_ring, empty_ring, rebind}

index_eq :
    (full : Bool) (k capacity : ℕ)
    → k < capacity
    → capacity ≤ 2 ^ 31
    → (if full then add32 0 k % capacity else k) ≡ k
index_eq true k capacity h s =
    ap (λ n. n % capacity) {x = add32 0 k} {y = k} (omega arith) ∙ mod-eq_of_lt h
index_eq false k capacity h s = refl

head_eq_of : (n capacity : ℕ) → n ≤ capacity → n % capacity ≡ (if n == capacity then 0 else n)
head_eq_of n capacity h = elim (Bool-cases (n == capacity)) [
  | inl e ↦ let same : n ≡ capacity = ground arith in rw e (rw same (mod_self capacity))
  | inr e ↦ rw e (mod-eq_of_lt (ground arith))
]

module _ {A : Type 0} ⦃z : Zeroed A⦄ where
  -- A list read element by element, with anything behind it.
  tabulate-append :
      (xs ys : List A) → tabulate (λ i. get_or (xs ++ ys) i z.zeroed) (length xs) 0 ≡ xs
  tabulate-append [] ys = refl
  tabulate-append (x ∷ xs) ys = ap (◌∷◌ x) (
      tabulate_ext (λ i. get_or (x ∷ xs ++ ys) i z.zeroed) (λ i. get_or (xs ++ ys) i z.zeroed)
        (length xs) 1 0
        (λ k lt.
          ap (λ i. get_or (x ∷ xs ++ ys) i z.zeroed) {y = suc k} (omega arith)
          ∙ ap (λ i. get_or (xs ++ ys) i z.zeroed) {x = k} {y = 0 + k} (omega arith))
      ∙ tabulate-append xs ys)

  pub fill_ring-contents :
      (capacity elem_size : ℕ) (xs : List A)
      → 0 < capacity
      → capacity ≤ 2 ^ 31
      → 0 < elem_size
      → length xs ≤ capacity
      → let cells = xs ++ replicate (capacity - length xs) z.zeroed in
        let new = fill_ring capacity elem_size xs (length xs) in
        IsValid new cells × (contents cells new ≡ xs)
  unfolding fill_ring
  fill_ring-contents capacity elem_size xs positive small sized fits =
      let n = length xs in
      let cells = xs ++ replicate (capacity - n) z.zeroed in
      let copied : (if ltb n capacity then n else capacity) ≡ n = ground arith in
      rw copied (
        rw (take_all xs n (omega arith)) (
          record {
            held = refl;
            long =
                length-append xs (replicate (capacity - n) z.zeroed)
                ∙ ap (λ m. n + m) (length-replicate (capacity - n) z.zeroed)
                ∙ omega arith;
            sized = sized;
            nonempty = positive;
            small = small;
            full_iff = refl;
            count_le = fits;
            head_eq = head_eq_of n capacity fits;
            tail_lt = positive;
            tail_zero = λ e. refl;
          },
          tabulate_ext _ (λ i. get_or cells i z.zeroed) n 0 0
                (λ k lt.
                  ap (λ i. get_or cells i z.zeroed)
                    (index_eq (n == capacity) (0 + k) capacity (omega arith) small))
              ∙ tabulate-append xs (replicate (capacity - n) z.zeroed),
        ))

  pub empty_ring-contents :
      (capacity elem_size : ℕ)
      → 0 < capacity
      → capacity ≤ 2 ^ 31
      → 0 < elem_size
      → let cells = replicate capacity z.zeroed in
        IsValid (empty_ring capacity elem_size) cells
        × (contents cells (empty_ring capacity elem_size) ≡ [])
  unfolding empty_ring
  empty_ring-contents capacity elem_size positive small sized =
      (ground (arith, length-replicate capacity z.zeroed), refl)

  -- A valid ring of a list of elements, whatever its cells are.
  abbrev pub Keeps : CircularBuffer A → List A → Type 0
  Keeps cb xs = (cells : List A) × IsValid cb cells × (contents cells cb ≡ xs)

  capture_empty :
      (cb : CircularBuffer A)
      → cb.count == 0 ≡ true
      → capture cb true ≡ record { copied = none; copied_count = 0; copied_size = cb.elem_size }
  unfolding capture
  capture_empty cb e = rw e refl

  capture_full :
      (cb : CircularBuffer A) (cells : List A)
      → IsValid cb cells
      → cb.count == 0 ≡ false
      → capture cb true ≡ record {
        copied = some (contents cells cb);
        copied_count = length (contents cells cb);
        copied_size = cb.elem_size;
      }
  unfolding capture
  capture_full cb cells v e =
      let (array, _, count) = get_array_lem cb cells v in
      let full : get_array cb true ≡ (some (contents cells cb), cb.count) =
        array ∙ ap (λ b. (if b then none else some (contents cells cb), cb.count)) e in
      let snapshot : Option (List A) × ℕ → Snapshot A = λ p. record {
        copied = some (contents cells cb);
        copied_count = p.1;
        copied_size = cb.elem_size;
      } in
      rw (e, full, count) (ap snapshot full)

  contents_empty :
      (cb : CircularBuffer A) (cells : List A) → cb.count == 0 ≡ true → contents cells cb ≡ []
  contents_empty cb cells e = ap (λ n. tabulate (read cells cb) n 0) {y = 0} (ground arith)

  pub rebind_empty :
      {D : Type 0}
      → ⦃w : Zeroed D⦄ → (cb : CircularBuffer A) (pool : Pool D) (ring_offset capacity place : ℕ)
      → get_ring_buffer pool ring_offset ≡ some place
      → rebind cb pool ring_offset capacity cb.elem_size
          (record { copied = none; copied_count = 0; copied_size = cb.elem_size })
        ≡ (done, empty_ring capacity cb.elem_size, ring_offset + capacity * cb.elem_size)
  unfolding rebind
  rebind_empty cb pool ring_offset capacity place there = rw (there, rebind) refl

  rebind_full :
      {D : Type 0}
      → ⦃w : Zeroed D⦄
      → (cb : CircularBuffer A) (pool : Pool D) (ring_offset capacity place : ℕ) (xs : List A)
      → get_ring_buffer pool ring_offset ≡ some place
      → 0 < length xs
      → rebind cb pool ring_offset capacity cb.elem_size
          (record { copied = some xs; copied_count = length xs; copied_size = cb.elem_size })
        ≡ (
          done,
          fill_ring capacity cb.elem_size xs (length xs),
          ring_offset + capacity * cb.elem_size,
        )
  unfolding rebind
  rebind_full cb pool ring_offset capacity place xs there some_left =
      let taken : ltb 0 (length xs) && (cb.elem_size == cb.elem_size) ≡ true = ground arith in
      rw (there, taken, rebind) refl

  -- When a valid ring is captured with memory at hand and bound again, with the same size of an
  -- element, to a place in the ring region and to a capacity between 1 and 2 ^ 31 that is not below
  -- the number of its elements, the new ring is valid and holds the same elements in the same
  -- order, and the next ring's offset is past it.
  pub rebind-Keeps :
      {D : Type 0}
      → ⦃w : Zeroed D⦄
      → (cb : CircularBuffer A) (cells : List A) (pool : Pool D) (ring_offset capacity place : ℕ)
      → IsValid cb cells
      → get_ring_buffer pool ring_offset ≡ some place
      → 0 < capacity
      → capacity ≤ 2 ^ 31
      → cb.count ≤ capacity
      → let (status, new, next) =
          rebind cb pool ring_offset capacity cb.elem_size (capture cb true) in
        (status ≡ done)
        × Keeps new (contents cells cb)
        × (next ≡ ring_offset + capacity * cb.elem_size)
  rebind-Keeps cb cells pool ring_offset capacity place v there positive small fits =
      elim (Bool-cases (cb.count == 0)) [
        | inl e ↦
            (let kept = empty_ring-contents capacity cb.elem_size positive small v.sized in
              rw (capture_empty cb e) (
                rw (rebind_empty cb pool ring_offset capacity place there)
                  (rw (contents_empty cb cells e) (refl, (_, kept.0, kept.1), refl))))
        | inr e ↦
            (let xs = contents cells cb in
              let (_, _, count) = get_array_lem cb cells v in
              let kept =
                fill_ring-contents capacity cb.elem_size xs positive small v.sized (omega arith) in
              rw (capture_full cb cells v e) (
                rw (rebind_full cb pool ring_offset capacity place xs there (ground arith))
                  (refl, (_, kept.0, kept.1), refl)))
      ]
