-- ===== src/CircularBuffer/Valid.antt =====
-- The representation invariant of a ring, for the operations that change it.
use ti_features.Prelude.{
  ℕ, ◌+◌, ◌^◌, ◌≤◌, ◌<◌, ◌≡◌, true, false, some, List, length, arith, length-set, length-replicate,
  replicate, set, if◌then◌else◌, ◌==◌, add32, Bool-cases, inl, inr, ◌%◌,
}
use native.Mathlib.Nat.{mod-eq_of_lt}
use ti_features.CircularBuffer.{
  Zeroed, CircularBuffer, done, init, push, push_into, clear, is_unusable,
}

pub record IsValid {A : Type 0} (cb : CircularBuffer A) (xs : List A) : Type 0 where
  pub held : cb.cells ≡ some xs
  pub long : length xs ≡ cb.capacity
  pub sized : 0 < cb.elem_size
  pub nonempty : 0 < cb.capacity
  pub small : cb.capacity ≤ 2 ^ 31
  pub full_iff : cb.is_full ≡ (cb.count == cb.capacity)
  pub count_le : cb.count ≤ cb.capacity
  pub head_eq : cb.head ≡ (if cb.is_full then cb.tail else cb.count)
  pub tail_lt : cb.tail < cb.capacity
  pub tail_zero : cb.is_full ≡ false → cb.tail ≡ 0

-- `(i + 1) % capacity` goes on by one, or back to the start.
pub next_index :
    (i capacity : ℕ)
    → i < capacity
    → capacity ≤ 2 ^ 31
    → add32 i 1 % capacity ≡ (if i + 1 == capacity then 0 else i + 1)
next_index i capacity h k = elim (Bool-cases (i + 1 == capacity)) [
  | inl e ↦ let p : i + 1 ≡ capacity = ground arith in rw e (rw (← p) (grind arith))
  | inr e ↦ rw e (let q : add32 i 1 ≡ i + 1 = omega arith in rw q (mod-eq_of_lt (ground arith)))
]

module _ {A : Type 0} ⦃z : Zeroed A⦄ where
  -- The guards of the operations let a valid ring pass.
  pub is_unusable-false :
      (cb : CircularBuffer A) (xs : List A) → IsValid cb xs → is_unusable cb ≡ false
  is_unusable-false cb xs v = ground arith

  pub push_eq :
      (cb : CircularBuffer A) (xs : List A) (x : A)
      → IsValid cb xs
      → push cb x ≡ (done, push_into cb xs x)
  unfolding push
  push_eq cb xs x v = rw (v.held, is_unusable-false cb xs v)

  -- What `circular_buffer_push` writes stays valid.
  pub push_into-IsValid :
      (cb : CircularBuffer A) (xs : List A) (x : A)
      → IsValid cb xs
      → IsValid (push_into cb xs x) (set xs cb.head x)
  unfolding push_into
  push_into-IsValid cb xs x v = ground (
    arith,
    length-set xs cb.head x,
    next_index cb.head cb.capacity,
    next_index cb.tail cb.capacity,
  )

  pub capacity-push_into :
      (cb : CircularBuffer A) (xs : List A) (x : A) → (push_into cb xs x).capacity ≡ cb.capacity
  unfolding push_into
  capacity-push_into cb xs x = ground arith

  pub elem_size-push_into :
      (cb : CircularBuffer A) (xs : List A) (x : A) → (push_into cb xs x).elem_size ≡ cb.elem_size
  unfolding push_into
  elem_size-push_into cb xs x = ground arith

  -- With a capacity between 1 and 2 ^ 31, an element size above 0 and memory for the elements,
  -- `circular_buffer_init` succeeds, whatever the structure held, and the ring is valid and empty.
  init-IsValid :
      (cb : CircularBuffer A) (capacity elem_size : ℕ)
      → 0 < capacity
      → capacity ≤ 2 ^ 31
      → 0 < elem_size
      → let (status, new) = init cb capacity elem_size true in
        (status ≡ done) × IsValid new (replicate capacity z.zeroed) × (new.count ≡ 0)
  unfolding init
  init-IsValid cb capacity elem_size positive h sized =
      ground (arith, length-replicate capacity z.zeroed)

  -- `circular_buffer_clear` leaves a valid and empty ring.
  pub clear-IsValid :
      (cb : CircularBuffer A) (xs : List A)
      → IsValid cb xs
      → IsValid (clear cb) xs × ((clear cb).count ≡ 0)
  unfolding clear
  clear-IsValid cb xs v = ground arith
