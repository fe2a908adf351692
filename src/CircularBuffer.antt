-- ===== src/CircularBuffer.antt =====
-- src/utils/circular_buffer.h and .cpp: the ring that stores each sequence of a flow.
-- A ring holds elements of one type; `data` is null (`none`) or the array of `capacity` elements
-- that `malloc` gave. The pointers `cb` and `elem` are never null in a call of the model; whether
-- an allocation succeeds is an argument.
pub mod Valid
pub mod Refine
pub mod Read
use ti_features.Prelude.{
  ℕ, ◌+◌, ◌%◌, Bool, true, false, ◌||◌, Option, none, some, List, [], add32, ltb, leb, ◌==◌,
  if◌then◌else◌, get_or, set, replicate, tabulate, add64,
}
use mathlib.Core.Option

-- The element that zeroed memory holds.
pub record Zeroed (A : Type 0) : Type 0 where
  pub zeroed : A

pub record CircularBuffer (A : Type 0) : Type 0 where
  pub cells : Option (List A)
  pub elem_size : ℕ
  pub capacity : ℕ
  pub count : ℕ
  pub head : ℕ
  pub tail : ℕ
  pub is_full : Bool

-- The `int` that an operation returns.
pub data Status : Type 0 where
  done failed : Status

module _ {A : Type 0} ⦃z : Zeroed A⦄ where
  -- `circular_buffer_init`: on an error the structure is not written.
  pub init : CircularBuffer A → ℕ → ℕ → Bool → Status × CircularBuffer A
  init cb capacity elem_size allocated =
      if capacity == 0 || elem_size == 0
      then (failed, cb)
      else if allocated
      then (
        done,
        record {
          cells = some (replicate capacity z.zeroed);
          elem_size = elem_size;
          capacity = capacity;
          count = 0;
          head = 0;
          tail = 0;
          is_full = false;
        },
      )
      else (failed, record cb { cells = none })

  -- The guards of `circular_buffer_push` and `circular_buffer_get`.
  abbrev pub is_unusable : CircularBuffer A → Bool
  is_unusable cb = cb.capacity == 0 || cb.elem_size == 0 || ltb cb.capacity cb.count

  -- `circular_buffer_push` once `data` is known to be the array `xs`.
  pub push_into : CircularBuffer A → List A → A → CircularBuffer A
  push_into cb xs x =
      if cb.is_full
      then record cb {
        cells = some (set xs cb.head x);
        head = add32 cb.head 1 % cb.capacity;
        tail = add32 cb.tail 1 % cb.capacity;
      }
      else record cb {
        cells = some (set xs cb.head x);
        head = add32 cb.head 1 % cb.capacity;
        count = add32 cb.count 1;
        is_full = add32 cb.count 1 == cb.capacity;
      }

  -- `circular_buffer_push`
  pub push : CircularBuffer A → A → Status × CircularBuffer A
  push cb x = elim cb.cells [
    | none ↦ (failed, cb)
    | some xs ↦ if is_unusable cb then (failed, cb) else (done, push_into cb xs x)
  ]

  -- Where the element of an index stands in the array.
  abbrev pub actual_index : CircularBuffer A → ℕ → ℕ
  actual_index cb i = if cb.is_full then add32 cb.tail i % cb.capacity else i

  -- `circular_buffer_get`: the element that the pointer leads to.
  pub get : CircularBuffer A → ℕ → Option A
  get cb i = elim cb.cells [
    | none ↦ none
    | some xs ↦
        if is_unusable cb || leb cb.count i
        then none
        else some (get_or xs (actual_index cb i) z.zeroed)
  ]

  -- `circular_buffer_get_array`: the array, with what `*out_count` is set to.
  unfoldable pub get_array : CircularBuffer A → Bool → Option (List A) × ℕ
  get_array cb allocated = elim cb.cells [
    | none ↦ (none, cb.count)
    | some xs ↦
        if cb.count == 0 || cb.elem_size == 0
        then (none, cb.count)
        else if allocated
        then (some (tabulate (λ i. get_or xs (actual_index cb i) z.zeroed) cb.count 0), cb.count)
        else (none, cb.count)
  ]

-- `circular_buffer_clear`
pub clear : {A : Type 0} → CircularBuffer A → CircularBuffer A
clear cb = record cb { count = 0; head = 0; tail = 0; is_full = false }

-- `circular_buffer_destroy`
pub destroy : {A : Type 0} → CircularBuffer A → CircularBuffer A
destroy cb = record {
  cells = none;
  elem_size = 0;
  capacity = 0;
  count = 0;
  head = 0;
  tail = 0;
  is_full = false;
}
