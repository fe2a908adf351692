-- ===== src/Rings/Rebound.antt =====
-- A ring bound to a larger block: its capacity and size of an element, and what it holds when its
-- snapshot failed.
use mathlib.Core.Path.{subst}
use ti_features.Prelude.{
  ℕ, ◌+◌, ◌*◌, ◌^◌, ◌≤◌, ◌<◌, ◌≡◌, refl, ap, ◌∙◌, Bool, true, false, some, List, [], arith,
  if◌then◌else◌,
}
use ti_features.CircularBuffer.{Zeroed, CircularBuffer, get_array}
use ti_features.CircularBuffer.Valid.{IsValid}
use ti_features.CircularBuffer.Refine.{contents}
use ti_features.MemoryPool.{Pool, get_ring_buffer}
use ti_features.Rings.{Snapshot, capture, fill_ring, empty_ring, rebind, empty_snapshot}
use ti_features.Rings.Moves.{Keeps, rebind-Keeps, rebind_empty, empty_ring-contents}

pub get_ring_buffer-some :
    {D : Type 0}
    → ⦃w : Zeroed D⦄ → (pool : Pool D) (offset : ℕ) → offset < pool.ring_buffer_size
    → get_ring_buffer pool offset ≡ some (pool.ring_buffer_data + offset)
unfolding get_ring_buffer
get_ring_buffer-some pool offset h = ground arith

-- What a ring still holds after a snapshot that succeeds or fails.
abbrev pub kept : {A : Type 0} → Bool → List A → List A
kept allocated xs = if allocated then xs else []

module _ {A : Type 0} ⦃z : Zeroed A⦄ where
  capture_failed : (cb : CircularBuffer A) → capture cb false ≡ empty_snapshot cb.elem_size
  unfolding capture get_array
  capture_failed cb = ground arith

  rebind_shape :
      {D : Type 0}
      → ⦃w : Zeroed D⦄
      → (cb : CircularBuffer A) (pool : Pool D) (ring_offset capacity elem_size place : ℕ)
        (snap : Snapshot A)
      → get_ring_buffer pool ring_offset ≡ some place
      → let new = (rebind cb pool ring_offset capacity elem_size snap).1 in
        (new.capacity ≡ capacity) × (new.elem_size ≡ elem_size)
  unfolding rebind fill_ring empty_ring
  rebind_shape cb pool ring_offset capacity elem_size place snap there =
      rw (there, rebind) (ground arith)

  rebind-kept :
      {D : Type 0}
      → ⦃w : Zeroed D⦄
      → (cb : CircularBuffer A) (cells : List A) (pool : Pool D) (ring_offset capacity : ℕ)
        (allocated : Bool)
      → IsValid cb cells
      → ring_offset < pool.ring_buffer_size
      → 0 < capacity
      → capacity ≤ 2 ^ 31
      → cb.count ≤ capacity
      → let (_, new, next) =
          rebind cb pool ring_offset capacity cb.elem_size (capture cb allocated) in
        Keeps new (kept allocated (contents cells cb))
        × (next ≡ ring_offset + capacity * cb.elem_size)
  rebind-kept cb cells pool ring_offset capacity true v inside positive small fits =
      let there = get_ring_buffer-some pool ring_offset inside in
      let (_, keeps, next) =
        rebind-Keeps cb cells pool ring_offset capacity _ v there positive small fits in
      (keeps, next)
  rebind-kept cb cells pool ring_offset capacity false v inside positive small fits =
      let there = get_ring_buffer-some pool ring_offset inside in
      let empty = empty_ring-contents capacity cb.elem_size positive small v.sized in
      rw (capture_failed cb, rebind_empty cb pool ring_offset capacity _ there)
        ((_, empty.0, empty.1), refl)

  -- A ring of a capacity and a size of an element.
  abbrev pub Holds : ℕ → ℕ → CircularBuffer A → List A → Type 0
  Holds s size cb xs = Keeps cb xs × (cb.capacity ≡ s) × (cb.elem_size ≡ size)

  -- A ring that is captured and bound again to a place inside the ring region and to a capacity that
  -- is not below its own holds the same elements, or none if there was no memory for its snapshot.
  pub rebind-Holds :
      {D : Type 0}
      → ⦃w : Zeroed D⦄
      → (s size : ℕ) (cb : CircularBuffer A) (xs : List A) (pool : Pool D)
        (ring_offset capacity : ℕ) (allocated : Bool)
      → Holds s size cb xs
      → ring_offset < pool.ring_buffer_size
      → 0 < capacity
      → capacity ≤ 2 ^ 31
      → s ≤ capacity
      → let (_, new, next) = rebind cb pool ring_offset capacity size (capture cb allocated) in
        Holds capacity size new (kept allocated xs) × (next ≡ ring_offset + capacity * size)
  rebind-Holds s size cb xs pool ring_offset capacity allocated ((cells, v, same), held, sized)
        inside positive small fits =
      let (keeps, next) =
        rebind-kept cb cells pool ring_offset capacity allocated v inside positive small
          (omega (arith, v.count_le)) in
      let shape =
        rebind_shape cb pool ring_offset capacity cb.elem_size _ (capture cb allocated)
          (get_ring_buffer-some pool ring_offset inside) in
      subst
        (λ n.
          let (_, new, next) = rebind cb pool ring_offset capacity n (capture cb allocated) in
          Holds capacity n new (kept allocated xs) × (next ≡ ring_offset + capacity * n))
        sized (((keeps.0, keeps.1, keeps.2 ∙ ap (kept allocated) same), shape.0, shape.1), next)
