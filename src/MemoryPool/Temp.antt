-- ===== src/MemoryPool/Temp.antt =====
-- The temporary buffers: bump allocation in a region of fixed size, starting over when it is full.
use ti_features.Prelude.{ℕ, ◌+◌, ◌-◌, ◌*◌, ◌%◌, ◌/◌, ◌≤◌, ◌<◌, ◌≡◌, some, none, arith, ◌↔◌, ◌⊎◌}
use native.Mathlib.Nat.{mul-mod_left, zero-mod}
use ti_features.CircularBuffer.{Zeroed}
use ti_features.MemoryPool.{Pool, alloc_temp}

module _ {D : Type 0} ⦃z : Zeroed D⦄ where
  -- A buffer that `flow_mem_pool_alloc_temp` hands out for an alignment above 1 lies inside the
  -- temporary region, at a multiple of the alignment from the region's start, and the region's
  -- offset moves to the buffer's end.
  pub alloc_temp_bounds :
      (pool : Pool D) (size alignment place : ℕ)
      → (alloc_temp pool size alignment).0 ≡ some place
      → 1 < alignment
      → let after = (alloc_temp pool size alignment).1 in
        (pool.temp_mem ≤ place)
        × (place + size ≤ pool.temp_mem + pool.temp_mem_size)
        × (after.temp_mem_offset ≡ place - pool.temp_mem + size)
        × (after.temp_mem_offset ≤ pool.temp_mem_size)
        × ((place - pool.temp_mem) % alignment ≡ 0)
  unfolding alloc_temp
  alloc_temp_bounds pool size alignment place e aligned =
      let up = (pool.temp_mem_offset + alignment - 1) / alignment in
      let even : up * alignment % alignment ≡ 0 = mul-mod_left up alignment in
      let back : (p q : ℕ) → p + q - p ≡ q = λ p q. omega arith in
      ground (arith, back pool.temp_mem (up * alignment), back pool.temp_mem 0, zero-mod alignment)

  -- `flow_mem_pool_alloc_temp` fails just for an empty request and for one larger than the region.
  pub alloc_temp-none :
      (pool : Pool D) (size alignment : ℕ)
      → ((alloc_temp pool size alignment).0 ≡ none) ↔ ((size ≡ 0) ⊎ (pool.temp_mem_size < size))
  unfolding alloc_temp
  alloc_temp-none pool size alignment = (λ e. ground arith, λ e. ground arith)

  -- While there is room for a buffer and its alignment behind the region's offset, the buffer lies
  -- past that offset, so it overlaps none that was handed out since the region was started over.
  alloc_temp_apart :
      (pool : Pool D) (size alignment place : ℕ)
      → pool.temp_mem_offset + alignment + size ≤ pool.temp_mem_size
      → (alloc_temp pool size alignment).0 ≡ some place
      → pool.temp_mem + pool.temp_mem_offset ≤ place
  unfolding alloc_temp
  alloc_temp_apart pool size alignment place h e = ground arith
