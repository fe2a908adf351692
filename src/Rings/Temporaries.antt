-- ===== src/Rings/Temporaries.antt =====
-- The temporary buffers of a flow lie in the temporary region, one behind the other.
use ti_features.Prelude.{
  ℕ, ◌+◌, ◌*◌, ◌/◌, ◌≤◌, ◌<◌, ◌≡◌, ◌⊎◌, refl, false, Option, none, some, arith, ltb, ◌==◌,
  if◌then◌else◌, inl, inr,
}
use ti_features.CircularBuffer.{Zeroed}
use ti_features.MemoryPool.{Pool, alloc_temp}
use ti_features.MemoryPool.Temp.{alloc_temp_bounds, alloc_temp-none}
use ti_features.Rings.{bind_temp_buffers}

is_some : {A : Type 0} → (o : Option A) → (o ≡ none) ⊎ ((x : A) × (o ≡ some x))
is_some none = inl refl
is_some (some x) = inr (x, refl)

-- How many doubles each buffer gets.
abbrev pub bounded : {D : Type 0} → Pool D → ℕ → ℕ
bounded pool seq_len =
    if ltb seq_len (pool.temp_mem_size / 16) then seq_len else pool.temp_mem_size / 16

module _ {D : Type 0} ⦃z : Zeroed D⦄ where
  -- When the temporary region has room for two doubles at least and the sequence is not empty, both
  -- buffers are bound, for as many doubles as the sequence has or half the region holds: the
  -- second starts where the first ends, and both lie inside the region.
  pub bind_temp_buffers-bounds :
      (pool : Pool D) (seq_len : ℕ)
      → 16 ≤ pool.temp_mem_size
      → 0 < seq_len
      → let buffers = (bind_temp_buffers pool seq_len).0 in
        let n = bounded pool seq_len in
        (place : ℕ) × (buffers.temp_double_buffer ≡ some place)
        × (buffers.temp_double_buffer_2 ≡ some (place + n * 8))
        × (buffers.temp_uint_buffer_size ≡ n)
        × (pool.temp_mem ≤ place)
        × (place + n * 8 + n * 8 ≤ pool.temp_mem + pool.temp_mem_size)
  unfolding bind_temp_buffers
  bind_temp_buffers-bounds pool seq_len room some_left =
      let n = bounded pool seq_len in
      let positive : n == 0 ≡ false = ground arith in
      let fits : n * 16 ≤ pool.temp_mem_size = ground arith in
      elim (is_some (alloc_temp pool (n * 16) 8).0) [
        | inl e ↦ elim ((alloc_temp-none pool (n * 16) 8).0 e) [
          | inl empty ↦ absurd (ground arith)
          | inr large ↦ absurd (omega arith)
        ]
        | inr (place, e) ↦
            (let (low, high, _, _, _) = alloc_temp_bounds pool (n * 16) 8 place e (omega arith) in
              rw (positive, e) (place, refl, refl, refl, low, omega arith))
      ]
