-- ===== src/Rings.antt =====
-- src/ti_features.cpp: how the rings of a flow move to a larger block of the pool, and how the
-- temporary buffers are bound.
-- A ring in the pool has its elements with it; the ring region of a new block is zeroed.
pub mod Moves
pub mod Rebound
pub mod Temporaries
use ti_features.Prelude.{
  ℕ, ◌+◌, ◌-◌, ◌*◌, ◌/◌, ◌%◌, Bool, true, false, ◌&&◌, Option, none, some, List, [], ◌++◌, ltb,
  ◌==◌, if◌then◌else◌, replicate, take,
}
use ti_features.CircularBuffer.{Zeroed, CircularBuffer, Status, done, failed, get_array}
use ti_features.MemoryPool.{Pool, get_ring_buffer, alloc_temp}

-- `ring_buffer_snapshot_t`
pub record Snapshot (A : Type 0) : Type 0 where
  pub copied : Option (List A)
  pub copied_count : ℕ
  pub copied_size : ℕ

-- The snapshot of a ring without elements, or after a failed allocation.
abbrev empty_snapshot : {A : Type 0} → ℕ → Snapshot A
empty_snapshot size = record { copied = none; copied_count = 0; copied_size = size }

module _ {A : Type 0} ⦃z : Zeroed A⦄ where
  -- `ring_buffer_snapshot_capture`
  unfoldable pub capture : CircularBuffer A → Bool → Snapshot A
  capture cb allocated =
      let (array, count) = get_array cb allocated in
      if cb.count == 0 then empty_snapshot cb.elem_size else elim array [
        | none ↦ empty_snapshot cb.elem_size
        | some xs ↦ record { copied = some xs; copied_count = count; copied_size = cb.elem_size }
      ]

  -- The ring that `ring_buffer_rebind_from_snapshot` sets up from a snapshot's array.
  unfoldable pub fill_ring : ℕ → ℕ → List A → ℕ → CircularBuffer A
  fill_ring capacity elem_size xs count =
      let copy_count = if ltb count capacity then count else capacity in
      record {
        cells = some (take copy_count xs ++ replicate (capacity - copy_count) z.zeroed);
        elem_size = elem_size;
        capacity = capacity;
        count = copy_count;
        head = copy_count % capacity;
        tail = 0;
        is_full = copy_count == capacity;
      }

  -- An empty ring in the pool.
  unfoldable pub empty_ring : ℕ → ℕ → CircularBuffer A
  empty_ring capacity elem_size = record {
    cells = some (replicate capacity z.zeroed);
    elem_size = elem_size;
    capacity = capacity;
    count = 0;
    head = 0;
    tail = 0;
    is_full = false;
  }

  -- `ring_buffer_rebind_from_snapshot`: the status, the ring and the next offset.
  unfoldable pub rebind :
      {D : Type 0}
      → ⦃w : Zeroed D⦄ → CircularBuffer A
      → Pool D
      → ℕ
      → ℕ
      → ℕ
      → Snapshot A
      → Status × CircularBuffer A × ℕ
  rebind cb pool ring_offset capacity elem_size snap =
      let next = ring_offset + capacity * elem_size in
      elim (get_ring_buffer pool ring_offset) [
        | none ↦ (failed, cb, ring_offset)
        | some place ↦ elim (snap.copied) [
          | none ↦ (done, empty_ring capacity elem_size, next)
          | some xs ↦
              if ltb 0 snap.copied_count && (snap.copied_size == elem_size)
              then (done, fill_ring capacity elem_size xs snap.copied_count, next)
              else (done, empty_ring capacity elem_size, next)
        ]
      ]

-- The temporary buffers of a flow: two arrays of doubles, and how many each holds.
pub record TempBuffers : Type 0 where
  pub temp_double_buffer : Option ℕ
  pub temp_double_buffer_2 : Option ℕ
  pub temp_uint_buffer_size : ℕ

-- No temporary buffers.
abbrev pub no_buffers : TempBuffers
no_buffers = record {
  temp_double_buffer = none;
  temp_double_buffer_2 = none;
  temp_uint_buffer_size = 0;
}

-- `flow_state_bind_temp_buffers`; a double has 8 bytes.
unfoldable pub bind_temp_buffers : {D : Type 0} → ⦃z : Zeroed D⦄ → Pool D → ℕ → TempBuffers × Pool D
bind_temp_buffers pool seq_len =
    let temp_cap = pool.temp_mem_size / 16 in
    let bounded_len = if ltb seq_len temp_cap then seq_len else temp_cap in
    let (buffer, after) = alloc_temp pool (bounded_len * 16) 8 in
    if bounded_len == 0 then (no_buffers, pool) else elim buffer [
      | none ↦ (no_buffers, after)
      | some place ↦ (
        record {
          temp_double_buffer = some place;
          temp_double_buffer_2 = some (place + bounded_len * 8);
          temp_uint_buffer_size = bounded_len;
        },
        after,
      )
    ]
