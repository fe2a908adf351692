-- ===== src/Tests/Moves.antt =====
-- Examples of a ring that moves and of temporary buffers.
use ti_features.Prelude.{ℕ, ◌+◌, ◌*◌, ◌≡◌, refl, true, [], ◌∷◌, some, arith}
use ti_features.CircularBuffer.{CircularBuffer, done}
use ti_features.CircularBuffer.Valid.{IsValid}
use ti_features.MemoryPool.{zeroed_ℕ, Pool, init_ex, get_ring_buffer, calc_size_ex}
use ti_features.Rings.{capture, rebind}
use ti_features.Rings.Moves.{Keeps, rebind-Keeps}
use ti_features.Tests.{tiny_pool, no_pool}

-- A full ring of two that holds 8 and then 7.
abbrev full_ring : CircularBuffer ℕ
full_ring = record {
  cells = some (7 ∷ 8 ∷ []);
  elem_size = 4;
  capacity = 2;
  count = 2;
  head = 1;
  tail = 1;
  is_full = true;
}

full_ring-IsValid : IsValid full_ring (7 ∷ 8 ∷ [])
full_ring-IsValid = record {
  held = refl;
  long = refl;
  sized = omega arith;
  nonempty = omega arith;
  small = omega arith;
  full_iff = refl;
  count_le = omega arith;
  head_eq = refl;
  tail_lt = omega arith;
  tail_zero = λ e. ground arith;
}

rebind-Keeps_example :
    let (status, new, next) = rebind full_ring tiny_pool 0 64 4 (capture full_ring true) in
    (status ≡ done) × Keeps new (8 ∷ 7 ∷ []) × (next ≡ 0 + 64 * 4)
unfolding tiny_pool init_ex get_ring_buffer calc_size_ex
rebind-Keeps_example =
    rebind-Keeps full_ring (7 ∷ 8 ∷ []) tiny_pool 0 64 3648 full_ring-IsValid refl (omega arith)
      (omega arith) (omega arith)

abbrev temp_pool : Pool ℕ
temp_pool = record no_pool { temp_mem = 640; temp_mem_size = 8192 }
