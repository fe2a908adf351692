-- ===== src/Flow/Grown/Gifts.antt =====
-- A move to a larger block changes nothing that decides what a packet gives to the rings.
use ti_features.Prelude.{ℕ, ◌≡◌, refl, Bool, true, false, Option, none, some}
use ti_features.Double.{Double, zeroed_double}
use ti_features.CircularBuffer.{Status, failed, done}
use ti_features.MemoryPool.{zeroed_ℕ, Pool, FlowLevel, next_level, check_upgrade, upgrade}
use ti_features.Rings.{TempBuffers, bind_temp_buffers}
use ti_features.Flow.{FlowState, SeqRings, Memory, rings_of, zeroed_direction}
use ti_features.Flow.Grow.{shared_pool, rebind_rings, take_block, grow_to, grow_by, grow}
use ti_features.Flow.Stepped.Rings.{size_diff_of}

module _ {D : Type 0} ⦃d : Double D⦄ where
  -- What decides of two states what a packet gives to the rings.
  abbrev SameGifts : FlowState D → FlowState D → Type 0
  SameGifts f g =
      (g.iat.last_arrival_us ≡ f.iat.last_arrival_us)
      × ((size : Option ℕ) → size_diff_of g.payload size ≡ size_diff_of f.payload size)

  take_block-SameGifts :
      (f : FlowState D) (pool : Pool D) (temp : TempBuffers) (r : SeqRings)
      → SameGifts f (take_block f pool temp r)
  unfolding take_block
  take_block-SameGifts f pool temp r = (refl, same)
    where
      same :
          (size : Option ℕ)
          → size_diff_of (take_block f pool temp r).payload size ≡ size_diff_of f.payload size
      same none = refl
      same (some size) = refl

  chosen-SameGifts :
      (f g k : FlowState D) (status : Status)
      → SameGifts f g
      → SameGifts f k
      → SameGifts f (elim status [ failed ↦ k | done ↦ g ])
  chosen-SameGifts f g k failed same other = other
  chosen-SameGifts f g k done same other = same

  grow_to-SameGifts :
      (larger : Bool) (has : ℕ → Bool) (f : FlowState D) (pool : Pool D) (level : FlowLevel)
      → SameGifts f (grow_to larger has f pool level)
  unfolding grow_to
  grow_to-SameGifts larger has f pool level =
      let (status, block) = upgrade pool level larger in
      let (temp, bound) = bind_temp_buffers block block.actual_seq_len in
      let rings = rebind_rings has (rings_of f) bound bound.actual_seq_len in
      chosen-SameGifts f (take_block f bound temp rings) (record f { mem_pool = pool }) status
        (take_block-SameGifts f bound temp rings) (refl, λ size. refl)

  grow_by-SameGifts :
      (m : Memory) (f : FlowState D) (ask : Bool) (pool : Pool D) (next : Option FlowLevel)
      → SameGifts f (grow_by m f ask pool next)
  unfolding grow_by
  grow_by-SameGifts m f false pool next = (refl, λ size. refl)
  grow_by-SameGifts m f true pool none = (refl, λ size. refl)
  grow_by-SameGifts m f true pool (some level) =
      grow_to-SameGifts m.has_larger m.has_snapshot f pool level

  -- A move changes nothing of it.
  pub grow-kept : (m : Memory) (f : FlowState D) → SameGifts f (grow m f)
  unfolding grow
  grow-kept m f =
      grow_by-SameGifts m f (check_upgrade (shared_pool f)).0 (check_upgrade (shared_pool f)).1
        (next_level f.mem_pool.level)
