-- ===== src/Flow/Grown.antt =====
-- A flow that is checked for its size, and moved where it has to be, stays sound.
pub mod Regions
pub mod Rings
pub mod Gifts
pub mod Blocks
use mathlib.Core.Path.{subst}
use ti_features.Prelude.{
  ℕ, suc, ◌+◌, ◌*◌, ◌/◌, ◌^◌, ◌≤◌, ◌<◌, ◌&&◌, ◌≡◌, ◌≢◌, refl, ap, sym, ◌∙◌, Bool, true, false,
  Option, none, some, List, [], length, arith, ltb, leb, ◌==◌, if◌then◌else◌, Bool-cases, inl, inr,
}
use ti_features.Double.{Double, zeroed_double}
use ti_features.CircularBuffer.{CircularBuffer, Zeroed, done, failed}
use ti_features.MemoryPool.{
  Pool, Arrays, Slice, FlowLevel, large, rank, level_to_seq_len, next_level, zeroed_ℕ,
  check_upgrade, upgrade, alloc_temp,
}
use ti_features.MemoryPool.Layout.{IsLaidOut}
use ti_features.MemoryPool.Upgrade.{
  IsValid, upgrade-IsValid, upgrade-frame, seq_len_mono, check_upgrade_lem,
}
use ti_features.BoundedArray.{BoundedArray}
use ti_features.Rings.{TempBuffers, no_buffers, capture, rebind, bind_temp_buffers}
use ti_features.Rings.Rebound.{Holds, kept, rebind-Holds}
use ti_features.Flow.{FlowState, SeqRings, Memory, zeroed_direction, rings_of}
use ti_features.Flow.Grow.{
  shared_pool, take_over, stored_arrays, rebind_rings, take_block, grow_to, grow_by, grow,
}
use ti_features.Flow.Grown.Regions.{relaid, bind-frame, check-frame}
use ti_features.Flow.Grown.Rings.{survivors, rebind_rings-AllHold}
use ti_features.Flow.Grown.Blocks.{seq_len_small, offset-IsValid, take_block-Represents}
use ti_features.Flow.Valid.{Sequences, AllHold, HasRoom, HaveRoom, Represents}

module _ {D : Type 0} ⦃d : Double D⦄ where
  -- The pool of a flow after a check.
  abbrev pub checked : FlowState D → ℕ → Bool → Pool D
  checked f count needs = record (shared_pool f) {
    current_pkt_count = count;
    needs_upgrade = needs;
  }

  pub checked-IsValid :
      (f : FlowState D) (h : Sequences) (count : ℕ) (needs : Bool)
      → Represents f h
      → IsValid (checked f count needs)
  checked-IsValid f h count needs v = record {
    seq_len_eq = v.pool_valid.seq_len_eq;
    laid_out =
        relaid f f.mem_pool f.mem_pool.temp_mem_offset count f.mem_pool.actual_seq_len
          f.mem_pool.num_windows f.mem_pool.resp_delay_capacity needs v.room v.windows_eq
          v.delays_eq v.pool_valid.laid_out.temp_within v.pool_valid.laid_out;
  }

  stay-Represents :
      (f : FlowState D) (h : Sequences) (count : ℕ) (needs : Bool)
      → Represents f h
      → Represents (record f { mem_pool = checked f count needs }) h
  stay-Represents f h count needs v = record {
    pool_valid = checked-IsValid f h count needs v;
    windows_eq = v.windows_eq;
    delays_eq = v.delays_eq;
    rings = v.rings;
    room = record {
      fwd_payload_sizes_room = v.room.fwd_payload_sizes_room;
      bwd_payload_sizes_room = v.room.bwd_payload_sizes_room;
      fwd_pkt_lens_room = v.room.fwd_pkt_lens_room;
      bwd_pkt_lens_room = v.room.bwd_pkt_lens_room;
      fwd_iats_room = v.room.fwd_iats_room;
      bwd_iats_room = v.room.bwd_iats_room;
      first_n_room = v.room.first_n_room;
      resp_delays_valid = v.room.resp_delays_valid;
      resp_delays_eq = v.room.resp_delays_eq;
      burst_room = v.room.burst_room;
      windows_room = v.room.windows_room;
    };
  }

  move-Represents :
      (has : ℕ → Bool) (f : FlowState D) (h : Sequences) (count : ℕ) (needs : Bool)
      (level : FlowLevel)
      → Represents f h
      → rank f.mem_pool.level < rank level
      → let larger = (upgrade (checked f count needs) level true).1 in
        let (temp, bound) = bind_temp_buffers larger larger.actual_seq_len in
        Represents
          (take_block f bound temp (rebind_rings has (rings_of f) bound bound.actual_seq_len))
          (survivors has h)
        × (bound.level ≡ level)
        × (bound.current_pkt_count ≡ count)
  move-Represents has f h count needs level v higher =
      let old = checked f count needs in
      let larger = (upgrade old level true).1 in
      let (_, at, valid, kept) =
        upgrade-IsValid old level (checked-IsValid f h count needs v) higher in
      let (e, k, _) = upgrade-frame old level higher in
      let (temp, bound) = bind_temp_buffers larger larger.actual_seq_len in
      let (frame, inside) = bind-frame larger larger.actual_seq_len valid.laid_out.temp_within in
      let longer : f.mem_pool.actual_seq_len ≤ larger.actual_seq_len = omega (
        arith,
        seq_len_mono f.mem_pool.level level higher,
        v.pool_valid.seq_len_eq,
        valid.seq_len_eq,
        ap level_to_seq_len at,
      ) in
      let rest = record larger { temp_mem_offset = bound.temp_mem_offset } in
      let (positive, small) = seq_len_small larger valid in
      subst
        (λ p.
          Represents (take_block f p temp (rebind_rings has (rings_of f) p p.actual_seq_len))
            (survivors has h)
          × (p.level ≡ level)
          × (p.current_pkt_count ≡ count))
        (sym frame)
        (
          take_block-Represents f rest temp _ f.mem_pool.actual_seq_len _ v.room longer
              (offset-IsValid f larger f.mem_pool.actual_seq_len bound.temp_mem_offset v.room longer
                valid (e ∙ v.windows_eq) (k ∙ v.delays_eq) inside)
              (e ∙ v.windows_eq) (k ∙ v.delays_eq)
              (rebind_rings-AllHold has (rings_of f) h rest f.mem_pool.actual_seq_len
                larger.actual_seq_len v.rings positive (omega arith) longer
                valid.laid_out.rings_fit),
          at,
          kept.count_kept,
        )

  -- The move to a level yields a sound state, whose rings hold what their snapshots kept; without
  -- memory for the larger block nothing changes.
  grow_to-Represents :
      (larger : Bool) (has : ℕ → Bool) (f : FlowState D) (h : Sequences) (count : ℕ) (needs : Bool)
      (level : FlowLevel)
      → Represents f h
      → rank f.mem_pool.level < rank level
      → let new = grow_to larger has f (checked f count needs) level in
        Represents new (if larger then survivors has h else h)
        × (new.mem_pool.level ≡ (if larger then level else f.mem_pool.level))
        × (new.mem_pool.current_pkt_count ≡ count)
  unfolding grow_to
  grow_to-Represents true has f h count needs level v higher =
      let old = checked f count needs in
      let (status, _, _, _) =
        upgrade-IsValid old level (checked-IsValid f h count needs v) higher in
      rw (status, grow_to) (move-Represents has f h count needs level v higher)
  grow_to-Represents false has f h count needs level v higher =
      let (_, _, failure) = upgrade-frame (checked f count needs) level higher in
      rw (failure, grow_to) (stay-Represents f h count needs v, refl, refl)

  -- What holds after the check: `moved` is whether the flow has a larger block.
  abbrev Checked : Memory → FlowState D → Sequences → ℕ → Bool → FlowState D → Type 0
  Checked m f h count moved new =
      Represents new (if moved then survivors m.has_snapshot h else h)
      × (rank new.mem_pool.level
          ≡ (if moved then rank f.mem_pool.level + 1 else rank f.mem_pool.level))
      × (new.mem_pool.current_pkt_count ≡ count)

  grow_by-Checked :
      (m : Memory) (f : FlowState D) (h : Sequences) (count : ℕ) (needs ask : Bool)
      (next : Option FlowLevel)
      → Represents f h
      → next ≡ next_level f.mem_pool.level
      → (ask ≡ true → f.mem_pool.level ≢ large)
      → Checked m f h count (ask && m.has_larger) (grow_by m f ask (checked f count needs) next)
  unfolding grow_by
  grow_by-Checked m f h count needs false next v e below =
      (stay-Represents f h count needs v, refl, refl)
  grow_by-Checked m f h count needs true none v e below = absurd (ground (arith, below))
  grow_by-Checked m f h count needs true (some level) v e below =
      let up : rank level ≡ rank f.mem_pool.level + 1 = ground (arith, below) in
      let (sound, at, counted) =
        grow_to-Represents m.has_larger m.has_snapshot f h count needs level v (omega arith) in
      (sound, ap rank at ∙ ground arith, counted)

  -- Whether a packet moves its flow to a larger block.
  abbrev pub moves : Memory → FlowState D → Bool
  moves m f = (check_upgrade (shared_pool f)).0 && m.has_larger

  -- The check for a packet leaves a sound state. Where the flow moves, its rings hold what their
  -- snapshots kept, and the level is the next; otherwise both are as before.
  pub grow-Represents :
      (m : Memory) (f : FlowState D) (h : Sequences)
      → Represents f h
      → let new = grow m f in
        Represents new (if moves m f then survivors m.has_snapshot h else h)
        × (rank new.mem_pool.level
            ≡ (if moves m f then rank f.mem_pool.level + 1 else rank f.mem_pool.level))
        × (new.mem_pool.current_pkt_count ≡ (check_upgrade (shared_pool f)).1.current_pkt_count)
  unfolding grow
  grow-Represents m f h v =
      let (ask, pool) = check_upgrade (shared_pool f) in
      let (asks, _) =
        check_upgrade_lem (shared_pool f)
          (checked-IsValid f h f.mem_pool.current_pkt_count f.mem_pool.needs_upgrade v) in
      subst
        (λ p.
          Checked m f h pool.current_pkt_count (ask && m.has_larger)
            (grow_by m f ask p (next_level f.mem_pool.level)))
        (sym (check-frame (shared_pool f)))
        (grow_by-Checked m f h pool.current_pkt_count pool.needs_upgrade ask
          (next_level f.mem_pool.level) v refl (λ e. (asks.0 e).0))
