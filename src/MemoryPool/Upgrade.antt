-- ===== src/MemoryPool/Upgrade.antt =====
-- Moving a flow to a larger block: when it is asked for, and what it keeps.
use ti_features.Prelude.{
  ℕ, zero, suc, ◌-◌, ◌*◌, ◌/◌, ◌≤◌, ◌<◌, ◌≡◌, ◌≢◌, ◌↔◌, refl, ap, true, false, List, [], ◌∷◌, ◌++◌,
  length, length-append, length-replicate, length-take, take, replicate, arith, leb, ltb,
  if◌then◌else◌,
}
use ti_features.CircularBuffer.{Zeroed, done, failed}
use ti_features.MemoryPool.{
  FlowLevel, large, rank, level_to_seq_len, Slice, Pool, starts, zeroed_ℕ, upgrade_array,
  grown_pool, upgrade, check_upgrade,
}
use ti_features.MemoryPool.Layout.{IsLaidOut, tail_fits}

take-take_append :
    {A : Type 0} (n : ℕ) (xs ys : List A) → length xs ≡ n → take n (take n xs ++ ys) ≡ xs
take-take_append zero [] ys h = refl
take-take_append zero (x ∷ xs) ys h = absurd (omega arith)
take-take_append (suc n) [] ys h = absurd (omega arith)
take-take_append (suc n) (x ∷ xs) ys h = ap (◌∷◌ x) (take-take_append n xs ys (omega arith))

-- An array of `c` elements moved to one of `n` has `n` elements, the first of them the old ones.
abbrev pub Grown : {A : Type 0} → Slice A → Slice A → ℕ → Type 0
Grown old new c = take c new.cells ≡ old.cells

upgrade_array-Grown :
    {A : Type 0} ⦃z : Zeroed A⦄ (start c n : ℕ) (a : Slice A)
    → length a.cells ≡ c
    → c ≤ n
    → (length (upgrade_array start c n a).cells ≡ n) × Grown a (upgrade_array start c n a) c
upgrade_array-Grown ⦃z⦄ start c n a h k = (
  omega (
    arith,
    length-append (take c a.cells) (replicate (n - c) z.zeroed),
    length-take c a.cells,
    length-replicate (n - c) z.zeroed,
  ),
  take-take_append c a.cells (replicate (n - c) z.zeroed) h,
)

-- A pool between two calls: laid out for its level.
pub record IsValid {D : Type 0} (pool : Pool D) : Type 0 where
  pub seq_len_eq : pool.actual_seq_len ≡ level_to_seq_len pool.level
  pub laid_out : IsLaidOut pool pool.actual_seq_len pool.num_windows pool.resp_delay_capacity

pub record Kept {D : Type 0} (old new : Pool D) : Type 0 where
  pub fwd_pkt_lens_kept : Grown old.arrays.fwd_pkt_lens new.arrays.fwd_pkt_lens old.actual_seq_len
  pub bwd_pkt_lens_kept : Grown old.arrays.bwd_pkt_lens new.arrays.bwd_pkt_lens old.actual_seq_len
  pub fwd_iats_kept : Grown old.arrays.fwd_iats new.arrays.fwd_iats old.actual_seq_len
  pub bwd_iats_kept : Grown old.arrays.bwd_iats new.arrays.bwd_iats old.actual_seq_len
  pub fwd_payload_sizes_kept :
      Grown old.arrays.fwd_payload_sizes new.arrays.fwd_payload_sizes old.actual_seq_len
  pub bwd_payload_sizes_kept :
      Grown old.arrays.bwd_payload_sizes new.arrays.bwd_payload_sizes old.actual_seq_len
  pub window_pkt_counts_kept :
      Grown old.arrays.window_pkt_counts new.arrays.window_pkt_counts old.num_windows
  pub window_byte_counts_kept :
      Grown old.arrays.window_byte_counts new.arrays.window_byte_counts old.num_windows
  pub window_bitrate_kept :
      Grown old.arrays.window_bitrate new.arrays.window_bitrate old.num_windows
  pub burst_sizes_kept : Grown old.arrays.burst_sizes new.arrays.burst_sizes old.actual_seq_len
  pub burst_durations_kept :
      Grown old.arrays.burst_durations new.arrays.burst_durations old.actual_seq_len
  pub burst_intervals_kept :
      Grown old.arrays.burst_intervals new.arrays.burst_intervals old.actual_seq_len
  pub burst_packet_counts_kept :
      Grown old.arrays.burst_packet_counts new.arrays.burst_packet_counts old.actual_seq_len
  pub resp_delays_kept : Grown old.arrays.resp_delays new.arrays.resp_delays old.resp_delay_capacity
  pub count_kept : new.current_pkt_count ≡ old.current_pkt_count

pub seq_len_mono : (a b : FlowLevel) → rank a < rank b → level_to_seq_len a ≤ level_to_seq_len b
seq_len_mono a b h = ground arith

module _ {D : Type 0} ⦃z : Zeroed D⦄ where
  grown_pool-IsValid :
      (pool : Pool D) (level : FlowLevel)
      → IsValid pool
      → pool.actual_seq_len ≤ level_to_seq_len level
      → IsValid (grown_pool pool level) × Kept pool (grown_pool pool level)
  unfolding grown_pool
  grown_pool-IsValid pool level v h =
      let s = level_to_seq_len level in
      let w = pool.num_windows in
      let r = pool.resp_delay_capacity in
      let at = starts s w r in
      let copied : (if ltb pool.actual_seq_len s then pool.actual_seq_len else s)
          ≡ pool.actual_seq_len =
        ground arith in
      let (ring_eq, rings, temp_eq, aligned) = tail_fits level w r in
      let old = v.laid_out in
      let fwd_pkt_lens =
        upgrade_array-Grown at.fwd_pkt_lens pool.actual_seq_len s pool.arrays.fwd_pkt_lens
          old.fwd_pkt_lens_fits.0 h in
      let bwd_pkt_lens =
        upgrade_array-Grown at.bwd_pkt_lens pool.actual_seq_len s pool.arrays.bwd_pkt_lens
          old.bwd_pkt_lens_fits.0 h in
      let fwd_iats =
        upgrade_array-Grown at.fwd_iats pool.actual_seq_len s pool.arrays.fwd_iats
          old.fwd_iats_fits.0 h in
      let bwd_iats =
        upgrade_array-Grown at.bwd_iats pool.actual_seq_len s pool.arrays.bwd_iats
          old.bwd_iats_fits.0 h in
      let fwd_payload_sizes =
        upgrade_array-Grown at.fwd_payload_sizes pool.actual_seq_len s pool.arrays.fwd_payload_sizes
          old.fwd_payload_sizes_fits.0 h in
      let bwd_payload_sizes =
        upgrade_array-Grown at.bwd_payload_sizes pool.actual_seq_len s pool.arrays.bwd_payload_sizes
          old.bwd_payload_sizes_fits.0 h in
      let window_pkt_counts =
        upgrade_array-Grown at.window_pkt_counts w w pool.arrays.window_pkt_counts
          old.window_pkt_counts_fits.0 (omega arith) in
      let window_byte_counts =
        upgrade_array-Grown at.window_byte_counts w w pool.arrays.window_byte_counts
          old.window_byte_counts_fits.0 (omega arith) in
      let window_bitrate =
        upgrade_array-Grown at.window_bitrate w w pool.arrays.window_bitrate
          old.window_bitrate_fits.0 (omega arith) in
      let burst_sizes =
        upgrade_array-Grown at.burst_sizes pool.actual_seq_len s pool.arrays.burst_sizes
          old.burst_sizes_fits.0 h in
      let burst_durations =
        upgrade_array-Grown at.burst_durations pool.actual_seq_len s pool.arrays.burst_durations
          old.burst_durations_fits.0 h in
      let burst_intervals =
        upgrade_array-Grown at.burst_intervals pool.actual_seq_len s pool.arrays.burst_intervals
          old.burst_intervals_fits.0 h in
      let burst_packet_counts =
        upgrade_array-Grown at.burst_packet_counts pool.actual_seq_len s
          pool.arrays.burst_packet_counts old.burst_packet_counts_fits.0 h in
      let resp_delays =
        upgrade_array-Grown at.resp_delays r r pool.arrays.resp_delays old.resp_delays_fits.0
          (omega arith) in
      rw copied (
        record {
          seq_len_eq = refl;
          laid_out = record {
            fwd_pkt_lens_fits = (fwd_pkt_lens.0, omega arith);
            bwd_pkt_lens_fits = (bwd_pkt_lens.0, omega arith);
            fwd_iats_fits = (fwd_iats.0, omega arith);
            bwd_iats_fits = (bwd_iats.0, omega arith);
            fwd_payload_sizes_fits = (fwd_payload_sizes.0, omega arith);
            bwd_payload_sizes_fits = (bwd_payload_sizes.0, omega arith);
            window_pkt_counts_fits = (window_pkt_counts.0, omega arith);
            window_byte_counts_fits = (window_byte_counts.0, omega arith);
            window_bitrate_fits = (window_bitrate.0, omega arith);
            burst_sizes_fits = (burst_sizes.0, omega arith);
            burst_durations_fits = (burst_durations.0, omega arith);
            burst_intervals_fits = (burst_intervals.0, omega arith);
            burst_packet_counts_fits = (burst_packet_counts.0, omega arith);
            resp_delays_fits = (resp_delays.0, omega arith);
            ring_fits = ring_eq;
            rings_fit = rings;
            temp_fits = temp_eq;
            temp_is = refl;
            temp_aligned = aligned;
            temp_within = omega arith;
          };
        },
        record {
          fwd_pkt_lens_kept = fwd_pkt_lens.1;
          bwd_pkt_lens_kept = bwd_pkt_lens.1;
          fwd_iats_kept = fwd_iats.1;
          bwd_iats_kept = bwd_iats.1;
          fwd_payload_sizes_kept = fwd_payload_sizes.1;
          bwd_payload_sizes_kept = bwd_payload_sizes.1;
          window_pkt_counts_kept = window_pkt_counts.1;
          window_byte_counts_kept = window_byte_counts.1;
          window_bitrate_kept = window_bitrate.1;
          burst_sizes_kept = burst_sizes.1;
          burst_durations_kept = burst_durations.1;
          burst_intervals_kept = burst_intervals.1;
          burst_packet_counts_kept = burst_packet_counts.1;
          resp_delays_kept = resp_delays.1;
          count_kept = refl;
        },
      )

  -- `flow_mem_pool_upgrade` to a higher level succeeds when memory is there: the new block is laid
  -- out for that level, every array keeps its elements, and the count of packets stays.
  pub upgrade-IsValid :
      (pool : Pool D) (level : FlowLevel)
      → IsValid pool
      → rank pool.level < rank level
      → let (status, new) = upgrade pool level true in
        (status ≡ done) × (new.level ≡ level) × IsValid new × Kept pool new
  unfolding upgrade
  upgrade-IsValid pool level v h =
      let higher : leb (rank level) (rank pool.level) ≡ false = ground arith in
      let longer = seq_len_mono pool.level level h in
      let (valid, kept) = grown_pool-IsValid pool level v (omega arith) in
      rw higher (refl, refl, valid, kept)

  pub upgrade-frame :
      (pool : Pool D) (level : FlowLevel)
      → rank pool.level < rank level
      → let new = (upgrade pool level true).1 in
        (new.num_windows ≡ pool.num_windows)
        × (new.resp_delay_capacity ≡ pool.resp_delay_capacity)
        × (upgrade pool level false ≡ (failed, pool))
  unfolding upgrade grown_pool
  upgrade-frame pool level h =
      let higher : leb (rank level) (rank pool.level) ≡ false = ground arith in
      rw higher (refl, refl, refl)

  -- `flow_mem_pool_check_upgrade` asks for an upgrade exactly when the flow is below the largest
  -- level and its count of packets, this one included, has come to eight tenths of the level's
  -- length of a sequence. It leaves the level as it is.
  pub check_upgrade_lem :
      (pool : Pool D)
      → IsValid pool
      → let (ask, new) = check_upgrade pool in
        ((ask ≡ true)
          ↔ ((pool.level ≢ large) × (pool.actual_seq_len * 8 / 10 ≤ new.current_pkt_count)))
        × (new.level ≡ pool.level)
  unfolding check_upgrade
  check_upgrade_lem pool v = ground arith
