-- ===== src/Burst/Records.antt =====
-- What the burst records hold.
use ti_features.Prelude.{
  ◌%◌, ◌∙◌, sym, ap, ℕ, ◌+◌, ◌-◌, ◌^◌, ◌≤◌, ◌<◌, ◌≡◌, List, [], ◌∷◌, length, length-set, get_or,
  get_or-set_self, arith, sub64,
}
use ti_features.Config.{Config}
use ti_features.Burst.{Burst, calc_burst_update}

pub record IsValid (capacity : ℕ) (s : Burst) : Type 0 where
  pub sizes_room : length s.burst_sizes ≡ capacity
  pub durations_room : length s.burst_durations ≡ capacity
  pub intervals_room : length s.burst_intervals ≡ capacity
  pub counts_room : length s.burst_packet_counts ≡ capacity
  pub within : s.burst_count ≤ capacity
  pub small : capacity < 2 ^ 32 - 1

-- Every packet keeps the arrays of burst records at their length and the number of records within
-- it.
pub calc_burst_update-IsValid :
    (cfg : Config) (capacity : ℕ) (s : Burst) (pkt_len iat_us ts_us : ℕ)
    → IsValid capacity s
    → IsValid capacity (calc_burst_update cfg capacity s pkt_len iat_us ts_us)
unfolding calc_burst_update
calc_burst_update-IsValid cfg capacity s pkt_len iat_us ts_us v = ground (
  arith,
  length-set s.burst_sizes s.burst_count s.burst_byte_count,
  length-set s.burst_durations s.burst_count (sub64 ts_us s.burst_start_us),
  length-set s.burst_packet_counts s.burst_count s.burst_pkt_count,
  length-set s.burst_intervals (s.burst_count - 1) iat_us,
)

-- A packet past the threshold, when the burst before it has two packets at least and the arrays
-- have room, records that burst, with its bytes, its packets and the time since its start, and
-- starts a new burst of this packet alone.
calc_burst_update-recorded :
    (cfg : Config) (capacity : ℕ) (s : Burst) (pkt_len iat_us ts_us : ℕ)
    → IsValid capacity s
    → cfg.burst_iat_threshold_us < iat_us
    → 1 < s.burst_pkt_count
    → s.burst_count < capacity
    → let new = calc_burst_update cfg capacity s pkt_len iat_us ts_us in
      (new.burst_count ≡ s.burst_count + 1)
      × (get_or new.burst_sizes s.burst_count 0 ≡ s.burst_byte_count)
      × (get_or new.burst_packet_counts s.burst_count 0 ≡ s.burst_pkt_count)
      × (get_or new.burst_durations s.burst_count 0 ≡ sub64 ts_us s.burst_start_us)
      × (new.burst_byte_count ≡ pkt_len)
      × (new.burst_pkt_count ≡ 1)
      × (new.burst_start_us ≡ ts_us)
unfolding calc_burst_update
calc_burst_update-recorded cfg capacity s pkt_len iat_us ts_us v gap two room = ground (
  arith,
  get_or-set_self s.burst_sizes s.burst_count s.burst_byte_count 0,
  get_or-set_self s.burst_durations s.burst_count (sub64 ts_us s.burst_start_us) 0,
  get_or-set_self s.burst_packet_counts s.burst_count s.burst_pkt_count 0,
)

-- A run of packets of one flow: lengths and times, with the time since the packet before.
pub run : Config → ℕ → Burst → List (ℕ × ℕ × ℕ) → Burst
run cfg capacity s [] = s
run cfg capacity s ((pkt_len, iat_us, ts_us) ∷ ps) =
    run cfg capacity (calc_burst_update cfg capacity s pkt_len iat_us ts_us) ps

-- Packets no further apart than the threshold, with their number and bytes within unsigned int.
abbrev pub AreClose : Config → ℕ → List (ℕ × ℕ × ℕ) → Type 0
AreClose cfg count [] = Unit {0}
AreClose cfg count ((pkt_len, iat_us, ts_us) ∷ ps) =
    (iat_us ≤ cfg.burst_iat_threshold_us) × (count + 1 < 2 ^ 32) × AreClose cfg (count + 1) ps

close_step :
    (cfg : Config) (capacity : ℕ) (s : Burst) (pkt_len iat_us ts_us : ℕ)
    → iat_us ≤ cfg.burst_iat_threshold_us
    → s.burst_pkt_count + 1 < 2 ^ 32
    → let new = calc_burst_update cfg capacity s pkt_len iat_us ts_us in
      (new.burst_start_us ≡ s.burst_start_us)
      × (new.burst_count ≡ s.burst_count)
      × (length new.burst_durations ≡ length s.burst_durations)
      × (new.burst_pkt_count ≡ s.burst_pkt_count + 1)
unfolding calc_burst_update
close_step cfg capacity s pkt_len iat_us ts_us h k = ground arith

run-close :
    (cfg : Config) (capacity count : ℕ) (s : Burst) (ps : List (ℕ × ℕ × ℕ))
    → s.burst_pkt_count ≡ count
    → AreClose cfg count ps
    → let new = run cfg capacity s ps in
      (new.burst_start_us ≡ s.burst_start_us)
      × (new.burst_count ≡ s.burst_count)
      × (length new.burst_durations ≡ length s.burst_durations)
      × (new.burst_pkt_count ≡ s.burst_pkt_count + length ps)
unfolding run
run-close cfg capacity count s [] e h = omega arith
run-close cfg capacity count s ((pkt_len, iat_us, ts_us) ∷ ps) e (close, few, rest) =
    let (start, bursts, long, more) =
      close_step cfg capacity s pkt_len iat_us ts_us close (omega arith) in
    let next = calc_burst_update cfg capacity s pkt_len iat_us ts_us in
    let (start', bursts', long', more') =
      run-close cfg capacity (count + 1) next ps (omega arith) rest in
    omega arith

-- A flow starts with `burst_start_us` 0, and the packets of its first burst do not set it: whatever
-- their times, the first burst of two packets or more is recorded as having lasted since time 0.
pub first_duration :
    (cfg : Config) (capacity : ℕ) (s : Burst) (ps : List (ℕ × ℕ × ℕ)) (pkt_len iat_us ts_us : ℕ)
    → IsValid capacity s
    → 0 < capacity
    → s.burst_start_us ≡ 0
    → s.burst_pkt_count ≡ 0
    → s.burst_count ≡ 0
    → AreClose cfg 0 ps
    → 1 < length ps
    → cfg.burst_iat_threshold_us < iat_us
    → ts_us < 2 ^ 64
    → let new = calc_burst_update cfg capacity (run cfg capacity s ps) pkt_len iat_us ts_us in
      (new.burst_count ≡ 1) × (get_or new.burst_durations 0 0 ≡ ts_us)
unfolding calc_burst_update
first_duration cfg capacity s ps pkt_len iat_us ts_us v room start none_yet no_bursts close two gap
      t =
    let (start', bursts, long, many) = run-close cfg capacity 0 s ps none_yet close in
    let before = run cfg capacity s ps in
    ground (arith, get_or-set_self before.burst_durations 0 ts_us 0)

-- The bytes of a run of packets.
abbrev pub total_len : List (ℕ × ℕ × ℕ) → ℕ
total_len [] = 0
total_len ((pkt_len, iat_us, ts_us) ∷ ps) = pkt_len + total_len ps

close_bytes :
    (cfg : Config) (capacity : ℕ) (s : Burst) (pkt_len iat_us ts_us : ℕ)
    → iat_us ≤ cfg.burst_iat_threshold_us
    → (calc_burst_update cfg capacity s pkt_len iat_us ts_us).burst_byte_count % 2 ^ 32
      ≡ (s.burst_byte_count + pkt_len) % 2 ^ 32
unfolding calc_burst_update
close_bytes cfg capacity s pkt_len iat_us ts_us h = ground arith

run-bytes :
    (cfg : Config) (capacity count : ℕ) (s : Burst) (ps : List (ℕ × ℕ × ℕ))
    → AreClose cfg count ps
    → (run cfg capacity s ps).burst_byte_count % 2 ^ 32
      ≡ (s.burst_byte_count + total_len ps) % 2 ^ 32
unfolding run
run-bytes cfg capacity count s [] h = omega arith
run-bytes cfg capacity count s ((pkt_len, iat_us, ts_us) ∷ ps) (close, few, rest) =
    let one = close_bytes cfg capacity s pkt_len iat_us ts_us close in
    let next = calc_burst_update cfg capacity s pkt_len iat_us ts_us in
    let others = run-bytes cfg capacity (count + 1) next ps rest in omega arith

run-IsValid :
    (cfg : Config) (capacity : ℕ) (s : Burst) (ps : List (ℕ × ℕ × ℕ))
    → IsValid capacity s
    → IsValid capacity (run cfg capacity s ps)
unfolding run
run-IsValid cfg capacity s [] v = v
run-IsValid cfg capacity s ((pkt_len, iat_us, ts_us) ∷ ps) v =
    run-IsValid cfg capacity (calc_burst_update cfg capacity s pkt_len iat_us ts_us) ps
      (calc_burst_update-IsValid cfg capacity s pkt_len iat_us ts_us v)

gap_step :
    (cfg : Config) (capacity : ℕ) (s : Burst) (pkt_len iat_us ts_us : ℕ)
    → cfg.burst_iat_threshold_us < iat_us
    → let new = calc_burst_update cfg capacity s pkt_len iat_us ts_us in
      (new.burst_start_us ≡ ts_us) × (new.burst_pkt_count ≡ 1) × (new.burst_byte_count ≡ pkt_len)
unfolding calc_burst_update
gap_step cfg capacity s pkt_len iat_us ts_us h = ground arith

-- A burst that starts with a packet past the threshold, goes on with at least one packet within it
-- and ends with the next packet past it is recorded, when there is room: with the number of its
-- packets, with the sum of their lengths (modulo 2 ^ 32), and with the time from its first packet
-- to the packet that ends it.
burst_recorded :
    (cfg : Config) (capacity : ℕ) (s : Burst) (len0 iat0 ts0 : ℕ) (ps : List (ℕ × ℕ × ℕ))
    (pkt_len iat_us ts_us : ℕ)
    → IsValid capacity s
    → cfg.burst_iat_threshold_us < iat0
    → AreClose cfg 1 ps
    → 0 < length ps
    → cfg.burst_iat_threshold_us < iat_us
    → (calc_burst_update cfg capacity s len0 iat0 ts0).burst_count < capacity
    → let first = calc_burst_update cfg capacity s len0 iat0 ts0 in
      let new = calc_burst_update cfg capacity (run cfg capacity first ps) pkt_len iat_us ts_us in
      (new.burst_count ≡ first.burst_count + 1)
      × (get_or new.burst_packet_counts first.burst_count 0 ≡ 1 + length ps)
      × (get_or new.burst_sizes first.burst_count 0 % 2 ^ 32 ≡ (len0 + total_len ps) % 2 ^ 32)
      × (get_or new.burst_durations first.burst_count 0 ≡ sub64 ts_us ts0)
burst_recorded cfg capacity s len0 iat0 ts0 ps pkt_len iat_us ts_us v gap0 close more gap room =
    let first = calc_burst_update cfg capacity s len0 iat0 ts0 in
    let valid = calc_burst_update-IsValid cfg capacity s len0 iat0 ts0 v in
    let (start0, one, bytes0) = gap_step cfg capacity s len0 iat0 ts0 gap0 in
    let (start, bursts, _, many) = run-close cfg capacity 1 first ps one close in
    let bytes = run-bytes cfg capacity 1 first ps close in
    let last = run cfg capacity first ps in
    let (recorded, sizes, counts, durations, _, _, _) =
      calc_burst_update-recorded cfg capacity last pkt_len iat_us ts_us
        (run-IsValid cfg capacity first ps valid) gap (omega arith) (omega arith) in
    let new = calc_burst_update cfg capacity last pkt_len iat_us ts_us in
    let at_first : (array : List ℕ)
        → get_or array first.burst_count 0 ≡ get_or array last.burst_count 0 =
      λ array. ap (λ i. get_or array i 0) (sym bursts) in
    (
      recorded ∙ ap (λ n. n + 1) bursts,
      at_first new.burst_packet_counts ∙ counts ∙ omega arith,
      ap (λ n. n % 2 ^ 32) (at_first new.burst_sizes ∙ sizes) ∙ omega arith,
      at_first new.burst_durations ∙ durations ∙ ap (λ t. sub64 ts_us t) (start ∙ start0),
    )
