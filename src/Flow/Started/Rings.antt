-- ===== src/Flow/Started/Rings.antt =====
-- The thirteen rings of a new flow find room in the ring region, and they are empty.
use ti_features.Prelude.{ℕ, ◌+◌, ◌*◌, ◌^◌, ◌≤◌, ◌<◌, ◌≡◌, refl, some, [], arith}
use ti_features.Double.{zeroed_double}
use ti_features.CircularBuffer.{Zeroed}
use ti_features.MemoryPool.{Pool, zeroed_ℕ}
use ti_features.FeatureStats.{Direction}
use ti_features.Rings.{empty_ring}
use ti_features.Rings.Moves.{empty_ring-contents}
use ti_features.Rings.Rebound.{Holds, get_ring_buffer-some}
use ti_features.Flow.{SeqRings, zeroed_direction}
use ti_features.Flow.Init.{init_ring, init_rings}
use ti_features.Flow.Valid.{Sequences, AllHold}

abbrev pub no_sequences : Sequences
no_sequences = record {
  pkt_len = [];
  iat = [];
  dir = [];
  ts = [];
  tcp_window = [];
  udp_len = [];
  ip_ttl = [];
  ip_tos = [];
  payload_size = [];
  payload_size_diff = [];
  l3_len = [];
  l4_len = [];
  payload_len = [];
}

empty_ring-Holds :
    {A : Type 0} ⦃z : Zeroed A⦄ (n size : ℕ)
    → 0 < n
    → n ≤ 2 ^ 31
    → 0 < size
    → Holds {A = A} n size (empty_ring n size) []
unfolding empty_ring
empty_ring-Holds {A} n size positive small sized =
    let (valid, same) = empty_ring-contents {A = A} n size positive small sized in
    ((_, valid, same), refl, refl)

init_ring-some :
    {D A : Type 0} ⦃y : Zeroed D⦄ ⦃z : Zeroed A⦄ (pool : Pool D) (offset capacity size : ℕ)
    → offset < pool.ring_buffer_size
    → init_ring {A = A} pool offset capacity size
      ≡ some (empty_ring capacity size, offset + capacity * size)
unfolding init_ring
init_ring-some pool offset capacity size inside =
    rw (get_ring_buffer-some pool offset inside, init_ring) refl

abbrev pub empty_rings : ℕ → SeqRings
empty_rings n = record {
  pkt_len_seq = empty_ring n 4;
  iat_seq = empty_ring n 8;
  dir_seq = empty_ring n 1;
  ts_seq = empty_ring n 8;
  tcp_window_seq = empty_ring n 4;
  udp_len_seq = empty_ring n 4;
  ip_ttl_seq = empty_ring n 4;
  ip_tos_seq = empty_ring n 4;
  payload_size_seq = empty_ring n 4;
  payload_size_diff_seq = empty_ring n 4;
  l3_len_seq = empty_ring n 4;
  l4_len_seq = empty_ring n 4;
  payload_len_seq = empty_ring n 4;
}

pub empty_rings-AllHold : (n : ℕ) → 0 < n → n ≤ 2 ^ 31 → AllHold n (empty_rings n) no_sequences
empty_rings-AllHold n positive small = record {
  pkt_len_holds = empty_ring-Holds n 4 positive small (omega arith);
  iat_holds = empty_ring-Holds n 8 positive small (omega arith);
  dir_holds = empty_ring-Holds n 1 positive small (omega arith);
  ts_holds = empty_ring-Holds n 8 positive small (omega arith);
  tcp_window_holds = empty_ring-Holds n 4 positive small (omega arith);
  udp_len_holds = empty_ring-Holds n 4 positive small (omega arith);
  ip_ttl_holds = empty_ring-Holds n 4 positive small (omega arith);
  ip_tos_holds = empty_ring-Holds n 4 positive small (omega arith);
  payload_size_holds = empty_ring-Holds n 4 positive small (omega arith);
  payload_size_diff_holds = empty_ring-Holds n 4 positive small (omega arith);
  l3_len_holds = empty_ring-Holds n 4 positive small (omega arith);
  l4_len_holds = empty_ring-Holds n 4 positive small (omega arith);
  payload_len_holds = empty_ring-Holds n 4 positive small (omega arith);
}

-- The thirteen rings find room in the ring region.
pub init_rings-some :
    {D : Type 0} ⦃y : Zeroed D⦄ (pool : Pool D) (n : ℕ)
    → 57 * n ≤ pool.ring_buffer_size
    → 0 < n
    → init_rings pool n ≡ some (empty_rings n)
unfolding init_rings
init_rings-some pool n fits positive =
    let e0 = init_ring-some {A = ℕ} pool (0) n 4 (omega arith) in
    let e1 = init_ring-some {A = ℕ} pool (0 + n * 4) n 8 (omega arith) in
    let e2 = init_ring-some {A = Direction} pool (0 + n * 4 + n * 8) n 1 (omega arith) in
    let e3 = init_ring-some {A = ℕ} pool (0 + n * 4 + n * 8 + n * 1) n 8 (omega arith) in
    let e4 = init_ring-some {A = ℕ} pool (0 + n * 4 + n * 8 + n * 1 + n * 8) n 4 (omega arith) in
    let e5 =
      init_ring-some {A = ℕ} pool (0 + n * 4 + n * 8 + n * 1 + n * 8 + n * 4) n 4 (omega arith) in
    let e6 =
      init_ring-some {A = ℕ} pool (0 + n * 4 + n * 8 + n * 1 + n * 8 + n * 4 + n * 4) n 4
        (omega arith) in
    let e7 =
      init_ring-some {A = ℕ} pool (0 + n * 4 + n * 8 + n * 1 + n * 8 + n * 4 + n * 4 + n * 4) n 4
        (omega arith) in
    let e8 =
      init_ring-some {A = ℕ} pool
        (0 + n * 4 + n * 8 + n * 1 + n * 8 + n * 4 + n * 4 + n * 4 + n * 4) n 4 (omega arith) in
    let e9 =
      init_ring-some {A = ℕ} pool
        (0 + n * 4 + n * 8 + n * 1 + n * 8 + n * 4 + n * 4 + n * 4 + n * 4 + n * 4) n 4
        (omega arith) in
    let e10 =
      init_ring-some {A = ℕ} pool
        (0 + n * 4 + n * 8 + n * 1 + n * 8 + n * 4 + n * 4 + n * 4 + n * 4 + n * 4 + n * 4) n 4
        (omega arith) in
    let e11 =
      init_ring-some {A = ℕ} pool
        (0 + n * 4 + n * 8 + n * 1 + n * 8 + n * 4 + n * 4 + n * 4 + n * 4 + n * 4 + n * 4 + n * 4)
        n 4 (omega arith) in
    let e12 =
      init_ring-some {A = ℕ} pool
        (0
          + n * 4
          + n * 8
          + n * 1
          + n * 8
          + n * 4
          + n * 4
          + n * 4
          + n * 4
          + n * 4
          + n * 4
          + n * 4
          + n * 4)
        n 4 (omega arith) in
    rw (e0, e1, e2, e3, e4, e5, e6, e7, e8, e9, e10, e11, e12) refl
