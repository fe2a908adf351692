-- ===== src/Flow/Grown/Rings.antt =====
-- The rings of a flow hold in the new block what their snapshots kept.
use ti_features.Prelude.{ℕ, ◌*◌, ◌^◌, ◌≤◌, ◌<◌, Bool, arith}
use ti_features.Double.{Double, zeroed_double}
use ti_features.MemoryPool.{Pool, zeroed_ℕ}
use ti_features.Rings.{capture, rebind}
use ti_features.Rings.Rebound.{kept, rebind-Holds}
use ti_features.Flow.{SeqRings, zeroed_direction}
use ti_features.Flow.Grow.{rebind_rings}
use ti_features.Flow.Valid.{Sequences, AllHold}

-- What the rings hold after a move, by which snapshots succeed.
abbrev pub survivors : (ℕ → Bool) → Sequences → Sequences
survivors has h = record {
  pkt_len = kept (has 0) h.pkt_len;
  iat = kept (has 1) h.iat;
  dir = kept (has 2) h.dir;
  ts = kept (has 3) h.ts;
  tcp_window = kept (has 4) h.tcp_window;
  udp_len = kept (has 5) h.udp_len;
  ip_ttl = kept (has 6) h.ip_ttl;
  ip_tos = kept (has 7) h.ip_tos;
  payload_size = kept (has 8) h.payload_size;
  payload_size_diff = kept (has 9) h.payload_size_diff;
  l3_len = kept (has 10) h.l3_len;
  l4_len = kept (has 11) h.l4_len;
  payload_len = kept (has 12) h.payload_len;
}

module _ {D : Type 0} ⦃d : Double D⦄ where
  pub rebind_rings-AllHold :
      (has : ℕ → Bool) (r : SeqRings) (h : Sequences) (pool : Pool D) (s n : ℕ)
      → AllHold s r h
      → 0 < n
      → n ≤ 2 ^ 31
      → s ≤ n
      → 57 * n ≤ pool.ring_buffer_size
      → AllHold n (rebind_rings has r pool n) (survivors has h)
  unfolding rebind_rings
  rebind_rings-AllHold has r h pool s n v positive small longer fits =
      let (pkt_len, next1) =
        rebind-Holds s 4 r.pkt_len_seq h.pkt_len pool 0 n (has 0) v.pkt_len_holds (omega arith)
          positive small longer in
      let r1 = rebind r.pkt_len_seq pool 0 n 4 (capture r.pkt_len_seq (has 0)) in
      let (iat, next2) =
        rebind-Holds s 8 r.iat_seq h.iat pool (r1.2) n (has 1) v.iat_holds (omega arith) positive
          small longer in
      let r2 = rebind r.iat_seq pool (r1.2) n 8 (capture r.iat_seq (has 1)) in
      let (dir, next3) =
        rebind-Holds s 1 r.dir_seq h.dir pool (r2.2) n (has 2) v.dir_holds (omega arith) positive
          small longer in
      let r3 = rebind r.dir_seq pool (r2.2) n 1 (capture r.dir_seq (has 2)) in
      let (ts, next4) =
        rebind-Holds s 8 r.ts_seq h.ts pool (r3.2) n (has 3) v.ts_holds (omega arith) positive small
          longer in
      let r4 = rebind r.ts_seq pool (r3.2) n 8 (capture r.ts_seq (has 3)) in
      let (tcp_window, next5) =
        rebind-Holds s 4 r.tcp_window_seq h.tcp_window pool (r4.2) n (has 4) v.tcp_window_holds
          (omega arith) positive small longer in
      let r5 = rebind r.tcp_window_seq pool (r4.2) n 4 (capture r.tcp_window_seq (has 4)) in
      let (udp_len, next6) =
        rebind-Holds s 4 r.udp_len_seq h.udp_len pool (r5.2) n (has 5) v.udp_len_holds (omega arith)
          positive small longer in
      let r6 = rebind r.udp_len_seq pool (r5.2) n 4 (capture r.udp_len_seq (has 5)) in
      let (ip_ttl, next7) =
        rebind-Holds s 4 r.ip_ttl_seq h.ip_ttl pool (r6.2) n (has 6) v.ip_ttl_holds (omega arith)
          positive small longer in
      let r7 = rebind r.ip_ttl_seq pool (r6.2) n 4 (capture r.ip_ttl_seq (has 6)) in
      let (ip_tos, next8) =
        rebind-Holds s 4 r.ip_tos_seq h.ip_tos pool (r7.2) n (has 7) v.ip_tos_holds (omega arith)
          positive small longer in
      let r8 = rebind r.ip_tos_seq pool (r7.2) n 4 (capture r.ip_tos_seq (has 7)) in
      let (payload_size, next9) =
        rebind-Holds s 4 r.payload_size_seq h.payload_size pool (r8.2) n (has 8)
          v.payload_size_holds (omega arith) positive small longer in
      let r9 = rebind r.payload_size_seq pool (r8.2) n 4 (capture r.payload_size_seq (has 8)) in
      let (payload_size_diff, next10) =
        rebind-Holds s 4 r.payload_size_diff_seq h.payload_size_diff pool (r9.2) n (has 9)
          v.payload_size_diff_holds (omega arith) positive small longer in
      let r10 =
        rebind r.payload_size_diff_seq pool (r9.2) n 4 (capture r.payload_size_diff_seq (has 9)) in
      let (l3_len, next11) =
        rebind-Holds s 4 r.l3_len_seq h.l3_len pool (r10.2) n (has 10) v.l3_len_holds (omega arith)
          positive small longer in
      let r11 = rebind r.l3_len_seq pool (r10.2) n 4 (capture r.l3_len_seq (has 10)) in
      let (l4_len, next12) =
        rebind-Holds s 4 r.l4_len_seq h.l4_len pool (r11.2) n (has 11) v.l4_len_holds (omega arith)
          positive small longer in
      let r12 = rebind r.l4_len_seq pool (r11.2) n 4 (capture r.l4_len_seq (has 11)) in
      let (payload_len, next13) =
        rebind-Holds s 4 r.payload_len_seq h.payload_len pool (r12.2) n (has 12) v.payload_len_holds
          (omega arith) positive small longer in
      let r13 = rebind r.payload_len_seq pool (r12.2) n 4 (capture r.payload_len_seq (has 12)) in
      record {
        pkt_len_holds = pkt_len;
        iat_holds = iat;
        dir_holds = dir;
        ts_holds = ts;
        tcp_window_holds = tcp_window;
        udp_len_holds = udp_len;
        ip_ttl_holds = ip_ttl;
        ip_tos_holds = ip_tos;
        payload_size_holds = payload_size;
        payload_size_diff_holds = payload_size_diff;
        l3_len_holds = l3_len;
        l4_len_holds = l4_len;
        payload_len_holds = payload_len;
      }
