-- ===== src/Protocol/Flags.antt =====
-- The flags' counters after a run of segments, against counts over the run.
use ti_features.Prelude.{
  ℕ, ◌+◌, ◌%◌, ◌^◌, ◌≡◌, Bool, false, not, ◌&&◌, ◌||◌, List, [], ◌∷◌, length, arith, ltb, ◌==◌,
  if◌then◌else◌,
}
use ti_features.Double.{Double}
use ti_features.FeatureStats.{Direction, unknown, fwd, bwd}
use ti_features.Protocol.{
  Tcp, TcpFlags, count_flags, time_rst, update_window, check_retransmission,
  calc_protocol_tcp_update,
}

-- What a call of `calc_protocol_tcp_update` is given.
pub record Segment : Type 0 where
  pub flags : TcpFlags
  pub payload_len : ℕ
  pub window : ℕ
  pub direction : Direction
  pub tcp_seq : ℕ
  pub ts_us : ℕ

-- How many segments pass a test.
abbrev pub count_of : (Segment → Bool) → List Segment → ℕ
count_of test [] = 0
count_of test (p ∷ ps) = (if test p then 1 else 0) + count_of test ps

-- A segment with no payload that sets ACK and none of SYN, FIN, RST and PSH; URG may be set.
abbrev pub is_pure_ack : Segment → Bool
is_pure_ack p =
    if p.flags.syn || p.flags.fin || p.flags.rst || p.flags.psh || ltb 0 p.payload_len
    then false
    else p.flags.ack

module _ {D : Type 0} ⦃d : Double D⦄ where
  abbrev pub step : Tcp D → Segment → Tcp D
  step s p = calc_protocol_tcp_update s p.flags p.payload_len p.window p.direction p.tcp_seq p.ts_us

  -- The calls of `calc_protocol_tcp_update` for a run of segments.
  unfoldable pub run : Tcp D → List Segment → Tcp D
  run s [] = s
  run s (p ∷ ps) = run (step s p) ps

  -- The counters that do not change.
  abbrev SameFlags : Tcp D → Tcp D → Type 0
  SameFlags s t =
      (t.tcp_packets ≡ s.tcp_packets)
      × (t.tcp_syn_count ≡ s.tcp_syn_count)
      × (t.tcp_syn_only_count ≡ s.tcp_syn_only_count)
      × (t.tcp_syn_ack_count ≡ s.tcp_syn_ack_count)
      × (t.tcp_fin_count ≡ s.tcp_fin_count)
      × (t.tcp_rst_count ≡ s.tcp_rst_count)
      × (t.tcp_psh_count ≡ s.tcp_psh_count)
      × (t.tcp_ack_count ≡ s.tcp_ack_count)
      × (t.tcp_urg_count ≡ s.tcp_urg_count)
      × (t.tcp_ack_only_count ≡ s.tcp_ack_only_count)
      × (t.tcp_payload_packets ≡ s.tcp_payload_packets)
      × (t.tcp_zero_window_count ≡ s.tcp_zero_window_count)

  rst_frame : (s : Tcp D) (flags : TcpFlags) (ts_us : ℕ) → SameFlags s (time_rst s flags ts_us)
  unfolding time_rst
  rst_frame s flags ts_us = ground arith

  retransmission_frame :
      (s : Tcp D) (direction : Direction) (payload_len tcp_seq : ℕ)
      → SameFlags s (check_retransmission s direction payload_len tcp_seq)
  unfolding check_retransmission
  retransmission_frame s fwd payload_len tcp_seq = ground arith
  retransmission_frame s bwd payload_len tcp_seq = ground arith
  retransmission_frame s unknown payload_len tcp_seq = ground arith

  pub step_flags :
      (s : Tcp D) (p : Segment)
      → let new = step s p in
        (new.tcp_syn_count % 2 ^ 32 ≡ (s.tcp_syn_count + (if p.flags.syn then 1 else 0)) % 2 ^ 32)
        × (new.tcp_packets % 2 ^ 64 ≡ (s.tcp_packets + 1) % 2 ^ 64)
        × (new.tcp_syn_only_count % 2 ^ 32
            ≡ (s.tcp_syn_only_count + (if p.flags.syn && not p.flags.ack then 1 else 0)) % 2 ^ 32)
        × (new.tcp_syn_ack_count % 2 ^ 32
            ≡ (s.tcp_syn_ack_count + (if p.flags.syn && p.flags.ack then 1 else 0)) % 2 ^ 32)
        × (new.tcp_ack_only_count % 2 ^ 32
            ≡ (s.tcp_ack_only_count + (if is_pure_ack p then 1 else 0)) % 2 ^ 32)
        × (new.tcp_payload_packets % 2 ^ 32
            ≡ (s.tcp_payload_packets + (if ltb 0 p.payload_len then 1 else 0)) % 2 ^ 32)
        × (new.tcp_zero_window_count % 2 ^ 32
            ≡ (s.tcp_zero_window_count + (if p.window == 0 then 1 else 0)) % 2 ^ 32)
  unfolding calc_protocol_tcp_update count_flags update_window
  step_flags s p = grind (arith, rst_frame, retransmission_frame)

  -- After a run of segments, each of these counters has grown by the segments of the run that it
  -- stands for (modulo 2 ^ 32): SYN, SYN without ACK, SYN with ACK, ACK without SYN, FIN, RST, PSH
  -- and payload, whether URG is set or not, segments with a payload and segments with a zero
  -- window. The count of all segments has grown by the length of
  -- the run (modulo 2 ^ 64).
  pub run-flags :
      (s : Tcp D) (ps : List Segment)
      → let new = run s ps in
        (new.tcp_syn_count % 2 ^ 32 ≡ (s.tcp_syn_count + count_of (λ p. p.flags.syn) ps) % 2 ^ 32)
        × (new.tcp_packets % 2 ^ 64 ≡ (s.tcp_packets + length ps) % 2 ^ 64)
        × (new.tcp_syn_only_count % 2 ^ 32
            ≡ (s.tcp_syn_only_count + count_of (λ p. p.flags.syn && not p.flags.ack) ps) % 2 ^ 32)
        × (new.tcp_syn_ack_count % 2 ^ 32
            ≡ (s.tcp_syn_ack_count + count_of (λ p. p.flags.syn && p.flags.ack) ps) % 2 ^ 32)
        × (new.tcp_ack_only_count % 2 ^ 32
            ≡ (s.tcp_ack_only_count + count_of is_pure_ack ps) % 2 ^ 32)
        × (new.tcp_payload_packets % 2 ^ 32
            ≡ (s.tcp_payload_packets + count_of (λ p. ltb 0 p.payload_len) ps) % 2 ^ 32)
        × (new.tcp_zero_window_count % 2 ^ 32
            ≡ (s.tcp_zero_window_count + count_of (λ p. p.window == 0) ps) % 2 ^ 32)
  unfolding run
  run-flags s [] = ground arith
  run-flags s (p ∷ ps) = ground (arith, step_flags s p, run-flags (step s p) ps)
