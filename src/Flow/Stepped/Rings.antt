-- ===== src/Flow/Stepped/Rings.antt =====
-- The updates of protocol headers and payloads push onto the rings of their components what a packet
-- gives to each.
use ti_features.Prelude.{
  ℕ, ◌&&◌, ◌||◌, Bool, Option, none, some, List, length, ltb, ◌==◌, if_both, is_set, if◌then◌else◌,
  Bool-cases, inl, inr,
}
use ti_features.Double.{Double, zeroed_double}
use ti_features.Config.{Config}
use ti_features.MemoryPool.{zeroed_ℕ}
use ti_features.FeatureStats.{Direction, fwd, bwd, unknown}
use ti_features.Rings.Rebound.{Holds}
use ti_features.Protocol.{
  Tcp, TcpFlags, Ip, IpHeader, calc_protocol_tcp_update, count_flags, time_rst, update_window,
  check_retransmission, calc_protocol_ip_update,
}
use ti_features.Payload.Stats.{PayloadStats, calc_payload_stats, update_diff}
use ti_features.Flow.{System, RawPacket, StreamType, tcp, udp, other_stream}
use ti_features.Flow.Packet.{Sizes}
use ti_features.Flow.Data.{update_tcp, update_ip, update_payload, payload_of}
use ti_features.Flow.Valid.{push-Holds, gained}

-- The window that a packet gives to its ring.
abbrev pub window_of : Config → System → StreamType → Option RawPacket → Option ℕ
window_of cfg sys tcp none = none
window_of cfg sys tcp (some p) =
    if is_set cfg.enable_protocol_tcp_flags || is_set cfg.enable_protocol_tcp_window
    then some (sys.ntohs p.window)
    else none
window_of cfg sys udp packet = none
window_of cfg sys other_stream packet = none

-- The numbers of an IP header.
abbrev pub ip_of : Config → (IpHeader → ℕ) → Option RawPacket → Option ℕ
ip_of cfg field none = none
ip_of cfg field (some p) = if is_set cfg.enable_protocol_ip then some (field p.iph) else none

-- The size of the payload, where it is taken.
abbrev pub payload_size_of : Config → StreamType → Option RawPacket → ℕ → Option ℕ
payload_size_of cfg stream none payload_len = none
payload_size_of cfg stream (some p) payload_len =
    let size = length (payload_of stream p payload_len) in
    if ltb 0 payload_len && is_set cfg.enable_payload_stats
    then (if size == 0 then none else some size)
    else none

module _ {D : Type 0} ⦃d : Double D⦄ where
  -- How far a size is from the one before it, where there is one.
  abbrev pub size_diff_of : PayloadStats D → Option ℕ → Option ℕ
  size_diff_of s none = none
  size_diff_of s (some size) =
      if is_set s.has_last_payload_len
      then some (d.to_ℕ (d.abs (d.sub (d.of_ℕ size) (d.of_ℕ s.last_payload_len))))
      else none

  -- The ring of TCP windows holds a sequence.
  abbrev pub TcpRing : ℕ → List ℕ → Tcp D → Type 0
  TcpRing n xs s = Holds n 4 s.tcp_window_seq xs

  check_retransmission-Ring :
      (n : ℕ) (xs : List ℕ) (s : Tcp D) (direction : Direction) (payload_len tcp_seq : ℕ)
      → TcpRing n xs s
      → TcpRing n xs (check_retransmission s direction payload_len tcp_seq)
  unfolding check_retransmission
  check_retransmission-Ring n xs s fwd payload_len tcp_seq r =
      if_both (TcpRing n xs) (ltb 0 payload_len) _ s r r
  check_retransmission-Ring n xs s bwd payload_len tcp_seq r =
      if_both (TcpRing n xs) (ltb 0 payload_len) _ s r r
  check_retransmission-Ring n xs s unknown payload_len tcp_seq r = r

  time_rst-Ring :
      (n : ℕ) (xs : List ℕ) (s : Tcp D) (flags : TcpFlags) (ts_us : ℕ)
      → TcpRing n xs s
      → TcpRing n xs (time_rst s flags ts_us)
  unfolding time_rst
  time_rst-Ring n xs s flags ts_us r =
      let timed = if_both (TcpRing n xs) (ltb 0 s.last_rst_ts && ltb s.last_rst_ts ts_us) _ s r r in
      if_both (TcpRing n xs) flags.rst _ s timed r

  tcp_update-Ring :
      (n : ℕ) (xs : List ℕ) (s : Tcp D) (flags : TcpFlags) (payload_len window : ℕ)
      (direction : Direction) (tcp_seq ts_us : ℕ)
      → TcpRing n xs s
      → TcpRing n
          (gained n xs (some window))
          (calc_protocol_tcp_update s flags payload_len window direction tcp_seq ts_us)
  unfolding calc_protocol_tcp_update count_flags update_window
  tcp_update-Ring n xs s flags payload_len window direction tcp_seq ts_us r =
      let h = time_rst-Ring n xs (count_flags s flags payload_len) flags ts_us r in
      check_retransmission-Ring n _ _ direction payload_len tcp_seq (push-Holds n 4 _ xs window h)

  pub tcp-Ring :
      (cfg : Config) (sys : System) (stream : StreamType) (packet : Option RawPacket) (z : Sizes)
      (ts_us n : ℕ) (xs : List ℕ) (s : Tcp D)
      → TcpRing n xs s
      → TcpRing n
          (gained n xs (window_of cfg sys stream packet))
          (update_tcp cfg sys stream packet z ts_us s)
  unfolding update_tcp
  tcp-Ring cfg sys tcp (some p) z ts_us n xs s r =
      elim (Bool-cases
        (is_set cfg.enable_protocol_tcp_flags || is_set cfg.enable_protocol_tcp_window)) [
          | inl e ↦ rw e (
              tcp_update-Ring n xs s p.flags z.payload_len (sys.ntohs p.window) z.direction
                (sys.ntohl p.seq) ts_us r)
          | inr e ↦ rw e r
        ]
  tcp-Ring cfg sys tcp none z ts_us n xs s r = r
  tcp-Ring cfg sys udp packet z ts_us n xs s r = r
  tcp-Ring cfg sys other_stream packet z ts_us n xs s r = r

  -- The rings of IP headers hold two sequences.
  abbrev pub IpRings : ℕ → List ℕ → List ℕ → Ip D → Type 0
  IpRings n xs ys s = Holds n 4 s.ip_ttl_seq xs × Holds n 4 s.ip_tos_seq ys

  pub ip-Rings :
      (cfg : Config) (sys : System) (packet : Option RawPacket) (n : ℕ) (xs ys : List ℕ) (s : Ip D)
      → IpRings n xs ys s
      → IpRings n
          (gained n xs (ip_of cfg (λ i. i.ttl) packet))
          (gained n ys (ip_of cfg (λ i. i.tos) packet))
          (update_ip cfg sys packet s)
  unfolding update_ip calc_protocol_ip_update
  ip-Rings cfg sys none n xs ys s r = r
  ip-Rings cfg sys (some p) n xs ys s (ttl, tos) =
      elim (Bool-cases (is_set cfg.enable_protocol_ip)) [
        | inl e ↦ rw e (push-Holds n 4 _ xs p.iph.ttl ttl, push-Holds n 4 _ ys p.iph.tos tos)
        | inr e ↦ rw e (ttl, tos)
      ]

  -- The rings of payload sizes and their differences hold two sequences.
  abbrev pub PayloadRings : ℕ → List ℕ → List ℕ → PayloadStats D → Type 0
  PayloadRings n xs ys s = Holds n 4 s.size_seq xs × Holds n 4 s.size_diff_seq ys

  diff-Rings :
      (n : ℕ) (xs ys : List ℕ) (s : PayloadStats D) (size : ℕ)
      → PayloadRings n xs ys s
      → PayloadRings n xs (gained n ys (size_diff_of s (some size))) (update_diff s size)
  unfolding update_diff
  diff-Rings n xs ys s size (taken, diff) = elim (Bool-cases (is_set s.has_last_payload_len)) [
    | inl e ↦ rw e (taken, push-Holds n 4 _ ys _ diff)
    | inr e ↦ rw e (taken, diff)
  ]

  payload_stats-Rings :
      (n : ℕ) (compress : List ℕ → Option ℕ) (isalnum : ℕ → Bool) (xs ys : List ℕ)
      (s : PayloadStats D) (payload : List ℕ)
      → PayloadRings n xs ys s
      → let size = if length payload == 0 then none else some (length payload) in
        PayloadRings n
          (gained n xs size)
          (gained n ys (size_diff_of s size))
          (calc_payload_stats compress isalnum s payload)
  unfolding calc_payload_stats
  payload_stats-Rings n compress isalnum xs ys s payload (taken, diff) =
      elim (Bool-cases (length payload == 0)) [
        | inl e ↦ rw e (taken, diff)
        | inr e ↦ rw e (
          push-Holds n 4 _ xs (length payload) taken,
          (diff-Rings n xs ys s (length payload) (taken, diff)).1,
        )
      ]

  pub payload-Rings :
      (cfg : Config) (sys : System) (stream : StreamType) (packet : Option RawPacket)
      (payload_len n : ℕ) (xs ys : List ℕ) (s : PayloadStats D)
      → PayloadRings n xs ys s
      → let size = payload_size_of cfg stream packet payload_len in
        PayloadRings n
          (gained n xs size)
          (gained n ys (size_diff_of s size))
          (update_payload cfg sys stream packet payload_len s)
  unfolding update_payload
  payload-Rings cfg sys stream none payload_len n xs ys s r = r
  payload-Rings cfg sys stream (some p) payload_len n xs ys s r =
      elim (Bool-cases (ltb 0 payload_len && is_set cfg.enable_payload_stats)) [
        | inl e ↦ rw e (payload_stats-Rings n sys.compress sys.isalnum xs ys s _ r)
        | inr e ↦ rw e r
      ]
