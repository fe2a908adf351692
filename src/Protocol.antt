-- ===== src/Protocol.antt =====
-- src/calc_protocol.cpp, the functions called for each packet: TCP flags, windows and
-- retransmissions, IP headers and ports.
pub mod Flags
pub mod Segments
pub mod Addresses
pub mod Services
pub mod PortFields
pub mod Derived
use ti_features.Prelude.{
  ℕ, zero, suc, ◌+◌, ◌-◌, ◌*◌, ◌/◌, ◌%◌, Bool, true, false, not, ◌&&◌, ◌||◌, add32, add64, sub64,
  ltb, leb, ◌==◌, is_set, if◌then◌else◌,
}
use ti_features.Double.{Double}
use ti_features.CircularBuffer.{CircularBuffer, push}
use ti_features.MemoryPool.{zeroed_ℕ}
use ti_features.FeatureStats.{RunningStats, Direction, unknown, fwd, bwd, running_stats_update}

-- The one-bit flags of `struct tcphdr` that are read.
pub record TcpFlags : Type 0 where
  pub syn : Bool
  pub ack : Bool
  pub fin : Bool
  pub rst : Bool
  pub psh : Bool
  pub urg : Bool

-- The TCP fields of `flow_feature_state_t`.
pub record Tcp (D : Type 0) : Type 0 where
  pub tcp_packets : ℕ
  pub tcp_syn_count : ℕ
  pub tcp_fin_count : ℕ
  pub tcp_rst_count : ℕ
  pub tcp_psh_count : ℕ
  pub tcp_ack_count : ℕ
  pub tcp_urg_count : ℕ
  pub tcp_syn_only_count : ℕ
  pub tcp_syn_ack_count : ℕ
  pub tcp_ack_only_count : ℕ
  pub tcp_payload_packets : ℕ
  pub tcp_window_update_count : ℕ
  pub tcp_zero_window_count : ℕ
  pub tcp_retransmission_count : ℕ
  pub has_last_tcp_window : ℕ
  pub last_tcp_window : ℕ
  pub last_rst_ts : ℕ
  pub rst_interval_sum_us : ℕ
  pub rst_interval_count : ℕ
  pub has_last_fwd_seq : ℕ
  pub has_last_bwd_seq : ℕ
  pub last_fwd_seq : ℕ
  pub last_bwd_seq : ℕ
  pub tcp_window_stats : RunningStats D
  pub tcp_window_seq : CircularBuffer ℕ

-- `counter++` under a condition.
abbrev pub count_if : Bool → ℕ → ℕ
count_if test count = if test then add32 count 1 else count

-- An ACK segment with no payload and none of the flags SYN, FIN, RST and PSH; URG is not tested.
abbrev pub is_ack_only : TcpFlags → ℕ → Bool
is_ack_only flags payload_len =
    flags.ack
    && not flags.syn
    && not flags.fin
    && not flags.rst
    && not flags.psh
    && (payload_len == 0)

module _ {D : Type 0} ⦃d : Double D⦄ where
  -- The flags' counters, but for RST intervals, with the count of segments that have a payload.
  unfoldable pub count_flags : Tcp D → TcpFlags → ℕ → Tcp D
  count_flags s flags payload_len = record s {
    tcp_packets = add64 s.tcp_packets 1;
    tcp_syn_count = count_if flags.syn s.tcp_syn_count;
    tcp_syn_only_count = count_if (flags.syn && not flags.ack) s.tcp_syn_only_count;
    tcp_fin_count = count_if flags.fin s.tcp_fin_count;
    tcp_rst_count = count_if flags.rst s.tcp_rst_count;
    tcp_psh_count = count_if flags.psh s.tcp_psh_count;
    tcp_ack_count = count_if flags.ack s.tcp_ack_count;
    tcp_ack_only_count = count_if (is_ack_only flags payload_len) s.tcp_ack_only_count;
    tcp_urg_count = count_if flags.urg s.tcp_urg_count;
    tcp_syn_ack_count = count_if (flags.syn && flags.ack) s.tcp_syn_ack_count;
    tcp_payload_packets = count_if (ltb 0 payload_len) s.tcp_payload_packets;
  }

  -- The intervals between segments with RST.
  unfoldable pub time_rst : Tcp D → TcpFlags → ℕ → Tcp D
  time_rst s flags ts_us =
      let timed =
        if ltb 0 s.last_rst_ts && ltb s.last_rst_ts ts_us
        then record s {
          rst_interval_sum_us = add64 s.rst_interval_sum_us (sub64 ts_us s.last_rst_ts);
          rst_interval_count = add32 s.rst_interval_count 1;
        }
        else s in
      if flags.rst then record timed { last_rst_ts = ts_us } else s

  -- Window statistics and updates.
  unfoldable pub update_window : Tcp D → TcpFlags → ℕ → ℕ → Tcp D
  update_window s flags payload_len window = record s {
    tcp_window_stats = running_stats_update s.tcp_window_stats (d.of_ℕ window);
    tcp_window_seq = (push s.tcp_window_seq window).1;
    tcp_window_update_count =
        count_if
          (is_set s.has_last_tcp_window
            && flags.ack
            && (payload_len == 0)
            && not (window == s.last_tcp_window))
          s.tcp_window_update_count;
    last_tcp_window = window;
    has_last_tcp_window = 1;
  }

  -- A segment with a payload whose sequence number is not past the last one of its direction counts
  -- as a retransmission.
  unfoldable pub check_retransmission : Tcp D → Direction → ℕ → ℕ → Tcp D
  check_retransmission s fwd payload_len tcp_seq =
      if ltb 0 payload_len
      then record s {
        tcp_retransmission_count =
            count_if (is_set s.has_last_fwd_seq && leb tcp_seq s.last_fwd_seq)
              s.tcp_retransmission_count;
        last_fwd_seq = tcp_seq;
        has_last_fwd_seq = 1;
      }
      else s
  check_retransmission s bwd payload_len tcp_seq =
      if ltb 0 payload_len
      then record s {
        tcp_retransmission_count =
            count_if (is_set s.has_last_bwd_seq && leb tcp_seq s.last_bwd_seq)
              s.tcp_retransmission_count;
        last_bwd_seq = tcp_seq;
        has_last_bwd_seq = 1;
      }
      else s
  check_retransmission s unknown payload_len tcp_seq = s

  -- `calc_protocol_tcp_update`
  unfoldable pub calc_protocol_tcp_update : Tcp D → TcpFlags → ℕ → ℕ → Direction → ℕ → ℕ → Tcp D
  calc_protocol_tcp_update s flags payload_len window direction tcp_seq ts_us =
      let s1 = time_rst (count_flags s flags payload_len) flags ts_us in
      let s2 = update_window s1 flags payload_len window in
      let s3 = check_retransmission s2 direction payload_len tcp_seq in
      record s3 { tcp_zero_window_count = count_if (window == 0) s3.tcp_zero_window_count }

-- The byte of a number at an index, the lowest first, as a little-endian machine stores it.
abbrev pub byte0 : ℕ → ℕ
byte0 n = n % 256

abbrev pub byte1 : ℕ → ℕ
byte1 n = n / 256 % 256

-- `is_private_ip`, for an address in network order.
unfoldable pub is_private_ip : ℕ → Bool
is_private_ip ip =
    (byte0 ip == 10)
    || ((byte0 ip == 172) && leb 16 (byte1 ip) && leb (byte1 ip) 31)
    || ((byte0 ip == 192) && (byte1 ip == 168))
    || (byte0 ip == 127)

-- `is_well_known_port`
unfoldable pub is_well_known_port : ℕ → Bool
is_well_known_port port = ltb port 1024

-- `&` on numbers of `bits` bits.
unfoldable pub bit_and : ℕ → ℕ → ℕ → ℕ
bit_and zero a b = 0
bit_and (suc bits) a b = a % 2 * (b % 2) + 2 * bit_and bits (a / 2) (b / 2)

-- The fields of `struct iphdr` that are read, and of `flow_feature_state_t` that are updated.
pub record IpHeader : Type 0 where
  pub ttl : ℕ
  pub tos : ℕ
  pub saddr : ℕ
  pub daddr : ℕ
  pub frag_off : ℕ

pub record Ip (D : Type 0) : Type 0 where
  pub ip_ttl_stats : RunningStats D
  pub ip_tos_stats : RunningStats D
  pub ip_ttl_seq : CircularBuffer ℕ
  pub ip_tos_seq : CircularBuffer ℕ
  pub src_ip : ℕ
  pub dst_ip : ℕ
  pub src_ip_is_private : Bool
  pub dst_ip_is_private : Bool
  pub ip_frag_count : ℕ

-- `calc_protocol_ip_update`. `htons` is the system's, and so is `ntohs` below.
unfoldable pub calc_protocol_ip_update :
    {D : Type 0} → ⦃d : Double D⦄ → (ℕ → ℕ) → Ip D → IpHeader → Ip D
calc_protocol_ip_update ⦃d⦄ htons s iph = record {
  ip_ttl_stats = running_stats_update s.ip_ttl_stats (d.of_ℕ iph.ttl);
  ip_ttl_seq = (push s.ip_ttl_seq iph.ttl).1;
  ip_tos_stats = running_stats_update s.ip_tos_stats (d.of_ℕ iph.tos);
  ip_tos_seq = (push s.ip_tos_seq iph.tos).1;
  src_ip = iph.saddr;
  src_ip_is_private = is_private_ip iph.saddr;
  dst_ip = iph.daddr;
  dst_ip_is_private = is_private_ip iph.daddr;
  ip_frag_count = count_if (is_set (bit_and 16 iph.frag_off (htons 0x1FFF))) s.ip_frag_count;
}

-- The port fields of `flow_feature_state_t`.
pub record Ports : Type 0 where
  pub src_port : ℕ
  pub dst_port : ℕ
  pub unique_src_ports : ℕ
  pub unique_dst_ports : ℕ
  pub well_known_src_count : ℕ
  pub well_known_dst_count : ℕ

-- `calc_protocol_port_update`, for ports in network order.
unfoldable pub calc_protocol_port_update : (ℕ → ℕ) → Ports → ℕ → ℕ → Ports
calc_protocol_port_update ntohs s src_port dst_port = record {
  src_port = ntohs src_port;
  dst_port = ntohs dst_port;
  unique_src_ports = if ltb 0 (ntohs src_port) then 1 else 0;
  unique_dst_ports = if ltb 0 (ntohs dst_port) then 1 else 0;
  well_known_src_count = count_if (is_well_known_port (ntohs src_port)) s.well_known_src_count;
  well_known_dst_count = count_if (is_well_known_port (ntohs dst_port)) s.well_known_dst_count;
}
