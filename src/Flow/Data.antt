-- ===== src/Flow/Data.antt =====
-- src/ti_features.cpp, the branch OP_STATE_DATA of `traffic_process`: what a packet changes in the
-- state of its flow.
-- The components' updates work on fields of their own, except that the time since the last packet,
-- for the bursts, is read before `calc_iat_update`, as it is here.
use ti_features.Prelude.{
  ℕ, ◌+◌, ◌*◌, Bool, false, ◌&&◌, ◌||◌, Option, none, some, List, add32, add64, sub64, ltb, is_set,
  if◌then◌else◌, take, drop,
}
use ti_features.Double.{Double, zeroed_double}
use ti_features.Config.{Config}
use ti_features.CircularBuffer.{CircularBuffer, Zeroed, push}
use ti_features.MemoryPool.{zeroed_ℕ}
use ti_features.FeatureStats.{Direction, running_stats_update, get_pkt_size_class, bigram_update}
use ti_features.Basic.{calc_basic_counters, calc_packet_length_stats}
use ti_features.Iat.{Iat, calc_iat_update, calc_response_delay}
use ti_features.Burst.{calc_burst_update}
use ti_features.Window.{calc_window_update}
use ti_features.Protocol.{
  Tcp, Ip, Ports, calc_protocol_tcp_update, calc_protocol_ip_update, calc_protocol_port_update,
}
use ti_features.Payload.{Magics, calc_payload_magic}
use ti_features.Payload.Stats.{PayloadStats, calc_payload_stats}
use ti_features.Flow.{
  FlowState, StreamType, tcp, udp, other_stream, RawPacket, Call, Memory, System, zeroed_direction,
}
use ti_features.Flow.Packet.{Sizes, sizes_of, time_of}
use ti_features.Flow.Grow.{grow}

-- `if (flag) circular_buffer_push(&seq, &x)`
abbrev pub push_if : {A : Type 0} ⦃z : Zeroed A⦄ → ℕ → CircularBuffer A → A → CircularBuffer A
push_if flag seq x = if is_set flag then (push seq x).1 else seq

-- The bytes of the payload: behind the headers, as many as the packet's detail announces.
unfoldable pub payload_of : StreamType → RawPacket → ℕ → List ℕ
payload_of tcp p payload_len = take payload_len (drop (p.ihl * 4 + p.doff * 4) p.bytes)
payload_of udp p payload_len = take payload_len (drop (p.ihl * 4 + 8) p.bytes)
payload_of other_stream p payload_len = take payload_len (drop (p.ihl * 4) p.bytes)

unfoldable pub update_ports : Config → System → Bool → Option (ℕ × ℕ) → Ports → Ports
update_ports cfg sys is_ipv4 none s = s
update_ports cfg sys is_ipv4 (some (source, dest)) s =
    if is_set cfg.enable_protocol_port && is_ipv4
    then calc_protocol_port_update sys.ntohs s source dest
    else s

unfoldable pub update_magics : Config → StreamType → Option RawPacket → ℕ → Magics → Magics
update_magics cfg stream none payload_len s = s
update_magics cfg stream (some p) payload_len s =
    if ltb 0 payload_len && is_set cfg.enable_payload_magic
    then calc_payload_magic s (payload_of stream p payload_len)
    else s

-- Whether the packet's length over UDP is taken: the `else if` of the TCP statistics.
abbrev pub takes_udp : Config → StreamType → Bool
takes_udp cfg udp = is_set cfg.enable_protocol_udp
takes_udp cfg _ = false

-- `udp_packets++` for a UDP packet.
abbrev pub count_udp : StreamType → ℕ → ℕ
count_udp udp udp_packets = add64 udp_packets 1
count_udp _ udp_packets = udp_packets

module _ {D : Type 0} ⦃d : Double D⦄ where
  unfoldable pub update_ip : Config → System → Option RawPacket → Ip D → Ip D
  update_ip cfg sys none s = s
  update_ip cfg sys (some p) s =
      if is_set cfg.enable_protocol_ip then calc_protocol_ip_update sys.htons s p.iph else s

  unfoldable pub update_tcp :
      Config → System → StreamType → Option RawPacket → Sizes → ℕ → Tcp D → Tcp D
  update_tcp cfg sys tcp (some p) z ts_us s =
      if is_set cfg.enable_protocol_tcp_flags || is_set cfg.enable_protocol_tcp_window
      then calc_protocol_tcp_update s p.flags z.payload_len (sys.ntohs p.window) z.direction
          (sys.ntohl p.seq) ts_us
      else s
  update_tcp cfg sys _ _ z ts_us s = s

  unfoldable pub update_payload :
      Config → System → StreamType → Option RawPacket → ℕ → PayloadStats D → PayloadStats D
  update_payload cfg sys stream none payload_len s = s
  update_payload cfg sys stream (some p) payload_len s =
      if ltb 0 payload_len && is_set cfg.enable_payload_stats
      then calc_payload_stats sys.compress sys.isalnum s (payload_of stream p payload_len)
      else s

  -- `calc_iat_update` and, where it is on, `calc_response_delay`.
  unfoldable pub update_iat : Config → Iat D → ℕ → Direction → Iat D
  update_iat cfg s ts_us direction =
      let updated = calc_iat_update cfg s ts_us direction in
      if is_set cfg.enable_iat_response
      then calc_response_delay updated ts_us direction
      else updated

  -- `burst_iat`
  abbrev pub burst_iat_of : Iat D → ℕ → ℕ
  burst_iat_of s ts_us = if ltb 0 s.last_arrival_us then sub64 ts_us s.last_arrival_us else 0

  -- The updates of a flow whose pool has been checked.
  unfoldable pub update : Config → System → Call → FlowState D → FlowState D
  unfolding update_ports update_magics update_ip update_tcp update_payload update_iat
  update cfg sys c f =
      let ts_us = time_of cfg c in
      let z = sizes_of c in
      record f {
        ip = update_ip cfg sys c.packet f.ip;
        ports = update_ports cfg sys c.is_ipv4 c.paddr f.ports;
        udp_packets = count_udp c.stream f.udp_packets;
        counters = calc_basic_counters cfg f.counters z.direction z.pkt_len z.payload_len;
        lengths = calc_packet_length_stats cfg f.lengths z.direction z.pkt_len;
        dir_seq = push_if cfg.need_dir_seq f.dir_seq z.direction;
        ts_seq = push_if cfg.need_ts_seq f.ts_seq ts_us;
        l3_len_seq = push_if cfg.need_l3_l4_payload_seq f.l3_len_seq z.l3_len;
        l4_len_seq = push_if cfg.need_l3_l4_payload_seq f.l4_len_seq z.l4_len;
        payload_len_seq = push_if cfg.need_l3_l4_payload_seq f.payload_len_seq z.payload_len;
        iat = update_iat cfg f.iat ts_us z.direction;
        tcp = update_tcp cfg sys c.stream c.packet z ts_us f.tcp;
        udp_len_stats =
            if takes_udp cfg c.stream
            then running_stats_update f.udp_len_stats (d.of_ℕ (add32 z.payload_len 8))
            else f.udp_len_stats;
        udp_len_seq =
            if takes_udp cfg c.stream
            then (push f.udp_len_seq (add32 z.payload_len 8)).1
            else f.udp_len_seq;
        magics = update_magics cfg c.stream c.packet z.payload_len f.magics;
        payload = update_payload cfg sys c.stream c.packet z.payload_len f.payload;
        burst =
            if is_set cfg.enable_burst
            then calc_burst_update cfg f.mem_pool.actual_seq_len f.burst z.pkt_len
                (burst_iat_of f.iat ts_us) ts_us
            else f.burst;
        bigram =
            if is_set cfg.enable_sequence_stats
            then bigram_update f.bigram f.last_pkt_size_class (get_pkt_size_class cfg z.pkt_len)
            else f.bigram;
        last_pkt_size_class =
            if is_set cfg.enable_sequence_stats
            then get_pkt_size_class cfg z.pkt_len
            else f.last_pkt_size_class;
        window =
            if is_set cfg.need_window_update
            then calc_window_update f.window z.pkt_len ts_us
            else f.window;
      }

  -- The branch OP_STATE_DATA, for a flow that has a state.
  unfoldable pub process_data : Config → System → Memory → Call → FlowState D → FlowState D
  unfolding update
  process_data cfg sys m c f = update cfg sys c (grow m (record f { last_pkt_us = time_of cfg c }))
