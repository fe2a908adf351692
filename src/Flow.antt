-- ===== src/Flow.antt =====
-- src/ti_features.cpp and src/feat_state.h: the state of a flow, as the components' states together,
-- and what a call of the traffic processor is given.
-- The code's `mem_pool` is not null in a flow's state, as a state whose set-up failed is freed.
pub mod Packet
pub mod Init
pub mod Grow
pub mod Data
pub mod Process
pub mod Output
pub mod Entries
pub mod Valid
pub mod Started
pub mod Grown
pub mod Stepped
pub mod Processed
pub mod Reach
pub mod Life
pub mod History
use ti_features.Prelude.{ℕ, Bool, Option, List}
use ti_features.CircularBuffer.{CircularBuffer, Zeroed}
use ti_features.MemoryPool.{Pool}
use ti_features.Rings.{TempBuffers}
use ti_features.FeatureStats.{RunningStats, Direction, unknown, SizeClass, BigramStats}
use ti_features.Basic.{Counters, Lengths}
use ti_features.Iat.{Iat}
use ti_features.Burst.{Burst}
use ti_features.Window.{Window}
use ti_features.Protocol.{Tcp, Ip, Ports, IpHeader, TcpFlags}
use ti_features.Payload.{Magics}
use ti_features.Payload.Stats.{PayloadStats}

-- `flow_feature_state_t`, without the fields that no modelled code reads. A `signed char` of
-- `dir_seq`, which is 1, -1 or 0, is the direction it stands for.
pub record FlowState (D : Type 0) : Type 0 where
  pub flow_start_us : ℕ
  pub last_pkt_us : ℕ
  pub udp_packets : ℕ
  pub mem_pool : Pool D
  pub temp : TempBuffers
  pub counters : Counters D
  pub lengths : Lengths D
  pub iat : Iat D
  pub tcp : Tcp D
  pub ip : Ip D
  pub ports : Ports
  pub payload : PayloadStats D
  pub magics : Magics
  pub burst : Burst
  pub window : Window
  pub bigram : BigramStats
  pub last_pkt_size_class : SizeClass
  pub udp_len_stats : RunningStats D
  pub dir_seq : CircularBuffer Direction
  pub ts_seq : CircularBuffer ℕ
  pub udp_len_seq : CircularBuffer ℕ
  pub l3_len_seq : CircularBuffer ℕ
  pub l4_len_seq : CircularBuffer ℕ
  pub payload_len_seq : CircularBuffer ℕ

instance abbrev pub zeroed_direction : Zeroed Direction
zeroed_direction = record { zeroed = unknown }

-- The `stream_type` of a call.
pub data StreamType : Type 0 where
  tcp udp other_stream : StreamType

-- The states of a stream that the platform reports: OP_STATE_PENDING, OP_STATE_DATA and
-- OP_STATE_CLOSE, and any other number.
pub data OpState : Type 0 where
  pending data_state close other_state : OpState

-- The types of a raw packet: ADDR_TYPE_MAC, ADDR_TYPE_VLAN and ADDR_TYPE_MAC_IN_MAC, and any other.
pub data RawType : Type 0 where
  mac vlan mac_in_mac other_type : RawType

-- What stands in a packet: its bytes, and the fields of `struct iphdr` at its start and of
-- `struct tcphdr` behind the IP header that are read.
pub record RawPacket : Type 0 where
  pub bytes : List ℕ
  pub ihl : ℕ
  pub iph : IpHeader
  pub doff : ℕ
  pub flags : TcpFlags
  pub window : ℕ
  pub seq : ℕ

-- The arguments of `traffic_process`, with what the platform answers it. `packet` is `a_packet`,
-- `datalen` that of `ptcpdetail` or `pudpdetail`, and `paddr` the ports of the address; each is
-- `none` where the pointer is null. `raw_tot_len` and `raw_pkt_type` are `none` where the query
-- fails. An int is the unsigned int of its bits.
pub record Call : Type 0 where
  pub stream : StreamType
  pub packet : Option RawPacket
  pub datalen : Option ℕ
  pub curdir : Direction
  pub pktstate : OpState
  pub opstate : OpState
  pub is_ipv4 : Bool
  pub paddr : Option (ℕ × ℕ)
  pub tv_sec : ℕ
  pub tv_usec : ℕ
  pub platform_ms : ℕ
  pub raw_tot_len : Option ℕ
  pub raw_pkt_type : Option RawType

-- Which allocations succeed: of the state, of `first_n_lens`, of the pool and its block, of a larger
-- block, and of the snapshots of the thirteen rings in their order.
pub record Memory : Type 0 where
  pub has_state : Bool
  pub has_first_n : Bool
  pub has_pool : Bool
  pub has_block : Bool
  pub has_larger : Bool
  pub has_snapshot : ℕ → Bool

-- The functions of the system and of zlib that the code calls for each packet.
pub record System : Type 0 where
  pub htons : ℕ → ℕ
  pub ntohs : ℕ → ℕ
  pub ntohl : ℕ → ℕ
  pub isalnum : ℕ → Bool
  pub compress : List ℕ → Option ℕ

-- The rings of a flow in the order in which they lie in the pool, where the code goes over all.
pub record SeqRings : Type 0 where
  pub pkt_len_seq : CircularBuffer ℕ
  pub iat_seq : CircularBuffer ℕ
  pub dir_seq : CircularBuffer Direction
  pub ts_seq : CircularBuffer ℕ
  pub tcp_window_seq : CircularBuffer ℕ
  pub udp_len_seq : CircularBuffer ℕ
  pub ip_ttl_seq : CircularBuffer ℕ
  pub ip_tos_seq : CircularBuffer ℕ
  pub payload_size_seq : CircularBuffer ℕ
  pub payload_size_diff_seq : CircularBuffer ℕ
  pub l3_len_seq : CircularBuffer ℕ
  pub l4_len_seq : CircularBuffer ℕ
  pub payload_len_seq : CircularBuffer ℕ

abbrev pub rings_of : {D : Type 0} → FlowState D → SeqRings
rings_of f = record {
  pkt_len_seq = f.lengths.pkt_len_seq;
  iat_seq = f.iat.iat_seq;
  dir_seq = f.dir_seq;
  ts_seq = f.ts_seq;
  tcp_window_seq = f.tcp.tcp_window_seq;
  udp_len_seq = f.udp_len_seq;
  ip_ttl_seq = f.ip.ip_ttl_seq;
  ip_tos_seq = f.ip.ip_tos_seq;
  payload_size_seq = f.payload.size_seq;
  payload_size_diff_seq = f.payload.size_diff_seq;
  l3_len_seq = f.l3_len_seq;
  l4_len_seq = f.l4_len_seq;
  payload_len_seq = f.payload_len_seq;
}
