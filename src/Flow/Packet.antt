-- ===== src/Flow/Packet.antt =====
-- src/ti_features.cpp, the first part of `traffic_process`: the time and the lengths of a packet.
use mathlib.Core.Path.{ap₂}
use ti_features.Prelude.{
  ℕ, ◌+◌, ◌*◌, ◌%◌, ◌^◌, ◌≤◌, ◌<◌, ◌≡◌, ◌∙◌, Bool, true, false, Option, none, some, add32, add64,
  mul64, sub32, leb, ◌==◌, if◌then◌else◌, arith,
}
use ti_features.Config.{Config}
use ti_features.FeatureStats.{Direction, unknown}
use ti_features.Flow.{
  tcp, udp, other_stream, OpState, pending, RawType, mac, vlan, mac_in_mac, other_type, Call,
}

-- `ts_us`
unfoldable pub time_of : Config → Call → ℕ
time_of cfg c =
    if cfg.run_mode == 0 then add64 (mul64 c.tv_sec 1000000) c.tv_usec else mul64 c.platform_ms 1000

-- The local variables of `traffic_process` on lengths and the direction.
pub record Sizes : Type 0 where
  pub pkt_len : ℕ
  pub payload_len : ℕ
  pub l3_len : ℕ
  pub l4_len : ℕ
  pub direction : Direction

-- `datalen`, or 0 where there is no detail.
abbrev pub datalen_of : Call → ℕ
datalen_of c = elim c.datalen [ none ↦ 0 | some n ↦ n ]

-- The lengths from the headers, by the type of the stream.
unfoldable pub header_sizes : Call → Sizes
header_sizes c =
    let payload_len = datalen_of c in
    elim c.stream [
      | tcp ↦ elim c.packet [
        | none ↦ record {
          pkt_len = payload_len;
          payload_len = payload_len;
          l3_len = 0;
          l4_len = 0;
          direction = c.curdir;
        }
        | some p ↦ record {
          pkt_len = add32 (add32 payload_len (p.ihl * 4)) (p.doff * 4);
          payload_len = payload_len;
          l3_len = p.ihl * 4;
          l4_len = p.doff * 4;
          direction = c.curdir;
        }
      ]
      | udp ↦
          let l3_len : ℕ = elim c.packet [ none ↦ 0 | some p ↦ p.ihl * 4 ] in
          record {
            pkt_len = add32 (add32 payload_len 8) l3_len;
            payload_len = payload_len;
            l3_len = l3_len;
            l4_len = 8;
            direction = c.curdir;
          }
      | other_stream ↦ record {
        pkt_len = 0;
        payload_len = 0;
        l3_len = 0;
        l4_len = 0;
        direction = unknown;
      }
    ]

-- Whether a raw packet of this type starts with its header of layer 2.
abbrev pub starts_at_l2 : RawType → Bool
starts_at_l2 mac = true
starts_at_l2 vlan = true
starts_at_l2 mac_in_mac = true
starts_at_l2 other_type = false

-- `<=` on two int values, given by their bits.
abbrev pub int_leb : ℕ → ℕ → Bool
int_leb a b = leb ((a + 2 ^ 31) % 2 ^ 32) ((b + 2 ^ 31) % 2 ^ 32)

-- The header of layer 2 is added to `pkt_len` where it is known.
unfoldable pub add_l2 : Sizes → Option ℕ → Option RawType → Sizes
add_l2 s none t = s
add_l2 s (some raw_tot_len) none = s
add_l2 s (some raw_tot_len) (some t) =
    let sum = add32 (add32 s.l3_len s.l4_len) s.payload_len in
    if starts_at_l2 t
    then (if int_leb sum raw_tot_len
        then record s { pkt_len = add32 s.pkt_len (sub32 raw_tot_len sum) }
        else s)
    else s

-- The lengths of the packet.
unfoldable pub sizes_of : Call → Sizes
unfolding header_sizes add_l2
sizes_of c = add_l2 (header_sizes c) c.raw_tot_len c.raw_pkt_type

-- The state of the stream that the switch is on. It is 0, which is OP_STATE_PENDING, for a stream
-- that is neither TCP nor UDP.
unfoldable pub state_flag : Call → OpState
state_flag c = elim c.stream [ tcp ↦ c.pktstate | udp ↦ c.opstate | other_stream ↦ pending ]

-- The length that the headers give is what they and the payload have together.
header_sizes-sum :
    (c : Call)
    → datalen_of c < 2 ^ 32
    → let s = header_sizes c in s.pkt_len ≡ add32 (add32 s.l3_len s.l4_len) s.payload_len
unfolding header_sizes
header_sizes-sum c h = ground arith

add_l2-pkt_len :
    (s : Sizes) (raw_tot_len : ℕ) (t : RawType)
    → s.pkt_len ≡ add32 (add32 s.l3_len s.l4_len) s.payload_len
    → starts_at_l2 t ≡ true
    → s.l3_len + s.l4_len + s.payload_len ≤ raw_tot_len
    → raw_tot_len < 2 ^ 31
    → (add_l2 s (some raw_tot_len) (some t)).pkt_len ≡ raw_tot_len
unfolding add_l2
add_l2-pkt_len s raw_tot_len t whole l2 fits small =
    let sum = add32 (add32 s.l3_len s.l4_len) s.payload_len in
    let below : int_leb sum raw_tot_len ≡ true = ground arith in rw (l2, below) (omega arith)

-- When the platform knows a packet's total length and that it starts with a header of layer 2, and
-- that length, an int that is not negative, is not below what the headers of layers 3 and 4 and the
-- payload have together, `pkt_len` is the total length, whatever the type of the stream.
pub sizes_of-pkt_len :
    (c : Call) (raw_tot_len : ℕ) (t : RawType)
    → datalen_of c < 2 ^ 32
    → c.raw_tot_len ≡ some raw_tot_len
    → c.raw_pkt_type ≡ some t
    → starts_at_l2 t ≡ true
    → let s = header_sizes c in
      s.l3_len + s.l4_len + s.payload_len ≤ raw_tot_len
      → raw_tot_len < 2 ^ 31
      → (sizes_of c).pkt_len ≡ raw_tot_len
unfolding sizes_of
sizes_of-pkt_len c raw_tot_len t h e k l2 fits small =
    ap₂ (λ o p. (add_l2 (header_sizes c) o p).pkt_len) e k
    ∙ add_l2-pkt_len (header_sizes c) raw_tot_len t (header_sizes-sum c h) l2 fits small
