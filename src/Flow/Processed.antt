-- ===== src/Flow/Processed.antt =====
-- A packet leaves the state of its flow sound, and each ring gains what the packet gives to it.
use mathlib.Core.Path.{subst}
use ti_features.Prelude.{
  ℕ, ◌+◌, ◌≡◌, refl, sym, ap, ◌∙◌, Bool, true, false, List, add32, if◌then◌else◌, if_both, is_set,
}
use ti_features.Double.{Double, zeroed_double}
use ti_features.Config.{Config}
use ti_features.CircularBuffer.{CircularBuffer, push}
use ti_features.MemoryPool.{zeroed_ℕ, rank, check_upgrade}
use ti_features.Burst.Records
use ti_features.Burst.Records.{calc_burst_update-IsValid}
use ti_features.Rings.Rebound.{Holds}
use ti_features.Flow.{FlowState, Memory, System, Call, zeroed_direction}
use ti_features.Flow.Packet.{sizes_of, time_of}
use ti_features.Flow.Grow.{shared_pool, stored_arrays, grow}
use ti_features.Flow.Data.{takes_udp, update, process_data}
use ti_features.Flow.Valid.{
  pushed, gained, push-Holds, push_if-Holds, Sequences, HasWindows, Represents,
}
use ti_features.Flow.Stepped.{lengths-Room, counters-Room}
use ti_features.Flow.Stepped.Times.{iat_of, iat-Room}
use ti_features.Flow.Stepped.Rings.{
  window_of, ip_of, payload_size_of, size_diff_of, tcp-Ring, ip-Rings, payload-Rings,
}
use ti_features.Flow.Stepped.Windows.{window-HasWindows}
use ti_features.Flow.Grown.Gifts.{grow-kept}
use ti_features.Flow.Grown.Rings.{survivors}
use ti_features.Flow.Grown.{moves, grow-Represents}

-- What each of the thirteen rings gains from a packet, for rings of a capacity: `f` is the state of the
-- flow before the packet, `h` what the rings hold before the push, and `new` what they hold after it.
abbrev pub Follows :
    {D : Type 0} ⦃d : Double D⦄
    → Config
    → System
    → Call
    → FlowState D
    → ℕ
    → Sequences
    → Sequences
    → Type 0
Follows cfg sys c f n h new =
    let z = sizes_of c in
    let ts_us = time_of cfg c in
    let size = payload_size_of cfg c.stream c.packet z.payload_len in
    (new.pkt_len ≡ pushed (is_set cfg.need_pkt_len_seq) n h.pkt_len z.pkt_len)
    × (new.dir ≡ pushed (is_set cfg.need_dir_seq) n h.dir z.direction)
    × (new.ts ≡ pushed (is_set cfg.need_ts_seq) n h.ts ts_us)
    × (new.l3_len ≡ pushed (is_set cfg.need_l3_l4_payload_seq) n h.l3_len z.l3_len)
    × (new.l4_len ≡ pushed (is_set cfg.need_l3_l4_payload_seq) n h.l4_len z.l4_len)
    × (new.payload_len ≡ pushed (is_set cfg.need_l3_l4_payload_seq) n h.payload_len z.payload_len)
    × (new.udp_len ≡ pushed (takes_udp cfg c.stream) n h.udp_len (add32 z.payload_len 8))
    × (new.iat ≡ gained n h.iat (iat_of cfg f.iat.last_arrival_us ts_us))
    × (new.tcp_window ≡ gained n h.tcp_window (window_of cfg sys c.stream c.packet))
    × (new.ip_ttl ≡ gained n h.ip_ttl (ip_of cfg (λ i. i.ttl) c.packet))
    × (new.ip_tos ≡ gained n h.ip_tos (ip_of cfg (λ i. i.tos) c.packet))
    × (new.payload_size ≡ gained n h.payload_size size)
    × (new.payload_size_diff ≡ gained n h.payload_size_diff (size_diff_of f.payload size))

pushed-Holds :
    (test : Bool) (n size : ℕ) (cb : CircularBuffer ℕ) (xs : List ℕ) (x : ℕ)
    → Holds n size cb xs
    → Holds n size (if test then (push cb x).1 else cb) (pushed test n xs x)
pushed-Holds true n size cb xs x h = push-Holds n size cb xs x h
pushed-Holds false n size cb xs x h = h

module _ {D : Type 0} ⦃d : Double D⦄ where
  update-Represents :
      (cfg : Config) (sys : System) (c : Call) (f : FlowState D) (h : Sequences)
      → Represents f h
      → (new : Sequences) × Represents (update cfg sys c f) new
        × Follows cfg sys c f f.mem_pool.actual_seq_len h new
  unfolding update
  update-Represents cfg sys c f h v =
      let n = f.mem_pool.actual_seq_len in
      let ts_us = time_of cfg c in
      let z = sizes_of c in
      let rings = v.rings in
      let room = v.room in
      let (lengths, seq) =
        lengths-Room cfg n f.lengths z.direction z.pkt_len
          (room.fwd_pkt_lens_room, room.bwd_pkt_lens_room, room.first_n_room) in
      let counters =
        counters-Room cfg n f.counters z.direction z.pkt_len z.payload_len
          (room.fwd_payload_sizes_room, room.bwd_payload_sizes_room) in
      let (fwd_iats, bwd_iats, delays, iat_ring) = iat-Room cfg n h.iat f.iat ts_us z.direction (
        room.fwd_iats_room,
        room.bwd_iats_room,
        (room.resp_delays_valid, room.resp_delays_eq),
        rings.iat_holds,
      ) in
      let window_ring =
        tcp-Ring cfg sys c.stream c.packet z ts_us n h.tcp_window f.tcp rings.tcp_window_holds in
      let (ttl_ring, tos_ring) =
        ip-Rings cfg sys c.packet n h.ip_ttl h.ip_tos f.ip
          (rings.ip_ttl_holds, rings.ip_tos_holds) in
      let (size_ring, diff_ring) =
        payload-Rings cfg sys c.stream c.packet z.payload_len n h.payload_size h.payload_size_diff
          f.payload (rings.payload_size_holds, rings.payload_size_diff_holds) in
      let size = payload_size_of cfg c.stream c.packet z.payload_len in
      let on = is_set cfg.need_pkt_len_seq in
      (
        record {
          pkt_len = pushed on n h.pkt_len z.pkt_len;
          iat = gained n h.iat (iat_of cfg f.iat.last_arrival_us ts_us);
          dir = pushed (is_set cfg.need_dir_seq) n h.dir z.direction;
          ts = pushed (is_set cfg.need_ts_seq) n h.ts ts_us;
          tcp_window = gained n h.tcp_window (window_of cfg sys c.stream c.packet);
          udp_len = pushed (takes_udp cfg c.stream) n h.udp_len (add32 z.payload_len 8);
          ip_ttl = gained n h.ip_ttl (ip_of cfg (λ i. i.ttl) c.packet);
          ip_tos = gained n h.ip_tos (ip_of cfg (λ i. i.tos) c.packet);
          payload_size = gained n h.payload_size size;
          payload_size_diff = gained n h.payload_size_diff (size_diff_of f.payload size);
          l3_len = pushed (is_set cfg.need_l3_l4_payload_seq) n h.l3_len z.l3_len;
          l4_len = pushed (is_set cfg.need_l3_l4_payload_seq) n h.l4_len z.l4_len;
          payload_len = pushed (is_set cfg.need_l3_l4_payload_seq) n h.payload_len z.payload_len;
        },
        record {
          pool_valid = v.pool_valid;
          windows_eq = v.windows_eq;
          delays_eq = v.delays_eq;
          rings = record {
            pkt_len_holds =
                subst (λ q. Holds n 4 q (pushed on n h.pkt_len z.pkt_len)) (sym seq)
                  (push_if-Holds cfg.need_pkt_len_seq n 4 f.lengths.pkt_len_seq h.pkt_len z.pkt_len
                    rings.pkt_len_holds);
            iat_holds = iat_ring;
            dir_holds =
                push_if-Holds cfg.need_dir_seq n 1 f.dir_seq h.dir z.direction rings.dir_holds;
            ts_holds = push_if-Holds cfg.need_ts_seq n 8 f.ts_seq h.ts ts_us rings.ts_holds;
            tcp_window_holds = window_ring;
            udp_len_holds =
                pushed-Holds (takes_udp cfg c.stream) n 4 f.udp_len_seq h.udp_len
                  (add32 z.payload_len 8) rings.udp_len_holds;
            ip_ttl_holds = ttl_ring;
            ip_tos_holds = tos_ring;
            payload_size_holds = size_ring;
            payload_size_diff_holds = diff_ring;
            l3_len_holds =
                push_if-Holds cfg.need_l3_l4_payload_seq n 4 f.l3_len_seq h.l3_len z.l3_len
                  rings.l3_len_holds;
            l4_len_holds =
                push_if-Holds cfg.need_l3_l4_payload_seq n 4 f.l4_len_seq h.l4_len z.l4_len
                  rings.l4_len_holds;
            payload_len_holds =
                push_if-Holds cfg.need_l3_l4_payload_seq n 4 f.payload_len_seq h.payload_len
                  z.payload_len rings.payload_len_holds;
          };
          room = record {
            fwd_payload_sizes_room = counters.0;
            bwd_payload_sizes_room = counters.1;
            fwd_pkt_lens_room = lengths.0;
            bwd_pkt_lens_room = lengths.1;
            fwd_iats_room = fwd_iats;
            bwd_iats_room = bwd_iats;
            first_n_room = lengths.2;
            resp_delays_valid = delays.0;
            resp_delays_eq = delays.1;
            burst_room =
                if_both (Records.IsValid n) (is_set cfg.enable_burst) _ f.burst
                  (calc_burst_update-IsValid cfg n f.burst z.pkt_len _ ts_us room.burst_room)
                  room.burst_room;
            windows_room =
                if_both (HasWindows 100) (is_set cfg.need_window_update) _ f.window
                  (window-HasWindows 100 f.window z.pkt_len ts_us room.windows_room)
                  room.windows_room;
          };
        },
        (refl, refl, refl, refl, refl, refl, refl, refl, refl, refl, refl, refl, refl),
      )

  pub retimed-Represents :
      (f : FlowState D) (h : Sequences) (start last : ℕ)
      → Represents f h
      → Represents (record f { flow_start_us = start; last_pkt_us = last }) h
  retimed-Represents f h start last v = record {
    pool_valid = v.pool_valid;
    windows_eq = v.windows_eq;
    delays_eq = v.delays_eq;
    rings = v.rings;
    room = record {
      fwd_payload_sizes_room = v.room.fwd_payload_sizes_room;
      bwd_payload_sizes_room = v.room.bwd_payload_sizes_room;
      fwd_pkt_lens_room = v.room.fwd_pkt_lens_room;
      bwd_pkt_lens_room = v.room.bwd_pkt_lens_room;
      fwd_iats_room = v.room.fwd_iats_room;
      bwd_iats_room = v.room.bwd_iats_room;
      first_n_room = v.room.first_n_room;
      resp_delays_valid = v.room.resp_delays_valid;
      resp_delays_eq = v.room.resp_delays_eq;
      burst_room = v.room.burst_room;
      windows_room = v.room.windows_room;
    };
  }

  -- What a packet gives is the same for the flow before its move.
  before-Follows :
      (cfg : Config) (sys : System) (m : Memory) (c : Call) (f : FlowState D) (n : ℕ)
      (h new : Sequences)
      → Follows cfg sys c (grow m (record f { last_pkt_us = time_of cfg c })) n h new
      → Follows cfg sys c f n h new
  before-Follows cfg sys m c f n h new (a1, a2, a3, a4, a5, a6, a7, iat, a9, a10, a11, a12, diff) =
      let (last, same) = grow-kept m (record f { last_pkt_us = time_of cfg c }) in
      let size = payload_size_of cfg c.stream c.packet (sizes_of c).payload_len in
      (
        a1,
        a2,
        a3,
        a4,
        a5,
        a6,
        a7,
        iat ∙ ap (λ l. gained n h.iat (iat_of cfg l (time_of cfg c))) last,
        a9,
        a10,
        a11,
        a12,
        diff ∙ ap (gained n h.payload_size_diff) (same size),
      )

  -- A packet's updates leave a sound state: the pool is laid out for its level, every array and ring
  -- has the room that the level gives, and of a flow that moved each ring first holds what its
  -- snapshot kept. On top of that each of the thirteen rings gains, up to its capacity, exactly the
  -- value that the packet gives to it, where the configuration and the packet call for one, and is
  -- left as it was otherwise. The level is the next one if the flow moved and the same otherwise, and
  -- the count of packets is the one that the check leaves.
  pub process_data-Represents :
      (cfg : Config) (sys : System) (m : Memory) (c : Call) (f : FlowState D) (h : Sequences)
      → Represents f h
      → let f' = process_data cfg sys m c f in
        (new : Sequences) × Represents f' new
        × Follows cfg sys c f f'.mem_pool.actual_seq_len
            (if moves m f then survivors m.has_snapshot h else h)
            new
        × (rank f'.mem_pool.level
            ≡ (if moves m f then rank f.mem_pool.level + 1 else rank f.mem_pool.level))
        × (f'.mem_pool.current_pkt_count ≡ (check_upgrade (shared_pool f)).1.current_pkt_count)
  unfolding process_data update stored_arrays
  process_data-Represents cfg sys m c f h v =
      let timed = record f { last_pkt_us = time_of cfg c } in
      let (sound, level, count) =
        grow-Represents m timed h (retimed-Represents f h f.flow_start_us (time_of cfg c) v) in
      let (new, represents, follows) =
        update-Represents cfg sys c (grow m timed)
          (if moves m f then survivors m.has_snapshot h else h) sound in
      (new, represents, before-Follows cfg sys m c f _ _ new follows, level, count)
