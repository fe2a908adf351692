-- ===== src/Flow/Stepped.antt =====
-- The updates of lengths and counters keep their arrays and their ring sound.
pub mod Windows
pub mod Rings
pub mod Times
use mathlib.Core.Path.{subst}
use ti_features.Prelude.{
  ℕ, zero, suc, ◌+◌, ◌-◌, ◌*◌, ◌/◌, ◌^◌, ◌≤◌, ◌<◌, ◌&&◌, ◌≡◌, ◌≢◌, refl, ap, sym, ◌∙◌, Bool, true,
  false, Option, none, some, List, [], length, arith, ltb, leb, ◌==◌, if◌then◌else◌, if_both,
  if_field, is_set, Bool-cases, inl, inr, length-set,
}
use ti_features.Double.{Double, zeroed_double}
use ti_features.Config.{Config}
use ti_features.CircularBuffer.{CircularBuffer, Zeroed, push}
use ti_features.MemoryPool.{zeroed_ℕ}
use ti_features.BoundedArray.{BoundedArray, append, append-IsValid}
use ti_features.BoundedArray
use ti_features.FeatureStats.{Direction, fwd, bwd, unknown}
use ti_features.Rings.Rebound.{Holds}
use ti_features.Basic.{
  Counters, Lengths, calc_basic_counters, count_direction, calc_packet_length_stats, count_sizes,
  update_directional, store_direction,
}
use ti_features.Iat.{
  Iat, calc_iat_update, update_later, update_directions, calc_active_idle_time, store_times,
  calc_response_delay,
}
use ti_features.Protocol.{
  Tcp, TcpFlags, Ip, IpHeader, calc_protocol_tcp_update, count_flags, time_rst, update_window,
  check_retransmission, calc_protocol_ip_update,
}
use ti_features.Payload.Stats.{PayloadStats, calc_payload_stats, update_diff}
use ti_features.Window.{
  Window, fill_window, fill_windows, open_first, count_packet, target_window, calc_window_update,
}
use ti_features.Flow.{System, RawPacket, StreamType, tcp, udp, other_stream}
use ti_features.Flow.Packet.{Sizes}
use ti_features.Flow.Data.{push_if, update_iat, update_tcp, update_ip, update_payload}
use ti_features.Flow.Valid.{push-Holds, HasRoom, append-HasRoom, HasWindows}

module _ {D : Type 0} ⦃d : Double D⦄ where
  -- The arrays of packet lengths.
  abbrev pub LengthsRoom : ℕ → Lengths D → Type 0
  LengthsRoom n s =
      HasRoom n s.fwd_pkt_lens × HasRoom n s.bwd_pkt_lens × BoundedArray.IsValid s.first_n_lens

  store_direction-Room :
      (n : ℕ) (s : Lengths D) (direction : Direction) (pkt_len : ℕ)
      → LengthsRoom n s
      → LengthsRoom n (store_direction s direction pkt_len)
        × ((store_direction s direction pkt_len).pkt_len_seq ≡ s.pkt_len_seq)
  unfolding store_direction
  store_direction-Room n s fwd pkt_len (f, b, v) =
      ((append-HasRoom n s.fwd_pkt_lens pkt_len f, b, v), refl)
  store_direction-Room n s bwd pkt_len (f, b, v) =
      ((f, append-HasRoom n s.bwd_pkt_lens pkt_len b, v), refl)
  store_direction-Room n s unknown pkt_len r = (r, refl)

  -- With a given ring of packet lengths.
  abbrev LengthsHave : ℕ → CircularBuffer ℕ → Lengths D → Type 0
  LengthsHave n seq s = LengthsRoom n s × (s.pkt_len_seq ≡ seq)

  -- `calc_packet_length_stats` appends to arrays that have room, and pushes the length onto its ring
  -- where the ring is needed.
  pub lengths-Room :
      (cfg : Config) (n : ℕ) (s : Lengths D) (direction : Direction) (pkt_len : ℕ)
      → LengthsRoom n s
      → LengthsHave n
          (push_if cfg.need_pkt_len_seq s.pkt_len_seq pkt_len)
          (calc_packet_length_stats cfg s direction pkt_len)
  unfolding calc_packet_length_stats count_sizes update_directional
  lengths-Room cfg n s direction pkt_len r =
      let seq = s.pkt_len_seq in
      let next = push_if cfg.need_pkt_len_seq seq pkt_len in
      let need = is_set cfg.need_pkt_len_seq in
      let one = count_sizes cfg s pkt_len in
      let two = update_directional cfg one direction pkt_len in
      let three =
        if need then record two { pkt_len_seq = (push two.pkt_len_seq pkt_len).1 } else two in
      let first_n = is_set cfg.need_first_n && three.first_n_is_set in
      let four =
        if first_n
        then record three { first_n_lens = append three.first_n_lens pkt_len }
        else three in
      let r1 =
        if_both (LengthsHave n seq) (is_set cfg.enable_basic_pkt_length) _ s (r, refl) (r, refl) in
      let r2 = if_both (LengthsHave n seq) (is_set cfg.need_fwd_bwd_pkt_lens) _ one r1 r1 in
      let r3 : LengthsHave n next three = (
        if_both (LengthsRoom n) need _ two (r2.0) (r2.0),
        if_field (λ t. t.pkt_len_seq) need _ two
            ∙ ap (λ q. if need then (push q pkt_len).1 else q) (r2.1),
      ) in
      let r4 =
        if_both (LengthsHave n next) first_n _ three
          ((r3.0.0, r3.0.1, (append-IsValid three.first_n_lens pkt_len (r3.0.2)).0), r3.1) r3 in
      let (r5, same) = store_direction-Room n four direction pkt_len (r4.0) in
      if_both (LengthsHave n next) (is_set cfg.need_fwd_bwd_pkt_lens) _ four (r5, same ∙ r4.1) r4

  -- The arrays of payload sizes.
  abbrev pub CountersRoom : ℕ → Counters D → Type 0
  CountersRoom n s = HasRoom n s.fwd_payload_sizes × HasRoom n s.bwd_payload_sizes

  count_direction-Room :
      (cfg : Config) (n : ℕ) (s : Counters D) (direction : Direction) (pkt_len payload_len : ℕ)
      → CountersRoom n s
      → CountersRoom n (count_direction cfg s direction pkt_len payload_len)
  unfolding count_direction
  count_direction-Room cfg n s fwd pkt_len payload_len (f, b) =
      if_both (CountersRoom n) (is_set cfg.need_payload_dir && ltb 0 payload_len) _ _
        (append-HasRoom n s.fwd_payload_sizes payload_len f, b) (f, b)
  count_direction-Room cfg n s bwd pkt_len payload_len (f, b) =
      if_both (CountersRoom n) (is_set cfg.need_payload_dir && ltb 0 payload_len) _ _
        (f, append-HasRoom n s.bwd_payload_sizes payload_len b) (f, b)
  count_direction-Room cfg n s unknown pkt_len payload_len r = r

  pub counters-Room :
      (cfg : Config) (n : ℕ) (s : Counters D) (direction : Direction) (pkt_len payload_len : ℕ)
      → CountersRoom n s
      → CountersRoom n (calc_basic_counters cfg s direction pkt_len payload_len)
  unfolding calc_basic_counters
  counters-Room cfg n s direction pkt_len payload_len r =
      count_direction-Room cfg n _ direction pkt_len payload_len r
