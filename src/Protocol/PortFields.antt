-- ===== src/Protocol/PortFields.antt =====
-- src/calc_protocol.cpp, `calc_derived_protocol`: the fields of the ports and addresses, and all
-- parts of the function.
use ti_features.Prelude.{
  ℕ, Bool, ◌&&◌, ◌||◌, List, [], ◌∷◌, ◌++◌, add64, ltb, leb, ◌==◌, if◌then◌else◌, is_set,
}
use ti_features.Double.{Double}
use ti_features.Config.{Config}
use ti_features.Output.{Fields, text, label}
use ti_features.Protocol.Services.{port_to_protocol}
use ti_features.Protocol.Derived.{
  Copies, service_text, src_range_of, ratio, tcp_flag_fields, tcp_window_fields, ip_fields,
  udp_fields,
}
use ti_features.Flow.{FlowState}

abbrev pub is_ephemeral : ℕ → Bool
is_ephemeral port = leb 1024 port && leb port 65535

module _ {D : Type 0} ⦃d : Double D⦄ where
  abbrev flag : Bool → D
  flag b = if b then d.of_ℕ 1 else d.of_ℕ 0

  -- The rates and the fields of addresses and ports up to the names of protocols.
  unfoldable pub address_fields : FlowState D → Fields D
  unfolding ratio
  address_fields f =
      let s = f.tcp in
      let p = f.ports in
      let total = f.counters.total_packets in
      label
        ("avg_retransmission_rate" ∷ "rst_trigger_interval" ∷ "src_ip_is_private"
          ∷ "dst_ip_is_private" ∷ "ip_fragmentation_flag" ∷ "src_port_is_ephemeral"
          ∷ "dst_port_is_ephemeral" ∷ "well_known_dst_port_ratio" ∷ "well_known_src_port_ratio"
          ∷ "unique_src_ports" ∷ "unique_dst_ports" ∷ "is_common_service" ∷ "quic_usage_flag" ∷ [])
        (ratio s.tcp_retransmission_count s.tcp_payload_packets
          ∷ (if ltb 0 s.rst_interval_count
              then d.div (d.div (d.of_ℕ s.rst_interval_sum_us) (d.of_ℕ s.rst_interval_count))
                  (d.of_ℕ 1000000)
              else d.of_ℕ 0)
          ∷ flag f.ip.src_ip_is_private
          ∷ flag f.ip.dst_ip_is_private
          ∷ flag (ltb 0 f.ip.ip_frag_count)
          ∷ flag (is_ephemeral p.src_port)
          ∷ flag (is_ephemeral p.dst_port)
          ∷ ratio p.well_known_dst_count total
          ∷ ratio p.well_known_src_count total
          ∷ d.of_ℕ p.unique_src_ports
          ∷ d.of_ℕ p.unique_dst_ports
          ∷ flag (ltb p.dst_port 1024 || ltb p.src_port 1024)
          ∷ flag (p.dst_port == 443)
          ∷ [])

  -- The names, and the fields that are kept for older readers.
  unfoldable pub name_fields : FlowState D → Fields D
  unfolding src_range_of
  name_fields f =
      let s = f.tcp in
      let p = f.ports in
      let c = f.counters in
      ("src_port_protocol", text (service_text (port_to_protocol p.src_port)))
      ∷ ("src_port_range", text (src_range_of p.src_port))
      ∷ ("dst_port_protocol", text (service_text (port_to_protocol p.dst_port)))
      ∷ label
          ("tcpackfaultcnt" ∷ "tcpbflgtmx" ∷ "tcpflwlssackrcvdbytes" ∷ "tcpiseqn" ∷ "tcpinitwinsz"
            ∷ "tcppackcnt" ∷ "tcppseqcnt" ∷ "tcpseqfaultcnt" ∷ "tcpseqsntbytes" ∷ [])
          (d.of_ℕ 0
            ∷ d.of_ℕ 0
            ∷ d.of_ℕ 0
            ∷ d.of_ℕ s.last_fwd_seq
            ∷ (if ltb 0 s.tcp_window_stats.count then s.tcp_window_stats.mean else d.of_ℕ 0)
            ∷ d.of_ℕ s.tcp_ack_count
            ∷ d.of_ℕ s.tcp_packets
            ∷ d.of_ℕ s.tcp_retransmission_count
            ∷ d.of_ℕ (add64 c.fwd_payload_bytes c.bwd_payload_bytes)
            ∷ [])

  -- `calc_derived_protocol`, with the allocations for each of the four rings.
  unfoldable pub calc_derived_protocol :
      Config → (List ℕ → List ℕ) → Copies → Copies → Copies → Copies → FlowState D → Fields D
  unfolding tcp_flag_fields tcp_window_fields ip_fields udp_fields address_fields name_fields
  calc_derived_protocol cfg qsort has_windows has_ttl has_tos has_lens f =
      (if is_set cfg.enable_protocol_tcp_flags then tcp_flag_fields f else [])
      ++ ((if is_set cfg.enable_protocol_tcp_window
            then tcp_window_fields qsort has_windows f.tcp
            else [])
          ++ ((if is_set cfg.enable_protocol_ip then ip_fields qsort has_ttl has_tos f.ip else [])
              ++ ((if is_set cfg.enable_protocol_udp
                    then udp_fields qsort has_lens f.udp_len_stats f.udp_len_seq
                    else [])
                  ++ (if is_set cfg.enable_protocol_port
                      then address_fields f ++ name_fields f
                      else []))))
