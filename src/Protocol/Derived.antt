-- ===== src/Protocol/Derived.antt =====
-- src/calc_protocol.cpp, `calc_derived_protocol`: the fields of the protocol headers.
use Prim.Native.String.{String}
use ti_features.Prelude.{
  ℕ, Bool, Option, none, some, List, [], ◌∷◌, ◌++◌, add32, sub32, ltb, ◌==◌, if◌then◌else◌,
}
use ti_features.Double.{Double}
use ti_features.CircularBuffer.{CircularBuffer, get_array}
use ti_features.MemoryPool.{zeroed_ℕ}
use ti_features.FeatureStats.{RunningStats}
use ti_features.FeatureStats.Derived.{running_stats_std, running_stats_skew, running_stats_kurt}
use ti_features.StatsUtils.{calc_median_uint, calc_percentile_uint, copy_and_sort}
use ti_features.Output.{Fields, label}
use ti_features.Protocol.{Tcp, Ip}
use ti_features.Protocol.Services.{
  Service, ftp_data, ftp, ssh, telnet, smtp, dns, http, pop3, imap, https, smtps, submission, imaps,
  pop3s, mysql, rdp, postgresql, redis, http_alt, https_alt, unknown_service,
}
use ti_features.Flow.{FlowState}

-- Which allocations succeed for a ring: the array and its sorted copy.
pub record Copies : Type 0 where
  pub has_array : Bool
  pub has_sorted : Bool

-- The strings of `port_to_protocol`.
abbrev pub service_text : Service → String
service_text ftp_data = "FTP-DATA"
service_text ftp = "FTP"
service_text ssh = "SSH"
service_text telnet = "TELNET"
service_text smtp = "SMTP"
service_text dns = "DNS"
service_text http = "HTTP"
service_text pop3 = "POP3"
service_text imap = "IMAP"
service_text https = "HTTPS"
service_text smtps = "SMTPS"
service_text submission = "SUBMISSION"
service_text imaps = "IMAPS"
service_text pop3s = "POP3S"
service_text mysql = "MYSQL"
service_text rdp = "RDP"
service_text postgresql = "POSTGRESQL"
service_text redis = "REDIS"
service_text http_alt = "HTTP-ALT"
service_text https_alt = "HTTPS-ALT"
service_text unknown_service = "UNKNOWN"

-- `src_range`
unfoldable pub src_range_of : ℕ → String
src_range_of port =
    if ltb port 1024 then "well_known" else (if ltb port 49152 then "registered" else "dynamic")

-- How many values of a list are a number.
unfoldable pub count_equal : ℕ → List ℕ → ℕ
count_equal n [] = 0
count_equal n (v ∷ values) =
    let rest = count_equal n values in if v == n then add32 rest 1 else rest

module _ {D : Type 0} ⦃d : Double D⦄ where
  abbrev flag : Bool → D
  flag b = if b then d.of_ℕ 1 else d.of_ℕ 0

  -- `(double)a / b`, or 0 where `b` is 0.
  unfoldable pub ratio : ℕ → ℕ → D
  ratio a b = if ltb 0 b then d.div (d.of_ℕ a) (d.of_ℕ b) else d.of_ℕ 0

  -- The six numbers of online statistics.
  abbrev pub stats_values : RunningStats D → List D
  stats_values s =
      s.mean
      ∷ running_stats_std s
      ∷ s.min_val
      ∷ s.max_val
      ∷ running_stats_skew s
      ∷ running_stats_kurt s
      ∷ []

  -- The median and the quartiles of an array, where there is memory for its sorted copy.
  unfoldable pub quartile_fields : List String → Option (List ℕ) → Fields D
  quartile_fields keys none = []
  quartile_fields keys (some sorted) = label keys (
      d.of_ℕ (calc_median_uint sorted)
      ∷ d.of_ℕ (calc_percentile_uint sorted (d.of_ℕ 25))
      ∷ d.of_ℕ (calc_percentile_uint sorted (d.of_ℕ 75))
      ∷ [])

  -- The fields of the array of a ring.
  unfoldable pub array_fields :
      (List ℕ → List ℕ) → Bool → List String → Option (List ℕ) × ℕ → Fields D
  unfolding quartile_fields
  array_fields qsort has_sorted keys (none, count) = []
  array_fields qsort has_sorted keys (some values, count) =
      if ltb 0 count then quartile_fields keys (copy_and_sort qsort has_sorted values) else []

  -- The counts of the usual times to live.
  unfoldable pub ttl_counts : Option (List ℕ) × ℕ → Fields D
  unfolding count_equal
  ttl_counts (none, count) = []
  ttl_counts (some values, count) =
      if ltb 0 count
      then label
          ("ip_ttl_eq_32_count" ∷ "ip_ttl_eq_64_count" ∷ "ip_ttl_eq_128_count"
            ∷ "ip_ttl_eq_255_count" ∷ [])
          (d.of_ℕ (count_equal 32 values)
            ∷ d.of_ℕ (count_equal 64 values)
            ∷ d.of_ℕ (count_equal 128 values)
            ∷ d.of_ℕ (count_equal 255 values)
            ∷ [])
      else []

  -- The part under `enable_protocol_tcp_flags`; no packet is counted as ICMP.
  unfoldable pub tcp_flag_fields : FlowState D → Fields D
  unfolding ratio
  tcp_flag_fields f =
      let s = f.tcp in
      let c = f.counters in
      label
        ("tcp_psh_count" ∷ "tcp_urg_count" ∷ "window_update_frequency" ∷ "tcp_syn_packets"
          ∷ "tcp_syn_ack_packets" ∷ "tcp_ack_only_count" ∷ "tcp_payload_packets"
          ∷ "tcp_zero_window_count" ∷ "icmp_packet_count" ∷ "l2_packets_count"
          ∷ "header_anomaly_count" ∷ "tcp_header_anomaly_count" ∷ "header_anomaly_ratio" ∷ [])
        (d.of_ℕ s.tcp_psh_count
          ∷ d.of_ℕ s.tcp_urg_count
          ∷ d.of_ℕ s.tcp_window_update_count
          ∷ d.of_ℕ s.tcp_syn_count
          ∷ d.of_ℕ s.tcp_syn_ack_count
          ∷ d.of_ℕ s.tcp_ack_only_count
          ∷ d.of_ℕ s.tcp_payload_packets
          ∷ d.of_ℕ s.tcp_zero_window_count
          ∷ d.of_ℕ 0
          ∷ d.of_ℕ (if ltb 0 c.l2_packets then c.l2_packets else c.total_packets)
          ∷ d.of_ℕ 0
          ∷ d.of_ℕ 0
          ∷ d.of_ℕ 0
          ∷ [])
      ++ ((if ltb 0 s.tcp_syn_count
            then label ("tcp_connection_success_rate" ∷ [])
                (ratio s.tcp_syn_ack_count s.tcp_syn_count ∷ [])
            else [])
          ++ ((if ltb 0 s.tcp_packets
                then label
                    ("tcp_syn_ratio" ∷ "tcp_rst_ratio" ∷ "tcp_ack_only_ratio"
                      ∷ "tcp_payload_packet_ratio" ∷ "tcp_syn_only_ratio" ∷ [])
                    (ratio s.tcp_syn_count s.tcp_packets
                      ∷ ratio s.tcp_rst_count s.tcp_packets
                      ∷ ratio s.tcp_ack_only_count s.tcp_packets
                      ∷ ratio s.tcp_payload_packets s.tcp_packets
                      ∷ ratio s.tcp_syn_only_count s.tcp_packets
                      ∷ [])
                else [])
              ++ label ("tcp_half_open_ratio" ∷ [])
                  (ratio (sub32 s.tcp_syn_count s.tcp_syn_ack_count) s.tcp_syn_count ∷ [])))

  -- The part under `enable_protocol_tcp_window`.
  unfoldable pub tcp_window_fields : (List ℕ → List ℕ) → Copies → Tcp D → Fields D
  unfolding array_fields
  tcp_window_fields qsort has s =
      label
        ("tcp_window_mean" ∷ "tcp_window_std" ∷ "tcp_window_min" ∷ "tcp_window_max"
          ∷ "tcp_window_skew" ∷ "tcp_window_kurt" ∷ [])
        (stats_values s.tcp_window_stats)
      ++ array_fields qsort has.has_sorted
          ("tcp_window_median" ∷ "tcp_window_q1" ∷ "tcp_window_q3" ∷ [])
          (get_array s.tcp_window_seq has.has_array)

  -- The part under `enable_protocol_ip`.
  unfoldable pub ip_fields : (List ℕ → List ℕ) → Copies → Copies → Ip D → Fields D
  unfolding array_fields ttl_counts
  ip_fields qsort has_ttl has_tos s =
      label
        ("ip_ttl_mean" ∷ "ip_ttl_std" ∷ "ip_ttl_min" ∷ "ip_ttl_max" ∷ "ip_ttl_skew" ∷ "ip_ttl_kurt"
          ∷ [])
        (stats_values s.ip_ttl_stats)
      ++ (label
            ("ip_tos_mean" ∷ "ip_tos_std" ∷ "ip_tos_min" ∷ "ip_tos_max" ∷ "ip_tos_skew"
              ∷ "ip_tos_kurt" ∷ [])
            (stats_values s.ip_tos_stats)
          ++ (array_fields qsort has_ttl.has_sorted
                ("ip_ttl_median" ∷ "ip_ttl_q1" ∷ "ip_ttl_q3" ∷ [])
                (get_array s.ip_ttl_seq has_ttl.has_array)
              ++ (ttl_counts (get_array s.ip_ttl_seq has_ttl.has_array)
                  ++ array_fields qsort has_tos.has_sorted
                      ("ip_tos_median" ∷ "ip_tos_q1" ∷ "ip_tos_q3" ∷ [])
                      (get_array s.ip_tos_seq has_tos.has_array))))

  -- The part under `enable_protocol_udp`.
  unfoldable pub udp_fields :
      (List ℕ → List ℕ) → Copies → RunningStats D → CircularBuffer ℕ → Fields D
  unfolding array_fields
  udp_fields qsort has udp_len_stats udp_len_seq =
      label
        ("udp_length_mean" ∷ "udp_length_std" ∷ "udp_length_min" ∷ "udp_length_max"
          ∷ "udp_length_skew" ∷ "udp_length_kurt" ∷ [])
        (stats_values udp_len_stats)
      ++ array_fields qsort has.has_sorted
          ("udp_length_median" ∷ "udp_length_q1" ∷ "udp_length_q3" ∷ [])
          (get_array udp_len_seq has.has_array)
