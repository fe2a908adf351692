-- ===== src/Tests/Payloads.antt =====
-- Examples of TCP segments, addresses, ports and payloads.
use ti_features.Prelude.{
  ℕ, ◌%◌, ◌^◌, ◌≡◌, refl, Bool, true, false, leb, List, [], ◌∷◌, arith, get_or, replicate,
}
use ti_features.Double.{count_double}
use ti_features.FeatureStats.{fwd, bwd}
use ti_features.Protocol.{Tcp, TcpFlags}
use ti_features.Protocol.Flags.{Segment, run, run-flags}
use ti_features.Protocol.Segments.{run-descents}
use ti_features.Payload.{Magics, looks_like_ssh, looks_like_tls, ssh_text, get_text}
use ti_features.Payload.Magic.{IsCovered, check_all, check_all-IsCovered}
use ti_features.Payload.Shapes.{looks_like_ssh-tls}
use ti_features.Payload.Stats.{Shapes, ByteStats, update_bytes}
use ti_features.Payload.Bytes.{update_bytes-hist}
use ti_features.Tests.{no_stats, no_ring, room_for_two}

abbrev no_segments : Tcp ℕ
no_segments = record {
  tcp_packets = 0;
  tcp_syn_count = 0;
  tcp_fin_count = 0;
  tcp_rst_count = 0;
  tcp_psh_count = 0;
  tcp_ack_count = 0;
  tcp_urg_count = 0;
  tcp_syn_only_count = 0;
  tcp_syn_ack_count = 0;
  tcp_ack_only_count = 0;
  tcp_payload_packets = 0;
  tcp_window_update_count = 0;
  tcp_zero_window_count = 0;
  tcp_retransmission_count = 0;
  has_last_tcp_window = 0;
  last_tcp_window = 0;
  last_rst_ts = 0;
  rst_interval_sum_us = 0;
  rst_interval_count = 0;
  has_last_fwd_seq = 0;
  has_last_bwd_seq = 0;
  last_fwd_seq = 0;
  last_bwd_seq = 0;
  tcp_window_stats = no_stats;
  tcp_window_seq = no_ring;
}

abbrev flags_of : Bool → Bool → TcpFlags
flags_of syn ack = record {
  syn = syn;
  ack = ack;
  fin = false;
  rst = false;
  psh = false;
  urg = false;
}

abbrev data_segment : ℕ → Segment
data_segment seq = record {
  flags = flags_of false true;
  payload_len = 10;
  window = 500;
  direction = fwd;
  tcp_seq = seq;
  ts_us = 7;
}

-- A SYN, three segments of which the last repeats the first, and a bare ACK with a zero window.
abbrev segments : List Segment
segments =
    record (data_segment 4) { flags = flags_of true false; payload_len = 0 }
    ∷ data_segment 5
    ∷ data_segment 15
    ∷ data_segment 5
    ∷ record (data_segment 9) { payload_len = 0; window = 0; direction = bwd }
    ∷ []

run-flags_example :
    let new = run no_segments segments in
    (new.tcp_syn_count % 2 ^ 32 ≡ 1)
    × (new.tcp_packets % 2 ^ 64 ≡ 5)
    × (new.tcp_syn_only_count % 2 ^ 32 ≡ 1)
    × (new.tcp_syn_ack_count % 2 ^ 32 ≡ 0)
    × (new.tcp_ack_only_count % 2 ^ 32 ≡ 1)
    × (new.tcp_payload_packets % 2 ^ 32 ≡ 3)
    × (new.tcp_zero_window_count % 2 ^ 32 ≡ 1)
run-flags_example = run-flags no_segments segments

run-descents_example : (run no_segments segments).tcp_retransmission_count % 2 ^ 32 ≡ 1
run-descents_example = run-descents no_segments segments

abbrev no_bytes : ByteStats ℕ
no_bytes = record {
  byte_stats = no_stats;
  byte_hist = replicate 16 0;
  byte_hist_full = replicate 256 0;
  printable_count = 0;
  alnum_count = 0;
  first_bytes = room_for_two;
}

abbrev is_upper : ℕ → Bool
is_upper b = leb 65 b

update_bytes-hist_example :
    let new = update_bytes is_upper no_bytes (4 ∷ 71 ∷ 69 ∷ []) in
    (get_or new.byte_hist_full 4 0 % 2 ^ 32 ≡ 1) × (get_or new.byte_hist 4 0 % 2 ^ 32 ≡ 2)
update_bytes-hist_example =
    update_bytes-hist is_upper no_bytes (4 ∷ 71 ∷ 69 ∷ []) 4 refl refl
      (omega arith, (omega arith, (omega arith, tt)))

abbrev no_magics : Magics
no_magics = record {
  http_get = 0;
  http_post = 0;
  tls_1_0 = 0;
  tls_1_1 = 0;
  tls_1_2 = 0;
  tls_1_3 = 0;
  ssh = 0;
  jpeg = 0;
  png = 0;
  gif = 0;
}

abbrev no_shapes : Shapes
no_shapes = record { http = 0; json = 0; xml = 0; tls = 0; ssh = 0 }

none-IsCovered : IsCovered no_magics no_shapes
none-IsCovered = record {
  get = omega arith;
  post = omega arith;
  tls0 = omega arith;
  tls1 = omega arith;
  tls2 = omega arith;
  tls3 = omega arith;
  ssh = omega arith;
  http_flag = omega arith;
  tls_flag = omega arith;
  ssh_flag = omega arith;
}

check_all-IsCovered_example :
    let flags = check_all (no_magics, no_shapes) (get_text ∷ ssh_text ∷ []) in
    IsCovered flags.0 flags.1
check_all-IsCovered_example =
    check_all-IsCovered no_magics no_shapes (get_text ∷ ssh_text ∷ []) none-IsCovered

abbrev tls_record : List ℕ
tls_record = 0x16 ∷ 3 ∷ 1 ∷ 0 ∷ 200 ∷ []

looks_like_ssh-tls_example : looks_like_ssh tls_record ≡ true
unfolding looks_like_tls
looks_like_ssh-tls_example = looks_like_ssh-tls tls_record (omega arith) refl
