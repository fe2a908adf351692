-- ===== src/Window.antt =====
-- src/calc_window.cpp, `calc_window_update`: packets and bytes by window of time, and the bitrate
-- of each window.
pub mod Bitrate
pub mod Derived
use ti_features.Prelude.{
  ℕ, zero, suc, ◌+◌, ◌-◌, ◌*◌, ◌/◌, ◌%◌, ◌^◌, Bool, ◌&&◌, List, add32, add64, sub64, mul64, ltb,
  leb, ◌==◌, if◌then◌else◌, set, get_or,
}

-- The window fields of `flow_feature_state_t`, with the elements of its arrays in the pool.
pub record Window : Type 0 where
  pub window_size_ms : ℕ
  pub num_windows : ℕ
  pub current_window : ℕ
  pub window_start_us : ℕ
  pub window_pkt_counts : List ℕ
  pub window_byte_counts : List ℕ
  pub window_bitrate : List ℕ

-- The bitrate of some bytes over a window, cut to unsigned int.
abbrev pub bitrate_of : ℕ → ℕ → ℕ
bitrate_of bytes window_size_us = mul64 (mul64 bytes 8) 1000000 / window_size_us % 2 ^ 32

-- The body of the loop of `calc_window_update`.
unfoldable pub fill_window : ℕ → Window → Window
fill_window window_size_us s =
    let w = s.current_window in
    record s {
      window_bitrate =
          if ltb w s.num_windows && ltb 0 window_size_us
          then set s.window_bitrate w (bitrate_of (get_or s.window_byte_counts w 0) window_size_us)
          else s.window_bitrate;
      current_window = add32 w 1;
    }

-- The loop, which goes up to the window of the packet, for at most so many rounds.
unfoldable pub fill_windows : ℕ → ℕ → ℕ → Window → Window
fill_windows zero target window_size_us s = s
fill_windows (suc fuel) target window_size_us s =
    let rest = fill_windows fuel target window_size_us (fill_window window_size_us s) in
    if leb s.current_window target && ltb s.current_window s.num_windows then rest else s

-- The start of the first window is the time of the first packet.
unfoldable pub open_first : Window → ℕ → Window
open_first s ts_us =
    if s.window_start_us == 0 then record s { window_start_us = ts_us; current_window = 0 } else s

-- The count of the packet in its window.
unfoldable pub count_packet : ℕ → ℕ → Window → Window
count_packet target pkt_len s =
    if ltb target s.num_windows
    then record s {
      window_pkt_counts =
          set s.window_pkt_counts target (add32 (get_or s.window_pkt_counts target 0) 1);
      window_byte_counts =
          set s.window_byte_counts target (add32 (get_or s.window_byte_counts target 0) pkt_len);
    }
    else s

-- The window that the time of a packet falls in.
abbrev pub target_window : Window → ℕ → ℕ
target_window s ts_us = sub64 ts_us s.window_start_us / mul64 s.window_size_ms 1000 % 2 ^ 32

-- `calc_window_update`
unfoldable pub calc_window_update : Window → ℕ → ℕ → Window
calc_window_update s pkt_len ts_us =
    let opened = open_first s ts_us in
    let target = target_window opened ts_us in
    if s.window_size_ms == 0
    then s
    else count_packet target pkt_len
        (fill_windows s.num_windows target (mul64 s.window_size_ms 1000) opened)
