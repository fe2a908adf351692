-- ===== src/Flow/Stepped/Windows.antt =====
-- The windows of a flow keep their arrays.
use ti_features.Prelude.{ℕ, zero, suc, ◌&&◌, ◌≡◌, ◌∙◌, length, ltb, leb, ◌==◌, if_both, length-set}
use ti_features.Double.{zeroed_double}
use ti_features.MemoryPool.{zeroed_ℕ}
use ti_features.Window.{
  Window, fill_window, fill_windows, open_first, count_packet, calc_window_update,
}
use ti_features.Flow.Valid.{HasWindows}

-- The arrays of the windows.
fill_windows-HasWindows :
    (fuel target us n : ℕ) (s : Window)
    → HasWindows n s
    → HasWindows n (fill_windows fuel target us s)
unfolding fill_windows fill_window
fill_windows-HasWindows zero target us n s h = h
fill_windows-HasWindows (suc fuel) target us n s (e, a, b, c) =
    let w = s.current_window in
    if_both (HasWindows n) (leb w target && ltb w s.num_windows) _ s
      (fill_windows-HasWindows fuel target us n (fill_window us s) (
        e,
        a,
        b,
        if_both (λ l. length l ≡ n) (ltb w s.num_windows && ltb 0 us) _ s.window_bitrate
            (length-set s.window_bitrate w _ ∙ c) c,
      ))
      (e, a, b, c)

pub window-HasWindows :
    (n : ℕ) (s : Window) (pkt_len ts_us : ℕ)
    → HasWindows n s
    → HasWindows n (calc_window_update s pkt_len ts_us)
unfolding calc_window_update open_first count_packet
window-HasWindows n s pkt_len ts_us h =
    let opened = if_both (HasWindows n) (s.window_start_us == 0) _ s h h in
    let (e, a, b, c) = fill_windows-HasWindows s.num_windows _ _ n _ opened in
    if_both (HasWindows n) (s.window_size_ms == 0) s _ h (
      if_both (HasWindows n) (ltb _ _) _ _ (e, length-set _ _ _ ∙ a, length-set _ _ _ ∙ b, c)
        (e, a, b, c))
