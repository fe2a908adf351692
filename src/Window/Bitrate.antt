-- ===== src/Window/Bitrate.antt =====
-- The bitrates of the windows.
use ti_features.Prelude.{
  ℕ, zero, suc, ◌+◌, ◌-◌, ◌^◌, ◌≤◌, ◌<◌, ◌≡◌, ◌≢◌, refl, ◌∙◌, true, ◌&&◌, List, [], ◌∷◌, set,
  get_or, get_or-set_ne, arith, mul64, ltb, leb, ltb→lt, ◌==◌, Bool-cases, inl, inr, add32,
}
use ti_features.Window.{
  Window, bitrate_of, fill_window, fill_windows, open_first, count_packet, target_window,
  calc_window_update,
}

-- The calls of `calc_window_update` for a run of packets: lengths and times.
unfoldable pub run : Window → List (ℕ × ℕ) → Window
run s [] = s
run s ((pkt_len, ts_us) ∷ ps) = run (calc_window_update s pkt_len ts_us) ps

abbrev pub AreTimed : List (ℕ × ℕ) → Type 0
AreTimed [] = Unit {0}
AreTimed ((_, ts_us) ∷ ps) = (ts_us ≢ 0) × AreTimed ps

abbrev pub IsNought : List ℕ → Type 0
IsNought xs = (w : ℕ) → get_or xs w 0 ≡ 0

-- No byte is counted at or past the current window, and no bitrate differs from 0.
pub record IsUnrated (s : Window) : Type 0 where
  pub windows_lt : s.num_windows < 2 ^ 32 - 1
  pub within : s.current_window ≤ s.num_windows
  pub unopened : s.window_start_us ≡ 0 → s.current_window ≡ 0
  pub later : (w : ℕ) → s.current_window ≤ w → get_or s.window_byte_counts w 0 ≡ 0
  pub rates : IsNought s.window_bitrate

set-IsNought : (xs : List ℕ) (i : ℕ) → IsNought xs → IsNought (set xs i 0)
set-IsNought [] i h w = refl
set-IsNought (x ∷ xs) zero h zero = refl
set-IsNought (x ∷ xs) zero h (suc w) = h (suc w)
set-IsNought (x ∷ xs) (suc i) h zero = h zero
set-IsNought (x ∷ xs) (suc i) h (suc w) = set-IsNought xs i (λ k. h (suc k)) w

bitrate_of_zero : (us : ℕ) → bitrate_of 0 us ≡ 0
bitrate_of_zero us = omega arith

-- The rate of a window is computed before the first packet in it is counted.
fill_window-IsUnrated :
    (us : ℕ) (s : Window)
    → s.window_start_us ≢ 0
    → s.current_window < s.num_windows
    → IsUnrated s
    → IsUnrated (fill_window us s)
unfolding fill_window
fill_window-IsUnrated us s o h v = record {
  windows_lt = v.windows_lt;
  within = omega (arith, v.windows_lt);
  unopened = λ e. absurd (o e);
  later = λ w le. v.later w (omega (arith, v.windows_lt));
  rates = elim (Bool-cases (ltb s.current_window s.num_windows && ltb 0 us)) [
    | inl e ↦
        rw (e, v.later s.current_window (omega arith), bitrate_of_zero us)
          (set-IsNought s.window_bitrate s.current_window v.rates)
    | inr e ↦ rw e v.rates
  ];
}

-- What stays, and where the loop stops: past the target, or at the last window.
abbrev pub Filled : ℕ → Window → Window → Type 0
Filled target s new =
    (new.window_start_us ≡ s.window_start_us)
    × (new.num_windows ≡ s.num_windows)
    × (new.window_byte_counts ≡ s.window_byte_counts)
    × (new.window_pkt_counts ≡ s.window_pkt_counts)
    × (new.window_size_ms ≡ s.window_size_ms)
    × (target < s.num_windows → target < new.current_window)

fill_window-frame :
    (us : ℕ) (s : Window)
    → let new = fill_window us s in
      (new.window_start_us ≡ s.window_start_us)
      × (new.num_windows ≡ s.num_windows)
      × (new.window_byte_counts ≡ s.window_byte_counts)
      × (new.window_pkt_counts ≡ s.window_pkt_counts)
      × (new.window_size_ms ≡ s.window_size_ms)
      × (new.current_window ≡ add32 s.current_window 1)
unfolding fill_window
fill_window-frame us s = (refl, refl, refl, refl, refl, refl)

pub fill_windows-Filled :
    (fuel target us : ℕ) (s : Window)
    → s.num_windows < 2 ^ 32 - 1
    → s.num_windows ≤ fuel + s.current_window
    → Filled target s (fill_windows fuel target us s)
unfolding fill_windows
fill_windows-Filled zero target us s h f = ground arith
fill_windows-Filled (suc fuel) target us s h f =
    ground (arith, fill_window-frame us s, fill_windows-Filled fuel target us (fill_window us s))

-- The loop over the windows, given `num_windows` rounds, ends with the target window behind the
-- current one, when there is a window of that number; the counts of packets and bytes do not change.
fill_windows-past :
    (target us : ℕ) (s : Window)
    → s.num_windows < 2 ^ 32 - 1
    → target < s.num_windows
    → let new = fill_windows s.num_windows target us s in
      (target < new.current_window)
      × (new.window_byte_counts ≡ s.window_byte_counts)
      × (new.window_pkt_counts ≡ s.window_pkt_counts)
fill_windows-past target us s h lt =
    let (_, _, bytes, packets, _, past) =
      fill_windows-Filled s.num_windows target us s h (omega arith) in
    (past lt, bytes, packets)

fill_windows-IsUnrated :
    (fuel target us : ℕ) (s : Window)
    → s.window_start_us ≢ 0
    → IsUnrated s
    → IsUnrated (fill_windows fuel target us s)
unfolding fill_windows
fill_windows-IsUnrated zero target us s o v = v
fill_windows-IsUnrated (suc fuel) target us s o v =
    elim (Bool-cases (leb s.current_window target && ltb s.current_window s.num_windows)) [
      | inl e ↦ rw e (
          fill_windows-IsUnrated fuel target us (fill_window us s) (λ z. o (z-start us s z))
            (fill_window-IsUnrated us s o (ground arith) v))
      | inr e ↦ rw e v
    ]
  where
    z-start : (us : ℕ) (s : Window) → (fill_window us s).window_start_us ≡ 0 → s.window_start_us ≡ 0
    z-start us s z = ground (arith, fill_window-frame us s)

count_packet-IsUnrated :
    (target pkt_len : ℕ) (s : Window)
    → IsUnrated s
    → (target < s.num_windows → target < s.current_window)
    → IsUnrated (count_packet target pkt_len s)
unfolding count_packet
count_packet-IsUnrated target pkt_len s v past = elim (Bool-cases (ltb target s.num_windows)) [
  | inl e ↦ rw e (record {
    windows_lt = v.windows_lt;
    within = v.within;
    unopened = v.unopened;
    later = λ w le. get_or-set_ne s.window_byte_counts target w _ 0 (counted e w le) ∙ v.later w le;
    rates = v.rates;
  })
  | inr e ↦ rw e v
]
  where
    counted : ltb target s.num_windows ≡ true → (w : ℕ) → s.current_window ≤ w → target ≢ w
    counted e w le = let lt = past (ltb→lt target s.num_windows e) in omega arith

open_first-IsUnrated :
    (s : Window) (ts_us : ℕ)
    → ts_us ≢ 0
    → IsUnrated s
    → IsUnrated (open_first s ts_us) × ((open_first s ts_us).window_start_us ≢ 0)
unfolding open_first
open_first-IsUnrated s ts_us t v = elim (Bool-cases (s.window_start_us == 0)) [
  | inl e ↦
      let nought : s.current_window ≡ 0 = v.unopened (ground arith) in
      rw e (
        record {
          windows_lt = v.windows_lt;
          within = omega arith;
          unopened = λ z. absurd (t z);
          later = λ w le. v.later w (omega arith);
          rates = v.rates;
        },
        t,
      )
  | inr e ↦ rw e (v, λ z. ground arith)
]

pub num_windows-open_first :
    (s : Window) (ts_us : ℕ) → (open_first s ts_us).num_windows ≡ s.num_windows
unfolding open_first
num_windows-open_first s ts_us = ground arith

calc_window_update-IsUnrated :
    (s : Window) (pkt_len ts_us : ℕ)
    → ts_us ≢ 0
    → IsUnrated s
    → IsUnrated (calc_window_update s pkt_len ts_us)
unfolding calc_window_update
calc_window_update-IsUnrated s pkt_len ts_us t v = elim (Bool-cases (s.window_size_ms == 0)) [
  | inl e ↦ rw e v
  | inr e ↦
      let opened = open_first s ts_us in
      let (valid, started) = open_first-IsUnrated s ts_us t v in
      let us = mul64 s.window_size_ms 1000 in
      let target = target_window opened ts_us in
      let same : opened.num_windows ≡ s.num_windows = num_windows-open_first s ts_us in
      let filled =
        fill_windows-Filled s.num_windows target us opened valid.windows_lt (omega arith) in
      rw e (
        count_packet-IsUnrated target pkt_len (fill_windows s.num_windows target us opened)
          (fill_windows-IsUnrated s.num_windows target us opened started valid)
          (λ lt. filled.5 (omega (arith, filled.1))))
]

-- In a flow in which no window has bytes from the current one on and no bitrate differs from 0, as
-- at its start, after any packets with times other than 0 every window's bitrate is still 0: each rate is
-- computed once, before a packet of its window is counted.
pub run_unrated :
    (s : Window) (ps : List (ℕ × ℕ)) (w : ℕ)
    → IsUnrated s
    → AreTimed ps
    → get_or (run s ps).window_bitrate w 0 ≡ 0
unfolding run
run_unrated s [] w v t = v.rates w
run_unrated s ((pkt_len, ts_us) ∷ ps) w v (t, rest) =
    run_unrated (calc_window_update s pkt_len ts_us) ps w
      (calc_window_update-IsUnrated s pkt_len ts_us t v) rest
