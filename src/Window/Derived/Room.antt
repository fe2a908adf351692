-- ===== src/Window/Derived/Room.antt =====
-- The array for the bytes is made for the windows that have packets.
use ti_features.Prelude.{
  ℕ, zero, suc, ◌+◌, ◌^◌, ◌≤◌, ◌<◌, ◌≡◌, ◌⊎◌, refl, sym, ◌∙◌, List, [], ◌∷◌, length, total, take,
  get_or, set, add32, ltb, leb, ◌==◌, ◌&&◌, Bool-cases, inl, inr, arith, mul64,
}
use mathlib.Core.Path.{subst}
use ti_features.Window.{
  Window, fill_window, fill_windows, open_first, count_packet, target_window, calc_window_update,
}
use ti_features.Window.Bitrate.{run}
use ti_features.Window.Derived.{busy}

-- A window has packets or no bytes.
abbrev pub Covers : List ℕ → List ℕ → Type 0
Covers [] [] = Unit {0}
Covers [] (b ∷ bytes) = ⊥
Covers (p ∷ pkts) [] = ⊥
Covers (p ∷ pkts) (b ∷ bytes) = ((0 < p) ⊎ (b ≡ 0)) × Covers pkts bytes

get_or-le-total : (xs : List ℕ) (i : ℕ) → get_or xs i 0 ≤ total xs
get_or-le-total [] i = omega arith
get_or-le-total (x ∷ xs) zero = omega arith
get_or-le-total (x ∷ xs) (suc i) = omega (arith, get_or-le-total xs i)

total-set :
    (xs : List ℕ) (i : ℕ)
    → total xs + 1 < 2 ^ 32
    → total (set xs i (add32 (get_or xs i 0) 1)) ≤ total xs + 1
total-set [] i h = omega arith
total-set (x ∷ xs) zero h = omega arith
total-set (x ∷ xs) (suc i) h = omega (arith, total-set xs i (omega arith))

Covers-set :
    (pkts bytes : List ℕ) (i v : ℕ)
    → total pkts + 1 < 2 ^ 32
    → Covers pkts bytes
    → Covers (set pkts i (add32 (get_or pkts i 0) 1)) (set bytes i v)
Covers-set [] [] i v h c = tt
Covers-set [] (b ∷ bytes) i v h c = absurd c
Covers-set (p ∷ pkts) [] i v h c = absurd c
Covers-set (p ∷ pkts) (b ∷ bytes) zero v h (_, c) = (inl (omega arith), c)
Covers-set (p ∷ pkts) (b ∷ bytes) (suc i) v h (k, c) =
    (k, Covers-set pkts bytes i v (omega arith) c)

-- The loop over the windows leaves the counts alone.
fill_windows-counts :
    (fuel target us : ℕ) (s : Window)
    → ((fill_windows fuel target us s).window_pkt_counts ≡ s.window_pkt_counts)
      × ((fill_windows fuel target us s).window_byte_counts ≡ s.window_byte_counts)
unfolding fill_windows fill_window
fill_windows-counts zero target us s = (refl, refl)
fill_windows-counts (suc fuel) target us s =
    elim (Bool-cases (leb s.current_window target && ltb s.current_window s.num_windows)) [
      | inl e ↦ rw e (fill_windows-counts fuel target us (fill_window us s))
      | inr e ↦ rw e (refl, refl)
    ]

-- A state whose windows are covered, with room for so many packets more.
abbrev pub IsCovered : ℕ → Window → Type 0
IsCovered more s =
    Covers s.window_pkt_counts s.window_byte_counts × (total s.window_pkt_counts + more < 2 ^ 32)

covers_same :
    (more : ℕ) (s s' : Window)
    → s'.window_pkt_counts ≡ s.window_pkt_counts
    → s'.window_byte_counts ≡ s.window_byte_counts
    → IsCovered more s
    → IsCovered more s'
covers_same more s s' p b (c, h) = (
  subst (λ l. Covers l s'.window_byte_counts) (sym p)
      (subst (λ l. Covers s.window_pkt_counts l) (sym b) c),
  subst (λ l. total l + more < 2 ^ 32) (sym p) h,
)

count_packet-IsCovered :
    (more target pkt_len : ℕ) (s : Window)
    → IsCovered (suc more) s
    → IsCovered more (count_packet target pkt_len s)
unfolding count_packet
count_packet-IsCovered more target pkt_len s (c, h) = elim (Bool-cases (ltb target s.num_windows)) [
  | inl e ↦
      (let small = total-set s.window_pkt_counts target (omega arith) in
        rw e (
          Covers-set s.window_pkt_counts s.window_byte_counts target
              (add32 (get_or s.window_byte_counts target 0) pkt_len) (omega arith) c,
          omega arith,
        ))
  | inr e ↦ rw e (c, omega arith)
]

open_first-counts :
    (s : Window) (ts_us : ℕ)
    → ((open_first s ts_us).window_pkt_counts ≡ s.window_pkt_counts)
      × ((open_first s ts_us).window_byte_counts ≡ s.window_byte_counts)
unfolding open_first
open_first-counts s ts_us = (ground arith, ground arith)

calc_window_update-IsCovered :
    (more : ℕ) (s : Window) (pkt_len ts_us : ℕ)
    → IsCovered (suc more) s
    → IsCovered more (calc_window_update s pkt_len ts_us)
unfolding calc_window_update
calc_window_update-IsCovered more s pkt_len ts_us v =
    let opened = open_first s ts_us in
    let target = target_window opened ts_us in
    let us = mul64 s.window_size_ms 1000 in
    let filled = fill_windows s.num_windows target us opened in
    let (p, b) = open_first-counts s ts_us in
    let (p', b') = fill_windows-counts s.num_windows target us opened in
    elim (Bool-cases (s.window_size_ms == 0)) [
      | inl e ↦ rw e (v.0, omega (arith, v.1))
      | inr e ↦ rw e (
          count_packet-IsCovered more target pkt_len filled
            (covers_same (suc more) s filled (p' ∙ p) (b' ∙ b) v))
    ]

run-IsCovered : (s : Window) (ps : List (ℕ × ℕ)) → IsCovered (length ps) s → IsCovered 0 (run s ps)
unfolding run
run-IsCovered s [] v = v
run-IsCovered s ((pkt_len, ts_us) ∷ ps) v =
    run-IsCovered (calc_window_update s pkt_len ts_us) ps
      (calc_window_update-IsCovered (length ps) s pkt_len ts_us v)

busy-le : (pkts bytes : List ℕ) → Covers pkts bytes → length (busy bytes) ≤ length (busy pkts)
unfolding busy
busy-le [] [] c = omega arith
busy-le [] (b ∷ bytes) c = absurd c
busy-le (p ∷ pkts) [] c = absurd c
busy-le (p ∷ pkts) (b ∷ bytes) (inl h, c) = let rest = busy-le pkts bytes c in ground arith
busy-le (p ∷ pkts) (b ∷ bytes) (inr e, c) = let rest = busy-le pkts bytes c in ground arith

Covers-take :
    (n : ℕ) (pkts bytes : List ℕ) → Covers pkts bytes → Covers (take n pkts) (take n bytes)
Covers-take zero pkts bytes c = tt
Covers-take (suc n) [] [] c = tt
Covers-take (suc n) [] (b ∷ bytes) c = absurd c
Covers-take (suc n) (p ∷ pkts) [] c = absurd c
Covers-take (suc n) (p ∷ pkts) (b ∷ bytes) (k, c) = (k, Covers-take n pkts bytes c)

-- From windows where each has packets or no bytes, and for a run of packets after which the
-- packets of all windows are fewer than 2 ^ 32: the byte counts that `calc_derived_window` copies
-- fit into the array that it makes for as many windows as have packets.
pub run-bytes_fit :
    (s : Window) (ps : List (ℕ × ℕ))
    → IsCovered (length ps) s
    → let w = run s ps in
      length (busy (take w.num_windows w.window_byte_counts))
      ≤ length (busy (take w.num_windows w.window_pkt_counts))
run-bytes_fit s ps v =
    let w = run s ps in
    busy-le (take w.num_windows w.window_pkt_counts) (take w.num_windows w.window_byte_counts)
      (Covers-take w.num_windows w.window_pkt_counts w.window_byte_counts (run-IsCovered s ps v).0)
