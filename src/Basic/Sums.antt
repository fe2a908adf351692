-- ===== src/Basic/Sums.antt =====
-- Counters and payload sizes after a run of packets, against sums over the run.
use ti_features.Prelude.{
  ℕ, zero, suc, ◌+◌, ◌%◌, ◌^◌, ◌≡◌, ◌≢◌, refl, ap, sym, ◌∙◌, Bool, true, false, List, [], ◌∷◌, ◌++◌,
  length, take, arith, if◌then◌else◌,
}
use ti_features.Double.{Double}
use ti_features.Config.{Config}
use ti_features.FeatureStats.{Direction, unknown, fwd, bwd, is_fwd, is_bwd}
use ti_features.BoundedArray.{
  BoundedArray, append, append_all, IsValid, contents, contents-append_all,
}
use ti_features.Basic.{Counters, calc_basic_counters, count_direction}

-- What a call of `calc_basic_counters` is given.
pub record Packet : Type 0 where
  pub direction : Direction
  pub pkt_len : ℕ
  pub payload_len : ℕ

-- The sum of a measure of the packets that go in a direction.
abbrev pub sum_of : (Direction → Bool) → (Packet → ℕ) → List Packet → ℕ
sum_of goes measure [] = 0
sum_of goes measure (p ∷ ps) = (if goes p.direction then measure p else 0) + sum_of goes measure ps

abbrev pub any : Direction → Bool
any _ = true

abbrev pub one : Packet → ℕ
one _ = 1

-- `x`, with zero left out, before `xs`.
abbrev pub cons_nonzero : ℕ → List ℕ → List ℕ
cons_nonzero zero xs = xs
cons_nonzero (suc n) xs = suc n ∷ xs

-- The sizes of the payloads that go in a direction and are not empty.
abbrev pub payloads_of : (Direction → Bool) → List Packet → List ℕ
payloads_of goes [] = []
payloads_of goes (p ∷ ps) =
    let rest = payloads_of goes ps in
    if goes p.direction then cons_nonzero p.payload_len rest else rest

module _ {D : Type 0} ⦃d : Double D⦄ where
  -- The calls of `calc_basic_counters` for a run of packets.
  unfoldable pub run : Config → Counters D → List Packet → Counters D
  run cfg s [] = s
  run cfg s (p ∷ ps) = run cfg (calc_basic_counters cfg s p.direction p.pkt_len p.payload_len) ps

  step_counts :
      (cfg : Config) (s : Counters D) (direction : Direction) (pkt_len payload_len : ℕ)
      → let new = calc_basic_counters cfg s direction pkt_len payload_len in
        (new.total_packets % 2 ^ 64 ≡ (s.total_packets + 1) % 2 ^ 64)
        × (new.total_bytes % 2 ^ 64 ≡ (s.total_bytes + pkt_len) % 2 ^ 64)
        × (new.fwd_packets % 2 ^ 64
            ≡ (s.fwd_packets + (if is_fwd direction then 1 else 0)) % 2 ^ 64)
        × (new.bwd_packets % 2 ^ 64
            ≡ (s.bwd_packets + (if is_bwd direction then 1 else 0)) % 2 ^ 64)
        × (new.fwd_bytes % 2 ^ 64
            ≡ (s.fwd_bytes + (if is_fwd direction then pkt_len else 0)) % 2 ^ 64)
        × (new.bwd_bytes % 2 ^ 64
            ≡ (s.bwd_bytes + (if is_bwd direction then pkt_len else 0)) % 2 ^ 64)
  unfolding calc_basic_counters count_direction
  step_counts cfg s fwd pkt_len payload_len = ground arith
  step_counts cfg s bwd pkt_len payload_len = ground arith
  step_counts cfg s unknown pkt_len payload_len = ground arith

  -- After a run of packets each counter has grown by the sum over the run (modulo 2 ^ 64): the
  -- packets and bytes in all by every packet, those of a direction by the packets of that direction
  -- only.
  pub run-counts :
      (cfg : Config) (s : Counters D) (ps : List Packet)
      → let new = run cfg s ps in
        (new.total_packets % 2 ^ 64 ≡ (s.total_packets + length ps) % 2 ^ 64)
        × (new.total_bytes % 2 ^ 64 ≡ (s.total_bytes + sum_of any (λ p. p.pkt_len) ps) % 2 ^ 64)
        × (new.fwd_packets % 2 ^ 64 ≡ (s.fwd_packets + sum_of is_fwd one ps) % 2 ^ 64)
        × (new.bwd_packets % 2 ^ 64 ≡ (s.bwd_packets + sum_of is_bwd one ps) % 2 ^ 64)
        × (new.fwd_bytes % 2 ^ 64 ≡ (s.fwd_bytes + sum_of is_fwd (λ p. p.pkt_len) ps) % 2 ^ 64)
        × (new.bwd_bytes % 2 ^ 64 ≡ (s.bwd_bytes + sum_of is_bwd (λ p. p.pkt_len) ps) % 2 ^ 64)
  unfolding run
  run-counts cfg s [] = ground arith
  run-counts cfg s (p ∷ ps) = ground (
    arith,
    step_counts cfg s p.direction p.pkt_len p.payload_len,
    run-counts cfg (calc_basic_counters cfg s p.direction p.pkt_len p.payload_len) ps,
  )

  step_payloads :
      (cfg : Config) (s : Counters D) (direction : Direction) (pkt_len payload_len : ℕ)
      → cfg.need_payload_dir ≢ 0
      → let new = calc_basic_counters cfg s direction pkt_len payload_len in
        (new.fwd_payload_sizes
          ≡ append_all s.fwd_payload_sizes
              (if is_fwd direction then cons_nonzero payload_len [] else []))
        × (new.bwd_payload_sizes
            ≡ append_all s.bwd_payload_sizes
                (if is_bwd direction then cons_nonzero payload_len [] else []))
  unfolding calc_basic_counters count_direction append_all
  step_payloads cfg s fwd pkt_len zero on = ground arith
  step_payloads cfg s fwd pkt_len (suc n) on = ground arith
  step_payloads cfg s bwd pkt_len zero on = ground arith
  step_payloads cfg s bwd pkt_len (suc n) on = ground arith
  step_payloads cfg s unknown pkt_len payload_len on = ground arith

append_all-append :
    {A : Type 0}
    → (b : BoundedArray A) (xs ys : List A)
    → append_all b (xs ++ ys) ≡ append_all (append_all b xs) ys
unfolding append_all
append_all-append b [] ys = refl
append_all-append b (x ∷ xs) ys = append_all-append (append b x) xs ys

cons_nonzero-append :
    (b : Bool) (n : ℕ) (xs : List ℕ)
    → (if b then cons_nonzero n xs else xs) ≡ (if b then cons_nonzero n [] else []) ++ xs
cons_nonzero-append true zero xs = refl
cons_nonzero-append true (suc n) xs = refl
cons_nonzero-append false n xs = refl

payloads-step :
    (goes : Direction → Bool) (p : Packet) (ps : List Packet)
    → payloads_of goes (p ∷ ps)
      ≡ (if goes p.direction then cons_nonzero p.payload_len [] else []) ++ payloads_of goes ps
payloads-step goes p ps = cons_nonzero-append (goes p.direction) p.payload_len (payloads_of goes ps)

join_appends :
    (goes : Direction → Bool) (p : Packet) (ps : List Packet) (b : BoundedArray ℕ)
    {b1 b2 : BoundedArray ℕ}
    → b1 ≡ append_all b (if goes p.direction then cons_nonzero p.payload_len [] else [])
    → b2 ≡ append_all b1 (payloads_of goes ps)
    → b2 ≡ append_all b (payloads_of goes (p ∷ ps))
join_appends goes p ps b first rest =
    rest
    ∙ ap (λ a. append_all a (payloads_of goes ps)) first
    ∙ sym (
        append_all-append b (if goes p.direction then cons_nonzero p.payload_len [] else [])
          (payloads_of goes ps))
    ∙ ap (append_all b) (sym (payloads-step goes p ps))

module _ {D : Type 0} ⦃d : Double D⦄ where
  run-append_all :
      (cfg : Config) (s : Counters D) (ps : List Packet)
      → cfg.need_payload_dir ≢ 0
      → let new = run cfg s ps in
        (new.fwd_payload_sizes ≡ append_all s.fwd_payload_sizes (payloads_of is_fwd ps))
        × (new.bwd_payload_sizes ≡ append_all s.bwd_payload_sizes (payloads_of is_bwd ps))
  unfolding run append_all
  run-append_all cfg s [] on = (refl, refl)
  run-append_all cfg s (p ∷ ps) on =
      let (fwd1, bwd1) = step_payloads cfg s p.direction p.pkt_len p.payload_len on in
      let new = calc_basic_counters cfg s p.direction p.pkt_len p.payload_len in
      let (fwds, bwds) = run-append_all cfg new ps on in
      (
        join_appends is_fwd p ps s.fwd_payload_sizes fwd1 fwds,
        join_appends is_bwd p ps s.bwd_payload_sizes bwd1 bwds,
      )

  -- When payload sizes by direction are needed, a run of packets stores in each direction's array
  -- the sizes of that direction's payloads, in order, the empty ones left out and as many as there
  -- is room for.
  pub run-payload_sizes :
      (cfg : Config) (s : Counters D) (ps : List Packet)
      → cfg.need_payload_dir ≢ 0
      → IsValid s.fwd_payload_sizes
      → IsValid s.bwd_payload_sizes
      → let new = run cfg s ps in
        (contents new.fwd_payload_sizes
          ≡ take s.fwd_payload_sizes.capacity
              (contents s.fwd_payload_sizes ++ payloads_of is_fwd ps))
        × (contents new.bwd_payload_sizes
            ≡ take s.bwd_payload_sizes.capacity
                (contents s.bwd_payload_sizes ++ payloads_of is_bwd ps))
  run-payload_sizes cfg s ps on f b =
      let (fwds, bwds) = run-append_all cfg s ps on in
      let (held_fwd, _, _) = contents-append_all s.fwd_payload_sizes (payloads_of is_fwd ps) f in
      let (held_bwd, _, _) = contents-append_all s.bwd_payload_sizes (payloads_of is_bwd ps) b in
      (ap contents fwds ∙ held_fwd, ap contents bwds ∙ held_bwd)
