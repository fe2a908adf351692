-- ===== src/Protocol/Segments.antt =====
-- Retransmissions, and the two kinds of SYN.
use ti_features.Prelude.{
  ℕ, zero, suc, ◌+◌, ◌%◌, ◌^◌, ◌≡◌, refl, ap, ◌∙◌, Bool, ◌&&◌, List, [], ◌∷◌, Option, some, none,
  arith, ltb, leb, is_set, if◌then◌else◌,
}
use ti_features.Double.{Double}
use ti_features.FeatureStats.{Direction, unknown, fwd, bwd, is_fwd, is_bwd}
use ti_features.Protocol.{
  Tcp, TcpFlags, count_flags, time_rst, update_window, check_retransmission,
  calc_protocol_tcp_update,
}
use ti_features.Protocol.Flags.{Segment, run, step, step_flags}

-- `x` put before `xs` under a condition.
abbrev cons_if : Bool → ℕ → List ℕ → List ℕ
cons_if test x xs = if test then x ∷ xs else xs

-- The sequence numbers of the segments of a direction that have a payload.
abbrev pub seqs_of : (Direction → Bool) → List Segment → List ℕ
seqs_of goes [] = []
seqs_of goes (p ∷ ps) =
    cons_if (goes p.direction && ltb 0 p.payload_len) p.tcp_seq (seqs_of goes ps)

-- How many numbers of a list are not greater than the number before them, for a list that follows
-- a number or nothing.
abbrev pub descents : Option ℕ → List ℕ → ℕ
descents before [] = 0
descents none (x ∷ xs) = descents (some x) xs
descents (some y) (x ∷ xs) = (if leb x y then 1 else 0) + descents (some x) xs

-- A number that is there when its flag is set.
abbrev pub if_has : ℕ → ℕ → Option ℕ
if_has has last = if is_set has then some last else none

descents-cons :
    (has last x : ℕ) (xs : List ℕ)
    → descents (if_has has last) (x ∷ xs)
      ≡ (if is_set has && leb x last then 1 else 0) + descents (some x) xs
descents-cons zero last x xs = omega arith
descents-cons (suc has) last x xs = refl

module _ {D : Type 0} ⦃d : Double D⦄ where
  -- The counted and the remaining descents together.
  abbrev pub all_descents : Tcp D → List ℕ → List ℕ → ℕ
  all_descents s xs ys =
      s.tcp_retransmission_count
      + descents (if_has s.has_last_fwd_seq s.last_fwd_seq) xs
      + descents (if_has s.has_last_bwd_seq s.last_bwd_seq) ys

  check_descents :
      (s : Tcp D) (direction : Direction) (payload_len tcp_seq : ℕ) (xs ys : List ℕ)
      → all_descents (check_retransmission s direction payload_len tcp_seq) xs ys % 2 ^ 32
        ≡ all_descents s
            (cons_if (is_fwd direction && ltb 0 payload_len) tcp_seq xs)
            (cons_if (is_bwd direction && ltb 0 payload_len) tcp_seq ys)
          % 2 ^ 32
  unfolding check_retransmission
  check_descents s fwd payload_len tcp_seq xs ys =
      ground (arith, descents-cons s.has_last_fwd_seq s.last_fwd_seq tcp_seq xs)
  check_descents s bwd payload_len tcp_seq xs ys =
      ground (arith, descents-cons s.has_last_bwd_seq s.last_bwd_seq tcp_seq ys)
  check_descents s unknown payload_len tcp_seq xs ys = refl

  -- The fields that the check of retransmissions reads and changes.
  abbrev SameSeqs : Tcp D → Tcp D → Type 0
  SameSeqs s t =
      (t.tcp_retransmission_count ≡ s.tcp_retransmission_count)
      × (t.has_last_fwd_seq ≡ s.has_last_fwd_seq)
      × (t.has_last_bwd_seq ≡ s.has_last_bwd_seq)
      × (t.last_fwd_seq ≡ s.last_fwd_seq)
      × (t.last_bwd_seq ≡ s.last_bwd_seq)

  SameSeqs-descents :
      (s t : Tcp D) (xs ys : List ℕ) → SameSeqs s t → all_descents t xs ys ≡ all_descents s xs ys
  SameSeqs-descents s t xs ys (count, has_fwd, has_bwd, last_fwd, last_bwd) =
      rw count (rw has_fwd (rw has_bwd (rw last_fwd (rw last_bwd refl))))

  rst_seqs : (s : Tcp D) (flags : TcpFlags) (ts_us : ℕ) → SameSeqs s (time_rst s flags ts_us)
  unfolding time_rst
  rst_seqs s flags ts_us = ground arith

  -- The state that `calc_protocol_tcp_update` checks for retransmissions.
  abbrev before_check : Tcp D → Segment → Tcp D
  before_check s p =
      update_window (time_rst (count_flags s p.flags p.payload_len) p.flags p.ts_us) p.flags
        p.payload_len p.window

  before_check_seqs : (s : Tcp D) (p : Segment) → SameSeqs s (before_check s p)
  unfolding update_window count_flags
  before_check_seqs s p = rst_seqs (count_flags s p.flags p.payload_len) p.flags p.ts_us

  step_descents :
      (s : Tcp D) (p : Segment) (xs ys : List ℕ)
      → all_descents (step s p) xs ys % 2 ^ 32
        ≡ all_descents s
            (cons_if (is_fwd p.direction && ltb 0 p.payload_len) p.tcp_seq xs)
            (cons_if (is_bwd p.direction && ltb 0 p.payload_len) p.tcp_seq ys)
          % 2 ^ 32
  unfolding calc_protocol_tcp_update
  step_descents s p xs ys =
      check_descents (before_check s p) p.direction p.payload_len p.tcp_seq xs ys
      ∙ ap (λ n. n % 2 ^ 32) (SameSeqs-descents s (before_check s p) _ _ (before_check_seqs s p))

  -- A run of segments counts as retransmissions (modulo 2 ^ 32) the descents in the sequence
  -- numbers of the forward segments with a payload, and those in the sequence numbers of the
  -- backward ones, each list following the last number that is stored for its direction, whatever
  -- the order is in which the two directions interleave.
  pub run-descents :
      (s : Tcp D) (ps : List Segment)
      → (run s ps).tcp_retransmission_count % 2 ^ 32
        ≡ (s.tcp_retransmission_count
            + descents (if_has s.has_last_fwd_seq s.last_fwd_seq) (seqs_of is_fwd ps)
            + descents (if_has s.has_last_bwd_seq s.last_bwd_seq) (seqs_of is_bwd ps))
          % 2 ^ 32
  unfolding run
  run-descents s [] = ground arith
  run-descents s (p ∷ ps) =
      run-descents (step s p) ps ∙ step_descents s p (seqs_of is_fwd ps) (seqs_of is_bwd ps)

  -- SYN segments with and without ACK make up all SYN segments (modulo 2 ^ 32), after a run of
  -- segments as before it.
  run-syn_split :
      (s : Tcp D) (ps : List Segment)
      → (s.tcp_syn_only_count + s.tcp_syn_ack_count) % 2 ^ 32 ≡ s.tcp_syn_count % 2 ^ 32
      → ((run s ps).tcp_syn_only_count + (run s ps).tcp_syn_ack_count) % 2 ^ 32
        ≡ (run s ps).tcp_syn_count % 2 ^ 32
  unfolding run
  run-syn_split s [] split = split
  run-syn_split s (p ∷ ps) split = run-syn_split (step s p) ps (ground (arith, step_flags s p))
