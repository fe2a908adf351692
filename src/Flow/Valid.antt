-- ===== src/Flow/Valid.antt =====
-- When the state of a flow is sound: its pool is laid out for its level, its arrays and rings have
-- the room that the pool gives them, and its rings hold given sequences.
use ti_features.Prelude.{
  ℕ, zero, suc, ◌≤◌, ◌≡◌, ap, sym, ◌∙◌, Bool, Option, none, some, List, [], ◌∷◌, ◌++◌, length,
  keep_last, arith, is_set, if◌then◌else◌, set, length-tabulate,
}
use ti_features.CircularBuffer.{CircularBuffer, Zeroed, push}
use ti_features.CircularBuffer.Valid.{
  push_eq, push_into-IsValid, capacity-push_into, elem_size-push_into,
}
use ti_features.CircularBuffer.Refine.{read, contents-push}
use ti_features.MemoryPool.{zeroed_ℕ}
use ti_features.MemoryPool.Upgrade
use ti_features.Rings.Rebound.{Holds}
use ti_features.BoundedArray.{BoundedArray, append, append-IsValid}
use ti_features.BoundedArray
use ti_features.Burst.Records
use ti_features.Window.{Window}
use ti_features.FeatureStats.{Direction}
use ti_features.Flow.{FlowState, SeqRings, zeroed_direction, rings_of}
use ti_features.Flow.Data.{push_if}

-- What a ring holds after a push under a condition.
abbrev pub pushed : {A : Type 0} → Bool → ℕ → List A → A → List A
pushed test s xs x = if test then keep_last s (xs ++ (x ∷ [])) else xs

-- What it holds after a push of what a packet gives to it, if anything.
abbrev pub gained : {A : Type 0} → ℕ → List A → Option A → List A
gained s xs none = xs
gained s xs (some x) = keep_last s (xs ++ (x ∷ []))

module _ {A : Type 0} ⦃z : Zeroed A⦄ where
  pub push-Holds :
      (s size : ℕ) (cb : CircularBuffer A) (xs : List A) (x : A)
      → Holds s size cb xs
      → Holds s size (push cb x).1 (keep_last s (xs ++ (x ∷ [])))
  push-Holds s size cb xs x ((cells, v, same), cap, sized) = rw (push_eq cb cells x v) (
    (
      set cells cb.head x,
      push_into-IsValid cb cells x v,
      contents-push cb cells x v
          ∙ ap (λ l. keep_last cb.capacity (l ++ (x ∷ []))) same
          ∙ ap (λ n. keep_last n (xs ++ (x ∷ []))) cap,
    ),
    capacity-push_into cb cells x ∙ cap,
    elem_size-push_into cb cells x ∙ sized,
  )

  pub push_if-Holds :
      (flag s size : ℕ) (cb : CircularBuffer A) (xs : List A) (x : A)
      → Holds s size cb xs
      → Holds s size (push_if flag cb x) (pushed (is_set flag) s xs x)
  push_if-Holds zero s size cb xs x h = h
  push_if-Holds (suc _) s size cb xs x h = push-Holds s size cb xs x h

  pub length-Holds :
      (s size : ℕ) (cb : CircularBuffer A) (xs : List A) → Holds s size cb xs → length xs ≤ s
  length-Holds s size cb xs ((cells, v, same), cap, sized) =
      let long : length xs ≡ cb.count =
        ap length (sym same) ∙ length-tabulate (read cells cb) cb.count 0 in
      omega (arith, v.count_le)

-- An array with room for so many elements.
abbrev pub HasRoom : {A : Type 0} → ℕ → BoundedArray A → Type 0
HasRoom s b = BoundedArray.IsValid b × (b.capacity ≡ s)

pub append-HasRoom :
    {A : Type 0} (s : ℕ) (b : BoundedArray A) (x : A) → HasRoom s b → HasRoom s (append b x)
append-HasRoom s b x (v, cap) = let (valid, same) = append-IsValid b x v in (valid, same ∙ cap)

-- The sequences that the rings of a flow hold.
pub record Sequences : Type 0 where
  pub pkt_len : List ℕ
  pub iat : List ℕ
  pub dir : List Direction
  pub ts : List ℕ
  pub tcp_window : List ℕ
  pub udp_len : List ℕ
  pub ip_ttl : List ℕ
  pub ip_tos : List ℕ
  pub payload_size : List ℕ
  pub payload_size_diff : List ℕ
  pub l3_len : List ℕ
  pub l4_len : List ℕ
  pub payload_len : List ℕ

pub record AllHold (s : ℕ) (r : SeqRings) (h : Sequences) : Type 0 where
  pub pkt_len_holds : Holds s 4 r.pkt_len_seq h.pkt_len
  pub iat_holds : Holds s 8 r.iat_seq h.iat
  pub dir_holds : Holds s 1 r.dir_seq h.dir
  pub ts_holds : Holds s 8 r.ts_seq h.ts
  pub tcp_window_holds : Holds s 4 r.tcp_window_seq h.tcp_window
  pub udp_len_holds : Holds s 4 r.udp_len_seq h.udp_len
  pub ip_ttl_holds : Holds s 4 r.ip_ttl_seq h.ip_ttl
  pub ip_tos_holds : Holds s 4 r.ip_tos_seq h.ip_tos
  pub payload_size_holds : Holds s 4 r.payload_size_seq h.payload_size
  pub payload_size_diff_holds : Holds s 4 r.payload_size_diff_seq h.payload_size_diff
  pub l3_len_holds : Holds s 4 r.l3_len_seq h.l3_len
  pub l4_len_holds : Holds s 4 r.l4_len_seq h.l4_len
  pub payload_len_holds : Holds s 4 r.payload_len_seq h.payload_len

-- The three arrays of a flow's windows, with room for that many.
abbrev pub HasWindows : ℕ → Window → Type 0
HasWindows n s =
    (s.num_windows ≡ n)
    × (length s.window_pkt_counts ≡ n)
    × (length s.window_byte_counts ≡ n)
    × (length s.window_bitrate ≡ n)

-- The arrays of the components, for `s` elements of a sequence.
pub record HaveRoom {D : Type 0} (s : ℕ) (f : FlowState D) : Type 0 where
  pub fwd_payload_sizes_room : HasRoom s f.counters.fwd_payload_sizes
  pub bwd_payload_sizes_room : HasRoom s f.counters.bwd_payload_sizes
  pub fwd_pkt_lens_room : HasRoom s f.lengths.fwd_pkt_lens
  pub bwd_pkt_lens_room : HasRoom s f.lengths.bwd_pkt_lens
  pub fwd_iats_room : HasRoom s f.iat.fwd_iats
  pub bwd_iats_room : HasRoom s f.iat.bwd_iats
  pub first_n_room : BoundedArray.IsValid f.lengths.first_n_lens
  pub resp_delays_valid : BoundedArray.IsValid f.iat.resp_delays
  pub resp_delays_eq : f.iat.resp_delays.capacity ≡ 1000
  pub burst_room : Records.IsValid s f.burst
  pub windows_room : HasWindows 100 f.window

-- A sound flow whose rings hold given sequences.
pub record Represents {D : Type 0} (f : FlowState D) (h : Sequences) : Type 0 where
  pub pool_valid : Upgrade.IsValid f.mem_pool
  pub windows_eq : f.mem_pool.num_windows ≡ 100
  pub delays_eq : f.mem_pool.resp_delay_capacity ≡ 1000
  pub rings : AllHold f.mem_pool.actual_seq_len (rings_of f) h
  pub room : HaveRoom f.mem_pool.actual_seq_len f
