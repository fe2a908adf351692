-- ===== src/Iat/Derived/Keys.antt =====
-- Which fields there are does not depend on the flow.
use ti_features.Prelude.{ℕ, ◌≡◌, refl, ap, List, ◌++◌, length, ltb, leb, ◌&&◌, Bool-cases, inl, inr}
use ti_features.Double.{Double, zeroed_double}
use ti_features.CircularBuffer.{CircularBuffer}
use ti_features.Rings.{TempBuffers}
use ti_features.Output.{keys_of}
use ti_features.Iat.{Iat}
use ti_features.Iat.Region.{Region}
use ti_features.Iat.Features.{sequence_values}
use ti_features.Iat.Derived.{
  head_values, sequence_fields, log_fields, ring_fields, stats_fields, head_keys, sequence_keys,
  log_keys, stats_keys,
}

module _ {D : Type 0} ⦃d : Double D⦄ where
  keys_of-ring_fields :
      (qsort : List D → List D) (bufs : TempBuffers) (ring : CircularBuffer ℕ) (mem : Region D)
      → keys_of (ring_fields qsort bufs ring mem) ≡ head_keys ++ (sequence_keys ++ log_keys)
  unfolding ring_fields head_values sequence_fields log_fields sequence_values
  keys_of-ring_fields qsort bufs ring mem =
      elim (Bool-cases (ltb 0 ring.count && leb ring.count bufs.temp_uint_buffer_size)) [
        | inl e ↦ rw e refl
        | inr e ↦ rw e refl
      ]

  -- Whatever the flow is, also where its ring is empty or does not fit into the buffers, the
  -- fields under `enable_iat_stats` have the same keys in the same order, 35 in all.
  keys_of-stats_fields :
      (qsort : List D → List D) (bufs : TempBuffers) (mem : Region D) (s : Iat D)
      → (keys_of (stats_fields qsort bufs mem s)
          ≡ stats_keys ++ (head_keys ++ (sequence_keys ++ log_keys)))
        × (length (keys_of (stats_fields qsort bufs mem s)) ≡ 35)
  unfolding stats_fields
  keys_of-stats_fields qsort bufs mem s =
      let same = ap (λ l. stats_keys ++ l) (keys_of-ring_fields qsort bufs s.iat_seq mem) in
      (same, ap length same)
