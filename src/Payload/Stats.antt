-- ===== src/Payload/Stats.antt =====
-- src/calc_basic.cpp, `calc_payload_stats`.
use ti_features.Prelude.{
  ℕ, ◌/◌, ◌%◌, Bool, ◌&&◌, List, [], ◌∷◌, Option, add32, ltb, leb, ◌==◌, is_set, if◌then◌else◌,
  length,
}
use ti_features.Double.{Double}
use ti_features.CircularBuffer.{CircularBuffer, push}
use ti_features.MemoryPool.{zeroed_ℕ}
use ti_features.BoundedArray.{BoundedArray, append}
use ti_features.FeatureStats.{RunningStats, running_stats_update}
use ti_features.Payload.{
  looks_like_http, looks_like_json, looks_like_xml, looks_like_tls, looks_like_ssh, set_if,
}
use ti_features.Payload.Entropy.{
  bump, calc_byte_entropy, calc_markov_entropy, calc_compression_ratio,
}

-- The fields of `flow_feature_state_t` that are updated for each byte of a payload.
-- `payload_first_bytes` has room for 256 bytes.
pub record ByteStats (D : Type 0) : Type 0 where
  pub byte_stats : RunningStats D
  pub byte_hist : List ℕ
  pub byte_hist_full : List ℕ
  pub printable_count : ℕ
  pub alnum_count : ℕ
  pub first_bytes : BoundedArray ℕ

-- The flags `payload_looks_like_`.
pub record Shapes : Type 0 where
  pub http : ℕ
  pub json : ℕ
  pub xml : ℕ
  pub tls : ℕ
  pub ssh : ℕ

-- The other fields that `calc_payload_stats` updates.
pub record PayloadStats (D : Type 0) : Type 0 where
  pub size_stats : RunningStats D
  pub size_seq : CircularBuffer ℕ
  pub size_diff_stats : RunningStats D
  pub size_diff_seq : CircularBuffer ℕ
  pub last_payload_len : ℕ
  pub has_last_payload_len : ℕ
  pub total_bytes : ℕ
  pub non_empty_count : ℕ
  pub entropy_stats : RunningStats D
  pub markov_entropy_stats : RunningStats D
  pub compression_ratio_stats : RunningStats D
  pub autocorr_lag1_stats : RunningStats D
  pub shapes : Shapes
  pub bytes : ByteStats D
  pub mod_stats : List (RunningStats D)

-- `payload[i] >= 32 && payload[i] <= 126`
abbrev pub is_printable : ℕ → Bool
is_printable b = leb 32 b && leb b 126

abbrev pub mods : List ℕ
mods = 2 ∷ 4 ∷ 8 ∷ 16 ∷ 32 ∷ 64 ∷ 128 ∷ 256 ∷ []

-- The flags of what payloads have looked like.
unfoldable pub update_shapes : Shapes → List ℕ → Shapes
update_shapes s payload = record {
  http = set_if (looks_like_http payload) s.http;
  json = set_if (looks_like_json payload) s.json;
  xml = set_if (looks_like_xml payload) s.xml;
  tls = set_if (looks_like_tls payload) s.tls;
  ssh = set_if (looks_like_ssh payload) s.ssh;
}

module _ {D : Type 0} ⦃d : Double D⦄ where
  -- The update for one byte. `isalnum` is the C library's.
  unfoldable pub update_byte : (ℕ → Bool) → ByteStats D → ℕ → ByteStats D
  update_byte isalnum s b = record {
    byte_hist = if ltb (b / 16) 16 then bump s.byte_hist (b / 16) else s.byte_hist;
    byte_hist_full = bump s.byte_hist_full b;
    byte_stats = running_stats_update s.byte_stats (d.of_ℕ b);
    printable_count = if is_printable b then add32 s.printable_count 1 else s.printable_count;
    alnum_count = if isalnum b then add32 s.alnum_count 1 else s.alnum_count;
    first_bytes = append s.first_bytes b;
  }

  -- The loop over the bytes of a payload.
  unfoldable pub update_bytes : (ℕ → Bool) → ByteStats D → List ℕ → ByteStats D
  update_bytes isalnum s [] = s
  update_bytes isalnum s (b ∷ payload) = update_bytes isalnum (update_byte isalnum s b) payload

  -- The loop over the moduli.
  unfoldable pub update_mods : List (RunningStats D) → List ℕ → ℕ → List (RunningStats D)
  update_mods [] moduli payload_len = []
  update_mods (s ∷ stats) [] payload_len = s ∷ stats
  update_mods (s ∷ stats) (m ∷ moduli) payload_len =
      running_stats_update s (d.of_ℕ (payload_len % m)) ∷ update_mods stats moduli payload_len

  -- The sum of the bytes.
  unfoldable pub sum_bytes : D → List ℕ → D
  sum_bytes acc [] = acc
  sum_bytes acc (b ∷ payload) = sum_bytes (d.add acc (d.of_ℕ b)) payload

  -- The sums `num` and `den` of the autocorrelation.
  unfoldable pub sum_products : D → D × D → List ℕ → D × D
  sum_products mean sums [] = sums
  sum_products mean sums (a ∷ []) = sums
  sum_products mean (num, den) (a ∷ b ∷ payload) =
      let d1 = d.sub (d.of_ℕ a) mean in
      let d2 = d.sub (d.of_ℕ b) mean in
      sum_products mean (d.add num (d.mul d1 d2), d.add den (d.mul d1 d1)) (b ∷ payload)

  -- The autocorrelation of a payload of at least two bytes.
  unfoldable pub autocorr_lag1 : List ℕ → D
  autocorr_lag1 payload =
      let mean = d.div (sum_bytes (d.of_ℕ 0) payload) (d.of_ℕ (length payload)) in
      let (num, den) = sum_products mean (d.of_ℕ 0, d.of_ℕ 0) payload in
      if d.lt (d.of_ℕ 0) den then d.div num den else d.of_ℕ 0

  -- The difference to the last payload's length.
  unfoldable pub update_diff : PayloadStats D → ℕ → PayloadStats D
  update_diff s payload_len =
      let diff = d.abs (d.sub (d.of_ℕ payload_len) (d.of_ℕ s.last_payload_len)) in
      if is_set s.has_last_payload_len
      then record s {
        size_diff_stats = running_stats_update s.size_diff_stats diff;
        size_diff_seq = (push s.size_diff_seq (d.to_ℕ diff)).1;
      }
      else s

  -- `calc_payload_stats`
  unfoldable pub calc_payload_stats :
      (List ℕ → Option ℕ) → (ℕ → Bool) → PayloadStats D → List ℕ → PayloadStats D
  calc_payload_stats compress isalnum s payload =
      let payload_len = length payload in
      let s1 = update_diff s payload_len in
      if payload_len == 0 then s else record s1 {
        size_stats = running_stats_update s.size_stats (d.of_ℕ payload_len);
        size_seq = (push s.size_seq payload_len).1;
        last_payload_len = payload_len;
        has_last_payload_len = 1;
        total_bytes = add32 s.total_bytes payload_len;
        non_empty_count = add32 s.non_empty_count 1;
        entropy_stats = running_stats_update s.entropy_stats (calc_byte_entropy payload);
        markov_entropy_stats =
            running_stats_update s.markov_entropy_stats (calc_markov_entropy payload);
        compression_ratio_stats =
            running_stats_update s.compression_ratio_stats
              (calc_compression_ratio compress payload);
        autocorr_lag1_stats =
            if ltb 1 payload_len
            then running_stats_update s.autocorr_lag1_stats (autocorr_lag1 payload)
            else s.autocorr_lag1_stats;
        shapes = update_shapes s.shapes payload;
        bytes = update_bytes isalnum s.bytes payload;
        mod_stats = update_mods s.mod_stats mods payload_len;
      }
