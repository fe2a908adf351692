-- ===== src/Sequence/Correlation.antt =====
-- src/calc_sequence.cpp: the autocorrelation of the lengths, the entropy of the directions, and how
-- the lengths go with the directions and the times between packets.
use Prim.Native.String.{String}
use ti_features.Prelude.{
  ℕ, Bool, ◌||◌, Option, none, some, List, [], ◌∷◌, length, map, drop, not, add32, leb, ◌==◌,
  if◌then◌else◌,
}
use ti_features.Double.{Double}
use ti_features.CircularBuffer.{CircularBuffer, Zeroed, get_array}
use ti_features.MemoryPool.{zeroed_ℕ}
use ti_features.FeatureStats.{Direction, unknown, fwd, bwd}
use ti_features.StatsUtils.{sum_by}
use ti_features.Output.{Fields, label}

-- The five sums over pairs of numbers.
pub record Sums (D : Type 0) : Type 0 where
  pub sum_x : D
  pub sum_y : D
  pub sum_xy : D
  pub sum_x2 : D
  pub sum_y2 : D

abbrev pub autocorr_keys : List String
autocorr_keys =
    "length_autocorr_lag_1" ∷ "length_autocorr_lag_2" ∷ "length_autocorr_lag_3"
    ∷ "length_autocorr_lag_4" ∷ "length_autocorr_lag_5" ∷ []

-- The counts of the loop of `calc_direction_entropy`.
unfoldable pub count_directions : ℕ → ℕ → List Direction → ℕ × ℕ
count_directions n_fwd n_bwd [] = (n_fwd, n_bwd)
count_directions n_fwd n_bwd (fwd ∷ dirs) = count_directions (add32 n_fwd 1) n_bwd dirs
count_directions n_fwd n_bwd (bwd ∷ dirs) = count_directions n_fwd (add32 n_bwd 1) dirs
count_directions n_fwd n_bwd (unknown ∷ dirs) = count_directions n_fwd n_bwd dirs

module _ {D : Type 0} ⦃d : Double D⦄ where
  -- The loop of `calc_autocorr` over the pairs that are `lag` apart.
  unfoldable pub autocorr_from : D → D → D → List ℕ → List ℕ → D
  autocorr_from mean num den (x ∷ xs) (y ∷ ys) =
      let d1 = d.sub (d.of_ℕ x) mean in
      autocorr_from mean (d.add num (d.mul d1 (d.sub (d.of_ℕ y) mean))) (d.add den (d.mul d1 d1)) xs
        ys
  autocorr_from mean num den _ _ = if d.lt (d.of_ℕ 0) den then d.div num den else d.of_ℕ 0

  -- `calc_autocorr`
  unfoldable pub calc_autocorr : List ℕ → ℕ → D
  unfolding autocorr_from
  calc_autocorr seq lag =
      let sum = sum_by (λ x. x) (d.of_ℕ 0) (map d.of_ℕ seq) in
      if leb (length seq) lag
      then d.of_ℕ 0
      else autocorr_from (d.div sum (d.of_ℕ (length seq))) (d.of_ℕ 0) (d.of_ℕ 0) seq (drop lag seq)

  -- What `calc_autocorr_packet_length` does with the array, for a `max_lag` of 5.
  unfoldable pub autocorr_fields : Option (List ℕ) × ℕ → Fields D
  unfolding calc_autocorr
  autocorr_fields (none, count) =
      let zero_d = d.of_ℕ 0 in label autocorr_keys (zero_d ∷ zero_d ∷ zero_d ∷ zero_d ∷ zero_d ∷ [])
  autocorr_fields (some seq, count) =
      let at : ℕ → D = λ lag. if leb count 5 then d.of_ℕ 0 else calc_autocorr seq lag in
      label autocorr_keys (at 1 ∷ at 2 ∷ at 3 ∷ at 4 ∷ at 5 ∷ [])

  -- `calc_autocorr_packet_length`, as it is called.
  unfoldable pub calc_autocorr_packet_length : Bool → CircularBuffer ℕ → Fields D
  unfolding autocorr_fields
  calc_autocorr_packet_length allocated pkt_len_seq =
      autocorr_fields (get_array pkt_len_seq allocated)

  -- The entropy of so many forward and backward packets.
  unfoldable pub entropy_of : ℕ × ℕ → D
  entropy_of (n_fwd, n_bwd) =
      let total = d.of_ℕ (add32 n_fwd n_bwd) in
      let p_fwd = d.div (d.of_ℕ n_fwd) total in
      let p_bwd = d.div (d.of_ℕ n_bwd) total in
      if n_fwd == 0 || n_bwd == 0
      then d.of_ℕ 0
      else d.negate (d.add (d.mul p_fwd (d.log2 p_fwd)) (d.mul p_bwd (d.log2 p_bwd)))

  unfoldable pub direction_entropy_of : Option (List Direction) × ℕ → D
  unfolding entropy_of count_directions
  direction_entropy_of (none, count) = d.of_ℕ 0
  direction_entropy_of (some dirs, count) =
      if count == 0 then d.of_ℕ 0 else entropy_of (count_directions 0 0 dirs)

  -- `calc_direction_entropy`
  unfoldable pub calc_direction_entropy :
      ⦃z : Zeroed Direction⦄ → Bool → CircularBuffer Direction → D
  unfolding direction_entropy_of
  calc_direction_entropy allocated dir_seq = direction_entropy_of (get_array dir_seq allocated)

  -- The loop of the correlations, over as many pairs as both have.
  unfoldable pub sums_from : Sums D → List D → List D → Sums D
  sums_from s (x ∷ xs) (y ∷ ys) =
      sums_from
        (record {
          sum_x = d.add s.sum_x x;
          sum_y = d.add s.sum_y y;
          sum_xy = d.add s.sum_xy (d.mul x y);
          sum_x2 = d.add s.sum_x2 (d.mul x x);
          sum_y2 = d.add s.sum_y2 (d.mul y y);
        })
        xs ys
  sums_from s _ _ = s

  abbrev pub no_sums : Sums D
  no_sums = record {
    sum_x = d.of_ℕ 0;
    sum_y = d.of_ℕ 0;
    sum_xy = d.of_ℕ 0;
    sum_x2 = d.of_ℕ 0;
    sum_y2 = d.of_ℕ 0;
  }

  -- The coefficient of so many pairs.
  unfoldable pub coefficient : ℕ → Sums D → D
  coefficient count s =
      let n = d.of_ℕ count in
      let num = d.sub (d.mul n s.sum_xy) (d.mul s.sum_x s.sum_y) in
      let den = d.sqrt (
        d.mul (d.sub (d.mul n s.sum_x2) (d.mul s.sum_x s.sum_x))
          (d.sub (d.mul n s.sum_y2) (d.mul s.sum_y s.sum_y))) in
      if d.lt (d.of_ℕ 0) den then d.div num den else d.of_ℕ 0

  -- `(double)dirs[i]`
  unfoldable pub direction_value : Direction → D
  direction_value fwd = d.of_ℕ 1
  direction_value bwd = d.negate (d.of_ℕ 1)
  direction_value unknown = d.of_ℕ 0

  unfoldable pub direction_correlation_of : Option (List ℕ) × ℕ → Option (List Direction) × ℕ → D
  unfolding coefficient sums_from direction_value
  direction_correlation_of (some pkt_lens, pkt_count) (some dirs, dir_count) =
      if pkt_count == 0 || not (pkt_count == dir_count)
      then d.of_ℕ 0
      else coefficient pkt_count
          (sums_from no_sums (map d.of_ℕ pkt_lens) (map direction_value dirs))
  direction_correlation_of _ _ = d.of_ℕ 0

  -- `calc_length_direction_correlation`, by which of the two arrays there is memory for.
  unfoldable pub calc_length_direction_correlation :
      ⦃z : Zeroed Direction⦄ → Bool → Bool → CircularBuffer ℕ → CircularBuffer Direction → D
  unfolding direction_correlation_of
  calc_length_direction_correlation has_lens has_dirs pkt_len_seq dir_seq =
      direction_correlation_of (get_array pkt_len_seq has_lens) (get_array dir_seq has_dirs)

  unfoldable pub iat_correlation_of : Option (List ℕ) × ℕ → Option (List ℕ) × ℕ → D
  unfolding coefficient sums_from
  iat_correlation_of (some pkt_lens, pkt_count) (some iats, iat_count) =
      if pkt_count == add32 iat_count 1
      then coefficient iat_count (sums_from no_sums (map d.of_ℕ pkt_lens) (map d.of_ℕ iats))
      else d.of_ℕ 0
  iat_correlation_of _ _ = d.of_ℕ 0

  -- `calc_length_iat_correlation`, by which of the two arrays there is memory for.
  unfoldable pub calc_length_iat_correlation : Bool → Bool → CircularBuffer ℕ → CircularBuffer ℕ → D
  unfolding iat_correlation_of
  calc_length_iat_correlation has_lens has_iats pkt_len_seq iat_seq =
      iat_correlation_of (get_array pkt_len_seq has_lens) (get_array iat_seq has_iats)
