-- ===== src/Payload/Entropy.antt =====
-- src/calc_payload.cpp: the entropies of a payload and its compression ratio. (The chi-square
-- statistic is called nowhere.)
use ti_features.Prelude.{
  ℕ, zero, suc, ◌-◌, ◌&&◌, List, [], ◌∷◌, Option, some, none, add32, ltb, ◌==◌, if◌then◌else◌,
  get_or, set, length, replicate,
}
use ti_features.Double.{Double}

-- `for (i = 0; i < n; i++) acc = body(i, acc)`
unfoldable pub for_each : {A : Type 0} → ℕ → (ℕ → A → A) → A → A
for_each zero body acc = acc
for_each (suc n) body acc = body n (for_each n body acc)

-- `hist[i]++`
abbrev pub bump : List ℕ → ℕ → List ℕ
bump hist i = set hist i (add32 (get_or hist i 0) 1)

-- The counts of the bytes of a payload.
unfoldable pub count_bytes : List ℕ → List ℕ → List ℕ
count_bytes hist [] = hist
count_bytes hist (b ∷ bytes) = count_bytes (bump hist b) bytes

-- The transitions between neighbouring bytes: `trans[a][b]++`, for a matrix as a function.
pub Transitions : Type 0
Transitions = ℕ → ℕ → ℕ

unfoldable pub count_pair : Transitions → ℕ → ℕ → Transitions
unfolding Transitions
count_pair trans a b = λ i j. if (i == a) && (j == b) then add32 (trans i j) 1 else trans i j

unfoldable pub count_pairs : Transitions → List ℕ → Transitions
count_pairs trans [] = trans
count_pairs trans (a ∷ []) = trans
count_pairs trans (a ∷ b ∷ bytes) = count_pairs (count_pair trans a b) (b ∷ bytes)

-- All bytes but the last, which transitions start from.
abbrev pub but_last : List ℕ → List ℕ
but_last [] = []
but_last (a ∷ []) = []
but_last (a ∷ b ∷ bytes) = a ∷ but_last (b ∷ bytes)

module _ {D : Type 0} ⦃d : Double D⦄ where
  -- `entropy -= p * log2(p)` for `p = n / total`, when n is not zero.
  unfoldable pub add_term : ℕ → ℕ → D → D
  add_term total n entropy =
      let p = d.div (d.of_ℕ n) (d.of_ℕ total) in
      if ltb 0 n then d.sub entropy (d.mul p (d.log2 p)) else entropy

  -- `calc_byte_entropy`
  unfoldable pub calc_byte_entropy : List ℕ → D
  calc_byte_entropy bytes =
      let hist = count_bytes (replicate 256 0) bytes in
      if length bytes == 0
      then d.of_ℕ 0
      else for_each 256 (λ i entropy. add_term (length bytes) (get_or hist i 0) entropy) (d.of_ℕ 0)

  -- `calc_markov_entropy`
  unfoldable pub calc_markov_entropy : List ℕ → D
  unfolding Transitions
  calc_markov_entropy bytes =
      let trans = count_pairs (λ i j. 0) bytes in
      let from_count = count_bytes (replicate 256 0) (but_last bytes) in
      let add_row : ℕ → D → D = λ i entropy.
        (let from = get_or from_count i 0 in
          let h = for_each 256 (λ j h. add_term from (trans i j) h) (d.of_ℕ 0) in
          if ltb 0 from
          then d.add entropy (d.mul (d.div (d.of_ℕ from) (d.of_ℕ (length bytes - 1))) h)
          else entropy) in
      if ltb (length bytes) 2 then d.of_ℕ 0 else for_each 256 add_row (d.of_ℕ 0)

  -- `calc_compression_ratio`. `compress` is that of zlib, which gives the compressed length or an
  -- error.
  unfoldable pub calc_compression_ratio : (List ℕ → Option ℕ) → List ℕ → D
  calc_compression_ratio compress bytes =
      if length bytes == 0 then d.of_ℕ 1 else elim (compress bytes) [
        | none ↦ d.of_ℕ 1
        | some compressed_len ↦ d.div (d.of_ℕ compressed_len) (d.of_ℕ (length bytes))
      ]
