-- ===== src/Payload/Bytes.antt =====
-- The statistics of bytes, against counts over the bytes of a payload.
use ti_features.Prelude.{
  ℕ, ◌+◌, ◌/◌, ◌%◌, ◌^◌, ◌<◌, ◌≡◌, ap, sym, ◌∙◌, Bool, List, [], ◌∷◌, ◌++◌, arith, lt→ltb, ◌==◌,
  if◌then◌else◌, get_or, length, length-set, get_or-set_self, get_or-set_ne, take, Bool-cases, inl,
  inr, add32,
}
use ti_features.Double.{Double}
use ti_features.BoundedArray.{append, append_all, IsValid, contents, contents-append_all}
use ti_features.Payload.Entropy.{bump}
use ti_features.Payload.Stats.{ByteStats, is_printable, update_byte, update_bytes}

-- How many bytes pass a test.
abbrev pub count_of : (ℕ → Bool) → List ℕ → ℕ
count_of test [] = 0
count_of test (b ∷ payload) = (if test b then 1 else 0) + count_of test payload

-- Every element is a byte.
abbrev pub AreBytes : List ℕ → Type 0
AreBytes [] = Unit {0}
AreBytes (b ∷ payload) = (b < 256) × AreBytes payload

get_or-bump :
    (hist : List ℕ) (i j : ℕ)
    → i < length hist
    → get_or (bump hist i) j 0 ≡ (if i == j then add32 (get_or hist j 0) 1 else get_or hist j 0)
get_or-bump hist i j h = elim (Bool-cases (i == j)) [
  | inl e ↦
      (let same : i ≡ j = ground arith in
        rw e (
          ap (λ k. get_or (bump hist i) k 0) (sym same)
          ∙ get_or-set_self hist i (add32 (get_or hist i 0) 1) 0 h
          ∙ ap (λ k. add32 (get_or hist k 0) 1) same))
  | inr e ↦ rw e (get_or-set_ne hist i j (add32 (get_or hist i 0) 1) 0 (ground arith))
]

module _ {D : Type 0} ⦃d : Double D⦄ where
  step_hist :
      (isalnum : ℕ → Bool) (s : ByteStats D) (b v : ℕ)
      → length s.byte_hist ≡ 16
      → length s.byte_hist_full ≡ 256
      → b < 256
      → let new = update_byte isalnum s b in
        (length new.byte_hist ≡ 16)
        × (length new.byte_hist_full ≡ 256)
        × (get_or new.byte_hist_full v 0 % 2 ^ 32
            ≡ (get_or s.byte_hist_full v 0 + (if b == v then 1 else 0)) % 2 ^ 32)
        × (get_or new.byte_hist v 0 % 2 ^ 32
            ≡ (get_or s.byte_hist v 0 + (if b / 16 == v then 1 else 0)) % 2 ^ 32)
  unfolding update_byte
  step_hist isalnum s b v coarse full h = rw (lt→ltb (b / 16) 16 (omega arith)) (
      ground (
        arith,
        length-set s.byte_hist (b / 16) (add32 (get_or s.byte_hist (b / 16) 0) 1),
        length-set s.byte_hist_full b (add32 (get_or s.byte_hist_full b 0) 1),
        get_or-bump s.byte_hist (b / 16) v (omega arith),
        get_or-bump s.byte_hist_full b v (omega arith),
      ))

  -- With histograms of 16 and of 256 bins, each bin of the full one has grown after a payload by
  -- the number of its bytes with the bin's value, and each bin of the coarse one by the number of
  -- bytes of its sixteenth of the values (modulo 2 ^ 32); no byte is lost.
  pub update_bytes-hist :
      (isalnum : ℕ → Bool) (s : ByteStats D) (payload : List ℕ) (v : ℕ)
      → length s.byte_hist ≡ 16
      → length s.byte_hist_full ≡ 256
      → AreBytes payload
      → let new = update_bytes isalnum s payload in
        (get_or new.byte_hist_full v 0 % 2 ^ 32
          ≡ (get_or s.byte_hist_full v 0 + count_of (λ b. b == v) payload) % 2 ^ 32)
        × (get_or new.byte_hist v 0 % 2 ^ 32
            ≡ (get_or s.byte_hist v 0 + count_of (λ b. b / 16 == v) payload) % 2 ^ 32)
  unfolding update_bytes
  update_bytes-hist isalnum s [] v coarse full ok = ground arith
  update_bytes-hist isalnum s (b ∷ payload) v coarse full (small, ok) =
      let (coarse1, full1, fine, sixteenth) = step_hist isalnum s b v coarse full small in
      let (rest_full, rest) =
        update_bytes-hist isalnum (update_byte isalnum s b) payload v coarse1 full1 ok in
      ground arith

  step_counts :
      (isalnum : ℕ → Bool) (s : ByteStats D) (b : ℕ)
      → let new = update_byte isalnum s b in
        (new.printable_count % 2 ^ 32
          ≡ (s.printable_count + (if is_printable b then 1 else 0)) % 2 ^ 32)
        × (new.alnum_count % 2 ^ 32 ≡ (s.alnum_count + (if isalnum b then 1 else 0)) % 2 ^ 32)
        × (new.first_bytes ≡ append s.first_bytes b)
  unfolding update_byte
  step_counts isalnum s b = ground arith

  all_counts :
      (isalnum : ℕ → Bool) (s : ByteStats D) (payload : List ℕ)
      → let new = update_bytes isalnum s payload in
        (new.printable_count % 2 ^ 32
          ≡ (s.printable_count + count_of is_printable payload) % 2 ^ 32)
        × (new.alnum_count % 2 ^ 32 ≡ (s.alnum_count + count_of isalnum payload) % 2 ^ 32)
        × (new.first_bytes ≡ append_all s.first_bytes payload)
  unfolding update_bytes append_all
  all_counts isalnum s [] = ground arith
  all_counts isalnum s (b ∷ payload) =
      let (printable, alnum, first) = step_counts isalnum s b in
      let (printables, alnums, rest) = all_counts isalnum (update_byte isalnum s b) payload in
      (omega arith, omega arith, rest ∙ ap (λ a. append_all a payload) first)

  -- After a payload the counts of printable and of alphanumeric bytes have grown by the number of
  -- these bytes (modulo 2 ^ 32), and its bytes are appended to the first bytes of the flow, as many
  -- as there is room for.
  update_bytes-counts :
      (isalnum : ℕ → Bool) (s : ByteStats D) (payload : List ℕ)
      → IsValid s.first_bytes
      → let new = update_bytes isalnum s payload in
        (new.printable_count % 2 ^ 32
          ≡ (s.printable_count + count_of is_printable payload) % 2 ^ 32)
        × (new.alnum_count % 2 ^ 32 ≡ (s.alnum_count + count_of isalnum payload) % 2 ^ 32)
        × (contents new.first_bytes
            ≡ take s.first_bytes.capacity (contents s.first_bytes ++ payload))
  update_bytes-counts isalnum s payload v =
      let (held, _, _) = contents-append_all s.first_bytes payload v in
      let (printable, alnum, first) = all_counts isalnum s payload in
      (printable, alnum, ap contents first ∙ held)
