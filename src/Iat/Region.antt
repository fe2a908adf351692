-- ===== src/Iat/Region.antt =====
-- The memory behind the temporary buffers of a flow: doubles by their place, so that two buffers
-- can meet. `temp_double_buffer` points at place 0.
use ti_features.Prelude.{
  ℕ, zero, suc, ◌+◌, ◌≤◌, ◌<◌, ◌≡◌, ◌≢◌, refl, ◌∙◌, List, [], ◌∷◌, length, tabulate, ◌==◌,
  if◌then◌else◌, arith,
}
use mathlib.Core.Path.{ap₂}

abbrev pub Region : Type 0 → Type 0
Region D = ℕ → D

-- `buf[place] = x`
unfoldable pub write : {D : Type 0} → Region D → ℕ → D → Region D
write mem place x i = if i == place then x else mem i

-- So many doubles from a place on.
abbrev pub read : {D : Type 0} → Region D → ℕ → ℕ → List D
read mem place n = tabulate mem n place

-- The copy of an array to a place.
unfoldable pub copy_to : {D : Type 0} → Region D → ℕ → List D → Region D
unfolding write
copy_to mem place [] = mem
copy_to mem place (x ∷ xs) = copy_to (write mem place x) (place + 1) xs

module _ {D : Type 0} where
  pub write-apart : (mem : Region D) (place i : ℕ) (x : D) → i ≢ place → write mem place x i ≡ mem i
  unfolding write
  write-apart mem place i x h = ground arith

  pub write_self : (mem : Region D) (place : ℕ) (x : D) → write mem place x place ≡ x
  unfolding write
  write_self mem place x = ground arith

  pub copy_to-before :
      (mem : Region D) (place : ℕ) (xs : List D) (i : ℕ)
      → i < place
      → copy_to mem place xs i ≡ mem i
  unfolding copy_to
  copy_to-before mem place [] i h = refl
  copy_to-before mem place (x ∷ xs) i h =
      copy_to-before (write mem place x) (place + 1) xs i (omega arith)
      ∙ write-apart mem place i x (ground arith)

  -- What was copied is read again.
  pub read-copy_to :
      (mem : Region D) (place : ℕ) (xs : List D)
      → read (copy_to mem place xs) place (length xs) ≡ xs
  unfolding copy_to
  read-copy_to mem place [] = refl
  read-copy_to mem place (x ∷ xs) =
      ap₂ ◌∷◌
        (copy_to-before (write mem place x) (place + 1) xs place (omega arith)
          ∙ write_self mem place x)
        (read-copy_to (write mem place x) (place + 1) xs)

  -- Memory before the place is as it was.
  pub read-copy_to_before :
      (mem : Region D) (place : ℕ) (xs : List D) (at n : ℕ)
      → at + n ≤ place
      → read (copy_to mem place xs) at n ≡ read mem at n
  read-copy_to_before mem place xs at zero h = refl
  read-copy_to_before mem place xs at (suc n) h =
      ap₂ ◌∷◌ (copy_to-before mem place xs at (omega arith))
        (read-copy_to_before mem place xs (at + 1) n (omega arith))
