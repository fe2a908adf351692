-- ===== src/Sequence/Chunks.antt =====
-- The chunks account for every byte of the flow.
use ti_features.Prelude.{
  ℕ, ◌+◌, ◌^◌, ◌≤◌, ◌<◌, ◌≡◌, refl, ◌∙◌, List, [], ◌∷◌, length, total, add64, ltb, if◌then◌else◌,
  Bool-cases, inl, inr, arith,
}
use ti_features.Sequence.{Sample, starts_chunk, chunks_from, dl_chunk_seq}

abbrev pub lengths : List Sample → List ℕ
lengths [] = []
lengths (s ∷ rest) = s.len ∷ lengths rest

last_chunk-total : (n : ℕ) → total (if ltb 0 n then n ∷ [] else []) ≡ n
last_chunk-total n = elim (Bool-cases (ltb 0 n)) [
  | inl e ↦ rw e (omega arith)
  | inr e ↦ rw e (ground arith)
]

last_chunk-length : (n : ℕ) → length (if ltb 0 n then n ∷ [] else []) ≤ 1
last_chunk-length n = elim (Bool-cases (ltb 0 n)) [
  | inl e ↦ rw e (omega arith)
  | inr e ↦ rw e (omega arith)
]

total-chunks_from :
    (last : Sample) (bytes : ℕ) (rest : List Sample)
    → bytes + total (lengths rest) < 2 ^ 64
    → total (chunks_from last bytes rest) ≡ bytes + total (lengths rest)
unfolding chunks_from
total-chunks_from last bytes [] h = last_chunk-total bytes ∙ omega arith
total-chunks_from last bytes (s ∷ rest) h = elim (Bool-cases (starts_chunk last s)) [
  | inl e ↦ rw e (omega (arith, total-chunks_from s (add64 0 s.len) rest (omega arith)))
  | inr e ↦ rw e (omega (arith, total-chunks_from s (add64 bytes s.len) rest (omega arith)))
]

length-chunks_from :
    (last : Sample) (bytes : ℕ) (rest : List Sample)
    → length (chunks_from last bytes rest) ≤ 1 + length rest
unfolding chunks_from
length-chunks_from last bytes [] = last_chunk-length bytes
length-chunks_from last bytes (s ∷ rest) = elim (Bool-cases (starts_chunk last s)) [
  | inl e ↦ rw e (omega (arith, length-chunks_from s (add64 0 s.len) rest))
  | inr e ↦ rw e (omega (arith, length-chunks_from s (add64 bytes s.len) rest))
]

-- When the lengths add up to less than 2 ^ 64, the chunks of `dl_chunk_seq` add up to the same, and
-- there are no more chunks than packets.
total-dl_chunk_seq :
    (packets : List Sample)
    → total (lengths packets) < 2 ^ 64
    → (total (dl_chunk_seq packets) ≡ total (lengths packets))
      × (length (dl_chunk_seq packets) ≤ length packets)
unfolding dl_chunk_seq
total-dl_chunk_seq [] h = (refl, omega arith)
total-dl_chunk_seq (s ∷ rest) h =
    let few = length-chunks_from s s.len rest in (total-chunks_from s s.len rest h, omega arith)
