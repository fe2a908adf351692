-- ===== src/Sequence.antt =====
-- src/calc_sequence.cpp: runs of equal lengths, the chunks of a flow and the rows of its sizes.
pub mod Runs
pub mod Chunks
pub mod Rows
pub mod Printed
pub mod Complexity
pub mod Correlation
use ti_features.Prelude.{
  ℕ, zero, suc, ◌+◌, ◌-◌, Option, none, some, Bool, true, false, ◌&&◌, ◌||◌, List, [], ◌∷◌, add32,
  add64, sub64, ltb, leb, ◌==◌, not, if◌then◌else◌, get_or, length, tabulate, ◌>>=◌,
}
use ti_features.FeatureStats.{Direction, unknown, fwd, bwd}

-- The loop of `calc_run_length` that fills `runs`, with `seq[i - 1]` and `cur`, and the push behind it.
unfoldable pub runs_from : ℕ → ℕ → List ℕ → List ℕ
runs_from last cur [] = cur ∷ []
runs_from last cur (x ∷ xs) =
    let rest = runs_from x (if x == last then add32 cur 1 else 1) xs in
    if x == last then rest else cur ∷ rest

-- The lengths of the runs that `calc_run_length` takes its statistics of.
unfoldable pub length_runs : List ℕ → List ℕ
unfolding runs_from
length_runs [] = []
length_runs (x ∷ xs) = runs_from x 1 xs

-- One packet of the three arrays that `dl_chunk_seq` is made of.
pub record Sample : Type 0 where
  pub ts : ℕ
  pub len : ℕ
  pub dir : Direction

abbrev same_direction : Direction → Direction → Bool
same_direction unknown unknown = true
same_direction fwd fwd = true
same_direction bwd bwd = true
same_direction _ _ = false

-- Whether a packet starts a chunk.
unfoldable pub starts_chunk : Sample → Sample → Bool
starts_chunk last s = not (same_direction s.dir last.dir) || ltb 100000 (sub64 s.ts last.ts)

-- The loop over the packets with `chunk_bytes`, and the last chunk behind it.
unfoldable pub chunks_from : Sample → ℕ → List Sample → List ℕ
unfolding starts_chunk
chunks_from last chunk_bytes [] = if ltb 0 chunk_bytes then chunk_bytes ∷ [] else []
chunks_from last chunk_bytes (s ∷ rest) =
    let split = starts_chunk last s in
    let chunks = chunks_from s (add64 (if split then 0 else chunk_bytes) s.len) rest in
    if split then chunk_bytes ∷ chunks else chunks

-- `dl_chunk_seq`, with the packets of arrays that are as long as each other.
unfoldable pub dl_chunk_seq : List Sample → List ℕ
unfolding chunks_from
dl_chunk_seq [] = []
dl_chunk_seq (s ∷ rest) = chunks_from s s.len rest

-- One entry of `l2l3l4pl_iat`.
pub record Row : Type 0 where
  pub l2 : ℕ
  pub l3 : ℕ
  pub l4 : ℕ
  pub payload : ℕ
  pub iat : ℕ

-- `l2_v`, with what `lens[i]` is when there is an array of lengths.
unfoldable pub l2_of : Option ℕ → ℕ → ℕ → ℕ → ℕ
l2_of none l3 l4 payload = 0
l2_of (some len) l3 l4 payload =
    let inner = add32 (add32 l3 l4) payload in if leb inner len then len - inner else 0

-- `iat_v` at index `i`.
unfoldable pub iat_of : List ℕ → ℕ → ℕ
iat_of iats zero = 0
iat_of iats (suc i) = if ltb i (length iats) then get_or iats i 0 else 0

-- What the loop appends at index `i`.
unfoldable pub row : Option (List ℕ) → List ℕ → List ℕ → List ℕ → List ℕ → ℕ → Row
row lens l3_lens l4_lens payload_lens iats i =
    let l3 = get_or l3_lens i 0 in
    let l4 = get_or l4_lens i 0 in
    let payload = get_or payload_lens i 0 in
    record {
      l2 = l2_of (lens >>= (λ xs. some (get_or xs i 0))) l3 l4 payload;
      l3 = l3;
      l4 = l4;
      payload = payload;
      iat = iat_of iats i;
    }

abbrev smaller : ℕ → ℕ → ℕ
smaller n m = if ltb m n then m else n

-- How many rows there are.
unfoldable pub rows_count : Option (List ℕ) → List ℕ → List ℕ → List ℕ → ℕ
rows_count lens l3_lens l4_lens payload_lens =
    let n = smaller (smaller (length l3_lens) (length l4_lens)) (length payload_lens) in
    elim lens [ none ↦ n | some xs ↦ smaller n (length xs) ]

-- `l2l3l4pl_iat`, before it is printed.
unfoldable pub l2l3l4pl_iat : Option (List ℕ) → List ℕ → List ℕ → List ℕ → List ℕ → List Row
unfolding row rows_count
l2l3l4pl_iat lens l3_lens l4_lens payload_lens iats =
    tabulate (row lens l3_lens l4_lens payload_lens iats)
      (rows_count lens l3_lens l4_lens payload_lens) 0
