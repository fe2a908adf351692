-- ===== src/Iat/Derived/Buffers.antt =====
-- What the temporary buffers hold when `calc_derived_iat` reads them: the second one, which was
-- filled with logarithms, is the place where the sequence was sorted.
use mathlib.Core.Path.{ap₂}
use ti_features.Prelude.{
  ℕ, zero, suc, ◌+◌, ◌≤◌, ◌<◌, ◌≡◌, refl, sym, ap, ◌∙◌, true, some, List, [], ◌∷◌, ◌++◌, map,
  length, length-map, length-tabulate, tabulate, tabulate_ext, get_or-tabulate, ltb, leb, lt→ltb,
  le→leb, arith,
}
use ti_features.Double.{Double, zeroed_double}
use ti_features.MemoryPool.{Pool, zeroed_ℕ}
use ti_features.CircularBuffer.{CircularBuffer, get}
use ti_features.CircularBuffer.Valid.{IsValid}
use ti_features.CircularBuffer.Refine.{contents, read as read_ring}
use ti_features.CircularBuffer.Read.{get_lem}
use ti_features.Rings.{TempBuffers, bind_temp_buffers}
use ti_features.Rings.Temporaries.{bounded, bind_temp_buffers-bounds}
use ti_features.Output.{label}
use ti_features.Iat.Region.{Region, write, read, copy_to, write-apart, write_self, read-copy_to}
use ti_features.Iat.Features.{
  sequence_values, values, second_place, distance, fill_both, refill, sort_region, prepare, log_of,
}
use ti_features.Iat.Derived.{
  ready, sorted_logs, head_values, sequence_fields, log_fields, ring_fields, head_keys,
  sequence_keys, log_keys,
}

map-tabulate :
    (read_at : ℕ → ℕ) (n i : ℕ)
    → map some (tabulate read_at n i) ≡ tabulate (λ k. some (read_at k)) n i
map-tabulate read_at zero i = refl
map-tabulate read_at (suc n) i = ap (λ l. some (read_at i) ∷ l) (map-tabulate read_at n (i + 1))

get-contents :
    (ring : CircularBuffer ℕ) (xs : List ℕ) (k : ℕ)
    → IsValid ring xs
    → k < ring.count
    → get ring k ≡ some (read_ring xs ring k)
get-contents ring xs k v h =
    let e = lt→ltb k ring.count h in
    get_lem ring xs k v
    ∙ rw e (
        ap some (
          get_or-tabulate (read_ring xs ring) ring.count 0 k 0 h
          ∙ ap (read_ring xs ring) {x = 0 + k} {y = k} (omega arith)))

-- The elements of a valid ring are there by index.
values-contents :
    (ring : CircularBuffer ℕ) (xs : List ℕ)
    → IsValid ring xs
    → values ring ≡ map some (contents xs ring)
unfolding values
values-contents ring xs v =
    tabulate_ext (get ring) (λ k. some (read_ring xs ring k)) ring.count 0 0
      (λ k h. get-contents ring xs (0 + k) v (omega arith))
    ∙ sym (map-tabulate (read_ring xs ring) ring.count 0)

module _ {D : Type 0} ⦃d : Double D⦄ where
  fill_both-before :
      (mem : Region D) (second i : ℕ) (ns : List ℕ) (k : ℕ)
      → k < i
      → i + length ns ≤ second
      → fill_both mem second i (map some ns) k ≡ mem k
  unfolding fill_both
  fill_both-before mem second i [] k h room = refl
  fill_both-before mem second i (n ∷ ns) k h room =
      let first = write mem i (d.of_ℕ n) in
      fill_both-before (write first (second + i) (log_of n)) second (i + 1) ns k (omega arith)
        (omega arith)
      ∙ write-apart first (second + i) k (log_of n) (ground arith)
      ∙ write-apart mem i k (d.of_ℕ n) (ground arith)

  -- The first loop leaves the sequence in the first buffer.
  read-fill_both :
      (mem : Region D) (second i : ℕ) (ns : List ℕ)
      → i + length ns ≤ second
      → read (fill_both mem second i (map some ns)) i (length ns) ≡ map d.of_ℕ ns
  unfolding fill_both
  read-fill_both mem second i [] room = refl
  read-fill_both mem second i (n ∷ ns) room =
      let first = write mem i (d.of_ℕ n) in
      let both = write first (second + i) (log_of n) in
      ap₂ ◌∷◌
        (fill_both-before both second (i + 1) ns i (omega arith) (omega arith)
          ∙ write-apart first (second + i) i (log_of n) (ground arith)
          ∙ write_self mem i (d.of_ℕ n))
        (read-fill_both both second (i + 1) ns (omega arith))

  refill-before :
      (mem : Region D) (i : ℕ) (ns : List ℕ) (k : ℕ) → k < i → refill mem i (map some ns) k ≡ mem k
  unfolding refill
  refill-before mem i [] k h = refl
  refill-before mem i (n ∷ ns) k h =
      refill-before (write mem i (d.of_ℕ n)) (i + 1) ns k (omega arith)
      ∙ write-apart mem i k (d.of_ℕ n) (ground arith)

  refill-after :
      (mem : Region D) (i : ℕ) (ns : List ℕ) (k : ℕ)
      → i + length ns ≤ k
      → refill mem i (map some ns) k ≡ mem k
  unfolding refill
  refill-after mem i [] k h = refl
  refill-after mem i (n ∷ ns) k h =
      refill-after (write mem i (d.of_ℕ n)) (i + 1) ns k (omega arith)
      ∙ write-apart mem i k (d.of_ℕ n) (ground arith)

  read-refill :
      (mem : Region D) (i : ℕ) (ns : List ℕ)
      → read (refill mem i (map some ns)) i (length ns) ≡ map d.of_ℕ ns
  unfolding refill
  read-refill mem i [] = refl
  read-refill mem i (n ∷ ns) =
      let first = write mem i (d.of_ℕ n) in
      ap₂ ◌∷◌ (refill-before first (i + 1) ns i (omega arith) ∙ write_self mem i (d.of_ℕ n))
        (read-refill first (i + 1) ns)

  -- The second loop leaves the sorted copy behind the first buffer alone.
  read-refill_after :
      (mem : Region D) (ns : List ℕ) (place n : ℕ)
      → length ns ≤ place
      → read (refill mem 0 (map some ns)) place n ≡ read mem place n
  read-refill_after mem ns place zero h = refl
  read-refill_after mem ns place (suc n) h =
      ap₂ ◌∷◌ (refill-after mem 0 ns place (omega arith))
        (read-refill_after mem ns (place + 1) n (omega arith))

-- What the theorem needs of the sort: it keeps the length, and leaves what it has sorted.
pub record SortsOnce {A : Type 0} (qsort : List A → List A) : Type 0 where
  pub length-qsort : (xs : List A) → length (qsort xs) ≡ length xs
  pub qsort-qsort : (xs : List A) → qsort (qsort xs) ≡ qsort xs

module _ {D : Type 0} ⦃d : Double D⦄ (qsort : List D → List D) (q : SortsOnce qsort) where
  -- An array that is copied to a place and sorted there.
  read-sort_copy :
      (m : Region D) (place n : ℕ) (arr : List D)
      → length arr ≡ n
      → read (sort_region qsort (copy_to m place arr) place n) place n ≡ qsort arr
  unfolding sort_region
  read-sort_copy m place n arr len =
      let same : read (copy_to m place arr) place n ≡ arr =
        ap (read (copy_to m place arr) place) (sym len) ∙ read-copy_to m place arr in
      rw same (
        ap (read (copy_to (copy_to m place arr) place (qsort arr)) place)
          (sym len ∙ sym (q.length-qsort arr))
        ∙ read-copy_to (copy_to m place arr) place (qsort arr))

  module _ (bufs : TempBuffers) (ns : List ℕ) (mem : Region D) where
    read-prepare :
        length ns ≤ second_place bufs
        → read (prepare qsort bufs (map some ns) mem) bufs.temp_uint_buffer_size (length ns)
          ≡ qsort (map d.of_ℕ ns)
    unfolding prepare
    read-prepare room =
        let filled = fill_both mem (second_place bufs) 0 (map some ns) in
        rw (length-map some ns) (
          read-sort_copy filled bufs.temp_uint_buffer_size (length ns) (read filled 0 (length ns))
            (length-tabulate filled (length ns) 0)
          ∙ ap qsort (read-fill_both mem (second_place bufs) 0 ns (omega arith)))

    -- The first buffer holds the sequence, and what follows it the sorted copy.
    read-ready :
        length ns ≤ second_place bufs
        → length ns ≤ bufs.temp_uint_buffer_size
        → (read (ready qsort bufs (map some ns) mem) 0 (length ns) ≡ map d.of_ℕ ns)
          × (read (ready qsort bufs (map some ns) mem) bufs.temp_uint_buffer_size (length ns)
              ≡ qsort (map d.of_ℕ ns))
    unfolding ready
    read-ready room fits =
        let prepared = prepare qsort bufs (map some ns) mem in
        (
          read-refill prepared 0 ns,
          read-refill_after prepared ns bufs.temp_uint_buffer_size (length ns) fits
              ∙ read-prepare room,
        )

  read-sorted_logs :
      (bufs : TempBuffers) (n : ℕ) (m : Region D)
      → read (sorted_logs qsort bufs n m) bufs.temp_uint_buffer_size n
        ≡ qsort (read m (second_place bufs) n)
  unfolding sorted_logs
  read-sorted_logs bufs n m =
      read-sort_copy m bufs.temp_uint_buffer_size n (read m (second_place bufs) n)
        (length-tabulate m n (second_place bufs))

  -- With the two buffers as far apart as the first is long, what the fields are taken from.
  fields_at :
      (bufs : TempBuffers) (ns : List ℕ) (mem : Region D)
      → second_place bufs ≡ bufs.temp_uint_buffer_size
      → length ns ≤ bufs.temp_uint_buffer_size
      → let now = ready qsort bufs (map some ns) mem in
        let arr = map d.of_ℕ ns in
        let sorted = qsort arr in
        let n = length ns in
        (label head_keys (head_values (read now 0 n) (read now bufs.temp_uint_buffer_size n))
          ≡ label head_keys (head_values arr sorted))
        × (sequence_fields bufs n now ≡ label sequence_keys (sequence_values arr sorted arr))
        × (log_fields qsort bufs n now ≡ label log_keys (sequence_values sorted sorted sorted))
  unfolding sequence_fields log_fields
  fields_at bufs ns mem meets fits =
      let now = ready qsort bufs (map some ns) mem in
      let n = length ns in
      let (first, second) = read-ready bufs ns mem (omega arith) fits in
      let sorted = qsort (map d.of_ℕ ns) in
      let at_second : read now (second_place bufs) n ≡ sorted =
        ap (λ k. read now k n) meets ∙ second in
      let last = sorted_logs qsort bufs n now in
      let last_at : read last bufs.temp_uint_buffer_size n ≡ sorted =
        read-sorted_logs bufs n now ∙ ap qsort at_second ∙ q.qsort-qsort (map d.of_ℕ ns) in
      let last_second : read last (second_place bufs) n ≡ sorted =
        ap (λ k. read last k n) meets ∙ last_at in
      (
        ap₂ (λ a b. label head_keys (head_values a b)) first second,
        ap₂ (λ a b. label sequence_keys (sequence_values a b a)) first second,
        ap
              (λ a. label log_keys (
                sequence_values a (read last bufs.temp_uint_buffer_size n)
                  (read last (second_place bufs) n)))
              at_second
            ∙ ap₂ (λ b c. label log_keys (sequence_values sorted b c)) last_at last_second,
      )

  -- The fields of a ring that holds the sequence.
  ring_fields_at :
      (bufs : TempBuffers) (ring : CircularBuffer ℕ) (ns : List ℕ) (mem : Region D)
      → values ring ≡ map some ns
      → ring.count ≡ length ns
      → 0 < length ns
      → second_place bufs ≡ bufs.temp_uint_buffer_size
      → length ns ≤ bufs.temp_uint_buffer_size
      → let arr = map d.of_ℕ ns in
        let sorted = qsort arr in
        ring_fields qsort bufs ring mem
        ≡ label head_keys (head_values arr sorted)
          ++ (label sequence_keys (sequence_values arr sorted arr)
              ++ label log_keys (sequence_values sorted sorted sorted))
  unfolding ring_fields
  ring_fields_at bufs ring ns mem held count pos meets fits =
      let (head, first, logs) = fields_at bufs ns mem meets fits in
      let some_left : ltb 0 (length ns) ≡ true = lt→ltb 0 (length ns) pos in
      let within : leb (length ns) bufs.temp_uint_buffer_size ≡ true =
        le→leb (length ns) bufs.temp_uint_buffer_size fits in
      rw (held) (
        rw count
          (rw (some_left, within) (ap₂ (λ a b. a ++ b) head (ap₂ (λ a b. a ++ b) first logs))))

  -- For a sort that keeps the length and leaves what it has sorted, and a flow with temporary
  -- buffers for at least as many doubles as its ring of times between packets holds, which is valid and
  -- not empty: the fields of the sequence are those of the sequence and its sorted copy. Those under
  -- `log_iat_sequence_` are the same nine numbers of the sorted copy, and hold no logarithm.
  pub ring_fields_lem :
      (pool : Pool D) (seq_len : ℕ) (ring : CircularBuffer ℕ) (xs : List ℕ) (mem : Region D)
      → IsValid ring xs
      → 16 ≤ pool.temp_mem_size
      → 0 < ring.count
      → ring.count ≤ bounded pool seq_len
      → let bufs = (bind_temp_buffers pool seq_len).0 in
        let arr = map d.of_ℕ (contents xs ring) in
        let sorted = qsort arr in
        ring_fields qsort bufs ring mem
        ≡ label head_keys (head_values arr sorted)
          ++ (label sequence_keys (sequence_values arr sorted arr)
              ++ label log_keys (sequence_values sorted sorted sorted))
  ring_fields_lem pool seq_len ring xs mem v room pos fits =
      let bufs = (bind_temp_buffers pool seq_len).0 in
      let n = bounded pool seq_len in
      let (place, first, second, size, _, _) =
        bind_temp_buffers-bounds pool seq_len room (ground arith) in
      let len = length-tabulate (read_ring xs ring) ring.count 0 in
      ring_fields_at bufs ring (contents xs ring) mem (values-contents ring xs v) (sym len)
        (omega arith) (ap₂ distance first second ∙ omega arith) (omega arith)
