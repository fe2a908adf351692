-- ===== src/Sequence/Rows.antt =====
-- The parts in a row add up to the length of its packet.
use ti_features.Prelude.{
  ℕ, ◌+◌, ◌^◌, ◌≤◌, ◌<◌, ◌≡◌, ap, ◌∙◌, some, List, length, get_or, get_or-tabulate, length-tabulate,
  arith,
}
use ti_features.Sequence.{Row, l2_of, row, rows_count, l2l3l4pl_iat}

l2_of-sum :
    (len l3 l4 payload : ℕ)
    → l3 + l4 + payload ≤ len
    → len < 2 ^ 32
    → l2_of (some len) l3 l4 payload + l3 + l4 + payload ≡ len
unfolding l2_of
l2_of-sum len l3 l4 payload h k = ground arith

-- Where the parts of layers 3 and 4 and the payload are no more than the packet's length, an
-- unsigned int, the row for the packet makes up the difference: its four parts add up to the length.
-- There are `rows_count` rows.
l2l3l4pl_iat-sum :
    (lens l3_lens l4_lens payload_lens iats : List ℕ) (i : ℕ) (d : Row)
    → i < rows_count (some lens) l3_lens l4_lens payload_lens
    → get_or l3_lens i 0 + get_or l4_lens i 0 + get_or payload_lens i 0 ≤ get_or lens i 0
    → get_or lens i 0 < 2 ^ 32
    → let rows = l2l3l4pl_iat (some lens) l3_lens l4_lens payload_lens iats in
      let r = get_or rows i d in
      (r.l2 + r.l3 + r.l4 + r.payload ≡ get_or lens i 0)
      × (length rows ≡ rows_count (some lens) l3_lens l4_lens payload_lens)
unfolding l2l3l4pl_iat
l2l3l4pl_iat-sum lens l3_lens l4_lens payload_lens iats i d below fits small =
    let n = rows_count (some lens) l3_lens l4_lens payload_lens in
    let read = row (some lens) l3_lens l4_lens payload_lens iats in
    (
      ap (λ r. r.l2 + r.l3 + r.l4 + r.payload)
            (get_or-tabulate read n 0 i d below ∙ ap read {x = 0 + i} {y = i} (omega arith))
          ∙ l2_of-sum (get_or lens i 0) (get_or l3_lens i 0) (get_or l4_lens i 0)
              (get_or payload_lens i 0) fits small,
      length-tabulate read n 0,
    )
