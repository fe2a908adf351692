-- ===== src/Sequence/Complexity.antt =====
-- src/calc_sequence.cpp, `calc_lz78_complexity`: how many phrases a sequence has.
pub mod Phrases
use ti_features.Prelude.{
  ℕ, ◌+◌, Bool, true, false, ◌&&◌, ◌||◌, List, [], ◌∷◌, ◌++◌, length, leb, ◌==◌, if◌then◌else◌,
}
use ti_features.Double.{Double}

-- Whether two texts are the same, as the codes of their characters.
unfoldable pub same_text : List ℕ → List ℕ → Bool
same_text [] [] = true
same_text [] (c ∷ text) = false
same_text (c ∷ text) [] = false
same_text (c ∷ text) (e ∷ text2) = c == e && same_text text text2

-- `dict.find(cur) != dict.end()`
unfoldable pub is_in : List (List ℕ) → List ℕ → Bool
unfolding same_text
is_in [] cur = false
is_in (text ∷ dict) cur = same_text text cur || is_in dict cur

-- `std::to_string(seq[j]) + "|"`, where `print` is what `std::to_string` makes of a number.
abbrev pub piece : (ℕ → List ℕ) → ℕ → List ℕ
piece print x = print x ++ (124 ∷ [])

-- The two loops, which together pass over the sequence once: where the inner one breaks off, the
-- outer one goes on behind that number with an empty `cur`.
unfoldable pub phrases_from : (ℕ → List ℕ) → List (List ℕ) → ℕ → List ℕ → List ℕ → ℕ
unfolding is_in
phrases_from print dict phrases cur [] = phrases
phrases_from print dict phrases cur (x ∷ seq) =
    let next = cur ++ piece print x in
    let found = is_in dict next in
    phrases_from print (if found then dict else next ∷ dict)
      (if found then phrases else phrases + 1) (if found then next else []) seq

-- `calc_lz78_complexity`
unfoldable pub calc_lz78_complexity : {D : Type 0} ⦃d : Double D⦄ → (ℕ → List ℕ) → List ℕ → D
unfolding phrases_from
calc_lz78_complexity ⦃d⦄ print seq =
    if leb (length seq) 1 then d.of_ℕ 0 else d.of_ℕ (phrases_from print [] 0 [] seq)
