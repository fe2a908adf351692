-- ===== src/Sequence/Printed.antt =====
-- src/calc_sequence.cpp, the `serialize_…_array` functions, and how to read their texts.
use ti_features.Prelude.{
  ℕ, suc, ◌≡◌, refl, ap, ◌∙◌, false, List, [], ◌∷◌, ◌++◌, map, ltb, lt→ltb, ◌==◌, arith,
  if◌then◌else◌,
}

-- The loop from index `i` on, where `print` is what the stream makes of an element, as the codes of
-- characters.
unfoldable pub serialize_from : {A : Type 0} → (A → List ℕ) → ℕ → List A → List ℕ
serialize_from print i [] = []
serialize_from print i (x ∷ xs) =
    let text = print x ++ serialize_from print (suc i) xs in if ltb 0 i then 44 ∷ text else text

-- The four functions, one for each type of elements.
unfoldable pub serialize_array : {A : Type 0} → (A → List ℕ) → List A → List ℕ
unfolding serialize_from
serialize_array print xs = serialize_from print 0 xs

abbrev add_to_first : ℕ → List (List ℕ) → List (List ℕ)
add_to_first c [] = (c ∷ []) ∷ []
add_to_first c (w ∷ words) = (c ∷ w) ∷ words

-- The words of a text between its commas.
abbrev pub split_text : List ℕ → List (List ℕ)
split_text [] = [] ∷ []
split_text (c ∷ text) =
    let words = split_text text in if c == 44 then [] ∷ words else add_to_first c words

abbrev pub HasNoComma : List ℕ → Type 0
HasNoComma [] = Unit {0}
HasNoComma (c ∷ text) = ((c == 44) ≡ false) × HasNoComma text

split_text-word : (word : List ℕ) → HasNoComma word → split_text (word ++ []) ≡ word ∷ []
split_text-word [] h = refl
split_text-word (c ∷ word) (e, h) = rw e (ap (add_to_first c) (split_text-word word h))

split_text-comma :
    (word text : List ℕ)
    → HasNoComma word
    → split_text (word ++ (44 ∷ text)) ≡ word ∷ split_text text
split_text-comma [] text h = refl
split_text-comma (c ∷ word) text (e, h) = rw e (ap (add_to_first c) (split_text-comma word text h))

split_text-serialize_from :
    {A : Type 0} (print : A → List ℕ)
    → ((x : A) → HasNoComma (print x))
    → (i : ℕ) (x : A) (xs : List A)
    → split_text (print x ++ serialize_from print (suc i) xs) ≡ map print (x ∷ xs)
unfolding serialize_from
split_text-serialize_from print h i x [] = split_text-word (print x) (h x)
split_text-serialize_from print h i x (y ∷ ys) = rw (lt→ltb 0 (suc i) (omega arith)) (
    split_text-comma (print x) (print y ++ serialize_from print (suc (suc i)) ys) (h x)
    ∙ ap (λ words. print x ∷ words) (split_text-serialize_from print h (suc i) y ys))

-- When no element prints with a comma, the text of an array that is not empty, split at its commas,
-- gives back the texts of its elements in order.
pub split_text-serialize_array :
    {A : Type 0} (print : A → List ℕ) (x : A) (xs : List A)
    → ((x : A) → HasNoComma (print x))
    → split_text (serialize_array print (x ∷ xs)) ≡ map print (x ∷ xs)
unfolding serialize_array serialize_from
split_text-serialize_array print x xs h = split_text-serialize_from print h 0 x xs
