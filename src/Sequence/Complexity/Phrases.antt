-- ===== src/Sequence/Complexity/Phrases.antt =====
-- The phrases that are counted are those of the parsing of Lempel and Ziv.
use ti_features.Prelude.{
  ℕ, ◌+◌, ◌<◌, ◌≡◌, refl, sym, ap, ◌∙◌, Bool, true, false, ◌&&◌, ◌||◌, List, [], ◌∷◌, ◌++◌, length,
  map, leb, ◌==◌, Bool-cases, inl, inr, arith,
}
use mathlib.Core.Path.{subst, ap₂}
use mathlib.Core.List.{append_assoc, append-nil}
use ti_features.Double.{Double}
use ti_features.Sequence.Complexity.{same_text, is_in, piece, phrases_from, calc_lz78_complexity}

-- The whole of a sequence: the phrases, the latest first, and what is left behind them.
abbrev pub joined : List (List ℕ) → List ℕ → List ℕ
joined [] rest = rest
joined (phrase ∷ phrases) rest = joined phrases (phrase ++ rest)

-- Whether a run of numbers is empty or one of the phrases.
abbrev pub is_known : List (List ℕ) → List ℕ → Bool
is_known phrases [] = true
is_known phrases (x ∷ xs) = is_in phrases (x ∷ xs)

-- Each phrase is new where it is made, and adds one number to an earlier phrase or to nothing.
abbrev pub ArePhrases : List (List ℕ) → Type 0
ArePhrases [] = Unit {0}
ArePhrases (phrase ∷ phrases) =
    ((q : List ℕ) × (x : ℕ) × (phrase ≡ q ++ (x ∷ [])) × (is_known phrases q ≡ true))
    × (is_in phrases phrase ≡ false)
    × ArePhrases phrases

-- The parsing of a sequence into phrases, with a rest that is no new phrase.
pub record IsParsed (phrases : List (List ℕ)) (rest seq : List ℕ) : Type 0 where
  pub whole : joined phrases rest ≡ seq
  pub are_phrases : ArePhrases phrases
  pub known : is_known phrases rest ≡ true

abbrev pub HasNoBar : List ℕ → Type 0
HasNoBar [] = Unit {0}
HasNoBar (c ∷ text) = ((c == 124) ≡ false) × HasNoBar text

-- What is relied on of `std::to_string`: no bar, and different texts for different numbers.
pub record IsPrinting (print : ℕ → List ℕ) : Type 0 where
  pub no_bar : (x : ℕ) → HasNoBar (print x)
  pub distinct : (x y : ℕ) → same_text (print x) (print y) ≡ (x == y)

same_text-bar :
    (u v s t : List ℕ)
    → HasNoBar u
    → HasNoBar v
    → same_text (u ++ (124 ∷ s)) (v ++ (124 ∷ t)) ≡ (same_text u v && same_text s t)
unfolding same_text
same_text-bar [] [] s t hu hv = refl
same_text-bar [] (c ∷ v) s t hu (e, hv) = ground arith
same_text-bar (c ∷ u) [] s t (e, hu) hv = ground arith
same_text-bar (c ∷ u) (b ∷ v) s t (e, hu) (e', hv) =
    let rest = same_text-bar u v s t hu hv in ground arith

joined-append :
    (phrases : List (List ℕ)) (a b : List ℕ) → joined phrases (a ++ b) ≡ joined phrases a ++ b
joined-append [] a b = refl
joined-append (p ∷ phrases) a b =
    ap (joined phrases) (sym (append_assoc p a b)) ∙ joined-append phrases (p ++ a) b

is_known-next :
    (phrases : List (List ℕ)) (cur : List ℕ) (x : ℕ)
    → is_in phrases (cur ++ (x ∷ [])) ≡ true
    → is_known phrases (cur ++ (x ∷ [])) ≡ true
is_known-next phrases [] x e = e
is_known-next phrases (c ∷ cur) x e = e

module _ (print : ℕ → List ℕ) where
  -- The text of a run of numbers.
  abbrev key : List ℕ → List ℕ
  key [] = []
  key (x ∷ xs) = print x ++ (124 ∷ key xs)

  key-next : (xs : List ℕ) (x : ℕ) → key (xs ++ (x ∷ [])) ≡ key xs ++ piece print x
  key-next [] x = refl
  key-next (y ∷ ys) x =
      ap (λ t. print y ++ (124 ∷ t)) (key-next ys x)
      ∙ sym (append_assoc (print y) (124 ∷ key ys) (piece print x))

  not_empty :
      (u t : List ℕ)
      → (same_text [] (u ++ (124 ∷ t)) ≡ false) × (same_text (u ++ (124 ∷ t)) [] ≡ false)
  unfolding same_text
  not_empty [] t = (refl, refl)
  not_empty (c ∷ u) t = (refl, refl)

  same_text-key : (a b : List ℕ) → IsPrinting print → same_text (key a) (key b) ≡ same_text a b
  unfolding same_text
  same_text-key [] [] p = refl
  same_text-key [] (y ∷ b) p = (not_empty (print y) (key b)).0
  same_text-key (x ∷ a) [] p = (not_empty (print x) (key a)).1
  same_text-key (x ∷ a) (y ∷ b) p =
      same_text-bar (print x) (print y) (key a) (key b) (p.no_bar x) (p.no_bar y)
      ∙ ap₂ (λ s t. s && t) (p.distinct x y) (same_text-key a b p)

  is_in-key :
      (dict : List (List ℕ)) (cur : List ℕ)
      → IsPrinting print
      → is_in (map key dict) (key cur) ≡ is_in dict cur
  unfolding is_in
  is_in-key [] cur p = refl
  is_in-key (u ∷ dict) cur p = ap₂ (λ s t. s || t) (same_text-key u cur p) (is_in-key dict cur p)

  found-next :
      (dict : List (List ℕ)) (cur : List ℕ) (x : ℕ)
      → IsPrinting print
      → is_in (map key dict) (key cur ++ piece print x) ≡ is_in dict (cur ++ (x ∷ []))
  found-next dict cur x p =
      ap (is_in (map key dict)) (sym (key-next cur x)) ∙ is_in-key dict (cur ++ (x ∷ [])) p

  -- A number that makes a known phrase longer, and one that ends a new phrase.
  kept-IsParsed :
      (dict : List (List ℕ)) (cur done : List ℕ) (x : ℕ)
      → IsParsed dict cur done
      → is_in dict (cur ++ (x ∷ [])) ≡ true
      → IsParsed dict (cur ++ (x ∷ [])) (done ++ (x ∷ []))
  kept-IsParsed dict cur done x v e = record {
    whole = joined-append dict cur (x ∷ []) ∙ ap (λ s. s ++ (x ∷ [])) v.whole;
    are_phrases = v.are_phrases;
    known = is_known-next dict cur x e;
  }

  new-IsParsed :
      (dict : List (List ℕ)) (cur done : List ℕ) (x : ℕ)
      → IsParsed dict cur done
      → is_in dict (cur ++ (x ∷ [])) ≡ false
      → IsParsed ((cur ++ (x ∷ [])) ∷ dict) [] (done ++ (x ∷ []))
  new-IsParsed dict cur done x v e = record {
    whole =
        ap (joined dict) (append-nil (cur ++ (x ∷ [])))
        ∙ joined-append dict cur (x ∷ [])
        ∙ ap (λ s. s ++ (x ∷ [])) v.whole;
    are_phrases = ((cur, x, refl, v.known), e, v.are_phrases);
    known = refl;
  }

  -- The phrases of a sequence, as many as a count.
  abbrev IsCount : List ℕ → ℕ → Type 0
  IsCount seq n =
      (phrases : List (List ℕ)) × (rest : List ℕ) × IsParsed phrases rest seq × (n ≡ length phrases)

  phrases_from-IsCount :
      (dict : List (List ℕ)) (cur done seq : List ℕ)
      → IsPrinting print
      → IsParsed dict cur done
      → IsCount (done ++ seq) (phrases_from print (map key dict) (length dict) (key cur) seq)
  unfolding phrases_from
  phrases_from-IsCount dict cur done [] p v =
      (dict, cur, subst (IsParsed dict cur) (sym (append-nil done)) v, refl)
  phrases_from-IsCount dict cur done (x ∷ seq) p v =
      let next = cur ++ (x ∷ []) in
      let same = append_assoc done (x ∷ []) seq in
      elim (Bool-cases (is_in dict next)) [
        | inl e ↦
            (let found = found-next dict cur x p ∙ e in
              let (ps, rest, parsed, n) =
                phrases_from-IsCount dict next (done ++ (x ∷ [])) seq p
                  (kept-IsParsed dict cur done x v e) in
              rw found (
                ps,
                rest,
                subst (IsParsed ps rest) same parsed,
                ap (λ k. phrases_from print (map key dict) (length dict) k seq)
                      (sym (key-next cur x))
                    ∙ n,
              ))
        | inr e ↦
            (let found = found-next dict cur x p ∙ e in
              let (ps, rest, parsed, n) =
                phrases_from-IsCount (next ∷ dict) [] (done ++ (x ∷ [])) seq p
                  (new-IsParsed dict cur done x v e) in
              let longer : length dict + 1 ≡ length (next ∷ dict) = omega arith in
              rw found (
                ps,
                rest,
                subst (IsParsed ps rest) same parsed,
                ap₂ (λ k m. phrases_from print (k ∷ map key dict) m [] seq) (sym (key-next cur x))
                      longer
                    ∙ n,
              ))
      ]

  -- With a printing of numbers that has no bar and tells them apart, a sequence of more than one
  -- number: the complexity is the number of phrases of a parsing of it, in which each phrase
  -- is new and adds one number to an earlier phrase or to nothing, and a rest that is no new
  -- phrase.
  pub calc_lz78_complexity-IsParsed :
      {D : Type 0} ⦃d : Double D⦄ (seq : List ℕ)
      → IsPrinting print
      → 1 < length seq
      → (phrases : List (List ℕ)) × (rest : List ℕ) × IsParsed phrases rest seq
        × (calc_lz78_complexity ⦃d = d⦄ print seq ≡ d.of_ℕ (length phrases))
  unfolding calc_lz78_complexity
  calc_lz78_complexity-IsParsed ⦃d⦄ seq p h =
      let start : IsParsed [] [] [] = record { whole = refl; are_phrases = tt; known = refl } in
      let (ps, rest, parsed, n) = phrases_from-IsCount [] [] [] seq p start in
      let guard : leb (length seq) 1 ≡ false = ground arith in
      (ps, rest, parsed, rw guard (ap d.of_ℕ n))
