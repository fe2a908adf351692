-- ===== src/CircularBuffer/Read.antt =====
-- Reading a ring: by index, whole, and after a history of pushes.
use ti_features.Prelude.{
  ℕ, ◌≡◌, refl, true, false, List, [], ◌∷◌, ◌++◌, arith, length, length-tabulate, get_or,
  get_or-tabulate, ltb, if◌then◌else◌, Bool-cases, inl, inr, some, none, ◌==◌, keep_last, set, sym,
  drop-nil, ◌<◌, ◌-◌, length-drop, keep_last-append, ap, ◌∙◌,
}
use mathlib.Core.List.{append_assoc, append-nil}
use ti_features.CircularBuffer.{Zeroed, CircularBuffer, push, push_into, get, get_array, clear}
use ti_features.CircularBuffer.Valid.{
  IsValid, is_unusable-false, push_eq, push_into-IsValid, capacity-push_into, clear-IsValid,
}
use ti_features.CircularBuffer.Refine.{read, contents, contents-push}

module _ {A : Type 0} ⦃z : Zeroed A⦄ where
  -- `circular_buffer_get` reads the element of its index, and refuses an index past the end.
  pub get_lem :
      (cb : CircularBuffer A) (xs : List A) (i : ℕ)
      → IsValid cb xs
      → get cb i ≡ (if ltb i cb.count then some (get_or (contents xs cb) i z.zeroed) else none)
  unfolding get
  get_lem cb xs i v =
      rw (v.held, is_unusable-false cb xs v)
        (elim (Bool-cases (ltb i cb.count)) [
          | inl e ↦ ground (arith, get_or-tabulate (read xs cb) cb.count 0 i z.zeroed)
          | inr e ↦ ground arith
        ])

  -- `circular_buffer_get_array` copies the contents out, and no array for an empty ring.
  pub get_array_lem :
      (cb : CircularBuffer A) (xs : List A)
      → IsValid cb xs
      → (get_array cb true ≡ (if cb.count == 0 then none else some (contents xs cb), cb.count))
        × (get_array cb false ≡ (none, cb.count))
        × (length (contents xs cb) ≡ cb.count)
  unfolding get_array
  get_array_lem cb xs v = rw v.held (ground (arith, length-tabulate (read xs cb) cb.count 0))

  -- The calls of `circular_buffer_push` for a run of packets, their status ignored.
  pub push_all : CircularBuffer A → List A → CircularBuffer A
  push_all cb [] = cb
  push_all cb (x ∷ xs) = push_all (push cb x).1 xs

  abbrev pub Holds : CircularBuffer A → List A → Type 0
  Holds cb history =
      (xs : List A) × IsValid cb xs × (contents xs cb ≡ keep_last cb.capacity history)

  -- A valid ring that holds the end of a history holds the end of the longer one after a push.
  pub push-Holds :
      (cb : CircularBuffer A) (history : List A) (x : A)
      → Holds cb history
      → Holds (push cb x).1 (history ++ (x ∷ [])) × ((push cb x).1.capacity ≡ cb.capacity)
  push-Holds cb history x (xs, v, e) =
      let new = push_into cb xs x in
      let cap = capacity-push_into cb xs x in
      rw (push_eq cb xs x v) (
        (
          set xs cb.head x,
          push_into-IsValid cb xs x v,
          contents-push cb xs x v
              ∙ ap (λ l. keep_last cb.capacity (l ++ (x ∷ []))) e
              ∙ keep_last-append cb.capacity history (x ∷ [])
              ∙ ap (λ n. keep_last n (history ++ (x ∷ []))) (sym cap),
        ),
        cap,
      )

  push_all-Holds :
      (cb : CircularBuffer A) (history xs : List A)
      → Holds cb history
      → Holds (push_all cb xs) (history ++ xs) × ((push_all cb xs).capacity ≡ cb.capacity)
  unfolding push_all
  push_all-Holds cb history [] h = (rw (append-nil history) h, refl)
  push_all-Holds cb history (x ∷ xs) h =
      let (one, cap) = push-Holds cb history x h in
      let (all, caps) = push_all-Holds (push cb x).1 (history ++ (x ∷ [])) xs one in
      (rw (append_assoc history (x ∷ []) xs) at all, caps ∙ cap)

  -- A ring that holds a history copies its end out.
  pub Holds-get_array :
      (cb : CircularBuffer A) (x : A) (xs : List A)
      → Holds cb (x ∷ xs)
      → get_array cb true
        ≡ (some (keep_last cb.capacity (x ∷ xs)), length (keep_last cb.capacity (x ∷ xs)))
  Holds-get_array cb x xs (cells, v, e) =
      let end = keep_last cb.capacity (x ∷ xs) in
      let (array, _, count) = get_array_lem cb cells v in
      let long = ap length e in
      let some_left = length-drop (length (x ∷ xs) - cb.capacity) (x ∷ xs) in
      let positive : 0 < cb.count = omega arith in rw (array, e) (ground arith)

  clear-Holds : (cb : CircularBuffer A) (cells : List A) → IsValid cb cells → Holds (clear cb) []
  unfolding clear
  clear-Holds cb cells v = (cells, (clear-IsValid cb cells v).0, sym (drop-nil (0 - cb.capacity)))

  capacity-clear : (cb : CircularBuffer A) → (clear cb).capacity ≡ cb.capacity
  unfolding clear
  capacity-clear cb = refl

  -- After any pushes into a cleared valid ring, at least one, `circular_buffer_get_array` returns
  -- exactly the last `capacity` elements pushed, in their order, and their number.
  pub get_array-push_all :
      (cb : CircularBuffer A) (cells : List A) (x : A) (xs : List A)
      → IsValid cb cells
      → get_array (push_all (clear cb) (x ∷ xs)) true
        ≡ (some (keep_last cb.capacity (x ∷ xs)), length (keep_last cb.capacity (x ∷ xs)))
  get_array-push_all cb cells x xs v =
      let (held, cap) = push_all-Holds (clear cb) [] (x ∷ xs) (clear-Holds cb cells v) in
      rw (Holds-get_array _ x xs held, cap, capacity-clear cb) refl
