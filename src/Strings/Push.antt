-- ===== src/Strings/Push.antt =====
-- strings.c: `strarray_push` appends.
use chibicc.Common.{
  ℕ, zero, suc, ◌*◌, ◌≤◌, ◌<◌, ◌≡◌, ◌∙◌, refl, sym, ap, arith, true, false, Option, none, some,
  List, [], ◌∷◌, ◌++◌, ◌==◌, length, set, replicate, length-append, length-set, length-replicate,
  Bool-cases, Option-cases, inl, inr, lt→ltb,
}
use chibicc.Strings.{StringArray, strarray_push, store}

abbrev pub take : ℕ → List (Option ℕ) → List (Option ℕ)
take zero xs = []
take (suc n) [] = []
take (suc n) (x ∷ xs) = x ∷ take n xs

-- The strings that were pushed.
abbrev pub cells_or_none : Option (List (Option ℕ)) → List (Option ℕ)
cells_or_none none = []
cells_or_none (some cells) = cells

abbrev pub contents : StringArray → List (Option ℕ)
contents arr = take arr.len (cells_or_none arr.array)

-- Either nothing is allocated and the fields are zero, or there are `capacity` cells, of which `len` are
-- in use.
abbrev Allocated : Option (List (Option ℕ)) → ℕ → ℕ → Type 0
Allocated none capacity len = (capacity ≡ 0) × (len ≡ 0)
Allocated (some cells) capacity len = (length cells ≡ capacity) × (len ≤ capacity) × (0 < capacity)

abbrev pub IsValid : StringArray → Type 0
IsValid arr = Allocated arr.array arr.capacity arr.len

take-set :
    (n : ℕ) (xs : List (Option ℕ)) (v : Option ℕ)
    → n < length xs
    → take (suc n) (set xs n v) ≡ take n xs ++ (v ∷ [])
take-set n [] v h = absurd (omega arith)
take-set zero (x ∷ xs) v h = refl
take-set (suc n) (x ∷ xs) v h = ap (λ l. x ∷ l) (take-set n xs v (omega arith))

take-append : (n : ℕ) (xs ys : List (Option ℕ)) → n ≤ length xs → take n (xs ++ ys) ≡ take n xs
take-append zero xs ys h = refl
take-append (suc n) [] ys h = absurd (omega arith)
take-append (suc n) (x ∷ xs) ys h = ap (λ l. x ∷ l) (take-append n xs ys (omega arith))

-- What a push promises.
abbrev pub Pushed : StringArray → ℕ → Option StringArray → Type 0
Pushed arr s none = ⊥
Pushed arr s (some arr') = IsValid arr' × (contents arr' ≡ contents arr ++ (some s ∷ []))

store-Pushed :
    (cells : List (Option ℕ)) (capacity : ℕ) (arr : StringArray) (s : ℕ)
    → length cells ≡ capacity
    → arr.len < capacity
    → take arr.len cells ≡ contents arr
    → Pushed arr s (store (cells, capacity) arr.len s)
store-Pushed cells capacity arr s l h c = rw (lt→ltb arr.len (length cells) (omega arith)) (
  (length-set cells arr.len (some s) ∙ l, omega arith, omega arith),
  take-set arr.len cells (some s) (omega arith) ∙ ap (λ l. l ++ (some s ∷ [])) c,
)

module _ (arr : StringArray) (s : ℕ) where
  push_new :
      arr.array ≡ none → arr.len ≡ 0 → strarray_push arr s ≡ store (replicate 8 none, 8) arr.len s
  unfolding strarray_push
  push_new n z = rw (n, z) refl

  push_full :
      (cells : List (Option ℕ))
      → arr.array ≡ some cells
      → (arr.capacity == arr.len) ≡ true
      → strarray_push arr s
        ≡ store (cells ++ replicate arr.capacity none, arr.capacity * 2) arr.len s
  unfolding strarray_push
  push_full cells n f = rw (n, f) refl

  push_room :
      (cells : List (Option ℕ))
      → arr.array ≡ some cells
      → (arr.capacity == arr.len) ≡ false
      → strarray_push arr s ≡ store (cells, arr.capacity) arr.len s
  unfolding strarray_push
  push_room cells n f = rw (n, f) refl

  -- A push to a valid array writes inside it, keeps it valid and appends the string to those pushed
  -- before, whether the array is new, has room or is full.
  pub strarray_push-Pushed : IsValid arr → Pushed arr s (strarray_push arr s)
  strarray_push-Pushed h = elim (Option-cases arr.array) [
    | inl n ↦
        let g : (arr.capacity ≡ 0) × (arr.len ≡ 0) = rw n at h in
        rw (push_new n g.1)
          (store-Pushed (replicate 8 none) 8 arr s refl (omega arith) (rw g.1 refl))
    | inr (cells, n) ↦
        let (l, le, pos) : (length cells ≡ arr.capacity)
            × (arr.len ≤ arr.capacity)
            × (0 < arr.capacity) =
          rw n at h in
        elim (Bool-cases (arr.capacity == arr.len)) [
          | inl f ↦
              let z : arr.capacity ≡ arr.len = ground arith in
              let a = length-append cells (replicate arr.capacity none) in
              let r = length-replicate {A = Option ℕ} arr.capacity none in
              rw (push_full cells n f) (
                store-Pushed (cells ++ replicate arr.capacity none) (arr.capacity * 2) arr s
                  (omega (arith, a, r)) (omega arith)
                  (take-append arr.len cells (replicate arr.capacity none) (omega arith)
                    ∙ ap (λ o. take arr.len (cells_or_none o)) (sym n)))
          | inr f ↦
              let z : arr.len < arr.capacity = ground arith in
              rw (push_room cells n f) (
                store-Pushed cells arr.capacity arr s l z
                  (ap (λ o. take arr.len (cells_or_none o)) (sym n)))
        ]
  ]
