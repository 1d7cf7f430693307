-- ===== src/Tokenize/Reads.antt =====
-- tokenize.c: what it means that a function reads inside the text.
use chibicc.Common.{
  ℕ, suc, zero, ◌+◌, ◌≤◌, ◌<◌, ◌≡◌, refl, arith, Bool, true, false, List, [], ◌∷◌, if◌then◌else◌,
  drop, length, length-drop,
}
use chibicc.Tokenize.Result.{Result, ok, failed, overrun, out_of_fuel, ◌>>=◌}
use chibicc.Tokenize.Chars.{startswith}
use chibicc.Tokenize.Universal.Convert.{EndsLine}

-- What is read at `p` has at least `low` bytes and ends inside the text, or is an error; there is no
-- read past the end where the text ends with a newline.
abbrev pub Reads {ℓ} : {A : Type ℓ} → (A → ℕ) → ℕ → List ℕ → Result A → Type 0
Reads size low p (ok a) = (low ≤ size a) × (size a ≤ length p)
Reads size low p failed = Unit
Reads size low p overrun = ¬ EndsLine p
Reads size low p out_of_fuel = ⊥

-- The result is an error at most.
abbrev pub Ends {ℓ} : {A : Type ℓ} → Result A → Type 0
Ends (ok a) = Unit
Ends failed = Unit
Ends overrun = ⊥
Ends out_of_fuel = ⊥

abbrev pub distance : ℕ → ℕ
distance n = n

pub EndsLine-drop : (n : ℕ) (p : List ℕ) → n < length p → EndsLine p → EndsLine (drop n p)
EndsLine-drop zero p h e = e
EndsLine-drop (suc n) [] h e = absurd (omega arith)
EndsLine-drop (suc n) (c ∷ []) h e = absurd (omega arith)
EndsLine-drop (suc n) (c ∷ d ∷ p) h e = EndsLine-drop n (d ∷ p) (omega arith) e

pub drop-all {ℓ} : {A : Type ℓ} (n : ℕ) (xs : List A) → length xs ≤ n → drop n xs ≡ []
drop-all zero [] h = refl
drop-all (suc n) [] h = refl
drop-all zero (x ∷ xs) h = absurd (omega arith)
drop-all (suc n) (x ∷ xs) h = drop-all n xs (omega arith)

pub startswith-length : (p q : List ℕ) → startswith p q ≡ true → length q ≤ length p
startswith-length p [] h = omega arith
startswith-length [] (d ∷ q) h = ground arith
startswith-length (c ∷ p) (d ∷ q) h = ground (arith, startswith-length p q)

module _ {ℓ κ} {A : Type ℓ} {B : Type κ} (size : A → ℕ) (low : ℕ) (p : List ℕ) where
  pub Reads-bind :
      (size' : B → ℕ) (low' : ℕ) (q : List ℕ) (m : Result A) (f : A → Result B)
      → Reads size low p m
      → (EndsLine q → EndsLine p)
      → ((a : A) → low ≤ size a → size a ≤ length p → Reads size' low' q (f a))
      → Reads size' low' q (m >>= f)
  Reads-bind size' low' q (ok a) f h e k = k a h.0 h.1
  Reads-bind size' low' q failed f h e k = tt
  Reads-bind size' low' q overrun f h e k = λ l. h (e l)
  Reads-bind size' low' q out_of_fuel f h e k = h

module _ {ℓ κ} {A : Type ℓ} {B : Type κ} where
  pub Ends-bind :
      (m : Result A) (f : A → Result B)
      → Ends m
      → ((a : A) → m ≡ ok a → Ends (f a))
      → Ends (m >>= f)
  Ends-bind (ok a) f h k = k a refl
  Ends-bind failed f h k = tt
  Ends-bind overrun f h k = h
  Ends-bind out_of_fuel f h k = h

  -- What follows something that reads nothing past the end.
  pub Ends-Reads :
      (size : B → ℕ) (low : ℕ) (q : List ℕ) (m : Result A) (f : A → Result B)
      → Ends m
      → ((a : A) → m ≡ ok a → Reads size low q (f a))
      → Reads size low q (m >>= f)
  Ends-Reads size low q (ok a) f h k = k a refl
  Ends-Reads size low q failed f h k = tt
  Ends-Reads size low q overrun f h k = absurd h
  Ends-Reads size low q out_of_fuel f h k = absurd h

module _ {ℓ} {A : Type ℓ} where
  -- Behind `k` bytes, where nothing is found at the end of the text.
  pub Reads-behind :
      (size size' : A → ℕ) (low low' k : ℕ) (p : List ℕ) (r : Result A)
      → k ≤ length p
      → (length p ≡ k → r ≡ failed)
      → ((a : A) → low ≤ size a → (low' ≤ size' a) × (size' a ≤ k + size a))
      → Reads size low (drop k p) r
      → Reads size' low' p r
  Reads-behind size size' low low' k p (ok a) h e f g = omega (arith, length-drop k p, f a g.0, g.1)
  Reads-behind size size' low low' k p failed h e f g = tt
  Reads-behind size size' low low' k p overrun h e f g =
      λ l. g (EndsLine-drop k p (ground (arith, e)) l)
  Reads-behind size size' low low' k p out_of_fuel h e f g = g

  pub if-Reads :
      (size : A → ℕ) (low : ℕ) (p : List ℕ) (b : Bool) (x y : Result A)
      → (b ≡ true → Reads size low p x)
      → (b ≡ false → Reads size low p y)
      → Reads size low p (if b then x else y)
  if-Reads size low p true x y h k = h refl
  if-Reads size low p false x y h k = k refl
