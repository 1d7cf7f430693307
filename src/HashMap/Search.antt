-- ===== src/HashMap/Search.antt =====
-- hashmap.c: what the loops of `get_entry` and `get_or_insert_entry` find.
use chibicc.Common.{
  ℕ, suc, zero, ◌+◌, ◌≤◌, ◌<◌, ◌≡◌, ◌≢◌, ◌∙◌, ◌⊎◌, refl, sym, ap, arith, inl, inr, true, false,
  List, [], ◌∷◌, ◌==◌, ==_iff, length, set, length-set, Bool-cases,
}
use chibicc.HashMap.{
  Bucket, vacant, tombstone, entry, Probe, found, missing, lost, same_key, slot, bucket_at,
  get_step, get_loop,
}

pub same_key_refl : (k : List ℕ) → same_key k k ≡ true
unfolding same_key
same_key_refl [] = refl
same_key_refl (c ∷ k) = ground (arith, same_key_refl k)

pub same_key_sound : (k q : List ℕ) → same_key k q ≡ true → k ≡ q
unfolding same_key
same_key_sound [] [] h = refl
same_key_sound [] (d ∷ q) h = ground arith
same_key_sound (c ∷ k) [] h = ground arith
same_key_sound (c ∷ k) (d ∷ q) h = ground (arith, same_key_sound k q)

pub same_key_other : (k q : List ℕ) → k ≢ q → same_key k q ≡ false
same_key_other k q n = elim (Bool-cases (same_key k q)) [
  | inl e ↦ absurd (n (same_key_sound k q e))
  | inr e ↦ e
]

pub eq_cases : (a b : ℕ) → (a ≡ b) ⊎ (a ≢ b)
eq_cases a b = elim (Bool-cases (a == b)) [
  | inl e ↦ inl ((==_iff a b).0 e)
  | inr e ↦ inr (λ q. ground (arith, (==_iff a b).1 q))
]

pub found_inj : {s t : ℕ} → found s ≡ found t → s ≡ t
found_inj e = cc

module _ {ℓ} {V : Type ℓ} where
  pub bucket_at-set :
      (s : ℕ) (b : Bucket V) (bs : List (Bucket V)) → s < length bs → bucket_at s (set bs s b) ≡ b
  bucket_at-set s b [] h = absurd (omega arith)
  bucket_at-set zero b (c ∷ bs) h = refl
  bucket_at-set (suc s) b (c ∷ bs) h = bucket_at-set s b bs (omega arith)

  pub bucket_at-set_other :
      (s t : ℕ) (b : Bucket V) (bs : List (Bucket V))
      → t ≢ s
      → bucket_at t (set bs s b) ≡ bucket_at t bs
  bucket_at-set_other s t b [] n = refl
  bucket_at-set_other zero zero b (c ∷ bs) n = absurd (n refl)
  bucket_at-set_other zero (suc t) b (c ∷ bs) n = refl
  bucket_at-set_other (suc s) zero b (c ∷ bs) n = refl
  bucket_at-set_other (suc s) (suc t) b (c ∷ bs) n =
      bucket_at-set_other s t b bs (λ e. n (ap suc e))

  -- The search for the key goes on behind the bucket.
  abbrev pub Passes : List ℕ → Bucket V → Type 0
  Passes key vacant = ⊥
  Passes key tombstone = Unit
  Passes key (entry k v) = k ≢ key

  -- A bucket that does not hold the key.
  abbrev pub Lacks : List ℕ → Bucket V → Type 0
  Lacks key vacant = Unit
  Lacks key tombstone = Unit
  Lacks key (entry k v) = k ≢ key

  pub get_step-Passes :
      (key : List ℕ) (b : Bucket V) (s : ℕ) (rest : Probe)
      → Passes key b
      → get_step key b s rest ≡ rest
  get_step-Passes key vacant s rest h = absurd h
  get_step-Passes key tombstone s rest h = refl
  get_step-Passes key (entry k v) s rest h = rw (same_key_other k key h) refl

  -- What was found behind a bucket that lacks the key is still found when the bucket is passed.
  step-kept :
      (key : List ℕ) (b c : Bucket V) (s t : ℕ) (rest rest' : Probe)
      → Lacks key b
      → Passes key c
      → (rest ≡ found t → rest' ≡ found t)
      → get_step key b s rest ≡ found t
      → get_step key c s rest' ≡ found t
  step-kept key vacant c s t rest rest' l p ih e = absurd cc
  step-kept key tombstone c s t rest rest' l p ih e = get_step-Passes key c s rest' p ∙ ih e
  step-kept key (entry k v) c s t rest rest' l p ih e =
      get_step-Passes key c s rest' p ∙ ih (rw (same_key_other k key l) at e)

  same-kept :
      (key : List ℕ) (b : Bucket V) (s t : ℕ) (rest rest' : Probe)
      → (rest ≡ found t → rest' ≡ found t)
      → get_step key b s rest ≡ found t
      → get_step key b s rest' ≡ found t
  same-kept key vacant s t rest rest' ih e = e
  same-kept key tombstone s t rest rest' ih e = ih e
  same-kept key (entry k v) s t rest rest' ih e = elim (Bool-cases (same_key k key)) [
    | inl z ↦ rw z (rw z at e)
    | inr z ↦ rw z (ih (rw z at e))
  ]

  -- A round at the bucket `u`, when the bucket `s` is changed.
  round-set :
      (key : List ℕ) (bs : List (Bucket V)) (s u t : ℕ) (b : Bucket V) (rest rest' : Probe)
      → s < length bs
      → Lacks key (bucket_at s bs)
      → Passes key b
      → (rest ≡ found t → rest' ≡ found t)
      → get_step key (bucket_at u bs) u rest ≡ found t
      → get_step key (bucket_at u (set bs s b)) u rest' ≡ found t
  round-set key bs s u t b rest rest' h l p ih e = elim (eq_cases u s) [
    | inl q ↦
        rw (q, bucket_at-set s b bs h)
          (step-kept key (bucket_at s bs) b s t rest rest' l p ih (rw q at e))
    | inr q ↦
        rw (bucket_at-set_other s u b bs q) (same-kept key (bucket_at u bs) u t rest rest' ih e)
  ]

  pub get_loop-set :
      (key : List ℕ) (bs : List (Bucket V)) (hash left i s t : ℕ) (b : Bucket V)
      → s < length bs
      → Lacks key (bucket_at s bs)
      → Passes key b
      → get_loop key bs hash left i ≡ found t
      → get_loop key (set bs s b) hash left i ≡ found t
  unfolding get_loop
  get_loop-set key bs hash zero i s t b h l p e = absurd cc
  get_loop-set key bs hash (suc left) i s t b h l p e = rw (length-set bs s b) (
      round-set key bs s (slot hash i (length bs)) t b (get_loop key bs hash left (i + 1))
        (get_loop key (set bs s b) hash left (i + 1)) h l p
        (get_loop-set key bs hash left (i + 1) s t b h l p) e)

  -- A bucket that is found holds the key.
  abbrev pub Holds : List ℕ → Bucket V → Type 0
  Holds key vacant = ⊥
  Holds key tombstone = ⊥
  Holds key (entry k v) = k ≡ key

  step-Holds :
      (key : List ℕ) (bs : List (Bucket V)) (u t : ℕ) (b : Bucket V) (rest : Probe)
      → bucket_at u bs ≡ b
      → (rest ≡ found t → Holds key (bucket_at t bs))
      → get_step key b u rest ≡ found t
      → Holds key (bucket_at t bs)
  step-Holds key bs u t vacant rest q ih e = absurd cc
  step-Holds key bs u t tombstone rest q ih e = ih e
  step-Holds key bs u t (entry k v) rest q ih e = elim (Bool-cases (same_key k key)) [
    | inl z ↦ let w : u ≡ t = found_inj (rw z at e) in rw (sym w, q) (same_key_sound k key z)
    | inr z ↦ ih (rw z at e)
  ]

  pub get_loop-Holds :
      (key : List ℕ) (bs : List (Bucket V)) (hash left i t : ℕ)
      → get_loop key bs hash left i ≡ found t
      → Holds key (bucket_at t bs)
  unfolding get_loop
  get_loop-Holds key bs hash zero i t e = absurd cc
  get_loop-Holds key bs hash (suc left) i t e =
      let u = slot hash i (length bs) in
      step-Holds key bs (slot hash i (length bs)) t (bucket_at (slot hash i (length bs)) bs)
        (get_loop key bs hash left (i + 1)) refl (get_loop-Holds key bs hash left (i + 1) t) e

  -- No search ends in `unreachable()` where a bucket is vacant.
  step-lost :
      (key : List ℕ) (b : Bucket V) (u : ℕ) (rest : Probe)
      → b ≡ vacant ⊎ rest ≢ lost
      → get_step key b u rest ≢ lost
  step-lost key vacant u rest c e = cc
  step-lost key tombstone u rest (inl q) e = cc
  step-lost key tombstone u rest (inr n) e = n e
  step-lost key (entry k v) u rest (inl q) e = cc
  step-lost key (entry k v) u rest (inr n) e = elim (Bool-cases (same_key k key)) [
    | inl z ↦ let w = rw z at e in cc
    | inr z ↦ n (rw z at e)
  ]

  pub get_loop-lost :
      (key : List ℕ) (bs : List (Bucket V)) (hash left i j : ℕ)
      → i ≤ j
      → j < i + left
      → bucket_at (slot hash j (length bs)) bs ≡ vacant
      → get_loop key bs hash left i ≢ lost
  unfolding get_loop
  get_loop-lost key bs hash zero i j h k e = absurd (omega arith)
  get_loop-lost key bs hash (suc left) i j h k e =
      step-lost key (bucket_at (slot hash i (length bs)) bs) (slot hash i (length bs))
        (get_loop key bs hash left (i + 1))
        (elim (eq_cases i j) [
          | inl q ↦ inl (rw q e)
          | inr q ↦ inr (get_loop-lost key bs hash left (i + 1) j (omega arith) (omega arith) e)
        ])

  step-cases :
      (key : List ℕ) (b : Bucket V) (u : ℕ) (rest : Probe)
      → (get_step key b u rest ≡ found u)
        ⊎ (get_step key b u rest ≡ missing)
        ⊎ (get_step key b u rest ≡ rest)
  step-cases key vacant u rest = inr (inl refl)
  step-cases key tombstone u rest = inr (inr refl)
  step-cases key (entry k v) u rest = elim (Bool-cases (same_key k key)) [
    | inl z ↦ inl (rw z refl)
    | inr z ↦ inr (inr (rw z refl))
  ]

  pub get_loop-cases :
      (key : List ℕ) (bs : List (Bucket V)) (hash left i : ℕ)
      → ((t : ℕ) × (get_loop key bs hash left i ≡ found t))
        ⊎ (get_loop key bs hash left i ≡ missing)
        ⊎ (get_loop key bs hash left i ≡ lost)
  unfolding get_loop
  get_loop-cases key bs hash zero i = inr (inr refl)
  get_loop-cases key bs hash (suc left) i =
      elim (step-cases key (bucket_at (slot hash i (length bs)) bs) (slot hash i (length bs))
        (get_loop key bs hash left (i + 1))) [
          | inl a ↦ inl (slot hash i (length bs), a)
          | inr (inl a) ↦ inr (inl a)
          | inr (inr a) ↦ elim (get_loop-cases key bs hash left (i + 1)) [
            | inl (t, c) ↦ inl (t, a ∙ c)
            | inr (inl c) ↦ inr (inl (a ∙ c))
            | inr (inr c) ↦ inr (inr (a ∙ c))
          ]
        ]
