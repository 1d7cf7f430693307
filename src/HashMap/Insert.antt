-- ===== src/HashMap/Insert.antt =====
-- hashmap.c: where `get_or_insert_entry` puts a key.
use chibicc.Common.{
  ℕ, suc, zero, ◌+◌, ◌≤◌, ◌<◌, ◌≡◌, ◌≢◌, ◌∙◌, ◌⊎◌, refl, sym, arith, inl, inr, Option, none, some,
  List, length, set, length-set, Bool-cases,
}
use chibicc.HashMap.{
  Bucket, vacant, tombstone, entry, Probe, found, reused, fresh, missing, lost, same_key, slot,
  bucket_at, get_step, put_step, get_loop, put_loop,
}
use chibicc.HashMap.Slots.{IsPower, slot-lt, slot_injective}
use chibicc.HashMap.Search.{same_key_refl, bucket_at-set, bucket_at-set_other}

-- The bucket that is written.
abbrev pub target : Probe → Option ℕ
target (found s) = some s
target (reused s) = some s
target (fresh s) = some s
target missing = none
target lost = none

some_inj : {s t : ℕ} → some s ≡ some t → s ≡ t
some_inj e = cc

module _ {ℓ} {V : Type ℓ} where
  step-target :
      (key : List ℕ) (b : Bucket V) (u s : ℕ) (rest : Probe)
      → target (put_step key b u rest) ≡ some s
      → (u ≡ s) ⊎ (target rest ≡ some s)
  step-target key vacant u s rest e = inl (some_inj e)
  step-target key tombstone u s rest e = inl (some_inj e)
  step-target key (entry k v) u s rest e = elim (Bool-cases (same_key k key)) [
    | inl z ↦ inl (some_inj (rw z at e))
    | inr z ↦ inr (rw z at e)
  ]

  pub put_loop-slot :
      (key : List ℕ) (bs : List (Bucket V)) (hash left i s : ℕ)
      → target (put_loop key bs hash left i) ≡ some s
      → (j : ℕ) × (i ≤ j) × (j < i + left) × (slot hash j (length bs) ≡ s)
  unfolding put_loop
  put_loop-slot key bs hash zero i s e = absurd cc
  put_loop-slot key bs hash (suc left) i s e =
      elim (step-target key (bucket_at (slot hash i (length bs)) bs) (slot hash i (length bs)) s
        (put_loop key bs hash left (i + 1)) e) [
          | inl q ↦ (i, omega arith, omega arith, q)
          | inr q ↦
              let (j, a, b, c) = put_loop-slot key bs hash left (i + 1) s q in
              (j, omega (arith, a), omega (arith, b), c)
        ]

  here :
      (key : List ℕ) (v : V) (bs : List (Bucket V)) (u s : ℕ) (rest : Probe)
      → u < length bs
      → u ≡ s
      → get_step key (bucket_at u (set bs s (entry key v))) u rest ≡ found s
  here key v bs u s rest h q =
      rw (sym q, bucket_at-set u (entry key v) bs h, same_key_refl key) refl

  -- A round of the search behind the insertion.
  round-found :
      (key : List ℕ) (v : V) (bs : List (Bucket V)) (u s : ℕ) (b : Bucket V) (rest rest' : Probe)
      → u < length bs
      → bucket_at u bs ≡ b
      → (target rest ≡ some s → (u ≢ s) × (rest' ≡ found s))
      → target (put_step key b u rest) ≡ some s
      → get_step key (bucket_at u (set bs s (entry key v))) u rest' ≡ found s
  round-found key v bs u s vacant rest rest' h q f e = here key v bs u s rest' h (some_inj e)
  round-found key v bs u s tombstone rest rest' h q f e = here key v bs u s rest' h (some_inj e)
  round-found key v bs u s (entry k w) rest rest' h q f e = elim (Bool-cases (same_key k key)) [
    | inl z ↦ here key v bs u s rest' h (some_inj (rw z at e))
    | inr z ↦ let g = f (rw z at e) in rw (bucket_at-set_other s u (entry key v) bs g.0, q, z) g.1
  ]

  -- What is put is found.
  pub put_loop-found :
      (key : List ℕ) (v : V) (bs : List (Bucket V)) (hash left i s : ℕ)
      → IsPower (length bs)
      → i + left ≤ length bs
      → target (put_loop key bs hash left i) ≡ some s
      → get_loop key (set bs s (entry key v)) hash left i ≡ found s
  unfolding put_loop get_loop
  put_loop-found key v bs hash zero i s p h e = absurd cc
  put_loop-found key v bs hash (suc left) i s p h e = rw (length-set bs s (entry key v)) (
      round-found key v bs (slot hash i (length bs)) s (bucket_at (slot hash i (length bs)) bs)
        (put_loop key bs hash left (i + 1))
        (get_loop key (set bs s (entry key v)) hash left (i + 1)) (slot-lt hash i (length bs) p)
        refl
        (λ q.
          let (j, a, b, c) = put_loop-slot key bs hash left (i + 1) s q in
          (
            (λ d.
                slot_injective hash i j (length bs) p (omega (arith, a)) (omega (arith, b))
                  (d ∙ sym c)),
            put_loop-found key v bs hash left (i + 1) s p (omega arith) q,
          ))
        e)

  abbrev pub IsTombstone : Bucket V → Type 0
  IsTombstone tombstone = Unit
  IsTombstone _ = ⊥

  abbrev pub IsVacant : Bucket V → Type 0
  IsVacant vacant = Unit
  IsVacant _ = ⊥

  -- What a search for the same key finds, for each end of an insertion, and what the bucket held.
  abbrev pub Matches : List (Bucket V) → Probe → Probe → Type 0
  Matches bs (found s) r = r ≡ found s
  Matches bs (reused s) r = IsTombstone (bucket_at s bs)
  Matches bs (fresh s) r = (r ≡ missing) × IsVacant (bucket_at s bs)
  Matches bs missing r = ⊥
  Matches bs lost r = r ≡ lost

  step-Matches :
      (key : List ℕ) (bs : List (Bucket V)) (b : Bucket V) (u : ℕ) (rest rest' : Probe)
      → bucket_at u bs ≡ b
      → Matches bs rest rest'
      → Matches bs (put_step key b u rest) (get_step key b u rest')
  step-Matches key bs vacant u rest rest' q m = (refl, rw q tt)
  step-Matches key bs tombstone u rest rest' q m = rw q tt
  step-Matches key bs (entry k v) u rest rest' q m = elim (Bool-cases (same_key k key)) [
    | inl z ↦ rw z refl
    | inr z ↦ rw z m
  ]

  pub put_loop-Matches :
      (key : List ℕ) (bs : List (Bucket V)) (hash left i : ℕ)
      → Matches bs (put_loop key bs hash left i) (get_loop key bs hash left i)
  unfolding put_loop get_loop
  put_loop-Matches key bs hash zero i = refl
  put_loop-Matches key bs hash (suc left) i =
      step-Matches key bs (bucket_at (slot hash i (length bs)) bs) (slot hash i (length bs))
        (put_loop key bs hash left (i + 1)) (get_loop key bs hash left (i + 1)) refl
        (put_loop-Matches key bs hash left (i + 1))
