-- ===== src/HashMap/Update.antt =====
-- hashmap.c: what a write to a bucket changes.
use chibicc.Common.{
  ℕ, ◌<◌, ◌≡◌, ◌≢◌, ◌⊎◌, refl, sym, ap, inl, inr, some, List, length, set, length-set, Bool-cases,
}
use chibicc.HashMap.{
  Bucket, vacant, tombstone, entry, found, missing, same_key, bucket_at, value, fnv_hash,
}
use chibicc.HashMap.Slots.{IsPower}
use chibicc.HashMap.Search.{
  Lacks, Passes, Holds, same_key_refl, same_key_sound, bucket_at-set, bucket_at-set_other, eq_cases,
  get_loop-set, get_loop-Holds, get_loop-cases,
}
use chibicc.HashMap.Table.{search, search-ends, answer, IsFound, IsIndexed, occupied}

pub key_cases : (k q : List ℕ) → (k ≡ q) ⊎ (k ≢ q)
key_cases k q = elim (Bool-cases (same_key k q)) [
  | inl e ↦ inl (same_key_sound k q e)
  | inr e ↦ inr (λ d. let r = same_key_refl k in cc)
]

module _ {ℓ} {V : Type ℓ} where
  -- A search for another key ends as before.
  pub search-set_found :
      (bs : List (Bucket V)) (s t : ℕ) (b : Bucket V) (key : List ℕ)
      → s < length bs
      → Lacks key (bucket_at s bs)
      → Passes key b
      → search bs key ≡ found t
      → search (set bs s b) key ≡ found t
  search-set_found bs s t b key h l p e =
      rw (length-set bs s b) (get_loop-set key bs (fnv_hash key) (length bs) 0 s t b h l p e)

  Holds-Lacks : (key : List ℕ) (b : Bucket V) → Holds key b → Lacks key b → ⊥
  Holds-Lacks key vacant h l = h
  Holds-Lacks key tombstone h l = h
  Holds-Lacks key (entry k v) h l = l h

  Holds-Passes : (key : List ℕ) (b : Bucket V) → Holds key b → Passes key b → ⊥
  Holds-Passes key vacant h l = h
  Holds-Passes key tombstone h l = h
  Holds-Passes key (entry k v) h l = l h

  -- Where a key stands it is found.
  pub IsIndexed-Holds :
      (bs : List (Bucket V)) (key : List ℕ) (t : ℕ)
      → IsIndexed bs
      → Holds key (bucket_at t bs)
      → search bs key ≡ found t
  IsIndexed-Holds bs key t x h = go (bucket_at t bs) (x t) h
    where
      go : (b : Bucket V) → IsFound bs t b → Holds key b → search bs key ≡ found t
      go vacant f g = absurd g
      go tombstone f g = absurd g
      go (entry k v) f g = rw (sym g) f

  pub search-Holds :
      (bs : List (Bucket V)) (key : List ℕ) (t : ℕ)
      → search bs key ≡ found t
      → Holds key (bucket_at t bs)
  search-Holds bs key t e = get_loop-Holds key bs (fnv_hash key) (length bs) 0 t e

  pub set-IsPower :
      (bs : List (Bucket V)) (s : ℕ) (b : Bucket V)
      → IsPower (length bs)
      → IsPower (length (set bs s b))
  set-IsPower bs s b p = rw (length-set bs s b) p

  pub search-set_missing :
      (bs : List (Bucket V)) (s : ℕ) (b : Bucket V) (key : List ℕ)
      → IsPower (length bs)
      → occupied (set bs s b) < length bs
      → s < length bs
      → IsIndexed bs
      → Passes key b
      → search bs key ≡ missing
      → search (set bs s b) key ≡ missing
  search-set_missing bs s b key p o h x q e =
      elim (get_loop-cases key (set bs s b) (fnv_hash key) (length (set bs s b)) 0) [
        | inl (t, f) ↦ elim (eq_cases t s) [
          | inl d ↦
              let w = search-Holds (set bs s b) key t f in
              absurd (Holds-Passes key b (rw (d, bucket_at-set s b bs h) at w) q)
          | inr d ↦
              let w = search-Holds (set bs s b) key t f in
              let g = IsIndexed-Holds bs key t x (rw (bucket_at-set_other s t b bs d) at w) in
              absurd cc
        ]
        | inr (inl f) ↦ f
        | inr (inr f) ↦
            absurd
              (search-ends (set bs s b) key (set-IsPower bs s b p) (rw (length-set bs s b) o) f)
      ]

  -- What another key is mapped to stays.
  pub answer-set :
      (bs : List (Bucket V)) (s : ℕ) (b : Bucket V) (key : List ℕ)
      → IsPower (length bs)
      → occupied bs < length bs
      → occupied (set bs s b) < length bs
      → s < length bs
      → IsIndexed bs
      → Lacks key (bucket_at s bs)
      → Passes key b
      → answer (set bs s b) (search (set bs s b) key) ≡ answer bs (search bs key)
  answer-set bs s b key p o o' h x l q = elim (get_loop-cases key bs (fnv_hash key) (length bs) 0) [
    | inl (t, f) ↦
        let n : t ≢ s =
          λ d. let w = search-Holds bs key t f in Holds-Lacks key (bucket_at s bs) (rw d at w) l in
        rw (search-set_found bs s t b key h l q f, f)
          (ap (λ c. some (value c)) (bucket_at-set_other s t b bs n))
    | inr (inl f) ↦ rw (search-set_missing bs s b key p o' h x q f, f) refl
    | inr (inr f) ↦ absurd (search-ends bs key p o f)
  ]

  -- Every key is found where it stands, after a write to the bucket `s` of the key.
  pub IsIndexed-set :
      (bs : List (Bucket V)) (s : ℕ) (b : Bucket V) (key : List ℕ)
      → s < length bs
      → IsIndexed bs
      → ((k : List ℕ) → k ≢ key → Lacks k (bucket_at s bs))
      → ((k : List ℕ) → k ≢ key → Passes k b)
      → ((t : ℕ) → search bs key ≡ found t → t ≡ s)
      → IsFound (set bs s b) s b
      → IsIndexed (set bs s b)
  IsIndexed-set bs s b key h x l q only f t = elim (eq_cases t s) [
    | inl d ↦ rw (d, bucket_at-set s b bs h) f
    | inr d ↦ rw (bucket_at-set_other s t b bs d) (go d (bucket_at t bs) (x t))
  ]
    where
      go : t ≢ s → (c : Bucket V) → IsFound bs t c → IsFound (set bs s b) t c
      go n vacant e = tt
      go n tombstone e = tt
      go n (entry k v) e = elim (key_cases k key) [
        | inl z ↦ let w = rw z at e in absurd (n (only t w))
        | inr z ↦ search-set_found bs s t b k h (l k z) (q k z) e
      ]
