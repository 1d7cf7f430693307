-- ===== src/HashMap/Entries.antt =====
-- hashmap.c: the entries of a table as an association list.
use chibicc.Common.{
  ℕ, suc, zero, ◌≡◌, ◌∙◌, refl, sym, ap, arith, inl, inr, Option, none, some, List, [], ◌∷◌,
  if◌then◌else◌, length,
}
use chibicc.HashMap.{
  HashMap, Bucket, vacant, tombstone, entry, same_key, bucket_at, value, fnv_hash, hashmap_get2,
}
use chibicc.HashMap.Search.{Holds, same_key_refl, same_key_other, found_inj, get_loop-cases}
use chibicc.HashMap.Table.{search-ends, IsIndexed, IsValid, hashmap_get2-answer}
use chibicc.HashMap.Update.{IsIndexed-Holds, search-Holds}

module _ {ℓ} {V : Type ℓ} where
  -- The value of the first entry with the key.
  abbrev pub assoc : List (Bucket V) → List ℕ → Option V
  assoc [] key = none
  assoc (vacant ∷ bs) key = assoc bs key
  assoc (tombstone ∷ bs) key = assoc bs key
  assoc (entry k v ∷ bs) key = if same_key k key then some v else assoc bs key

  -- No key has two entries.
  abbrev pub AreDistinct : List (Bucket V) → Type ℓ
  AreDistinct [] = Unit
  AreDistinct (vacant ∷ bs) = AreDistinct bs
  AreDistinct (tombstone ∷ bs) = AreDistinct bs
  AreDistinct (entry k v ∷ bs) = (assoc bs k ≡ none) × AreDistinct bs

  assoc-none :
      (bs : List (Bucket V)) (key : List ℕ)
      → ((t : ℕ) → Holds key (bucket_at t bs) → ⊥)
      → assoc bs key ≡ none
  assoc-none [] key h = refl
  assoc-none (vacant ∷ bs) key h = assoc-none bs key (λ t. h (suc t))
  assoc-none (tombstone ∷ bs) key h = assoc-none bs key (λ t. h (suc t))
  assoc-none (entry k v ∷ bs) key h =
      rw (same_key_other k key (h 0)) (assoc-none bs key (λ t. h (suc t)))

  assoc-Holds :
      (bs : List (Bucket V)) (key : List ℕ) (t : ℕ)
      → Holds key (bucket_at t bs)
      → ((u : ℕ) → Holds key (bucket_at u bs) → u ≡ t)
      → assoc bs key ≡ value (bucket_at t bs)
  assoc-Holds [] key t h f = absurd h
  assoc-Holds (vacant ∷ bs) key zero h f = absurd h
  assoc-Holds (tombstone ∷ bs) key zero h f = absurd h
  assoc-Holds (entry k v ∷ bs) key zero h f = let e = same_key_refl k in rw (sym h, e) refl
  assoc-Holds (vacant ∷ bs) key (suc t) h f =
      assoc-Holds bs key t h (λ u g. let e = f (suc u) g in omega arith)
  assoc-Holds (tombstone ∷ bs) key (suc t) h f =
      assoc-Holds bs key t h (λ u g. let e = f (suc u) g in omega arith)
  assoc-Holds (entry k v ∷ bs) key (suc t) h f =
      rw (same_key_other k key (λ e. let q = f 0 e in omega arith))
        (assoc-Holds bs key t h (λ u g. let e = f (suc u) g in omega arith))

  -- A key of a table whose keys are found where they stand has one place.
  bucket_at_unique :
      (bs : List (Bucket V)) (key : List ℕ) (t u : ℕ)
      → IsIndexed bs
      → Holds key (bucket_at t bs)
      → Holds key (bucket_at u bs)
      → t ≡ u
  bucket_at_unique bs key t u x h g =
      found_inj (sym (IsIndexed-Holds bs key t x h) ∙ IsIndexed-Holds bs key u x g)

  -- In a valid map a lookup delivers the value of the first entry with the key, in the order of the
  -- buckets, or none where there is no such entry.
  pub hashmap_get2-assoc :
      (map : HashMap V) (key : List ℕ)
      → IsValid map
      → hashmap_get2 map key ≡ some (assoc map.buckets key)
  hashmap_get2-assoc map key (p, x, u, l, w) =
      hashmap_get2-answer map key p
      ∙ elim (get_loop-cases key map.buckets (fnv_hash key) (length map.buckets) 0) [
        | inl (t, e) ↦
            let h = search-Holds map.buckets key t e in
            rw e (
              ap some (
                sym (
                  assoc-Holds map.buckets key t h
                    (λ s g. bucket_at_unique map.buckets key s t x g h))))
        | inr (inl e) ↦ rw e (
            ap some (
              sym (
                assoc-none map.buckets key
                  (λ t h. let g = IsIndexed-Holds map.buckets key t x h in cc))))
        | inr (inr e) ↦ absurd (search-ends map.buckets key p (omega (arith, u, l)) e)
      ]

  bucket_at-AreDistinct :
      (bs : List (Bucket V))
      → ((key : List ℕ) (t u : ℕ) → Holds key (bucket_at t bs) → Holds key (bucket_at u bs) → t ≡ u)
      → AreDistinct bs
  bucket_at-AreDistinct [] f = tt
  bucket_at-AreDistinct (vacant ∷ bs) f =
      bucket_at-AreDistinct bs (λ key t u h g. let e = f key (suc t) (suc u) h g in omega arith)
  bucket_at-AreDistinct (tombstone ∷ bs) f =
      bucket_at-AreDistinct bs (λ key t u h g. let e = f key (suc t) (suc u) h g in omega arith)
  bucket_at-AreDistinct (entry k v ∷ bs) f = (
    assoc-none bs k (λ t h. let e = f k 0 (suc t) refl h in omega arith),
    bucket_at-AreDistinct bs (λ key t u h g. let e = f key (suc t) (suc u) h g in omega arith),
  )

  pub IsIndexed-AreDistinct : (bs : List (Bucket V)) → IsIndexed bs → AreDistinct bs
  IsIndexed-AreDistinct bs x =
      bucket_at-AreDistinct bs (λ key t u h g. bucket_at_unique bs key t u x h g)
