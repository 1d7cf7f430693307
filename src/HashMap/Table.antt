-- ===== src/HashMap/Table.antt =====
-- hashmap.c: a map as a partial function from keys to values.
use chibicc.Common.{
  ℕ, suc, zero, ◌+◌, ◌≤◌, ◌<◌, ◌≡◌, ◌≢◌, refl, arith, false, Option, none, some, List, [], ◌∷◌,
  length, set,
}
use chibicc.HashMap.{
  HashMap, Bucket, vacant, tombstone, entry, Probe, found, reused, fresh, missing, lost, bucket_at,
  get_loop, fnv_hash, is_null, value, get_at, get_entry, hashmap_get2, init_size,
}
use chibicc.HashMap.Slots.{IsPower, slot-lt, slot_surjective}
use chibicc.HashMap.Search.{get_loop-lost}
use chibicc.HashMap.Insert.{IsVacant}

module _ {ℓ} {V : Type ℓ} where
  abbrev pub search : List (Bucket V) → List ℕ → Probe
  search bs key = get_loop key bs (fnv_hash key) (length bs) 0

  -- A key is found where it stands.
  abbrev pub IsFound : List (Bucket V) → ℕ → Bucket V → Type 0
  IsFound bs t vacant = Unit
  IsFound bs t tombstone = Unit
  IsFound bs t (entry k v) = search bs k ≡ found t

  abbrev pub IsIndexed : List (Bucket V) → Type 0
  IsIndexed bs = (t : ℕ) → IsFound bs t (bucket_at t bs)

  abbrev pub weight : Bucket V → ℕ
  weight vacant = 0
  weight tombstone = 1
  weight (entry k v) = 1

  -- The number of buckets that are not vacant.
  abbrev pub occupied : List (Bucket V) → ℕ
  occupied [] = 0
  occupied (b ∷ bs) = weight b + occupied bs

  -- The capacity is a power of 2 and at least that of a new map, every key is found where it stands, `used` counts the buckets that are
  -- not vacant, and there is a vacant one.
  abbrev pub IsValid : HashMap V → Type 0
  IsValid map =
      IsPower (length map.buckets)
      × IsIndexed map.buckets
      × (map.used ≡ occupied map.buckets)
      × (map.used < length map.buckets)
      × (init_size ≤ length map.buckets)

  vacancy :
      (bs : List (Bucket V))
      → occupied bs < length bs
      → (t : ℕ) × (t < length bs) × IsVacant (bucket_at t bs)
  vacancy [] h = absurd (omega arith)
  vacancy (vacant ∷ bs) h = (0, omega arith, tt)
  vacancy (tombstone ∷ bs) h =
      let (t, a, b) = vacancy bs (omega arith) in (suc t, omega (arith, a), b)
  vacancy (entry k v ∷ bs) h =
      let (t, a, b) = vacancy bs (omega arith) in (suc t, omega (arith, a), b)

  IsVacant-eq : (b : Bucket V) → IsVacant b → b ≡ vacant
  IsVacant-eq vacant h = refl
  IsVacant-eq tombstone h = absurd h
  IsVacant-eq (entry k v) h = absurd h

  -- A search ends.
  pub search-ends :
      (bs : List (Bucket V)) (key : List ℕ)
      → IsPower (length bs)
      → occupied bs < length bs
      → search bs key ≢ lost
  search-ends bs key p h =
      let (t, a, b) = vacancy bs h in
      let (i, c, d) = slot_surjective (fnv_hash key) t (length bs) p a in
      get_loop-lost key bs (fnv_hash key) (length bs) 0 i (omega arith) (omega (arith, c))
        (rw d (IsVacant-eq (bucket_at t bs) b))

  pub occupied-set :
      (s : ℕ) (b : Bucket V) (bs : List (Bucket V))
      → s < length bs
      → occupied (set bs s b) + weight (bucket_at s bs) ≡ occupied bs + weight b
  occupied-set s b [] h = absurd (omega arith)
  occupied-set zero b (c ∷ bs) h = omega arith
  occupied-set (suc s) b (c ∷ bs) h = omega (arith, occupied-set s b bs (omega arith))

  -- The value that a search delivers.
  abbrev pub answer : List (Bucket V) → Probe → Option (Option V)
  answer bs (found t) = some (value (bucket_at t bs))
  answer bs missing = some none
  answer bs _ = none

  is_null-power : (bs : List (Bucket V)) → IsPower (length bs) → is_null bs ≡ false
  is_null-power [] p = absurd (omega (arith, slot-lt 0 0 0 p))
  is_null-power (b ∷ bs) p = refl

  pub get_entry-search :
      (map : HashMap V) (key : List ℕ)
      → IsPower (length map.buckets)
      → get_entry map key ≡ search map.buckets key
  unfolding get_entry
  get_entry-search map key p = rw (is_null-power map.buckets p) refl

  pub hashmap_get2-answer :
      (map : HashMap V) (key : List ℕ)
      → IsPower (length map.buckets)
      → hashmap_get2 map key ≡ answer map.buckets (search map.buckets key)
  unfolding hashmap_get2
  hashmap_get2-answer map key p = rw (get_entry-search map key p) (same (search map.buckets key))
    where
      same : (r : Probe) → get_at map r ≡ answer map.buckets r
      same (found t) = refl
      same (reused t) = refl
      same (fresh t) = refl
      same missing = refl
      same lost = refl
