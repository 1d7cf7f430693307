-- ===== src/HashMap/Put.antt =====
-- hashmap.c: `hashmap_put2`, with `rehash` where the table is full.
use chibicc.Common.{
  ℕ, suc, zero, ◌*◌, ◌/◌, ◌≤◌, ◌<◌, ◌≡◌, ◌≢◌, ◌∙◌, ◌⊎◌, refl, sym, ap, arith, inl, inr, true, false,
  Option, none, some, List, [], ◌∷◌, leb, length, replicate, length-replicate, Bool-cases, ==_iff,
}
use native.Mathlib.Nat.{div-lt_iff_lt-mul}
use chibicc.HashMap.{
  HashMap, Bucket, vacant, tombstone, entry, hashmap_get2, new_buckets, init_size, count_keys,
  grow_capacity, rehash, put_nested, is_full,
}
use chibicc.HashMap.Slots.{IsPower}
use chibicc.HashMap.Table.{occupied, IsValid}
use chibicc.HashMap.Store.{AreKept, Stores, put_nested-Stores}
use chibicc.HashMap.Entries.{assoc, hashmap_get2-assoc, IsIndexed-AreDistinct}
use chibicc.HashMap.{rehash, make_room, hashmap_put2}
use chibicc.HashMap.Rehash.{
  IsBelow, copy_entries-Copies, AreAbsent, below-not_full, new_buckets-IsValid, AreKept-vacant,
  assoc-vacant, or_else,
}
use chibicc.HashMap.Store.{store-Stores, not_full-room, is_null-wide}

grow_capacity-stays :
    (fuel nkeys n : ℕ) → 0 < n → IsBelow 50 nkeys n → grow_capacity fuel nkeys n ≡ n
unfolding grow_capacity
grow_capacity-stays zero nkeys n p h = refl
grow_capacity-stays (suc fuel) nkeys n p h =
    let d = (div-lt_iff_lt-mul {k = n} {x = nkeys * 100} {y = 50} p).1 h in
    let e : leb 50 (nkeys * 100 / n) ≡ false = ground arith in rw e refl

-- Doubling the capacity once is enough.
pub grow_capacity-IsBelow :
    (fuel nkeys n : ℕ)
    → init_size ≤ n
    → nkeys < n
    → nkeys ≤ fuel
    → IsPower n
    → IsPower (n * 2)
    → IsPower (grow_capacity fuel nkeys n)
      × (n ≤ grow_capacity fuel nkeys n)
      × IsBelow 50 nkeys (grow_capacity fuel nkeys n)
unfolding grow_capacity
grow_capacity-IsBelow zero nkeys n w h k p q = (p, omega arith, omega arith)
grow_capacity-IsBelow (suc fuel) nkeys n w h k p q =
    let d = div-lt_iff_lt-mul {k = n} {x = nkeys * 100} {y = 50} (omega arith) in
    elim (Bool-cases (leb 50 (nkeys * 100 / n))) [
      | inl e ↦
          rw (e, grow_capacity-stays fuel nkeys (n * 2) (omega arith) (omega arith))
            (q, omega arith, omega arith)
      | inr e ↦ rw e (p, omega arith, omega (arith, d.0 (ground arith)))
    ]

module _ {ℓ} {V : Type ℓ} where
  pub count_keys-le : (bs : List (Bucket V)) → count_keys bs ≤ occupied bs
  unfolding count_keys
  count_keys-le [] = omega arith
  count_keys-le (vacant ∷ bs) = omega (arith, count_keys-le bs)
  count_keys-le (tombstone ∷ bs) = omega (arith, count_keys-le bs)
  count_keys-le (entry k v ∷ bs) = omega (arith, count_keys-le bs)

  AreAbsent-new :
      (n : ℕ) (bs : List (Bucket V)) → IsPower n → init_size ≤ n → AreAbsent bs (new_buckets n)
  AreAbsent-new n [] p w = tt
  AreAbsent-new n (vacant ∷ bs) p w = AreAbsent-new n bs p w
  AreAbsent-new n (tombstone ∷ bs) p w = AreAbsent-new n bs p w
  AreAbsent-new n (entry k v ∷ bs) p w = (
    hashmap_get2-assoc (new_buckets n) k (new_buckets-IsValid V n p w)
        ∙ ap some (assoc-vacant V n k),
    AreAbsent-new n bs p w,
  )

  or_else-none : (a : Option V) → or_else a none ≡ a
  or_else-none (some v) = refl
  or_else-none none = refl

  -- What rebuilding leaves.
  abbrev pub Rehashes : HashMap V → List ℕ → Option (HashMap V) → Type ℓ
  Rehashes map key r =
      (m : HashMap V) × (r ≡ some m)
      × IsValid m
      × AreKept m.buckets
      × IsBelow 50 m.used (length m.buckets)
      × (hashmap_get2 m key ≡ hashmap_get2 map key)

  -- Rebuilding a valid map, whose doubled capacity is still in range, does not fail: the new table is valid,
  -- without tombstones and less than half full, and the key is mapped to what it was.
  pub rehash-Rehashes :
      (depth : ℕ) (map : HashMap V) (key : List ℕ)
      → IsValid map
      → IsPower (length map.buckets * 2)
      → Rehashes map key (rehash (put_nested (suc depth)) map)
  unfolding rehash
  rehash-Rehashes depth map key valid q =
      let nkeys = count_keys map.buckets in
      let c = count_keys-le map.buckets in
      let n =
        grow_capacity (count_keys map.buckets) (count_keys map.buckets) (length map.buckets) in
      let (p, w, b) =
        grow_capacity-IsBelow (count_keys map.buckets) (count_keys map.buckets) (length map.buckets)
          valid.4 (omega (arith, c, valid.2, valid.3)) (omega arith) valid.0 q in
      let l = length-replicate {A = Bucket V} n vacant in
      let (m, e, x, y, u, z, g) =
        copy_entries-Copies depth map.buckets (new_buckets n) key
          (IsIndexed-AreDistinct map.buckets valid.1)
          (
            new_buckets-IsValid V n p (omega (arith, w, valid.4)),
            AreKept-vacant V n,
            AreAbsent-new n map.buckets p (omega (arith, w, valid.4)),
            omega (arith, l, b),
          ) in
      let k = (==_iff m.used (count_keys map.buckets)).1 (omega (arith, u)) in
      let h : or_else (assoc map.buckets key) (assoc (replicate n vacant) key)
          ≡ assoc map.buckets key =
        ap (or_else (assoc map.buckets key)) (assoc-vacant V n key)
        ∙ or_else-none (assoc map.buckets key) in
      rw (e, k)
        (
          m,
          refl,
          x,
          y,
          omega (arith, u, z, l, b),
          g ∙ ap some h ∙ sym (hashmap_get2-assoc map key valid),
        )

  pub make_room-full :
      (put : HashMap V → List ℕ → V → Option (HashMap V)) (map : HashMap V)
      → init_size ≤ length map.buckets
      → is_full map ≡ true
      → make_room put map ≡ rehash put map
  unfolding make_room
  make_room-full put map w f = rw (is_null-wide map.buckets w, f) refl

  put_nested-full :
      (depth : ℕ) (map : HashMap V) (key : List ℕ) (v : V) (other : List ℕ)
      → IsValid map
      → IsPower (length map.buckets * 2)
      → is_full map ≡ true
      → other ≢ key
      → Stores map key v other (put_nested (suc (suc depth)) map key v)
  unfolding put_nested
  put_nested-full depth map key v other valid q f n =
      let (m, e, x, y, b, g) = rehash-Rehashes depth map other valid q in
      let (m', e', x', here, there) =
        store-Stores m key v other x (not_full-room m x.4 (below-not_full m x.4 b)) (inr y) n in
      rw (make_room-full (put_nested (suc depth)) map valid.4 f, e) (m', e', x', here, there ∙ g)

  -- An insertion into a valid map, whose doubled capacity is still in range, does not fail, where the key
  -- is absent or no bucket holds a tombstone: it leaves a valid map, in which the key is mapped to the
  -- value and another key to what it was, also when the table is rebuilt for it.
  pub hashmap_put2-Stores :
      (map : HashMap V) (key : List ℕ) (v : V) (other : List ℕ)
      → IsValid map
      → IsPower (length map.buckets * 2)
      → (hashmap_get2 map key ≡ some none) ⊎ AreKept map.buckets
      → other ≢ key
      → Stores map key v other (hashmap_put2 map key v)
  unfolding hashmap_put2
  hashmap_put2-Stores map key v other valid q c n = elim (Bool-cases (is_full map)) [
    | inl f ↦ put_nested-full 0 map key v other valid q f n
    | inr f ↦ put_nested-Stores 1 map key v other valid f c n
  ]
