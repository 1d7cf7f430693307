-- ===== src/HashMap/Store.antt =====
-- hashmap.c: `get_or_insert_entry` and `hashmap_put2` where the table is not full.
use chibicc.Common.{
  ℕ, suc, zero, ◌+◌, ◌*◌, ◌/◌, ◌≤◌, ◌<◌, ◌≡◌, ◌≢◌, ◌∙◌, ◌⊎◌, refl, sym, ap, arith, inl, inr, false,
  Option, none, some, List, [], ◌∷◌, length, set, length-set,
}
use native.Mathlib.Nat.{div-lt_iff_lt-mul}
use chibicc.HashMap.{
  HashMap, Bucket, vacant, tombstone, entry, Probe, found, reused, fresh, missing, lost, bucket_at,
  value, fnv_hash, hashmap_get2, store, store_at, put_loop, init_size, put_nested, make_room,
  is_full, is_null,
}
use chibicc.HashMap.Slots.{IsPower, slot-lt}
use chibicc.HashMap.Search.{Lacks, Holds, bucket_at-set, found_inj, get_loop-cases}
use chibicc.HashMap.Table.{
  search, search-ends, answer, IsIndexed, occupied, occupied-set, weight, IsValid,
  hashmap_get2-answer,
}
use chibicc.HashMap.Update.{answer-set, IsIndexed-set, search-Holds, set-IsPower}
use chibicc.HashMap.Delete.{Holds-Lacks_other, Holds-weight}
use chibicc.HashMap.Insert.{
  target, put_loop-slot, put_loop-found, put_loop-Matches, Matches, IsTombstone, IsVacant,
}

module _ {ℓ} {V : Type ℓ} where
  -- No key was deleted since the buckets were allocated.
  abbrev pub AreKept : List (Bucket V) → Type 0
  AreKept [] = Unit
  AreKept (vacant ∷ bs) = AreKept bs
  AreKept (tombstone ∷ bs) = ⊥
  AreKept (entry k v ∷ bs) = AreKept bs

  pub AreKept-at : (t : ℕ) (bs : List (Bucket V)) → AreKept bs → IsTombstone (bucket_at t bs) → ⊥
  AreKept-at t [] h k = k
  AreKept-at zero (vacant ∷ bs) h k = k
  AreKept-at zero (tombstone ∷ bs) h k = h
  AreKept-at zero (entry q v ∷ bs) h k = k
  AreKept-at (suc t) (vacant ∷ bs) h k = AreKept-at t bs h k
  AreKept-at (suc t) (tombstone ∷ bs) h k = h
  AreKept-at (suc t) (entry q v ∷ bs) h k = AreKept-at t bs h k

  IsVacant-Lacks : (key : List ℕ) (b : Bucket V) → IsVacant b → Lacks key b
  IsVacant-Lacks key vacant h = tt
  IsVacant-Lacks key tombstone h = absurd h
  IsVacant-Lacks key (entry k v) h = absurd h

  IsTombstone-Lacks : (key : List ℕ) (b : Bucket V) → IsTombstone b → Lacks key b
  IsTombstone-Lacks key vacant h = absurd h
  IsTombstone-Lacks key tombstone h = tt
  IsTombstone-Lacks key (entry k v) h = absurd h

  pub IsVacant-weight : (b : Bucket V) → IsVacant b → weight b ≡ 0
  IsVacant-weight vacant h = refl
  IsVacant-weight tombstone h = absurd h
  IsVacant-weight (entry k v) h = absurd h

  pub IsTombstone-weight : (b : Bucket V) → IsTombstone b → weight b ≡ 1
  IsTombstone-weight vacant h = absurd h
  IsTombstone-weight tombstone h = refl
  IsTombstone-weight (entry k v) h = absurd h

  -- A write of a key to a bucket where the key is found afterwards.
  module _ (bs : List (Bucket V)) (key : List ℕ) (v : V) (s : ℕ) (power : IsPower (length bs))
      (indexed : IsIndexed bs) (room : occupied bs + 1 < length bs) (wide : init_size ≤ length bs)
      (in_table : s < length bs) (now : search (set bs s (entry key v)) key ≡ found s)
      (lacks : (k : List ℕ) → k ≢ key → Lacks k (bucket_at s bs))
      (only : (t : ℕ) → search bs key ≡ found t → t ≡ s) where
    more : List (Bucket V)
    more = set bs s (entry key v)

    pub IsIndexed-store : IsIndexed (set bs s (entry key v))
    IsIndexed-store =
        IsIndexed-set bs s (entry key v) key in_table indexed lacks (λ k n e. n (sym e)) only now

    pub occupied-store :
        occupied (set bs s (entry key v)) + weight (bucket_at s bs) ≡ occupied bs + 1
    occupied-store = occupied-set s (entry key v) bs in_table

    -- The map that is left.
    pub store-IsValid :
        (used : ℕ) (other : List ℕ)
        → used ≡ occupied (set bs s (entry key v))
        → other ≢ key
        → let m : HashMap V = record { buckets = set bs s (entry key v); used = used } in
          IsValid m
          × (hashmap_get2 m key ≡ some (some v))
          × (answer (set bs s (entry key v)) (search (set bs s (entry key v)) other)
              ≡ answer bs (search bs other))
    store-IsValid used other u n =
        let q = set-IsPower bs s (entry key v) power in
        let m : HashMap V = record { buckets = set bs s (entry key v); used = used } in
        let l = length-set bs s (entry key v) in
        (
          (q, IsIndexed-store, u, omega (arith, l, u, occupied-store), rw l wide),
          hashmap_get2-answer m key q ∙ rw (now, bucket_at-set s (entry key v) bs in_table) refl,
          answer-set bs s (entry key v) other power (omega arith) (omega (arith, occupied-store))
              in_table indexed (lacks other n) (λ e. n (sym e)),
        )

  value-Holds : (key : List ℕ) (b : Bucket V) → Holds key b → value b ≢ none
  value-Holds key vacant h e = h
  value-Holds key tombstone h e = h
  value-Holds key (entry k v) h e = cc

  pub some_same : {x y : Option V} → some x ≡ some y → x ≡ y
  some_same e = cc

  pub absent-missing :
      (map : HashMap V) (key : List ℕ)
      → IsPower (length map.buckets)
      → hashmap_get2 map key ≡ some none
      → search map.buckets key ≡ missing
  absent-missing map key p a =
      let g : answer map.buckets (search map.buckets key) ≡ some none =
        sym (hashmap_get2-answer map key p) ∙ a in
      elim (get_loop-cases key map.buckets (fnv_hash key) (length map.buckets) 0) [
        | inl (t, e) ↦ absurd (
            value-Holds key (bucket_at t map.buckets) (search-Holds map.buckets key t e)
              (some_same (rw e at g)))
        | inr (inl e) ↦ e
        | inr (inr e) ↦ let w = rw e at g in absurd cc
      ]

  -- What the insertion of the key leads to.
  abbrev pub Stores : HashMap V → List ℕ → V → List ℕ → Option (HashMap V) → Type ℓ
  Stores map key v other r =
      (m : HashMap V) × (r ≡ some m)
      × IsValid m
      × (hashmap_get2 m key ≡ some (some v))
      × (hashmap_get2 m other ≡ hashmap_get2 map other)

  write-Stores :
      (map : HashMap V) (key : List ℕ) (v : V) (other : List ℕ) (s used : ℕ)
      → IsValid map
      → map.used + 1 < length map.buckets
      → other ≢ key
      → target (put_loop key map.buckets (fnv_hash key) (length map.buckets) 0) ≡ some s
      → used + weight (bucket_at s map.buckets) ≡ map.used + 1
      → ((k : List ℕ) → k ≢ key → Lacks k (bucket_at s map.buckets))
      → ((t : ℕ) → search map.buckets key ≡ found t → t ≡ s)
      → Stores map key v other
          (some (record { buckets = set map.buckets s (entry key v); used = used }))
  write-Stores map key v other s used (p, x, u, l, w) room n e q lacks only =
      let bs = map.buckets in
      let (j, a, b, c) = put_loop-slot key map.buckets (fnv_hash key) (length map.buckets) 0 s e in
      let in_table : s < length map.buckets =
        rw (sym c) (slot-lt (fnv_hash key) j (length map.buckets) p) in
      let now : search (set map.buckets s (entry key v)) key ≡ found s =
        rw (length-set map.buckets s (entry key v)) (
          put_loop-found key v map.buckets (fnv_hash key) (length map.buckets) 0 s p (omega arith)
            e) in
      let count =
        occupied-store map.buckets key v s p x (omega (arith, u, room)) w in_table now lacks only in
      let (valid, here, there) =
        store-IsValid map.buckets key v s p x (omega (arith, u, room)) w in_table now lacks only
          used other (omega (arith, u, q, count)) n in
      let m : HashMap V = record { buckets = set map.buckets s (entry key v); used = used } in
      (
        m,
        refl,
        valid,
        here,
        hashmap_get2-answer m other valid.0 ∙ there ∙ sym (hashmap_get2-answer map other p),
      )

  -- Each end of the search for a bucket.
  store_at-Stores :
      (map : HashMap V) (key : List ℕ) (v : V) (other : List ℕ) (r : Probe)
      → IsValid map
      → map.used + 1 < length map.buckets
      → (search map.buckets key ≡ missing) ⊎ AreKept map.buckets
      → other ≢ key
      → put_loop key map.buckets (fnv_hash key) (length map.buckets) 0 ≡ r
      → Matches map.buckets r (search map.buckets key)
      → Stores map key v other (store_at map key v r)
  store_at-Stores map key v other (found s) valid room c n e m =
      let h = search-Holds map.buckets key s m in
      write-Stores map key v other s map.used valid room n (ap target e)
        (omega (arith, Holds-weight key (bucket_at s map.buckets) h))
        (λ k d. Holds-Lacks_other key k (bucket_at s map.buckets) h d)
        (λ t f. found_inj (sym f ∙ m))
  store_at-Stores map key v other (reused s) valid room (inl a) n e m =
      write-Stores map key v other s map.used valid room n (ap target e)
        (omega (arith, IsTombstone-weight (bucket_at s map.buckets) m))
        (λ k d. IsTombstone-Lacks k (bucket_at s map.buckets) m) (λ t f. absurd cc)
  store_at-Stores map key v other (reused s) valid room (inr a) n e m =
      absurd (AreKept-at s map.buckets a m)
  store_at-Stores map key v other (fresh s) valid room c n e m =
      write-Stores map key v other s (map.used + 1) valid room n (ap target e)
        (omega (arith, IsVacant-weight (bucket_at s map.buckets) m.1))
        (λ k d. IsVacant-Lacks k (bucket_at s map.buckets) m.1) (λ t f. let g = m.0 in absurd cc)
  store_at-Stores map key v other missing valid room c n e m = absurd m
  store_at-Stores map key v other lost (p, x, u, l, w) room c n e m =
      absurd (search-ends map.buckets key p (omega (arith, u, l)) m)

  pub store-Stores :
      (map : HashMap V) (key : List ℕ) (v : V) (other : List ℕ)
      → IsValid map
      → map.used + 1 < length map.buckets
      → (hashmap_get2 map key ≡ some none) ⊎ AreKept map.buckets
      → other ≢ key
      → Stores map key v other (store map key v)
  unfolding store
  store-Stores map key v other valid room c n =
      store_at-Stores map key v other
        (put_loop key map.buckets (fnv_hash key) (length map.buckets) 0) valid room
        (elim c [ inl a ↦ inl (absent-missing map key valid.0 a) | inr a ↦ inr a ]) n refl
        (put_loop-Matches key map.buckets (fnv_hash key) (length map.buckets) 0)

  pub not_full-room :
      (map : HashMap V)
      → init_size ≤ length map.buckets
      → is_full map ≡ false
      → map.used + 1 < length map.buckets
  not_full-room map w f =
      let d : map.used * 100 / length map.buckets < 70 = ground arith in
      omega (
        arith,
        (div-lt_iff_lt-mul {k = length map.buckets} {x = map.used * 100} {y = 70} (omega arith)).0
            d,
      )

  pub is_null-wide : (bs : List (Bucket V)) → init_size ≤ length bs → is_null bs ≡ false
  is_null-wide [] w = absurd (omega arith)
  is_null-wide (b ∷ bs) w = refl

  pub make_room-wide :
      (put : HashMap V → List ℕ → V → Option (HashMap V)) (map : HashMap V)
      → init_size ≤ length map.buckets
      → is_full map ≡ false
      → make_room put map ≡ some map
  unfolding make_room
  make_room-wide put map w f = rw (is_null-wide map.buckets w, f) refl

  pub put_nested-Stores :
      (depth : ℕ) (map : HashMap V) (key : List ℕ) (v : V) (other : List ℕ)
      → IsValid map
      → is_full map ≡ false
      → (hashmap_get2 map key ≡ some none) ⊎ AreKept map.buckets
      → other ≢ key
      → Stores map key v other (put_nested (suc depth) map key v)
  unfolding put_nested
  put_nested-Stores depth map key v other valid f c n =
      rw (make_room-wide (put_nested depth) map valid.4 f)
        (store-Stores map key v other valid (not_full-room map valid.4 f) c n)
