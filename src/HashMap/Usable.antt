-- ===== src/HashMap/Usable.antt =====
-- hashmap.c: `hashmap_get2`, `hashmap_delete2` and `hashmap_put2` on tables in which a key may stand
-- twice.
use chibicc.Common.{
  ℕ, suc, ◌+◌, ◌*◌, ◌≤◌, ◌<◌, ◌≡◌, ◌∙◌, ◌⊎◌, refl, sym, arith, inl, inr, false, Option, none, some,
  List, [], ◌∷◌, ◌==◌, length, set, length-set, length-replicate, Bool-cases,
}
use chibicc.HashMap.{
  HashMap, Bucket, vacant, tombstone, entry, Probe, found, reused, fresh, missing, lost, bucket_at,
  value, fnv_hash, is_full, init_size, new_buckets, put_loop, store_at, store, count_keys,
  grow_capacity, copy_entries, if_counted, rehash, put_nested, make_room, get_entry, hashmap_get2,
  hashmap_delete2, hashmap_put2, ◌>>=◌,
}
use chibicc.HashMap.Slots.{IsPower, slot-lt}
use chibicc.HashMap.Search.{get_loop-cases}
use chibicc.HashMap.Table.{
  IsValid, search, search-ends, occupied, occupied-set, weight, get_entry-search,
  hashmap_get2-answer,
}
use chibicc.HashMap.Update.{search-Holds, set-IsPower}
use chibicc.HashMap.Insert.{target, put_loop-slot, put_loop-Matches, Matches}
use chibicc.HashMap.Delete.{Holds-weight, Holds-lt}
use chibicc.HashMap.Store.{IsVacant-weight, IsTombstone-weight, not_full-room, make_room-wide}
use chibicc.HashMap.Fresh.{some_map}
use chibicc.HashMap.Rehash.{IsBelow, below-not_full, new_buckets-IsValid}
use chibicc.HashMap.Put.{grow_capacity-IsBelow, count_keys-le, make_room-full}

bind-some {ℓ κ} :
    {A : Type ℓ} {B : Type κ} (o : Option A) (f : A → Option B) (b : B)
    → o >>= f ≡ some b
    → (a : A) × (o ≡ some a) × (f a ≡ some b)
bind-some none f b e = absurd cc
bind-some (some a) f b e = (a, refl, e)

module _ {ℓ} {V : Type ℓ} where
  abbrev pub IsRoomy : HashMap V → Type 0
  IsRoomy map =
      IsPower (length map.buckets)
      × (map.used ≡ occupied map.buckets)
      × (map.used < length map.buckets)
      × (init_size ≤ length map.buckets)

  -- A table without buckets, as at first, or with a vacant one.
  abbrev pub IsUsable : HashMap V → Type ℓ
  IsUsable map = (map.buckets ≡ []) ⊎ IsRoomy map

  -- A bucket is overwritten by one that counts the same.
  IsRoomy-set :
      (map : HashMap V) (s : ℕ) (b : Bucket V)
      → IsRoomy map
      → s < length map.buckets
      → weight (bucket_at s map.buckets) ≡ weight b
      → IsRoomy (record map { buckets = set map.buckets s b })
  IsRoomy-set map s b (p, u, l, w) h e = (
    set-IsPower map.buckets s b p,
    omega (arith, u, occupied-set s b map.buckets h, e),
    rw (length-set map.buckets s b) l,
    rw (length-set map.buckets s b) w,
  )

  get-Returns :
      (map : HashMap V) (key : List ℕ)
      → IsRoomy map
      → (o : Option V) × (hashmap_get2 map key ≡ some o)
  get-Returns map key (p, u, l, w) =
      let room : occupied map.buckets < length map.buckets = omega (arith, u, l) in
      let a = hashmap_get2-answer map key p in
      elim (get_loop-cases key map.buckets (fnv_hash key) (length map.buckets) 0) [
        | inl (t, e) ↦ (value (bucket_at t map.buckets), a ∙ rw e refl)
        | inr (inl e) ↦ (none, a ∙ rw e refl)
        | inr (inr e) ↦ absurd (search-ends map.buckets key p room e)
      ]

  delete-Returns :
      (map : HashMap V) (key : List ℕ)
      → IsRoomy map
      → (m : HashMap V) × (hashmap_delete2 map key ≡ some m) × IsRoomy m
  unfolding hashmap_delete2
  delete-Returns map key (p, u, l, w) =
      let room : occupied map.buckets < length map.buckets = omega (arith, u, l) in
      let a = get_entry-search map key p in
      elim (get_loop-cases key map.buckets (fnv_hash key) (length map.buckets) 0) [
        | inl (t, e) ↦
            let h = search-Holds map.buckets key t e in
            (
              record map { buckets = set map.buckets t tombstone },
              rw (a, e) refl,
              IsRoomy-set map t tombstone (p, u, l, w) (Holds-lt key t map.buckets h)
                  (Holds-weight key (bucket_at t map.buckets) h),
            )
        | inr (inl e) ↦ (map, rw (a, e) refl, (p, u, l, w))
        | inr (inr e) ↦ absurd (search-ends map.buckets key p room e)
      ]

  -- What a write to a table with two vacant buckets leaves.
  abbrev Stored : HashMap V → HashMap V → Type 0
  Stored map m = IsRoomy m × (m.used ≤ map.used + 1) × (length m.buckets ≡ length map.buckets)

  store_at-Stored :
      (map : HashMap V) (key : List ℕ) (v : V) (m : HashMap V) (r : Probe)
      → IsRoomy map
      → map.used + 1 < length map.buckets
      → Matches map.buckets r (search map.buckets key)
      → ((s : ℕ) → target r ≡ some s → s < length map.buckets)
      → store_at map key v r ≡ some m
      → Stored map m
  store_at-Stored map key v m (found s) x room matches slots e =
      let b = entry key v in
      let h = search-Holds map.buckets key s matches in
      let n = Holds-weight key (bucket_at s map.buckets) h in
      rw (sym (some_map e))
        (IsRoomy-set map s b x (slots s refl) n, omega arith, length-set map.buckets s b)
  store_at-Stored map key v m (reused s) x room matches slots e =
      let b = entry key v in
      let n = IsTombstone-weight (bucket_at s map.buckets) matches in
      rw (sym (some_map e))
        (IsRoomy-set map s b x (slots s refl) n, omega arith, length-set map.buckets s b)
  store_at-Stored map key v m (fresh s) (p, u, l, w) room matches slots e =
      let b = entry key v in
      let n = IsVacant-weight (bucket_at s map.buckets) matches.1 in
      let k = length-set map.buckets s b in
      rw (sym (some_map e)) (
        (
          set-IsPower map.buckets s b p,
          omega (arith, u, occupied-set s b map.buckets (slots s refl), n),
          omega (arith, k),
          omega (arith, k),
        ),
        omega arith,
        k,
      )
  store_at-Stored map key v m missing x room matches slots e = absurd matches
  store_at-Stored map key v m lost x room matches slots e = absurd cc

  store-Stored :
      (map : HashMap V) (key : List ℕ) (v : V) (m : HashMap V)
      → IsRoomy map
      → is_full map ≡ false
      → store map key v ≡ some m
      → Stored map m
  unfolding store
  store-Stored map key v m x f e =
      let bs = map.buckets in
      store_at-Stored map key v m (put_loop key bs (fnv_hash key) (length bs) 0) x
        (not_full-room map x.3 f) (put_loop-Matches key bs (fnv_hash key) (length bs) 0)
        (λ s q.
          let (j, _, _, z) = put_loop-slot key bs (fnv_hash key) (length bs) 0 s q in
          rw z at (slot-lt (fnv_hash key) j (length bs) x.0))
        e

  put_nested-Stored :
      (depth : ℕ) (map : HashMap V) (key : List ℕ) (v : V) (m : HashMap V)
      → IsRoomy map
      → is_full map ≡ false
      → put_nested (suc depth) map key v ≡ some m
      → Stored map m
  unfolding put_nested
  put_nested-Stored depth map key v m x f e =
      store-Stored map key v m x f (rw (make_room-wide (put_nested depth) map x.3 f) at e)

  copy_entries-IsRoomy :
      (depth : ℕ) (bs : List (Bucket V)) (map m : HashMap V)
      → IsRoomy map
      → IsBelow 50 (map.used + count_keys bs) (length map.buckets)
      → copy_entries (put_nested (suc depth)) bs map ≡ some m
      → IsRoomy m × IsBelow 50 m.used (length m.buckets)
  unfolding copy_entries count_keys
  copy_entries-IsRoomy depth [] map m x b e = rw (sym (some_map e)) (x, omega (arith, b))
  copy_entries-IsRoomy depth (vacant ∷ bs) map m x b e = copy_entries-IsRoomy depth bs map m x b e
  copy_entries-IsRoomy depth (tombstone ∷ bs) map m x b e =
      copy_entries-IsRoomy depth bs map m x b e
  copy_entries-IsRoomy depth (entry k v ∷ bs) map m x b e =
      let (m1, e1, e2) = bind-some (put_nested (suc depth) map k v) _ m e in
      let f = below-not_full map x.3 (omega (arith, b)) in
      let (y, u, l) = put_nested-Stored depth map k v m1 x f e1 in
      copy_entries-IsRoomy depth bs m1 m y (omega (arith, u, l, b)) e2

  counted : (n : ℕ) (a m : HashMap V) → if_counted n a ≡ some m → a ≡ m
  counted n a m e = elim (Bool-cases (a.used == n)) [
    | inl z ↦ some_map (rw z at e)
    | inr z ↦ let y = rw z at e in absurd cc
  ]

  IsValid-IsRoomy : (map : HashMap V) → IsValid map → IsRoomy map
  IsValid-IsRoomy map (p, x, u, l, w) = (p, u, l, w)

  rehash-IsRoomy :
      (depth : ℕ) (map m : HashMap V)
      → IsRoomy map
      → IsPower (length map.buckets * 2)
      → rehash (put_nested (suc depth)) map ≡ some m
      → IsRoomy m × IsBelow 50 m.used (length m.buckets)
  unfolding rehash
  rehash-IsRoomy depth map m (p, u, l, w) q e =
      let nkeys = count_keys map.buckets in
      let n = grow_capacity nkeys nkeys (length map.buckets) in
      let (m1, e1, e2) =
        bind-some (copy_entries (put_nested (suc depth)) map.buckets (new_buckets n)) _ m e in
      let (p', w', b) =
        grow_capacity-IsBelow nkeys nkeys (length map.buckets) w
          (omega (arith, count_keys-le map.buckets, u, l)) (omega arith) p q in
      rw (sym (counted nkeys m1 m e2)) (
        copy_entries-IsRoomy depth map.buckets (new_buckets n) m1
          (IsValid-IsRoomy (new_buckets n) (new_buckets-IsValid V n p' (omega (arith, w', w))))
          (omega (arith, b, length-replicate {A = Bucket V} n vacant)) e1)

  put-IsRoomy :
      (map : HashMap V) (key : List ℕ) (v : V) (m : HashMap V)
      → IsRoomy map
      → IsPower (length map.buckets * 2)
      → hashmap_put2 map key v ≡ some m
      → IsRoomy m
  unfolding hashmap_put2 put_nested
  put-IsRoomy map key v m x q e = elim (Bool-cases (is_full map)) [
    | inr f ↦ (put_nested-Stored 1 map key v m x f e).0
    | inl f ↦
        let (m1, e1, e2) = bind-some (make_room (put_nested 1) map) _ m e in
        let (y, b) =
          rehash-IsRoomy 0 map m1 x q (sym (make_room-full (put_nested 1) map x.3 f) ∙ e1) in
        (store-Stored m1 key v m y (below-not_full m1 y.3 b) e2).0
  ]

  put-nil :
      (map : HashMap V) (key : List ℕ) (v : V) (m : HashMap V)
      → map.buckets ≡ []
      → hashmap_put2 map key v ≡ some m
      → IsRoomy m
  unfolding hashmap_put2 put_nested make_room
  put-nil map key v m z e =
      (store-Stored (new_buckets init_size) key v m
        (IsValid-IsRoomy (new_buckets init_size)
          (new_buckets-IsValid V init_size (4, omega arith, refl) (omega arith)))
        refl (rw z at e)).0

  pub hashmap_get2-IsUsable :
      (map : HashMap V) (key : List ℕ)
      → IsUsable map
      → (o : Option V) × (hashmap_get2 map key ≡ some o)
  unfolding hashmap_get2 get_entry
  hashmap_get2-IsUsable map key (inl z) = (none, rw z refl)
  hashmap_get2-IsUsable map key (inr x) = get-Returns map key x

  pub hashmap_delete2-IsUsable :
      (map : HashMap V) (key : List ℕ)
      → IsUsable map
      → (m : HashMap V) × (hashmap_delete2 map key ≡ some m) × IsUsable m
  unfolding hashmap_delete2 get_entry
  hashmap_delete2-IsUsable map key (inl z) = (map, rw z refl, inl z)
  hashmap_delete2-IsUsable map key (inr x) =
      let (m, e, y) = delete-Returns map key x in (m, e, inr y)

  pub hashmap_put2-IsUsable :
      (map : HashMap V) (key : List ℕ) (v : V) (m : HashMap V) (other : List ℕ)
      → IsUsable map
      → (map.buckets ≡ []) ⊎ IsPower (length map.buckets * 2)
      → hashmap_put2 map key v ≡ some m
      → ((o : Option V) × (hashmap_get2 m other ≡ some o))
        × ((m' : HashMap V) × (hashmap_delete2 m other ≡ some m') × IsUsable m')
        × IsUsable m
  hashmap_put2-IsUsable map key v m other x q e =
      let y = after x q in
      let (m', d, z) = delete-Returns m other y in (get-Returns m other y, (m', d, inr z), inr y)
    where
      after : IsUsable map → (map.buckets ≡ []) ⊎ IsPower (length map.buckets * 2) → IsRoomy m
      after (inl z) p = put-nil map key v m z e
      after (inr r) (inl z) = put-nil map key v m z e
      after (inr r) (inr p) = put-IsRoomy map key v m r p e
