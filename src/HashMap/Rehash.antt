-- ===== src/HashMap/Rehash.antt =====
-- hashmap.c: the copies that `rehash` makes of the entries of a valid map.
use chibicc.Common.{
  ℕ, suc, zero, ◌+◌, ◌*◌, ◌≤◌, ◌<◌, ◌≡◌, ◌≢◌, ◌∙◌, refl, sym, ap, arith, inl, inr, false, Option,
  none, some, List, [], ◌∷◌, length, replicate, length-replicate,
}
use native.Mathlib.Nat.{div-lt_iff_lt-mul}
use chibicc.HashMap.{
  HashMap, Bucket, vacant, tombstone, entry, bucket_at, hashmap_get2, new_buckets, init_size,
  count_keys, copy_entries, put_nested, is_full,
}
use chibicc.HashMap.Slots.{IsPower}
use chibicc.HashMap.Search.{same_key_refl, same_key_other}
use chibicc.HashMap.Table.{occupied, IsValid}
use chibicc.HashMap.Update.{key_cases}
use chibicc.HashMap.Store.{AreKept, put_nested-Stores, make_room-wide, some_same}
use chibicc.HashMap.Fresh.{store-fresh, some_map}
use chibicc.HashMap.Entries.{assoc, AreDistinct, hashmap_get2-assoc}

-- The quotient `n * 100 / m` is below the percentage.
abbrev pub IsBelow : ℕ → ℕ → ℕ → Type 0
IsBelow percent n m = n * 100 < percent * m

pub cons-ne : (c : ℕ) (k : List ℕ) → (c ∷ k) ≢ k
cons-ne c k e = let l = ap length e in omega arith

module _ {ℓ} (V : Type ℓ) where
  vacant_at : (t n : ℕ) → bucket_at {V = V} t (replicate n vacant) ≡ vacant
  vacant_at t zero = refl
  vacant_at zero (suc n) = refl
  vacant_at (suc t) (suc n) = vacant_at t n

  occupied-vacant : (n : ℕ) → occupied {V = V} (replicate n vacant) ≡ 0
  occupied-vacant zero = refl
  occupied-vacant (suc n) = omega (arith, occupied-vacant n)

  pub AreKept-vacant : (n : ℕ) → AreKept {V = V} (replicate n vacant)
  AreKept-vacant zero = tt
  AreKept-vacant (suc n) = AreKept-vacant n

  pub assoc-vacant : (n : ℕ) (key : List ℕ) → assoc {V = V} (replicate n vacant) key ≡ none
  assoc-vacant zero key = refl
  assoc-vacant (suc n) key = assoc-vacant n key

  pub new_buckets-IsValid : (n : ℕ) → IsPower n → init_size ≤ n → IsValid {V = V} (new_buckets n)
  new_buckets-IsValid n p w =
      let l = length-replicate {A = Bucket V} n vacant in
      (rw l p, (λ t. rw (vacant_at t n) tt), sym (occupied-vacant n), rw l (omega arith), rw l w)

module _ {ℓ} {V : Type ℓ} where
  pub below-not_full :
      (map : HashMap V)
      → init_size ≤ length map.buckets
      → IsBelow 50 map.used (length map.buckets)
      → is_full map ≡ false
  below-not_full map w h =
      let d =
        (div-lt_iff_lt-mul {k = length map.buckets} {x = map.used * 100} {y = 70} (omega arith)).1
          (omega arith) in
      ground arith

  -- What the keys are mapped to when the entries come first.
  abbrev pub or_else : Option V → Option V → Option V
  or_else (some v) b = some v
  or_else none b = b

  -- None of the keys of the entries is in the map.
  abbrev pub AreAbsent : List (Bucket V) → HashMap V → Type ℓ
  AreAbsent [] map = Unit
  AreAbsent (vacant ∷ bs) map = AreAbsent bs map
  AreAbsent (tombstone ∷ bs) map = AreAbsent bs map
  AreAbsent (entry k v ∷ bs) map = (hashmap_get2 map k ≡ some none) × AreAbsent bs map

  -- A map that entries can be copied to.
  abbrev pub IsTarget : List (Bucket V) → HashMap V → Type ℓ
  IsTarget bs map =
      IsValid map
      × AreKept map.buckets
      × AreAbsent bs map
      × IsBelow 50 (map.used + count_keys bs) (length map.buckets)

  module _ (depth : ℕ) (map : HashMap V) (k : List ℕ) (v : V) (valid : IsValid map)
      (f : is_full map ≡ false) (kept : AreKept map.buckets) (m : HashMap V)
      (e : put_nested (suc depth) map k v ≡ some m) where
    put_other :
        (other : List ℕ)
        → other ≢ k
        → IsValid m
          × (hashmap_get2 m k ≡ some (some v))
          × (hashmap_get2 m other ≡ hashmap_get2 map other)
    put_other other n =
        let (m', q, a, b, c) = put_nested-Stores depth map k v other valid f (inr kept) n in
        let d : m' ≡ m = some_map (sym q ∙ e) in rw (sym d) (a, b, c)

    put_fresh :
        hashmap_get2 map k ≡ some none
        → (m.used ≡ map.used + 1) × AreKept m.buckets × (length m.buckets ≡ length map.buckets)
    unfolding put_nested
    put_fresh a =
        store-fresh map k v m valid.0 a kept
          (rw (make_room-wide (put_nested depth) map valid.4 f) at e)

    put_absent : (bs : List (Bucket V)) → assoc bs k ≡ none → AreAbsent bs map → AreAbsent bs m
    put_absent [] n h = tt
    put_absent (vacant ∷ bs) n h = put_absent bs n h
    put_absent (tombstone ∷ bs) n h = put_absent bs n h
    put_absent (entry q w ∷ bs) n h = elim (key_cases q k) [
      | inl z ↦ let r = same_key_refl k in let y = rw (z, r) at n in absurd cc
      | inr z ↦ ((put_other q z).2 ∙ h.0, put_absent bs (rw (same_key_other q k z) at n) h.1)
    ]

    put_assoc :
        (bs : List (Bucket V)) (key : List ℕ)
        → assoc bs k ≡ none
        → or_else (assoc bs key) (assoc m.buckets key)
          ≡ or_else (assoc (entry k v ∷ bs) key) (assoc map.buckets key)
    put_assoc bs key n = elim (key_cases key k) [
      | inl z ↦
          let (valid', here, there) = put_other (0 ∷ k) (cons-ne 0 k) in
          let r = same_key_refl k in
          let a = some_same (sym (hashmap_get2-assoc m k valid') ∙ here) in rw (z, n, r) a
      | inr z ↦
          let (valid', here, there) = put_other key z in
          let r = same_key_other k key (λ d. z (sym d)) in
          let a =
            some_same
              (sym (hashmap_get2-assoc m key valid') ∙ there ∙ hashmap_get2-assoc map key valid) in
          rw (r, a) refl
    ]

  -- What the copies leave.
  abbrev pub Copies : List (Bucket V) → HashMap V → List ℕ → Option (HashMap V) → Type ℓ
  Copies bs map key r =
      (m : HashMap V) × (r ≡ some m)
      × IsValid m
      × AreKept m.buckets
      × (m.used ≡ map.used + count_keys bs)
      × (length m.buckets ≡ length map.buckets)
      × (hashmap_get2 m key ≡ some (or_else (assoc bs key) (assoc map.buckets key)))

  pub copy_entries-Copies :
      (depth : ℕ) (bs : List (Bucket V)) (map : HashMap V) (key : List ℕ)
      → AreDistinct bs
      → IsTarget bs map
      → Copies bs map key (copy_entries (put_nested (suc depth)) bs map)
  unfolding copy_entries count_keys
  copy_entries-Copies depth [] map key d (valid, kept, a, b) =
      (map, refl, valid, kept, omega arith, refl, hashmap_get2-assoc map key valid)
  copy_entries-Copies depth (vacant ∷ bs) map key d t = copy_entries-Copies depth bs map key d t
  copy_entries-Copies depth (tombstone ∷ bs) map key d t = copy_entries-Copies depth bs map key d t
  copy_entries-Copies depth (entry k v ∷ bs) map key d (valid, kept, a, b) =
      let f = below-not_full map valid.4 (omega (arith, b)) in
      let (m, e, _, _, _) =
        put_nested-Stores depth map k v (0 ∷ k) valid f (inr kept) (cons-ne 0 k) in
      let (u, kept', l) = put_fresh depth map k v valid f kept m e a.0 in
      let (valid', _, _) = put_other depth map k v valid f kept m e (0 ∷ k) (cons-ne 0 k) in
      let (m', e', x, y, z, w, g) = copy_entries-Copies depth bs m key d.1 (
        valid',
        kept',
        put_absent depth map k v valid f kept m e bs d.0 a.1,
        omega (arith, u, l, b),
      ) in
      rw e (
        m',
        e',
        x,
        y,
        omega (arith, z, u),
        w ∙ l,
        g ∙ ap some (put_assoc depth map k v valid f kept m e bs key d.0),
      )
