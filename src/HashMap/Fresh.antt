-- ===== src/HashMap/Fresh.antt =====
-- hashmap.c: an absent key takes a vacant bucket where no bucket holds a tombstone.
use chibicc.Common.{
  ℕ, suc, zero, ◌+◌, ◌≡◌, refl, sym, none, some, List, [], ◌∷◌, length, set, length-set,
}
use chibicc.HashMap.{
  HashMap, Bucket, vacant, tombstone, entry, Probe, found, reused, fresh, missing, lost, fnv_hash,
  hashmap_get2, store, store_at, put_loop,
}
use chibicc.HashMap.Slots.{IsPower}
use chibicc.HashMap.Table.{search}
use chibicc.HashMap.Insert.{put_loop-Matches, Matches}
use chibicc.HashMap.Store.{AreKept, AreKept-at, absent-missing}

module _ {ℓ} {V : Type ℓ} where
  pub some_map : {x y : HashMap V} → some x ≡ some y → x ≡ y
  some_map e = cc

  AreKept-set :
      (s : ℕ) (key : List ℕ) (v : V) (bs : List (Bucket V))
      → AreKept bs
      → AreKept (set bs s (entry key v))
  AreKept-set s key v [] h = h
  AreKept-set zero key v (vacant ∷ bs) h = h
  AreKept-set zero key v (tombstone ∷ bs) h = absurd h
  AreKept-set zero key v (entry k w ∷ bs) h = h
  AreKept-set (suc s) key v (vacant ∷ bs) h = AreKept-set s key v bs h
  AreKept-set (suc s) key v (tombstone ∷ bs) h = h
  AreKept-set (suc s) key v (entry k w ∷ bs) h = AreKept-set s key v bs h

  -- A key that is absent takes a vacant bucket of a table without tombstones.
  fresh_at :
      (map : HashMap V) (key : List ℕ) (v : V) (r : Probe) (m : HashMap V)
      → search map.buckets key ≡ missing
      → AreKept map.buckets
      → Matches map.buckets r (search map.buckets key)
      → store_at map key v r ≡ some m
      → (m.used ≡ map.used + 1) × AreKept m.buckets × (length m.buckets ≡ length map.buckets)
  fresh_at map key v (found s) m a k h e = absurd cc
  fresh_at map key v (reused s) m a k h e = absurd (AreKept-at s map.buckets k h)
  fresh_at map key v (fresh s) m a k h e =
      let q = some_map e in
      rw (sym q) (refl, AreKept-set s key v map.buckets k, length-set map.buckets s (entry key v))
  fresh_at map key v missing m a k h e = absurd h
  fresh_at map key v lost m a k h e = absurd cc

  pub store-fresh :
      (map : HashMap V) (key : List ℕ) (v : V) (m : HashMap V)
      → IsPower (length map.buckets)
      → hashmap_get2 map key ≡ some none
      → AreKept map.buckets
      → store map key v ≡ some m
      → (m.used ≡ map.used + 1) × AreKept m.buckets × (length m.buckets ≡ length map.buckets)
  unfolding store
  store-fresh map key v m p a k e =
      fresh_at map key v (put_loop key map.buckets (fnv_hash key) (length map.buckets) 0) m
        (absent-missing map key p a) k
        (put_loop-Matches key map.buckets (fnv_hash key) (length map.buckets) 0) e
