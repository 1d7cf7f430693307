-- ===== src/HashMap/Delete.antt =====
-- hashmap.c: `hashmap_delete2` removes a key.
use chibicc.Common.{
  ℕ, suc, zero, ◌<◌, ◌≡◌, ◌≢◌, ◌∙◌, refl, sym, arith, inl, inr, none, some, List, [], ◌∷◌, length,
  set, length-set,
}
use chibicc.HashMap.{
  HashMap, Bucket, vacant, tombstone, entry, found, missing, bucket_at, fnv_hash, hashmap_get2,
  hashmap_delete2,
}
use chibicc.HashMap.Slots.{IsPower}
use chibicc.HashMap.Search.{
  Lacks, Holds, bucket_at-set, bucket_at-set_other, eq_cases, found_inj, get_loop-cases,
}
use chibicc.HashMap.Table.{
  search, search-ends, answer, IsIndexed, occupied, occupied-set, weight, IsValid, get_entry-search,
  hashmap_get2-answer,
}
use chibicc.HashMap.Update.{answer-set, IsIndexed-set, IsIndexed-Holds, search-Holds, set-IsPower}

module _ {ℓ} {V : Type ℓ} where
  pub Holds-Lacks_other : (key k : List ℕ) (b : Bucket V) → Holds key b → k ≢ key → Lacks k b
  Holds-Lacks_other key k vacant h n = tt
  Holds-Lacks_other key k tombstone h n = tt
  Holds-Lacks_other key k (entry q v) h n = λ e. n (sym e ∙ h)

  pub Holds-weight : (key : List ℕ) (b : Bucket V) → Holds key b → weight b ≡ 1
  Holds-weight key vacant h = absurd h
  Holds-weight key tombstone h = absurd h
  Holds-weight key (entry k v) h = refl

  pub Holds-lt :
      (key : List ℕ) (t : ℕ) (bs : List (Bucket V)) → Holds key (bucket_at t bs) → t < length bs
  Holds-lt key t [] h = absurd h
  Holds-lt key zero (b ∷ bs) h = omega arith
  Holds-lt key (suc t) (b ∷ bs) h = omega (arith, Holds-lt key t bs h)

  module _ (bs : List (Bucket V)) (key : List ℕ) (t : ℕ) (power : IsPower (length bs))
      (indexed : IsIndexed bs) (room : occupied bs < length bs) (e : search bs key ≡ found t) where
    in_table : t < length bs
    in_table = Holds-lt key t bs (search-Holds bs key t e)

    pub IsIndexed-delete : IsIndexed (set bs t tombstone)
    IsIndexed-delete =
        IsIndexed-set bs t tombstone key in_table indexed
          (λ k n. Holds-Lacks_other key k (bucket_at t bs) (search-Holds bs key t e) n) (λ k n. tt)
          (λ u f. found_inj (sym f ∙ e)) tt

    pub occupied-delete : occupied (set bs t tombstone) ≡ occupied bs
    occupied-delete = omega (
      arith,
      occupied-set t tombstone bs in_table,
      Holds-weight key (bucket_at t bs) (search-Holds bs key t e),
    )

    pub search-delete : search (set bs t tombstone) key ≡ missing
    search-delete =
        elim (get_loop-cases key (set bs t tombstone) (fnv_hash key) (length (set bs t tombstone))
          0) [
            | inl (u, f) ↦
                let w = search-Holds (set bs t tombstone) key u f in
                elim (eq_cases u t) [
                  | inl d ↦ absurd (rw (d, bucket_at-set t tombstone bs in_table) at w)
                  | inr d ↦
                      let g =
                        IsIndexed-Holds bs key u indexed
                          (rw (bucket_at-set_other t u tombstone bs d) at w) in
                      absurd (d (found_inj (sym g ∙ e)))
                ]
            | inr (inl f) ↦ f
            | inr (inr f) ↦ absurd (
                search-ends (set bs t tombstone) key (set-IsPower bs t tombstone power)
                  (rw (length-set bs t tombstone, occupied-delete) room) f)
          ]

    pub answer-delete :
        (other : List ℕ)
        → other ≢ key
        → answer (set bs t tombstone) (search (set bs t tombstone) other)
          ≡ answer bs (search bs other)
    answer-delete other n =
        answer-set bs t tombstone other power room (rw occupied-delete room) in_table indexed
          (Holds-Lacks_other key other (bucket_at t bs) (search-Holds bs key t e) n) tt

  -- Deletion from a valid map does not fail and leaves a valid map, in which the key is mapped to nothing
  -- and another key to what it was.
  pub hashmap_delete2-IsValid :
      (map : HashMap V) (key other : List ℕ)
      → IsValid map
      → other ≢ key
      → (m : HashMap V) × (hashmap_delete2 map key ≡ some m)
        × IsValid m
        × (hashmap_get2 m key ≡ some none)
        × (hashmap_get2 m other ≡ hashmap_get2 map other)
  unfolding hashmap_delete2
  hashmap_delete2-IsValid map key other (p, x, u, l, w) n =
      let room : occupied map.buckets < length map.buckets = omega (arith, u, l) in
      elim (get_loop-cases key map.buckets (fnv_hash key) (length map.buckets) 0) [
        | inl (t, e) ↦
            let m : HashMap V = record map { buckets = set map.buckets t tombstone } in
            let q = set-IsPower map.buckets t tombstone p in
            (
              m,
              rw (get_entry-search map key p, e) refl,
              (
                q,
                IsIndexed-delete map.buckets key t p x room e,
                u ∙ sym (occupied-delete map.buckets key t p x room e),
                rw (length-set map.buckets t tombstone) l,
                rw (length-set map.buckets t tombstone) w,
              ),
              hashmap_get2-answer m key q ∙ rw (search-delete map.buckets key t p x room e) refl,
              hashmap_get2-answer m other q
                  ∙ answer-delete map.buckets key t p x room e other n
                  ∙ sym (hashmap_get2-answer map other p),
            )
        | inr (inl e) ↦ (
          map,
          rw (get_entry-search map key p, e) refl,
          (p, x, u, l, w),
          hashmap_get2-answer map key p ∙ rw e refl,
          refl,
        )
        | inr (inr e) ↦ absurd (search-ends map.buckets key p room e)
      ]
