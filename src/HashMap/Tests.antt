-- ===== src/HashMap/Tests.antt =====
-- hashmap.c at concrete keys.
use chibicc.Common.{
  ℕ, suc, zero, ◌+◌, ◌*◌, ◌≡◌, ◌≢◌, refl, arith, inr, Option, none, some, List, [], ◌∷◌, length, ap,
  get_or, replicate, set,
}
use chibicc.HashMap.{
  HashMap, vacant, entry, new_buckets, hashmap_get2, hashmap_put2, hashmap_delete2, rehash,
  put_nested, same_key, ◌>>=◌,
}
use chibicc.HashMap.Slots.{IsPower}
use chibicc.HashMap.Table.{IsValid}
use chibicc.HashMap.Store.{Stores}
use chibicc.HashMap.Entries.{assoc, hashmap_get2-assoc}
use chibicc.HashMap.Rehash.{new_buckets-IsValid}
use chibicc.HashMap.Put.{hashmap_put2-Stores, rehash-Rehashes, Rehashes}
use chibicc.HashMap.Delete.{hashmap_delete2-IsValid}

abbrev empty : HashMap ℕ
empty = record { buckets = []; used = 0 }

-- Keys with the same first bucket in a table of 16.
abbrev a : List ℕ
a = b'a' ∷ []

abbrev q : List ℕ
q = b'q' ∷ []

q-ne-a : q ≢ a
q-ne-a e = let h = ap (λ k. get_or k 0 0) e in omega arith

-- Both are stored, the first is deleted, and the second stored again in its bucket: when this one is
-- deleted, the old value is back.
stale :
    hashmap_put2 empty a 1
      >>= (λ m. hashmap_put2 m q 2)
      >>= (λ m. hashmap_delete2 m a)
      >>= (λ m. hashmap_put2 m q 3)
      >>= (λ m. hashmap_delete2 m q)
      >>= (λ m. hashmap_get2 m q)
    ≡ some (some 2)
unfolding hashmap_put2 hashmap_get2 hashmap_delete2 same_key
stale = refl

-- Thirteen keys of one byte: the table is rebuilt for the last.
abbrev put_from : ℕ → ℕ → HashMap ℕ → Option (HashMap ℕ)
put_from zero n m = some m
put_from (suc k) n m = hashmap_put2 m (n ∷ []) (n * 2) >>= put_from k (n + 1)

abbrev capacity_and_value : HashMap ℕ → Option (ℕ × Option ℕ)
capacity_and_value m = hashmap_get2 m (6 ∷ []) >>= (λ v. some (length m.buckets, v))

thirteen : put_from 13 1 empty >>= capacity_and_value ≡ some (32, some 12)
unfolding hashmap_put2 hashmap_get2 same_key
thirteen = refl

-- The table in which the second key stands twice.
abbrev twice : HashMap ℕ
twice = record { buckets = set (set (replicate 16 vacant) 14 (entry q 3)) 15 (entry q 2); used = 2 }

twice-put :
    hashmap_put2 empty a 1
      >>= (λ m. hashmap_put2 m q 2)
      >>= (λ m. hashmap_delete2 m a)
      >>= (λ m. hashmap_put2 m q 3)
    ≡ some twice
unfolding hashmap_put2 hashmap_delete2 same_key
twice-put = refl

-- The other key is put into the next vacant bucket.
abbrev with_both : HashMap ℕ
with_both = record { buckets = set twice.buckets 0 (entry a 4); used = 3 }

-- After ten more keys the table is rebuilt, the key that stands in it twice is copied into one bucket,
-- and the assertion on the number of keys fails.
stale_rehash :
    hashmap_put2 empty a 1
      >>= (λ m. hashmap_put2 m q 2)
      >>= (λ m. hashmap_delete2 m a)
      >>= (λ m. hashmap_put2 m q 3)
      >>= put_from 11 1
    ≡ none
unfolding hashmap_put2 hashmap_get2 hashmap_delete2 same_key
stale_rehash = refl

-- A table with one key.
abbrev sixteen : HashMap ℕ
sixteen = new_buckets 16

sixteen-IsValid : IsValid sixteen
sixteen-IsValid = new_buckets-IsValid ℕ 16 (4, omega arith, refl) (omega arith)

sixteen-IsPower : IsPower (length sixteen.buckets * 2)
sixteen-IsPower = (5, omega arith, refl)

hashmap_put2-Stores_example : Stores sixteen a 1 q (hashmap_put2 sixteen a 1)
hashmap_put2-Stores_example =
    hashmap_put2-Stores sixteen a 1 q sixteen-IsValid sixteen-IsPower (inr tt) q-ne-a

-- That table with the key `a`.
abbrev stored : Stores sixteen a 1 q (hashmap_put2 sixteen a 1)
stored = hashmap_put2-Stores sixteen a 1 q sixteen-IsValid sixteen-IsPower (inr tt) q-ne-a

abbrev one_key : HashMap ℕ
one_key = stored.0

one_key-IsValid : IsValid one_key
one_key-IsValid = stored.2

hashmap_delete2-IsValid_example :
    (m : HashMap ℕ) × (hashmap_delete2 one_key a ≡ some m)
    × IsValid m
    × (hashmap_get2 m a ≡ some none)
    × (hashmap_get2 m q ≡ hashmap_get2 one_key q)
hashmap_delete2-IsValid_example = hashmap_delete2-IsValid one_key a q one_key-IsValid q-ne-a

hashmap_get2-assoc_example : hashmap_get2 one_key a ≡ some (assoc one_key.buckets a)
hashmap_get2-assoc_example = hashmap_get2-assoc one_key a one_key-IsValid

rehash-Rehashes_example : Rehashes sixteen a (rehash (put_nested 1) sixteen)
rehash-Rehashes_example = rehash-Rehashes 0 sixteen a sixteen-IsValid sixteen-IsPower
