-- ===== src/HashMap.antt =====
-- hashmap.c: the hash table with open addressing.
-- A key is the list of its `keylen` bytes; `buckets` is the empty list where the source has NULL, and
-- `capacity` its length. The numbers `capacity` and `used` are taken not to overflow an int, and
-- allocation to succeed.
pub mod Slots
pub mod Search
pub mod Insert
pub mod Table
pub mod Update
pub mod Delete
pub mod Store
pub mod Fresh
pub mod Entries
pub mod Rehash
pub mod Put
pub mod Usable
mod Tests
use chibicc.Common.{
  ℕ, suc, zero, ◌+◌, ◌-◌, ◌*◌, ◌/◌, ◌%◌, ◌^◌, Bool, true, false, ◌&&◌, Option, none, some, List, [],
  ◌∷◌, ◌==◌, leb, if◌then◌else◌, length, replicate, set, get_or, bit_and, bit_xor,
}

-- A call that does not return, by `unreachable()` or a failed assertion, has no result.
infixl 5 ◌>>=◌
abbrev pub ◌>>=◌ {ℓ κ} : {A : Type ℓ} {B : Type κ} → Option A → (A → Option B) → Option B
none >>= next = none
some a >>= next = next a

pub data Bucket {ℓ} (V : Type ℓ) : Type ℓ where
  vacant tombstone : Bucket V
  entry : List ℕ → V → Bucket V

pub record HashMap {ℓ} (V : Type ℓ) : Type ℓ where
  pub buckets : List (Bucket V)
  pub used : ℕ

abbrev pub init_size : ℕ
init_size = 16

abbrev pub high_watermark : ℕ
high_watermark = 70

abbrev pub low_watermark : ℕ
low_watermark = 50

unfoldable pub fnv_loop : ℕ → List ℕ → ℕ
fnv_loop hash [] = hash
fnv_loop hash (c ∷ s) = fnv_loop (bit_xor (hash * 0x100000001b3 % 2 ^ 64) c) s

unfoldable pub fnv_hash : List ℕ → ℕ
unfolding fnv_loop
fnv_hash s = fnv_loop 0xcbf29ce484222325 s

-- `keylen` and `memcmp`.
unfoldable pub same_key : List ℕ → List ℕ → Bool
same_key [] [] = true
same_key (c ∷ s) (d ∷ t) = c == d && same_key s t
same_key _ _ = false

-- The index of the bucket that is looked at in round `i`.
abbrev pub slot : ℕ → ℕ → ℕ → ℕ
slot hash i capacity = bit_and ((hash + i) % 2 ^ 64) (capacity - 1)

-- Where a search ends: at the bucket of the key, at one that the key may take, with or without a
-- tombstone in it, or in `unreachable()`.
pub data Probe : Type 0 where
  found reused fresh : ℕ → Probe
  missing lost : Probe

-- The loop that doubles the capacity. Once for each key is enough.
unfoldable pub grow_capacity : ℕ → ℕ → ℕ → ℕ
grow_capacity zero nkeys capacity = capacity
grow_capacity (suc fuel) nkeys capacity =
    let more = grow_capacity fuel nkeys (capacity * 2) in
    if leb low_watermark (nkeys * 100 / capacity) then more else capacity

module _ {ℓ} {V : Type ℓ} where
  abbrev pub bucket_at : ℕ → List (Bucket V) → Bucket V
  bucket_at n bs = get_or bs n vacant

  -- A round of `get_entry` at the bucket with the index `s`, when the next rounds lead to `rest`.
  abbrev pub get_step : List ℕ → Bucket V → ℕ → Probe → Probe
  get_step key vacant s rest = missing
  get_step key tombstone s rest = rest
  get_step key (entry k v) s rest = if same_key k key then found s else rest

  -- A round of `get_or_insert_entry`.
  abbrev pub put_step : List ℕ → Bucket V → ℕ → Probe → Probe
  put_step key vacant s rest = fresh s
  put_step key tombstone s rest = reused s
  put_step key (entry k v) s rest = if same_key k key then found s else rest

  -- The loops, with `left` rounds to go.
  unfoldable pub get_loop : List ℕ → List (Bucket V) → ℕ → ℕ → ℕ → Probe
  get_loop key bs hash zero i = lost
  get_loop key bs hash (suc left) i =
      let s = slot hash i (length bs) in
      get_step key (bucket_at s bs) s (get_loop key bs hash left (i + 1))

  unfoldable pub put_loop : List ℕ → List (Bucket V) → ℕ → ℕ → ℕ → Probe
  put_loop key bs hash zero i = lost
  put_loop key bs hash (suc left) i =
      let s = slot hash i (length bs) in
      put_step key (bucket_at s bs) s (put_loop key bs hash left (i + 1))

  abbrev pub is_null : List (Bucket V) → Bool
  is_null [] = true
  is_null (b ∷ bs) = false

  unfoldable pub get_entry : HashMap V → List ℕ → Probe
  unfolding get_loop fnv_hash
  get_entry map key =
      if is_null map.buckets
      then missing
      else get_loop key map.buckets (fnv_hash key) (length map.buckets) 0

  abbrev pub value : Bucket V → Option V
  value (entry k v) = some v
  value vacant = none
  value tombstone = none

  abbrev pub get_at : HashMap V → Probe → Option (Option V)
  get_at map (found s) = some (value (bucket_at s map.buckets))
  get_at map missing = some none
  get_at map _ = none

  -- The value, or none where the source returns NULL; nothing where it ends in `unreachable()`.
  unfoldable pub hashmap_get2 : HashMap V → List ℕ → Option (Option V)
  unfolding get_entry
  hashmap_get2 map key = get_at map (get_entry map key)

  abbrev delete_at : HashMap V → Probe → Option (HashMap V)
  delete_at map (found s) = some (record map { buckets = set map.buckets s tombstone })
  delete_at map missing = some map
  delete_at map _ = none

  unfoldable pub hashmap_delete2 : HashMap V → List ℕ → Option (HashMap V)
  unfolding get_entry
  hashmap_delete2 map key = delete_at map (get_entry map key)

  -- The key and the value are written, and a bucket that was vacant is counted.
  abbrev pub store_at : HashMap V → List ℕ → V → Probe → Option (HashMap V)
  store_at map key v (found s) = some (record map { buckets = set map.buckets s (entry key v) })
  store_at map key v (reused s) = some (record map { buckets = set map.buckets s (entry key v) })
  store_at map key v (fresh s) =
      some (record { buckets = set map.buckets s (entry key v); used = map.used + 1 })
  store_at map key v _ = none

  unfoldable pub store : HashMap V → List ℕ → V → Option (HashMap V)
  unfolding put_loop fnv_hash
  store map key v =
      store_at map key v (put_loop key map.buckets (fnv_hash key) (length map.buckets) 0)

  -- `used` has reached 70% of the capacity.
  abbrev pub is_full : HashMap V → Bool
  is_full map = leb high_watermark (map.used * 100 / length map.buckets)

  abbrev pub new_buckets : ℕ → HashMap V
  new_buckets capacity = record { buckets = replicate capacity vacant; used = 0 }

  unfoldable pub count_keys : List (Bucket V) → ℕ
  count_keys [] = 0
  count_keys (entry k v ∷ bs) = suc (count_keys bs)
  count_keys (vacant ∷ bs) = count_keys bs
  count_keys (tombstone ∷ bs) = count_keys bs

  -- The loop of `rehash` over the old buckets, by way of `put`.
  unfoldable pub copy_entries :
      (HashMap V → List ℕ → V → Option (HashMap V))
      → List (Bucket V)
      → HashMap V
      → Option (HashMap V)
  copy_entries put [] map = some map
  copy_entries put (vacant ∷ bs) map = copy_entries put bs map
  copy_entries put (tombstone ∷ bs) map = copy_entries put bs map
  copy_entries put (entry k v ∷ bs) map = put map k v >>= copy_entries put bs

  abbrev pub if_counted : ℕ → HashMap V → Option (HashMap V)
  if_counted nkeys map = if map.used == nkeys then some map else none

  -- Nothing comes of it where the assertion fails.
  unfoldable pub rehash :
      (HashMap V → List ℕ → V → Option (HashMap V)) → HashMap V → Option (HashMap V)
  unfolding count_keys grow_capacity copy_entries
  rehash put map =
      let nkeys = count_keys map.buckets in
      let cap = grow_capacity nkeys nkeys (length map.buckets) in
      copy_entries put map.buckets (new_buckets cap) >>= if_counted nkeys

  -- The start of `get_or_insert_entry`.
  unfoldable pub make_room :
      (HashMap V → List ℕ → V → Option (HashMap V)) → HashMap V → Option (HashMap V)
  unfolding rehash
  make_room put map =
      if is_null map.buckets
      then some (new_buckets init_size)
      else if is_full map
      then rehash put map
      else some map

  -- `rehash` inserts into a new map, which it makes large enough: calls nest twice.
  unfoldable pub put_nested : ℕ → HashMap V → List ℕ → V → Option (HashMap V)
  unfolding make_room store
  put_nested zero map key v = none
  put_nested (suc depth) map key v = make_room (put_nested depth) map >>= (λ m. store m key v)

  unfoldable pub hashmap_put2 : HashMap V → List ℕ → V → Option (HashMap V)
  unfolding put_nested
  hashmap_put2 map key v = put_nested 2 map key v

  -- With `strlen` for the length: the key is a string without its NUL.
  abbrev pub hashmap_get : HashMap V → List ℕ → Option (Option V)
  hashmap_get map key = hashmap_get2 map key

  abbrev pub hashmap_put : HashMap V → List ℕ → V → Option (HashMap V)
  hashmap_put map key v = hashmap_put2 map key v

  abbrev pub hashmap_delete : HashMap V → List ℕ → Option (HashMap V)
  hashmap_delete map key = hashmap_delete2 map key
