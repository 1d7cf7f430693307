-- ===== src/Tokenize/Keyword.antt =====
-- tokenize.c: `is_keyword`, a lookup in a hash map that is filled once.
mod Tests
use chibicc.Common.{
  ℕ, suc, zero, ◌+◌, ◌<◌, ◌≤◌, ◌≡◌, ◌≢◌, ◌∙◌, ◌⊎◌, refl, sym, ap, arith, inl, inr, Bool, true,
  false, ◌&&◌, ◌||◌, Option, none, some, List, [], ◌∷◌, ◌==◌, if◌then◌else◌, length, Bool-cases,
  all_below, all_below_sound, ==_iff, ltb, leb,
}
use chibicc.HashMap.{
  HashMap, Bucket, vacant, tombstone, entry, Probe, found, reused, fresh, missing, lost, ◌>>=◌,
  hashmap_put, hashmap_get2, hashmap_put2, same_key, bucket_at, get_loop,
}
use chibicc.HashMap.Slots.{IsPower}
use chibicc.HashMap.Search.{same_key_refl, same_key_sound}
use chibicc.HashMap.Table.{search, IsFound, IsIndexed, IsValid, occupied}
use chibicc.HashMap.Entries.{assoc, hashmap_get2-assoc}

abbrev pub keywords : List (List ℕ)
keywords =
    (b'r' ∷ b'e' ∷ b't' ∷ b'u' ∷ b'r' ∷ b'n' ∷ [])
    ∷ (b'i' ∷ b'f' ∷ [])
    ∷ (b'e' ∷ b'l' ∷ b's' ∷ b'e' ∷ [])
    ∷ (b'f' ∷ b'o' ∷ b'r' ∷ [])
    ∷ (b'w' ∷ b'h' ∷ b'i' ∷ b'l' ∷ b'e' ∷ [])
    ∷ (b'i' ∷ b'n' ∷ b't' ∷ [])
    ∷ (b's' ∷ b'i' ∷ b'z' ∷ b'e' ∷ b'o' ∷ b'f' ∷ [])
    ∷ (b'c' ∷ b'h' ∷ b'a' ∷ b'r' ∷ [])
    ∷ (b's' ∷ b't' ∷ b'r' ∷ b'u' ∷ b'c' ∷ b't' ∷ [])
    ∷ (b'u' ∷ b'n' ∷ b'i' ∷ b'o' ∷ b'n' ∷ [])
    ∷ (b's' ∷ b'h' ∷ b'o' ∷ b'r' ∷ b't' ∷ [])
    ∷ (b'l' ∷ b'o' ∷ b'n' ∷ b'g' ∷ [])
    ∷ (b'v' ∷ b'o' ∷ b'i' ∷ b'd' ∷ [])
    ∷ (b't' ∷ b'y' ∷ b'p' ∷ b'e' ∷ b'd' ∷ b'e' ∷ b'f' ∷ [])
    ∷ (b'_' ∷ b'B' ∷ b'o' ∷ b'o' ∷ b'l' ∷ [])
    ∷ (b'e' ∷ b'n' ∷ b'u' ∷ b'm' ∷ [])
    ∷ (b's' ∷ b't' ∷ b'a' ∷ b't' ∷ b'i' ∷ b'c' ∷ [])
    ∷ (b'g' ∷ b'o' ∷ b't' ∷ b'o' ∷ [])
    ∷ (b'b' ∷ b'r' ∷ b'e' ∷ b'a' ∷ b'k' ∷ [])
    ∷ (b'c' ∷ b'o' ∷ b'n' ∷ b't' ∷ b'i' ∷ b'n' ∷ b'u' ∷ b'e' ∷ [])
    ∷ (b's' ∷ b'w' ∷ b'i' ∷ b't' ∷ b'c' ∷ b'h' ∷ [])
    ∷ (b'c' ∷ b'a' ∷ b's' ∷ b'e' ∷ [])
    ∷ (b'd' ∷ b'e' ∷ b'f' ∷ b'a' ∷ b'u' ∷ b'l' ∷ b't' ∷ [])
    ∷ (b'e' ∷ b'x' ∷ b't' ∷ b'e' ∷ b'r' ∷ b'n' ∷ [])
    ∷ (b'_' ∷ b'A' ∷ b'l' ∷ b'i' ∷ b'g' ∷ b'n' ∷ b'o' ∷ b'f' ∷ [])
    ∷ (b'_' ∷ b'A' ∷ b'l' ∷ b'i' ∷ b'g' ∷ b'n' ∷ b'a' ∷ b's' ∷ [])
    ∷ (b'd' ∷ b'o' ∷ [])
    ∷ (b's' ∷ b'i' ∷ b'g' ∷ b'n' ∷ b'e' ∷ b'd' ∷ [])
    ∷ (b'u' ∷ b'n' ∷ b's' ∷ b'i' ∷ b'g' ∷ b'n' ∷ b'e' ∷ b'd' ∷ [])
    ∷ (b'c' ∷ b'o' ∷ b'n' ∷ b's' ∷ b't' ∷ [])
    ∷ (b'v' ∷ b'o' ∷ b'l' ∷ b'a' ∷ b't' ∷ b'i' ∷ b'l' ∷ b'e' ∷ [])
    ∷ (b'a' ∷ b'u' ∷ b't' ∷ b'o' ∷ [])
    ∷ (b'r' ∷ b'e' ∷ b'g' ∷ b'i' ∷ b's' ∷ b't' ∷ b'e' ∷ b'r' ∷ [])
    ∷ (b'r' ∷ b'e' ∷ b's' ∷ b't' ∷ b'r' ∷ b'i' ∷ b'c' ∷ b't' ∷ [])
    ∷ (b'_' ∷ b'_' ∷ b'r' ∷ b'e' ∷ b's' ∷ b't' ∷ b'r' ∷ b'i' ∷ b'c' ∷ b't' ∷ [])
    ∷ (b'_' ∷ b'_' ∷ b'r' ∷ b'e' ∷ b's' ∷ b't' ∷ b'r' ∷ b'i' ∷ b'c' ∷ b't' ∷ b'_' ∷ b'_' ∷ [])
    ∷ (b'_' ∷ b'N' ∷ b'o' ∷ b'r' ∷ b'e' ∷ b't' ∷ b'u' ∷ b'r' ∷ b'n' ∷ [])
    ∷ (b'f' ∷ b'l' ∷ b'o' ∷ b'a' ∷ b't' ∷ [])
    ∷ (b'd' ∷ b'o' ∷ b'u' ∷ b'b' ∷ b'l' ∷ b'e' ∷ [])
    ∷ (b't' ∷ b'y' ∷ b'p' ∷ b'e' ∷ b'o' ∷ b'f' ∷ [])
    ∷ (b'a' ∷ b's' ∷ b'm' ∷ [])
    ∷ (b'_' ∷ b'T' ∷ b'h' ∷ b'r' ∷ b'e' ∷ b'a' ∷ b'd' ∷ b'_' ∷ b'l' ∷ b'o' ∷ b'c' ∷ b'a' ∷ b'l'
        ∷ [])
    ∷ (b'_' ∷ b'_' ∷ b't' ∷ b'h' ∷ b'r' ∷ b'e' ∷ b'a' ∷ b'd' ∷ [])
    ∷ (b'_' ∷ b'A' ∷ b't' ∷ b'o' ∷ b'm' ∷ b'i' ∷ b'c' ∷ [])
    ∷ (b'_' ∷ b'_' ∷ b'a' ∷ b't' ∷ b't' ∷ b'r' ∷ b'i' ∷ b'b' ∷ b'u' ∷ b't' ∷ b'e' ∷ b'_' ∷ b'_'
        ∷ [])
    ∷ []

unfoldable pub put_keywords : List (List ℕ) → HashMap ℕ → Option (HashMap ℕ)
unfolding hashmap_put2
put_keywords [] map = some map
put_keywords (kw ∷ kws) map = hashmap_put map kw 1 >>= put_keywords kws

-- The text of the token is `word`; the result is the pointer 1 or NULL.
unfoldable pub is_keyword : List ℕ → Option (Option ℕ)
unfolding put_keywords hashmap_get2
is_keyword word =
    put_keywords keywords (record { buckets = []; used = 0 }) >>= (λ map. hashmap_get2 map word)

abbrev pub member : List (List ℕ) → List ℕ → Bool
member [] word = false
member (kw ∷ kws) word = same_key kw word || member kws word

-- The map that is looked at.
abbrev or_null : Option (HashMap ℕ) → HashMap ℕ
or_null none = record { buckets = []; used = 0 }
or_null (some map) = map

abbrev filled : HashMap ℕ
filled = or_null (put_keywords keywords (record { buckets = []; used = 0 }))

put_keywords-filled : put_keywords keywords (record { buckets = []; used = 0 }) ≡ some filled
unfolding put_keywords same_key
put_keywords-filled = refl

abbrev is_probe : ℕ → Probe → Bool
is_probe t (found s) = s == t
is_probe t _ = false

abbrev is_found : List (Bucket ℕ) → ℕ → Bucket ℕ → Bool
is_found bs t vacant = true
is_found bs t tombstone = true
is_found bs t (entry k v) = is_probe t (search bs k)

is_found_sound :
    (bs : List (Bucket ℕ)) (t : ℕ) (b : Bucket ℕ) → is_found bs t b ≡ true → IsFound bs t b
is_found_sound bs t vacant h = tt
is_found_sound bs t tombstone h = tt
is_found_sound bs t (entry k v) h = go (search bs k) h
  where
    go : (r : Probe) → is_probe t r ≡ true → r ≡ found t
    go (found s) e = ap found ((==_iff s t).0 e)
    go (reused s) e = absurd cc
    go (fresh s) e = absurd cc
    go missing e = absurd cc
    go lost e = absurd cc

bucket_at_out : (t : ℕ) (bs : List (Bucket ℕ)) → length bs ≤ t → bucket_at t bs ≡ vacant
bucket_at_out t [] h = refl
bucket_at_out zero (b ∷ bs) h = absurd (omega arith)
bucket_at_out (suc t) (b ∷ bs) h = bucket_at_out t bs (omega arith)

all_below-IsIndexed :
    (bs : List (Bucket ℕ))
    → all_below (length bs) (λ t. is_found bs t (bucket_at t bs)) ≡ true
    → IsIndexed bs
all_below-IsIndexed bs h t = elim (Bool-cases (ltb t (length bs))) [
  | inl e ↦
      is_found_sound bs t (bucket_at t bs)
        (all_below_sound (length bs) (λ u. is_found bs u (bucket_at u bs)) t h (ground arith))
  | inr e ↦ rw (bucket_at_out t bs (ground arith)) tt
]

filled-indexed :
    all_below (length filled.buckets) (λ t. is_found filled.buckets t (bucket_at t filled.buckets))
    ≡ true
unfolding put_keywords same_key all_below get_loop
filled-indexed = refl

filled-IsValid : IsValid filled
unfolding put_keywords same_key
filled-IsValid = (
  (6, omega arith, refl),
  all_below-IsIndexed filled.buckets filled-indexed,
  refl,
  omega arith,
  omega arith,
)

-- Every entry is one of the words.
abbrev are_members : List (List ℕ) → List (Bucket ℕ) → Bool
are_members kws [] = true
are_members kws (vacant ∷ bs) = are_members kws bs
are_members kws (tombstone ∷ bs) = are_members kws bs
are_members kws (entry k v ∷ bs) = member kws k && are_members kws bs

are_members_sound :
    (kws : List (List ℕ)) (bs : List (Bucket ℕ)) (word : List ℕ)
    → are_members kws bs ≡ true
    → member kws word ≡ false
    → assoc bs word ≡ none
are_members_sound kws [] word h n = refl
are_members_sound kws (vacant ∷ bs) word h n = are_members_sound kws bs word h n
are_members_sound kws (tombstone ∷ bs) word h n = are_members_sound kws bs word h n
are_members_sound kws (entry k v ∷ bs) word h n = elim (Bool-cases (same_key k word)) [
  | inl e ↦ let q = same_key_sound k word e in let m = rw (q, n) at h in absurd cc
  | inr e ↦ rw e (are_members_sound kws bs word (ground arith) n)
]

abbrev is_one : Option ℕ → Bool
is_one (some v) = v == 1
is_one none = false

is_one_sound : (o : Option ℕ) → is_one o ≡ true → o ≡ some 1
is_one_sound (some v) h = ap some ((==_iff v 1).0 h)
is_one_sound none h = absurd cc

-- Every one of the words has the value 1.
abbrev are_entered : List (List ℕ) → List (Bucket ℕ) → Bool
are_entered [] bs = true
are_entered (kw ∷ kws) bs = is_one (assoc bs kw) && are_entered kws bs

are_entered_sound :
    (kws : List (List ℕ)) (bs : List (Bucket ℕ)) (word : List ℕ)
    → are_entered kws bs ≡ true
    → member kws word ≡ true
    → assoc bs word ≡ some 1
are_entered_sound [] bs word h m = absurd cc
are_entered_sound (kw ∷ kws) bs word h m = elim (Bool-cases (same_key kw word)) [
  | inl e ↦
      let q = same_key_sound kw word e in rw (sym q) (is_one_sound (assoc bs kw) (ground arith))
  | inr e ↦ are_entered_sound kws bs word (ground arith) (ground arith)
]

filled-members : are_members keywords filled.buckets ≡ true
unfolding put_keywords same_key
filled-members = refl

filled-entered : are_entered keywords filled.buckets ≡ true
unfolding put_keywords same_key
filled-entered = refl

-- A word is looked up as a keyword exactly when it is one of the list, whatever its bytes: the map is
-- filled without a failure, and every search in it ends.
pub is_keyword-member :
    (word : List ℕ) → is_keyword word ≡ some (if member keywords word then some 1 else none)
unfolding is_keyword
is_keyword-member word = rw put_keywords-filled (
    hashmap_get2-assoc filled word filled-IsValid
    ∙ ap some (elim (Bool-cases (member keywords word)) [
      | inl e ↦ rw e (are_entered_sound keywords filled.buckets word filled-entered e)
      | inr e ↦ rw e (are_members_sound keywords filled.buckets word filled-members e)
    ]))
