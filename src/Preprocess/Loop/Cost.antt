-- ===== src/Preprocess/Loop/Cost.antt =====
-- preprocess.c: how many rounds of preprocess2 a token can lead to, with object-like macros.
-- The tokens of a macro's body have the macro in their hidesets, so that a token whose hideset
-- lacks `k` of the macros leads to at most `b ^ k` rounds, where `b` is more than the length of any
-- body.
use chibicc.Common.{
  ◌≡◌, refl, sym, arith, ℕ, zero, suc, length, inl, inr, ◌+◌, ◌*◌, ◌^◌, ◌≤◌, ◌<◌, true, false, some,
  List, [], ◌∷◌, if◌then◌else◌, Bool-cases, max,
}
use native.Mathlib.Nat.{pow-succ', one-le-pow, pow-le-pow_right, mul-le-mul_right}
use chibicc.HashMap.{
  Bucket, vacant, tombstone, entry, bucket_at, is_null, fnv_hash, get_entry, hashmap_get2,
}
use chibicc.HashMap.Search.{same_key_refl, get_loop-cases, get_loop-Holds, Holds}
use chibicc.Preprocess.Hideset.{
  Hideset, new_hideset, hideset_contains, hideset_union, hideset_contains-algebra,
}
use chibicc.Preprocess.Stream.{Tok, Stream, end, ◌◂◌, size, append, add_hideset}
use chibicc.Preprocess.Macro.{Macros, Macro, macro_named}
use chibicc.Preprocess.Subst.{set_first}
use chibicc.Preprocess.Expand.{put_body}

-- The entries whose keys the hideset lacks.
unfoldable pub open_entries : List (Bucket Macro) → Hideset → ℕ
open_entries [] hs = 0
open_entries (entry k m ∷ bs) hs = (if hideset_contains hs k then 0 else 1) + open_entries bs hs
open_entries (vacant ∷ bs) hs = open_entries bs hs
open_entries (tombstone ∷ bs) hs = open_entries bs hs

unfoldable pub longest_entry : List (Bucket Macro) → ℕ
longest_entry [] = 0
longest_entry (entry k m ∷ bs) = max (size m.body) (longest_entry bs)
longest_entry (vacant ∷ bs) = longest_entry bs
longest_entry (tombstone ∷ bs) = longest_entry bs

-- The macros that the hideset lacks.
unfoldable pub open_macros : Macros → Hideset → ℕ
unfolding open_entries
open_macros macros hs = open_entries macros.buckets hs

unfoldable pub longest_body : Macros → ℕ
unfolding longest_entry
longest_body macros = longest_entry macros.buckets

unfoldable pub weight : Macros → Tok → ℕ
unfolding open_macros longest_body
weight macros t = suc (longest_body macros) ^ open_macros macros t.hideset

unfoldable pub cost : Macros → Stream → ℕ
unfolding weight
cost macros (end t) = 0
cost macros (t ◂ s) = weight macros t + cost macros s

abbrev Within : Hideset → Hideset → Type 0
Within hs hs' = (s : List ℕ) → hideset_contains hs s ≡ true → hideset_contains hs' s ≡ true

open_entries-le :
    (bs : List (Bucket Macro)) (hs hs' : Hideset)
    → Within hs hs'
    → open_entries bs hs' ≤ open_entries bs hs
unfolding open_entries
open_entries-le [] hs hs' w = omega arith
open_entries-le (entry k m ∷ bs) hs hs' w = ground (arith, w k, open_entries-le bs hs hs' w)
open_entries-le (vacant ∷ bs) hs hs' w = open_entries-le bs hs hs' w
open_entries-le (tombstone ∷ bs) hs hs' w = open_entries-le bs hs hs' w

open_macros-le :
    (macros : Macros) (hs hs' : Hideset)
    → Within hs hs'
    → open_macros macros hs' ≤ open_macros macros hs
unfolding open_macros
open_macros-le macros hs hs' w = open_entries-le macros.buckets hs hs' w

-- An entry whose key is added to the hideset is one less.
open_entries-lt :
    (bs : List (Bucket Macro)) (hs hs' : Hideset) (name : List ℕ) (t : ℕ) (m : Macro)
    → Within hs hs'
    → bucket_at t bs ≡ entry name m
    → hideset_contains hs name ≡ false
    → hideset_contains hs' name ≡ true
    → open_entries bs hs' < open_entries bs hs
unfolding open_entries
open_entries-lt [] hs hs' name t m w e f g = absurd cc
open_entries-lt (entry k x ∷ bs) hs hs' name zero m w e f g =
    let q : k ≡ name = cc in rw q (rw f (rw g (omega (arith, open_entries-le bs hs hs' w))))
open_entries-lt (vacant ∷ bs) hs hs' name zero m w e f g = absurd cc
open_entries-lt (tombstone ∷ bs) hs hs' name zero m w e f g = absurd cc
open_entries-lt (entry k x ∷ bs) hs hs' name (suc t) m w e f g =
    ground (arith, w k, open_entries-lt bs hs hs' name t m w e f g)
open_entries-lt (vacant ∷ bs) hs hs' name (suc t) m w e f g =
    open_entries-lt bs hs hs' name t m w e f g
open_entries-lt (tombstone ∷ bs) hs hs' name (suc t) m w e f g =
    open_entries-lt bs hs hs' name t m w e f g

Holds-entry : (name : List ℕ) (b : Bucket Macro) → Holds name b → (m : Macro) × (b ≡ entry name m)
Holds-entry name vacant h = absurd h
Holds-entry name tombstone h = absurd h
Holds-entry name (entry k m) h = (m, rw h refl)

-- A macro that is found is the entry of a bucket with its name.
pub macro_named-entry :
    (macros : Macros) (name : List ℕ) (m : Macro)
    → macro_named macros name ≡ some m
    → (t : ℕ) × (bucket_at t macros.buckets ≡ entry name m)
unfolding macro_named hashmap_get2 get_entry
macro_named-entry macros name m e = elim (Bool-cases (is_null macros.buckets)) [
  | inl z ↦ let e' = rw z at e in absurd cc
  | inr z ↦
      let e' = rw z at e in
      let bs = macros.buckets in
      elim (get_loop-cases name bs (fnv_hash name) (length bs) 0) [
        | inl (t, f) ↦
            let (v, q) =
              Holds-entry name (bucket_at t bs)
                (get_loop-Holds name bs (fnv_hash name) (length bs) 0 t f) in
            let e'' = rw f at e' in let e3 = rw q at e'' in let r : v ≡ m = cc in (t, rw (sym r) q)
        | inr (inl f) ↦ let e'' = rw f at e' in absurd cc
        | inr (inr f) ↦ let e'' = rw f at e' in absurd cc
      ]
]

-- A macro that is added to the hideset is one less.
open_macros-lt :
    (macros : Macros) (hs hs' : Hideset) (name : List ℕ) (m : Macro)
    → Within hs hs'
    → macro_named macros name ≡ some m
    → hideset_contains hs name ≡ false
    → hideset_contains hs' name ≡ true
    → open_macros macros hs' < open_macros macros hs
unfolding open_macros
open_macros-lt macros hs hs' name m w e f g =
    let (t, q) = macro_named-entry macros name m e in
    open_entries-lt macros.buckets hs hs' name t m w q f g

union-Within-right : (hs hs' : Hideset) → Within hs' (hideset_union hs hs')
union-Within-right hs hs' s e = ground (arith, (hideset_contains-algebra hs hs' s).0)

union-Within-left : (hs hs' : Hideset) → Within hs (hideset_union hs hs')
union-Within-left hs hs' s e = ground (arith, (hideset_contains-algebra hs hs' s).0)

union-new :
    (hs : Hideset) (name : List ℕ)
    → hideset_contains (hideset_union hs (new_hideset name)) name ≡ true
unfolding hideset_contains
union-new hs name =
    union-Within-right hs (new_hideset name) name (ground (arith, same_key_refl name))

cost-add_hideset :
    (macros : Macros) (b : Stream) (hs : Hideset)
    → cost macros (add_hideset b hs) ≤ size b * suc (longest_body macros) ^ open_macros macros hs
unfolding cost add_hideset
cost-add_hideset macros (end t) hs = omega arith
cost-add_hideset macros (t ◂ b) hs =
    let one : weight macros (record t { hideset = hideset_union t.hideset hs })
        ≤ suc (longest_body macros) ^ open_macros macros hs =
      pow-le-pow_right (omega arith)
        (open_macros-le macros hs (hideset_union t.hideset hs) (union-Within-right t.hideset hs)) in
    omega (arith, one, cost-add_hideset macros b hs)

cost-append :
    (macros : Macros) (a b : Stream) → cost macros (append a b) ≡ cost macros a + cost macros b
unfolding cost append
cost-append macros (end t) b = omega arith
cost-append macros (t ◂ a) b = omega (arith, cost-append macros a b)

cost-set_first :
    (macros : Macros) (t : Tok) (s : Stream) → cost macros (set_first t s) ≡ cost macros s
unfolding cost
cost-set_first macros t (end u) = refl
cost-set_first macros t (u ◂ s) = refl

-- The bodies are no longer than the longest.
size-longest_entry :
    (bs : List (Bucket Macro)) (name : List ℕ) (t : ℕ) (m : Macro)
    → bucket_at t bs ≡ entry name m
    → size m.body ≤ longest_entry bs
unfolding longest_entry
size-longest_entry [] name t m e = absurd cc
size-longest_entry (entry k x ∷ bs) name zero m e = let q : x ≡ m = cc in rw (sym q) (omega arith)
size-longest_entry (vacant ∷ bs) name zero m e = absurd cc
size-longest_entry (tombstone ∷ bs) name zero m e = absurd cc
size-longest_entry (entry k x ∷ bs) name (suc t) m e =
    omega (arith, size-longest_entry bs name t m e)
size-longest_entry (vacant ∷ bs) name (suc t) m e = size-longest_entry bs name t m e
size-longest_entry (tombstone ∷ bs) name (suc t) m e = size-longest_entry bs name t m e

size-longest_body :
    (macros : Macros) (name : List ℕ) (m : Macro)
    → macro_named macros name ≡ some m
    → size m.body ≤ longest_body macros
unfolding longest_body
size-longest_body macros name m e =
    let (t, q) = macro_named-entry macros name m e in size-longest_entry macros.buckets name t m q

weights-lt : (l n j k : ℕ) → n ≤ l → j < k → n * suc l ^ j < suc l ^ k
weights-lt l n j k h h' =
    let a : suc l ^ suc j ≤ suc l ^ k = pow-le-pow_right (omega arith) (omega arith) in
    let b : suc l ^ suc j ≡ suc l * suc l ^ j = pow-succ' (suc l) j in
    let c : n * suc l ^ j ≤ l * suc l ^ j = mul-le-mul_right (suc l ^ j) h in
    let d : 1 ≤ suc l ^ j = one-le-pow j (suc l) (omega arith) in
    let e : suc l * suc l ^ j ≡ suc l ^ j + l * suc l ^ j = omega arith in
    omega (arith, a, b, c, d, e)

-- A macro that is replaced by its body costs more than the body.
pub cost-put_body :
    (macros : Macros) (t : Tok) (m : Macro) (s : Stream)
    → macro_named macros t.word ≡ some m
    → m.name ≡ t.word
    → hideset_contains t.hideset t.word ≡ false
    → cost macros (put_body t m.body (hideset_union t.hideset (new_hideset m.name)) s)
      < cost macros (t ◂ s)
unfolding put_body cost
cost-put_body macros t m s e w f =
    let hs = hideset_union t.hideset (new_hideset m.name) in
    let j =
      open_macros-lt macros t.hideset hs t.word m (union-Within-left t.hideset (new_hideset m.name))
        e f (rw (sym w) (union-new t.hideset m.name)) in
    omega (
      arith,
      cost-set_first macros t (append (add_hideset m.body hs) s),
      cost-append macros (add_hideset m.body hs) s,
      cost-add_hideset macros m.body hs,
      weights-lt (longest_body macros) (size m.body) (open_macros macros hs)
          (open_macros macros t.hideset) (size-longest_body macros t.word m e) j,
    )

pub weight-pos : (macros : Macros) (t : Tok) → 0 < weight macros t
unfolding weight
weight-pos macros t =
    one-le-pow (open_macros macros t.hideset) (suc (longest_body macros)) (omega arith)
