-- ===== src/Preprocess/Macro/Table.antt =====
-- preprocess.c: the table of macros, with respect to the searches that come back.
use chibicc.Common.{ℕ, ◌*◌, ◌≡◌, ◌⊎◌, refl, sym, inl, inr, some, List, [], length, Option-cases}
use chibicc.HashMap.{hashmap_get2, hashmap_put2}
use chibicc.HashMap.Slots.{IsPower}
use chibicc.HashMap.Usable.{
  IsUsable, hashmap_get2-IsUsable, hashmap_delete2-IsUsable, hashmap_put2-IsUsable,
}
use chibicc.Tokenize.Result.{ok, ok_inj}
use chibicc.Preprocess.Macro.{Macro, Macros, no_macros, macro_named, add_macro, undef_macro}

no_macros-IsUsable : IsUsable no_macros
no_macros-IsUsable = inl refl

-- The search for a name ends, with what `macro_named` gives.
macro_named-get :
    (macros : Macros) (s : List ℕ)
    → IsUsable macros
    → hashmap_get2 macros s ≡ some (macro_named macros s)
unfolding macro_named
macro_named-get macros s u = let (o, e) = hashmap_get2-IsUsable macros s u in rw e refl

-- A name can always be undefined.
undef_macro-IsUsable :
    (macros : Macros) (s : List ℕ)
    → IsUsable macros
    → (left : Macros) × (undef_macro macros s ≡ ok left) × IsUsable left
unfolding undef_macro
undef_macro-IsUsable macros s u =
    let (left, e, v) = hashmap_delete2-IsUsable macros s u in (left, rw e refl, v)

-- A definition that is added leaves such a table, if the doubled capacity is in range.
add_macro-IsUsable :
    (macros added : Macros) (m : Macro)
    → IsUsable macros
    → (macros.buckets ≡ []) ⊎ IsPower (length macros.buckets * 2)
    → add_macro macros m ≡ ok added
    → IsUsable added
unfolding add_macro
add_macro-IsUsable macros added m u q e = elim (Option-cases (hashmap_put2 macros m.name m)) [
  | inl n ↦ let z = rw n at e in absurd cc
  | inr (a, n) ↦
      let z : a ≡ added = ok_inj (rw n at e) in
      rw (sym z) (hashmap_put2-IsUsable macros m.name m a [] u q n).2
]
