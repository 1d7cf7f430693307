-- ===== src/Preprocess/Hideset.antt =====
-- preprocess.c: hidesets, the names of the macros that a token comes from.
use chibicc.Common.{
  ◌≡◌, ℕ, refl, arith, Bool, true, false, ◌&&◌, ◌||◌, List, [], ◌∷◌, if◌then◌else◌, ap,
}
use chibicc.HashMap.{same_key}
use chibicc.HashMap.Search.{same_key_sound}

abbrev pub Hideset : Type 0
Hideset = List (List ℕ)

abbrev pub new_hideset : List ℕ → Hideset
new_hideset name = name ∷ []

unfoldable pub hideset_contains : Hideset → List ℕ → Bool
hideset_contains [] s = false
hideset_contains (name ∷ hs) s = same_key name s || hideset_contains hs s

unfoldable pub hideset_union : Hideset → Hideset → Hideset
unfolding hideset_contains
hideset_union [] hs2 = hs2
hideset_union (name ∷ hs1) hs2 =
    let rest = hideset_union hs1 hs2 in if hideset_contains hs2 name then rest else name ∷ rest

unfoldable pub hideset_intersection : Hideset → Hideset → Hideset
unfolding hideset_contains
hideset_intersection [] hs2 = []
hideset_intersection (name ∷ hs1) hs2 =
    let rest = hideset_intersection hs1 hs2 in
    if hideset_contains hs2 name then name ∷ rest else rest

-- A name of the first set that the second one has too.
contains-same :
    (hs : Hideset) (name s : List ℕ)
    → same_key name s ≡ true
    → hideset_contains hs name ≡ hideset_contains hs s
contains-same hs name s e = ap (hideset_contains hs) (same_key_sound name s e)

union-contains :
    (hs1 hs2 : Hideset) (s : List ℕ)
    → hideset_contains (hideset_union hs1 hs2) s
      ≡ (hideset_contains hs1 s || hideset_contains hs2 s)
unfolding hideset_union hideset_contains
union-contains [] hs2 s = refl
union-contains (name ∷ hs1) hs2 s =
    ground (arith, union-contains hs1 hs2 s, contains-same hs2 name s)

intersection-contains :
    (hs1 hs2 : Hideset) (s : List ℕ)
    → hideset_contains (hideset_intersection hs1 hs2) s
      ≡ (hideset_contains hs1 s && hideset_contains hs2 s)
unfolding hideset_intersection hideset_contains
intersection-contains [] hs2 s = refl
intersection-contains (name ∷ hs1) hs2 s =
    ground (arith, intersection-contains hs1 hs2 s, contains-same hs2 name s)

-- A name is in the union of two hidesets exactly when it is in one of them, and in their
-- intersection exactly when it is in both.
pub hideset_contains-algebra :
    (hs1 hs2 : Hideset) (s : List ℕ)
    → (hideset_contains (hideset_union hs1 hs2) s
        ≡ (hideset_contains hs1 s || hideset_contains hs2 s))
      × (hideset_contains (hideset_intersection hs1 hs2) s
          ≡ (hideset_contains hs1 s && hideset_contains hs2 s))
hideset_contains-algebra hs1 hs2 s = (union-contains hs1 hs2 s, intersection-contains hs1 hs2 s)
