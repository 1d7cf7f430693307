-- ===== src/Tokenize/Number/FirstFit.antt =====
-- tokenize.c: the size and the signedness of the type of an integer constant, and the C standard's list
-- of types for it (6.4.4.1). `long` and `long long`, which have both in common, are not told apart.
use chibicc.Common.{
  ℕ, ◌-◌, ◌*◌, ◌^◌, ◌≡◌, Bool, true, false, not, ◌||◌, ◌&&◌, Option, none, some, List, [], ◌∷◌,
  ◌++◌, ◌==◌, ltb, if◌then◌else◌,
}
use chibicc.Types.{CType, int_type, uint_type, long_type, ulong_type, llong_type, ullong_type}
use chibicc.Tokenize.Number.{Suffix}

-- Whether values of the type reach so far.
abbrev pub represents : CType → ℕ → Bool
represents ty val = ltb val (if ty.is_unsigned then 2 ^ (8 * ty.size) else 2 ^ (8 * ty.size - 1))

abbrev pub only_if : Bool → CType → List CType
only_if true ty = ty ∷ []
only_if false ty = []

-- The table: a decimal constant without `u` has no unsigned types, a constant with `u` no signed ones;
-- `l` and `ll` leave out the shorter types.
abbrev pub candidates : ℕ → Suffix → List CType
candidates base s =
    let signed = not s.u in
    let unsigned = s.u || not (base == 10) in
    let short = not (s.l || s.ll) in
    only_if (short && signed) int_type
    ++ (only_if (short && unsigned) uint_type
        ++ (only_if (not s.ll && signed) long_type
            ++ (only_if (not s.ll && unsigned) ulong_type
                ++ (only_if signed llong_type ++ only_if unsigned ullong_type))))

unfoldable pub first_fit : List CType → ℕ → Option CType
first_fit [] val = none
first_fit (ty ∷ tys) val =
    let rest = first_fit tys val in if represents ty val then some ty else rest

-- `long` and `long long` are the same words.
abbrev pub representation : CType → ℕ × Bool
representation ty = (ty.size, ty.is_unsigned)

abbrev pub FitsAs : CType → Option CType → Type 0
FitsAs ty none = ⊥
FitsAs ty (some ty') = representation ty ≡ representation ty'
