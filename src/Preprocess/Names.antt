-- ===== src/Preprocess/Names.antt =====
-- preprocess.c: the names of the directives.
use chibicc.Common.{ℕ, List, [], ◌∷◌}

abbrev pub if_name : List ℕ
if_name = b'i' ∷ b'f' ∷ []

abbrev pub ifdef_name : List ℕ
ifdef_name = b'i' ∷ b'f' ∷ b'd' ∷ b'e' ∷ b'f' ∷ []

abbrev pub ifndef_name : List ℕ
ifndef_name = b'i' ∷ b'f' ∷ b'n' ∷ b'd' ∷ b'e' ∷ b'f' ∷ []

abbrev pub elif_name : List ℕ
elif_name = b'e' ∷ b'l' ∷ b'i' ∷ b'f' ∷ []

abbrev pub elifdef_name : List ℕ
elifdef_name = b'e' ∷ b'l' ∷ b'i' ∷ b'f' ∷ b'd' ∷ b'e' ∷ b'f' ∷ []

abbrev pub elifndef_name : List ℕ
elifndef_name = b'e' ∷ b'l' ∷ b'i' ∷ b'f' ∷ b'n' ∷ b'd' ∷ b'e' ∷ b'f' ∷ []

abbrev pub else_name : List ℕ
else_name = b'e' ∷ b'l' ∷ b's' ∷ b'e' ∷ []

abbrev pub endif_name : List ℕ
endif_name = b'e' ∷ b'n' ∷ b'd' ∷ b'i' ∷ b'f' ∷ []

abbrev pub define_name : List ℕ
define_name = b'd' ∷ b'e' ∷ b'f' ∷ b'i' ∷ b'n' ∷ b'e' ∷ []

abbrev pub undef_name : List ℕ
undef_name = b'u' ∷ b'n' ∷ b'd' ∷ b'e' ∷ b'f' ∷ []

abbrev pub include_name : List ℕ
include_name = b'i' ∷ b'n' ∷ b'c' ∷ b'l' ∷ b'u' ∷ b'd' ∷ b'e' ∷ []

abbrev pub include_next_name : List ℕ
include_next_name =
    b'i' ∷ b'n' ∷ b'c' ∷ b'l' ∷ b'u' ∷ b'd' ∷ b'e' ∷ b'_' ∷ b'n' ∷ b'e' ∷ b'x' ∷ b't' ∷ []

abbrev pub embed_name : List ℕ
embed_name = b'e' ∷ b'm' ∷ b'b' ∷ b'e' ∷ b'd' ∷ []

abbrev pub line_name : List ℕ
line_name = b'l' ∷ b'i' ∷ b'n' ∷ b'e' ∷ []

abbrev pub pragma_name : List ℕ
pragma_name = b'p' ∷ b'r' ∷ b'a' ∷ b'g' ∷ b'm' ∷ b'a' ∷ []

abbrev pub warning_name : List ℕ
warning_name = b'w' ∷ b'a' ∷ b'r' ∷ b'n' ∷ b'i' ∷ b'n' ∷ b'g' ∷ []

abbrev pub ident_name : List ℕ
ident_name = b'i' ∷ b'd' ∷ b'e' ∷ b'n' ∷ b't' ∷ []

abbrev pub sccs_name : List ℕ
sccs_name = b's' ∷ b'c' ∷ b'c' ∷ b's' ∷ []
