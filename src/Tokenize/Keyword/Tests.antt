-- ===== src/Tokenize/Keyword/Tests.antt =====
-- tokenize.c: `is_keyword` at concrete words.
use chibicc.Common.{◌≡◌, some, none, [], ◌∷◌, if◌then◌else◌}
use chibicc.Tokenize.Keyword.{is_keyword, member, keywords, is_keyword-member}

is_keyword-member_example :
    is_keyword (b'i' ∷ b'f' ∷ b'x' ∷ [])
    ≡ some (if member keywords (b'i' ∷ b'f' ∷ b'x' ∷ []) then some 1 else none)
is_keyword-member_example = is_keyword-member (b'i' ∷ b'f' ∷ b'x' ∷ [])
