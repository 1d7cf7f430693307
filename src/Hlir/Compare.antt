-- ===== src/Hlir/Compare.antt =====
-- ir/hlir_opt.c: `hlir_invert_cmp` and `hlir_swap_cmp` by what they mean.
use chibicc.Common.{ℕ, ◌≡◌, refl, arith, true, Option, some}
use chibicc.Types.{CType}
use chibicc.Hlir.{HlirKind, hlir_is_relational, hlir_invert_cmp, hlir_swap_cmp}
use chibicc.Hlir.Machine.{eval_binary, eval_unary}

-- The inverted comparison of two integers is the logical negation of the comparison, signed or not.
pub hlir_invert_cmp-eval :
    (k : HlirKind) (ty ty₀ ty' ty1 : Option CType) (a b r : ℕ)
    → hlir_is_relational k ≡ true
    → eval_binary k ty₀ ty1 a b ≡ some r
    → eval_binary (hlir_invert_cmp k) ty ty1 a b ≡ eval_unary HlirKind.lognot ty' r
unfolding hlir_is_relational hlir_invert_cmp eval_binary eval_unary
hlir_invert_cmp-eval HlirKind.cmp_eq ty ty₀ ty' ty1 a b r h e = ground arith
hlir_invert_cmp-eval HlirKind.cmp_ne ty ty₀ ty' ty1 a b r h e = ground arith
hlir_invert_cmp-eval HlirKind.cmp_lt ty ty₀ ty' ty1 a b r h e = ground arith
hlir_invert_cmp-eval HlirKind.cmp_le ty ty₀ ty' ty1 a b r h e = ground arith
hlir_invert_cmp-eval HlirKind.cmp_gt ty ty₀ ty' ty1 a b r h e = ground arith
hlir_invert_cmp-eval HlirKind.cmp_ge ty ty₀ ty' ty1 a b r h e = ground arith
hlir_invert_cmp-eval _ ty ty₀ ty' ty1 a b r h e = cc

-- The swapped comparison of the operands in the other order is the comparison.
hlir_swap_cmp-eval :
    (k : HlirKind) (ty ty1 : Option CType) (a b : ℕ)
    → hlir_is_relational k ≡ true
    → eval_binary (hlir_swap_cmp k) ty ty1 b a ≡ eval_binary k ty ty1 a b
unfolding hlir_is_relational hlir_swap_cmp eval_binary
hlir_swap_cmp-eval HlirKind.cmp_eq ty ty1 a b h = ground arith
hlir_swap_cmp-eval HlirKind.cmp_ne ty ty1 a b h = ground arith
hlir_swap_cmp-eval HlirKind.cmp_lt ty ty1 a b h = refl
hlir_swap_cmp-eval HlirKind.cmp_le ty ty1 a b h = refl
hlir_swap_cmp-eval HlirKind.cmp_gt ty ty1 a b h = refl
hlir_swap_cmp-eval HlirKind.cmp_ge ty ty1 a b h = refl
hlir_swap_cmp-eval _ ty ty1 a b h = cc
