-- ===== src/Tokenize/Lines/Canonical.antt =====
-- tokenize.c: what `canonicalize_newline` leaves.
use chibicc.Common.{
  ℕ, ◌≤◌, ◌≡◌, ◌≢◌, ◌∙◌, refl, sym, ap, arith, List, [], ◌∷◌, ◌++◌, ◌==◌, if◌then◌else◌, Bool-cases,
  length, inl, inr,
}
use chibicc.Tokenize.Lines.{newline, carriage_return, canonicalize_newline}

-- No carriage return.
abbrev pub IsUnix : List ℕ → Type 0
IsUnix [] = Unit
IsUnix (c ∷ cs) = (c ≢ carriage_return) × IsUnix cs

-- The text with another end of line.
unfoldable pub with_end : List ℕ → List ℕ → List ℕ
with_end eol [] = []
with_end eol (c ∷ cs) = (if c == newline then eol else c ∷ []) ++ with_end eol cs

-- No carriage return is left.
canonicalize_newline-IsUnix : (text : List ℕ) → IsUnix (canonicalize_newline text)
unfolding canonicalize_newline
canonicalize_newline-IsUnix [] = tt
canonicalize_newline-IsUnix (c ∷ []) = ground arith
canonicalize_newline-IsUnix (c ∷ d ∷ rest) =
    ground (arith, canonicalize_newline-IsUnix rest, canonicalize_newline-IsUnix (d ∷ rest))

pub canonicalize_newline-fixed : (text : List ℕ) → IsUnix text → canonicalize_newline text ≡ text
unfolding canonicalize_newline
canonicalize_newline-fixed [] h = refl
canonicalize_newline-fixed (c ∷ []) h = ground arith
canonicalize_newline-fixed (c ∷ d ∷ rest) h = ground (arith, canonicalize_newline-fixed (d ∷ rest))

canonicalize-carriage_return :
    (text : List ℕ)
    → canonicalize_newline (carriage_return ∷ newline ∷ text) ≡ newline ∷ canonicalize_newline text
unfolding canonicalize_newline
canonicalize-carriage_return text = refl

canonicalize-other :
    (c : ℕ) (text : List ℕ)
    → c ≢ carriage_return
    → canonicalize_newline (c ∷ text) ≡ c ∷ canonicalize_newline text
unfolding canonicalize_newline
canonicalize-other c [] h = ground arith
canonicalize-other c (d ∷ rest) h = ground arith

-- A carriage return that no newline follows is one.
abbrev StartsNotNewline : List ℕ → Type 0
StartsNotNewline [] = Unit
StartsNotNewline (d ∷ rest) = d ≢ newline

canonicalize-alone :
    (text : List ℕ)
    → StartsNotNewline text
    → canonicalize_newline (carriage_return ∷ text) ≡ newline ∷ canonicalize_newline text
unfolding canonicalize_newline
canonicalize-alone [] h = refl
canonicalize-alone (d ∷ rest) h = ground arith

with_end-StartsNotNewline : (t : List ℕ) → StartsNotNewline (with_end (carriage_return ∷ []) t)
unfolding with_end
with_end-StartsNotNewline [] = tt
with_end-StartsNotNewline (c ∷ cs) = ground arith

canonicalize-with_end_dos :
    (t : List ℕ) → IsUnix t → canonicalize_newline (with_end (carriage_return ∷ newline ∷ []) t) ≡ t
unfolding with_end
canonicalize-with_end_dos [] h = unfold canonicalize_newline in refl
canonicalize-with_end_dos (c ∷ cs) h =
    let ih = canonicalize-with_end_dos cs h.1 in
    let rest = with_end (carriage_return ∷ newline ∷ []) cs in
    elim (Bool-cases (c == newline)) [
      | inl e ↦
          let q : c ≡ newline = ground arith in
          rw e (canonicalize-carriage_return rest ∙ ap (◌∷◌ newline) ih ∙ ap (λ x. x ∷ cs) (sym q))
      | inr e ↦ rw e (canonicalize-other c rest h.0 ∙ ap (◌∷◌ c) ih)
    ]

canonicalize-with_end_mac :
    (t : List ℕ) → IsUnix t → canonicalize_newline (with_end (carriage_return ∷ []) t) ≡ t
unfolding with_end
canonicalize-with_end_mac [] h = unfold canonicalize_newline in refl
canonicalize-with_end_mac (c ∷ cs) h =
    let ih = canonicalize-with_end_mac cs h.1 in
    let rest = with_end (carriage_return ∷ []) cs in
    elim (Bool-cases (c == newline)) [
      | inl e ↦
          let q : c ≡ newline = ground arith in
          rw e (
            canonicalize-alone rest (with_end-StartsNotNewline cs)
            ∙ ap (◌∷◌ newline) ih
            ∙ ap (λ x. x ∷ cs) (sym q))
      | inr e ↦ rw e (canonicalize-other c rest h.0 ∙ ap (◌∷◌ c) ih)
    ]

-- A text without carriage returns is left as it is, and is restored from its version with `\r\n`, and
-- from that with `\r`, at the ends of its lines.
pub canonicalize_newline-with_end :
    (t : List ℕ)
    → IsUnix t
    → (canonicalize_newline t ≡ t)
      × (canonicalize_newline (with_end (carriage_return ∷ newline ∷ []) t) ≡ t)
      × (canonicalize_newline (with_end (carriage_return ∷ []) t) ≡ t)
canonicalize_newline-with_end t h =
    (canonicalize_newline-fixed t h, canonicalize-with_end_dos t h, canonicalize-with_end_mac t h)

-- The text shrinks or stays as long, so that it fits where it stood.
pub length-canonicalize_newline : (t : List ℕ) → length (canonicalize_newline t) ≤ length t
unfolding canonicalize_newline
length-canonicalize_newline [] = omega arith
length-canonicalize_newline (c ∷ []) = omega arith
length-canonicalize_newline (c ∷ d ∷ rest) =
    ground (arith, length-canonicalize_newline rest, length-canonicalize_newline (d ∷ rest))
