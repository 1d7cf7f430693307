-- ===== src/Common/BitLaws.antt =====
-- Laws of `&`, `|` and `^` for all numbers, from their digits, and the masks and fields of C code.
use Prim.Native.Nat.{ℕ, zero, suc, ◌+◌, ◌-◌, ◌*◌, ◌/◌, ◌%◌, ◌^◌, ◌≤◌, ◌<◌, min, max}
use Prim.Native.Nat.{bit_and, bit_or, bit_xor}
use mathlib.Core.Path.{◌≡◌, ap, ◌∙◌}
use native.Mathlib.Nat.{
  pow-succ', one-le-pow, mod-lt, mod-eq_of_lt, mod-add-div, add-mul-mod_self_left,
}
use native.Mathlib.Omega.{arith}
use chibicc.Common.Bits.{bit_and-half, bit_or-half, bit_xor-half, bit_and-step, bit_or-step}
use chibicc.Common.Bits.{bit_xor-step, bitwise_eq}

pub bit_and_self : (a : ℕ) → bit_and a a ≡ a
bit_and_self a =
    bitwise_eq (λ a b c. bit_and a a) (λ a b c. a) (λ a b c. a)
      (λ a b c. omega (arith, bit_and-step a a)) (λ a b c. omega arith) a a a

pub bit_or_self : (a : ℕ) → bit_or a a ≡ a
bit_or_self a =
    bitwise_eq (λ a b c. bit_or a a) (λ a b c. a) (λ a b c. a)
      (λ a b c. omega (arith, bit_or-step a a)) (λ a b c. omega arith) a a a

pub bit_xor_self : (a : ℕ) → bit_xor a a ≡ 0
bit_xor_self a =
    bitwise_eq (λ a b c. bit_xor a a) (λ a b c. 0) (λ a b c. 0)
      (λ a b c. omega (arith, bit_xor-step a a)) (λ a b c. omega arith) a a a

pub bit_and_comm : (a b : ℕ) → bit_and a b ≡ bit_and b a
bit_and_comm a b =
    bitwise_eq (λ a b c. bit_and a b) (λ a b c. bit_and b a) (λ a b c. min a b)
      (λ a b c. bit_and-step a b) (λ a b c. omega (arith, bit_and-step b a)) a b b

pub bit_or_comm : (a b : ℕ) → bit_or a b ≡ bit_or b a
bit_or_comm a b =
    bitwise_eq (λ a b c. bit_or a b) (λ a b c. bit_or b a) (λ a b c. max a b)
      (λ a b c. bit_or-step a b) (λ a b c. omega (arith, bit_or-step b a)) a b b

pub bit_xor_comm : (a b : ℕ) → bit_xor a b ≡ bit_xor b a
bit_xor_comm a b =
    bitwise_eq (λ a b c. bit_xor a b) (λ a b c. bit_xor b a) (λ a b c. (a + b) % 2)
      (λ a b c. bit_xor-step a b) (λ a b c. omega (arith, bit_xor-step b a)) a b b

pub bit_and_assoc : (a b c : ℕ) → bit_and (bit_and a b) c ≡ bit_and a (bit_and b c)
bit_and_assoc =
    bitwise_eq (λ a b c. bit_and (bit_and a b) c) (λ a b c. bit_and a (bit_and b c))
      (λ a b c. min (min a b) c)
      (λ a b c.
        bit_and-step (bit_and a b) c
        ∙ rw ((bit_and-half a b).0, (bit_and-half a b).1) (omega arith))
      (λ a b c.
        bit_and-step a (bit_and b c)
        ∙ rw ((bit_and-half b c).0, (bit_and-half b c).1) (omega arith))

pub bit_or_assoc : (a b c : ℕ) → bit_or (bit_or a b) c ≡ bit_or a (bit_or b c)
bit_or_assoc =
    bitwise_eq (λ a b c. bit_or (bit_or a b) c) (λ a b c. bit_or a (bit_or b c))
      (λ a b c. max (max a b) c)
      (λ a b c.
        bit_or-step (bit_or a b) c ∙ rw ((bit_or-half a b).0, (bit_or-half a b).1) (omega arith))
      (λ a b c.
        bit_or-step a (bit_or b c) ∙ rw ((bit_or-half b c).0, (bit_or-half b c).1) (omega arith))

pub bit_xor_assoc : (a b c : ℕ) → bit_xor (bit_xor a b) c ≡ bit_xor a (bit_xor b c)
bit_xor_assoc =
    bitwise_eq (λ a b c. bit_xor (bit_xor a b) c) (λ a b c. bit_xor a (bit_xor b c))
      (λ a b c. ((a + b) % 2 + c) % 2)
      (λ a b c.
        bit_xor-step (bit_xor a b) c
        ∙ rw ((bit_xor-half a b).0, (bit_xor-half a b).1) (omega arith))
      (λ a b c.
        bit_xor-step a (bit_xor b c)
        ∙ rw ((bit_xor-half b c).0, (bit_xor-half b c).1) (omega arith))

pub bit_and-bit_or_absorb : (a b : ℕ) → bit_and (bit_or a b) a ≡ a
bit_and-bit_or_absorb a b =
    bitwise_eq (λ a b c. bit_and (bit_or a b) a) (λ a b c. a) (λ a b c. min (max a b) a)
      (λ a b c.
        bit_and-step (bit_or a b) a ∙ rw ((bit_or-half a b).0, (bit_or-half a b).1) (omega arith))
      (λ a b c. omega arith) a b b

pub bit_or-bit_and_absorb : (a b : ℕ) → bit_or (bit_and a b) a ≡ a
bit_or-bit_and_absorb a b =
    bitwise_eq (λ a b c. bit_or (bit_and a b) a) (λ a b c. a) (λ a b c. max (min a b) a)
      (λ a b c.
        bit_or-step (bit_and a b) a ∙ rw ((bit_and-half a b).0, (bit_and-half a b).1) (omega arith))
      (λ a b c. omega arith) a b b

pub bit_and-zero : (a : ℕ) → bit_and a 0 ≡ 0
bit_and-zero a =
    bitwise_eq (λ a b c. bit_and a 0) (λ a b c. 0) (λ a b c. 0)
      (λ a b c. omega (arith, bit_and-step a 0)) (λ a b c. omega arith) a a a

pub bit_or-zero : (a : ℕ) → bit_or a 0 ≡ a
bit_or-zero a =
    bitwise_eq (λ a b c. bit_or a 0) (λ a b c. a) (λ a b c. a)
      (λ a b c. omega (arith, bit_or-step a 0)) (λ a b c. omega arith) a a a

pub bit_xor-zero : (a : ℕ) → bit_xor a 0 ≡ a
bit_xor-zero a =
    bitwise_eq (λ a b c. bit_xor a 0) (λ a b c. a) (λ a b c. a)
      (λ a b c. omega (arith, bit_xor-step a 0)) (λ a b c. omega arith) a a a

pub bit_xor_cancel : (a b : ℕ) → bit_xor (bit_xor a b) b ≡ a
bit_xor_cancel a b = bit_xor_assoc a b b ∙ ap (bit_xor a) (bit_xor_self b) ∙ bit_xor-zero a

pub mod_unique : (a m q r : ℕ) → a ≡ r + m * q → r < m → a % m ≡ r
mod_unique a m q r e h = rw e (add-mul-mod_self_left r m q ∙ mod-eq_of_lt h)

mod_double : (a m : ℕ) → 0 < m → a % (2 * m) ≡ (a / 2 % m) * 2 + a % 2
mod_double a m h =
    mod_unique a (2 * m) (a / 2 / m) _ (omega (arith, mod-add-div (a / 2) m))
      (omega (arith, mod-lt (a / 2) h))

-- The low `k` bits, the `k` bits all set, and a field put above `k` bits.
pub bit_and-mask : (k a : ℕ) → bit_and a (2 ^ k - 1) ≡ a % 2 ^ k
bit_and-mask zero a = bit_and-zero a ∙ omega arith
bit_and-mask (suc k) a =
    let p = pow-succ' 2 k in
    let q = one-le-pow k 2 (omega arith) in
    let e : (2 ^ suc k - 1) / 2 ≡ 2 ^ k - 1 = omega (arith, p, q) in
    bit_and-step a (2 ^ suc k - 1)
    ∙ rw (e, bit_and-mask k (a / 2))
        (omega (arith, q, ap (λ (t : ℕ). a % t) p, p, mod_double a (2 ^ k) q))

pub bit_or-mask : (k a : ℕ) → a < 2 ^ k → bit_or a (2 ^ k - 1) ≡ 2 ^ k - 1
bit_or-mask zero a h = bit_or-zero a ∙ omega arith
bit_or-mask (suc k) a h =
    let p = pow-succ' 2 k in
    let q = one-le-pow k 2 (omega arith) in
    let e : (2 ^ suc k - 1) / 2 ≡ 2 ^ k - 1 = omega (arith, p, q) in
    bit_or-step a (2 ^ suc k - 1)
    ∙ rw (e, bit_or-mask k (a / 2) (omega (arith, p))) (omega (arith, p, q))

pub bit_xor-mask : (k a : ℕ) → a < 2 ^ k → bit_xor a (2 ^ k - 1) ≡ 2 ^ k - 1 - a
bit_xor-mask zero a h = bit_xor-zero a ∙ omega arith
bit_xor-mask (suc k) a h =
    let p = pow-succ' 2 k in
    let q = one-le-pow k 2 (omega arith) in
    let e : (2 ^ suc k - 1) / 2 ≡ 2 ^ k - 1 = omega (arith, p, q) in
    bit_xor-step a (2 ^ suc k - 1)
    ∙ rw (e, bit_xor-mask k (a / 2) (omega (arith, p))) (omega (arith, p, q))

pub bit_or-shifted : (k q r : ℕ) → r < 2 ^ k → bit_or (q * 2 ^ k) r ≡ q * 2 ^ k + r
bit_or-shifted zero q r h =
    let e : r ≡ 0 = omega arith in rw e (bit_or-zero (q * 2 ^ 0) ∙ omega arith)
bit_or-shifted (suc k) q r h =
    let p = pow-succ' 2 k in
    let w : q * 2 ^ suc k ≡ 2 * (q * 2 ^ k) = omega (arith, ap (λ (t : ℕ). q * t) p) in
    let e : q * 2 ^ suc k / 2 ≡ q * 2 ^ k = omega (arith, w) in
    bit_or-step (q * 2 ^ suc k) r
    ∙ rw (e, bit_or-shifted k q (r / 2) (omega (arith, p))) (omega (arith, w))

-- The results of the operations on words of `k` bits are words of `k` bits.
pub bit_and-le : (a b : ℕ) → bit_and a b ≤ a
bit_and-le a b = below (a + b) a b (omega arith) (omega arith)
  where
    below : (n x y : ℕ) → x ≤ n → y ≤ n → bit_and x y ≤ x
    below zero x y h k =
        let e : x ≡ 0 = omega arith in rw e (omega (arith, bit_and_comm 0 y, bit_and-zero y))
    below (suc n) x y h k =
        omega (arith, bit_and-step x y, below n (x / 2) (y / 2) (omega arith) (omega arith))

pub bit_or-lt : (k a b : ℕ) → a < 2 ^ k → b < 2 ^ k → bit_or a b < 2 ^ k
bit_or-lt zero a b h j =
    let e : a ≡ 0 = omega arith in let f : b ≡ 0 = omega arith in rw (e, f) (omega arith)
bit_or-lt (suc k) a b h j =
    let p = pow-succ' 2 k in
    omega
      (arith, p, bit_or-step a b, bit_or-lt k (a / 2) (b / 2) (omega (arith, p)) (omega (arith, p)))

pub bit_xor-lt : (k a b : ℕ) → a < 2 ^ k → b < 2 ^ k → bit_xor a b < 2 ^ k
bit_xor-lt zero a b h j =
    let e : a ≡ 0 = omega arith in let f : b ≡ 0 = omega arith in rw (e, f) (omega arith)
bit_xor-lt (suc k) a b h j =
    let p = pow-succ' 2 k in
    omega (
      arith,
      p,
      bit_xor-step a b,
      bit_xor-lt k (a / 2) (b / 2) (omega (arith, p)) (omega (arith, p)),
    )
