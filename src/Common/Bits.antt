-- ===== src/Common/Bits.antt =====
-- The bit operations of C at variables: each is determined by its lowest digit and the rest.
use Prim.Native.Nat.{ℕ, zero, suc, ◌+◌, ◌*◌, ◌/◌, ◌%◌, ◌≤◌, ◌<◌, min, max}
use Prim.Native.Nat.{bit_and, bit_or, bit_xor, digits, differ}
use Prim.Native.Nat.{bit_and-bitwise, bit_or-bitwise, bit_xor-bitwise}
use mathlib.Core.Path.{◌≡◌, refl, ap}
use native.Mathlib.Omega.{arith}

-- The recursion that the native operations stand for reads its fuel only to stop.
module _ (rest : ℕ → ℕ) (digit : ℕ → ℕ → ℕ) where
  digits_enough :
      (a b m : ℕ) (n : ℕ) → a ≤ n → a ≤ m → digits rest digit n a b ≡ digits rest digit m a b
  digits_enough zero b zero zero p q = refl
  digits_enough zero b zero (suc n) p q = refl
  digits_enough zero b (suc m) zero p q = refl
  digits_enough zero b (suc m) (suc n) p q = refl
  digits_enough (suc a) b m zero p q = absurd (omega arith)
  digits_enough (suc a) b zero (suc n) p q = absurd (omega arith)
  digits_enough (suc a) b (suc m) (suc n) p q =
      ap (λ (t : ℕ). t * 2 + digit (suc a % 2) (b % 2))
        (digits_enough (suc a / 2) (b / 2) m n (omega arith) (omega arith))

pub bit_and-step : (a b : ℕ) → bit_and a b ≡ bit_and (a / 2) (b / 2) * 2 + min (a % 2) (b % 2)
bit_and-step zero b = rw (bit_and-bitwise 0 b, bit_and-bitwise (0 / 2) (b / 2)) (omega arith)
bit_and-step (suc a) b =
    rw (bit_and-bitwise (suc a) b, bit_and-bitwise (suc a / 2) (b / 2))
      (omega (
        arith,
        digits_enough (λ _. zero) min (suc a / 2) (b / 2) (suc a / 2) a (omega arith) (omega arith),
      ))

pub bit_or-step : (a b : ℕ) → bit_or a b ≡ bit_or (a / 2) (b / 2) * 2 + max (a % 2) (b % 2)
bit_or-step zero b = rw (bit_or-bitwise 0 b, bit_or-bitwise (0 / 2) (b / 2)) (omega arith)
bit_or-step (suc a) b =
    rw (bit_or-bitwise (suc a) b, bit_or-bitwise (suc a / 2) (b / 2))
      (omega (
        arith,
        digits_enough (λ x. x) max (suc a / 2) (b / 2) (suc a / 2) a (omega arith) (omega arith),
      ))

differ-mod : (x y : ℕ) → differ (x % 2) (y % 2) ≡ (x % 2 + y % 2) % 2
differ-mod x y = below (x % 2) (y % 2) (omega arith) (omega arith)
  where
    below : (a b : ℕ) → a < 2 → b < 2 → differ a b ≡ (a + b) % 2
    below zero b h k = omega arith
    below (suc zero) zero h k = refl
    below (suc zero) (suc zero) h k = refl
    below (suc zero) (suc (suc b)) h k = absurd (omega arith)
    below (suc (suc a)) b h k = absurd (omega arith)

pub bit_xor-step : (a b : ℕ) → bit_xor a b ≡ bit_xor (a / 2) (b / 2) * 2 + (a % 2 + b % 2) % 2
bit_xor-step zero b = rw (bit_xor-bitwise 0 b, bit_xor-bitwise (0 / 2) (b / 2)) (omega arith)
bit_xor-step (suc a) b =
    rw (bit_xor-bitwise (suc a) b, bit_xor-bitwise (suc a / 2) (b / 2))
      (omega (
        arith,
        differ-mod (suc a) b,
        digits_enough (λ x. x) differ (suc a / 2) (b / 2) (suc a / 2) a (omega arith) (omega arith),
      ))

-- The lowest digit and the rest of each operation.
pub bit_and-half :
    (a b : ℕ)
    → (bit_and a b / 2 ≡ bit_and (a / 2) (b / 2)) × (bit_and a b % 2 ≡ min (a % 2) (b % 2))
bit_and-half a b = omega (arith, bit_and-step a b)

pub bit_or-half :
    (a b : ℕ) → (bit_or a b / 2 ≡ bit_or (a / 2) (b / 2)) × (bit_or a b % 2 ≡ max (a % 2) (b % 2))
bit_or-half a b = omega (arith, bit_or-step a b)

pub bit_xor-half :
    (a b : ℕ)
    → (bit_xor a b / 2 ≡ bit_xor (a / 2) (b / 2)) × (bit_xor a b % 2 ≡ (a % 2 + b % 2) % 2)
bit_xor-half a b = omega (arith, bit_xor-step a b)

-- Two functions of three numbers are equal if each is determined by its lowest digit, which is the
-- same for both, and by its value at the halves.
pub bitwise_ext :
    (g h d : ℕ → ℕ → ℕ → ℕ)
    → ((a b c : ℕ) → g a b c ≡ g (a / 2) (b / 2) (c / 2) * 2 + d (a % 2) (b % 2) (c % 2))
    → ((a b c : ℕ) → h a b c ≡ h (a / 2) (b / 2) (c / 2) * 2 + d (a % 2) (b % 2) (c % 2))
    → (n a b c : ℕ) → a ≤ n
    → b ≤ n
    → c ≤ n
    → g a b c ≡ h a b c
bitwise_ext g h d gs hs zero zero zero zero p q r = omega (arith, gs 0 0 0, hs 0 0 0)
bitwise_ext g h d gs hs zero (suc a) b c p q r = absurd (omega arith)
bitwise_ext g h d gs hs zero zero (suc b) c p q r = absurd (omega arith)
bitwise_ext g h d gs hs zero zero zero (suc c) p q r = absurd (omega arith)
bitwise_ext g h d gs hs (suc n) a b c p q r = omega (
  arith,
  gs a b c,
  hs a b c,
  bitwise_ext g h d gs hs n (a / 2) (b / 2) (c / 2) (omega arith) (omega arith) (omega arith),
)

pub bitwise_eq :
    (g h d : ℕ → ℕ → ℕ → ℕ)
    → ((a b c : ℕ) → g a b c ≡ g (a / 2) (b / 2) (c / 2) * 2 + d (a % 2) (b % 2) (c % 2))
    → ((a b c : ℕ) → h a b c ≡ h (a / 2) (b / 2) (c / 2) * 2 + d (a % 2) (b % 2) (c % 2))
    → (a b c : ℕ) → g a b c ≡ h a b c
bitwise_eq g h d gs hs a b c =
    bitwise_ext g h d gs hs (a + b + c) a b c (omega arith) (omega arith) (omega arith)
