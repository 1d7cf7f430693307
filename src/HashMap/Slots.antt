-- ===== src/HashMap/Slots.antt =====
-- hashmap.c: the buckets that a search looks at are all of them, each once.
use chibicc.Common.{
  ℕ, suc, zero, ◌+◌, ◌-◌, ◌*◌, ◌%◌, ◌^◌, ◌≤◌, ◌<◌, ◌≡◌, ◌≢◌, ◌∙◌, ◌⊎◌, sym, ap, arith, inl, inr,
}
use native.Mathlib.Nat.{
  mod-lt, mod-eq_of_lt, mod-add-mod, mod-mod_of_dvd, dvd-mul_right, pow-succ', one-le-pow,
}
use chibicc.Common.BitLaws.{bit_and-mask, mod_unique}
use chibicc.HashMap.{slot}

-- A power of 2, within the words that are hashed to.
abbrev pub IsPower : ℕ → Type 0
IsPower n = (e : ℕ) × (e ≤ 64) × (n ≡ 2 ^ e)

pow-add : (e k : ℕ) → 2 ^ (e + k) ≡ 2 ^ e * 2 ^ k
pow-add e zero = let a : e + 0 ≡ e = omega arith in rw a (omega arith)
pow-add e (suc k) =
    let a : e + suc k ≡ suc (e + k) = omega arith in
    rw a (grind (arith, pow-succ' 2 (e + k), pow-succ' 2 k, pow-add e k))

slot-mod : (hash i n : ℕ) → IsPower n → slot hash i n ≡ (hash + i) % n
slot-mod hash i n (e, h, q) =
    let a : 2 ^ 64 ≡ 2 ^ e * 2 ^ (64 - e) = pow-add-to e (64 - e) (omega arith) in
    rw q (
      bit_and-mask e ((hash + i) % 2 ^ 64)
      ∙ ap (λ m. (hash + i) % m % 2 ^ e) a
      ∙ mod-mod_of_dvd (2 ^ e) (hash + i) (dvd-mul_right (2 ^ e) (2 ^ (64 - e))))
  where
    pow-add-to : (e k : ℕ) → e + k ≡ 64 → 2 ^ 64 ≡ 2 ^ e * 2 ^ k
    pow-add-to e k z = ap (λ m. 2 ^ m) (sym z) ∙ pow-add e k

IsPower-pos : (n : ℕ) → IsPower n → 0 < n
IsPower-pos n (e, h, q) = rw q (one-le-pow e 2 (omega arith))

pub slot-lt : (hash i n : ℕ) → IsPower n → slot hash i n < n
slot-lt hash i n p = rw (slot-mod hash i n p) (mod-lt (hash + i) (IsPower-pos n p))

lt_cases : (a b : ℕ) → (a < b) ⊎ (b ≤ a)
lt_cases a b = omega arith

-- The index goes round once.
slot-form :
    (hash i n : ℕ)
    → IsPower n
    → i < n
    → (slot hash i n ≡ hash % n + i) ⊎ (slot hash i n + n ≡ hash % n + i)
slot-form hash i n p h =
    let e : slot hash i n ≡ (hash % n + i) % n = slot-mod hash i n p ∙ sym (mod-add-mod hash n i) in
    let l = mod-lt hash (IsPower-pos n p) in
    elim (lt_cases (hash % n + i) n) [
      | inl a ↦ inl (e ∙ mod-eq_of_lt a)
      | inr a ↦ inr (
          omega (
            arith,
            e,
            mod_unique (hash % n + i) n 1 (hash % n + i - n) (omega arith) (omega arith),
          ))
    ]

pub slot_injective : (hash i j n : ℕ) → IsPower n → i < j → j < n → slot hash i n ≢ slot hash j n
slot_injective hash i j n p h k e = elim (slot-form hash i n p (omega arith)) [
  | inl a ↦ elim (slot-form hash j n p k) [ inl b ↦ omega arith | inr b ↦ omega arith ]
  | inr a ↦ elim (slot-form hash j n p k) [ inl b ↦ omega arith | inr b ↦ omega arith ]
]

pub slot_surjective : (hash t n : ℕ) → IsPower n → t < n → (i : ℕ) × (i < n) × (slot hash i n ≡ t)
slot_surjective hash t n p h =
    let l = mod-lt hash (IsPower-pos n p) in
    elim (lt_cases t (hash % n)) [
      | inl a ↦ (
        t + n - hash % n,
        omega arith,
        reached (t + n - hash % n) (omega arith) (inr (omega arith)),
      )
      | inr a ↦
          (t - hash % n, omega arith, reached (t - hash % n) (omega arith) (inl (omega arith)))
    ]
  where
    reached : (i : ℕ) → i < n → (hash % n + i ≡ t) ⊎ (hash % n + i ≡ t + n) → slot hash i n ≡ t
    reached i k c =
        let l = slot-lt hash i n p in
        elim (slot-form hash i n p k) [
          | inl b ↦ elim c [ inl d ↦ omega arith | inr d ↦ omega arith ]
          | inr b ↦ elim c [ inl d ↦ omega arith | inr d ↦ omega arith ]
        ]
