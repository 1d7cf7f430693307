-- ===== src/Tokenize/Result.antt =====
-- What reading a text leads to.
-- `failed` is the exit of `error_at` or `error_tok`; `overrun` is a read or a write past the text's
-- terminating NUL, which C leaves undefined.
use chibicc.Common.{◌≡◌, refl}

pub data Result {ℓ} (X : Type ℓ) : Type ℓ where
  failed overrun out_of_fuel : Result X
  ok : X → Result X

infixl 5 ◌>>=◌
abbrev pub ◌>>=◌ {ℓ κ} : {X : Type ℓ} {Y : Type κ} → Result X → (X → Result Y) → Result Y
failed >>= next = failed
overrun >>= next = overrun
out_of_fuel >>= next = out_of_fuel
ok x >>= next = next x

pub ok_inj {ℓ} : {X : Type ℓ} {x y : X} → ok x ≡ ok y → x ≡ y
ok_inj e = cc

-- A result comes from both parts.
pub bind-ok_inv {ℓ κ} :
    {X : Type ℓ} {Y : Type κ} (r : Result X) (next : X → Result Y) {y : Y}
    → r >>= next ≡ ok y
    → (x : X) × (r ≡ ok x) × (next x ≡ ok y)
bind-ok_inv failed next e = absurd cc
bind-ok_inv overrun next e = absurd cc
bind-ok_inv out_of_fuel next e = absurd cc
bind-ok_inv (ok x) next e = (x, refl, e)

pub bind_assoc {ℓ κ} :
    {X : Type ℓ} {Y Z : Type κ} (r : Result X) (f : X → Result Y) (g : Y → Result Z)
    → (r >>= f) >>= g ≡ r >>= (λ x. f x >>= g)
bind_assoc failed f g = refl
bind_assoc overrun f g = refl
bind_assoc out_of_fuel f g = refl
bind_assoc (ok x) f g = refl

pub bind_ext {ℓ κ} :
    {X : Type ℓ} {Y : Type κ} (r : Result X) (f g : X → Result Y)
    → ((x : X) → f x ≡ g x)
    → r >>= f ≡ r >>= g
bind_ext failed f g h = refl
bind_ext overrun f g h = refl
bind_ext out_of_fuel f g h = refl
bind_ext (ok x) f g h = h x
