-- ===== src/Base/Results.antt =====
-- `Result<A, E>`, with the chain that `?` makes.
use mathlib.Core.Logic.{◌⊎◌, inl, inr}
use mathlib.Core.Option.{some}
use mathlib.Core.Path.{◌≡◌, refl}

pub data Result {ℓ} (E A : Type ℓ) : Type ℓ where
  err : E → Result E A
  ok : A → Result E A

-- A computed result is one of the two.
pub Result-cases {ℓ} :
    {E A : Type ℓ} (r : Result E A) → ((x : A) × (r ≡ ok x)) ⊎ ((e : E) × (r ≡ err e))
Result-cases (err e) = inr (e, refl)
Result-cases (ok x) = inl (x, refl)

pub ok_injective {ℓ} : {E A : Type ℓ} {x y : A} → ◌≡◌ {A = Result E A} (ok x) (ok y) → x ≡ y
ok_injective same = cc

pub some_injective {ℓ} : {A : Type ℓ} {x y : A} → some x ≡ some y → x ≡ y
some_injective same = cc

infixl 5 ◌>>=◌
abbrev pub ◌>>=◌ {ℓ} : {E A C : Type ℓ} → Result E A → (A → Result E C) → Result E C
err e >>= next = err e
ok x >>= next = next x

-- What is known of a chain that came to its end.
pub >>=-eq-ok {ℓ} :
    {E A C : Type ℓ} (r : Result E A) (next : A → Result E C) {b : C}
    → (r >>= next) ≡ ok b
    → (x : A) × (r ≡ ok x) × (next x ≡ ok b)
>>=-eq-ok (err e) next came = cc
>>=-eq-ok (ok x) next came = (x, refl, came)
