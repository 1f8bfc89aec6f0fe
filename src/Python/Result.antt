-- ===== src/Python/Result.antt =====
-- A call that returns a value or raises an exception.
use bedjet_local.Prelude.{◌≡◌, refl, Bool, true, false}

pub data Result {ℓ} (E : Type ℓ) (A : Type ℓ) : Type ℓ where
  ok : A → Result E A
  err : E → Result E A

module _ {ℓ} {E : Type ℓ} where
  infixl 5 ◌>>=◌ ◌>>◌
  abbrev pub ◌>>=◌ : {A B : Type ℓ} → Result E A → (A → Result E B) → Result E B
  ok value >>= rest = rest value
  err raised >>= rest = err raised

  abbrev pub ◌>>◌ : {A B : Type ℓ} → Result E A → Result E B → Result E B
  first >> second = first >>= λ _. second

  -- `raise ... from exc`: the exception is replaced, a value passes.
  abbrev pub map_err : {F A : Type ℓ} → (E → F) → Result E A → Result F A
  map_err wrap (ok value) = ok value
  map_err wrap (err raised) = err (wrap raised)

  -- A chain returns only what its last call returned, all earlier ones having returned.
  pub returned :
      {A B : Type ℓ} {b : B} (x : Result E A) {rest : A → Result E B}
      → (x >>= rest) ≡ ok b
      → (value : A) × (x ≡ ok value) × (rest value ≡ ok b)
  returned (ok value) from = (value, refl, from)
  returned (err raised) from = cc

-- `if not test: raise e`
abbrev pub require : {E : Type 0} → Bool → E → Result E (Unit {0})
require test e = elim test [ true ↦ ok tt | false ↦ err e ]

pub require_passed :
    {E B : Type 0} {b : B} (test : Bool) (e : E) {rest : Result E B}
    → (require test e >> rest) ≡ ok b
    → (test ≡ true) × (rest ≡ ok b)
require_passed true e after = (refl, after)
require_passed false e after = cc
