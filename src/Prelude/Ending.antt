-- ===== src/Prelude/Ending.antt =====
-- What a call ends with: a result, or the end of the process by `ABORT_WITH_MSG`.
-- (src/common/platform/Log.hh: the macro logs, then calls `abort` or `exit`.)
use mathlib.Core.Path.{◌≡◌, refl}
use mathlib.Core.Logic.{◌⊎◌, inl, inr}

pub data Outcome {ℓ} (Value : Type ℓ) : Type ℓ where
  aborted : Outcome Value
  ok : (value : Value) → Outcome Value

-- The rest of a handler runs only if the process is still there.
infixl 5 ◌>>=◌
abbrev pub ◌>>=◌ {κ ℓ} :
    {Value : Type κ} {Next : Type ℓ} → Outcome Value → (rest : Value → Outcome Next) → Outcome Next
aborted >>= rest = aborted
ok value >>= rest = rest value

pub Outcome-cases {ℓ} :
    {Value : Type ℓ} (o : Outcome Value) → (o ≡ aborted) ⊎ ((value : Value) × (o ≡ ok value))
Outcome-cases aborted = inl refl
Outcome-cases (ok value) = inr (value, refl)

-- Inversion of a chain that returned.
pub >>=-eq-ok {κ ℓ} :
    {Value : Type κ} {Next : Type ℓ} (o : Outcome Value) (rest : Value → Outcome Next) {end : Next}
    → (o >>= rest) ≡ ok end
    → (value : Value) × (o ≡ ok value) × (rest value ≡ ok end)
>>=-eq-ok aborted rest e = cc
>>=-eq-ok (ok value) rest e = (value, refl, e)
