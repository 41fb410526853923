-- ===== src/Core/Error.antt =====
-- `MsgbusError`, the results of fallible code, and the chains of `?`.
use msgbus.Prelude.{◌≡◌, ◌⊎◌, inl, inr, refl, ◌++◌}
use msgbus.Text.{Str, codes}

pub data MsgbusError : Type 0 where
  invalid_argument not_found conflict storage serialization : Str → MsgbusError

-- the texts of `thiserror`
unfoldable pub to_string : MsgbusError → Str
to_string (invalid_argument text) = codes "invalid argument: " ++ text
to_string (not_found text) = codes "not found: " ++ text
to_string (conflict text) = codes "conflict: " ++ text
to_string (storage text) = codes "storage error: " ++ text
to_string (serialization text) = codes "serialization error: " ++ text

-- `std::result::Result` with its type of errors
pub data Outcome {ℓ} (E : Type 0) (A : Type ℓ) : Type ℓ where
  err : E → Outcome E A
  ok : A → Outcome E A

-- `msgbus_core::Result`
abbrev pub Result {ℓ} : Type ℓ → Type ℓ
Result = Outcome MsgbusError

-- `?` leaves the rest of a function at an error.
infixl 5 ◌>>=◌ ◌>>◌
abbrev pub ◌>>=◌ {ℓ κ} :
    {E : Type 0} {A : Type ℓ} {B : Type κ} → Outcome E A → (A → Outcome E B) → Outcome E B
err failure >>= rest = err failure
ok value >>= rest = rest value

-- The check in front of a chain.
abbrev pub ◌>>◌ {ℓ} : {E : Type 0} {B : Type ℓ} → Outcome E (Unit {0}) → Outcome E B → Outcome E B
check >> rest = check >>= λ done. rest

-- A chain that succeeds took its first step.
pub >>=-eq-ok {ℓ κ} :
    {E : Type 0} {A : Type ℓ} {B : Type κ} (first : Outcome E A) (rest : A → Outcome E B)
    {result : B}
    → (first >>= rest) ≡ ok result
    → (value : A) × (first ≡ ok value) × (rest value ≡ ok result)
>>=-eq-ok (err failure) rest whole = cc
>>=-eq-ok (ok value) rest whole = (value, refl, whole)

pub ok_injective {ℓ} :
    {E : Type 0} {A : Type ℓ} {a b : A} → ◌≡◌ {A = Outcome E A} (ok a) (ok b) → a ≡ b
ok_injective h = cc

-- What fallible code can give.
pub outcome {ℓ} :
    {E : Type 0} {A : Type ℓ} (r : Outcome E A) → ((e : E) × (r ≡ err e)) ⊎ ((a : A) × (r ≡ ok a))
outcome (err e) = inl (e, refl)
outcome (ok a) = inr (a, refl)
