-- ===== src/Prelude/Results.antt =====
-- Go's `(value, error)` results. An error is its message, which is all that the program reads of it.
use cli_relay.Prelude.{String, Bool, true, false, ◌≡◌, ◌⊎◌, inl, inr, refl, ap}

pub data Result {ℓ} (Value : Type ℓ) : Type ℓ where
  err : String → Result Value
  ok : Value → Result Value

infixl 5 ◌>>=◌
-- `if err != nil { return err }` between two calls.
abbrev pub ◌>>=◌ {ℓ κ} :
    {Value : Type ℓ} {Next : Type κ} → Result Value → (Value → Result Next) → Result Next
err message >>= next = err message
ok value >>= next = next value

-- `if !test { return errors.New(message) }`
abbrev pub guard : Bool → String → Result (Unit {0})
guard false message = err message
guard true message = ok tt

infixl 5 ◌>>◌
abbrev pub ◌>>◌ {ℓ} : {Next : Type ℓ} → Result (Unit {0}) → Result Next → Result Next
test >> next = test >>= λ passed. next

pub Result-cases {ℓ} :
    {Value : Type ℓ} (r : Result Value)
    → ((message : String) × (r ≡ err message)) ⊎ ((value : Value) × (r ≡ ok value))
Result-cases (ok value) = inr (value, refl)
Result-cases (err message) = inl (message, refl)

abbrev value_or {ℓ} : {Value : Type ℓ} → Value → Result Value → Value
value_or other (err message) = other
value_or other (ok value) = value

pub ok_inj {ℓ} : {Value : Type ℓ} {a b : Value} → ok a ≡ ok b → a ≡ b
ok_inj {a} e = ap (value_or a) e

-- What a result was built from.
pub >>=-ok {ℓ κ} :
    {Value : Type ℓ} {Next : Type κ} (r : Result Value) (f : Value → Next) (next : Next)
    → (r >>= λ value. ok (f value)) ≡ ok next
    → (value : Value) × (r ≡ ok value) × (f value ≡ next)
>>=-ok (ok value) f next e = (value, refl, ok_inj e)
>>=-ok (err message) f next e = cc

abbrev pub is_ok {ℓ} : {Value : Type ℓ} → Result Value → Bool
is_ok (err message) = false
is_ok (ok value) = true
