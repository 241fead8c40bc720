-- ===== src/Db/Queries.antt =====
-- The queries that GORM answers: the first row, a count, an update of the rows that a test selects.
use cli_relay.Prelude.{
  Bool, String, true, false, Option, none, some, List, [], ◌∷◌, find, if◌then◌else◌, ◌==◌,
}
use cli_relay.Prelude.Int.{ℤ, ltb_ℤ}
use cli_relay.Prelude.Results.{Result, ok, err}

abbrev pub not_found : String
not_found = "record not found"

abbrev pub is_not_found : String → Bool
is_not_found e = e == not_found

abbrev pub or_not_found {ℓ} : {A : Type ℓ} → Option A → Result A
or_not_found none = err not_found
or_not_found (some a) = ok a

-- `First(&row).Error`
abbrev pub first {ℓ} : {A : Type ℓ} → Bool → (A → Bool) → List A → Result A
first true p rows = err "database is unavailable"
first false p rows = or_not_found (find p rows)

-- `deleted_at IS NULL`
abbrev pub is_live : Option ℤ → Bool
is_live none = true
is_live (some t) = false

-- The first row in the order of a key that falls: `Order("key DESC").First(&row)`.
abbrev later {ℓ} : {A : Type ℓ} → (A → ℤ) → A → Option A → Option A
later key a none = some a
later key a (some b) = if ltb_ℤ (key a) (key b) then some b else some a

abbrev pub greatest {ℓ} : {A : Type ℓ} → (A → ℤ) → (A → Bool) → List A → Option A
greatest key p [] = none
greatest key p (x ∷ xs) = let rest = greatest key p xs in if p x then later key x rest else rest

abbrev pub first_by {ℓ} : {A : Type ℓ} → Bool → (A → ℤ) → (A → Bool) → List A → Result A
first_by true key p rows = err "database is unavailable"
first_by false key p rows = or_not_found (greatest key p rows)
