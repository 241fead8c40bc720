-- ===== src/Prelude/Search.antt =====
-- The element that `find` answers.
use mathlib.Core.Bool.{Bool, true}
use mathlib.Core.List.{List, [], ◌∷◌}
use mathlib.Core.Option.{some}
use mathlib.Core.Path.{◌≡◌, subst}
use mathlib.Core.Logic.{inl, inr}
use cli_relay.Prelude.Lists.{find, All}
use cli_relay.Prelude.Tests.{Bool-cases, some_inj}

pub find-true {ℓ} :
    {A : Type ℓ} (p : A → Bool) (xs : List A) (x : A) → find p xs ≡ some x → p x ≡ true
find-true p [] x e = cc
find-true p (y ∷ ys) x e = elim (Bool-cases (p y)) [
  | inl h ↦ let same : y ≡ x = some_inj (rw h at e) in subst (λ z. p z ≡ true) same h
  | inr h ↦ find-true p ys x (rw h at e)
]

pub find-All {ℓ κ} :
    {A : Type ℓ} (P : A → Type κ) (p : A → Bool) (xs : List A) (x : A)
    → All P xs
    → find p xs ≡ some x
    → P x
find-All P p [] x h e = cc
find-All P p (y ∷ ys) x (h, hs) e = elim (Bool-cases (p y)) [
  | inl here ↦ let same : y ≡ x = some_inj (rw here at e) in subst P same h
  | inr there ↦ find-All P p ys x hs (rw there at e)
]
