-- ===== src/Pool/Loop.antt =====
-- The loop of `Pick`: which account it leaves in `best`, and what the charge does to it.
use cli_relay.Prelude.{
  ℕ, suc, ◌+◌, false, none, some, List, [], ◌∷◌, ◌++◌, map, ◌≡◌, ◌≢◌, inl, inr, refl, ap, ◌∙◌,
  arith, Bool-cases, length, All,
}
use cli_relay.Prelude.Int.{ℤ, pos, ◌-ℤ◌, ◌≤ℤ◌, ◌<ℤ◌, ltb_ℤ, eqb_ℤ, int64}
use cli_relay.Pool.{WeightedAccount, AccountPool, Best, advance, scan, charge, pick}

abbrev pub advance_all : List WeightedAccount → List WeightedAccount
advance_all = map advance

abbrev pub AtMost : ℤ → List WeightedAccount → Type 0
AtMost v = All (λ a. a.current_weight ≤ℤ v)

abbrev pub Below : ℤ → List WeightedAccount → Type 0
Below v = All (λ a. a.current_weight <ℤ v)

scan-advance_all :
    (i : ℕ) (best : Best) (accounts : List WeightedAccount)
    → (scan i best accounts).0 ≡ advance_all accounts
unfolding scan
scan-advance_all i best [] = refl
scan-advance_all i best (a ∷ rest) = ap (◌∷◌ (advance a)) (scan-advance_all (suc i) _ rest)

-- An account of the list, the accounts before it and those behind it.
pub record Split (accounts : List WeightedAccount) : Type 0 where
  pub before : List WeightedAccount
  pub chosen : WeightedAccount
  pub behind : List WeightedAccount
  pub joined : accounts ≡ before ++ chosen ∷ behind

abbrev prepend :
    (a : WeightedAccount) {accounts : List WeightedAccount} → Split accounts → Split (a ∷ accounts)
prepend a s = record {
  before = a ∷ s.before;
  chosen = s.chosen;
  behind = s.behind;
  joined = ap (◌∷◌ a) s.joined;
}

-- What the loop makes of a `best` that it starts with: it keeps it, or finds the first account with
-- the greatest weight above it.
data Improved (i k : ℕ) (v : ℤ) (accounts : List WeightedAccount) : Best → Type 0 where
  kept : AtMost v accounts → Improved i k v accounts (some (k, v))
  found :
      (s : Split accounts) {best : Best}
      → best ≡ some (i + length s.before, s.chosen.current_weight)
      → v <ℤ s.chosen.current_weight
      → Below s.chosen.current_weight s.before
      → AtMost s.chosen.current_weight accounts
      → Improved i k v accounts best

Below-AtMost :
    (v w : ℤ) (accounts : List WeightedAccount) → v ≤ℤ w → AtMost v accounts → AtMost w accounts
Below-AtMost v w [] le h = tt
Below-AtMost v w (a ∷ rest) le (x, h) = (omega arith, Below-AtMost v w rest le h)

Improved-higher :
    (i k : ℕ) (v : ℤ) (b : WeightedAccount) (accounts : List WeightedAccount) (best : Best)
    → v <ℤ b.current_weight
    → Improved (suc i) i b.current_weight accounts best
    → Improved i k v (b ∷ accounts) best
Improved-higher i k v b accounts best h (kept m) =
    found (record { before = []; chosen = b; behind = accounts; joined = refl }) (ground arith) h tt
      (omega arith, m)
Improved-higher i k v b accounts best h (found s e up below m) =
    found (prepend b s) (ground arith) (omega arith) (up, below) (omega arith, m)

Improved-lower :
    (i k : ℕ) (v : ℤ) (b : WeightedAccount) (accounts : List WeightedAccount) (best : Best)
    → b.current_weight ≤ℤ v
    → Improved (suc i) k v accounts best
    → Improved i k v (b ∷ accounts) best
Improved-lower i k v b accounts best h (kept m) = kept (h, m)
Improved-lower i k v b accounts best h (found s e up below m) =
    found (prepend b s) (ground arith) up (omega arith, below) (omega arith, m)

scan-Improved :
    (i k : ℕ) (v : ℤ) (accounts : List WeightedAccount)
    → Improved i k v (advance_all accounts) (scan i (some (k, v)) accounts).1
unfolding scan
scan-Improved i k v [] = kept tt
scan-Improved i k v (a ∷ rest) =
    let b = advance a in
    elim (Bool-cases (ltb_ℤ v b.current_weight)) [
      | inl higher ↦ rw higher (
          Improved-higher i k v b (advance_all rest) _ (ground arith)
            (scan-Improved (suc i) i b.current_weight rest))
      | inr lower ↦ rw lower (
          Improved-lower i k v b (advance_all rest) _ (ground arith)
            (scan-Improved (suc i) k v rest))
    ]

abbrev pub charged : ℤ → WeightedAccount → WeightedAccount
charged total a = record a { current_weight = int64 (a.current_weight -ℤ total) }

charge-split :
    (total : ℤ) (before : List WeightedAccount) (a : WeightedAccount)
    (behind : List WeightedAccount)
    → charge (length before) total (before ++ a ∷ behind)
      ≡ (before ++ charged total a ∷ behind, some a.account)
unfolding charge
charge-split total [] a behind = refl
charge-split total (b ∷ before) a behind =
    ap (λ r. (b ∷ r.0, r.1)) (charge-split total before a behind)

-- What `Pick` does where the total weight is not zero: every account advances, and the first of
-- those with the greatest current weight is charged the total and returned.
pub record Picked (p : AccountPool) : Type 0 where
  pub split : Split (advance_all p.accounts)
  pub first : Below split.chosen.current_weight split.before
  pub greatest : AtMost split.chosen.current_weight (advance_all p.accounts)
  pub result : pick p ≡ (
    record p { accounts = split.before ++ charged p.total_weight split.chosen ∷ split.behind },
    some split.chosen.account,
  )

record Chosen (accounts : List WeightedAccount) (best : Best) : Type 0 where
  split : Split (advance_all accounts)
  place : best ≡ some (length split.before, split.chosen.current_weight)
  first : Below split.chosen.current_weight split.before
  greatest : AtMost split.chosen.current_weight (advance_all accounts)

Chosen-from :
    (a : WeightedAccount) (rest : List WeightedAccount) (best : Best)
    → Improved 1 0 (advance a).current_weight (advance_all rest) best
    → Chosen (a ∷ rest) best
Chosen-from a rest best (kept m) = record {
  split = record { before = []; chosen = advance a; behind = advance_all rest; joined = refl };
  place = refl;
  first = tt;
  greatest = (omega arith, m);
}
Chosen-from a rest best (found s e up below m) = record {
  split = prepend (advance a) s;
  place = ground arith;
  first = (up, below);
  greatest = (omega arith, m);
}

scan-Chosen :
    (accounts : List WeightedAccount) → accounts ≢ [] → Chosen accounts (scan 0 none accounts).1
unfolding scan
scan-Chosen [] h = absurd (h refl)
scan-Chosen (a ∷ rest) h = Chosen-from a rest _ (scan-Improved 1 0 (advance a).current_weight rest)

eqb_ℤ-false : (a : ℤ) → a ≢ pos 0 → eqb_ℤ a (pos 0) ≡ false
eqb_ℤ-false a h = ground arith

pick-Chosen :
    (p : AccountPool) (advanced : List WeightedAccount) (k : ℕ) (v : ℤ)
    → p.total_weight ≢ pos 0
    → (scan 0 none p.accounts).0 ≡ advanced
    → (scan 0 none p.accounts).1 ≡ some (k, v)
    → pick p ≡ (
      record p { accounts = (charge k p.total_weight advanced).0 },
      (charge k p.total_weight advanced).1,
    )
unfolding pick
pick-Chosen p advanced k v h e f = rw (eqb_ℤ-false p.total_weight h, f, e)

-- Where the total weight is not zero and there is an account, `Pick` returns one.
pub pick_lem : (p : AccountPool) → p.total_weight ≢ pos 0 → p.accounts ≢ [] → Picked p
pick_lem p h ne =
    let c = scan-Chosen p.accounts ne in
    record {
      split = c.split;
      first = c.first;
      greatest = c.greatest;
      result =
          pick-Chosen p _ _ _ h (scan-advance_all 0 none p.accounts ∙ c.split.joined) c.place
          ∙ ap (λ r. (record p { accounts = r.0 }, r.1))
              (charge-split p.total_weight c.split.before c.split.chosen c.split.behind);
    }
