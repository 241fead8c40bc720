-- ===== src/Pool/Sums.antt =====
-- The accounts of a pool of internal/relay/pool.go: the sums of their weights, and the bounds under
-- which advancing them does not overflow.
use cli_relay.Prelude.{◌^◌, ◌-◌, List, [], ◌∷◌, ◌++◌, ◌≡◌, refl, ap, ◌∙◌, arith, All}
use cli_relay.Prelude.Int.{
  ℤ, pos, pos_part, neg_part, ◌+ℤ◌, ◌-ℤ◌, ◌≤ℤ◌, ◌<ℤ◌, int64, int64_id, int_laws, +ℤ_parts,
}
use cli_relay.Pool.{WeightedAccount, AccountPool, initial_weight}
use cli_relay.Pool.Loop.{advance_all, AtMost}

abbrev pub sum_current : List WeightedAccount → ℤ
sum_current [] = pos 0
sum_current (a ∷ rest) = a.current_weight +ℤ sum_current rest

abbrev pub sum_weight : List WeightedAccount → ℤ
sum_weight [] = pos 0
sum_weight (a ∷ rest) = a.weight +ℤ sum_weight rest

-- The total weight, once for each account.
abbrev pub capacity : ℤ → List WeightedAccount → ℤ
capacity total [] = pos 0
capacity total (a ∷ rest) = total +ℤ capacity total rest

-- One account of a balanced pool. The last part says what its weight was built from.
abbrev pub IsSound : ℤ → ℤ → WeightedAccount → Type 0
IsSound now total a =
    (pos 0 ≤ℤ a.weight)
    × (a.weight ≡ pos 0 → a.current_weight ≤ℤ pos 0)
    × (pos 0 <ℤ a.current_weight +ℤ total)
    × (a.weight ≡ initial_weight a.account now)

pub record IsBalanced (now : ℤ) (p : AccountPool) : Type 0 where
  pub sound : All (IsSound now p.total_weight) p.accounts
  pub sum_zero : sum_current p.accounts ≡ pos 0
  pub sum_total : sum_weight p.accounts ≡ p.total_weight
  pub positive : pos 0 <ℤ p.total_weight
  pub roomy : p.total_weight +ℤ capacity p.total_weight p.accounts ≤ℤ pos (2 ^ 63 - 1)

regroup : (a b c d : ℤ) → a +ℤ b +ℤ (c +ℤ d) ≡ a +ℤ c +ℤ (b +ℤ d)
regroup a b c d = omega int_laws

idle_stays : (c w : ℤ) → w ≡ pos 0 → c ≤ℤ pos 0 → c +ℤ w ≤ℤ pos 0
idle_stays c w e h = omega (arith, +ℤ_parts, ap pos_part e, ap neg_part e)

-- Advancing the account does not overflow.
abbrev pub Exact : WeightedAccount → Type 0
Exact a = int64 (a.current_weight +ℤ a.weight) ≡ a.current_weight +ℤ a.weight

module _ (now total : ℤ) (positive : pos 0 <ℤ total) where
  pub sum-capacity :
      (accounts : List WeightedAccount)
      → All (IsSound now total) accounts
      → pos 0 ≤ℤ sum_current accounts +ℤ capacity total accounts
  sum-capacity [] h = omega int_laws
  sum-capacity (a ∷ rest) (h, hs) = let ih = sum-capacity rest hs in omega int_laws

  pub AtMost-mono :
      (v w : ℤ) (accounts : List WeightedAccount) → v ≤ℤ w → AtMost v accounts → AtMost w accounts
  AtMost-mono v w [] le h = tt
  AtMost-mono v w (a ∷ rest) le (x, h) = (omega arith, AtMost-mono v w rest le h)

  -- No current weight exceeds their sum by more than the total for each account.
  pub current-le :
      (accounts : List WeightedAccount)
      → All (IsSound now total) accounts
      → AtMost (sum_current accounts +ℤ capacity total accounts) accounts
  current-le [] h = tt
  current-le (a ∷ rest) (h, hs) =
      let low = sum-capacity rest hs in
      (
        omega int_laws,
        AtMost-mono (sum_current rest +ℤ capacity total rest) _ rest (omega int_laws)
            (current-le rest hs),
      )

  sum_weight-nonneg :
      (accounts : List WeightedAccount)
      → All (IsSound now total) accounts
      → pos 0 ≤ℤ sum_weight accounts
  sum_weight-nonneg [] h = omega arith
  sum_weight-nonneg (a ∷ rest) (h, hs) = let ih = sum_weight-nonneg rest hs in omega int_laws

  -- Under a bound on the current weights and on the sum of the weights every account is exact.
  pub advance-Exact :
      (bound : ℤ) (accounts : List WeightedAccount)
      → All (IsSound now total) accounts
      → AtMost bound accounts
      → bound +ℤ sum_weight accounts ≤ℤ pos (2 ^ 63 - 1)
      → total ≤ℤ pos (2 ^ 63 - 1)
      → All Exact accounts
  advance-Exact bound [] h m fit small = tt
  advance-Exact bound (a ∷ rest) (h, hs) (m, ms) fit small =
      let later = sum_weight-nonneg rest hs in
      (
        int64_id (a.current_weight +ℤ a.weight) (omega int_laws),
        advance-Exact bound rest hs ms (omega int_laws) small,
      )

  pub sum_current-advance_all :
      (accounts : List WeightedAccount)
      → All Exact accounts
      → sum_current (advance_all accounts) ≡ sum_current accounts +ℤ sum_weight accounts
  sum_current-advance_all [] h = omega int_laws
  sum_current-advance_all (a ∷ rest) (e, es) = rw e (
      ap (λ s. a.current_weight +ℤ a.weight +ℤ s) (sum_current-advance_all rest es)
      ∙ regroup a.current_weight a.weight (sum_current rest) (sum_weight rest))

  pub advance_all-IsSound :
      (accounts : List WeightedAccount)
      → All Exact accounts
      → All (IsSound now total) accounts
      → All (IsSound now total) (advance_all accounts)
  advance_all-IsSound [] e h = tt
  advance_all-IsSound (a ∷ rest) (e, es) ((w, i, l, b), hs) = (
    (w, rw e (λ z. idle_stays a.current_weight a.weight z (i z)), rw e (omega int_laws), b),
    advance_all-IsSound rest es hs,
  )

  pub sum_current-le :
      (v : ℤ) (accounts : List WeightedAccount)
      → v ≤ℤ pos 0
      → AtMost v accounts
      → sum_current accounts ≤ℤ pos 0
  sum_current-le v [] h m = omega arith
  sum_current-le v (a ∷ rest) h (m, ms) = let ih = sum_current-le v rest h ms in omega int_laws

pub All-split {ℓ κ} :
    {A : Type ℓ} (P : A → Type κ) (xs : List A) (a : A) (ys : List A)
    → All P (xs ++ a ∷ ys)
    → All P xs × P a × All P ys
All-split P [] a ys (p, h) = (tt, p, h)
All-split P (x ∷ xs) a ys (q, h) = let (hx, p, hy) = All-split P xs a ys h in ((q, hx), p, hy)

pub All-join {ℓ κ} :
    {A : Type ℓ} (P : A → Type κ) (xs : List A) (a : A) (ys : List A)
    → All P xs
    → P a
    → All P ys
    → All P (xs ++ a ∷ ys)
All-join P [] a ys hx p hy = (p, hy)
All-join P (x ∷ xs) a ys (q, hx) p hy = (q, All-join P xs a ys hx p hy)

-- A change of one account changes the sum by as much.
pub sum_current-replace :
    (before : List WeightedAccount) (a b : WeightedAccount) (behind : List WeightedAccount) (d : ℤ)
    → b.current_weight ≡ a.current_weight -ℤ d
    → sum_current (before ++ b ∷ behind) ≡ sum_current (before ++ a ∷ behind) -ℤ d
sum_current-replace [] a b behind d e = rw e (omega int_laws)
sum_current-replace (x ∷ before) a b behind d e =
    let ih = sum_current-replace before a b behind d e in rw ih (omega int_laws)

pub sum_weight-replace :
    (before : List WeightedAccount) (a b : WeightedAccount) (behind : List WeightedAccount)
    → b.weight ≡ a.weight
    → sum_weight (before ++ b ∷ behind) ≡ sum_weight (before ++ a ∷ behind)
sum_weight-replace [] a b behind e = rw e
sum_weight-replace (x ∷ before) a b behind e = rw (sum_weight-replace before a b behind e)

pub capacity-replace :
    (t : ℤ) (before : List WeightedAccount) (a b : WeightedAccount) (behind : List WeightedAccount)
    → capacity t (before ++ b ∷ behind) ≡ capacity t (before ++ a ∷ behind)
capacity-replace t [] a b behind = refl
capacity-replace t (x ∷ before) a b behind = rw (capacity-replace t before a b behind)

pub sum_weight-advance_all :
    (accounts : List WeightedAccount) → sum_weight (advance_all accounts) ≡ sum_weight accounts
sum_weight-advance_all [] = refl
sum_weight-advance_all (a ∷ rest) = ap (◌+ℤ◌ a.weight) (sum_weight-advance_all rest)

pub capacity-advance_all :
    (t : ℤ) (accounts : List WeightedAccount)
    → capacity t (advance_all accounts) ≡ capacity t accounts
capacity-advance_all t [] = refl
capacity-advance_all t (a ∷ rest) = ap (◌+ℤ◌ t) (capacity-advance_all t rest)
