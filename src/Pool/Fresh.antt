-- ===== src/Pool/Fresh.antt =====
-- A pool as `NewAccountPool` builds it, picked from any number of times.
use cli_relay.Prelude.{
  ℕ, zero, suc, ◌^◌, ◌-◌, true, false, Option, some, List, [], ◌∷◌, ◌≡◌, refl, ap, ◌∙◌, arith, All,
}
use cli_relay.Prelude.Int.{ℤ, pos, ◌+ℤ◌, ◌≤ℤ◌, ◌<ℤ◌, int64_id, int_laws}
use cli_relay.Db.{Account}
use cli_relay.Pool.{
  WeightedAccount, AccountPool, weigh, weigh_all, initial_weight, is_cooling, new_account_pool,
  pick,
}
use cli_relay.Pool.Sums.{IsSound, IsBalanced, sum_current, sum_weight, capacity}
use cli_relay.Pool.Balance.{pick-IsBalanced, pick_usable}

-- The weights of the accounts that can be used at `now`, added up.
abbrev pub usable_weight : List Account → ℤ → ℤ
usable_weight [] now = pos 0
usable_weight (acc ∷ accs) now = initial_weight acc now +ℤ usable_weight accs now

abbrev pub times_length : ℤ → List Account → ℤ
times_length total [] = pos 0
times_length total (acc ∷ accs) = total +ℤ times_length total accs

-- Weights are not negative, some account can be used, and the total weight, once more than there
-- are accounts, fits an `int`.
pub record IsReasonable (accounts : List Account) (now : ℤ) : Type 0 where
  pub nonneg : All (λ acc. pos 0 ≤ℤ acc.weight) accounts
  pub positive : pos 0 <ℤ usable_weight accounts now
  pub roomy :
      usable_weight accounts now +ℤ times_length (usable_weight accounts now) accounts
      ≤ℤ pos (2 ^ 63 - 1)

abbrev pub weighed : List Account → ℤ → List WeightedAccount
weighed [] now = []
weighed (acc ∷ accs) now = weigh now acc ∷ weighed accs now

pub initial_weight-nonneg :
    (acc : Account) (now : ℤ) → pos 0 ≤ℤ acc.weight → pos 0 ≤ℤ initial_weight acc now
unfolding initial_weight
initial_weight-nonneg acc now h = ground arith

usable_weight-nonneg :
    (accounts : List Account) (now : ℤ)
    → All (λ acc. pos 0 ≤ℤ acc.weight) accounts
    → pos 0 ≤ℤ usable_weight accounts now
usable_weight-nonneg [] now h = omega arith
usable_weight-nonneg (acc ∷ accs) now (h, hs) =
    let ih = usable_weight-nonneg accs now hs in
    let this = initial_weight-nonneg acc now h in omega int_laws

weigh_all-accounts :
    (accounts : List Account) (now total : ℤ)
    → (weigh_all accounts now total).0 ≡ weighed accounts now
unfolding weigh_all
weigh_all-accounts [] now total = refl
weigh_all-accounts (acc ∷ accs) now total = ap (◌∷◌ (weigh now acc)) (weigh_all-accounts accs now _)

weigh_all-total :
    (accounts : List Account) (now total : ℤ)
    → All (λ acc. pos 0 ≤ℤ acc.weight) accounts
    → pos 0 ≤ℤ total
    → total +ℤ usable_weight accounts now ≤ℤ pos (2 ^ 63 - 1)
    → (weigh_all accounts now total).1 ≡ total +ℤ usable_weight accounts now
unfolding weigh_all
weigh_all-total [] now total h t fit = omega int_laws
weigh_all-total (acc ∷ accs) now total (h, hs) t fit =
    let this = initial_weight-nonneg acc now h in
    let later = usable_weight-nonneg accs now hs in
    rw (int64_id (total +ℤ initial_weight acc now) (omega int_laws)) (
      weigh_all-total accs now (total +ℤ initial_weight acc now) hs (omega int_laws)
        (omega int_laws)
      ∙ omega int_laws)

module _ (now total : ℤ) (positive : pos 0 <ℤ total) where
  weighed-IsSound :
      (accounts : List Account)
      → All (λ acc. pos 0 ≤ℤ acc.weight) accounts
      → All (IsSound now total) (weighed accounts now)
  weighed-IsSound [] h = tt
  weighed-IsSound (acc ∷ accs) (h, hs) = (
    (initial_weight-nonneg acc now h, (λ _. omega arith), omega int_laws, refl),
    weighed-IsSound accs hs,
  )

weighed-sum_current :
    (accounts : List Account) (now : ℤ) → sum_current (weighed accounts now) ≡ pos 0
weighed-sum_current [] now = refl
weighed-sum_current (acc ∷ accs) now = rw (weighed-sum_current accs now) (omega int_laws)

weighed-sum_weight :
    (accounts : List Account) (now : ℤ)
    → sum_weight (weighed accounts now) ≡ usable_weight accounts now
weighed-sum_weight [] now = refl
weighed-sum_weight (acc ∷ accs) now = rw (weighed-sum_weight accs now)

weighed-capacity :
    (total : ℤ) (accounts : List Account) (now : ℤ)
    → capacity total (weighed accounts now) ≡ times_length total accounts
weighed-capacity total [] now = refl
weighed-capacity total (acc ∷ accs) now = rw (weighed-capacity total accs now)

module _ (accounts : List Account) (now : ℤ) (r : IsReasonable accounts now) where
  times_length-nonneg :
      (accs : List Account) → pos 0 ≤ℤ times_length (usable_weight accounts now) accs
  times_length-nonneg [] = omega arith
  times_length-nonneg (acc ∷ accs) =
      let ih = times_length-nonneg accs in let h = r.positive in omega int_laws

  pub new_account_pool-total :
      (new_account_pool accounts now).total_weight ≡ usable_weight accounts now
  unfolding new_account_pool
  new_account_pool-total =
      let more = times_length-nonneg accounts in
      let room = r.roomy in
      weigh_all-total accounts now (pos 0) r.nonneg (omega arith) (omega int_laws) ∙ omega int_laws

  pub new_account_pool-accounts : (new_account_pool accounts now).accounts ≡ weighed accounts now
  unfolding new_account_pool
  new_account_pool-accounts = weigh_all-accounts accounts now (pos 0)

  pub new_account_pool-IsBalanced : IsBalanced now (new_account_pool accounts now)
  new_account_pool-IsBalanced = record {
    sound =
        rw (new_account_pool-total, new_account_pool-accounts)
          (weighed-IsSound now (usable_weight accounts now) r.positive accounts r.nonneg);
    sum_zero = rw new_account_pool-accounts (weighed-sum_current accounts now);
    sum_total =
        rw (new_account_pool-total, new_account_pool-accounts) (weighed-sum_weight accounts now);
    positive = rw new_account_pool-total r.positive;
    roomy =
        rw (new_account_pool-total, new_account_pool-accounts)
          (rw (weighed-capacity (usable_weight accounts now) accounts now) r.roomy);
  }

unfoldable pub picks : ℕ → AccountPool → AccountPool × List (Option Account)
picks zero p = (p, [])
picks (suc n) p =
    let (q, found) = pick p in let (last, founds) = picks n q in (last, found ∷ founds)

-- A result of `Pick` that can serve a request.
abbrev pub IsUsable : ℤ → Option Account → Type 0
IsUsable now found =
    (acc : Account) × (found ≡ some acc)
    × (acc.enabled ≡ true)
    × (is_cooling acc.cooldown_until now ≡ false)
    × (pos 0 <ℤ acc.weight)

initial_weight-positive :
    (acc : Account) (now : ℤ)
    → pos 0 <ℤ initial_weight acc now
    → (acc.enabled ≡ true) × (is_cooling acc.cooldown_until now ≡ false) × (pos 0 <ℤ acc.weight)
unfolding initial_weight
initial_weight-positive acc now h = ground arith

pub picks-IsBalanced :
    (n : ℕ) (now : ℤ) (p : AccountPool) → IsBalanced now p → IsBalanced now (picks n p).0
unfolding picks
picks-IsBalanced zero now p b = b
picks-IsBalanced (suc n) now p b = picks-IsBalanced n now (pick p).0 (pick-IsBalanced now p b)

picks-IsUsable :
    (n : ℕ) (now : ℤ) (p : AccountPool) → IsBalanced now p → All (IsUsable now) (picks n p).1
unfolding picks
picks-IsUsable zero now p b = tt
picks-IsUsable (suc n) now p b =
    let (acc, same, weight) = pick_usable now p b in
    let (enabled, rested, heavy) = initial_weight-positive acc now weight in
    ((acc, same, enabled, rested, heavy), picks-IsUsable n now (pick p).0 (pick-IsBalanced now p b))

-- However often a new pool of accounts with reasonable weights is picked from while no account
-- cools down, each pick returns an account that was enabled, out of its cooldown and of positive
-- weight when the pool was built.
pub picks-new_account_pool :
    (n : ℕ) (accounts : List Account) (now : ℤ)
    → IsReasonable accounts now
    → All (IsUsable now) (picks n (new_account_pool accounts now)).1
picks-new_account_pool n accounts now r =
    picks-IsUsable n now (new_account_pool accounts now)
      (new_account_pool-IsBalanced accounts now r)
