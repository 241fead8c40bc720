-- ===== src/Pool/Fair.antt =====
-- A whole period of `Pick` in internal/relay/pool.go: as many picks as the total weight.
use cli_relay.Prelude.{
  ℕ, ◌<◌, Option, List, [], ◌∷◌, map, ◌≡◌, refl, sym, ap, subst, subst₂, ◌∙◌, arith, All,
}
use cli_relay.Prelude.Int.{ℤ, pos, pos_part, neg_part, ◌+ℤ◌, ◌≤ℤ◌, int_laws}
use cli_relay.Db.{Account}
use cli_relay.Pool.{WeightedAccount, AccountPool, initial_weight, new_account_pool}
use cli_relay.Pool.Sums.{IsSound, IsBalanced, sum_current}
use cli_relay.Pool.Fresh.{
  IsReasonable, usable_weight, initial_weight-nonneg, weighed, picks, picks-IsBalanced,
  new_account_pool-IsBalanced, new_account_pool-total, new_account_pool-accounts,
}
use cli_relay.Pool.Moves.{tally, times, Zip, Moved}
use cli_relay.Pool.Period.{AreDistinct, ids, picks-Moved, picks-total}
use cli_relay.Pool.Shares.{left_over, charged_exactly}

module _ (now : ℤ) (n : ℕ) (founds : List (Option Account)) (positive : 0 < n) where
  left_all :
      (xs ys : List WeightedAccount)
      → All (λ a. a.current_weight ≡ pos 0) xs
      → Zip (Moved (pos n) n founds) xs ys
      → All (IsSound now (pos n)) ys
      → All (λ a. pos 0 ≤ℤ a.current_weight) ys
  left_all [] [] z m s = tt
  left_all (a ∷ xs) (b ∷ ys) (z, zs) ((e, w, o, c), ms) (s, ss) = (
    left_over n (tally a.account.id founds) a.weight b.current_weight
        (subst (λ v. pos 0 ≤ℤ v) w s.0) (c ∙ ap (λ v. v +ℤ times n a.weight) z) s.2,
    left_all xs ys zs ms ss,
  )
  left_all xs ys z m s = ground arith

  sum_nonneg :
      (ys : List WeightedAccount)
      → All (λ a. pos 0 ≤ℤ a.current_weight) ys
      → pos 0 ≤ℤ sum_current ys
  sum_nonneg [] h = omega arith
  sum_nonneg (y ∷ ys) (h, hs) = let ih = sum_nonneg ys hs in omega int_laws

  -- Nonnegative numbers that sum to zero are zero.
  all_zero :
      (ys : List WeightedAccount)
      → All (λ a. pos 0 ≤ℤ a.current_weight) ys
      → sum_current ys ≡ pos 0
      → All (λ a. a.current_weight ≡ pos 0) ys
  all_zero [] h e = tt
  all_zero (y ∷ ys) (h, hs) e =
      let later = sum_nonneg ys hs in
      (
        omega (int_laws, ap pos_part e, ap neg_part e),
        all_zero ys hs (omega (int_laws, ap pos_part e, ap neg_part e)),
      )

  settle :
      (xs ys : List WeightedAccount)
      → All (λ a. (a.current_weight ≡ pos 0) × (pos 0 ≤ℤ a.weight)) xs
      → Zip (Moved (pos n) n founds) xs ys
      → All (λ a. a.current_weight ≡ pos 0) ys
      → All (λ a. pos (tally a.account.id founds) ≡ a.weight) xs × (ys ≡ xs)
  settle [] [] z m h = (tt, refl)
  settle (a ∷ xs) (b ∷ ys) ((z, w), zs) ((e, f, o, c), ms) (h, hs) =
      let (tallies, same) = settle xs ys zs ms hs in
      (
        (
          charged_exactly n (tally a.account.id founds) a.weight positive w (
              ap (λ v. v +ℤ times (tally a.account.id founds) (pos n)) (sym h)
              ∙ c
              ∙ ap (λ v. v +ℤ times n a.weight) z),
          tallies,
        ),
        λ i.
            record {
              account = e i;
              weight = f i;
              current_weight = (h ∙ sym z) i;
              original_weight = o i;
            }
            ∷ same i,
      )
  settle xs ys z m h = ground arith

weighed-start :
    (accounts : List Account) (now : ℤ)
    → All (λ acc. pos 0 ≤ℤ initial_weight acc now) accounts
    → All (λ a. (a.current_weight ≡ pos 0) × (pos 0 ≤ℤ a.weight)) (weighed accounts now)
weighed-start [] now h = tt
weighed-start (acc ∷ accs) now (h, hs) = ((refl, h), weighed-start accs now hs)

weighed-zero :
    (accounts : List Account) (now : ℤ) → All (λ a. a.current_weight ≡ pos 0) (weighed accounts now)
weighed-zero [] now = tt
weighed-zero (acc ∷ accs) now = (refl, weighed-zero accs now)

weighed-ids :
    (accounts : List Account) (now : ℤ) → ids (weighed accounts now) ≡ map (λ acc. acc.id) accounts
weighed-ids [] now = refl
weighed-ids (acc ∷ accs) now = ap (◌∷◌ acc.id) (weighed-ids accs now)

unweigh :
    (founds : List (Option Account)) (accounts : List Account) (now : ℤ)
    → All (λ a. pos (tally a.account.id founds) ≡ a.weight) (weighed accounts now)
    → All (λ acc. pos (tally acc.id founds) ≡ initial_weight acc now) accounts
unweigh founds [] now h = tt
unweigh founds (acc ∷ accs) now (h, hs) = (h, unweigh founds accs now hs)

module _ (n : ℕ) (accounts : List Account) (now : ℤ) (r : IsReasonable accounts now)
    (distinct : AreDistinct (map (λ acc. acc.id) accounts))
    (period : usable_weight accounts now ≡ pos n) where
  abbrev start : AccountPool
  start = new_account_pool accounts now

  start_distinct : AreDistinct (ids start.accounts)
  start_distinct = rw (new_account_pool-accounts accounts now r, weighed-ids accounts now) distinct

  usable_nonneg :
      (accs : List Account)
      → All (λ acc. pos 0 ≤ℤ acc.weight) accs
      → All (λ acc. pos 0 ≤ℤ initial_weight acc now) accs
  usable_nonneg [] h = tt
  usable_nonneg (acc ∷ accs) (h, hs) = (initial_weight-nonneg acc now h, usable_nonneg accs hs)

  period-Moved :
      Zip (Moved (pos n) n (picks n start).1) (weighed accounts now) (picks n start).0.accounts
  period-Moved =
      subst₂ (λ t xs. Zip (Moved t n (picks n start).1) xs (picks n start).0.accounts)
        (new_account_pool-total accounts now r ∙ period) (new_account_pool-accounts accounts now r)
        (picks-Moved n now start (new_account_pool-IsBalanced accounts now r) start_distinct)

  period_positive : 0 < n
  period_positive = let h = r.positive in omega (arith, ap pos_part period, ap neg_part period)

  period-IsBalanced : IsBalanced now (picks n start).0
  period-IsBalanced = picks-IsBalanced n now start (new_account_pool-IsBalanced accounts now r)

  period_zero : All (λ a. a.current_weight ≡ pos 0) (picks n start).0.accounts
  period_zero =
      all_zero now n (picks n start).1 period_positive (picks n start).0.accounts
        (left_all now n (picks n start).1 period_positive (weighed accounts now)
          (picks n start).0.accounts (weighed-zero accounts now) period-Moved
          (rw
            (← (
              picks-total n now start (new_account_pool-IsBalanced accounts now r) start_distinct
              ∙ new_account_pool-total accounts now r
              ∙ period))
            period-IsBalanced.sound))
        period-IsBalanced.sum_zero

  -- For accounts of distinct ids and reasonable weights: over as many picks as the total weight, a
  -- new pool returns each account as often as its weight says, zero times where the account was
  -- disabled or cooling, and the accounts' state is then the one that the pool was built with.
  -- Weights are reasonable if none is negative, their sum over the usable accounts is positive,
  -- and that sum, once more than there are accounts, fits 64 bits.
  pub picks_fair :
      All
        (λ acc.
          pos (tally acc.id (picks n (new_account_pool accounts now)).1) ≡ initial_weight acc now)
        accounts
      × ((picks n (new_account_pool accounts now)).0.accounts
          ≡ (new_account_pool accounts now).accounts)
  picks_fair =
      let (tallies, same) =
        settle now n (picks n start).1 period_positive (weighed accounts now)
          (picks n start).0.accounts (weighed-start accounts now (usable_nonneg accounts r.nonneg))
          period-Moved period_zero in
      (
        unweigh (picks n start).1 accounts now tallies,
        same ∙ sym (new_account_pool-accounts accounts now r),
      )
