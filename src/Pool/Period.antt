-- ===== src/Pool/Period.antt =====
-- The current weights after `n` picks, from the weights and from how often each account was
-- returned.
use cli_relay.Prelude.{
  ℕ, zero, suc, String, false, List, [], ◌∷◌, ◌++◌, map, ◌≡◌, refl, sym, ap, subst, ◌∙◌, arith,
  ◌==◌, eq_iff, All,
}
use cli_relay.Prelude.Int.{ℤ}
use cli_relay.Pool.{WeightedAccount, AccountPool, pick}
use cli_relay.Pool.Loop.{advance_all, charged}
use cli_relay.Pool.Sums.{IsBalanced}
use cli_relay.Pool.Balance.{exact, picked, charge_fits, pick-IsBalanced}
use cli_relay.Pool.Fresh.{picks}
use cli_relay.Pool.Moves.{Charged, Lacks, Moved, Zip, Zip-suc, advance_all-Advanced, charge-Charged}

abbrev pub ids : List WeightedAccount → List String
ids = map (λ a. a.account.id)

-- No id stands twice.
abbrev pub AreDistinct : List String → Type 0
AreDistinct [] = Unit
AreDistinct (k ∷ rest) = All (λ j. (k == j) ≡ false) rest × AreDistinct rest

All-ids :
    (k : String) (xs : List WeightedAccount) → All (λ j. (k == j) ≡ false) (ids xs) → Lacks k xs
All-ids k [] h = tt
All-ids k (x ∷ xs) (h, hs) = (h, All-ids k xs hs)

middle :
    (k : String) (before : List WeightedAccount) (a : WeightedAccount)
    (behind : List WeightedAccount)
    → All (λ j. (k == j) ≡ false) (ids (before ++ a ∷ behind))
    → (k == a.account.id) ≡ false
middle k [] a behind (h, _) = h
middle k (x ∷ before) a behind (_, hs) = middle k before a behind hs

distinct_split :
    (before : List WeightedAccount) (a : WeightedAccount) (behind : List WeightedAccount)
    → AreDistinct (ids (before ++ a ∷ behind))
    → Lacks a.account.id before × Lacks a.account.id behind
distinct_split [] a behind (h, _) = (tt, All-ids a.account.id behind h)
distinct_split (x ∷ before) a behind (h, hs) =
    let (left, right) = distinct_split before a behind hs in
    let apart = middle x.account.id before a behind h in
    (
      (ground (arith, eq_iff x.account.id a.account.id, eq_iff a.account.id x.account.id), left),
      right,
    )

ids-advance_all : (xs : List WeightedAccount) → ids (advance_all xs) ≡ ids xs
ids-advance_all [] = refl
ids-advance_all (x ∷ xs) = ap (◌∷◌ x.account.id) (ids-advance_all xs)

ids-charged :
    (t : ℤ) (before : List WeightedAccount) (a : WeightedAccount) (behind : List WeightedAccount)
    → ids (before ++ charged t a ∷ behind) ≡ ids (before ++ a ∷ behind)
ids-charged t [] a behind = refl
ids-charged t (x ∷ before) a behind = ap (◌∷◌ x.account.id) (ids-charged t before a behind)

module _ (now : ℤ) (p : AccountPool) (b : IsBalanced now p)
    (distinct : AreDistinct (ids p.accounts)) where
  pick-Charged :
      Zip (Charged p.total_weight (pick p).1) (advance_all p.accounts) (pick p).0.accounts
  pick-Charged =
      let s = (picked now p b).split in
      let ds = subst AreDistinct (sym (ids-advance_all p.accounts) ∙ ap ids s.joined) distinct in
      let (l, r) = distinct_split s.before s.chosen s.behind ds in
      rw ((picked now p b).result, s.joined)
        (charge-Charged p.total_weight s.before s.chosen s.behind (charge_fits now p b) l r)

  pick-AreDistinct : AreDistinct (ids (pick p).0.accounts)
  pick-AreDistinct =
      let s = (picked now p b).split in
      rw (picked now p b).result (
        subst AreDistinct
          (sym (
            ids-charged p.total_weight s.before s.chosen s.behind
            ∙ ap ids (sym s.joined)
            ∙ ids-advance_all p.accounts))
          distinct)

  pick-total : (pick p).0.total_weight ≡ p.total_weight
  pick-total = rw (picked now p b).result

  pick-timers : (pick p).0.timers ≡ p.timers
  pick-timers = rw (picked now p b).result

Moved-zero : (total : ℤ) (xs : List WeightedAccount) → Zip (Moved total 0 []) xs xs
Moved-zero total [] = tt
Moved-zero total (x ∷ xs) = ((refl, refl, refl, refl), Moved-zero total xs)

pub picks-Moved :
    (n : ℕ) (now : ℤ) (p : AccountPool)
    → IsBalanced now p
    → AreDistinct (ids p.accounts)
    → Zip (Moved p.total_weight n (picks n p).1) p.accounts (picks n p).0.accounts
unfolding picks
picks-Moved zero now p b d = Moved-zero p.total_weight p.accounts
picks-Moved (suc n) now p b d =
    let ih = picks-Moved n now (pick p).0 (pick-IsBalanced now p b) (pick-AreDistinct now p b d) in
    Zip-suc p.total_weight n (pick p).1 (picks n (pick p).0).1 p.accounts (advance_all p.accounts)
      (pick p).0.accounts (picks n (pick p).0).0.accounts
      (advance_all-Advanced p.accounts (exact now p b)) (pick-Charged now p b d)
      (subst
        (λ t.
          Zip (Moved t n (picks n (pick p).0).1) (pick p).0.accounts
            (picks n (pick p).0).0.accounts)
        (pick-total now p b d) ih)

pub picks-total :
    (n : ℕ) (now : ℤ) (p : AccountPool)
    → IsBalanced now p
    → AreDistinct (ids p.accounts)
    → (picks n p).0.total_weight ≡ p.total_weight
unfolding picks
picks-total zero now p b d = refl
picks-total (suc n) now p b d =
    picks-total n now (pick p).0 (pick-IsBalanced now p b) (pick-AreDistinct now p b d)
    ∙ pick-total now p b d
