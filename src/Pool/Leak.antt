-- ===== src/Pool/Leak.antt =====
-- `Cooldown` and the next `Pick` of internal/relay/pool.go.
use cli_relay.Prelude.{
  String, false, some, List, [], ◌∷◌, ◌++◌, ◌≡◌, ◌≢◌, ◌⊎◌, inl, inr, refl, sym, ap, subst, ◌∙◌,
  arith, ◌==◌, eq_refl, All,
}
use cli_relay.Prelude.Int.{ℤ, pos, ◌+ℤ◌, ◌-ℤ◌, ◌≤ℤ◌, ◌<ℤ◌, int64}
use cli_relay.Pool.{
  WeightedAccount, AccountPool, advance, cool, cool_first, cooled_pool, cooldown, pick,
}
use cli_relay.Pool.Loop.{advance_all, AtMost, Split, pick_lem}
use cli_relay.Pool.Sums.{All-split}

-- The first account with this id can be cooled down.
pub record IsTarget (id : String) (accounts : List WeightedAccount) : Type 0 where
  pub split : Split accounts
  pub named : split.chosen.account.id ≡ id
  pub others : All (λ a. (a.account.id == id) ≡ false) split.before
  pub heavy : split.chosen.weight ≢ pos 0

cool_first-split :
    (id : String) (until : ℤ) (before : List WeightedAccount) (a : WeightedAccount)
    (behind : List WeightedAccount)
    → a.account.id ≡ id
    → All (λ x. (x.account.id == id) ≡ false) before
    → a.weight ≢ pos 0
    → cool_first id until (before ++ a ∷ behind)
      ≡ some (record {
        removed = a.weight;
        kept = a.original_weight;
        after = before ++ cool a until ∷ behind;
      })
unfolding cool_first
cool_first-split id until [] a behind e h w = ground (arith, eq_refl id, ap (λ k. k == id) e)
cool_first-split id until (x ∷ before) a behind e (h, hs) w =
    rw (h, cool_first-split id until before a behind e hs w)

cooldown_lem :
    (p : AccountPool) (id : String) (duration now : ℤ) (t : IsTarget id p.accounts)
    → cooldown p id duration now ≡ record {
      accounts = t.split.before ++ cool t.split.chosen (now +ℤ duration) ∷ t.split.behind;
      total_weight = int64 (p.total_weight -ℤ t.split.chosen.weight);
      timers =
          record {
            due = now +ℤ duration;
            account_id = id;
            restored_weight = t.split.chosen.original_weight;
          }
          ∷ p.timers;
    }
unfolding cooldown
cooldown_lem p id duration now t = ap (cooled_pool p id (now +ℤ duration)) (
    ap (cool_first id (now +ℤ duration)) t.split.joined
    ∙ cool_first-split id (now +ℤ duration) t.split.before t.split.chosen t.split.behind t.named
        t.others t.heavy)

-- A pool where one account has no weight and stands at zero, and all others advance to less.
module _ (p : AccountPool) (before behind : List WeightedAccount) (c : WeightedAccount)
    (shape : p.accounts ≡ before ++ c ∷ behind) (weighty : p.total_weight ≢ pos 0)
    (idle : (advance c).current_weight ≡ pos 0)
    (left : All (λ a. (advance a).current_weight <ℤ pos 0) before)
    (right : All (λ a. (advance a).current_weight <ℤ pos 0) behind) where
  abbrev BelowOrCooled : WeightedAccount → Type 0
  BelowOrCooled a = (a.current_weight <ℤ pos 0) ⊎ (a.account ≡ c.account)

  advanced_cases :
      (xs : List WeightedAccount)
      → All (λ a. (advance a).current_weight <ℤ pos 0) xs
      → (ys : List WeightedAccount) → All BelowOrCooled (advance_all ys)
      → All BelowOrCooled (advance_all (xs ++ ys))
  advanced_cases [] h ys k = k
  advanced_cases (x ∷ xs) (h, hs) ys k = (inl h, advanced_cases xs hs ys k)

  below_cases :
      (xs : List WeightedAccount)
      → All (λ a. (advance a).current_weight <ℤ pos 0) xs
      → All BelowOrCooled (advance_all xs)
  below_cases [] h = tt
  below_cases (x ∷ xs) (h, hs) = (inl h, below_cases xs hs)

  top_nonneg :
      (v : ℤ) (xs : List WeightedAccount) → AtMost v (advance_all (xs ++ c ∷ behind)) → pos 0 ≤ℤ v
  top_nonneg v [] (h, _) = subst (λ w. w ≤ℤ v) idle h
  top_nonneg v (x ∷ xs) (_, hs) = top_nonneg v xs hs

  nonempty : p.accounts ≢ []
  nonempty e = append_ne before (sym shape ∙ e)
    where
      append_ne : (xs : List WeightedAccount) → xs ++ c ∷ behind ≢ []
      append_ne [] e = cc
      append_ne (x ∷ xs) e = cc

  pick_cooled : (pick p).1 ≡ some c.account
  pick_cooled =
      let q = pick_lem p weighty nonempty in
      let cases =
        subst (All BelowOrCooled) (ap advance_all (sym shape) ∙ q.split.joined)
          (advanced_cases before left (c ∷ behind) (inr refl, below_cases behind right)) in
      let top =
        top_nonneg q.split.chosen.current_weight before
          (subst (λ xs. AtMost q.split.chosen.current_weight (advance_all xs)) shape q.greatest) in
      ap (λ r. r.1) q.result
      ∙ conclude q.split.chosen top
          (All-split BelowOrCooled q.split.before q.split.chosen q.split.behind cases).1
    where
      conclude :
          (a : WeightedAccount)
          → pos 0 ≤ℤ a.current_weight
          → BelowOrCooled a
          → some a.account ≡ some c.account
      conclude a top (inl below) = absurd (omega arith)
      conclude a top (inr same) = ap some same

-- Where an account is cooled down while every other account would advance to a negative current
-- weight, and some weight is left in the pool, the next `Pick` returns the account that cools
-- down.
pub cooldown_leaks :
    (p : AccountPool) (id : String) (duration now : ℤ) (t : IsTarget id p.accounts)
    → int64 (p.total_weight -ℤ t.split.chosen.weight) ≢ pos 0
    → All (λ a. (advance a).current_weight <ℤ pos 0) t.split.before
    → All (λ a. (advance a).current_weight <ℤ pos 0) t.split.behind
    → (pick (cooldown p id duration now)).1
      ≡ some (record t.split.chosen.account { cooldown_until = some (now +ℤ duration) })
cooldown_leaks p id duration now t weighty left right = rw (cooldown_lem p id duration now t) (
    pick_cooled _ t.split.before t.split.behind (cool t.split.chosen (now +ℤ duration)) refl weighty
      zero_sum left right)
  where
    zero_sum : int64 (pos 0 +ℤ pos 0) ≡ pos 0
    zero_sum = unfold int64 ◌+ℤ◌ in refl
