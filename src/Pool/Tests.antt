-- ===== src/Pool/Tests.antt =====
-- Tests of the pool.
use cli_relay.Prelude.{String, true, Option, none, some, List, [], ◌∷◌, ◌≡◌, refl, arith, ℕ, All}
use cli_relay.Prelude.Int.{pos, negsuc, int64, ◌+ℤ◌, ◌-ℤ◌}
use cli_relay.Db.{Account}
use cli_relay.Pool.Fresh.{IsReasonable, IsUsable, picks, picks-new_account_pool}
use cli_relay.Pool.Moves.{tally}
use cli_relay.Pool.Fair.{picks_fair}
use cli_relay.Pool.Leak.{IsTarget, cooldown_leaks}
use cli_relay.Pool.{
  WeightedAccount, AccountPool, new_account_pool, initial_weight, pick, cooldown, fire,
}

pool : Unit {0}
unfolding picks new_account_pool initial_weight pick cooldown fire int64 ◌+ℤ◌ ◌-ℤ◌
pool = tt

abbrev account : String → ℕ → Account
account id weight = record {
  base = record { id = id; created_at = pos 0; updated_at = pos 0; deleted_at = none };
  channel_id = "ch";
  name = id;
  credentials = "";
  cred_type = "api_key";
  weight = pos weight;
  enabled = true;
  cooldown_until = none;
  refresh_token = "";
  token_expiry = none;
  client_id = "";
  client_secret = "";
  token_url = "";
}

abbrev two_accounts : List Account
two_accounts = account "a" 1 ∷ account "b" 5 ∷ []

abbrev two : AccountPool
two = new_account_pool two_accounts (pos 0)

abbrev found_ids : List (Option Account) → List String
found_ids [] = []
found_ids (none ∷ founds) = "" ∷ found_ids founds
found_ids (some acc ∷ founds) = acc.id ∷ found_ids founds

rotation : found_ids (picks 6 two).1 ≡ "b" ∷ "b" ∷ "a" ∷ "b" ∷ "b" ∷ "b" ∷ []
unfolding pool
rotation = refl

-- Account "b" cools down, and is picked all the same.
leak : found_ids (picks 2 (cooldown (picks 3 two).0 "b" (pos 300) (pos 0))).1 ≡ "b" ∷ "a" ∷ []
unfolding pool
leak = refl

two-IsReasonable : IsReasonable two_accounts (pos 0)
unfolding initial_weight ◌+ℤ◌
two-IsReasonable = record {
  nonneg = (omega arith, (omega arith, tt));
  positive = omega arith;
  roomy = omega arith;
}

picks-new_account_pool_example : All (IsUsable (pos 0)) (picks 4 two).1
picks-new_account_pool_example = picks-new_account_pool 4 two_accounts (pos 0) two-IsReasonable

picks_fair_example :
    All (λ acc. pos (tally acc.id (picks 6 two).1) ≡ initial_weight acc (pos 0)) two_accounts
    × ((picks 6 two).0.accounts ≡ two.accounts)
unfolding initial_weight ◌+ℤ◌
picks_fair_example = picks_fair 6 two_accounts (pos 0) two-IsReasonable ((refl, tt), (tt, tt)) refl

abbrev target : WeightedAccount
target = record {
  account = account "b" 5;
  weight = pos 5;
  current_weight = pos 3;
  original_weight = pos 5;
}

abbrev other : WeightedAccount
other = record {
  account = account "a" 1;
  weight = pos 1;
  current_weight = negsuc 2;
  original_weight = pos 1;
}

third : (picks 3 two).0.accounts ≡ other ∷ target ∷ []
unfolding pool
third = refl

target-IsTarget : IsTarget "b" (picks 3 two).0.accounts
target-IsTarget = record {
  split = record { before = other ∷ []; chosen = target; behind = []; joined = third };
  named = refl;
  others = (refl, tt);
  heavy = ground arith;
}

cooldown_leaks_example :
    (pick (cooldown (picks 3 two).0 "b" (pos 300) (pos 0))).1
    ≡ some (record (account "b" 5) { cooldown_until = some (pos 0 +ℤ pos 300) })
unfolding pool target-IsTarget
cooldown_leaks_example =
    cooldown_leaks (picks 3 two).0 "b" (pos 300) (pos 0) target-IsTarget (ground arith)
      (omega arith, tt) tt
