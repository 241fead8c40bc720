-- ===== src/Pool.antt =====
-- internal/relay/pool.go: smooth weighted round robin over a channel's accounts, and the pools by
-- channel. The callback that `Cooldown` hands to `time.AfterFunc` is a timer of the pool; `fire` is
-- the callback's run. An account that several pools share by pointer is a value in each.
pub mod Loop
pub mod Sums
pub mod Balance
pub mod Fresh
pub mod Moves
pub mod Period
pub mod Shares
pub mod Fair
pub mod Leak
mod Tests
use cli_relay.Prelude.{
  ℕ, zero, suc, String, Bool, true, false, not, Option, none, some, List, [], ◌∷◌, if◌then◌else◌,
  ◌==◌, ◌&&◌,
}
use cli_relay.Prelude.Int.{ℤ, pos, ◌+ℤ◌, ◌-ℤ◌, ltb_ℤ, eqb_ℤ, int64}
use cli_relay.Prelude.Maps.{lookup, insert, delete}
use cli_relay.Db.{Account}

pub record WeightedAccount : Type 0 where
  pub account : Account
  pub weight : ℤ
  pub current_weight : ℤ
  pub original_weight : ℤ

-- A pending callback of `time.AfterFunc`.
pub record Timer : Type 0 where
  pub due : ℤ
  pub account_id : String
  pub restored_weight : ℤ

pub record AccountPool : Type 0 where
  pub accounts : List WeightedAccount
  pub total_weight : ℤ
  pub timers : List Timer

abbrev pub is_cooling : Option ℤ → ℤ → Bool
is_cooling none now = false
is_cooling (some until) now = ltb_ℤ now until

unfoldable pub initial_weight : Account → ℤ → ℤ
initial_weight acc now =
    if is_cooling acc.cooldown_until now then pos 0 else if acc.enabled then acc.weight else pos 0

abbrev pub weigh : ℤ → Account → WeightedAccount
weigh now acc = record {
  account = acc;
  weight = initial_weight acc now;
  current_weight = pos 0;
  original_weight = acc.weight;
}

-- The loop of `NewAccountPool`.
unfoldable pub weigh_all : List Account → ℤ → ℤ → List WeightedAccount × ℤ
weigh_all [] now total = ([], total)
weigh_all (acc ∷ accs) now total =
    let w = weigh now acc in
    let (rest, sum) = weigh_all accs now (int64 (total +ℤ w.weight)) in (w ∷ rest, sum)

unfoldable pub new_account_pool : List Account → ℤ → AccountPool
unfolding weigh_all
new_account_pool accounts now =
    let (weighted, total) = weigh_all accounts now (pos 0) in
    record { accounts = weighted; total_weight = total; timers = [] }

abbrev pub advance : WeightedAccount → WeightedAccount
advance a = record a { current_weight = int64 (a.current_weight +ℤ a.weight) }

-- `best`: the place of the account and its current weight.
abbrev pub Best : Type 0
Best = Option (ℕ × ℤ)

abbrev pub improve : ℕ → ℤ → Best → Best
improve i weight none = some (i, weight)
improve i weight (some (k, v)) = if ltb_ℤ v weight then some (i, weight) else some (k, v)

-- The loop of `Pick`, at place `i`.
unfoldable pub scan : ℕ → Best → List WeightedAccount → List WeightedAccount × Best
scan i best [] = ([], best)
scan i best (a ∷ others) =
    let b = advance a in
    let (rest, last) = scan (suc i) (improve i b.current_weight best) others in (b ∷ rest, last)

-- `best.CurrentWeight -= p.totalWeight`, with the account that `best` points to.
unfoldable pub charge : ℕ → ℤ → List WeightedAccount → List WeightedAccount × Option Account
charge k total [] = ([], none)
charge zero total (a ∷ others) =
    (record a { current_weight = int64 (a.current_weight -ℤ total) } ∷ others, some a.account)
charge (suc k) total (a ∷ others) = let (rest, found) = charge k total others in (a ∷ rest, found)

abbrev finish : AccountPool → List WeightedAccount → Best → AccountPool × Option Account
finish p advanced none = (record p { accounts = advanced }, none)
finish p advanced (some (k, v)) =
    let (charged, found) = charge k p.total_weight advanced in
    (record p { accounts = charged }, found)

unfoldable pub pick : AccountPool → AccountPool × Option Account
unfolding scan charge
pick p =
    let (advanced, best) = scan 0 none p.accounts in
    if eqb_ℤ p.total_weight (pos 0) then (p, none) else finish p advanced best

-- What `Cooldown` changes: the weight that leaves the total, the timer's weight, the new accounts.
pub record Cooled : Type 0 where
  pub removed : ℤ
  pub kept : ℤ
  pub after : List WeightedAccount

abbrev cool : WeightedAccount → ℤ → WeightedAccount
cool a until = record a {
  weight = pos 0;
  current_weight = pos 0;
  account = record a.account { cooldown_until = some until };
}

abbrev behind : WeightedAccount → Option Cooled → Option Cooled
behind a none = none
behind a (some c) = some (record c { after = a ∷ c.after })

-- The loop of `Cooldown`: `none` where it changes nothing.
unfoldable pub cool_first : String → ℤ → List WeightedAccount → Option Cooled
cool_first id until [] = none
cool_first id until (a ∷ others) =
    let later = behind a (cool_first id until others) in
    if a.account.id == id
    then if eqb_ℤ a.weight (pos 0)
      then none
      else some
          (record { removed = a.weight; kept = a.original_weight; after = cool a until ∷ others })
    else later

abbrev cooled_pool : AccountPool → String → ℤ → Option Cooled → AccountPool
cooled_pool p id until none = p
cooled_pool p id until (some c) = record {
  accounts = c.after;
  total_weight = int64 (p.total_weight -ℤ c.removed);
  timers = record { due = until; account_id = id; restored_weight = c.kept } ∷ p.timers;
}

unfoldable pub cooldown : AccountPool → String → ℤ → ℤ → AccountPool
unfolding cool_first
cooldown p account_id duration now =
    cooled_pool p account_id (now +ℤ duration) (cool_first account_id (now +ℤ duration) p.accounts)

abbrev behind_list : WeightedAccount → Option (List WeightedAccount) → Option (List WeightedAccount)
behind_list a none = none
behind_list a (some others) = some (a ∷ others)

-- The loop of the callback.
pub restore_first : String → ℤ → List WeightedAccount → Option (List WeightedAccount)
restore_first id weight [] = none
restore_first id weight (a ∷ others) =
    let later = behind_list a (restore_first id weight others) in
    if a.account.id == id then some (record a { weight = weight } ∷ others) else later

abbrev restored_pool : AccountPool → ℤ → Option (List WeightedAccount) → AccountPool
restored_pool p weight none = p
restored_pool p weight (some others) = record p {
  accounts = others;
  total_weight = int64 (p.total_weight +ℤ weight);
}

-- The callback of a timer, which is no longer pending.
pub fire : AccountPool → Timer → List Timer → AccountPool
unfolding restore_first
fire p t rest =
    restored_pool (record p { timers = rest }) t.restored_weight
      (restore_first t.account_id t.restored_weight p.accounts)

-- `PoolManager`: the pools by channel.
pub record PoolManager : Type 0 where
  pub pools : List (String × AccountPool)

unfoldable pub new_pool_manager : PoolManager
new_pool_manager = record { pools = [] }

unfoldable pub set_pool : PoolManager → String → AccountPool → PoolManager
set_pool pm channel_id pool = record { pools = insert channel_id pool pm.pools }

unfoldable pub get_pool : PoolManager → String → Option AccountPool
get_pool pm channel_id = lookup channel_id pm.pools

pub remove_pool : PoolManager → String → PoolManager
remove_pool pm channel_id = record { pools = delete channel_id pm.pools }
