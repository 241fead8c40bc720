-- ===== src/Billing/Quota.antt =====
-- The quota of a plan that counts tokens, as the service changes it: what each operation does to the
-- `used_quota` of a token's plan row.
use cli_relay.Prelude.{
  String, true, false, Option, none, some, List, [], ◌∷◌, ◌≡◌, ◌⊎◌, refl, arith, ap, ◌∙◌, All, inl,
  inr, if◌then◌else◌, ◌==◌, ◌&&◌, not, eq_iff, Bool-cases, any, find, some_inj, update_where,
}
use cli_relay.Prelude.Int.{ℤ, fits_int64, FitsInt64}
use cli_relay.Prelude.Results.{ok}
use cli_relay.Db.{Database, Plan, TokenPlan}
use cli_relay.Billing.{update_quota, token_plan_of, live_plan, enabled_plan}

-- The quota that the row of this id has used.
abbrev quota_in : String → List TokenPlan → Option ℤ
quota_in id [] = none
quota_in id (tp ∷ rest) = if tp.id == id then some tp.used_quota else quota_in id rest

abbrev pub quota_of : Database → String → Option ℤ
quota_of db id = quota_in id db.token_plans

abbrev pub change : (ℤ → ℤ) → ℤ → TokenPlan → TokenPlan
change value now row = record row {
  used_quota = value row.used_quota;
  base = record row.base { updated_at = now };
}

abbrev pub changed : (ℤ → ℤ) → Option ℤ → Option ℤ
changed value none = none
changed value (some q) = some (value q)

quota_in-change :
    (id j : String) (now : ℤ) (value : ℤ → ℤ) (rows : List TokenPlan)
    → quota_in j (update_where (λ tp. tp.id == id) (change value now) rows)
      ≡ (if id == j then changed value (quota_in j rows) else quota_in j rows)
quota_in-change id j now value [] = ground arith
quota_in-change id j now value (tp ∷ rows) = elim (Bool-cases (tp.id == id)) [
  | inl here ↦ rw here (
      ground
        (arith, quota_in-change id j now value rows, eq_iff tp.id id, eq_iff tp.id j, eq_iff id j))
  | inr there ↦ rw there (
      ground
        (arith, quota_in-change id j now value rows, eq_iff tp.id id, eq_iff tp.id j, eq_iff id j))
]

-- Every row of this id has used `q`: there is one row of it, since the id is the primary key.
abbrev pub Holds : String → ℤ → List TokenPlan → Type 0
Holds id q = All (λ row. ((row.id == id) ≡ false) ⊎ (row.used_quota ≡ q))

Holds-change :
    (id : String) (now q : ℤ) (value : ℤ → ℤ) (rows : List TokenPlan)
    → Holds id q rows
    → Holds id (value q) (update_where (λ tp. tp.id == id) (change value now) rows)
Holds-change id now q value [] h = tt
Holds-change id now q value (tp ∷ rows) (h, hs) =
    (row (Bool-cases (tp.id == id)) h, Holds-change id now q value rows hs)
  where
    row :
        ((tp.id == id) ≡ true) ⊎ ((tp.id == id) ≡ false)
        → ((tp.id == id) ≡ false) ⊎ (tp.used_quota ≡ q)
        → (((if tp.id == id then change value now tp else tp).id == id) ≡ false)
          ⊎ ((if tp.id == id then change value now tp else tp).used_quota ≡ value q)
    row (inl here) (inl there) = cc
    row (inl here) (inr same) = rw here (inr (ap value same))
    row (inr there) h = rw there (inl there)

fits : (z : ℤ) → FitsInt64 z → fits_int64 z ≡ true
fits z h = ground arith

any-fits :
    (id : String) (q : ℤ) (raw : ℤ → ℤ) (rows : List TokenPlan)
    → Holds id q rows
    → FitsInt64 (raw q)
    → any (λ tp. tp.id == id && not (fits_int64 (raw tp.used_quota))) rows ≡ false
any-fits id q raw [] h f = refl
any-fits id q raw (tp ∷ rows) (inl other, hs) f = rw other (any-fits id q raw rows hs f)
any-fits id q raw (tp ∷ rows) (inr same, hs) f =
    rw (same, fits (raw q) f) (ground (arith, any-fits id q raw rows hs f))

-- The row that a token's query finds is the changed row, where it found the row before.
find-change :
    (token_id id : String) (now : ℤ) (value : ℤ → ℤ) (rows : List TokenPlan) (tp : TokenPlan)
    → find (λ row. row.token_id == token_id) rows ≡ some tp
    → tp.id ≡ id
    → find
        (λ row. row.token_id == token_id)
        (update_where (λ row. row.id == id) (change value now) rows)
      ≡ some (change value now tp)
find-change token_id id now value [] tp e same = cc
find-change token_id id now value (row ∷ rows) tp e same =
    elim (Bool-cases (row.token_id == token_id)) [
      | inl here ↦
          let found : row ≡ tp = some_inj (rw here at e) in
          let own : (row.id == id) ≡ true = (eq_iff _ _).1 (ap (λ r. r.id) found ∙ same) in
          rw (own, here) (ap (λ r. some (change value now r)) found)
      | inr there ↦
          let ih = find-change token_id id now value rows tp (rw there at e) same in
          elim (Bool-cases (row.id == id)) [
            | inl own ↦ rw (own, there) ih
            | inr own ↦ rw (own, there) ih
          ]
    ]

-- A token's plan row, and its plan, which counts tokens and is in force.
pub record IsFound (db : Database) (token_id : String) (tp : TokenPlan) (plan : Plan) : Type 0 where
  pub up : db.failing ≡ false
  pub found : find (λ row. row.token_id == token_id) db.token_plans ≡ some tp
  pub holds : Holds tp.id tp.used_quota db.token_plans
  pub enabled : enabled_plan db tp.plan_id ≡ ok plan
  pub live : live_plan db tp.plan_id ≡ ok plan
  pub metered : plan.type ≡ "token_based"

-- The database with the row's quota changed.
abbrev pub with_quota : Database → String → ℤ → (ℤ → ℤ) → Database
with_quota db id now value = record db {
  token_plans = update_where (λ row. row.id == id) (change value now) db.token_plans;
}

pub quota_of-with_quota :
    (db : Database) (id j : String) (now : ℤ) (value : ℤ → ℤ)
    → quota_of (with_quota db id now value) j
      ≡ (if id == j then changed value (quota_of db j) else quota_of db j)
quota_of-with_quota db id j now value = quota_in-change id j now value db.token_plans

module _ (db : Database) (token_id : String) (tp : TokenPlan) (plan : Plan)
    (f : IsFound db token_id tp plan) (now : ℤ) where
  pub update_quota_lem :
      (raw value : ℤ → ℤ)
      → FitsInt64 (raw tp.used_quota)
      → update_quota db tp.id now raw value ≡ ok (with_quota db tp.id now value)
  unfolding update_quota
  update_quota_lem raw value h =
      rw (f.up, any-fits tp.id tp.used_quota raw db.token_plans f.holds h)

  pub token_plan_of_lem : token_plan_of db token_id ≡ ok tp
  unfolding token_plan_of
  token_plan_of_lem = rw (f.up, f.found)

  pub with_quota-IsFound :
      (value : ℤ → ℤ) → IsFound (with_quota db tp.id now value) token_id (change value now tp) plan
  unfolding enabled_plan live_plan
  with_quota-IsFound value = record {
    up = f.up;
    found = find-change token_id tp.id now value db.token_plans tp f.found refl;
    holds = Holds-change tp.id now tp.used_quota value db.token_plans f.holds;
    enabled = f.enabled;
    live = f.live;
    metered = f.metered;
  }

-- The row that the token's query finds is the one of its id.
skip_row :
    (token_id id : String) (row : TokenPlan) (rows : List TokenPlan) (tp : TokenPlan)
    → find (λ x. x.token_id == token_id) (row ∷ rows) ≡ some tp
    → tp.id ≡ id
    → (row.id == id) ≡ false
    → find (λ x. x.token_id == token_id) rows ≡ some tp
skip_row token_id id row rows tp e same other = elim (Bool-cases (row.token_id == token_id)) [
  | inl here ↦
      let found : row ≡ tp = some_inj (rw here at e) in
      let own : (row.id == id) ≡ true = (eq_iff _ _).1 (ap (λ r. r.id) found ∙ same) in cc
  | inr there ↦ rw there at e
]

own_quota :
    (token_id id : String) (q : ℤ) (rows : List TokenPlan) (tp : TokenPlan)
    → find (λ row. row.token_id == token_id) rows ≡ some tp
    → tp.id ≡ id
    → Holds id q rows
    → quota_in id rows ≡ some q
own_quota token_id id q [] tp e same h = cc
own_quota token_id id q (row ∷ rows) tp e same (holds, hs) = elim (Bool-cases (row.id == id)) [
  | inl own ↦ rw own (ground arith)
  | inr other ↦
      rw other
        (own_quota token_id id q rows tp (skip_row token_id id row rows tp e same other) same hs)
]

pub quota_of-IsFound :
    (db : Database) (token_id : String) (tp : TokenPlan) (plan : Plan)
    → IsFound db token_id tp plan
    → quota_of db tp.id ≡ some tp.used_quota
quota_of-IsFound db token_id tp plan f =
    own_quota token_id tp.id tp.used_quota db.token_plans tp f.found refl f.holds
