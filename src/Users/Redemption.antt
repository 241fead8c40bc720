-- ===== src/Users/Redemption.antt =====
-- `RedeemCode` of internal/user/service.go, and the same code again.
use cli_relay.Prelude.{
  String, true, false, none, some, List, [], ◌∷◌, ◌≡◌, ◌⊎◌, refl, arith, ◌==◌, find, find-true,
  find-All, subst, sym, Option-cases, eq_iff, ◌∙◌, All, update_where, Bool-cases, inl, inr,
}
use cli_relay.Prelude.Int.{ℤ}
use cli_relay.Prelude.Results.{ok, err, Result-cases}
use cli_relay.Db.{Database, RedeemCode}
use cli_relay.Users.Plans.{is_redeemable, mark_used, redeem_code, credit}

abbrev pub HasCode : String → String → List RedeemCode → Type 0
HasCode code id = All (λ r. ((r.code == code) ≡ false) ⊎ ((r.id == id) ≡ true))

find-used :
    (now later : ℤ) (user_id code id : String) (rows : List RedeemCode)
    → HasCode code id rows
    → find (is_redeemable later code) (update_where (λ r. r.id == id) (mark_used now user_id) rows)
      ≡ none
find-used now later user_id code id [] h = refl
find-used now later user_id code id (r ∷ rows) (h, hs) =
    let ih = find-used now later user_id code id rows hs in
    elim (Bool-cases (r.id == id)) [
      | inl own ↦ rw own (ground (arith, ih))
      | inr other ↦ elim h [ inl different ↦ rw (other, different) ih | inr own ↦ absurd cc ]
    ]

module _ (now : ℤ) where
  -- What `RedeemCode` does when it succeeds: the row it found is used, and the balance is credited.
  redeemed :
      (db db' : Database) (user_id code : String) (value : ℤ)
      → db.failing ≡ false
      → redeem_code now db user_id code ≡ ok (db', value)
      → (row : RedeemCode) × (credited : Database) × (find (is_redeemable now code) db.redeem_codes
          ≡ some row)
        × (credit now db user_id row.value ≡ ok credited)
        × (db'.users ≡ credited.users)
        × (db'.failing ≡ credited.failing)
        × (row.value ≡ value)
        × (db'.redeem_codes
            ≡ update_where (λ r. r.id == row.id) (mark_used now user_id) db.redeem_codes)
  unfolding redeem_code
  redeemed db db' user_id code value up e =
      elim (Option-cases (find (is_redeemable now code) db.redeem_codes)) [
        | inl missing ↦ absurd (ground (arith, missing, up))
        | inr (row, found) ↦ elim (Result-cases (credit now db user_id row.value)) [
          | inl (m, failed) ↦ absurd (ground (arith, found, up, failed))
          | inr (credited, done) ↦ (
            row,
            credited,
            found,
            done,
            ground (arith, found, up, done),
            ground (arith, found, up, done),
            ground (arith, found, up, done),
            ground (arith, found, up, done),
          )
        ]
      ]

  credit-failing :
      (db db' : Database) (user_id : String) (value : ℤ)
      → credit now db user_id value ≡ ok db'
      → db'.failing ≡ db.failing
  unfolding credit
  credit-failing db db' user_id value e = ground arith

  owner :
      (id code : String) (rows : List RedeemCode) (row : RedeemCode)
      → HasCode code id rows
      → find (is_redeemable now code) rows ≡ some row
      → row.id ≡ id
  owner id code rows row codes found =
      let holds = find-true (is_redeemable now code) rows row found in
      let one =
        find-All (λ r. ((r.code == code) ≡ false) ⊎ ((r.id == id) ≡ true)) (is_redeemable now code)
          rows row codes found in
      (eq_iff row.id id).0 (ground arith)

  -- Where the database answers and the code is in one row: a code that has been redeemed is
  -- refused from then on, whoever sends it.
  pub redeem_code-twice :
      (later : ℤ) (db db' : Database) (user_id other_id code id : String) (value : ℤ)
      → db.failing ≡ false
      → HasCode code id db.redeem_codes
      → redeem_code now db user_id code ≡ ok (db', value)
      → redeem_code later db' other_id code ≡ err "invalid or expired code"
  unfolding redeem_code
  redeem_code-twice later db db' user_id other_id code id value up codes e =
      let (row, credited, found, done, users, failing, same_value, marked) =
        redeemed db db' user_id code value up e in
      let up' : db'.failing ≡ false =
        failing ∙ credit-failing db credited user_id row.value done ∙ up in
      let same = owner id code db.redeem_codes row codes found in
      let gone =
        find-used now later user_id code row.id db.redeem_codes
          (subst (λ k. HasCode code k db.redeem_codes) (sym same) codes) in
      rw (up', marked, gone) refl
