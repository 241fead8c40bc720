-- ===== src/Users/Rows.antt =====
-- The rows of users of internal/db/user.go: ids and emails that stand once each.
use cli_relay.Prelude.{
  String, Bool, false, List, [], ◌∷◌, ◌++◌, ◌≡◌, refl, subst, ap, ◌∙◌, arith, ◌==◌, ◌&&◌, not, any,
  eq_iff, inl, inr, Bool-cases, update_where,
}
use cli_relay.Prelude.Int.{ℤ}
use cli_relay.Db.{User}

abbrev pub has_email : String → List User → Bool
has_email email users = any (λ u. u.email == email) users

abbrev pub has_id : String → List User → Bool
has_id id users = any (λ u. u.id == id) users

-- Ids, which are primary keys, and emails stand once each.
abbrev pub IsUnique : List User → Type 0
IsUnique [] = Unit
IsUnique (u ∷ users) =
    (has_id u.id users ≡ false) × (has_email u.email users ≡ false) × IsUnique users

has_email-added :
    (email : String) (users : List User) (user : User)
    → has_email email users ≡ false
    → (user.email == email) ≡ false
    → has_email email (users ++ user ∷ []) ≡ false
has_email-added email [] user h other = ground arith
has_email-added email (u ∷ users) user h other = ground (arith, has_email-added email users user)

has_id-added :
    (id : String) (users : List User) (user : User)
    → has_id id users ≡ false
    → (user.id == id) ≡ false
    → has_id id (users ++ user ∷ []) ≡ false
has_id-added id [] user h other = ground arith
has_id-added id (u ∷ users) user h other = ground (arith, has_id-added id users user)

pub IsUnique-added :
    (users : List User) (user : User)
    → IsUnique users
    → has_id user.id users ≡ false
    → has_email user.email users ≡ false
    → IsUnique (users ++ user ∷ [])
IsUnique-added [] user h fresh new = (refl, refl, tt)
IsUnique-added (u ∷ users) user (one, single, hs) fresh new = (
  has_id-added u.id users user one (ground (arith, eq_iff user.id u.id, eq_iff u.id user.id)),
  has_email-added u.email users user single
      (ground (arith, eq_iff user.email u.email, eq_iff u.email user.email)),
  IsUnique-added users user hs (ground arith) (ground arith),
)

-- The row of this id with another email.
abbrev pub moved : String → ℤ → User → User
moved email now u = record u { email = email; base = record u.base { updated_at = now } }

abbrev pub move : String → String → ℤ → List User → List User
move id email now users =
    update_where (λ u. u.id == id)
      (λ u. record (record u { email = email }) { base = record u.base { updated_at = now } }) users

move-absent :
    (id email : String) (now : ℤ) (users : List User)
    → has_id id users ≡ false
    → move id email now users ≡ users
move-absent id email now [] h = refl
move-absent id email now (u ∷ users) h =
    let other : (u.id == id) ≡ false = ground arith in
    rw other (ap (λ us. u ∷ us) (move-absent id email now users (ground arith)))

has_id-move :
    (id email k : String) (now : ℤ) (users : List User)
    → has_id k (move id email now users) ≡ has_id k users
has_id-move id email k now [] = refl
has_id-move id email k now (u ∷ users) = ground (arith, has_id-move id email k now users)

has_email-move :
    (id email e : String) (now : ℤ) (users : List User)
    → has_email e users ≡ false
    → (email == e) ≡ false
    → has_email e (move id email now users) ≡ false
has_email-move id email e now [] h other = refl
has_email-move id email e now (u ∷ users) h other =
    ground (arith, has_email-move id email e now users)

-- A row of another id with this email.
abbrev pub is_taken : String → String → List User → Bool
is_taken id email users = any (λ u. u.email == email && not (u.id == id)) users

has_email-others :
    (id email : String) (users : List User)
    → is_taken id email users ≡ false
    → has_id id users ≡ false
    → has_email email users ≡ false
has_email-others id email [] h absent = refl
has_email-others id email (u ∷ users) h absent = ground (arith, has_email-others id email users)

pub IsUnique-move :
    (id email : String) (now : ℤ) (users : List User)
    → IsUnique users
    → is_taken id email users ≡ false
    → IsUnique (move id email now users)
IsUnique-move id email now [] h free = tt
IsUnique-move id email now (u ∷ users) (one, single, hs) free =
    let rest : is_taken id email users ≡ false = ground arith in
    let ids = has_id-move id email u.id now users ∙ one in
    let ih = IsUnique-move id email now users hs rest in
    elim (Bool-cases (u.id == id)) [
      | inl own ↦
          let absent : has_id id users ≡ false =
            subst (λ k. has_id k users ≡ false) ((eq_iff u.id id).0 own) one in
          let emails =
            ap (has_email email) (move-absent id email now users absent)
            ∙ has_email-others id email users rest absent in
          rw own (ids, emails, ih)
      | inr other ↦
          let free_here : (email == u.email) ≡ false =
            ground (arith, eq_iff email u.email, eq_iff u.email email) in
          rw other (ids, has_email-move id email u.email now users single free_here, ih)
    ]
