-- ===== src/Pool/Moves.antt =====
-- How picks move the current weights of a pool of internal/relay/pool.go: one round, and `n` more.
use cli_relay.Prelude.{
  ℕ, zero, suc, String, Bool, false, Option, none, some, List, [], ◌∷◌, ◌++◌, ◌≡◌, refl, ap, subst,
  ◌∙◌, arith, if◌then◌else◌, ◌==◌, eq_refl, All, Bool-cases, inl, inr,
}
use cli_relay.Prelude.Int.{ℤ, pos, pos_part, neg_part, ◌+ℤ◌, ◌-ℤ◌, int64, int_laws}
use cli_relay.Db.{Account}
use cli_relay.Pool.{WeightedAccount}
use cli_relay.Pool.Loop.{advance_all, charged}
use cli_relay.Pool.Sums.{Exact}

-- How often the account with this id is among the results.
abbrev pub is_account : String → Option Account → Bool
is_account id none = false
is_account id (some acc) = acc.id == id

abbrev pub tally : String → List (Option Account) → ℕ
tally id [] = 0
tally id (found ∷ founds) = if is_account id found then suc (tally id founds) else tally id founds

abbrev pub times : ℕ → ℤ → ℤ
times zero z = pos 0
times (suc n) z = z +ℤ times n z

-- Two lists of one length, related place by place.
abbrev pub Zip :
    (WeightedAccount → WeightedAccount → Type 0)
    → List WeightedAccount
    → List WeightedAccount
    → Type 0
Zip R [] [] = Unit
Zip R (a ∷ xs) (b ∷ ys) = R a b × Zip R xs ys
Zip R _ _ = ⊥

-- The account, its weight and its original weight stay, and the current weight changes as `n` picks
-- with the results `founds` change it.
abbrev pub Moved : ℤ → ℕ → List (Option Account) → WeightedAccount → WeightedAccount → Type 0
Moved total n founds a b =
    (b.account ≡ a.account)
    × (b.weight ≡ a.weight)
    × (b.original_weight ≡ a.original_weight)
    × (b.current_weight +ℤ times (tally a.account.id founds) total
        ≡ a.current_weight +ℤ times n a.weight)

abbrev Advanced : WeightedAccount → WeightedAccount → Type 0
Advanced a b =
    (b.account ≡ a.account)
    × (b.weight ≡ a.weight)
    × (b.original_weight ≡ a.original_weight)
    × (b.current_weight ≡ a.current_weight +ℤ a.weight)

abbrev pub Charged : ℤ → Option Account → WeightedAccount → WeightedAccount → Type 0
Charged total found a b =
    (b.account ≡ a.account)
    × (b.weight ≡ a.weight)
    × (b.original_weight ≡ a.original_weight)
    × (b.current_weight
        ≡ (if is_account a.account.id found then a.current_weight -ℤ total else a.current_weight))

pub advance_all-Advanced :
    (accounts : List WeightedAccount)
    → All Exact accounts
    → Zip Advanced accounts (advance_all accounts)
advance_all-Advanced [] e = tt
advance_all-Advanced (a ∷ rest) (e, es) = ((refl, refl, refl, e), advance_all-Advanced rest es)

-- No account of the list has this id.
abbrev pub Lacks : String → List WeightedAccount → Type 0
Lacks id = All (λ a. (id == a.account.id) ≡ false)

pub charge-Charged :
    (total : ℤ) (before : List WeightedAccount) (a : WeightedAccount)
    (behind : List WeightedAccount)
    → int64 (a.current_weight -ℤ total) ≡ a.current_weight -ℤ total
    → Lacks a.account.id before
    → Lacks a.account.id behind
    → Zip
        (Charged total (some a.account))
        (before ++ a ∷ behind)
        (before ++ charged total a ∷ behind)
charge-Charged total [] a behind e l r =
    ((refl, refl, refl, rw (eq_refl a.account.id) e), others behind r)
  where
    others :
        (xs : List WeightedAccount)
        → Lacks a.account.id xs
        → Zip (Charged total (some a.account)) xs xs
    others [] r = tt
    others (x ∷ xs) (r, rs) = ((refl, refl, refl, rw r), others xs rs)
charge-Charged total (x ∷ before) a behind e (l, ls) r =
    ((refl, refl, refl, rw l), charge-Charged total before a behind e ls r)

moved_charged :
    (a b c d w t x y : ℤ)
    → b ≡ a +ℤ w
    → c ≡ b -ℤ t
    → d +ℤ x ≡ c +ℤ y
    → d +ℤ (t +ℤ x) ≡ a +ℤ (w +ℤ y)
moved_charged a b c d w t x y e f g = omega (
  int_laws,
  ap pos_part e,
  ap neg_part e,
  ap pos_part f,
  ap neg_part f,
  ap pos_part g,
  ap neg_part g,
)

moved_on : (a b d w x y : ℤ) → b ≡ a +ℤ w → d +ℤ x ≡ b +ℤ y → d +ℤ x ≡ a +ℤ (w +ℤ y)
moved_on a b d w x y e g =
    omega (int_laws, ap pos_part e, ap neg_part e, ap pos_part g, ap neg_part g)

-- One pick, and `n` more.
module _ (total : ℤ) (n : ℕ) (found : Option Account) (founds : List (Option Account)) where
  moved_current :
      (id : String) (w a b c d : ℤ)
      → b ≡ a +ℤ w
      → c ≡ (if is_account id found then b -ℤ total else b)
      → d +ℤ times (tally id founds) total ≡ c +ℤ times n w
      → d +ℤ times (tally id (found ∷ founds)) total ≡ a +ℤ times (suc n) w
  moved_current id w a b c d e f g = elim (Bool-cases (is_account id found)) [
    | inl h ↦ rw h (moved_charged a b c d w total _ _ e (rw h at f) g)
    | inr h ↦ rw h (
        moved_on a b d w _ _ e
          (subst (λ v. d +ℤ times (tally id founds) total ≡ v +ℤ times n w) (rw h at f) g))
  ]

  Moved-suc :
      (a b c d : WeightedAccount)
      → Advanced a b
      → Charged total found b c
      → Moved total n founds c d
      → Moved total (suc n) (found ∷ founds) a d
  Moved-suc a b c d (ab, aw, ao, ac) (bb, bw, bo, bc) (cb, cw, co, cc') = (
    cb ∙ bb ∙ ab,
    cw ∙ bw ∙ aw,
    co ∙ bo ∙ ao,
    moved_current a.account.id a.weight a.current_weight b.current_weight c.current_weight
        d.current_weight ac (rw ab at bc) (rw (bw ∙ aw) at (rw (bb ∙ ab) at cc')),
  )

  pub Zip-suc :
      (xs ys zs ws : List WeightedAccount)
      → Zip Advanced xs ys
      → Zip (Charged total found) ys zs
      → Zip (Moved total n founds) zs ws
      → Zip (Moved total (suc n) (found ∷ founds)) xs ws
  Zip-suc [] [] [] [] p q r = tt
  Zip-suc (a ∷ xs) (b ∷ ys) (c ∷ zs) (d ∷ ws) (p, ps) (q, qs) (r, rs) =
      (Moved-suc a b c d p q r, Zip-suc xs ys zs ws ps qs rs)
  Zip-suc xs ys zs ws p q r = ground arith
