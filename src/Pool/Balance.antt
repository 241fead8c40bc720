-- ===== src/Pool/Balance.antt =====
-- The sum of the current weights and their range, through `Pick` of internal/relay/pool.go.
use cli_relay.Prelude.{
  some, List, [], ◌≡◌, ◌≢◌, refl, sym, ap, ap₂, ◌∙◌, arith, subst, All, inl, inr, Bool-cases,
}
use cli_relay.Prelude.Int.{
  ℤ, pos, pos_part, neg_part, ◌+ℤ◌, ◌-ℤ◌, ◌≤ℤ◌, ◌<ℤ◌, ltb_ℤ, int64, int64_id, int_laws, eq_of_parts,
}
use cli_relay.Db.{Account}
use cli_relay.Pool.{WeightedAccount, AccountPool, initial_weight, pick}
use cli_relay.Pool.Loop.{advance_all, AtMost, charged, Picked, pick_lem}
use cli_relay.Pool.Sums.{
  All-join, All-split, AtMost-mono, Exact, IsBalanced, IsSound, advance-Exact, advance_all-IsSound,
  capacity, capacity-advance_all, capacity-replace, current-le, sum-capacity, sum_current,
  sum_current-advance_all, sum_current-le, sum_current-replace, sum_weight, sum_weight-advance_all,
  sum_weight-replace,
}

module _ (now : ℤ) (p : AccountPool) (b : IsBalanced now p) where
  abbrev advanced : List WeightedAccount
  advanced = advance_all p.accounts

  weighty : p.total_weight ≢ pos 0
  weighty e = let h = b.positive in omega (arith, ap pos_part e, ap neg_part e)

  bounded : AtMost (capacity p.total_weight p.accounts) p.accounts
  bounded =
      AtMost-mono now p.total_weight b.positive _ _ p.accounts
        (omega (int_laws, ap pos_part b.sum_zero, ap neg_part b.sum_zero))
        (current-le now p.total_weight b.positive p.accounts b.sound)

  capacity-nonneg : pos 0 ≤ℤ capacity p.total_weight p.accounts
  capacity-nonneg =
      let low = sum-capacity now p.total_weight b.positive p.accounts b.sound in
      omega (int_laws, ap pos_part b.sum_zero, ap neg_part b.sum_zero)

  pub exact : All Exact p.accounts
  exact =
      let low = capacity-nonneg in
      let room = b.roomy in
      advance-Exact now p.total_weight b.positive (capacity p.total_weight p.accounts) p.accounts
        b.sound bounded (omega (int_laws, ap pos_part b.sum_total, ap neg_part b.sum_total))
        (omega int_laws)

  nonempty : p.accounts ≢ []
  nonempty e =
      let empty : sum_weight p.accounts ≡ pos 0 = rw e refl in weighty (sym b.sum_total ∙ empty)

  pub picked : Picked p
  picked = pick_lem p weighty nonempty

  sum-advanced : sum_current (advance_all p.accounts) ≡ p.total_weight
  sum-advanced =
      sum_current-advance_all now p.total_weight b.positive p.accounts exact
      ∙ rw (b.sum_zero, b.sum_total) (omega int_laws)

  chosen_positive : pos 0 <ℤ picked.split.chosen.current_weight
  chosen_positive = elim (Bool-cases (ltb_ℤ (pos 0) picked.split.chosen.current_weight)) [
    | inl h ↦ ground arith
    | inr h ↦
        let low =
          sum_current-le now p.total_weight b.positive picked.split.chosen.current_weight
            (advance_all p.accounts) (ground arith) picked.greatest in
        let high = b.positive in
        absurd (omega (arith, ap pos_part sum-advanced, ap neg_part sum-advanced))
  ]

  IsSound-parts :
      All (IsSound now p.total_weight) picked.split.before
      × IsSound now p.total_weight picked.split.chosen
      × All (IsSound now p.total_weight) picked.split.behind
  IsSound-parts =
      All-split (IsSound now p.total_weight) picked.split.before picked.split.chosen
        picked.split.behind
        (subst (All (IsSound now p.total_weight)) picked.split.joined
          (advance_all-IsSound now p.total_weight b.positive p.accounts exact b.sound))

  chosen_le :
      picked.split.chosen.current_weight ≤ℤ p.total_weight +ℤ capacity p.total_weight p.accounts
  chosen_le =
      let sound = advance_all-IsSound now p.total_weight b.positive p.accounts exact b.sound in
      let le =
        subst (AtMost _) picked.split.joined
          (current-le now p.total_weight b.positive (advance_all p.accounts) sound) in
      subst (λ v. picked.split.chosen.current_weight ≤ℤ v)
        (ap₂ ◌+ℤ◌ sum-advanced (capacity-advance_all p.total_weight p.accounts))
        (All-split _ picked.split.before picked.split.chosen picked.split.behind le).1

  pub charge_fits :
      int64 (picked.split.chosen.current_weight -ℤ p.total_weight)
      ≡ picked.split.chosen.current_weight -ℤ p.total_weight
  charge_fits =
      let high = chosen_le in
      let low = chosen_positive in
      let room = b.roomy in
      let cap = capacity-nonneg in let t = b.positive in int64_id _ (omega int_laws)

  charged-IsSound : IsSound now p.total_weight (charged p.total_weight picked.split.chosen)
  charged-IsSound =
      let low = chosen_positive in
      let (w, idle, above, built) = IsSound-parts.1 in
      (
        w,
        rw charge_fits (λ z. let never = idle z in absurd (omega arith)),
        rw charge_fits (omega int_laws),
        built,
      )

  -- `Pick` keeps the balance.
  pub pick-IsBalanced : IsBalanced now (pick p).0
  pick-IsBalanced = rw picked.result (record {
    sound =
        All-join (IsSound now p.total_weight) picked.split.before
          (charged p.total_weight picked.split.chosen) picked.split.behind IsSound-parts.0
          charged-IsSound IsSound-parts.2;
    sum_zero =
        sum_current-replace picked.split.before picked.split.chosen
          (charged p.total_weight picked.split.chosen) picked.split.behind p.total_weight
          charge_fits
        ∙ ap (λ s. s -ℤ p.total_weight) (ap sum_current (sym picked.split.joined) ∙ sum-advanced)
        ∙ omega int_laws;
    sum_total =
        sum_weight-replace picked.split.before picked.split.chosen
          (charged p.total_weight picked.split.chosen) picked.split.behind refl
        ∙ ap sum_weight (sym picked.split.joined)
        ∙ sum_weight-advance_all p.accounts
        ∙ b.sum_total;
    positive = b.positive;
    roomy =
        let same =
          capacity-replace p.total_weight picked.split.before picked.split.chosen
            (charged p.total_weight picked.split.chosen) picked.split.behind
          ∙ ap (capacity p.total_weight) (sym picked.split.joined)
          ∙ capacity-advance_all p.total_weight p.accounts in
        rw same b.roomy;
  })

  chosen_weight : pos 0 <ℤ picked.split.chosen.weight
  chosen_weight =
      let (w, idle, above, built) = IsSound-parts.1 in
      let high = chosen_positive in
      elim (Bool-cases (ltb_ℤ (pos 0) picked.split.chosen.weight)) [
        | inl h ↦ ground arith
        | inr h ↦
            let zero_weight : picked.split.chosen.weight ≡ pos 0 = eq_of_parts _ _ (ground arith) in
            let never = idle zero_weight in absurd (omega arith)
      ]

  -- The account that `Pick` returns had a positive weight when the pool was built.
  pub pick_usable : (acc : Account) × ((pick p).1 ≡ some acc) × (pos 0 <ℤ initial_weight acc now)
  pick_usable =
      let (w, idle, above, built) = IsSound-parts.1 in
      (picked.split.chosen.account, rw picked.result, subst (λ v. pos 0 <ℤ v) built chosen_weight)
