-- ===== src/Pool/Shares.antt =====
-- The arithmetic of the period: how many charges of the total weight leave nothing over.
use native.Mathlib.Decide.{dec_le}
use cli_relay.Prelude.{ℕ, zero, suc, ◌+◌, ◌*◌, ◌≤◌, ◌<◌, ◌≡◌, sym, ap, ◌∙◌, arith}
use cli_relay.Prelude.Int.{ℤ, pos, negsuc, pos_part, neg_part, ◌+ℤ◌, ◌≤ℤ◌, ◌<ℤ◌, int_laws, +ℤ_parts}
use cli_relay.Pool.Moves.{times}

times-pos : (c n : ℕ) → times c (pos n) ≡ pos (c * n)
times-pos zero n = ap pos (omega arith)
times-pos (suc c) n = rw (times-pos c n) (omega int_laws)

mul_le : (c k n : ℕ) → c ≤ k → c * n ≤ k * n
mul_le c k n h = grind arith

left_over_ℕ : (n c k p m : ℕ) → p + c * n ≡ m + n * k → m < p + n → m ≤ p
left_over_ℕ n c k p m e h = elim (dec_le c k) [
  | yes le ↦ omega (arith, mul_le c k n le)
  | no more ↦ absurd (omega (arith, mul_le (suc k) c n (omega arith)))
]

-- Where `c` charges of `n` and `n` times the weight `w` leave more than `-n`, they leave at least 0.
pub left_over :
    (n c : ℕ) (w v : ℤ)
    → pos 0 ≤ℤ w
    → v +ℤ times c (pos n) ≡ pos 0 +ℤ times n w
    → pos 0 <ℤ v +ℤ pos n
    → pos 0 ≤ℤ v
left_over n c (pos k) v hw e h =
    let same : v +ℤ pos (c * n) ≡ pos 0 +ℤ pos (n * k) =
      sym (ap (λ x. v +ℤ x) (times-pos c n)) ∙ e ∙ ap (λ x. pos 0 +ℤ x) (times-pos n k) in
    let le =
      left_over_ℕ n c k (pos_part v) (neg_part v)
        (omega (arith, +ℤ_parts, ap pos_part same, ap neg_part same)) (omega (arith, +ℤ_parts)) in
    omega arith
left_over n c (negsuc k) v hw e h = absurd (omega arith)

mul_cancel : (c k n : ℕ) → 0 < n → c * n ≡ n * k → c ≡ k
mul_cancel c k n h e = elim (dec_le c k) [
  | yes le ↦ elim (dec_le k c) [
    | yes ge ↦ omega arith
    | no more ↦ absurd (omega (arith, mul_le (suc c) k n (omega arith)))
  ]
  | no more ↦ absurd (omega (arith, mul_le (suc k) c n (omega arith)))
]

-- If they leave 0, there were as many charges as the weight says.
pub charged_exactly :
    (n c : ℕ) (w : ℤ)
    → 0 < n
    → pos 0 ≤ℤ w
    → pos 0 +ℤ times c (pos n) ≡ pos 0 +ℤ times n w
    → pos c ≡ w
charged_exactly n c (pos k) hn hw e =
    let same : pos 0 +ℤ pos (c * n) ≡ pos 0 +ℤ pos (n * k) =
      sym (ap (λ x. pos 0 +ℤ x) (times-pos c n)) ∙ e ∙ ap (λ x. pos 0 +ℤ x) (times-pos n k) in
    ap pos (mul_cancel c k n hn (omega (arith, +ℤ_parts, ap pos_part same, ap neg_part same)))
charged_exactly n c (negsuc k) hn hw e = absurd (omega arith)
