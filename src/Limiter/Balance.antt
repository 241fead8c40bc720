-- ===== src/Limiter/Balance.antt =====
-- `Acquire` and then `Release` of internal/relay/concurrency.go, on the counters.
use cli_relay.Prelude.{String, true, false, ◌≡◌, ◌∙◌, arith, eq_iff, eq_refl}
use cli_relay.Prelude.Int.{ℤ, pos, ◌+ℤ◌, ◌-ℤ◌, ◌<ℤ◌, FitsInt64, int_laws, +ℤ_parts}
use cli_relay.Limiter.{ConcurrencyLimiter, active, acquire, release}
use cli_relay.Limiter.Refinement.{
  InRange, acquire-limit, acquire-answer, acquire-counts, release-counts, InRange-acquire,
}

plus_minus : (z : ℤ) → z +ℤ pos 1 -ℤ pos 1 ≡ z
plus_minus z = omega int_laws

module _ (cl : ConcurrencyLimiter) (k : String) (fits : FitsInt64 cl.limit)
    (limited : pos 0 <ℤ cl.limit) (range : InRange cl.limit (active cl.counts)) where
  pub acquire-refused : (acquire cl k).1 ≡ false → (acquire cl k).0 ≡ cl
  unfolding acquire
  acquire-refused h = ground arith

  abbrev taken : ConcurrencyLimiter
  taken = (acquire cl k).0

  pub release-acquire :
      (acquire cl k).1 ≡ true
      → (j : String) → active (release taken k).counts j ≡ active cl.counts j
  release-acquire h j =
      let same = acquire-limit cl k fits limited range in
      let after =
        release-counts taken k (rw same fits) (rw same limited)
          (rw same (InRange-acquire cl k fits limited range)) j in
      let answer = acquire-answer cl k fits limited range in
      after
      ∙ ground (
        arith,
        acquire-counts cl k fits limited range j,
        acquire-counts cl k fits limited range k,
        plus_minus (active cl.counts k),
        range k,
        eq_iff k j,
        eq_refl k,
        +ℤ_parts (active cl.counts k) (pos 1),
        h,
        answer,
      )
