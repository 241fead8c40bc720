-- ===== src/Limiter/Tests.antt =====
-- Tests of the limiter, and its theorems at concrete inputs.
use cli_relay.Prelude.{◌≡◌, refl, arith, true, false, [], ◌∷◌}
use cli_relay.Prelude.Int.{pos, int64, ◌+ℤ◌, ◌-ℤ◌}
use cli_relay.Prelude.Maps.{lookup, insert, delete}
use cli_relay.Limiter.Refinement.{Agree, run-Agree}
use cli_relay.Limiter.{new_concurrency_limiter, active, acquire, release, run, acquires, releases}

limiter : Unit {0}
unfolding new_concurrency_limiter active acquire release run int64 ◌+ℤ◌ ◌-ℤ◌ lookup insert delete
limiter = tt

third_waits :
    (run
      (new_concurrency_limiter (pos 2))
      (acquires "a" ∷ acquires "a" ∷ acquires "a" ∷ releases "a" ∷ acquires "a" ∷ [])).1
    ≡ true ∷ true ∷ false ∷ true ∷ []
unfolding limiter
third_waits = refl

run-Agree_example :
    Agree
      (new_concurrency_limiter (pos 2))
      (pos 2)
      (λ _. pos 0)
      (acquires "a" ∷ acquires "b" ∷ releases "a" ∷ releases "a" ∷ [])
run-Agree_example = run-Agree (pos 2) _ (omega arith) (omega arith)
