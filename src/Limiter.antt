-- ===== src/Limiter.antt =====
-- internal/relay/concurrency.go: the number of requests that each token has under way.
pub mod Refinement
pub mod Balance
mod Tests
use cli_relay.Prelude.{String, Bool, true, false, Option, none, some, List, [], ◌∷◌, if◌then◌else◌}
use cli_relay.Prelude.Int.{ℤ, pos, ◌+ℤ◌, ◌-ℤ◌, ltb_ℤ, leb_ℤ, int64}
use cli_relay.Prelude.Maps.{lookup, insert, delete}

pub record ConcurrencyLimiter : Type 0 where
  pub counts : List (String × ℤ)
  pub limit : ℤ

unfoldable pub new_concurrency_limiter : ℤ → ConcurrencyLimiter
new_concurrency_limiter limit = record { counts = []; limit = limit }

-- `counts[key]`: a missing key reads as zero.
abbrev value_or_zero : Option ℤ → ℤ
value_or_zero none = pos 0
value_or_zero (some n) = n

unfoldable pub active : List (String × ℤ) → String → ℤ
active counts key = value_or_zero (lookup key counts)

-- Reserves a slot for the key; `false` if it is at capacity.
unfoldable pub acquire : ConcurrencyLimiter → String → ConcurrencyLimiter × Bool
acquire cl key =
    let count = active cl.counts key in
    if leb_ℤ cl.limit (pos 0)
    then (cl, true)
    else if leb_ℤ cl.limit count
    then (cl, false)
    else (record cl { counts = insert key (int64 (count +ℤ pos 1)) cl.counts }, true)

-- The first test of `Release`, and the second.
unfoldable pub decrement : String → List (String × ℤ) → List (String × ℤ)
decrement key counts =
    let count = active counts key in
    if ltb_ℤ (pos 0) count then insert key (int64 (count -ℤ pos 1)) counts else counts

unfoldable pub drop_idle : String → List (String × ℤ) → List (String × ℤ)
drop_idle key counts = if leb_ℤ (active counts key) (pos 0) then delete key counts else counts

-- Frees a slot for the key.
unfoldable pub release : ConcurrencyLimiter → String → ConcurrencyLimiter
unfolding decrement drop_idle
release cl key = record cl { counts = drop_idle key (decrement key cl.counts) }

pub data Event : Type 0 where
  acquires : String → Event
  releases : String → Event

-- A history of calls, in the order in which they took the mutex, with what each `Acquire` answered.
pub run : ConcurrencyLimiter → List Event → ConcurrencyLimiter × List Bool
run cl [] = (cl, [])
run cl (acquires key ∷ events) =
    let (cl', granted) = acquire cl key in
    let (last, answers) = run cl' events in (last, granted ∷ answers)
run cl (releases key ∷ events) = run (release cl key) events
