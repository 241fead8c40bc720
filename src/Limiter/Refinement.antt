-- ===== src/Limiter/Refinement.antt =====
-- The limiter against its contract: one counter for each key, from 0 up to the limit.
use mathlib.Core.Path.{subst₂}
use cli_relay.Prelude.{
  String, Bool, true, false, List, [], ◌∷◌, ◌≡◌, refl, arith, ◌∙◌, inl, inr, Bool-cases,
  if◌then◌else◌, ◌==◌, eq_iff, eq_refl, fun_ext,
}
use cli_relay.Prelude.Int.{
  ℤ, pos, ◌+ℤ◌, ◌-ℤ◌, ◌≤ℤ◌, ◌<ℤ◌, ltb_ℤ, int64, int64_id, FitsInt64, int_laws, +ℤ_parts, -ℤ_parts,
  eq_of_parts,
}
use cli_relay.Prelude.Maps.{lookup, insert, delete, lookup-insert, lookup-delete}
use cli_relay.Limiter.{
  ConcurrencyLimiter, new_concurrency_limiter, active, acquire, decrement, drop_idle, release, run,
  Event, acquires, releases,
}

pub active-insert :
    (k j : String) (n : ℤ) (m : List (String × ℤ))
    → active (insert k n m) j ≡ (if k == j then n else active m j)
unfolding active
active-insert k j n m = rw lookup-insert (ground arith)

pub active-delete :
    (k j : String) (m : List (String × ℤ))
    → active (delete k m) j ≡ (if k == j then pos 0 else active m j)
unfolding active
active-delete k j m = rw lookup-delete (ground arith)

-- The contract's state gives each key the number of its requests under way.
abbrev pub Counters : Type 0
Counters = String → ℤ

abbrev pub set_counter : String → ℤ → Counters → Counters
set_counter k n f j = if k == j then n else f j

-- Every counter is between 0 and the limit.
abbrev pub InRange : ℤ → Counters → Type 0
InRange limit f = (k : String) → (pos 0 ≤ℤ f k) × (f k ≤ℤ limit)

abbrev pub spec_acquire : ℤ → Counters → String → Counters × Bool
spec_acquire limit f k =
    if ltb_ℤ (f k) limit then (set_counter k (f k +ℤ pos 1) f, true) else (f, false)

abbrev pub spec_release : Counters → String → Counters
spec_release f k = if ltb_ℤ (pos 0) (f k) then set_counter k (f k -ℤ pos 1) f else f

-- A counter that is dropped at zero still reads as zero.
drop_idle-counts :
    (k j : String) (m : List (String × ℤ))
    → pos 0 ≤ℤ active m k
    → active (drop_idle k m) j ≡ active m j
unfolding drop_idle
drop_idle-counts k j m h = elim (Bool-cases (k == j)) [
  | inl same ↦
      rw (← (eq_iff k j).0 same)
        (ground (arith, active-delete k k m, eq_refl k, eq_of_parts (active m k) (pos 0)))
  | inr other ↦ ground (arith, active-delete k j m)
]

module _ (cl : ConcurrencyLimiter) (k : String) (fits : FitsInt64 cl.limit)
    (limited : pos 0 <ℤ cl.limit) (range : InRange cl.limit (active cl.counts)) where
  next_fits : active cl.counts k <ℤ cl.limit → FitsInt64 (active cl.counts k +ℤ pos 1)
  next_fits h = let r = range k in omega int_laws

  last_fits : FitsInt64 (active cl.counts k -ℤ pos 1)
  last_fits = let r = range k in omega int_laws

  pub acquire-limit : (acquire cl k).0.limit ≡ cl.limit
  unfolding acquire
  acquire-limit = ground arith

  pub acquire-answer : (acquire cl k).1 ≡ (spec_acquire cl.limit (active cl.counts) k).1
  unfolding acquire
  acquire-answer = ground arith

  pub acquire-counts :
      (j : String)
      → active (acquire cl k).0.counts j ≡ (spec_acquire cl.limit (active cl.counts) k).0 j
  unfolding acquire
  acquire-counts j = ground (
    arith,
    active-insert k j (int64 (active cl.counts k +ℤ pos 1)) cl.counts,
    λ (h : active cl.counts k <ℤ cl.limit). int64_id (active cl.counts k +ℤ pos 1) (next_fits h),
  )

  decrement-counts :
      (j : String) → active (decrement k cl.counts) j ≡ spec_release (active cl.counts) k j
  unfolding decrement
  decrement-counts j = ground (
    arith,
    active-insert k j (int64 (active cl.counts k -ℤ pos 1)) cl.counts,
    int64_id (active cl.counts k -ℤ pos 1) last_fits,
  )

  spec_release-nonneg : pos 0 ≤ℤ spec_release (active cl.counts) k k
  spec_release-nonneg = ground (arith, range k, eq_refl k, -ℤ_parts (active cl.counts k) (pos 1))

  pub release-counts :
      (j : String) → active (release cl k).counts j ≡ spec_release (active cl.counts) k j
  unfolding release
  release-counts j =
      drop_idle-counts k j (decrement k cl.counts) (rw decrement-counts spec_release-nonneg)
      ∙ decrement-counts j

  pub InRange-acquire : InRange cl.limit (active (acquire cl k).0.counts)
  InRange-acquire j =
      rw acquire-counts (ground (arith, range j, range k, +ℤ_parts (active cl.counts k) (pos 1)))

  InRange-release : InRange cl.limit (active (release cl k).counts)
  InRange-release j =
      rw release-counts (ground (arith, range j, range k, -ℤ_parts (active cl.counts k) (pos 1)))

-- The contract along a history.
abbrev pub spec_run : ℤ → Counters → List Event → Counters × List Bool
spec_run limit f [] = (f, [])
spec_run limit f (acquires key ∷ events) =
    let (f', granted) = spec_acquire limit f key in
    let (last, answers) = spec_run limit f' events in (last, granted ∷ answers)
spec_run limit f (releases key ∷ events) = spec_run limit (spec_release f key) events

-- The limiter and its contract agree after any history: on each counter, on every answer of
-- `Acquire`, and no counter leaves the range from 0 to the limit.
abbrev pub Agree : ConcurrencyLimiter → ℤ → Counters → List Event → Type 0
Agree cl limit f events =
    (active (run cl events).0.counts ≡ (spec_run limit f events).0)
    × ((run cl events).1 ≡ (spec_run limit f events).1)
    × InRange limit (spec_run limit f events).0

Agree-at :
    {limit : ℤ} {f : Counters} (cl : ConcurrencyLimiter) (events : List Event)
    → cl.limit ≡ limit
    → active cl.counts ≡ f
    → Agree cl cl.limit (active cl.counts) events
    → Agree cl limit f events
Agree-at cl events same counts a = subst₂ (λ l g. Agree cl l g events) same counts a

release-limit : (cl : ConcurrencyLimiter) (k : String) → (release cl k).limit ≡ cl.limit
unfolding release
release-limit cl k = refl

run_from :
    (events : List Event) (cl : ConcurrencyLimiter)
    → FitsInt64 cl.limit
    → pos 0 <ℤ cl.limit
    → InRange cl.limit (active cl.counts)
    → Agree cl cl.limit (active cl.counts) events
unfolding run
run_from [] cl fits limited range = (refl, refl, range)
run_from (acquires k ∷ events) cl fits limited range =
    let cl' = (acquire cl k).0 in
    let same = acquire-limit cl k fits limited range in
    let counts = fun_ext (acquire-counts cl k fits limited range) in
    let answer = acquire-answer cl k fits limited range in
    let ih =
      run_from events cl' (rw same fits) (rw same limited)
        (rw same (InRange-acquire cl k fits limited range)) in
    let (last, answers, bounds) = Agree-at cl' events same counts ih in
    (last, (λ i. answer i ∷ answers i), bounds)
run_from (releases k ∷ events) cl fits limited range =
    let cl' = release cl k in
    let same = release-limit cl k in
    let counts = fun_ext (release-counts cl k fits limited range) in
    let ih =
      run_from events cl' (rw same fits) (rw same limited)
        (rw same (InRange-release cl k fits limited range)) in
    Agree-at cl' events same counts ih

-- From an empty limiter with a positive limit of 64 bits, every history of calls is answered as
-- the contract answers it, every counter is the contract's, and none leaves the range from zero to
-- the limit.
pub run-Agree :
    (limit : ℤ) (events : List Event)
    → FitsInt64 limit
    → pos 0 <ℤ limit
    → Agree (new_concurrency_limiter limit) limit (λ _. pos 0) events
unfolding new_concurrency_limiter active lookup
run-Agree limit events fits limited =
    run_from events (new_concurrency_limiter limit) fits limited (λ k. (omega arith, omega arith))
