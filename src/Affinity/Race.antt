-- ===== src/Affinity/Race.antt =====
-- `Get` of internal/relay/affinity.go around another call, which takes its turn between the two
-- locks.
use cli_relay.Prelude.{String, true, ◌≡◌, arith, eq_refl}
use cli_relay.Prelude.Int.{ℤ, pos, ◌+ℤ◌, ◌*ℤ◌, ◌<ℤ◌, ◌≤ℤ◌, FitsInt64}
use cli_relay.Prelude.Maps.{lookup-delete}
use cli_relay.Affinity.{AffinityCache, key, second, set, get, get_read, get_delete, get_around}
use cli_relay.Affinity.Lookups.{answer, get-set}

interleaved :
    (ac : AffinityCache) (token_id model : String) (now later : ℤ)
    (others : AffinityCache → AffinityCache)
    → (get_read ac token_id model now).1 ≡ true
    → answer (get_around ac token_id model now others).0 token_id model later ≡ ""
unfolding get get_around get_read get_delete
interleaved ac token_id model now later others stale = ground (
  arith,
  lookup-delete (key token_id model) (key token_id model) (others ac).entries,
  eq_refl (key token_id model),
)

-- Where a `Get` finds an expired entry and a `Set` with a positive time to live that fits 64 bits
-- comes at the same time: the new mapping is answered for as long as it lives if the `Set` comes
-- after the `Get`, and nothing is if it falls between the two locks of the `Get`.
pub get_around_loses_set :
    (ac : AffinityCache) (token_id model channel_id : String) (ttl now later : ℤ)
    → pos 0 <ℤ ttl
    → FitsInt64 (ttl *ℤ second)
    → (get_read ac token_id model now).1 ≡ true
    → later ≤ℤ now +ℤ ttl *ℤ second
    → let record_it = λ (c : AffinityCache). set c token_id model channel_id ttl now in
      (answer (record_it (get ac token_id model now).0) token_id model later ≡ channel_id)
      × (answer (get_around ac token_id model now record_it).0 token_id model later ≡ "")
get_around_loses_set ac token_id model channel_id ttl now later h fits stale soon = (
  ground
      (arith, get-set (get ac token_id model now).0 token_id model channel_id ttl now later h fits),
  interleaved ac token_id model now later (λ c. set c token_id model channel_id ttl now) stale,
)
