-- ===== src/Affinity/Lookups.antt =====
-- What `Get` answers after each of the cache's operations.
use cli_relay.Prelude.{List, [], ◌∷◌, String, ◌≡◌, arith, if◌then◌else◌, ◌==◌, eq_iff, eq_refl}
use cli_relay.Prelude.Int.{ℤ, pos, ◌+ℤ◌, ◌*ℤ◌, ◌≤ℤ◌, ◌<ℤ◌, ltb_ℤ, leb_ℤ, int64, int64_id, FitsInt64}
use cli_relay.Prelude.Maps.{
  delete-HasDistinctKeys, insert-HasDistinctKeys, delete_where-HasDistinctKeys, HasDistinctKeys,
  lookup-insert, lookup-delete_where,
}
use cli_relay.Affinity.{
  new_affinity_cache, Operation, gets, sets, evicts, ticks, apply, run, is_expired, get_delete,
  AffinityCache, key, second, get, get_read, set, evict_channel, cleanup,
}

-- The map holds each key once, as Go's maps do.
abbrev pub IsMap : AffinityCache → Type 0
IsMap ac = HasDistinctKeys ac.entries

abbrev pub answer : AffinityCache → String → String → ℤ → String
answer ac token_id model now = (get ac token_id model now).1

-- Where the time to live is positive and fits 64 bits in nanoseconds: a fresh mapping is answered
-- up to its last instant, and from then on nothing is.
pub get-set :
    (ac : AffinityCache) (token_id model channel_id : String) (ttl now later : ℤ)
    → pos 0 <ℤ ttl
    → FitsInt64 (ttl *ℤ second)
    → answer (set ac token_id model channel_id ttl now) token_id model later
      ≡ (if leb_ℤ later (now +ℤ ttl *ℤ second) then channel_id else "")
unfolding get get_read set
get-set ac token_id model channel_id ttl now later h fits = ground (
  arith,
  lookup-insert (key token_id model) (key token_id model)
      (record { channel_id = channel_id; expires_at = now +ℤ int64 (ttl *ℤ second) }) ac.entries,
  eq_refl (key token_id model),
  int64_id (ttl *ℤ second) fits,
)

evict_channel-answer :
    (ac : AffinityCache) (channel_id token_id model : String) (now : ℤ)
    → IsMap ac
    → answer (evict_channel ac channel_id) token_id model now
      ≡ (if answer ac token_id model now == channel_id then "" else answer ac token_id model now)
unfolding get get_read evict_channel
evict_channel-answer ac channel_id token_id model now h = ground (
  arith,
  lookup-delete_where (λ e. e.channel_id == channel_id) (key token_id model) ac.entries h,
  eq_iff "" channel_id,
)

cleanup-answer :
    (ac : AffinityCache) (token_id model : String) (now later : ℤ)
    → IsMap ac
    → now ≤ℤ later
    → answer (cleanup ac now) token_id model later ≡ answer ac token_id model later
unfolding get get_read cleanup
cleanup-answer ac token_id model now later h le =
    ground
      (arith, lookup-delete_where (λ e. ltb_ℤ e.expires_at now) (key token_id model) ac.entries h)

get-IsMap :
    (ac : AffinityCache) (token_id model : String) (now : ℤ)
    → IsMap ac
    → IsMap (get ac token_id model now).0
unfolding get get_delete
get-IsMap ac token_id model now h =
    ground (arith, delete-HasDistinctKeys (key token_id model) ac.entries h)

set-IsMap :
    (ac : AffinityCache) (token_id model channel_id : String) (ttl now : ℤ)
    → IsMap ac
    → IsMap (set ac token_id model channel_id ttl now)
unfolding set
set-IsMap ac token_id model channel_id ttl now h = ground (
  arith,
  insert-HasDistinctKeys (key token_id model)
      (record { channel_id = channel_id; expires_at = now +ℤ int64 (ttl *ℤ second) }) ac.entries h,
)

apply-IsMap : (ac : AffinityCache) (op : ℤ × Operation) → IsMap ac → IsMap (apply ac op)
unfolding apply evict_channel cleanup
apply-IsMap ac (now, gets token_id model) h = get-IsMap ac token_id model now h
apply-IsMap ac (now, sets token_id model channel_id ttl) h =
    set-IsMap ac token_id model channel_id ttl now h
apply-IsMap ac (now, evicts channel_id) h =
    delete_where-HasDistinctKeys (λ e. e.channel_id == channel_id) ac.entries h
apply-IsMap ac (now, ticks) h = delete_where-HasDistinctKeys (is_expired now) ac.entries h

pub run-IsMap : (ac : AffinityCache) (ops : List (ℤ × Operation)) → IsMap ac → IsMap (run ac ops)
unfolding run
run-IsMap ac [] h = h
run-IsMap ac (op ∷ ops) h = run-IsMap (apply ac op) ops (apply-IsMap ac op h)

-- In every reachable cache an evicted channel is answered for no token and model; another channel
-- is answered as before.
pub evict_channel-run :
    (ops : List (ℤ × Operation)) (channel_id token_id model : String) (now : ℤ)
    → let ac = run new_affinity_cache ops in
      answer (evict_channel ac channel_id) token_id model now
      ≡ (if answer ac token_id model now == channel_id then "" else answer ac token_id model now)
unfolding new_affinity_cache
evict_channel-run ops channel_id token_id model now =
    evict_channel-answer (run (record { entries = [] }) ops) channel_id token_id model now
      (run-IsMap (record { entries = [] }) ops tt)

-- In every reachable cache a tick of the cleaner changes no answer from its own time on.
pub cleanup-run :
    (ops : List (ℤ × Operation)) (token_id model : String) (now later : ℤ)
    → now ≤ℤ later
    → let ac = run new_affinity_cache ops in
      answer (cleanup ac now) token_id model later ≡ answer ac token_id model later
unfolding new_affinity_cache
cleanup-run ops token_id model now later le =
    cleanup-answer (run (record { entries = [] }) ops) token_id model now later
      (run-IsMap (record { entries = [] }) ops tt) le
