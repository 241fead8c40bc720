-- ===== src/Affinity.antt =====
-- internal/relay/affinity.go: the channel that served a token and model last, for a time. A time
-- is in nanoseconds. `Get` gives its read lock back before it takes the write lock to delete, so it
-- is two steps here, and `get` is the call that nothing interrupts.
pub mod Lookups
pub mod Keys
pub mod Race
mod Tests
use cli_relay.Prelude.{
  String, Bool, true, false, Option, none, some, List, [], ◌∷◌, if◌then◌else◌, ◌==◌, ◌^◌,
}
use cli_relay.Prelude.Int.{ℤ, pos, ◌+ℤ◌, ◌*ℤ◌, ltb_ℤ, leb_ℤ, int64}
use cli_relay.Prelude.Maps.{lookup, insert, delete, delete_where}
use cli_relay.Prelude.Text.{append}

pub record AffinityEntry : Type 0 where
  pub channel_id : String
  pub expires_at : ℤ

pub record AffinityCache : Type 0 where
  pub entries : List (String × AffinityEntry)

unfoldable pub new_affinity_cache : AffinityCache
new_affinity_cache = record { entries = [] }

unfoldable pub key : String → String → String
key token_id model = append token_id (append ":" model)

abbrev pub second : ℤ
second = pos (10 ^ 9)

abbrev pub is_expired : ℤ → AffinityEntry → Bool
is_expired now e = ltb_ℤ e.expires_at now

-- `Get` under its read lock: the answer, and whether the entry has to be deleted.
abbrev pub read_entry : ℤ → Option AffinityEntry → String × Bool
read_entry now none = ("", false)
read_entry now (some e) = if is_expired now e then ("", true) else (e.channel_id, false)

unfoldable pub get_read : AffinityCache → String → String → ℤ → String × Bool
get_read ac token_id model now = read_entry now (lookup (key token_id model) ac.entries)

-- `Get` under its write lock.
unfoldable pub get_delete : AffinityCache → String → String → AffinityCache
get_delete ac token_id model = record { entries = delete (key token_id model) ac.entries }

unfoldable pub get : AffinityCache → String → String → ℤ → AffinityCache × String
get ac token_id model now =
    let (answer, stale) = get_read ac token_id model now in
    (if stale then get_delete ac token_id model else ac, answer)

unfoldable pub set : AffinityCache → String → String → String → ℤ → ℤ → AffinityCache
set ac token_id model channel_id ttl_seconds now =
    if leb_ℤ ttl_seconds (pos 0) then ac else record {
      entries =
          insert (key token_id model)
            (record { channel_id = channel_id; expires_at = now +ℤ int64 (ttl_seconds *ℤ second) })
            ac.entries;
    }

unfoldable pub evict_channel : AffinityCache → String → AffinityCache
evict_channel ac channel_id = record {
  entries = delete_where (λ e. e.channel_id == channel_id) ac.entries;
}

-- One tick of `cleanup`.
pub cleanup : AffinityCache → ℤ → AffinityCache
cleanup ac now = record { entries = delete_where (is_expired now) ac.entries }

-- A `Get` whose two steps let other calls in between them.
pub get_around :
    AffinityCache → String → String → ℤ → (AffinityCache → AffinityCache) → AffinityCache × String
get_around ac token_id model now others =
    let (answer, stale) = get_read ac token_id model now in
    let between = others ac in
    (if stale then get_delete between token_id model else between, answer)

pub data Operation : Type 0 where
  gets : String → String → Operation
  sets : String → String → String → ℤ → Operation
  evicts : String → Operation
  ticks : Operation

-- One call at a time.
pub apply : AffinityCache → ℤ × Operation → AffinityCache
apply ac (now, gets token_id model) = (get ac token_id model now).0
apply ac (now, sets token_id model channel_id ttl) = set ac token_id model channel_id ttl now
apply ac (now, evicts channel_id) = evict_channel ac channel_id
apply ac (now, ticks) = cleanup ac now

pub run : AffinityCache → List (ℤ × Operation) → AffinityCache
run ac [] = ac
run ac (op ∷ ops) = run (apply ac op) ops
