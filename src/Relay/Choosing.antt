-- ===== src/Relay/Choosing.antt =====
-- What choosing a channel and its account leaves alone: it changes the database, the pools, the
-- affinity and the cache of channels, and so nothing that can be read off the other fields.
use cli_relay.Prelude.{String, List, [], ◌∷◌, ◌≡◌, refl, ◌∙◌, arith}
use cli_relay.Prelude.Int.{ℤ}
use cli_relay.Db.{Database, Account, Channel}
use cli_relay.Affinity.{AffinityCache}
use cli_relay.Pool.{PoolManager}
use cli_relay.Relay.Channels.{
  cooldown_and_evict, pick_next, retry_next, ensure_valid_credentials, get_channels, pick_account,
  first_target, by_priority_target, resolve_channel_and_account,
}
use cli_relay.Relay.State.{Services, ChannelCache, Relayer}

-- A view of the state that does not read those four fields.
pub record IsApart {ℓ} {A : Type ℓ} (view : Relayer → A) : Type ℓ where
  pub of_db : (r : Relayer) (db : Database) → view (record r { db = db }) ≡ view r
  pub of_pools : (r : Relayer) (pools : PoolManager) → view (record r { pools = pools }) ≡ view r
  pub of_affinity :
      (r : Relayer) (cache : AffinityCache) → view (record r { affinity = cache }) ≡ view r
  pub of_cache : (r : Relayer) (cache : ChannelCache) → view (record r { cache = cache }) ≡ view r

module _ {ℓ} {A : Type ℓ} (view : Relayer → A) (apart : IsApart view) (services : Services)
    (now : ℤ) where
  pub view-ensure :
      (r : Relayer) (a : Account) → view (ensure_valid_credentials services now r a).0 ≡ view r
  unfolding ensure_valid_credentials
  view-ensure r a = grind (arith, apart.of_db)

  pub view-pick_next : (r : Relayer) (id : String) → view (pick_next r id).0 ≡ view r
  unfolding pick_next
  view-pick_next r id = grind (arith, apart.of_pools)

  pub view-cooldown_and_evict :
      (r : Relayer) (id a : String) → view (cooldown_and_evict now r id a) ≡ view r
  unfolding cooldown_and_evict
  view-cooldown_and_evict r id a = grind (arith, apart.of_pools, apart.of_affinity)

  pub view-retry_next : (r : Relayer) (id a : String) → view (retry_next now r id a).0 ≡ view r
  unfolding retry_next
  view-retry_next r id a =
      view-pick_next (cooldown_and_evict now r id a) id ∙ view-cooldown_and_evict r id a

  view-get_channels : (r : Relayer) → view (get_channels r now).0 ≡ view r
  unfolding get_channels
  view-get_channels r = grind (arith, apart.of_cache)

  view-pick_account :
      (r : Relayer) (ch : Channel) → view (pick_account services now r ch).0 ≡ view r
  unfolding pick_account
  view-pick_account r ch = grind (arith, view-ensure, apart.of_pools)

  view-first_target :
      (model : String) (chs : List Channel) (r : Relayer)
      → view (first_target services now model chs r).0 ≡ view r
  unfolding first_target
  view-first_target model [] r = refl
  view-first_target model (ch ∷ chs) r =
      let r' = (pick_account services now r ch).0 in
      ground (
        arith,
        view-first_target model chs r,
        view-first_target model chs r',
        view-pick_account r ch,
      )

  view-by_priority_target :
      (model : String) (r : Relayer) → view (by_priority_target services now model r).0 ≡ view r
  unfolding by_priority_target
  view-by_priority_target model r =
      let (r', channels) = get_channels r now in
      view-first_target model channels r' ∙ view-get_channels r

  pub view-resolve :
      (r : Relayer) (token_id model : String)
      → view (resolve_channel_and_account services now r token_id model).0 ≡ view r
  unfolding resolve_channel_and_account
  view-resolve r token_id model =
      grind (arith, view-by_priority_target model, view-pick_account, apart.of_affinity)
