-- ===== src/Users/Revocation.antt =====
-- `DeleteKey` of internal/user/service.go, and then a request with the key.
use cli_relay.Prelude.{
  String, true, false, none, List, [], ◌∷◌, ◌≡◌, ◌⊎◌, refl, ◌∙◌, ap, arith, ◌==◌, ◌&&◌, find,
  find-true, Option-cases, eq_iff, inl, inr, Bool-cases, All, update_where,
}
use cli_relay.Prelude.Int.{ℤ}
use cli_relay.Prelude.Results.{ok}
use cli_relay.Db.{Database, Token}
use cli_relay.Db.Queries.{is_live}
use cli_relay.Relay.Access.{extract_bearer_token}
use cli_relay.Relay.Guards.{authorize}
use cli_relay.Relay.Http.{Request, reject, error_response}
use cli_relay.Users.{Services, Config}
use cli_relay.Users.ApiKeys.{delete_key, mark_deleted}

-- The unique index on keys: the rows with this key have this id.
abbrev pub HasOwner : String → String → List Token → Type 0
HasOwner key id = All (λ t. ((t.key == key) ≡ false) ⊎ ((t.id == id) ≡ true))

find-deleted :
    (now : ℤ) (key id : String) (tokens : List Token)
    → HasOwner key id tokens
    → find
        (λ t. t.key == key && t.enabled && is_live t.deleted_at)
        (update_where (λ t. t.id == id) (mark_deleted now) tokens)
      ≡ none
find-deleted now key id [] h = refl
find-deleted now key id (t ∷ tokens) (h, hs) =
    let ih = find-deleted now key id tokens hs in
    elim (Bool-cases (t.id == id)) [
      | inl own ↦ rw own (ground (arith, ih))
      | inr other ↦ elim h [ inl different ↦ rw (other, different) ih | inr own ↦ absurd cc ]
    ]

module _ (services : Services) (config : Config) (now : ℤ) where
  -- `DeleteKey` marks the rows of the id that it is given.
  deleted :
      (db db' : Database) (user_id key_id : String)
      → db.failing ≡ false
      → delete_key services config now db user_id key_id ≡ ok db'
      → (db'.failing ≡ false)
        × (db'.tokens ≡ update_where (λ t. t.id == key_id) (mark_deleted now) db.tokens)
  unfolding delete_key
  deleted db db' user_id key_id up e =
      elim (Option-cases
        (find (λ t. t.id == key_id && (t.user_id == user_id && is_live t.deleted_at)) db.tokens)) [
          | inl missing ↦ absurd (ground (arith, missing, up))
          | inr (t, found) ↦
              let own =
                find-true (λ t. t.id == key_id && (t.user_id == user_id && is_live t.deleted_at))
                  db.tokens t found in
              let same : t.id ≡ key_id = (eq_iff t.id key_id).0 (ground arith) in
              let marked : db'.tokens
                  ≡ update_where (λ row. row.id == t.id) (mark_deleted now) db.tokens =
                ground (arith, found, up) in
              (
                ground (arith, found, up),
                marked
                    ∙ ap (λ k. update_where (λ row. row.id == k) (mark_deleted now) db.tokens) same,
              )
        ]

  -- Where the database answers and the key is in no other row: once a user has deleted a key, no
  -- request with that key is authorized.
  pub authorize-delete_key :
      (later : ℤ) (db db' : Database) (user_id key_id : String) (req : Request)
      → db.failing ≡ false
      → (extract_bearer_token req == "") ≡ false
      → HasOwner (extract_bearer_token req) key_id db.tokens
      → delete_key services config now db user_id key_id ≡ ok db'
      → authorize db' req later ≡ reject (error_response 401 "invalid token")
  unfolding authorize
  authorize-delete_key later db db' user_id key_id req up some_key owner e =
      let (up', tokens) = deleted db db' user_id key_id up e in
      rw (some_key, up', tokens, find-deleted now (extract_bearer_token req) key_id db.tokens owner)
        refl
