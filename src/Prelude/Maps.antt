-- ===== src/Prelude/Maps.antt =====
-- Go maps with string keys, as association lists. Writing keeps the place of an old key.
use cli_relay.Prelude.{
  String, ◌≡◌, refl, ap, arith, Option, none, some, List, [], ◌∷◌, Bool, if◌then◌else◌, ◌==◌,
  eq_iff, is_some, false,
}

module _ {ℓ} {V : Type ℓ} where
  unfoldable pub lookup : String → List (String × V) → Option V
  lookup wanted [] = none
  lookup wanted ((name, value) ∷ rest) = if name == wanted then some value else lookup wanted rest

  unfoldable pub insert : String → V → List (String × V) → List (String × V)
  insert written new [] = (written, new) ∷ []
  insert written new ((name, old) ∷ rest) =
      if name == written then (name, new) ∷ rest else (name, old) ∷ insert written new rest

  unfoldable pub delete : String → List (String × V) → List (String × V)
  delete unwanted [] = []
  delete unwanted ((name, value) ∷ rest) =
      let kept = delete unwanted rest in if name == unwanted then kept else (name, value) ∷ kept

  -- The loop that deletes while it ranges over the map.
  unfoldable pub delete_where : (V → Bool) → List (String × V) → List (String × V)
  delete_where p [] = []
  delete_where p ((j, v) ∷ m) = let rest = delete_where p m in if p v then rest else (j, v) ∷ rest

  -- What is read after a write: the new value under the name that was written, the old one elsewhere.
  pub lookup-insert :
      (written wanted : String) (new : V) (rest : List (String × V))
      → lookup wanted (insert written new rest)
        ≡ (if written == wanted then some new else lookup wanted rest)
  unfolding insert lookup
  lookup-insert written wanted new ((name, old) ∷ rest) =
      let ih = lookup-insert written wanted new rest in
      ground (arith, ih, eq_iff name wanted, eq_iff name written, eq_iff written wanted)
  lookup-insert written wanted new [] = refl

  pub lookup-delete :
      (unwanted wanted : String) (rest : List (String × V))
      → lookup wanted (delete unwanted rest)
        ≡ (if unwanted == wanted then none else lookup wanted rest)
  unfolding delete lookup
  lookup-delete unwanted wanted ((name, value) ∷ rest) =
      let ih = lookup-delete unwanted wanted rest in
      ground (arith, ih, eq_iff name wanted, eq_iff name unwanted, eq_iff unwanted wanted)
  lookup-delete unwanted wanted [] = ground arith

  -- No key stands twice.
  abbrev pub HasDistinctKeys : List (String × V) → Type 0
  HasDistinctKeys [] = Unit
  HasDistinctKeys ((k, v) ∷ m) = (is_some (lookup k m) ≡ false) × HasDistinctKeys m

  abbrev pub reject : (V → Bool) → Option V → Option V
  reject p none = none
  reject p (some v) = if p v then none else some v

  pub lookup-delete_where :
      (p : V → Bool) (j : String) (m : List (String × V))
      → HasDistinctKeys m
      → lookup j (delete_where p m) ≡ reject p (lookup j m)
  unfolding lookup delete_where
  lookup-delete_where p j [] h = refl
  lookup-delete_where p j ((i, w) ∷ m) (fresh, h) = ground (
    arith,
    eq_iff i j,
    lookup-delete_where p j m h,
    ap (λ k. is_some (lookup k m)) {x = i} {y = j},
  )

  is_some-lookup-insert :
      (k j : String) (v : V) (m : List (String × V))
      → (k == j) ≡ false
      → is_some (lookup j (insert k v m)) ≡ is_some (lookup j m)
  is_some-lookup-insert k j v m h = rw (lookup-insert, h)

  pub insert-HasDistinctKeys :
      (k : String) (v : V) (m : List (String × V))
      → HasDistinctKeys m
      → HasDistinctKeys (insert k v m)
  unfolding insert
  insert-HasDistinctKeys k v [] h = (unfold lookup in refl, tt)
  insert-HasDistinctKeys k v ((i, w) ∷ m) (fresh, h) =
      ground (
        arith,
        eq_iff i k,
        eq_iff k i,
        is_some-lookup-insert k i v m,
        insert-HasDistinctKeys k v m h,
      )

  pub delete_where-HasDistinctKeys :
      (p : V → Bool) (m : List (String × V))
      → HasDistinctKeys m
      → HasDistinctKeys (delete_where p m)
  unfolding delete_where
  delete_where-HasDistinctKeys p [] h = tt
  delete_where-HasDistinctKeys p ((i, w) ∷ m) (fresh, h) =
      ground (arith, lookup-delete_where p i m h, delete_where-HasDistinctKeys p m h)

  pub delete-HasDistinctKeys :
      (k : String) (m : List (String × V)) → HasDistinctKeys m → HasDistinctKeys (delete k m)
  unfolding delete
  delete-HasDistinctKeys k [] h = tt
  delete-HasDistinctKeys k ((i, w) ∷ m) (fresh, h) =
      ground (arith, lookup-delete k i m, delete-HasDistinctKeys k m h)
