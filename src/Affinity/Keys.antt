-- ===== src/Affinity/Keys.antt =====
-- The key of a mapping, which joins the token's id and the model by a colon.
use Prim.Native.Char.{code}
use Prim.Native.String.{[], ◌∷◌}
use text.Mathlib.TextLemmas.{head-eq_of_cons-eq, tail-eq_of_cons-eq}
use cli_relay.Prelude.{String, ◌≡◌, ◌≢◌, refl, sym, arith, ap, eq_iff}
use cli_relay.Prelude.Text.{append}
use cli_relay.Prelude.Int.{ℤ, ◌+ℤ◌, ◌*ℤ◌, int64}
use cli_relay.Prelude.Maps.{lookup-insert}
use cli_relay.Affinity.{AffinityCache, key, second, set, get, get_read}
use cli_relay.Affinity.Lookups.{answer}

abbrev pub NoColon : String → Type 0
NoColon [] = Unit
NoColon (c ∷ s) = (code c ≢ b':') × NoColon s

pub key-injective :
    (t u m n : String) → NoColon t → NoColon u → key t m ≡ key u n → (t ≡ u) × (m ≡ n)
unfolding key append
key-injective [] [] m n _ _ e = (refl, tail-eq_of_cons-eq e)
key-injective [] (d ∷ u) m n _ (q, _) e = absurd (q (sym (ap code (head-eq_of_cons-eq e))))
key-injective (c ∷ t) [] m n (p, _) _ e = absurd (p (ap code (head-eq_of_cons-eq e)))
key-injective (c ∷ t) (d ∷ u) m n (_, h) (_, k) e =
    ground (arith, key-injective t u m n h k, head-eq_of_cons-eq e)

-- Where the ids of tokens have no colon: a `Set` for another token or another model does not
-- change what a `Get` answers.
pub get-set_ne :
    (ac : AffinityCache) (t m u n channel_id : String) (ttl now later : ℤ)
    → NoColon t
    → NoColon u
    → ¬ ((t ≡ u) × (m ≡ n))
    → answer (set ac t m channel_id ttl now) u n later ≡ answer ac u n later
unfolding get get_read set
get-set_ne ac t m u n channel_id ttl now later h k differ = ground (
  arith,
  lookup-insert (key t m) (key u n)
      (record { channel_id = channel_id; expires_at = now +ℤ int64 (ttl *ℤ second) }) ac.entries,
  eq_iff (key t m) (key u n),
  λ (e : key t m ≡ key u n). differ (key-injective t u m n h k e),
)
