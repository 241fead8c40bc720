-- ===== src/Affinity/Tests.antt =====
-- Tests of the cache, and its theorems at concrete inputs.
use cli_relay.Prelude.{◌≡◌, ◌==◌, ◌^◌, ◌*◌, ◌+◌, eq_iff, if◌then◌else◌, refl, arith, true, [], ◌∷◌}
use cli_relay.Prelude.Int.{pos, int64, ◌+ℤ◌, ◌*ℤ◌, leb_ℤ}
use cli_relay.Prelude.Maps.{lookup, insert, delete, delete_where}
use cli_relay.Prelude.Text.{append}
use cli_relay.Affinity.{
  AffinityCache, new_affinity_cache, key, second, get, get_read, get_delete, get_around, set,
  evict_channel, cleanup, apply, run, sets,
}
use cli_relay.Affinity.Lookups.{answer, get-set, evict_channel-run, cleanup-run}
use cli_relay.Affinity.Keys.{get-set_ne}
use cli_relay.Affinity.Race.{get_around_loses_set}

affinity : Unit {0}
unfolding new_affinity_cache key get get_read get_delete set evict_channel cleanup apply run append
    lookup insert delete delete_where int64 ◌+ℤ◌ ◌*ℤ◌
affinity = tt

abbrev cached : AffinityCache
cached = set new_affinity_cache "t1" "gpt" "ch1" (pos 2) (pos 0)

answers :
    (answer cached "t1" "gpt" (pos (2 * 10 ^ 9)) ≡ "ch1")
    × (answer cached "t1" "gpt" (pos (2 * 10 ^ 9 + 1)) ≡ "")
    × (answer cached "t2" "gpt" (pos 1) ≡ "")
unfolding affinity
answers = (refl, refl, refl)

get-set_example :
    answer cached "t1" "gpt" (pos 5)
    ≡ (if leb_ℤ (pos 5) (pos 0 +ℤ pos 2 *ℤ second) then "ch1" else "")
unfolding ◌*ℤ◌
get-set_example =
    get-set new_affinity_cache "t1" "gpt" "ch1" (pos 2) (pos 0) (pos 5) (omega arith) (omega arith)

get-set_ne_example :
    answer (set cached "t2" "gpt" "ch2" (pos 2) (pos 0)) "t1" "gpt" (pos 1)
    ≡ answer cached "t1" "gpt" (pos 1)
get-set_ne_example =
    get-set_ne cached "t2" "gpt" "t1" "gpt" "ch2" (pos 2) (pos 0) (pos 1) (omega arith)
      (omega arith) (λ e. let clash : ("t2" == "t1") ≡ true = (eq_iff _ _).1 e.0 in cc)

evict_channel-run_example :
    answer
      (evict_channel (run new_affinity_cache ((pos 0, sets "t1" "gpt" "ch1" (pos 9)) ∷ [])) "ch1")
      "t1"
      "gpt"
      (pos 1)
    ≡ (if answer
            (run new_affinity_cache ((pos 0, sets "t1" "gpt" "ch1" (pos 9)) ∷ []))
            "t1"
            "gpt"
            (pos 1)
          == "ch1"
        then ""
        else answer
            (run new_affinity_cache ((pos 0, sets "t1" "gpt" "ch1" (pos 9)) ∷ []))
            "t1"
            "gpt"
            (pos 1))
evict_channel-run_example =
    evict_channel-run ((pos 0, sets "t1" "gpt" "ch1" (pos 9)) ∷ []) "ch1" "t1" "gpt" (pos 1)

cleanup-run_example :
    answer
      (cleanup (run new_affinity_cache ((pos 0, sets "t1" "gpt" "ch1" (pos 9)) ∷ [])) (pos 3))
      "t1"
      "gpt"
      (pos 4)
    ≡ answer
        (run new_affinity_cache ((pos 0, sets "t1" "gpt" "ch1" (pos 9)) ∷ []))
        "t1"
        "gpt"
        (pos 4)
cleanup-run_example =
    cleanup-run ((pos 0, sets "t1" "gpt" "ch1" (pos 9)) ∷ []) "t1" "gpt" (pos 3) (pos 4)
      (omega arith)

get_around_loses_set_example :
    (answer
        (set
          (get cached "t1" "gpt" (pos (3 * 10 ^ 9))).0
          "t1"
          "gpt"
          "ch2"
          (pos 9)
          (pos (3 * 10 ^ 9)))
        "t1"
        "gpt"
        (pos (4 * 10 ^ 9))
      ≡ "ch2")
    × (answer
          (get_around cached "t1" "gpt"
            (pos (3 * 10 ^ 9))
            (λ c. set c "t1" "gpt" "ch2" (pos 9) (pos (3 * 10 ^ 9)))).0
          "t1"
          "gpt"
          (pos (4 * 10 ^ 9))
        ≡ "")
unfolding affinity
get_around_loses_set_example =
    get_around_loses_set cached "t1" "gpt" "ch2" (pos 9) (pos (3 * 10 ^ 9)) (pos (4 * 10 ^ 9))
      (omega arith) (omega arith) refl (omega arith)
