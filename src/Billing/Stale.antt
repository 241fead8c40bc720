-- ===== src/Billing/Stale.antt =====
-- The windows of a counting plan after their reset times, in `checkCountLimit` and
-- `incrementCountUsageTx` of internal/relay/billing.go.
use cli_relay.Prelude.{
  String, true, Option, none, some, List, [], ◌∷◌, ◌≡◌, refl, arith, All, eq_refl, is_some, ap, inl,
  Option-cases,
}
use cli_relay.Prelude.Int.{ℤ, pos, pos_part, neg_part, ◌+ℤ◌, ◌≤ℤ◌}
use cli_relay.Prelude.Maps.{lookup, insert, lookup-insert}
use cli_relay.Prelude.Results.{Result, ok, ◌>>=◌, ◌>>◌}
use cli_relay.Json.{Json, null, boolean, number, text, array, object, unit, to_int}
use cli_relay.Billing.{to_float}
use cli_relay.Billing.Check.{HasRoom, has_expired-IsOver, check_windows_iff}
use cli_relay.Billing.Counts.{
  TimeFormat, Map, has_expired, check_windows, fresh_usage, count_window, schedule, count_windows,
}

module _ (times : TimeFormat) where
  -- The limit lets at least one request pass, and the window's reset time has passed.
  abbrev pub IsStale : ℤ → Map → String × Json → Type 0
  IsStale now resets (window, max_count) =
      (max : ℤ) × (to_float max_count ≡ some max)
      × (pos 1 ≤ℤ to_int max)
      × (has_expired times now (lookup window resets) ≡ true)

  has_expired_mono :
      (now later : ℤ) (r : Option Json)
      → now ≤ℤ later
      → has_expired times now r ≡ true
      → has_expired times later r ≡ true
  has_expired_mono now later none le h = cc
  has_expired_mono now later (some (text s)) le h = ground (arith, Option-cases (times.parse s))
  has_expired_mono now later _ le h = cc

  IsStale-mono :
      (now later : ℤ) (resets limits : Map)
      → now ≤ℤ later
      → All (IsStale now resets) limits
      → All (IsStale later resets) limits
  IsStale-mono now later resets [] le h = tt
  IsStale-mono now later resets ((window, max_count) ∷ limits) le ((max, e, one, x), hs) = (
    (max, e, one, has_expired_mono now later (lookup window resets) le x),
    IsStale-mono now later resets limits le hs,
  )

  has_expired-is_some :
      (now : ℤ) (r : Option Json) → has_expired times now r ≡ true → is_some r ≡ true
  has_expired-is_some now none h = cc
  has_expired-is_some now (some v) h = refl

  fresh_usage-stale :
      (now : ℤ) (usage resets : Map) (window : String)
      → has_expired times now (lookup window resets) ≡ true
      → fresh_usage times now usage resets window ≡ insert window (number (pos 0)) usage
  fresh_usage-stale now usage resets window h =
      ground (arith, lookup-insert window window (number (pos 0)) usage, eq_refl window)

  -- A window that has run out is counted as one.
  count_window-stale :
      (now : ℤ) (usage resets : Map) (window : String) (max : ℤ)
      → pos 1 ≤ℤ to_int max
      → has_expired times now (lookup window resets) ≡ true
      → (usage' : Map) × (count_window times now usage resets window max ≡ ok usage')
  unfolding count_window
  count_window-stale now usage resets window max one h =
      let zero_usage = insert window (number (pos 0)) usage in
      (
        insert window (number (pos 0 +ℤ pos unit)) zero_usage,
        rw (fresh_usage-stale now usage resets window h, lookup-insert, eq_refl) (ground arith),
      )

  count_windows-stale :
      (now : ℤ) (resets limits usage : Map)
      → All (IsStale now resets) limits
      → (usage' : Map) × (count_windows times now usage resets limits ≡ ok (usage', resets))
  unfolding count_windows
  count_windows-stale now resets [] usage h = (usage, refl)
  count_windows-stale now resets ((window, max_count) ∷ limits) usage ((max, e, one, x), hs) =
      let (usage', counted) = count_window-stale now usage resets window max one x in
      let (last, rest) = count_windows-stale now resets limits usage' hs in
      let kept : schedule times now resets window ≡ resets =
        rw (has_expired-is_some now (lookup window resets) x) in
      (last, rw (e, counted, kept, count_windows) rest)

  HasRoom-stale :
      (now : ℤ) (usage resets : Map) (window : String) (max_count : Json)
      → IsStale now resets (window, max_count)
      → HasRoom times now usage resets (window, max_count)
  HasRoom-stale now usage resets window (number m) (max, e, one, x) =
      let found : some m ≡ some max = e in
      let same : to_int m ≡ to_int max = cc in
      inl (
        has_expired-IsOver times now usage resets window (lookup window resets) refl x,
        omega (arith, ap pos_part same, ap neg_part same),
      )
  HasRoom-stale now usage resets window null h = tt
  HasRoom-stale now usage resets window (boolean b) h = tt
  HasRoom-stale now usage resets window (text s) h = tt
  HasRoom-stale now usage resets window (array vs) h = tt
  HasRoom-stale now usage resets window (object fs) h = tt

  check_windows-stale :
      (now : ℤ) (usage resets limits : Map)
      → All (IsStale now resets) limits
      → All (HasRoom times now usage resets) limits
  check_windows-stale now usage resets [] h = tt
  check_windows-stale now usage resets ((window, max_count) ∷ limits) (h, hs) = (
    HasRoom-stale now usage resets window max_count h,
    check_windows-stale now usage resets limits hs,
  )

  -- What the service does for one request: the check, and then the count.
  serve : ℤ → Map → Map → Map → Result (Map × Map)
  serve now usage resets limits =
      check_windows times now usage resets limits >> count_windows times now usage resets limits

  pub serve_all : List ℤ → Map → Map → Map → Result (Map × Map)
  unfolding serve
  serve_all [] usage resets limits = ok (usage, resets)
  serve_all (now ∷ later) usage resets limits =
      serve now usage resets limits >>= λ s. serve_all later s.0 s.1 limits

  -- Once every window of a plan, each with a limit of at least one, has run out, requests without
  -- number pass: at whatever later times they come, each is checked and counted without an error.
  pub serve_all-stale :
      (start : ℤ) (nows : List ℤ) (usage resets limits : Map)
      → All (IsStale start resets) limits
      → All (λ now. start ≤ℤ now) nows
      → (usage' : Map) × (serve_all nows usage resets limits ≡ ok (usage', resets))
  unfolding serve_all
  serve_all-stale start [] usage resets limits h t = (usage, refl)
  serve_all-stale start (now ∷ nows) usage resets limits h (t, ts) =
      let stale = IsStale-mono start now resets limits t h in
      let passes =
        (check_windows_iff times now usage resets limits).1
          (check_windows-stale now usage resets limits stale) in
      let (next, counted) = count_windows-stale now resets limits usage stale in
      let (last, rest) = serve_all-stale start nows next resets limits h ts in
      (last, rw (passes, counted) rest)
