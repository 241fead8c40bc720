-- ===== src/Billing/Check.antt =====
-- `checkCountLimit` of internal/relay/billing.go, and the windows that have room.
use cli_relay.Prelude.{
  String, true, false, Option, none, some, [], ◌∷◌, ◌≡◌, ◌↔◌, ◌⊎◌, refl, arith, All, inl, inr,
  Bool-cases,
}
use cli_relay.Prelude.Int.{ℤ, pos, ◌<ℤ◌, ltb_ℤ, leb_ℤ}
use cli_relay.Prelude.Maps.{lookup}
use cli_relay.Prelude.Results.{Result, ok}
use cli_relay.Db.{Plan, TokenPlan}
use cli_relay.Json.{Json, null, boolean, number, text, array, object, to_int}
use cli_relay.Billing.{parse_map, usage_of, unless_over}
use cli_relay.Billing.Counts.{
  TimeFormat, Map, has_expired, current_usage, check_windows, check_count_limit,
}

-- The window has a reset time, which is read and is before now.
abbrev pub IsOver : TimeFormat → ℤ → Map → String → Type 0
IsOver times now resets window =
    (written : String) × (reset_at : ℤ) × (lookup window resets ≡ some (text written))
    × (times.parse written ≡ some reset_at)
    × (reset_at <ℤ now)

-- The number that is written down for a window.
abbrev pub recorded : Option Json → ℤ
recorded (some (number f)) = to_int f
recorded _ = pos 0

-- A window that is over has room if its limit is positive, any other if what is written down for it is
-- below the limit. What is no number is no limit.
abbrev pub HasRoom : TimeFormat → ℤ → Map → Map → String × Json → Type 0
HasRoom times now usage resets (window, number max) =
    (IsOver times now resets window × (pos 0 <ℤ to_int max))
    ⊎ ((¬ IsOver times now resets window) × (recorded (lookup window usage) <ℤ to_int max))
HasRoom times now usage resets (window, _) = Unit

gate :
    (window : String) (max current : ℤ) (rest : Result (Unit {0})) {P Q : Type 0}
    → (current <ℤ max) ↔ Q
    → (rest ≡ ok tt) ↔ P
    → (unless_over window (leb_ℤ max current) rest ≡ ok tt) ↔ (Q × P)
gate window max current rest (below, above) (to, from) = elim (Bool-cases (leb_ℤ max current)) [
  | inl over ↦ rw over ((λ e. cc), (λ h. let low = above h.0 in absurd (ground arith)))
  | inr under ↦ rw under ((λ e. (below (ground arith), to e)), (λ h. from h.1))
]

recorded-usage_of : (v : Option Json) → usage_of v ≡ recorded v
recorded-usage_of none = refl
recorded-usage_of (some null) = refl
recorded-usage_of (some (boolean b)) = refl
recorded-usage_of (some (number f)) = refl
recorded-usage_of (some (text s)) = refl
recorded-usage_of (some (array vs)) = refl
recorded-usage_of (some (object fs)) = refl

skipped : {P Q : Type 0} → Q ↔ P → Q ↔ (Unit {0} × P)
skipped (to, from) = ((λ e. (tt, to e)), (λ h. from h.1))

module _ (times : TimeFormat) (now : ℤ) (usage resets : Map) where
  IsOver-has_expired :
      (window : String)
      → IsOver times now resets window
      → has_expired times now (lookup window resets) ≡ true
  IsOver-has_expired window (written, reset_at, found, read, passed) =
      rw (found, read) (ground arith)

  passed_at :
      (window written : String)
      → lookup window resets ≡ some (text written)
      → (t : Option ℤ) → times.parse written ≡ t
      → has_expired times now (some (text written)) ≡ true
      → IsOver times now resets window
  passed_at window written found none read e = let f : false ≡ true = rw read at e in cc
  passed_at window written found (some reset_at) read e =
      let f : ltb_ℤ reset_at now ≡ true = rw read at e in
      (written, reset_at, found, read, ground arith)

  pub has_expired-IsOver :
      (window : String) (v : Option Json)
      → lookup window resets ≡ v
      → has_expired times now v ≡ true
      → IsOver times now resets window
  has_expired-IsOver window none found e = cc
  has_expired-IsOver window (some null) found e = cc
  has_expired-IsOver window (some (boolean b)) found e = cc
  has_expired-IsOver window (some (number f)) found e = cc
  has_expired-IsOver window (some (text written)) found e = passed_at window written found _ refl e
  has_expired-IsOver window (some (array vs)) found e = cc
  has_expired-IsOver window (some (object fs)) found e = cc

  -- The usage that the loop reads is below the limit exactly where the window has room.
  below-HasRoom :
      (window : String) (max : ℤ)
      → (current_usage times now usage resets window <ℤ to_int max)
        ↔ HasRoom times now usage resets (window, number max)
  below-HasRoom window max =
      let written = recorded-usage_of (lookup window usage) in
      elim (Bool-cases (has_expired times now (lookup window resets))) [
        | inl e ↦
            let over = has_expired-IsOver window (lookup window resets) refl e in
            rw e ((λ h. inl (over, h)), (λ h. elim h [ inl r ↦ r.1 | inr r ↦ absurd (r.0 over) ]))
        | inr e ↦
            let running : ¬ IsOver times now resets window =
              λ o. let k = IsOver-has_expired window o in cc in
            rw (e, written)
              (
                (λ h. inr (running, h)),
                (λ h. elim h [ inl r ↦ absurd (running r.0) | inr r ↦ r.1 ]),
              )
      ]

  pub check_windows_iff :
      (limits : Map)
      → (check_windows times now usage resets limits ≡ ok tt)
        ↔ All (HasRoom times now usage resets) limits
  unfolding check_windows
  check_windows_iff [] = ((λ _. tt), (λ _. refl))
  check_windows_iff ((window, number max) ∷ limits) =
      gate window (to_int max) (current_usage times now usage resets window) _
        (below-HasRoom window max) (check_windows_iff limits)
  check_windows_iff ((window, null) ∷ limits) = skipped (check_windows_iff limits)
  check_windows_iff ((window, boolean b) ∷ limits) = skipped (check_windows_iff limits)
  check_windows_iff ((window, text s) ∷ limits) = skipped (check_windows_iff limits)
  check_windows_iff ((window, array vs) ∷ limits) = skipped (check_windows_iff limits)
  check_windows_iff ((window, object fs) ∷ limits) = skipped (check_windows_iff limits)

-- `checkCountLimit` lets a request pass exactly when each window of the plan whose limit is a number has
-- room: a window whose reset time has passed if the limit is positive, any other if the usage that is
-- written down for it is below the limit.
pub check_count_limit_iff :
    (times : TimeFormat) (tp : TokenPlan) (plan : Plan) (now : ℤ)
    → (check_count_limit times tp plan now ≡ ok tt)
      ↔ All
          (HasRoom times now (parse_map tp.window_usage) (parse_map tp.window_reset_at))
          (parse_map plan.limits)
unfolding check_count_limit
check_count_limit_iff times tp plan now =
    check_windows_iff times now (parse_map tp.window_usage) (parse_map tp.window_reset_at)
      (parse_map plan.limits)
