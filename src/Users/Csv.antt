-- ===== src/Users/Csv.antt =====
-- `normalizeCSV` of internal/user/service.go and `modelInList` of internal/relay/handler.go.
use cli_relay.Prelude.{
  String, Bool, true, false, List, [], ◌∷◌, ◌≡◌, refl, ap, ◌∙◌, arith, ◌==◌, ◌||◌, any, not, All,
  ap₂, eq_iff, Bool-cases, inl, inr,
}
use cli_relay.Prelude.Text.{trim_left, trim_right, trim_space, split_comma, join_comma, append}
use cli_relay.Relay.Access.{model_in_list}
use cli_relay.Users.Text.{distinct_parts, normalize_csv}
use Prim.Native.Char.{Char}
use cli_relay.Users.Parts.{
  IsPart, split_comma-join_comma, split_comma-parts, trim_space-IsPart, trim_space-trim_space,
}

distinct_parts-parts : (seen ps : List String) → All IsPart ps → All IsPart (distinct_parts seen ps)
unfolding distinct_parts
distinct_parts-parts seen [] h = tt
distinct_parts-parts seen (p ∷ ps) (h, hs) = elim (Bool-cases (trim_space p == "")) [
  | inl blank ↦ rw blank (distinct_parts-parts seen ps hs)
  | inr full ↦ elim (Bool-cases (any (λ s. s == trim_space p) seen)) [
    | inl known ↦ rw (full, known) (distinct_parts-parts seen ps hs)
    | inr fresh ↦
        rw (full, fresh) (trim_space-IsPart p h, distinct_parts-parts (trim_space p ∷ seen) ps hs)
  ]
]

module _ (model : String) (named : (model == "") ≡ false) where
  abbrev grants : List String → Bool
  grants parts = any (λ m. trim_space m == model) parts

  abbrev among : List String → Bool
  among seen = any (λ s. s == model) seen

  known_among :
      (p : String) (seen : List String)
      → any (λ s. s == p) seen ≡ true
      → (p == model) ≡ true
      → among seen ≡ true
  known_among p [] h e = cc
  known_among p (s ∷ seen) h e =
      ground (arith, known_among p seen, eq_iff p model, eq_iff s p, eq_iff s model)

  -- The parts that are kept, with those seen before, grant what all the parts grant.
  grants-distinct_parts :
      (seen ps : List String)
      → (grants (distinct_parts seen ps) || among seen) ≡ (grants ps || among seen)
  unfolding distinct_parts
  grants-distinct_parts seen [] = refl
  grants-distinct_parts seen (p ∷ ps) =
      let t = trim_space p in
      elim (Bool-cases (t == "")) [
        | inl blank ↦ rw blank (
            ground (
              arith,
              grants-distinct_parts seen ps,
              eq_iff t "",
              eq_iff t model,
              eq_iff model "",
              named,
            ))
        | inr full ↦ elim (Bool-cases (any (λ s. s == t) seen)) [
          | inl known ↦
              rw (full, known)
                (ground (arith, grants-distinct_parts seen ps, known_among t seen known))
          | inr fresh ↦
              rw (full, fresh, trim_space-trim_space p)
                (ground (arith, grants-distinct_parts (t ∷ seen) ps))
        ]
      ]

  grants-blank : grants (split_comma "") ≡ false
  unfolding split_comma trim_space trim_left trim_right
  grants-blank = ground (arith, eq_iff model "", eq_iff "" model, named)

  model_in_list-join_comma :
      (ps : List String) → All IsPart ps → model_in_list model (join_comma ps) ≡ grants ps
  unfolding model_in_list join_comma
  model_in_list-join_comma [] h = grants-blank
  model_in_list-join_comma (p ∷ ps) h = ap grants (split_comma-join_comma p ps h)

  -- A model whose name is not empty is in the list that `normalizeCSV` writes exactly if it is in
  -- the list that it reads.
  model_in_list-normalize_csv :
      (list : String) → model_in_list model (normalize_csv list) ≡ model_in_list model list
  unfolding normalize_csv model_in_list
  model_in_list-normalize_csv list =
      model_in_list-join_comma (distinct_parts [] (split_comma list))
        (distinct_parts-parts [] (split_comma list) (split_comma-parts list))
      ∙ ground (arith, grants-distinct_parts [] (split_comma list))

-- What `HandleRelay` asks of a token's list; an empty one allows every model.
abbrev pub allows : String → String → Bool
allows list model = list == "" || model_in_list model list

-- A part of the list, without the blanks around it, is the model.
abbrev pub names : String → String → Bool
names list model = any (λ m. trim_space m == model) (split_comma list)

-- A list that names no model, such as ", ,".
abbrev pub names_none : String → Bool
names_none list = not (any (λ m. not (trim_space m == "")) (split_comma list))

cons-full : (c : Char) (s : String) → (String.◌∷◌ c s == "") ≡ false
cons-full c s = elim (Bool-cases (String.◌∷◌ c s == "")) [
  | inl e ↦ let k : String.◌∷◌ c s ≡ String.[] = (eq_iff (String.◌∷◌ c s) "").0 e in cc
  | inr e ↦ e
]

full_head :
    (p : String) (ps : List String) → (p == "") ≡ false → (join_comma (p ∷ ps) == "") ≡ false
unfolding join_comma append
full_head p [] h = h
full_head String.[] (q ∷ ps) h = cc
full_head (String.◌∷◌ c p) (q ∷ ps) h = cons-full c _

-- What is left of a list is empty if it names no model.
empty_if-names_none :
    (ps : List String)
    → (join_comma (distinct_parts [] ps) == "") ≡ not (any (λ m. not (trim_space m == "")) ps)
unfolding distinct_parts
empty_if-names_none [] = unfold join_comma in refl
empty_if-names_none (p ∷ ps) = elim (Bool-cases (trim_space p == "")) [
  | inl blank ↦ rw blank (empty_if-names_none ps)
  | inr full ↦ rw full (full_head (trim_space p) _ full)
]

-- With the list that `normalizeCSV` stores, HandleRelay allows a model, whose name is not empty, exactly
-- if the list that was sent names the model, or names no model at all.
pub allows-normalize_csv :
    (model : String)
    → (model == "") ≡ false
    → (list : String) → allows (normalize_csv list) model ≡ (names_none list || names list model)
unfolding normalize_csv
allows-normalize_csv model named list =
    let listed = model_in_list-normalize_csv model named list in
    ap₂ ◌||◌ (empty_if-names_none (split_comma list)) (unfold normalize_csv model_in_list in listed)
