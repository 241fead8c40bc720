-- ===== src/Users/Parts.antt =====
-- The parts of a list that is split at commas: trimming them, and joining them again.
use cli_relay.Prelude.{
  String, Bool, false, List, [], ◌∷◌, ◌≡◌, refl, ap, ◌∙◌, arith, ◌||◌, All, Bool-cases, inl, inr,
}
use cli_relay.Prelude.Text.{
  is_comma, is_space, trim_left, trim_right, trim_cons, trim_space, push_front, split_comma,
  join_comma, append,
}
use Prim.Native.Char.{Char}

-- A text without a comma is one part.
abbrev has_comma : String → Bool
has_comma String.[] = false
has_comma (String.◌∷◌ c s) = is_comma c || has_comma s

abbrev pub IsPart : String → Type 0
IsPart s = has_comma s ≡ false

push_front-parts :
    (c : Char) (ps : List String)
    → is_comma c ≡ false
    → All IsPart ps
    → All IsPart (push_front c ps)
push_front-parts c [] h hs = (ground arith, tt)
push_front-parts c (p ∷ ps) h (hp, hs) = (ground arith, hs)

pub split_comma-parts : (s : String) → All IsPart (split_comma s)
unfolding split_comma
split_comma-parts String.[] = (refl, tt)
split_comma-parts (String.◌∷◌ c s) = elim (Bool-cases (is_comma c)) [
  | inl comma ↦ rw comma (refl, split_comma-parts s)
  | inr other ↦ rw other (push_front-parts c (split_comma s) other (split_comma-parts s))
]

trim_left-IsPart : (s : String) → IsPart s → IsPart (trim_left s)
unfolding trim_left
trim_left-IsPart String.[] h = refl
trim_left-IsPart (String.◌∷◌ c s) h = ground (arith, trim_left-IsPart s)

trim_cons-IsPart : (c : Char) (s : String) → is_comma c ≡ false → IsPart s → IsPart (trim_cons c s)
trim_cons-IsPart c String.[] h hs = elim (Bool-cases (is_space c)) [
  | inl space ↦ rw space refl
  | inr other ↦ rw (other, h) refl
]
trim_cons-IsPart c (String.◌∷◌ d s) h hs = ground arith

trim_right-IsPart : (s : String) → IsPart s → IsPart (trim_right s)
unfolding trim_right
trim_right-IsPart String.[] h = refl
trim_right-IsPart (String.◌∷◌ c s) h =
    trim_cons-IsPart c (trim_right s) (ground arith) (trim_right-IsPart s (ground arith))

pub trim_space-IsPart : (s : String) → IsPart s → IsPart (trim_space s)
unfolding trim_space
trim_space-IsPart s h = trim_right-IsPart (trim_left s) (trim_left-IsPart s h)

-- Trimming once is enough.
trim_right-cons :
    (c : Char) (r : String) → trim_right r ≡ r → trim_right (trim_cons c r) ≡ trim_cons c r
unfolding trim_right
trim_right-cons c String.[] h = elim (Bool-cases (is_space c)) [
  | inl space ↦ rw space refl
  | inr other ↦ rw (other, other) refl
]
trim_right-cons c (String.◌∷◌ d r) h = ap (trim_cons c) h

trim_right-trim_right : (s : String) → trim_right (trim_right s) ≡ trim_right s
unfolding trim_right
trim_right-trim_right String.[] = refl
trim_right-trim_right (String.◌∷◌ c s) = trim_right-cons c (trim_right s) (trim_right-trim_right s)

trim_left-trim_cons :
    (c : Char) (r : String) → is_space c ≡ false → trim_left (trim_cons c r) ≡ trim_cons c r
unfolding trim_left
trim_left-trim_cons c String.[] h = rw (h, h) refl
trim_left-trim_cons c (String.◌∷◌ d r) h = rw h refl

trim_left-trim_right :
    (s : String) → trim_left (trim_right (trim_left s)) ≡ trim_right (trim_left s)
unfolding trim_left trim_right
trim_left-trim_right String.[] = refl
trim_left-trim_right (String.◌∷◌ c s) = elim (Bool-cases (is_space c)) [
  | inl space ↦ rw space (trim_left-trim_right s)
  | inr other ↦ rw other (trim_left-trim_cons c (trim_right s) other)
]

pub trim_space-trim_space : (s : String) → trim_space (trim_space s) ≡ trim_space s
unfolding trim_space
trim_space-trim_space s =
    ap trim_right (trim_left-trim_right s) ∙ trim_right-trim_right (trim_left s)

-- Splitting undoes joining, where the parts have no comma.
split_comma-part : (p : String) → IsPart p → split_comma p ≡ p ∷ []
unfolding split_comma
split_comma-part String.[] h = refl
split_comma-part (String.◌∷◌ c s) h =
    let other : is_comma c ≡ false = ground arith in
    rw (other, split_comma-part s (ground arith)) refl

split_comma-append :
    (p r : String) → IsPart p → split_comma (append p (String.◌∷◌ "," r)) ≡ p ∷ split_comma r
unfolding split_comma append
split_comma-append String.[] r h = refl
split_comma-append (String.◌∷◌ c s) r h =
    let other : is_comma c ≡ false = ground arith in
    rw (other, split_comma-append s r (ground arith)) refl

pub split_comma-join_comma :
    (p : String) (ps : List String)
    → All IsPart (p ∷ ps)
    → split_comma (join_comma (p ∷ ps)) ≡ p ∷ ps
unfolding join_comma
split_comma-join_comma p [] (h, hs) = split_comma-part p h
split_comma-join_comma p (q ∷ ps) (h, hs) =
    split_comma-append p (join_comma (q ∷ ps)) h
    ∙ ap (λ qs. p ∷ qs) (split_comma-join_comma q ps hs)
