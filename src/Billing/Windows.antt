-- ===== src/Billing/Windows.antt =====
-- `parseWindowDuration`: how long a window such as "5h" or "7d" is, in nanoseconds. `fmt.Sscanf` with
-- "%d%s" reads a number and then a word; what it cannot read it leaves at its zero value.
use Prim.Native.Char.{Char, code}
use Prim.Native.String.{String, [], ◌∷◌}
use cli_relay.Prelude.{
  ℕ, ◌+◌, ◌-◌, ◌*◌, ◌^◌, Bool, true, false, Option, none, some, if◌then◌else◌, ltb, leb, ◌==◌, ◌&&◌,
}
use cli_relay.Prelude.Int.{ℤ, pos, ◌-ℤ◌, ◌*ℤ◌, int64, fits_int64}
use cli_relay.Prelude.Text.{is_space, length_text}

abbrev pub is_digit : Char → Bool
is_digit c = leb b'0' (code c) && leb (code c) b'9'

abbrev is_newline : Char → Bool
is_newline c = leb 10 (code c) && leb (code c) 10

-- Blanks before a verb; a line break stops the scan.
pub skip_blanks : String → Option String
skip_blanks [] = some ""
skip_blanks (c ∷ s) =
    let rest = skip_blanks s in
    if is_newline c then none else if is_space c then rest else some (c ∷ s)

-- Digits: their value, whether there is one, and what stands behind them.
pub scan_digits : String → ℕ → Bool → ℕ × Bool × String
scan_digits [] n seen = (n, seen, "")
scan_digits (c ∷ s) n seen =
    let more = scan_digits s (n * 10 + (code c - b'0')) true in
    if is_digit c then more else (n, seen, c ∷ s)

abbrev signed : Bool → ℕ → ℤ
signed minus n = if minus then pos 0 -ℤ pos n else pos n

abbrev number_of : Bool → ℕ × Bool × String → Option (ℤ × String)
number_of minus (n, seen, rest) =
    if seen && fits_int64 (signed minus n) then some (signed minus n, rest) else none

-- `%d`: an optional sign and digits, as an `int`.
pub scan_number : String → Option (ℤ × String)
unfolding scan_digits
scan_number [] = none
scan_number (c ∷ s) =
    if leb b'-' (code c) && leb (code c) b'-'
    then number_of true (scan_digits s 0 false)
    else if leb b'+' (code c) && leb (code c) b'+'
    then number_of false (scan_digits s 0 false)
    else number_of false (scan_digits (c ∷ s) 0 false)

pub take_word : String → String
take_word [] = ""
take_word (c ∷ s) = let rest = take_word s in if is_space c then "" else c ∷ rest

abbrev word_of : Option String → String
word_of none = ""
word_of (some s) = take_word s

abbrev scanned : Option (ℤ × String) → ℤ × String
scanned none = (pos 0, "")
scanned (some (val, rest)) = (val, word_of (skip_blanks rest))

abbrev number_at : Option String → Option (ℤ × String)
number_at none = none
number_at (some s) = scan_number s

-- `fmt.Sscanf(window, "%d%s", &val, &unit)`
pub scan_window : String → ℤ × String
unfolding skip_blanks scan_number take_word
scan_window window = scanned (number_at (skip_blanks window))

abbrev pub hour : ℤ
hour = pos (3600 * 10 ^ 9)

abbrev duration_of : ℤ × String → ℤ
duration_of (val, unit) =
    if unit == "h"
    then int64 (val *ℤ hour)
    else if unit == "d"
    then int64 (int64 (val *ℤ pos 24) *ℤ hour)
    else if unit == "w"
    then int64 (int64 (int64 (val *ℤ pos 7) *ℤ pos 24) *ℤ hour)
    else hour

unfoldable pub parse_window_duration : String → ℤ
unfolding scan_window
parse_window_duration window =
    if ltb (length_text window) 2 then hour else duration_of (scan_window window)
