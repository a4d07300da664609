-- ===== src/Scheduler/HourMinute.antt =====
-- `_parse_hhmm` of src/bioseasy/scheduler.py: the "HH:MM" texts of a device's window.
use bioseasy.Prelude.{
  ℕ, ◌+◌, ◌-◌, ◌*◌, ◌/◌, ◌%◌, ◌<◌, ◌≡◌, refl, ap, ◌∙◌, ◌&&◌, Option, none, some, List, [], ◌∷◌,
  ◌++◌, arith, ltb, leb, ◌==◌, if◌then◌else◌, length,
}

-- A text as its code points.
abbrev pub Text : Type 0
Text = List ℕ

-- `str.split(sep)` for a single character: the pieces between its occurrences.
abbrev cons_head : ℕ → List Text → List Text
cons_head c [] = (c ∷ []) ∷ []
cons_head c (p ∷ ps) = (c ∷ p) ∷ ps

split : ℕ → Text → List Text
split sep [] = [] ∷ []
split sep (c ∷ cs) = if c == sep then [] ∷ split sep cs else cons_head c (split sep cs)

-- The zeros other than the ASCII one among the decimal digits of Unicode 15.0, which the Python 3.12 of
-- the Dockerfile has: the nine code points after each are its other digits.
other_zeros : List ℕ
other_zeros =
    1632 ∷ 1776 ∷ 1984 ∷ 2406 ∷ 2534 ∷ 2662 ∷ 2790 ∷ 2918 ∷ 3046 ∷ 3174 ∷ 3302 ∷ 3430 ∷ 3558 ∷ 3664
    ∷ 3792 ∷ 3872 ∷ 4160 ∷ 4240 ∷ 6112 ∷ 6160 ∷ 6470 ∷ 6608 ∷ 6784 ∷ 6800 ∷ 6992 ∷ 7088 ∷ 7232
    ∷ 7248 ∷ 42528 ∷ 43216 ∷ 43264 ∷ 43472 ∷ 43504 ∷ 43600 ∷ 44016 ∷ 65296 ∷ 66720 ∷ 68912 ∷ 69734
    ∷ 69872 ∷ 69942 ∷ 70096 ∷ 70384 ∷ 70736 ∷ 70864 ∷ 71248 ∷ 71360 ∷ 71472 ∷ 71904 ∷ 72016 ∷ 72784
    ∷ 73040 ∷ 73120 ∷ 73552 ∷ 92768 ∷ 92864 ∷ 93008 ∷ 120782 ∷ 120792 ∷ 120802 ∷ 120812 ∷ 120822
    ∷ 123200 ∷ 123632 ∷ 124144 ∷ 125264 ∷ 130032 ∷ []

digit_from : List ℕ → ℕ → Option ℕ
digit_from [] c = none
digit_from (z ∷ zs) c = if leb z c && leb c (z + 9) then some (c - z) else digit_from zs c

-- The value of a decimal digit.
decimal : ℕ → Option ℕ
unfolding other_zeros digit_from
decimal c = digit_from (b'0' ∷ other_zeros) c

with_digit : Option ℕ → (ℕ → Option ℕ) → Option ℕ
with_digit none f = none
with_digit (some d) f = f d

digits : ℕ → Text → Option ℕ
unfolding decimal with_digit
digits n [] = some n
digits n (c ∷ cs) = with_digit (decimal c) (λ d. digits (n * 10 + d) cs)

-- `int` refuses a text of more digits, by Python's default.
abbrev max_str_digits : ℕ
max_str_digits = 4300

-- `int(p)` where `p.isdigit()`; none is a ValueError of either test or of `int`, which refuses a digit
-- that is not decimal, such as a superscript, and a text that is too long.
number : Text → Option ℕ
unfolding digits
number [] = none
number (c ∷ cs) = if ltb max_str_digits (length (c ∷ cs)) then none else digits 0 (c ∷ cs)

-- `datetime.time(hour, minute)`.
pub record HourMinute : Type 0 where
  pub hour : ℕ
  pub minute : ℕ

in_range : Option ℕ → Option ℕ → Option HourMinute
in_range (some h) (some m) =
    if leb h 23 && leb m 59 then some (record { hour = h; minute = m }) else none
in_range _ _ = none

parse_parts : List Text → Option HourMinute
unfolding number in_range
parse_parts (h ∷ m ∷ []) = in_range (number h) (number m)
parse_parts _ = none

-- `none` is the ValueError.
unfoldable pub parse_hhmm : Text → Option HourMinute
unfolding split parse_parts
parse_hhmm value = parse_parts (split b':' value)

-- "%H:%M": how the window is written by the settings form.
abbrev pub two_digits : ℕ → Text
two_digits n = (b'0' + n / 10) ∷ (b'0' + n % 10) ∷ []

abbrev pub format_hhmm : ℕ → ℕ → Text
format_hhmm h m = two_digits h ++ b':' ∷ two_digits m

in_range_bounds :
    (h m : Option ℕ) {t : HourMinute} → in_range h m ≡ some t → (t.hour < 24) × (t.minute < 60)
unfolding in_range
in_range_bounds (some h) (some m) e = ground arith
in_range_bounds (some h) none e = cc
in_range_bounds none m e = cc

parse_parts_bounds :
    (parts : List Text) {t : HourMinute}
    → parse_parts parts ≡ some t
    → (t.hour < 24) × (t.minute < 60)
unfolding parse_parts
parse_parts_bounds [] e = cc
parse_parts_bounds (h ∷ []) e = cc
parse_parts_bounds (h ∷ m ∷ []) e = in_range_bounds (number h) (number m) e
parse_parts_bounds (h ∷ m ∷ p ∷ ps) e = cc

-- Whatever is parsed is a time of day.
pub parse_hhmm_bounds :
    (value : Text) {t : HourMinute} → parse_hhmm value ≡ some t → (t.hour < 24) × (t.minute < 60)
unfolding parse_hhmm
parse_hhmm_bounds value e = parse_parts_bounds (split b':' value) e

decimal-ascii : (d : ℕ) → d < 10 → decimal (b'0' + d) ≡ some d
unfolding decimal digit_from
decimal-ascii d h = ground arith

digits-cons :
    (n c d : ℕ) (cs : Text) → decimal c ≡ some d → digits n (c ∷ cs) ≡ digits (n * 10 + d) cs
unfolding digits with_digit
digits-cons n c d cs e = ap (λ o. with_digit o (λ d. digits (n * 10 + d) cs)) e

digits-nil : (n : ℕ) → digits n [] ≡ some n
unfolding digits
digits-nil n = refl

number-two_digits : (n : ℕ) → n < 100 → number (two_digits n) ≡ some n
unfolding number
number-two_digits n h =
    digits-cons 0 (b'0' + n / 10) (n / 10) ((b'0' + n % 10) ∷ [])
      (decimal-ascii (n / 10) (omega arith))
    ∙ digits-cons (0 * 10 + n / 10) (b'0' + n % 10) (n % 10) []
        (decimal-ascii (n % 10) (omega arith))
    ∙ digits-nil ((0 * 10 + n / 10) * 10 + n % 10)
    ∙ ap some (omega arith)

parse_parts-two :
    (h m : ℕ) (p q : Text)
    → h < 24
    → m < 60
    → number p ≡ some h
    → number q ≡ some m
    → parse_parts (p ∷ q ∷ []) ≡ some (record { hour = h; minute = m })
unfolding parse_parts in_range
parse_parts-two h m p q hh hm e f =
    ap (λ o. in_range o (number q)) e ∙ ap (in_range (some h)) f ∙ ground arith

split-format :
    (h m : ℕ) → h < 24 → m < 60 → split b':' (format_hhmm h m) ≡ two_digits h ∷ two_digits m ∷ []
unfolding split
split-format h m hh hm = ground arith

-- A time of day written as "HH:MM" is parsed back.
parse_hhmm-format :
    (h m : ℕ)
    → h < 24
    → m < 60
    → parse_hhmm (format_hhmm h m) ≡ some (record { hour = h; minute = m })
unfolding parse_hhmm
parse_hhmm-format h m hh hm =
    ap parse_parts (split-format h m hh hm)
    ∙ parse_parts-two h m (two_digits h) (two_digits m) hh hm (number-two_digits h (omega arith))
        (number-two_digits m (omega arith))
