-- ===== src/Accounts/Throttle.antt =====
-- `LoginThrottle` of src/bioseasy/auth.py. Times and delays are numbers of one unit; the clock's
-- rounding is left out. The defaults are in microseconds.
pub mod Waits
use bioseasy.Prelude.{
  ℕ, zero, suc, ◌+◌, ◌-◌, ◌*◌, ◌/◌, ◌%◌, ◌^◌, ◌≤◌, ◌<◌, String, ◌≡◌, refl, sym, ap, ◌∙◌, subst, ◌≢◌,
  ◌↔◌, ◌⊎◌, inl, inr, Bool, true, false, not, ◌&&◌, ◌||◌, Option, none, some, List, [], ◌∷◌, ◌++◌,
  map, arith, str_eq, eq_iff, ltb, leb, ◌==◌, if◌then◌else◌, ltb→lt, leb→le, lt→ltb, le→leb,
  Bool-cases, Option-cases, is_none, List-cases, length, length-append, All,
}

pub record Throttle : Type 0 where
  pub free : ℕ
  pub base : ℕ
  pub max : ℕ

abbrev pub default_throttle : Throttle
default_throttle = record { free = 5; base = 2000000; max = 300000000 }

-- `_failures`: the count and the time of the last failure of each key.
abbrev pub Failures : Type 0
Failures = List (String × (ℕ × ℕ))

unfoldable pub get : String → Failures → ℕ × ℕ
get key [] = (0, 0)
get key ((k, v) ∷ rest) = if str_eq k key then v else get key rest

unfoldable pub forget : String → Failures → Failures
forget key [] = []
forget key ((k, v) ∷ rest) =
    let others = forget key rest in if str_eq k key then others else (k, v) ∷ others

abbrev pub smaller : ℕ → ℕ → ℕ
smaller a b = if ltb a b then a else b

-- From here on the power has no float: `self._base * 2 ** n` raises OverflowError.
abbrev pub float_limit : ℕ
float_limit = 1024

-- `max(0.0, last + delay - now)` is the subtraction that stops at 0; `none` is the OverflowError.
wait_after : Throttle → ℕ → ℕ × ℕ → Option ℕ
wait_after t now (count, last) =
    if ltb count t.free
    then some 0
    else if leb (t.free + float_limit) count
    then none
    else some (last + smaller (t.base * 2 ^ (count - t.free)) t.max - now)

unfoldable pub wait_seconds : Throttle → Failures → String → ℕ → Option ℕ
unfolding wait_after
wait_seconds t failures key now = wait_after t now (get key failures)

unfoldable pub failed : Failures → String → ℕ → Failures
failed failures key now = (key, ((get key failures).0 + 1, now)) ∷ forget key failures

unfoldable pub succeeded : Failures → String → Failures
succeeded failures key = forget key failures
