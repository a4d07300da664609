-- ===== src/Accounts/Throttle/Waits.antt =====
-- How long `LoginThrottle` of src/bioseasy/auth.py makes a key wait.
use bioseasy.Prelude.{
  ℕ, suc, ◌+◌, ◌-◌, ◌*◌, ◌^◌, String, ◌≡◌, ◌∙◌, none, some, List, [], ◌∷◌, arith, str_eq, eq_iff,
  ltb, leb, if◌then◌else◌, length,
}
use bioseasy.Accounts.Throttle.{
  default_throttle, Failures, get, forget, smaller, wait_seconds, failed, succeeded,
}

get-forget :
    (j k : String) (fs : Failures) → get j (forget k fs) ≡ (if str_eq k j then (0, 0) else get j fs)
unfolding get forget
get-forget j k [] = ground arith
get-forget j k ((i, v) ∷ rest) =
    ground (arith, get-forget j k rest, eq_iff i k, eq_iff i j, eq_iff k j)

get-failed :
    (fs : Failures) (k j : String) (now : ℕ)
    → get j (failed fs k now) ≡ (if str_eq k j then ((get k fs).0 + 1, now) else get j fs)
unfolding failed get
get-failed fs k j now = ground (arith, get-forget j k fs)

-- The failures of one key, at the given times.
abbrev pub fail_all : Failures → String → List ℕ → Failures
fail_all fs k [] = fs
fail_all fs k (t ∷ ts) = fail_all (failed fs k t) k ts

abbrev last_of : ℕ → List ℕ → ℕ
last_of d [] = d
last_of d (t ∷ ts) = last_of t ts

get-fail_all :
    (k : String) (ts : List ℕ) (t : ℕ) (fs : Failures)
    → get k (fail_all (failed fs k t) k ts) ≡ ((get k fs).0 + 1 + length ts, last_of t ts)
get-fail_all k [] t fs = rw get-failed (ground (arith, eq_iff k k))
get-fail_all k (u ∷ ts) t fs =
    get-fail_all k ts u (failed fs k t) ∙ rw get-failed (ground (arith, eq_iff k k))

failures_since :
    (fs : Failures) (k : String) (t : ℕ) (ts : List ℕ)
    → get k (fail_all (failed (forget k fs) k t) k ts) ≡ (suc (length ts), last_of t ts)
failures_since fs k t ts =
    get-fail_all k ts t (forget k fs) ∙ ground (arith, get-forget k k fs, eq_iff k k)

-- After a success, failures at t and at the times of ts, which are fewer than five, cost no wait;
-- more of them make the key wait from the last one on for the base delay, doubled with each further
-- failure, up to the maximum; and from 1029 failures on the wait raises an OverflowError.
pub wait_seconds-failures :
    (fs : Failures) (k : String) (t : ℕ) (ts : List ℕ) (now : ℕ)
    → let n = suc (length ts) in
      wait_seconds default_throttle (fail_all (failed (succeeded fs k) k t) k ts) k now ≡ (
        if ltb n 5
        then some 0
        else if leb 1029 n
        then none
        else some (last_of t ts + smaller (2000000 * 2 ^ (n - 5)) 300000000 - now))
unfolding wait_seconds succeeded
wait_seconds-failures fs k t ts now = rw (failures_since fs k t ts)
