-- ===== src/Backups/Verify/Results.antt =====
-- The stored results of src/bioseasy/verify.py, and which generation is checked next.
use bioseasy.Prelude.{
  ℕ, String, ◌≡◌, subst, Bool, false, ◌&&◌, ◌||◌, Option, none, some, List, [], ◌∷◌, arith, str_eq,
  eq_iff, if◌then◌else◌, All,
}
use mathlib.Core.Option.{some-injective}
use bioseasy.Backups.Verify.{
  VerifyResult, Verification, save_result, delete_result, delete_results, load_result, Candidate,
  precedes, pick_from, pick_snapshot,
}

-- What is stored for a generation: the result and the time of the check.
abbrev pub stored : List Verification → String → String → Option (VerifyResult × ℕ)
stored table udid name = elim (load_result table udid name) [
  | none ↦ none
  | some v ↦ some (v.result, v.checked_at)
]

-- After a result is saved, it is what is stored for its generation, and nothing else has changed.
pub save_result-stored :
    (table : List Verification) (udid name : String) (result : VerifyResult) (now : ℕ)
    (udid' name' : String)
    → stored (save_result table udid name result now) udid' name' ≡ (
        if str_eq udid udid' && str_eq name name'
        then some (result, now)
        else stored table udid' name')
unfolding save_result load_result
save_result-stored [] udid name result now udid' name' = ground arith
save_result-stored (v ∷ rest) udid name result now udid' name' = ground (
  arith,
  save_result-stored rest udid name result now udid' name',
  eq_iff v.udid udid,
  eq_iff v.snapshot_name name,
  eq_iff v.udid udid',
  eq_iff v.snapshot_name name',
  eq_iff udid udid',
  eq_iff name name',
)

delete_result-stored :
    (table : List Verification) (udid name udid' name' : String)
    → stored (delete_result table udid name) udid' name'
      ≡ (if str_eq udid udid' && str_eq name name' then none else stored table udid' name')
unfolding delete_result load_result
delete_result-stored [] udid name udid' name' = ground arith
delete_result-stored (v ∷ rest) udid name udid' name' = ground (
  arith,
  delete_result-stored rest udid name udid' name',
  eq_iff v.udid udid,
  eq_iff v.snapshot_name name,
  eq_iff v.udid udid',
  eq_iff v.snapshot_name name',
  eq_iff udid udid',
  eq_iff name name',
)

abbrev pub name_in : String → List String → Bool
name_in name [] = false
name_in name (x ∷ xs) = str_eq x name || name_in name xs

-- Deleting the results of some generations of a device removes just theirs.
pub delete_results-stored :
    (table : List Verification) (udid : String) (names : List String) (udid' name' : String)
    → stored (delete_results table udid names) udid' name'
      ≡ (if str_eq udid udid' && name_in name' names then none else stored table udid' name')
unfolding delete_results
delete_results-stored table udid [] udid' name' = ground arith
delete_results-stored table udid (n ∷ names) udid' name' = ground (
  arith,
  delete_results-stored (delete_result table udid n) udid names udid' name',
  delete_result-stored table udid n udid' name',
)

-- No candidate of the list comes before c.
abbrev pub IsLeast : Candidate → List Candidate → Type 0
IsLeast c candidates = All (λ d. precedes d c ≡ false) candidates

precedes_trans :
    (a b c : Candidate) → precedes a b ≡ false → precedes b c ≡ false → precedes a c ≡ false
precedes_trans a b c p q = ground arith

pick_from-IsLeast :
    (best : Candidate) (candidates : List Candidate)
    → IsLeast (pick_from best candidates) (best ∷ candidates)
unfolding pick_from
pick_from-IsLeast best [] = (ground arith, tt)
pick_from-IsLeast best (c ∷ rest) =
    let better = if precedes c best then c else best in
    let (first, later) = pick_from-IsLeast better rest in
    (
      ground (arith, first, precedes_trans best better (pick_from better rest)),
      (ground (arith, first, precedes_trans c better (pick_from better rest)), later),
    )

-- The generation that is checked next is one that no other comes before: one without a result, and
-- the oldest of those, or else the one whose check is longest ago.
pick_snapshot-IsLeast :
    (candidates : List Candidate) (c : Candidate)
    → pick_snapshot candidates ≡ some c
    → IsLeast c candidates
unfolding pick_snapshot
pick_snapshot-IsLeast [] c e = ground arith
pick_snapshot-IsLeast (d ∷ rest) c e =
    subst (λ b. IsLeast b (d ∷ rest)) (some-injective _ _ e) (pick_from-IsLeast d rest)
