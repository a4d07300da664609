-- ===== src/Backups/Storage/Fit.antt =====
-- When the check of src/bioseasy/storage.py lets a backup write.
use bioseasy.Prelude.{
  ℕ, ◌≤◌, String, ◌≡◌, refl, ◌↔◌, true, Option, none, some, List, [], ◌∷◌, ◌++◌, arith, eq_iff,
}
use bioseasy.Backups.Storage.{
  RootDisk, marker_problem, space_problem, write_problem, root_problems, probe_write_and_links,
  check,
}

-- The root is there and has the expected marker and enough space, and a file can be written to it where
-- the marker's folder is there.
abbrev pub IsFit : RootDisk → Option String → ℕ → Type 0
IsFit d expected_id min_free_bytes =
    (d.is_dir ≡ true)
    × ((id : String) × (expected_id ≡ some id) × (d.marker ≡ some id))
    × (min_free_bytes ≤ d.free_bytes)
    × (d.marker_dir ≡ true → d.can_write ≡ true)

nil_of_append : {A : Type 0} (xs ys : List A) → xs ++ ys ≡ [] → (xs ≡ []) × (ys ≡ [])
nil_of_append [] ys e = (refl, e)
nil_of_append (x ∷ xs) ys e = ground arith

marker_problem-nil :
    (expected marker : Option String)
    → marker_problem expected marker ≡ []
    → (id : String) × (expected ≡ some id) × (marker ≡ some id)
unfolding marker_problem
marker_problem-nil none marker e = ground arith
marker_problem-nil (some id) none e = ground arith
marker_problem-nil (some id) (some found) e = (id, refl, ground (arith, eq_iff found id))

IsFit-of_root_problems :
    (d : RootDisk) (expected_id : Option String) (min_free_bytes : ℕ)
    → d.is_dir ≡ true
    → root_problems d expected_id min_free_bytes ≡ []
    → IsFit d expected_id min_free_bytes
unfolding root_problems space_problem write_problem probe_write_and_links
IsFit-of_root_problems d expected_id min_free_bytes dir e =
    let (m, rest) = nil_of_append (marker_problem expected_id d.marker) _ e in
    let (s, w) = nil_of_append (space_problem d min_free_bytes) _ rest in
    (
      dir,
      marker_problem-nil expected_id d.marker m,
      ground (arith, s),
      λ there. ground (arith, w, there),
    )

-- A storage check finds no problem exactly when the root is there with the marker of the configured
-- root and at least the space asked for, and can be written to where the marker's folder exists.
check-ok_iff :
    (d : RootDisk) (expected_id : Option String) (min_free_bytes : ℕ)
    → ((check d expected_id min_free_bytes).problems ≡ []) ↔ IsFit d expected_id min_free_bytes
unfolding check root_problems space_problem write_problem probe_write_and_links marker_problem
check-ok_iff d expected_id min_free_bytes = (
  λ e. IsFit-of_root_problems d expected_id min_free_bytes (ground (arith, e)) (ground (arith, e)),
  λ (dir, (id, is_expected, is_found), space, writes).
      ground (arith, dir, is_expected, is_found, space, writes, eq_iff id id),
)
