-- ===== src/Backups/Storage.antt =====
-- src/bioseasy/storage.py: is the backup root the volume that was configured, and fit to write to? What
-- the disk answers is a record.
pub mod Fit
use bioseasy.Prelude.{
  ℕ, zero, suc, ◌+◌, ◌-◌, ◌*◌, ◌/◌, ◌%◌, ◌^◌, ◌≤◌, ◌<◌, String, ◌≡◌, refl, sym, ap, ◌∙◌, subst, ◌≢◌,
  ◌↔◌, ◌⊎◌, inl, inr, Bool, true, false, not, ◌&&◌, ◌||◌, Option, none, some, List, [], ◌∷◌, ◌++◌,
  map, arith, str_eq, eq_iff, ltb, leb, ◌==◌, if◌then◌else◌, ltb→lt, leb→le, lt→ltb, le→leb,
  Bool-cases, Option-cases, is_none, List-cases, length, length-append, All,
}

pub data StorageProblem : Type 0 where
  no_root not_initialised marker_missing other_root not_writable : StorageProblem
  low_space : ℕ → StorageProblem

-- The root, its marker file's stripped text, `shutil.disk_usage`, whether the marker's folder exists, and the probe.
pub record RootDisk : Type 0 where
  pub is_dir : Bool
  pub marker : Option String
  pub free_bytes : ℕ
  pub total_bytes : ℕ
  pub marker_dir : Bool
  pub can_write : Bool
  pub can_link : Bool

pub record StorageCheck : Type 0 where
  pub problems : List StorageProblem
  pub free_bytes : Option ℕ
  pub total_bytes : Option ℕ
  pub hardlinks : Option Bool

unfoldable pub marker_problem : Option String → Option String → List StorageProblem
marker_problem none marker = not_initialised ∷ []
marker_problem (some expected) none = marker_missing ∷ []
marker_problem (some expected) (some found) = if str_eq found expected then [] else other_root ∷ []

-- `_probe_write_and_links`
unfoldable pub probe_write_and_links : RootDisk → Bool × Bool
probe_write_and_links d = if d.can_write then (true, d.can_link) else (false, false)

space_problem : RootDisk → ℕ → List StorageProblem
space_problem d min_free_bytes =
    if ltb d.free_bytes min_free_bytes then low_space min_free_bytes ∷ [] else []

write_problem : RootDisk → List StorageProblem
unfolding probe_write_and_links
write_problem d = if d.marker_dir && not (probe_write_and_links d).0 then not_writable ∷ [] else []

-- The problems of a root that is a directory.
root_problems : RootDisk → Option String → ℕ → List StorageProblem
unfolding marker_problem space_problem write_problem
root_problems d expected_id min_free_bytes =
    marker_problem expected_id d.marker ++ (space_problem d min_free_bytes ++ write_problem d)

unfoldable pub check : RootDisk → Option String → ℕ → StorageCheck
unfolding root_problems
check d expected_id min_free_bytes =
    if not d.is_dir
    then record { problems = no_root ∷ []; free_bytes = none; total_bytes = none; hardlinks = none }
    else record {
      problems = root_problems d expected_id min_free_bytes;
      free_bytes = some d.free_bytes;
      total_bytes = some d.total_bytes;
      hardlinks = if d.marker_dir then some (probe_write_and_links d).1 else none;
    }

pub record DiskUsage : Type 0 where
  pub free : ℕ
  pub total : ℕ

pub record DiskUsageCache : Type 0 where
  pub ttl : ℕ
  pub cached_at : Option ℕ
  pub value : Option DiskUsage

-- `disk` is `shutil.disk_usage(root)`, or none where that is not available.
unfoldable pub get : DiskUsageCache → Option DiskUsage → ℕ → Option DiskUsage × DiskUsageCache
get c disk now =
    if elim c.cached_at [ none ↦ false | some t ↦ ltb now (t + c.ttl) ]
    then (c.value, c)
    else (disk, record c { cached_at = some now; value = disk })
