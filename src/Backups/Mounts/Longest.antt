-- ===== src/Backups/Mounts/Longest.antt =====
-- Which mount src/bioseasy/mountinfo.py finds for a path.
use bioseasy.Prelude.{ℕ, suc, ◌≤◌, Option, none, some, List, [], ◌∷◌, arith, length, All}
use bioseasy.Backups.Mounts.{Text, Paths, Mount, candidate, better, best_mount, find_mount}

-- 0 where there is no mount, else one more than the length of the mount point.
abbrev pub rank : Option Mount → ℕ
rank none = 0
rank (some m) = suc (length m.mount_point)

better-rank :
    (best found : Option Mount)
    → (rank best ≤ rank (better best found)) × (rank found ≤ rank (better best found))
unfolding better
better-rank best none = ground arith
better-rank none (some m) = ground arith
better-rank (some b) (some m) = ground arith

best_mount-rank :
    (p : Paths) (target : Text) (best : Option Mount) (lines : List Text)
    → (rank best ≤ rank (best_mount p target best lines))
      × All (λ line. rank (candidate p target line) ≤ rank (best_mount p target best lines)) lines
unfolding best_mount
best_mount-rank p target best [] = (omega arith, tt)
best_mount-rank p target best (line ∷ rest) =
    let next = better best (candidate p target line) in
    let (kept, others) = best_mount-rank p target next rest in
    (
      ground (arith, kept, better-rank best (candidate p target line)),
      (ground (arith, kept, better-rank best (candidate p target line)), others),
    )

-- No line names a mount that covers the path and has a longer mount point than the one found; where
-- none is found, no line names one that covers it.
pub find_mount-longest :
    (p : Paths) (lines : List Text) (path : Text)
    → All (λ line. rank (candidate p (p.normpath path) line) ≤ rank (find_mount p lines path)) lines
unfolding find_mount
find_mount-longest p lines path = (best_mount-rank p (p.normpath path) none lines).1
