-- ===== src/Retention/Keeps.antt =====
-- What retention in src/bioseasy/snapshots.py never removes, and that it loses nothing.
use bioseasy.Prelude.{◌≡◌, refl, sym, ap, ◌∙◌, subst, ◌≢◌, true, List, [], ◌∷◌, ◌++◌, arith}
use mathlib.Core.List.{Memᴰ, Perm, perm_middle}
use mathlib.Core.List.Perm
use bioseasy.Retention.Policy.{RetentionPolicy}
use bioseasy.Retention.Plan.{
  Snapshot, Reason, Calendar, Entry, add_newest, unmarked, plan_retention, kept, removed,
  apply_retention,
}
use bioseasy.Retention.Rules.{Rule, rules, annotate, plan_retention-eq-rules}

-- `add_newest` labels the first entry, which is kept whatever the rules say.
pub kept-add_newest :
    (s : Snapshot) (rs : List Reason) (rest : List Entry)
    → kept (add_newest ((s, rs) ∷ rest)) ≡ s ∷ kept rest
unfolding add_newest
kept-add_newest s [] rest = refl
kept-add_newest s (r ∷ rs) rest = refl

pub plan_retention-nil : (c : Calendar) (policy : RetentionPolicy) → plan_retention c policy [] ≡ []
unfolding add_newest
plan_retention-nil c policy = rw (plan_retention-eq-rules c policy [])

pub kept-plan :
    (c : Calendar) (policy : RetentionPolicy) (s : Snapshot) (rest : List Snapshot)
    → kept (plan_retention c policy (s ∷ rest))
      ≡ s ∷ kept (annotate (rules c policy) (s ∷ []) (unmarked rest))
kept-plan c policy s rest =
    rw (plan_retention-eq-rules c policy (s ∷ rest))
      (kept-add_newest s (rules c policy [] s) (annotate (rules c policy) (s ∷ []) (unmarked rest)))

rules_pinned :
    (c : Calendar) (policy : RetentionPolicy) (newer : List Snapshot) (s : Snapshot)
    → s.pinned ≡ true
    → rules c policy newer s ≢ []
rules_pinned c policy newer s h = ground arith

mem-kept_cons :
    (s : Snapshot) (rs : List Reason) (rest : List Entry) → rs ≢ [] → Memᴰ s (kept ((s, rs) ∷ rest))
mem-kept_cons s [] rest h = absurd (h refl)
mem-kept_cons s (r ∷ rs) rest h = Memᴰ.head refl

mem-kept_of_mem :
    {t : Snapshot} (s : Snapshot) (rs : List Reason) (rest : List Entry)
    → Memᴰ t (kept rest)
    → Memᴰ t (kept ((s, rs) ∷ rest))
mem-kept_of_mem s [] rest m = m
mem-kept_of_mem s (r ∷ rs) rest m = Memᴰ.tail m

pinned-kept :
    (c : Calendar) (policy : RetentionPolicy) (newer : List Snapshot) (snaps : List Snapshot)
    (t : Snapshot)
    → t.pinned ≡ true
    → Memᴰ t snaps
    → Memᴰ t (kept (annotate (rules c policy) newer (unmarked snaps)))
pinned-kept c policy newer [] t h m = elim m [ ]
pinned-kept c policy newer (s ∷ rest) t h (Memᴰ.head e) =
    subst (λ u. Memᴰ u (kept (annotate (rules c policy) newer (unmarked (s ∷ rest))))) (sym e)
      (mem-kept_cons s (rules c policy newer s)
        (annotate (rules c policy) (s ∷ newer) (unmarked rest))
        (rules_pinned c policy newer s (subst (λ (u : Snapshot). u.pinned ≡ true) e h)))
pinned-kept c policy newer (s ∷ rest) t h (Memᴰ.tail m) =
    mem-kept_of_mem s (rules c policy newer s)
      (annotate (rules c policy) (s ∷ newer) (unmarked rest))
      (pinned-kept c policy (s ∷ newer) rest t h m)

-- Retention keeps every pinned generation, whatever the policy.
apply_retention-pinned :
    (c : Calendar) (policy : RetentionPolicy) (snaps : List Snapshot) (t : Snapshot)
    → t.pinned ≡ true
    → Memᴰ t snaps
    → Memᴰ t (apply_retention c policy snaps).0
unfolding apply_retention
apply_retention-pinned c policy [] t h m = elim m [ ]
apply_retention-pinned c policy (s ∷ rest) t h (Memᴰ.head e) =
    rw (kept-plan c policy s rest) (Memᴰ.head e)
apply_retention-pinned c policy (s ∷ rest) t h (Memᴰ.tail m) =
    rw (kept-plan c policy s rest) (Memᴰ.tail (pinned-kept c policy (s ∷ []) rest t h m))

-- Retention keeps the newest generation, whatever the policy.
apply_retention-newest :
    (c : Calendar) (policy : RetentionPolicy) (s : Snapshot) (rest : List Snapshot)
    → (older : List Snapshot) × ((apply_retention c policy (s ∷ rest)).0 ≡ s ∷ older)
unfolding apply_retention
apply_retention-newest c policy s rest =
    (kept (annotate (rules c policy) (s ∷ []) (unmarked rest)), kept-plan c policy s rest)

abbrev snapshots : List Entry → List Snapshot
snapshots [] = []
snapshots ((s, rs) ∷ rest) = s ∷ snapshots rest

snapshots-annotate :
    (f : Rule) (newer snaps : List Snapshot) → snapshots (annotate f newer (unmarked snaps)) ≡ snaps
snapshots-annotate f newer [] = refl
snapshots-annotate f newer (s ∷ rest) = ap (λ l. s ∷ l) (snapshots-annotate f (s ∷ newer) rest)

snapshots-add_newest : (entries : List Entry) → snapshots (add_newest entries) ≡ snapshots entries
unfolding add_newest
snapshots-add_newest [] = refl
snapshots-add_newest ((s, []) ∷ rest) = refl
snapshots-add_newest ((s, r ∷ rs) ∷ rest) = refl

kept-removed-perm :
    (entries : List Entry) → Perm (kept entries ++ removed entries) (snapshots entries)
kept-removed-perm [] = Perm.refl []
kept-removed-perm ((s, []) ∷ rest) =
    Perm.trans (perm_middle (kept rest) (removed rest)) (Perm.cons s (kept-removed-perm rest))
kept-removed-perm ((s, r ∷ rs) ∷ rest) = Perm.cons s (kept-removed-perm rest)

-- Every generation is either kept or removed, each as often as it was there.
apply_retention-perm :
    (c : Calendar) (policy : RetentionPolicy) (snaps : List Snapshot)
    → Perm ((apply_retention c policy snaps).0 ++ (apply_retention c policy snaps).1) snaps
unfolding apply_retention
apply_retention-perm c policy snaps =
    subst
      (λ l.
        Perm (kept (plan_retention c policy snaps) ++ removed (plan_retention c policy snaps)) l)
      same (kept-removed-perm (plan_retention c policy snaps))
  where
    same : snapshots (plan_retention c policy snaps) ≡ snaps
    same = rw (plan_retention-eq-rules c policy snaps) (
        snapshots-add_newest (annotate (rules c policy) [] (unmarked snaps))
        ∙ snapshots-annotate (rules c policy) [] snaps)

-- Whatever the policy, the generations that retention keeps and those that it removes are together
-- those that were there, each as often as before; it keeps every pinned generation, and the newest
-- one as the first of those that are left.
pub apply_retention-keeps :
    (c : Calendar) (policy : RetentionPolicy) (snaps : List Snapshot)
    → Perm ((apply_retention c policy snaps).0 ++ (apply_retention c policy snaps).1) snaps
      × ((t : Snapshot)
          → t.pinned ≡ true
          → Memᴰ t snaps
          → Memᴰ t (apply_retention c policy snaps).0)
      × ((s : Snapshot) (rest : List Snapshot)
          → snaps ≡ s ∷ rest
          → (older : List Snapshot) × ((apply_retention c policy snaps).0 ≡ s ∷ older))
apply_retention-keeps c policy snaps = (
  apply_retention-perm c policy snaps,
  λ t fixed m. apply_retention-pinned c policy snaps t fixed m,
  λ s rest e.
      let (older, same) = apply_retention-newest c policy s rest in
      (older, ap (λ l. (apply_retention c policy l).0) e ∙ same),
)
