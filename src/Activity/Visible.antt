-- ===== src/Activity/Visible.antt =====
-- What a sweep of src/bioseasy/activity.py takes away: nothing that a page shows.
use bioseasy.Prelude.{ℕ, ◌≡◌, refl, ap, Bool, true, false, ◌&&◌, List, [], ◌∷◌, arith}
use bioseasy.Activity.{
  Activity, Device, is_running_row, order_by, where_rows, is_owned, for_admin, for_owner, is_swept,
  sweep_stale,
}

where-sweep :
    (p : Activity → Bool) (rows : List Activity) (now : ℕ)
    → ((a : Activity) → is_swept now a ≡ true → p a ≡ false)
    → where_rows p (sweep_stale rows now).0 ≡ where_rows p rows
unfolding where_rows sweep_stale
where-sweep p [] now none_shown = refl
where-sweep p (a ∷ rest) now none_shown =
    ground (arith, where-sweep p rest now none_shown, none_shown a)

swept_not_running : (now : ℕ) (a : Activity) → is_swept now a ≡ true → is_running_row now a ≡ false
unfolding is_swept is_running_row
swept_not_running now a e = ground arith

-- A sweep changes neither what an administrator nor what an owner is shown as running at the same time.
sweep_stale-shown :
    (rows : List Activity) (devices : List Device) (owner now : ℕ)
    → (for_admin (sweep_stale rows now).0 now ≡ for_admin rows now)
      × (for_owner (sweep_stale rows now).0 devices owner now ≡ for_owner rows devices owner now)
unfolding for_admin for_owner
sweep_stale-shown rows devices owner now = (
  ap (order_by (λ a. a.started_at))
      (where-sweep (is_running_row now) rows now (swept_not_running now)),
  ap (order_by (λ a. a.started_at)) (
      where-sweep (λ a. is_owned devices owner a && is_running_row now a) rows now
        (λ a e. ground (arith, swept_not_running now a e))),
)
