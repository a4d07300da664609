-- ===== src/Activity.antt =====
-- The table `activities` of src/bioseasy/activity.py. Times are whole seconds; the joined name of the
-- device, the label and the detail's text are left out.
pub mod Visible
use bioseasy.Prelude.{
  ℕ, zero, suc, ◌+◌, ◌-◌, ◌*◌, ◌/◌, ◌%◌, ◌^◌, ◌≤◌, ◌<◌, String, ◌≡◌, refl, sym, ap, ◌∙◌, subst, ◌≢◌,
  ◌↔◌, ◌⊎◌, inl, inr, Bool, true, false, not, ◌&&◌, ◌||◌, Option, none, some, List, [], ◌∷◌, ◌++◌,
  map, arith, str_eq, eq_iff, ltb, leb, ◌==◌, if◌then◌else◌, ltb→lt, leb→le, lt→ltb, le→leb,
  Bool-cases, Option-cases, is_none, List-cases, length, length-append, All,
}

pub data Outcome : Type 0 where
  succeeded failed not_confirmed : Outcome

pub record Activity : Type 0 where
  pub id : String
  pub kind : String
  pub udid : Option String
  pub phase : Option String
  pub snapshot_name : Option String
  pub started_at : ℕ
  pub heartbeat_at : ℕ
  pub outcome : Option Outcome
  pub finished_at : Option ℕ

-- A row of the table `devices`: the id, and the owner if there is one.
pub record Device : Type 0 where
  pub udid : String
  pub owner_id : Option ℕ

abbrev pub stale_after : ℕ
stale_after = 60

abbrev pub finished_retention : ℕ
finished_retention = 600

-- `_RUNNING_WHERE` and `_FINISHED_WHERE`; a comparison with NULL is not true.
unfoldable pub is_running_row : ℕ → Activity → Bool
is_running_row now a = is_none a.outcome && leb (now - stale_after) a.heartbeat_at

unfoldable pub is_finished_row : ℕ → Activity → Bool
is_finished_row now a =
    not (is_none a.outcome)
    && elim a.finished_at [ none ↦ false | some t ↦ leb (now - finished_retention) t ]

-- ORDER BY started_at: each row goes in before the first later one.
unfoldable pub insert_by : (Activity → ℕ) → Activity → List Activity → List Activity
insert_by key a [] = a ∷ []
insert_by key a (b ∷ rest) =
    let later = insert_by key a rest in if leb (key a) (key b) then a ∷ b ∷ rest else b ∷ later

unfoldable pub order_by : (Activity → ℕ) → List Activity → List Activity
unfolding insert_by
order_by key [] = []
order_by key (a ∷ rest) = insert_by key a (order_by key rest)

unfoldable pub where_rows : (Activity → Bool) → List Activity → List Activity
where_rows p [] = []
where_rows p (a ∷ rest) = let others = where_rows p rest in if p a then a ∷ others else others

unfoldable pub owns : List Device → ℕ → String → Bool
owns [] owner udid = false
owns (d ∷ rest) owner udid =
    (str_eq d.udid udid && elim d.owner_id [ none ↦ false | some o ↦ o == owner ])
    || owns rest owner udid

-- JOIN devices d ON d.udid = a.udid WHERE d.owner_id = ?
unfoldable pub is_owned : List Device → ℕ → Activity → Bool
unfolding owns
is_owned devices owner a = elim a.udid [ none ↦ false | some u ↦ owns devices owner u ]

abbrev pub finished_time : Activity → ℕ
finished_time a = elim a.finished_at [ none ↦ 0 | some t ↦ t ]

unfoldable pub for_admin : List Activity → ℕ → List Activity
for_admin rows now = order_by (λ a. a.started_at) (where_rows (is_running_row now) rows)

unfoldable pub for_owner : List Activity → List Device → ℕ → ℕ → List Activity
unfolding is_owned
for_owner rows devices owner now =
    order_by (λ a. a.started_at)
      (where_rows (λ a. is_owned devices owner a && is_running_row now a) rows)

-- SELECT 1 … LIMIT 1
unfoldable pub is_running : List Activity → String → String → ℕ → Bool
is_running [] kind udid now = false
is_running (a ∷ rest) kind udid now =
    (str_eq a.kind kind
      && (elim a.udid [ none ↦ false | some u ↦ str_eq u udid ] && is_running_row now a))
    || is_running rest kind udid now

-- The rows that are left, and `cur.rowcount`.
unfoldable pub is_swept : ℕ → Activity → Bool
is_swept now a =
    (not (is_none a.outcome)
      && elim a.finished_at [ none ↦ false | some t ↦ ltb t (now - finished_retention) ])
    || is_none a.outcome && ltb a.heartbeat_at (now - stale_after)

unfoldable pub sweep_stale : List Activity → ℕ → List Activity × ℕ
sweep_stale [] now = ([], 0)
sweep_stale (a ∷ rest) now =
    let (left, n) = sweep_stale rest now in if is_swept now a then (left, suc n) else (a ∷ left, n)
