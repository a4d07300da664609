-- ===== src/Retention/Samples.antt =====
-- Small inputs for the retention of src/bioseasy/snapshots.py: four generations on two days.
use bioseasy.Prelude.{ℕ, ◌/◌, String, ◌≡◌, refl, Bool, true, false, List, [], ◌∷◌, ◌++◌}
use mathlib.Core.List.{Memᴰ, Perm}
use bioseasy.Retention.Policy.{RetentionPolicy}
use bioseasy.Retention.Plan.{
  Snapshot, Calendar, pinned, latest, per, daily, add_newest, add_period, add_latest, add_pinned,
  key_in, bucket_key, unmarked, plan_retention, apply_retention,
}
use bioseasy.Retention.Rules.{rules, annotate, plan_retention-eq-rules}
use bioseasy.Retention.Keeps.{apply_retention-keeps}
use bioseasy.Retention.Again.{apply_retention_idem}

-- Time in hours, months of thirty days.
abbrev calendar : Calendar
calendar = record {
  year = λ t. t / 8640;
  month = λ t. t / 720;
  day = λ t. t / 24;
  iso_year = λ t. t / 8736;
  iso_week = λ t. t / 168;
}

abbrev generation : String → ℕ → Bool → Snapshot
generation name t fixed = record { name = name; taken_at = t; pinned = fixed }

abbrev old : Snapshot
old = generation "d" 2 true

abbrev generations : List Snapshot
generations = generation "a" 40 false ∷ generation "b" 30 false ∷ generation "c" 20 false ∷ old ∷ []

abbrev policy : RetentionPolicy
policy = record {
  keep_last = 1;
  keep_daily = 2;
  keep_weekly = 0;
  keep_monthly = 0;
  keep_yearly = 0;
}

plan_retention-generations :
    plan_retention calendar policy generations
    ≡ (generation "a" 40 false, latest ∷ per daily ∷ [])
      ∷ (generation "b" 30 false, [])
      ∷ (generation "c" 20 false, per daily ∷ [])
      ∷ (old, pinned ∷ [])
      ∷ []
unfolding plan_retention add_newest add_period add_latest add_pinned key_in bucket_key
plan_retention-generations = refl

plan_retention-eq-rules_example :
    plan_retention calendar policy generations
    ≡ add_newest (annotate (rules calendar policy) [] (unmarked generations))
plan_retention-eq-rules_example = plan_retention-eq-rules calendar policy generations

apply_retention-keeps_example :
    Perm
      ((apply_retention calendar policy generations).0
        ++ (apply_retention calendar policy generations).1)
      generations
    × ((t : Snapshot)
        → t.pinned ≡ true
        → Memᴰ t generations
        → Memᴰ t (apply_retention calendar policy generations).0)
    × ((s : Snapshot) (rest : List Snapshot)
        → generations ≡ s ∷ rest
        → (older : List Snapshot) × ((apply_retention calendar policy generations).0 ≡ s ∷ older))
apply_retention-keeps_example = apply_retention-keeps calendar policy generations

apply_retention_idem_example :
    (apply_retention calendar policy (apply_retention calendar policy generations).0).0
    ≡ (apply_retention calendar policy generations).0
apply_retention_idem_example = apply_retention_idem calendar policy generations
