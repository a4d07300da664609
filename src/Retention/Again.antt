-- ===== src/Retention/Again.antt =====
-- Retention in src/bioseasy/snapshots.py is stable: a second run removes nothing.
use bioseasy.Prelude.{
  ℕ, suc, ◌≤◌, ◌<◌, ◌≡◌, refl, ap, ◌∙◌, ◌≢◌, inl, inr, List, [], ◌∷◌, ◌++◌, arith, ltb, Bool-cases,
  List-cases, length,
}
use bioseasy.Retention.Policy.{RetentionPolicy}
use bioseasy.Retention.Plan.{
  Snapshot, Period, Reason, Calendar, Entry, daily, weekly, monthly, yearly, bucket_key, key_in,
  key_in-cons, key_in-cons_old, unmarked, kept, apply_retention,
}
use bioseasy.Retention.Rules.{keys, distinct, rule_period, rule_latest, rules, annotate}
use bioseasy.Retention.Keeps.{plan_retention-nil, kept-plan}

-- While fewer than n periods are seen, the kept generations show the same periods as all of them.
record SamePeriods (c : Calendar) (p : Period) (n : ℕ) (all some_kept : List Snapshot)
    : Type 0 where
  same :
      distinct (keys c p all) < n
      → (k : List ℕ) → key_in k (keys c p some_kept) ≡ key_in k (keys c p all)
  count : distinct (keys c p all) < n → distinct (keys c p some_kept) ≡ distinct (keys c p all)

module _ (c : Calendar) (p : Period) (n : ℕ) (all some_kept : List Snapshot) (s : Snapshot)
    (h : SamePeriods c p n all some_kept) where
  SamePeriods-keep : SamePeriods c p n (s ∷ all) (s ∷ some_kept)
  SamePeriods-keep = record {
    same = λ few k.
        key_in-cons k (bucket_key c p s.taken_at) (keys c p some_kept) (keys c p all)
          (h.same (ground arith) k);
    count = λ few.
        ground (arith, h.same (ground arith) (bucket_key c p s.taken_at), h.count (ground arith));
  }

  SamePeriods-drop : rule_period c p n all s ≡ [] → SamePeriods c p n (s ∷ all) some_kept
  SamePeriods-drop quiet = record {
    same = λ few k. ground (
      arith,
      h.same (ground arith) k,
      key_in-cons_old k (bucket_key c p s.taken_at) (keys c p all) (ground arith),
    );
    count = λ few. ground (arith, h.count (ground arith));
  }

  rule_period_again : rule_period c p n all s ≢ [] → rule_period c p n some_kept s ≢ []
  rule_period_again fires quiet = elim (Bool-cases (ltb (distinct (keys c p all)) n)) [
    | inl few ↦
        fires (
          ground (arith, h.same (ground arith) (bucket_key c p s.taken_at), h.count (ground arith)))
    | inr full ↦ fires (ground arith)
  ]

record Matches (c : Calendar) (policy : RetentionPolicy) (all some_kept : List Snapshot)
    : Type 0 where
  by_day : SamePeriods c daily policy.keep_daily all some_kept
  by_week : SamePeriods c weekly policy.keep_weekly all some_kept
  by_month : SamePeriods c monthly policy.keep_monthly all some_kept
  by_year : SamePeriods c yearly policy.keep_yearly all some_kept
  fewer : length some_kept ≤ length all

append-nil_parts {ℓ} : {A : Type ℓ} (xs ys : List A) → xs ++ ys ≡ [] → (xs ≡ []) × (ys ≡ [])
append-nil_parts [] ys h = (refl, h)
append-nil_parts (x ∷ xs) ys h = cc

append-ne-nil {ℓ} :
    {A : Type ℓ} (xs ys xs' ys' : List A)
    → (xs ≢ [] → xs' ≢ [])
    → (ys ≢ [] → ys' ≢ [])
    → xs ++ ys ≢ []
    → xs' ++ ys' ≢ []
append-ne-nil [] ys xs' ys' f g h e = g h (append-nil_parts xs' ys' e).1
append-ne-nil (x ∷ xs) ys xs' ys' f g h e = f (λ q. cc) (append-nil_parts xs' ys' e).0

module _ (c : Calendar) (policy : RetentionPolicy) where
  module _ (all some_kept : List Snapshot) (s : Snapshot) (h : Matches c policy all some_kept) where
    latest_again :
        rule_latest policy.keep_last all s ≢ [] → rule_latest policy.keep_last some_kept s ≢ []
    latest_again fires quiet = fires (ground (arith, h.fewer))

    -- What a rule keeps, it keeps again.
    rules_again : rules c policy all s ≢ [] → rules c policy some_kept s ≢ []
    rules_again =
        append-ne-nil _ _ _ _
          (append-ne-nil _ _ _ _
            (append-ne-nil _ _ _ _
              (append-ne-nil _ _ _ _ (append-ne-nil _ _ _ _ (λ e. e) latest_again)
                (rule_period_again c daily policy.keep_daily all some_kept s h.by_day))
              (rule_period_again c weekly policy.keep_weekly all some_kept s h.by_week))
            (rule_period_again c monthly policy.keep_monthly all some_kept s h.by_month))
          (rule_period_again c yearly policy.keep_yearly all some_kept s h.by_year)

    Matches-keep : Matches c policy (s ∷ all) (s ∷ some_kept)
    Matches-keep = record {
      by_day = SamePeriods-keep c daily policy.keep_daily all some_kept s h.by_day;
      by_week = SamePeriods-keep c weekly policy.keep_weekly all some_kept s h.by_week;
      by_month = SamePeriods-keep c monthly policy.keep_monthly all some_kept s h.by_month;
      by_year = SamePeriods-keep c yearly policy.keep_yearly all some_kept s h.by_year;
      fewer = omega (arith, h.fewer);
    }

    Matches-drop : rules c policy all s ≡ [] → Matches c policy (s ∷ all) some_kept
    Matches-drop quiet =
        let few : length some_kept ≤ suc (length all) = omega (arith, h.fewer) in
        let (q4, year) = append-nil_parts _ _ quiet in
        let (q3, month) = append-nil_parts _ _ q4 in
        let (q2, week) = append-nil_parts _ _ q3 in
        let (q1, day) = append-nil_parts _ _ q2 in
        record {
          by_day = SamePeriods-drop c daily policy.keep_daily all some_kept s h.by_day day;
          by_week = SamePeriods-drop c weekly policy.keep_weekly all some_kept s h.by_week week;
          by_month =
              SamePeriods-drop c monthly policy.keep_monthly all some_kept s h.by_month month;
          by_year = SamePeriods-drop c yearly policy.keep_yearly all some_kept s h.by_year year;
          fewer = few;
        }

  abbrev kept_by : List Snapshot → List Snapshot → List Snapshot
  kept_by newer snaps = kept (annotate (rules c policy) newer (unmarked snaps))

  kept_cons :
      (s : Snapshot) (rs : List Reason) (rest : List Entry)
      → rs ≢ []
      → kept ((s, rs) ∷ rest) ≡ s ∷ kept rest
  kept_cons s [] rest h = absurd (h refl)
  kept_cons s (r ∷ rs) rest h = refl

  kept_again :
      (all some_kept snaps : List Snapshot)
      → Matches c policy all some_kept
      → kept_by some_kept (kept_by all snaps) ≡ kept_by all snaps
  kept_again all some_kept [] h = refl
  kept_again all some_kept (s ∷ rest) h = elim (List-cases (rules c policy all s)) [
    | inl quiet ↦
        rw quiet (kept_again (s ∷ all) some_kept rest (Matches-drop all some_kept s h quiet))
    | inr fires ↦
        rw
          (kept_cons s (rules c policy all s) (annotate (rules c policy) (s ∷ all) (unmarked rest))
            fires)
          (kept_cons s (rules c policy some_kept s) _ (rules_again all some_kept s h fires)
            ∙ ap (λ l. s ∷ l)
                (kept_again (s ∷ all) (s ∷ some_kept) rest (Matches-keep all some_kept s h)))
  ]

Matches-refl :
    (c : Calendar) (policy : RetentionPolicy) (snaps : List Snapshot) → Matches c policy snaps snaps
Matches-refl c policy snaps = record {
  by_day = record { same = λ few k. refl; count = λ few. refl };
  by_week = record { same = λ few k. refl; count = λ few. refl };
  by_month = record { same = λ few k. refl; count = λ few. refl };
  by_year = record { same = λ few k. refl; count = λ few. refl };
  fewer = omega arith;
}

-- A second run of retention with the same policy keeps everything that the first one kept.
pub apply_retention_idem :
    (c : Calendar) (policy : RetentionPolicy) (snaps : List Snapshot)
    → (apply_retention c policy (apply_retention c policy snaps).0).0
      ≡ (apply_retention c policy snaps).0
unfolding apply_retention
apply_retention_idem c policy [] =
    rw (plan_retention-nil c policy) (rw (plan_retention-nil c policy))
apply_retention_idem c policy (s ∷ rest) = rw (kept-plan c policy s rest) (
    kept-plan c policy s (kept_by c policy (s ∷ []) rest)
    ∙ ap (λ l. s ∷ l) (kept_again c policy (s ∷ []) (s ∷ []) rest (Matches-refl c policy (s ∷ []))))
