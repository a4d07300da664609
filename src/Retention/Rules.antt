-- ===== src/Retention/Rules.antt =====
-- The retention rules of src/bioseasy/snapshots.py without their loops: why a generation is kept,
-- from the generations that are newer.
use bioseasy.Prelude.{
  ℕ, zero, suc, ◌+◌, ◌-◌, ◌≤◌, ◌≡◌, refl, sym, ◌∙◌, inl, inr, List, [], ◌∷◌, ◌++◌, arith, ltb,
  if◌then◌else◌, Bool-cases, length,
}
use mathlib.Core.List.{append-nil, append_assoc}
use bioseasy.Retention.Policy.{RetentionPolicy}
use bioseasy.Retention.Plan.{
  Snapshot, Period, Reason, Calendar, Entry, pinned, latest, per, daily, weekly, monthly, yearly,
  bucket_key, key_in, key_in-cons_old, key_in-cons, add_pinned, add_latest, add_period, add_newest,
  unmarked, plan_retention,
}

abbrev pub keys : Calendar → Period → List Snapshot → List (List ℕ)
keys c p [] = []
keys c p (s ∷ rest) = bucket_key c p s.taken_at ∷ keys c p rest

-- How many different keys there are.
abbrev pub distinct : List (List ℕ) → ℕ
distinct [] = 0
distinct (k ∷ ks) = if key_in k ks then distinct ks else suc (distinct ks)

-- A rule looks at the newer generations and at the generation itself.
abbrev pub Rule : Type 0
Rule = List Snapshot → Snapshot → List Reason

abbrev pub rule_pinned : Rule
rule_pinned newer s = if s.pinned then pinned ∷ [] else []

abbrev pub rule_latest : ℕ → Rule
rule_latest n newer s = if ltb (length newer) n then latest ∷ [] else []

-- The newest of its period, which is one of the newest n periods that have a generation.
abbrev pub rule_period : Calendar → Period → ℕ → Rule
rule_period c p n newer s =
    if key_in (bucket_key c p s.taken_at) (keys c p newer)
    then []
    else if ltb (distinct (keys c p newer)) n
    then per p ∷ []
    else []

abbrev pub both : Rule → Rule → Rule
both f g newer s = f newer s ++ g newer s

abbrev pub rules : Calendar → RetentionPolicy → Rule
rules c p =
    both
      (both
        (both (both (both rule_pinned (rule_latest p.keep_last)) (rule_period c daily p.keep_daily))
          (rule_period c weekly p.keep_weekly))
        (rule_period c monthly p.keep_monthly))
      (rule_period c yearly p.keep_yearly)

-- Every generation with its reasons by a rule, after those it has.
abbrev pub annotate : Rule → List Snapshot → List Entry → List Entry
annotate f newer [] = []
annotate f newer ((s, rs) ∷ rest) = (s, rs ++ f newer s) ∷ annotate f (s ∷ newer) rest

annotate-annotate :
    (f g : Rule) (newer : List Snapshot) (entries : List Entry)
    → annotate g newer (annotate f newer entries) ≡ annotate (both f g) newer entries
annotate-annotate f g newer [] = refl
annotate-annotate f g newer ((s, rs) ∷ rest) =
    cc (append_assoc rs (f newer s) (g newer s), annotate-annotate f g (s ∷ newer) rest)

add_pinned-eq-annotate :
    (newer : List Snapshot) (entries : List Entry)
    → add_pinned entries ≡ annotate rule_pinned newer entries
unfolding add_pinned
add_pinned-eq-annotate newer [] = refl
add_pinned-eq-annotate newer ((s, rs) ∷ rest) =
    ground (arith, append-nil rs, add_pinned-eq-annotate (s ∷ newer) rest)

annotate-past_latest :
    (n : ℕ) (newer : List Snapshot) (entries : List Entry)
    → n ≤ length newer
    → annotate (rule_latest n) newer entries ≡ entries
annotate-past_latest n newer [] h = refl
annotate-past_latest n newer ((s, rs) ∷ rest) h =
    ground (arith, append-nil rs, annotate-past_latest n (s ∷ newer) rest)

add_latest-eq-annotate :
    (n left : ℕ) (newer : List Snapshot) (entries : List Entry)
    → left ≡ n - length newer
    → add_latest left entries ≡ annotate (rule_latest n) newer entries
unfolding add_latest
add_latest-eq-annotate n left newer [] h = refl
add_latest-eq-annotate n zero newer ((s, rs) ∷ rest) h =
    sym (annotate-past_latest n newer ((s, rs) ∷ rest) (omega arith))
add_latest-eq-annotate n (suc left) newer ((s, rs) ∷ rest) h =
    ground (arith, add_latest-eq-annotate n left (s ∷ newer) rest (omega arith))

module _ (c : Calendar) (p : Period) (n : ℕ) where
  annotate-exhausted :
      (newer : List Snapshot) (entries : List Entry)
      → n ≤ distinct (keys c p newer)
      → annotate (rule_period c p n) newer entries ≡ entries
  annotate-exhausted newer [] h = refl
  annotate-exhausted newer ((s, rs) ∷ rest) h =
      ground (arith, append-nil rs, annotate-exhausted (s ∷ newer) rest)

  add_period-eq-annotate :
      (left : ℕ) (seen : List (List ℕ)) (newer : List Snapshot) (entries : List Entry)
      → ((k : List ℕ) → key_in k seen ≡ key_in k (keys c p newer))
      → left + distinct (keys c p newer) ≡ n
      → add_period c p left seen entries ≡ annotate (rule_period c p n) newer entries
  unfolding add_period
  add_period-eq-annotate left seen newer [] same h = refl
  add_period-eq-annotate zero seen newer (e ∷ rest) same h =
      sym (annotate-exhausted newer (e ∷ rest) (omega arith))
  add_period-eq-annotate (suc left) seen newer ((s, rs) ∷ rest) same h =
      let k = bucket_key c p s.taken_at in
      elim (Bool-cases (key_in k (keys c p newer))) [
        | inl old ↦
            let ih =
              add_period-eq-annotate (suc left) seen (s ∷ newer) rest
                (λ j. same j ∙ sym (key_in-cons_old j k (keys c p newer) old)) (ground arith) in
            ground (arith, same k, append-nil rs)
        | inr new ↦
            let ih =
              add_period-eq-annotate left (k ∷ seen) (s ∷ newer) rest
                (λ j. key_in-cons j k seen (keys c p newer) (same j)) (ground arith) in
            ground (arith, same k)
      ]

period_pass :
    (c : Calendar) (p : Period) (n : ℕ) (f : Rule) (entries : List Entry)
    → add_period c p n [] (annotate f [] entries) ≡ annotate (both f (rule_period c p n)) [] entries
period_pass c p n f entries =
    add_period-eq-annotate c p n n [] [] (annotate f [] entries) (λ k. refl) (omega arith)
    ∙ annotate-annotate f (rule_period c p n) [] entries

latest_pass :
    (n : ℕ) (f : Rule) (entries : List Entry)
    → add_latest n (annotate f [] entries) ≡ annotate (both f (rule_latest n)) [] entries
latest_pass n f entries =
    add_latest-eq-annotate n n [] (annotate f [] entries) (omega arith)
    ∙ annotate-annotate f (rule_latest n) [] entries

-- The plan is the rules, taken one by one from the newer generations; the newest generation is
-- labelled where no rule keeps it.
pub plan_retention-eq-rules :
    (c : Calendar) (policy : RetentionPolicy) (snaps : List Snapshot)
    → plan_retention c policy snaps ≡ add_newest (annotate (rules c policy) [] (unmarked snaps))
unfolding plan_retention
plan_retention-eq-rules c policy snaps =
    rw (add_pinned-eq-annotate [] (unmarked snaps)) (simp (latest_pass, period_pass))
