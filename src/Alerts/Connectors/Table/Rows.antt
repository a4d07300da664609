-- ===== src/Alerts/Connectors/Table/Rows.antt =====
-- What holds of every connector, and where a connector stands, under the queries of
-- src/bioseasy/connectors.py.
use bioseasy.Prelude.{
  ℕ, String, ◌≡◌, subst, ◌⊎◌, inl, inr, Bool, true, Option, some, List, [], ◌∷◌, ◌++◌, arith, ltb,
  ◌==◌, Bool-cases, All, if-holds,
}
use bioseasy.Alerts.Connectors.{Settings}
use bioseasy.Alerts.Connectors.Table.{
  Row, Scope, get_connector, update_connector, delete_connector, insert_sorted, list_connectors,
  same_scope,
}

pub All-map :
    (P Q : Row → Type 0) (rows : List Row) → ((r : Row) → P r → Q r) → All P rows → All Q rows
All-map P Q [] g a = tt
All-map P Q (r ∷ rest) g (p, a) = (g r p, All-map P Q rest g a)

pub All-append :
    (P : Row → Type 0) (rows : List Row) (r : Row) → All P rows → P r → All P (rows ++ r ∷ [])
All-append P [] r a p = (p, tt)
All-append P (x ∷ rest) r (q, a) p = (q, All-append P rest r a p)

pub All-delete :
    (P : Row → Type 0) (i : ℕ) (rows : List Row) → All P rows → All P (delete_connector i rows)
unfolding delete_connector
All-delete P i [] a = tt
All-delete P i (r ∷ rest) (p, a) =
    if-holds {x = delete_connector i rest} {y = r ∷ delete_connector i rest} (All P) (r.id == i)
      (All-delete P i rest a) (p, All-delete P i rest a)

pub All-found :
    (P : Row → Type 0) (i : ℕ) (rows : List Row) (r : Row)
    → get_connector i rows ≡ some r
    → All P rows
    → P r
unfolding get_connector
All-found P i [] r e a = absurd (ground arith)
All-found P i (x ∷ rest) r e (p, a) = elim (Bool-cases (x.id == i)) [
  | inl same ↦ subst P (ground (arith, same, e)) p
  | inr other ↦ All-found P i rest r (ground (arith, other, e)) a
]

-- The row that an update is meant for, and no other, is the one that it changes.
pub All-update :
    (P : Row → Type 0) (i : ℕ) (label : String) (settings : Settings) (cipher : Option String)
    (on : Bool) (now : ℕ) (rows : List Row) (r : Row)
    → get_connector i rows ≡ some r
    → P (record r {
      label = label;
      settings = settings;
      secret_ciphertext = cipher;
      enabled = on;
      updated_at = now;
    })
    → All P rows
    → All P (update_connector i label settings cipher on now rows)
unfolding get_connector update_connector
All-update P i label settings cipher on now [] r e q a = tt
All-update P i label settings cipher on now (x ∷ rest) r e q (p, a) =
    elim (Bool-cases (x.id == i)) [
      | inl same ↦
          let first : r ≡ x = ground (arith, same, e) in
          rw same (
            subst
                (λ (y : Row). P (record y {
                  label = label;
                  settings = settings;
                  secret_ciphertext = cipher;
                  enabled = on;
                  updated_at = now;
                }))
                first q,
            a,
          )
      | inr other ↦
          rw other
            (p, All-update P i label settings cipher on now rest r (ground (arith, other, e)) q a)
    ]

pub found-id : (i : ℕ) (rows : List Row) (r : Row) → get_connector i rows ≡ some r → r.id ≡ i
unfolding get_connector
found-id i [] r e = absurd (ground arith)
found-id i (x ∷ rest) r e = ground (arith, found-id i rest r)

-- The row is one of the rows.
abbrev pub IsIn : Row → List Row → Type 0
IsIn r [] = ⊥
IsIn r (x ∷ rest) = (r ≡ x) ⊎ IsIn r rest

All-insert :
    (P : Row → Type 0) (r : Row) (rows : List Row) → P r → All P rows → All P (insert_sorted r rows)
unfolding insert_sorted
All-insert P r [] p a = (p, tt)
All-insert P r (x ∷ rest) p (q, a) =
    if-holds {x = x ∷ insert_sorted r rest} {y = r ∷ x ∷ rest} (All P)
      (ltb x.created_at r.created_at) (q, All-insert P r rest p a) (p, (q, a))

pub All-listed :
    (P : Row → Type 0) (scope : Scope) (rows : List Row)
    → All P rows
    → All P (list_connectors scope rows)
unfolding list_connectors
All-listed P scope [] a = tt
All-listed P scope (r ∷ rest) (p, a) =
    if-holds {x = insert_sorted r (list_connectors scope rest)} {y = list_connectors scope rest}
      (All P) (same_scope r.scope scope)
      (All-insert P r (list_connectors scope rest) p (All-listed P scope rest a))
      (All-listed P scope rest a)

insert-IsIn : (y r : Row) (rows : List Row) → (y ≡ r) ⊎ IsIn y rows → IsIn y (insert_sorted r rows)
unfolding insert_sorted
insert-IsIn y r [] (inl e) = inl e
insert-IsIn y r [] (inr h) = absurd h
insert-IsIn y r (x ∷ rest) h =
    if-holds {x = x ∷ insert_sorted r rest} {y = r ∷ x ∷ rest} (IsIn y)
      (ltb x.created_at r.created_at)
      (elim h [
        | inl e ↦ inr (insert-IsIn y r rest (inl e))
        | inr (inl e) ↦ inl e
        | inr (inr i) ↦ inr (insert-IsIn y r rest (inr i))
      ])
      h

pub listed-IsIn :
    (y : Row) (scope : Scope) (rows : List Row)
    → IsIn y rows
    → same_scope y.scope scope ≡ true
    → IsIn y (list_connectors scope rows)
unfolding list_connectors
listed-IsIn y scope [] h e = h
listed-IsIn y scope (r ∷ rest) (inl at) e =
    let own : same_scope r.scope scope ≡ true =
      subst (λ (x : Row). same_scope x.scope scope ≡ true) at e in
    rw own (insert-IsIn y r (list_connectors scope rest) (inl at))
listed-IsIn y scope (r ∷ rest) (inr h) e =
    if-holds {x = insert_sorted r (list_connectors scope rest)} {y = list_connectors scope rest}
      (IsIn y) (same_scope r.scope scope)
      (insert-IsIn y r (list_connectors scope rest) (inr (listed-IsIn y scope rest h e)))
      (listed-IsIn y scope rest h e)
