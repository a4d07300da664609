-- ===== src/Alerts/Connectors/Table/Delivered.antt =====
-- Which connectors `notify_targets` of src/bioseasy/runtime.py covers.
use bioseasy.Prelude.{
  String, ◌≡◌, refl, sym, ap, ◌∙◌, ◌⊎◌, inl, inr, true, false, Option, some, List, [], ◌∷◌, ◌++◌,
  arith, eq_iff, Bool-cases, All,
}
use bioseasy.Alerts.Connectors.{Texts, Fernet}
use bioseasy.Alerts.Connectors.Urls.{Built, url}
use bioseasy.Alerts.Connectors.Table.{
  Scope, for_device, for_admins, Row, Store, built_of, row_built, with_built, urls_of,
  apprise_urls_for, notify_targets, joined_targets, not_in, text_mem, list_connectors, same_scope,
}
use bioseasy.Alerts.Connectors.Table.Rows.{IsIn, All-listed, listed-IsIn}
use bioseasy.Alerts.Connectors.Table.Sendable.{CanSend}
use bioseasy.Alerts.Connectors.Table.Sending.{IsSound, AllSendable, Reach, Reach-AllSendable}

-- The row's URL is one of the texts.
abbrev pub IsCovered : Texts → Fernet → Option String → List String → Row → Type 0
IsCovered tx f key urls r = (u : String) × (built_of tx f key r ≡ url u) × (text_mem u urls ≡ true)

sendable-url :
    (tx : Texts) (f : Fernet) (key : Option String) (r : Row)
    → CanSend tx f key r
    → (u : String) × (built_of tx f key r ≡ url u)
unfolding built_of row_built
sendable-url tx f key r (plain, reads, (u, built)) = (u, rw reads built)

-- All rows of the list that are on are covered.
abbrev Covers : Texts → Fernet → Option String → List Row → List String → Type 0
Covers tx f key rows urls = (r : Row) → IsIn r rows → r.enabled ≡ true → IsCovered tx f key urls r

covers-more :
    (tx : Texts) (f : Fernet) (key : Option String) (u : String) (urls : List String) (r : Row)
    → IsCovered tx f key urls r
    → IsCovered tx f key (u ∷ urls) r
unfolding text_mem
covers-more tx f key u urls r (v, built, found) = (v, built, ground (arith, found))

with_built-url :
    (tx : Texts) (f : Fernet) {b : Built} {o : Option (List String)} {u : String}
    {urls : List String}
    → b ≡ url u
    → o ≡ some urls
    → with_built tx f b o ≡ some (u ∷ urls)
unfolding with_built
with_built-url tx f h e = rw (h, e) refl

urls_of-Covers :
    (tx : Texts) (f : Fernet) (key : Option String) (rows : List Row)
    → All (λ r. CanSend tx f key r) rows
    → (urls : List String) × (urls_of tx f key rows ≡ some urls) × Covers tx f key rows urls
unfolding urls_of text_mem
urls_of-Covers tx f key [] a = ([], refl, λ r i on. absurd i)
urls_of-Covers tx f key (x ∷ rest) (c, a) =
    let (urls, same, covers) = urls_of-Covers tx f key rest a in
    let (u, built) = sendable-url tx f key x c in
    elim (Bool-cases x.enabled) [
      | inl on ↦ (
        u ∷ urls,
        ground (arith, on, with_built-url tx f built same),
        λ r i is_on. elim i [
          | inl at ↦ (u, ap (built_of tx f key) at ∙ built, ground (arith, eq_iff u u))
          | inr later ↦ covers-more tx f key u urls r (covers r later is_on)
        ],
      )
      | inr off ↦ (
        urls,
        ground (arith, off, same),
        λ r i is_on. elim i [
          | inl at ↦
              let other : true ≡ false = sym is_on ∙ ap (λ (y : Row). y.enabled) at ∙ off in
              absurd cc
          | inr later ↦ covers r later is_on
        ],
      )
    ]

for-Covers :
    (tx : Texts) (f : Fernet) (scope : Scope) (s : Store)
    → AllSendable tx f s
    → (urls : List String) × (apprise_urls_for tx f scope s ≡ some urls)
      × Covers tx f s.key (list_connectors scope s.rows) urls
unfolding apprise_urls_for
for-Covers tx f scope s v =
    urls_of-Covers tx f s.key (list_connectors scope s.rows) (All-listed _ scope s.rows v)

left-mem :
    (u : String) (own more : List String) → text_mem u own ≡ true → text_mem u (own ++ more) ≡ true
unfolding text_mem
left-mem u [] more e = absurd (ground arith)
left-mem u (v ∷ own) more e = ground (arith, left-mem u own more)

right-mem :
    (u : String) (own more : List String) → text_mem u more ≡ true → text_mem u (own ++ more) ≡ true
unfolding text_mem
right-mem u [] more e = e
right-mem u (v ∷ own) more e = ground (arith, right-mem u own more e)

kept-mem :
    (u : String) (own admins : List String)
    → text_mem u admins ≡ true
    → text_mem u own ≡ false
    → text_mem u (not_in own admins) ≡ true
unfolding text_mem not_in
kept-mem u own [] e other = absurd (ground arith)
kept-mem u own (v ∷ rest) e other = elim (Bool-cases (text_mem v own)) [
  | inl seen ↦
      ground (arith, seen, eq_iff v u, kept-mem u own rest, e, other, ap (λ w. text_mem w own))
  | inr unseen ↦ ground (arith, unseen, e, kept-mem u own rest)
]

joined-mem :
    (u : String) (own admins : List String)
    → text_mem u admins ≡ true
    → text_mem u (own ++ not_in own admins) ≡ true
joined-mem u own admins e = elim (Bool-cases (text_mem u own)) [
  | inl found ↦ left-mem u own (not_in own admins) found
  | inr other ↦ right-mem u own (not_in own admins) (kept-mem u own admins e other)
]

same_scope_refl : (scope : Scope) → same_scope scope scope ≡ true
unfolding same_scope
same_scope_refl for_admins = refl
same_scope_refl (for_device a) = ground (arith, eq_iff a a)

-- Where Fernet decrypts what it encrypted, after any requests to the connector routes, on an
-- installation that had no connectors, the targets of a device are computed without an exception,
-- and no connector of the device or of the administrators that is switched on is skipped: its URL
-- can be built and is one of the targets.
pub notify_targets-covers :
    (tx : Texts) (f : Fernet) (key : Option String) (later : Store) (udid : String)
    → IsSound f
    → Reach tx f (record { key = key; rows = [] }) later
    → (targets : List String) × (notify_targets tx f udid later ≡ some targets)
      × ((r : Row)
          → IsIn r later.rows
          → r.enabled ≡ true
          → (r.scope ≡ for_device udid) ⊎ (r.scope ≡ for_admins)
          → IsCovered tx f later.key targets r)
unfolding notify_targets joined_targets
notify_targets-covers tx f key later udid sound reach =
    let v = Reach-AllSendable sound tt reach in
    let (own, of_device, covers) = for-Covers tx f (for_device udid) later v in
    let (admins, of_admins, covers') = for-Covers tx f for_admins later v in
    (
      own ++ not_in own admins,
      rw (of_admins, of_device) refl,
      λ r i on whose. elim whose [
        | inl at ↦
            let (u, built, found) =
              covers r
                (listed-IsIn r (for_device udid) later.rows i (
                  ap (λ sc. same_scope sc (for_device udid)) at
                  ∙ same_scope_refl (for_device udid)))
                on in
            (u, built, left-mem u own (not_in own admins) found)
        | inr at ↦
            let (u, built, found) =
              covers' r
                (listed-IsIn r for_admins later.rows i
                  (ap (λ sc. same_scope sc for_admins) at ∙ same_scope_refl for_admins))
                on in
            (u, built, joined-mem u own admins found)
      ],
    )
