-- ===== src/Events/Pages.antt =====
-- What the pages of the feed of src/bioseasy/events.py hold together.
use bioseasy.Prelude.{
  ℕ, zero, suc, ◌+◌, ◌-◌, ◌*◌, ◌≤◌, String, ◌≡◌, refl, sym, ap, ◌∙◌, subst, ◌↔◌, ◌⊎◌, inl, inr,
  true, false, Option, List, [], ◌∷◌, ◌++◌, arith, Bool-cases, length,
}
use bioseasy.Events.{
  Tables, Event, has_more, kind_of, matches, query, comes_first, insert_newest, newest_first, limit,
  offset, list_events,
}
use bioseasy.Events.Selected.{IsIn, IsEvent, query-IsIn_iff}

-- The first pages, one after the other.
unfoldable pub first_pages : Option ℕ → String → String → ℕ → ℕ → Tables → List Event
first_pages owner kind udid zero page_size t = []
first_pages owner kind udid (suc k) page_size t =
    first_pages owner kind udid k page_size t
    ++ (list_events owner kind udid (suc k) page_size t).rows

insert-IsIn_iff :
    (x : Event) (l : List Event) (e : Event) → IsIn e (insert_newest x l) ↔ ((e ≡ x) ⊎ IsIn e l)
unfolding insert_newest
insert-IsIn_iff x [] e = (λ h. h, λ h. h)
insert-IsIn_iff x (y ∷ rest) e =
    let (to, from) = insert-IsIn_iff x rest e in
    elim (Bool-cases (comes_first y x)) [
      | inl before ↦ rw before (
        λ h. elim h [
          | inl at ↦ inr (inl at)
          | inr i ↦ elim (to i) [ inl at ↦ inl at | inr k ↦ inr (inr k) ]
        ],
        λ h. elim h [
          | inl at ↦ inr (from (inl at))
          | inr (inl at) ↦ inl at
          | inr (inr k) ↦ inr (from (inr k))
        ],
      )
      | inr after ↦ rw after (λ h. h, λ h. h)
    ]

insert-length : (x : Event) (l : List Event) → length (insert_newest x l) ≡ suc (length l)
unfolding insert_newest
insert-length x [] = refl
insert-length x (y ∷ rest) = ground (arith, insert-length x rest)

newest_first-length : (l : List Event) → length (newest_first l) ≡ length l
unfolding newest_first
newest_first-length [] = refl
newest_first-length (x ∷ rest) =
    insert-length x (newest_first rest) ∙ ap suc (newest_first-length rest)

newest_first-IsIn_iff : (l : List Event) (e : Event) → IsIn e (newest_first l) ↔ IsIn e l
unfolding newest_first
newest_first-IsIn_iff [] e = (λ h. h, λ h. h)
newest_first-IsIn_iff (x ∷ rest) e =
    let (to, from) = insert-IsIn_iff x (newest_first rest) e in
    let (later, sooner) = newest_first-IsIn_iff rest e in
    (
      λ h. elim (to h) [ inl at ↦ inl at | inr i ↦ inr (later i) ],
      λ h. from (elim h [ inl at ↦ inl at | inr i ↦ inr (sooner i) ]),
    )

limit-none : (n : ℕ) → limit n [] ≡ []
unfolding limit
limit-none zero = refl
limit-none (suc n) = refl

limit-more : (n m : ℕ) (l : List Event) → limit n l ++ limit m (offset n l) ≡ limit (n + m) l
unfolding limit offset
limit-more zero m l = ap (λ (k : ℕ). limit k l) (omega arith)
limit-more (suc n) m [] = limit-none m ∙ sym (limit-none (suc n + m))
limit-more (suc n) m (e ∷ rest) =
    ap (λ l. e ∷ l) (limit-more n m rest)
    ∙ ap (λ (k : ℕ). limit k (e ∷ rest)) {x = suc (n + m)} {y = suc n + m} (omega arith)

limit-all : (n : ℕ) (l : List Event) → length l ≤ n → limit n l ≡ l
unfolding limit
limit-all zero [] h = refl
limit-all zero (e ∷ rest) h = absurd (omega (arith, h))
limit-all (suc n) [] h = refl
limit-all (suc n) (e ∷ rest) h = ap (λ l. e ∷ l) (limit-all n rest (omega (arith, h)))

first_pages-limit :
    (owner : Option ℕ) (kind udid : String) (k page_size : ℕ) (t : Tables)
    → first_pages owner kind udid k page_size t
      ≡ limit (k * page_size) (newest_first (query owner (kind_of kind) udid t))
unfolding first_pages list_events limit
first_pages-limit owner kind udid zero page_size t =
    ap (λ (n : ℕ). limit n (newest_first (query owner (kind_of kind) udid t))) {x = 0}
      {y = 0 * page_size} (ground arith)
first_pages-limit owner kind udid (suc k) page_size t =
    let found = newest_first (query owner (kind_of kind) udid t) in
    ap (λ l. l ++ limit page_size (offset ((suc k - 1) * page_size) found))
      (first_pages-limit owner kind udid k page_size t)
    ∙ ap (λ (n : ℕ). limit (k * page_size) found ++ limit page_size (offset (n * page_size) found))
        {x = suc k - 1} {y = k} (omega arith)
    ∙ limit-more (k * page_size) page_size found
    ∙ ap (λ (n : ℕ). limit n found) {x = k * page_size + page_size} {y = suc k * page_size}
        (ground arith)

-- Pages from the first one on, up to one after which there is no more, hold together as many
-- events as every page says that there are, and these are the events of the finished runs and of
-- the verifications of the devices in the scope, all of them for an administrator and otherwise
-- the user's own, that match the kind and the device asked for.
pub first_pages-IsEvent_iff :
    (owner : Option ℕ) (kind udid : String) (k page_size : ℕ) (t : Tables)
    → has_more (list_events owner kind udid (suc k) page_size t) ≡ false
    → (length (first_pages owner kind udid (suc k) page_size t)
        ≡ (list_events owner kind udid (suc k) page_size t).total)
      × ((e : Event)
          → IsIn e (first_pages owner kind udid (suc k) page_size t)
            ↔ (IsEvent owner t e × (matches (kind_of kind) udid e ≡ true)))
unfolding has_more list_events
first_pages-IsEvent_iff owner kind udid k page_size t last =
    let found = query owner (kind_of kind) udid t in
    let all =
      first_pages-limit owner kind udid (suc k) page_size t
      ∙ limit-all (suc k * page_size) (newest_first found)
          (ground (arith, last, newest_first-length found)) in
    (
      ap length all ∙ newest_first-length found,
      λ e. (
        λ h.
            (query-IsIn_iff owner (kind_of kind) udid t e).0
              ((newest_first-IsIn_iff found e).0 (subst (IsIn e) all h)),
        λ h. subst (IsIn e) (sym all) (
            (newest_first-IsIn_iff found e).1 ((query-IsIn_iff owner (kind_of kind) udid t e).1 h)),
      ),
    )
