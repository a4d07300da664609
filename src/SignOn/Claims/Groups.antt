-- ===== src/SignOn/Claims/Groups.antt =====
-- The group that a sign-in requires: `check_group` of src/bioseasy/oidc.py.
use bioseasy.Prelude.{
  String, ◌≡◌, refl, sym, ◌∙◌, ◌≢◌, ◌↔◌, ◌⊎◌, inl, inr, Bool, true, false, Option, none, some, List,
  [], ◌∷◌, arith, eq_iff,
}
use bioseasy.SignOn.Claims.{
  Python, Fields, ok, groups_of, has_overage_pointer, in_groups, first_groups, group_verdict,
  or_empty, required_check, group_gate, check_group,
}

abbrev pub Any : (String → Type 0) → List String → Type 0
Any P [] = ⊥
Any P (x ∷ xs) = P x ⊎ Any P xs

abbrev pub IsGroup : Python → String → String → Type 0
IsGroup py required g = py.casefold g ≡ py.casefold required

-- The groups of the token or, where it has no such claim, of the userinfo endpoint.
abbrev pub AreGroups : Python → String → Fields → Fields → List String → Type 0
AreGroups py claim claims userinfo groups =
    (groups_of py claims claim ≡ some groups)
    ⊎ (groups_of py claims claim ≡ none) × (groups_of py userinfo claim ≡ some groups)

in_groups_iff :
    (py : Python) (required : String) (groups : List String)
    → (in_groups py required groups ≡ true) ↔ Any (IsGroup py required) groups
unfolding in_groups
in_groups_iff py required [] = ground arith
in_groups_iff py required (g ∷ groups) =
    ground (arith, in_groups_iff py required groups, eq_iff (py.casefold g) (py.casefold required))

verdict_iff :
    (py : Python) (required : String) (a b : Option (List String))
    → (group_verdict py required (first_groups py a b) ≡ ok tt) ↔ (
        (groups : List String) × ((a ≡ some groups) ⊎ (a ≡ none) × (b ≡ some groups))
        × (in_groups py required groups ≡ true))
unfolding group_verdict first_groups
verdict_iff py required none none = ground arith
verdict_iff py required none (some gs) =
    (λ e. (gs, inr (refl, refl), ground arith), λ (groups, which, e). ground arith)
verdict_iff py required (some gs) b =
    (λ e. (gs, inl refl, ground arith), λ (groups, which, e). ground arith)

required_check_iff :
    (py : Python) (required claim : String) (claims : Fields) (userinfo : Option Fields)
    → (required_check py required claim claims userinfo ≡ ok tt) ↔ (
        (has_overage_pointer py claims claim ≡ false)
        × (has_overage_pointer py (or_empty userinfo) claim ≡ false)
        × (group_verdict py required
              (first_groups py (groups_of py claims claim) (groups_of py (or_empty userinfo) claim))
            ≡ ok tt))
unfolding required_check
required_check_iff py required claim claims userinfo = ground arith

check_group-required :
    (py : Python) (required claim : String) (claims : Fields) (userinfo : Option Fields)
    → required ≢ ""
    → group_gate py (some required) claim claims userinfo
      ≡ required_check py required claim claims userinfo
unfolding group_gate
check_group-required py required claim claims userinfo set = ground (arith, eq_iff required "")

-- Where a group is required, the check passes exactly when neither the token nor the userinfo
-- endpoint says that there are too many groups to list, and the groups of the token, or, where it
-- has no such claim, those of the userinfo endpoint, hold the required one, up to case.
pub check_group-ok_iff :
    (py : Python) (claim required : String) (allow verified : Bool) (claims : Fields)
    (userinfo : Option Fields)
    → required ≢ ""
    → (check_group py
          (record {
            groups_claim = claim;
            required_group = some required;
            allow_registration = allow;
            require_verified_email = verified;
          })
          claims
          userinfo
        ≡ ok tt)
      ↔ ((has_overage_pointer py claims claim ≡ false)
          × (has_overage_pointer py (or_empty userinfo) claim ≡ false)
          × ((groups : List String) × AreGroups py claim claims (or_empty userinfo) groups
              × Any (IsGroup py required) groups))
unfolding check_group
check_group-ok_iff py claim required allow verified claims userinfo set =
    let same = check_group-required py required claim claims userinfo set in
    let check = required_check_iff py required claim claims userinfo in
    let verdict =
      verdict_iff py required (groups_of py claims claim)
        (groups_of py (or_empty userinfo) claim) in
    (
      λ e.
          let (one, two, ok_verdict) = check.0 (sym same ∙ e) in
          let (groups, which, within) = verdict.0 ok_verdict in
          (one, two, (groups, which, (in_groups_iff py required groups).0 within)),
      λ (one, two, (groups, which, within)).
          same
          ∙ check.1
              (one, two, verdict.1 (groups, which, (in_groups_iff py required groups).1 within)),
    )
