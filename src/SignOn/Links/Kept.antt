-- ===== src/SignOn/Links/Kept.antt =====
-- Links of src/bioseasy/oidc.py: one that is made is found, and no other operation takes it away.
use bioseasy.Prelude.{
  ℕ, String, ◌≡◌, refl, ◌≢◌, true, Option, none, some, List, [], ◌∷◌, ◌++◌, arith, eq_iff,
}
use bioseasy.SignOn.Claims.{ok}
use bioseasy.SignOn.Links.{
  Link, is_identity, find_linked_user, new_link, link_beside, link, unlink, bind,
}

module _ (iss sub : String) where
  find-append :
      (links : List Link) (l : Link) (i : ℕ)
      → find_linked_user iss sub links ≡ some i
      → find_linked_user iss sub (links ++ l ∷ []) ≡ some i
  unfolding find_linked_user
  find-append [] l i e = ground arith
  find-append (x ∷ rest) l i e = ground (arith, find-append rest l i)

  find-last :
      (links : List Link) (l : Link)
      → find_linked_user iss sub links ≡ none
      → is_identity iss sub l ≡ true
      → find_linked_user iss sub (links ++ l ∷ []) ≡ some l.user_id
  unfolding find_linked_user
  find-last [] l e f = ground arith
  find-last (x ∷ rest) l e f = ground (arith, find-last rest l)

  link_beside-found :
      (user : ℕ) (links later : List Link) (o : Option ℕ)
      → find_linked_user iss sub links ≡ o
      → link_beside user iss sub links o ≡ ok later
      → find_linked_user iss sub later ≡ some user
  unfolding link_beside
  link_beside-found user links later none e f =
      ground
        (arith, find-last links (new_link user iss sub links) e, eq_iff iss iss, eq_iff sub sub)
  link_beside-found user links later (some i) e f = ground arith

  -- A link that is made is found.
  pub link-found :
      (user : ℕ) (links later : List Link)
      → link user iss sub links ≡ ok later
      → find_linked_user iss sub later ≡ some user
  unfolding link
  link-found user links later e =
      link_beside-found user links later (find_linked_user iss sub links) refl e

  pub bind-found :
      (user : ℕ) (links later : List Link)
      → bind user iss sub links ≡ ok later
      → find_linked_user iss sub later ≡ some user
  unfolding bind
  bind-found user links later e = ground (arith, link-found user links later)

  link_beside-keeps :
      (i user : ℕ) (iss' sub' : String) (links later : List Link) (o : Option ℕ)
      → find_linked_user iss sub links ≡ some i
      → link_beside user iss' sub' links o ≡ ok later
      → find_linked_user iss sub later ≡ some i
  unfolding link_beside
  link_beside-keeps i user iss' sub' links later none e f =
      ground (arith, find-append links (new_link user iss' sub' links) i e)
  link_beside-keeps i user iss' sub' links later (some j) e f = ground arith

  pub link-keeps :
      (i user : ℕ) (iss' sub' : String) (links later : List Link)
      → find_linked_user iss sub links ≡ some i
      → link user iss' sub' links ≡ ok later
      → find_linked_user iss sub later ≡ some i
  unfolding link
  link-keeps i user iss' sub' links later e f =
      link_beside-keeps i user iss' sub' links later (find_linked_user iss' sub' links) e f

  pub bind-keeps :
      (i user : ℕ) (iss' sub' : String) (links later : List Link)
      → find_linked_user iss sub links ≡ some i
      → bind user iss' sub' links ≡ ok later
      → find_linked_user iss sub later ≡ some i
  unfolding bind
  bind-keeps i user iss' sub' links later e f =
      ground (arith, link-keeps i user iss' sub' links later e)

  pub unlink-keeps :
      (i user link_id : ℕ) (links : List Link)
      → user ≢ i
      → find_linked_user iss sub links ≡ some i
      → find_linked_user iss sub (unlink user link_id links).1 ≡ some i
  unfolding find_linked_user unlink
  unlink-keeps i user link_id [] differ e = e
  unlink-keeps i user link_id (l ∷ rest) differ e =
      ground (arith, unlink-keeps i user link_id rest differ)
