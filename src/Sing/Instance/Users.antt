-- ===== src/Sing/Instance/Users.antt =====
-- What the core knows of the users that are added to a node and deleted from it.
use v2b_x_patched_by_haman.Prelude.{
  ℤ, String, ◌≡◌, refl, sym, ap, ◌∙◌, true, Bool-cases, Option, none, some, inl, inr, List, [], ◌∷◌,
  ◌==◌, string_eq, Result, ok, err, arith, if◌then◌else◌, length,
}
use v2b_x_patched_by_haman.Dict.{Dict, get, put, remove}
use v2b_x_patched_by_haman.Dict.Laws.{get-put, get-remove, beq_refl}
use v2b_x_patched_by_haman.Panel.{UserInfo}
use v2b_x_patched_by_haman.Panel.Types.{NodeInfo}
use v2b_x_patched_by_haman.Limiter.State.Users.{last_user, is_listed}
use v2b_x_patched_by_haman.Node.UserDiff.Sync.{last_user-unlisted}
use v2b_x_patched_by_haman.Sing.{Sing}
use v2b_x_patched_by_haman.Sing.Instance.{
  BoxApi, Instance, CoreError, map_users, unmap_users, known_type, BoxUser, hand_users, box_users,
  with_box, add_users, del_users,
}

-- The id that a map has for a uuid after some users were mapped.
abbrev pub id_after : Option UserInfo → Option ℤ → Option ℤ
id_after none before = before
id_after (some u) before = some u.id

map_users-get :
    (us : List UserInfo) (m : Dict String ℤ) (uuid : String)
    → get (map_users us m) uuid ≡ id_after (last_user uuid us) (get m uuid)
unfolding map_users
map_users-get [] m uuid = refl
map_users-get (u ∷ us) m uuid =
    map_users-get us (put m u.uuid u.id) uuid ∙ ground (arith, get-put m u.uuid uuid u.id)

unmap_users-get :
    (us : List UserInfo) (m : Dict String ℤ) (uuid : String)
    → get (unmap_users us m) uuid ≡ (if is_listed uuid us then none else get m uuid)
unfolding unmap_users
unmap_users-get [] m uuid = refl
unmap_users-get (u ∷ us) m uuid =
    unmap_users-get us (remove m u.uuid) uuid ∙ ground (arith, get-remove m u.uuid uuid)

module _ {Box Float : Type 0} (api : BoxApi Box) (info : NodeInfo Float) (tag : String)
    (users : List UserInfo) where
  with_box-uid_map :
      {A : Type 0} (s : Sing) (a : A) (r : Box × Option String)
      → (with_box s a r).0.sing.uid_map ≡ s.uid_map
  with_box-uid_map s a (box, none) = refl
  with_box-uid_map s a (box, some e) = refl

  -- With an inbound of the tag the users are mapped, whatever the inbound answers.
  hand_users-uid_map :
      (b : Instance Box) (protocol : String) (r : Result CoreError (List BoxUser))
      → (hand_users api b tag protocol info.kind users r).0.sing.uid_map ≡ b.sing.uid_map
  hand_users-uid_map b protocol (err e) = refl
  hand_users-uid_map b protocol (ok bs) = elim (Bool-cases (protocol == info.kind)) [
    | inl right ↦ rw right (with_box-uid_map b.sing (length users) (api.add_box_users tag bs b.box))
    | inr wrong ↦ rw wrong
  ]

  add_users-uid_map :
      (base64 : String → String) (b : Instance Box) (protocol : String)
      → api.inbound_of b.box tag ≡ some protocol
      → (add_users api base64 tag info users b).0.sing.uid_map ≡ map_users users b.sing.uid_map
  unfolding add_users
  add_users-uid_map base64 b protocol there = elim (Bool-cases (known_type info.kind)) [
    | inl known ↦
        rw (there, known)
          (hand_users-uid_map
            (record b { sing = record b.sing { uid_map = map_users users b.sing.uid_map } })
            protocol (box_users base64 info users))
    | inr unknown ↦ rw (there, unknown)
  ]

  del_users-uid_map :
      (b : Instance Box)
      → api.inbound_of b.box tag ≡ some info.kind
      → (del_users api users tag info b).0.sing.uid_map ≡ unmap_users users b.sing.uid_map
  unfolding del_users
  del_users-uid_map b there = elim (Bool-cases (known_type info.kind)) [
    | inl known ↦ rw (there, known, beq_refl info.kind) (with_box-uid_map _ tt _)
    | inr unknown ↦ rw (there, unknown)
  ]

  -- Adding users to a tag keeps the inbound of the tag.
  abbrev pub KeepsInbound : Type 0
  KeepsInbound =
      (bs : List BoxUser) (box : Box)
      → api.inbound_of (api.add_box_users tag bs box).0 tag ≡ api.inbound_of box tag

  with_box-box :
      {A : Type 0} (s : Sing) (a : A) (r : Box × Option String) → (with_box s a r).0.box ≡ r.0
  with_box-box s a (box, none) = refl
  with_box-box s a (box, some e) = refl

  hand_users-inbound :
      KeepsInbound
      → (b : Instance Box) (protocol : String) (r : Result CoreError (List BoxUser))
      → api.inbound_of (hand_users api b tag protocol info.kind users r).0.box tag
        ≡ api.inbound_of b.box tag
  hand_users-inbound keeps b protocol (err e) = refl
  hand_users-inbound keeps b protocol (ok bs) = elim (Bool-cases (protocol == info.kind)) [
    | inl right ↦ rw right (
        ap (λ box. api.inbound_of box tag)
          (with_box-box b.sing (length users) (api.add_box_users tag bs b.box))
        ∙ keeps bs b.box)
    | inr wrong ↦ rw wrong
  ]

  add_users-inbound :
      KeepsInbound
      → (base64 : String → String) (b : Instance Box) (protocol : String)
      → api.inbound_of b.box tag ≡ some protocol
      → api.inbound_of (add_users api base64 tag info users b).0.box tag ≡ api.inbound_of b.box tag
  unfolding add_users
  add_users-inbound keeps base64 b protocol there = elim (Bool-cases (known_type info.kind)) [
    | inl known ↦
        rw (there, known)
          (hand_users-inbound keeps
              (record b { sing = record b.sing { uid_map = map_users users b.sing.uid_map } })
              protocol (box_users base64 info users)
            ∙ there)
    | inr unknown ↦ rw (there, unknown) there
  ]

  -- On a node whose inbound is of its type, where adding users keeps the inbound, adding users that
  -- the map of uids does not have, and deleting them again, gives every uuid the id that it had,
  -- whatever the inbound answers to both; in between every added user has the id of its last place.
  pub del_users-add_users :
      KeepsInbound
      → (base64 : String → String) (b : Instance Box) → api.inbound_of b.box tag ≡ some info.kind
      → ((uuid : String) → is_listed uuid users ≡ true → get b.sing.uid_map uuid ≡ none)
      → (uuid : String)
      → let b' = (add_users api base64 tag info users b).0 in
        (get b'.sing.uid_map uuid ≡ id_after (last_user uuid users) (get b.sing.uid_map uuid))
        × (get (del_users api users tag info b').0.sing.uid_map uuid ≡ get b.sing.uid_map uuid)
  del_users-add_users keeps base64 b there fresh uuid =
      let b' = (add_users api base64 tag info users b).0 in
      let added =
        ap (λ m. get m uuid) (add_users-uid_map base64 b info.kind there)
        ∙ map_users-get users b.sing.uid_map uuid in
      (
        added,
        ap (λ m. get m uuid)
              (del_users-uid_map b' (add_users-inbound keeps base64 b info.kind there ∙ there))
            ∙ unmap_users-get users b'.sing.uid_map uuid
            ∙ elim (Bool-cases (is_listed uuid users)) [
              | inl listed ↦ rw listed (sym (fresh uuid listed))
              | inr missing ↦ rw missing (
                  added
                  ∙ ap (λ o. id_after o (get b.sing.uid_map uuid))
                      (last_user-unlisted users uuid missing))
            ],
      )
