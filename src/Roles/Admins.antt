-- ===== src/Roles/Admins.antt =====
-- The guards of packages/core/src/core/iam/role_manager.py that keep an administrator.
use venya.Prelude.{
  ◌≤◌, String, ◌≡◌, refl, ◌∙◌, inl, inr, Bool, true, false, ◌&&◌, not, Option, none, some, List, [],
  ◌∷◌, arith, ◌==◌, eq_iff, ltb, ◌=?◌, if◌then◌else◌, Bool-cases, Option-cases, length, select,
}
use venya.Prelude.Dict
use venya.Prelude.Dict.{Dict}
use venya.Sessions.{is_user_active}
use venya.Roles.{Role, RoleMember, Database, elem}
use venya.Roles.Members.{
  any_of_user, admin_role_and_members, signs_in, user_ids, usable_admin_ids, is_active_status,
  assert_status_change_keeps_admin, is_none,
}

-- The write of a status that the guard is asked about.
abbrev pub with_status : Database → String → String → Database
with_status db user status = record db { statuses = Dict.put db.statuses user status }

module _ (statuses : Dict String) (target status : String) where
  activated :
      (ms : List RoleMember)
      → is_active_status (some status) ≡ true
      → length (user_ids (select (signs_in statuses) ms))
        ≤ length (user_ids (select (signs_in (Dict.put statuses target status)) ms))
  unfolding is_active_status is_user_active
  activated [] e = omega arith
  activated (m ∷ ms) e = elim (Bool-cases (target == m.user_id)) [
    | inl q ↦ ground (arith, activated ms, Dict.get-put statuses target m.user_id status, q)
    | inr q ↦ ground (arith, activated ms, Dict.get-put statuses target m.user_id status, q)
  ]

  -- A write of any other status takes the account, and only it, out of those who sign in.
  deactivated :
      (ms : List RoleMember)
      → is_active_status (some status) ≡ false
      → user_ids (select (signs_in (Dict.put statuses target status)) ms)
        ≡ select (λ u. not (u == target)) (user_ids (select (signs_in statuses) ms))
  unfolding is_active_status is_user_active
  deactivated [] e = refl
  deactivated (m ∷ ms) e = ground (
    arith,
    deactivated ms,
    Dict.get-put statuses target m.user_id status,
    eq_iff target m.user_id,
    eq_iff m.user_id target,
  )

not_listed :
    (x : String) (xs : List String) → elem x xs ≡ false → select (λ u. not (u == x)) xs ≡ xs
not_listed x [] e = refl
not_listed x (y ∷ xs) e = ground (arith, not_listed x xs)

listed : (x : String) (xs : List String) → elem x xs ≡ true → 1 ≤ length xs
listed x [] e = absurd (cc e)
listed x (y ∷ xs) e = omega arith

not_in_roster :
    (statuses : Dict String) (target : String) (ms : List RoleMember)
    → any_of_user target ms ≡ false
    → elem target (user_ids (select (signs_in statuses) ms)) ≡ false
not_in_roster statuses target [] e = refl
not_in_roster statuses target (m ∷ ms) e = ground (arith, not_in_roster statuses target ms)

if_same {ℓ} : {A : Type ℓ} (b : Bool) (a : A) → (if b then a else a) ≡ a
if_same true a = refl
if_same false a = refl

no_admin_role :
    (lower : String → String) (db : Database) (target : String) (status : Option String)
    → admin_role_and_members lower db ≡ none
    → assert_status_change_keeps_admin lower db target status ≡ none
unfolding assert_status_change_keeps_admin
no_admin_role lower db target status e =
    rw (e, assert_status_change_keeps_admin) (if_same (is_active_status status) none)

no_usable :
    (lower : String → String) (db : Database)
    → admin_role_and_members lower db ≡ none
    → usable_admin_ids lower db ≡ []
unfolding usable_admin_ids
no_usable lower db e = rw (e, usable_admin_ids) refl

-- The test that the guard makes of a roster that it found.
abbrev strands : String → Option String → List RoleMember → List String → Bool
strands target status roster usable =
    not (is_active_status status)
    && (any_of_user target roster
        && (elem target usable && not (ltb 0 (length (select (λ u. not (u == target)) usable)))))

with_admin_role :
    (lower : String → String) (db : Database) (target : String) (status : Option String) (r : Role)
    (roster : List RoleMember)
    → admin_role_and_members lower db ≡ some (r, roster)
    → not (is_none (assert_status_change_keeps_admin lower db target status))
      ≡ strands target status roster (usable_admin_ids lower db)
unfolding assert_status_change_keeps_admin
with_admin_role lower db target status r roster e =
    rw (e, assert_status_change_keeps_admin) (ground arith)

roster_usable :
    (lower : String → String) (db : Database) (r : Role) (roster : List RoleMember)
    → admin_role_and_members lower db ≡ some (r, roster)
    → usable_admin_ids lower db ≡ user_ids (select (signs_in db.statuses) roster)
unfolding usable_admin_ids
roster_usable lower db r roster e = rw (e, usable_admin_ids) refl

same_roster :
    (lower : String → String) (db : Database) (target status : String)
    → admin_role_and_members lower (with_status db target status) ≡ admin_role_and_members lower db
unfolding admin_role_and_members
same_roster lower db target status = refl

counted :
    (statuses : Dict String) (target status : String) (roster : List RoleMember)
    → let usable = user_ids (select (signs_in statuses) roster) in
      strands target (some status) roster usable ≡ (
        ltb 0 (length usable)
        && (length (user_ids (select (signs_in (Dict.put statuses target status)) roster)) =? 0))
counted statuses target status roster = elim (Bool-cases (is_active_status (some status))) [
  | inl e ↦ ground (arith, activated statuses target status roster e)
  | inr e ↦
      rw (deactivated statuses target status roster e)
        (elim (Bool-cases (elem target (user_ids (select (signs_in statuses) roster)))) [
          | inl g ↦ ground (
            arith,
            e,
            g,
            listed target (user_ids (select (signs_in statuses) roster)) g,
            not_in_roster statuses target roster,
          )
          | inr g ↦
              rw (not_listed target (user_ids (select (signs_in statuses) roster)) g)
                (ground (arith, e, g))
        ])
]

-- The write of a status is refused exactly when someone is a usable admin before it and no one after it.
pub status_change_exact :
    (lower : String → String) (db : Database) (target status : String)
    → not (is_none (assert_status_change_keeps_admin lower db target (some status))) ≡ (
        ltb 0 (length (usable_admin_ids lower db))
        && (length (usable_admin_ids lower (with_status db target status)) =? 0))
status_change_exact lower db target status = elim (Option-cases (admin_role_and_members lower db)) [
  | inl e ↦ rw (no_admin_role lower db target (some status) e, no_usable lower db e) refl
  | inr ((r, roster), e) ↦
      let before = roster_usable lower db r roster e in
      let after =
        roster_usable lower (with_status db target status) r roster
          (same_roster lower db target status ∙ e) in
      with_admin_role lower db target (some status) r roster e
      ∙ rw (before, after) (counted db.statuses target status roster)
]
