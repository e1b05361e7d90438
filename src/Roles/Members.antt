-- ===== src/Roles/Members.antt =====
-- packages/core/src/core/iam/role_manager.py: deleting a role, granting and removing memberships, and the
-- guards that keep an administrator.
use venya.Prelude.{
  ℕ, String, Bool, true, false, ◌&&◌, ◌||◌, not, Option, none, some, List, [], ◌∷◌, ◌==◌, ltb, leb,
  ◌=?◌, if◌then◌else◌, length, select,
}
use venya.Prelude.Dict
use venya.Prelude.Dict.{Dict}
use venya.Sessions.{is_user_active}
use venya.Roles.{
  Role, RoleMember, SecretRole, Database, Refusal, Result, ok, err, has_members, has_scopes,
  role_not_found, user_not_found, already_member, separation_of_duties, last_admin, self_removal,
  last_usable_admin_deactivated, elem, distinct, mixed_auditor_tiers, get_role, is_of_role,
  is_of_user, get_role_members, get_user_roles, tiers, get_role_by_name,
}

abbrev pub any_of_role : ℕ → List RoleMember → Bool
any_of_role i [] = false
any_of_role i (m ∷ ms) = is_of_role i m || any_of_role i ms

abbrev pub any_of_user : String → List RoleMember → Bool
any_of_user user [] = false
any_of_user user (m ∷ ms) = is_of_user user m || any_of_user user ms

abbrev pub is_scope_of : ℕ → SecretRole → Bool
is_scope_of i s = s.scope =? i

unfoldable pub delete_role : Database → ℕ → Database × Result Bool
unfolding get_role
delete_role db role_id =
    let member_count = length (get_role_members db role_id) in
    let scope_count = length (select (is_scope_of role_id) db.scopes) in
    elim (get_role db.roles role_id) [
      | none ↦ (db, ok false)
      | some r ↦
          if ltb 0 member_count
          then (db, err (has_members member_count))
          else if ltb 0 scope_count
          then (db, err (has_scopes scope_count))
          else (record db { roles = select (λ r. not (r.id =? role_id)) db.roles }, ok true)
    ]

abbrev pub new_member : String → ℕ → RoleMember
new_member user i = record { user_id = user; role_id = i }

-- `add_member` once the user and the role are found.
unfoldable pub grant : Database → String → Role → Database × Result RoleMember
unfolding distinct mixed_auditor_tiers tiers
grant db user r =
    let current = get_user_roles db user in
    let resulting = distinct (r.permissions ∷ tiers db.roles current) in
    if any_of_role r.id current
    then (db, err already_member)
    else if mixed_auditor_tiers resulting
    then (db, err (separation_of_duties user r.id resulting))
    else (record db { members = new_member user r.id ∷ db.members }, ok (new_member user r.id))

unfoldable pub add_member : Database → String → ℕ → Database × Result RoleMember
unfolding grant get_role
add_member db user role_id = elim (Dict.get db.statuses user) [
  | none ↦ (db, err user_not_found)
  | some status ↦ elim (get_role db.roles role_id) [
    | none ↦ (db, err role_not_found)
    | some r ↦ grant db user r
  ]
]

abbrev pub is_caller : Option String → String → Bool
is_caller none target = false
is_caller (some caller) target = target == caller

-- role_id is not None and role_id != admin_role.id
abbrev pub is_other_role : Option ℕ → ℕ → Bool
is_other_role none admin = false
is_other_role (some i) admin = not (i =? admin)

abbrev pub is_none {ℓ} : {A : Type ℓ} → Option A → Bool
is_none none = true
is_none (some a) = false

abbrev pub scoped_to : Option ℕ → ℕ → Option ℕ
scoped_to none admin = none
scoped_to (some i) admin = some admin

-- The guard of removals once the admin role and its roster are known.
unfoldable pub removal_refusal :
    ℕ → List RoleMember → String → Option ℕ → Option String → Option Refusal
removal_refusal admin roster target role_id caller =
    let target_holds_admin = any_of_user target roster in
    if is_other_role role_id admin
    then none
    else if target_holds_admin && leb (length roster) 1
    then some (last_admin target admin)
    else if not (is_caller caller target)
    then none
    else if not (is_none role_id) && not target_holds_admin
    then none
    else some (self_removal target (scoped_to role_id admin))

abbrev pub is_membership : String → ℕ → RoleMember → Bool
is_membership user i m = is_of_user user m && is_of_role i m

-- `remove_member` once the guard has let it pass.
unfoldable pub delete_membership : Database → String → ℕ → Database × Result Bool
delete_membership db user role_id =
    if ltb 0 (length (select (is_membership user role_id) db.members))
    then (
      record db { members = select (λ m. not (is_membership user role_id m)) db.members },
      ok true,
    )
    else (db, ok false)

abbrev pub signs_in : Dict String → RoleMember → Bool
signs_in statuses m = is_user_active (Dict.get statuses m.user_id)

abbrev pub user_ids : List RoleMember → List String
user_ids [] = []
user_ids (m ∷ ms) = m.user_id ∷ user_ids ms

unfoldable pub is_active_status : Option String → Bool
is_active_status none = false
is_active_status (some status) = status == "active"

module _ (lower : String → String) where
  -- The admin role and its roster.
  unfoldable pub admin_role_and_members : Database → Option (Role × List RoleMember)
  unfolding get_role_by_name
  admin_role_and_members db = elim (get_role_by_name lower db.roles "admin") [
    | none ↦ none
    | some r ↦ some (r, get_role_members db r.id)
  ]

  -- The refusal that it raises.
  unfoldable pub assert_removal_keeps_admin :
      Database → String → Option ℕ → Option String → Option Refusal
  unfolding admin_role_and_members removal_refusal
  assert_removal_keeps_admin db target role_id caller = elim (admin_role_and_members db) [
    | none ↦
        if is_none role_id && is_caller caller target then some (self_removal target none) else none
    | some (r, roster) ↦ removal_refusal r.id roster target role_id caller
  ]

  unfoldable pub remove_member : Database → String → ℕ → Option String → Database × Result Bool
  unfolding assert_removal_keeps_admin delete_membership
  remove_member db user role_id caller =
      elim (assert_removal_keeps_admin db user (some role_id) caller) [
        | some refusal ↦ (db, err refusal)
        | none ↦ delete_membership db user role_id
      ]

  unfoldable pub usable_admin_ids : Database → List String
  unfolding admin_role_and_members
  usable_admin_ids db = elim (admin_role_and_members db) [
    | none ↦ []
    | some (r, roster) ↦ user_ids (select (signs_in db.statuses) roster)
  ]

  -- The refusal that it raises.
  unfoldable pub assert_status_change_keeps_admin :
      Database → String → Option String → Option Refusal
  unfolding admin_role_and_members usable_admin_ids is_active_status
  assert_status_change_keeps_admin db target new_status =
      let usable = usable_admin_ids db in
      if is_active_status new_status then none else elim (admin_role_and_members db) [
        | none ↦ none
        | some (r, roster) ↦
            if not (any_of_user target roster)
            then none
            else if not (elem target usable)
            then none
            else if ltb 0 (length (select (λ u. not (u == target)) usable))
            then none
            else some (last_usable_admin_deactivated target r.id)
      ]

-- has_permission, for the role of a membership that is found.
unfoldable pub grants : String → String → Bool
grants required held =
    if required == "read-write"
    then held == "read-write"
    else if required == "auditor"
    then (held == "auditor") || (held == "read-write")
    else true

unfoldable pub has_permission : Database → String → ℕ → String → Bool
unfolding get_role grants
has_permission db user role_id required =
    if ltb 0 (length (select (λ m. is_of_user user m && is_of_role role_id m) db.members))
    then elim (get_role db.roles role_id) [ none ↦ false | some r ↦ grants required r.permissions ]
    else false

-- A dict of one entry for each membership, as the list of its items.
pub get_user_permissions : Database → String → List (ℕ × String)
unfolding get_role
get_user_permissions db user = permissions_of (get_user_roles db user)
  where
    permissions_of : List RoleMember → List (ℕ × String)
    permissions_of [] = []
    permissions_of (m ∷ ms) = elim (get_role db.roles m.role_id) [
      | none ↦ permissions_of ms
      | some r ↦ (m.role_id, r.permissions) ∷ permissions_of ms
    ]
