-- ===== src/Roles.antt =====
-- packages/core/src/core/iam/role_manager.py over the rows of packages/core/src/core/iam/models.py: roles,
-- memberships and the two guards of the admin roster. The advisory lock and the row locks of the
-- database make each call one step. `lower` stands for `str.lower` and for the `lower` of the database.
-- A table is a list, the newest row first; `m.role` is the role with the id of the membership.
pub mod Members
mod Tiers
mod Separation
mod Separated
mod Admins
mod Removals
mod Calls
mod Audit
mod Names
mod Naming
mod Tests
use venya.Prelude.{
  ℕ, zero, suc, ◌+◌, ◌-◌, ◌*◌, ◌/◌, ◌≤◌, ◌<◌, min, max, String, ◌≡◌, refl, sym, ap, subst, ◌∙◌, ◌≢◌,
  ◌↔◌, ◌⊎◌, inl, inr, Bool, true, false, ◌&&◌, ◌||◌, not, Option, none, some, List, [], ◌∷◌, ◌++◌,
  map, arith, ◌==◌, eq_iff, second, ltb, leb, ◌=?◌, if◌then◌else◌, Bool-cases, Option-cases, length,
  select, length-append, length-select-le, select-append, All, replicate, length-replicate,
}
use venya.Prelude.Dict
use venya.Prelude.Dict.{Dict}

-- core.iam.models.Role
pub record Role : Type 0 where
  pub id : ℕ
  pub name : String
  pub permissions : String
  pub description : Option String

-- core.iam.models.RoleMember
pub record RoleMember : Type 0 where
  pub user_id : String
  pub role_id : ℕ

-- core.iam.models.SecretRole
pub record SecretRole : Type 0 where
  pub secret_id : ℕ
  pub scope : ℕ

-- The tables that the manager reads and writes; a user is known by their status.
pub record Database : Type 0 where
  pub statuses : Dict String
  pub roles : List Role
  pub members : List RoleMember
  pub scopes : List SecretRole
  pub next_id : ℕ

-- RoleManagerError and its subclasses, with the context that they carry.
pub data Refusal : Type 0 where
  invalid_permissions role_exists role_not_found user_not_found already_member : Refusal
  has_members has_scopes : ℕ → Refusal
  separation_of_duties : String → ℕ → List String → Refusal
  last_admin : String → ℕ → Refusal
  self_removal : String → Option ℕ → Refusal
  last_usable_admin_deactivated : String → ℕ → Refusal

pub data Result {ℓ} (A : Type ℓ) : Type ℓ where
  ok : A → Result A
  err : Refusal → Result A

abbrev pub elem : String → List String → Bool
elem x [] = false
elem x (y ∷ ys) = (y == x) || elem x ys

-- A set of strings, as a list without repetitions.
pub distinct : List String → List String
distinct [] = []
distinct (x ∷ xs) = let rest = distinct xs in if elem x rest then rest else x ∷ rest

pub mixed_auditor_tiers : List String → Bool
mixed_auditor_tiers tiers = elem "auditor" tiers && ltb 1 (length tiers)

pub get_role : List Role → ℕ → Option Role
get_role [] i = none
get_role (r ∷ rs) i = if r.id =? i then some r else get_role rs i

abbrev pub is_of_role : ℕ → RoleMember → Bool
is_of_role i m = m.role_id =? i

abbrev pub is_of_user : String → RoleMember → Bool
is_of_user user m = m.user_id == user

abbrev pub get_role_members : Database → ℕ → List RoleMember
get_role_members db i = select (is_of_role i) db.members

abbrev pub get_user_roles : Database → String → List RoleMember
get_user_roles db user = select (is_of_user user) db.members

-- permissions not in ("read", "read-write", "auditor")
pub is_permission : String → Bool
is_permission p = (p == "read") || ((p == "read-write") || (p == "auditor"))

-- [m.role.permissions for m in ms]
pub tiers : List Role → List RoleMember → List String
tiers rs [] = []
tiers rs (m ∷ ms) = elim (get_role rs m.role_id) [
  | none ↦ tiers rs ms
  | some r ↦ r.permissions ∷ tiers rs ms
]

-- [permissions if m.role_id == role_id else m.role.permissions for m in ms]
pub tiers_with : List Role → ℕ → String → List RoleMember → List String
tiers_with rs i p [] = []
tiers_with rs i p (m ∷ ms) =
    let rest = tiers_with rs i p ms in
    if m.role_id =? i
    then p ∷ rest
    else elim (get_role rs m.role_id) [ none ↦ rest | some r ↦ r.permissions ∷ rest ]

-- The loop over the members: the first one whose resulting tiers are mixed refuses the change.
pub sod_refusal : Database → ℕ → String → List RoleMember → Option Refusal
unfolding distinct mixed_auditor_tiers tiers_with
sod_refusal db i p [] = none
sod_refusal db i p (m ∷ ms) =
    let rest = sod_refusal db i p ms in
    let resulting = distinct (tiers_with db.roles i p (get_user_roles db m.user_id)) in
    if mixed_auditor_tiers resulting
    then some (separation_of_duties m.user_id i resulting)
    else rest

pub write : ℕ → (Role → Role) → List Role → List Role
write i f [] = []
write i f (r ∷ rs) = let rest = write i f rs in if r.id =? i then f r ∷ rest else r ∷ rest

abbrev pub or_else {ℓ} : {A : Type ℓ} → Option A → A → A
or_else none a = a
or_else (some b) a = b

abbrev pub or_keep {ℓ} : {A : Type ℓ} → Option A → Option A → Option A
or_keep none a = a
or_keep (some b) a = some b

-- The permissions that an update writes: none when they are those of the role.
pub new_permissions : Role → Option String → Result (Option String)
unfolding is_permission
new_permissions r none = ok none
new_permissions r (some p) =
    if not (is_permission p)
    then err invalid_permissions
    else if p == r.permissions
    then ok none
    else ok (some p)

pub sod_check : Database → ℕ → Option String → Option Refusal
unfolding sod_refusal
sod_check db i none = none
sod_check db i (some p) = sod_refusal db i p (get_role_members db i)

pub revised : Option String → Option String → Option String → Role → Role
revised name permissions description r = record r {
  name = or_else name r.name;
  permissions = or_else permissions r.permissions;
  description = or_keep description r.description;
}

-- The part of `update_role` after its checks of the arguments.
pub apply_update :
    Database → Role → Option String → Option String → Option String → Database × Result Role
unfolding sod_check revised
apply_update db r name permissions description = elim (sod_check db r.id permissions) [
  | some refusal ↦ (db, err refusal)
  | none ↦ (
    record db { roles = write r.id (revised name permissions description) db.roles },
    ok (revised name permissions description r),
  )
]

module _ (lower : String → String) where
  -- filter(func.lower(Role.name) == name.lower()).first()
  pub get_role_by_name : List Role → String → Option Role
  get_role_by_name [] name = none
  get_role_by_name (r ∷ rs) name =
      if lower r.name == lower name then some r else get_role_by_name rs name

  -- The same among the roles with another id.
  pub name_taken : List Role → ℕ → String → Bool
  name_taken [] i name = false
  name_taken (r ∷ rs) i name =
      ((lower r.name == lower name) && not (r.id =? i)) || name_taken rs i name

  abbrev pub new_role : ℕ → String → String → Option String → Role
  new_role i name permissions description = record {
    id = i;
    name = lower name;
    permissions = permissions;
    description = description;
  }

  pub create_role : Database → String → String → Option String → Database × Result Role
  unfolding is_permission
  create_role db name permissions description =
      let role = new_role db.next_id name permissions description in
      if not (is_permission permissions)
      then (db, err invalid_permissions)
      else elim (get_role_by_name db.roles name) [
        | some r ↦ (db, err role_exists)
        | none ↦ (record db { roles = role ∷ db.roles; next_id = suc db.next_id }, ok role)
      ]

  -- The name that an update writes: none when it is that of the role.
  pub new_name : List Role → Role → Option String → Result (Option String)
  unfolding name_taken
  new_name rs r none = ok none
  new_name rs r (some name) =
      if name == r.name
      then ok none
      else if name_taken rs r.id name
      then err role_exists
      else ok (some (lower name))

  pub update_found :
      Database → Role → Option String → Option String → Option String → Database × Result Role
  unfolding new_name new_permissions apply_update
  update_found db r name permissions description = elim (new_name db.roles r name) [
    | err refusal ↦ (db, err refusal)
    | ok name' ↦ elim (new_permissions r permissions) [
      | err refusal ↦ (db, err refusal)
      | ok permissions' ↦ apply_update db r name' permissions' description
    ]
  ]

  pub update_role :
      Database → ℕ → Option String → Option String → Option String → Database × Result Role
  unfolding update_found get_role
  update_role db role_id name permissions description = elim (get_role db.roles role_id) [
    | none ↦ (db, err role_not_found)
    | some r ↦ update_found db r name permissions description
  ]
