-- ===== src/Roles/Tests.antt =====
-- A small installation of packages/core/src/core/iam/role_manager.py: two administrators and an auditor.
use venya.Prelude.{
  ℕ, ◌+◌, ◌≤◌, String, ◌≡◌, refl, sym, ap, ◌≢◌, ◌⊎◌, inl, inr, true, false, ◌&&◌, not, none, some,
  List, [], ◌∷◌, arith, eq_iff, ltb, ◌=?◌, Bool-cases, length,
}
use venya.Prelude.Dict
use venya.Prelude.Dict.{Dict}
use venya.Sessions.{is_user_active}
use venya.Roles.{
  Role, RoleMember, Database, get_role, get_role_by_name, distinct, mixed_auditor_tiers, tiers,
  is_permission, create_role,
}
use venya.Roles.Members.{
  delete_membership, removal_refusal, assert_removal_keeps_admin, admin_role_and_members,
  usable_admin_ids, assert_status_change_keeps_admin, remove_member, has_permission, grants,
  is_none,
}
use venya.Roles.Separation.{tier_set}
use venya.Roles.Calls.{Call, creates, updates, adds, removes, run, IsSound}
use venya.Roles.Separated.{separation}
use venya.Roles.Admins.{with_status, status_change_exact}
use venya.Roles.Removals.{admin_count, Keyed, removal_keeps_admin}
use venya.Roles.Audit.{auditors_only_read}
use venya.Roles.Names.{Named}
use venya.Roles.Naming.{unique_names}

abbrev same : String → String
same s = s

abbrev users : Dict String
users = Dict.put (Dict.put (Dict.put Dict.empty "ana" "active") "bob" "disabled") "eve" "active"

abbrev admin : Role
admin = record { id = 1; name = "admin"; permissions = "read-write"; description = none }

abbrev auditors : Role
auditors = record { id = 2; name = "auditors"; permissions = "auditor"; description = none }

abbrev is_in : String → ℕ → RoleMember
is_in user i = record { user_id = user; role_id = i }

abbrev db : Database
db = record {
  statuses = users;
  roles = auditors ∷ admin ∷ [];
  members = is_in "ana" 1 ∷ is_in "bob" 1 ∷ is_in "eve" 2 ∷ [];
  scopes = [];
  next_id = 3;
}

db-IsSound : IsSound db
db-IsSound = record {
  known = (omega arith, (omega arith, (omega arith, tt)));
  fresh = (omega arith, (omega arith, tt));
}

db_separated : (u : String) → mixed_auditor_tiers (tier_set db u) ≡ false
unfolding tiers get_role distinct mixed_auditor_tiers
db_separated u = ground (
  arith,
  eq_iff "ana" u,
  eq_iff "bob" u,
  eq_iff "eve" u,
  eq_iff "ana" "eve",
  eq_iff "bob" "eve",
  eq_iff "ana" "bob",
)

abbrev calls : List Call
calls =
    creates "Readers" "read" none
    ∷ adds "eve" 3
    ∷ updates 3 none (some "auditor") none
    ∷ adds "eve" 3
    ∷ removes "bob" 1 (some "ana")
    ∷ []

separation_example : mixed_auditor_tiers (tier_set (run same db calls) "eve") ≡ false
separation_example = separation same db calls "eve" db-IsSound db_separated

-- Bob is disabled, so that Ana is the only usable administrator.
status_change_exact_example :
    not (is_none (assert_status_change_keeps_admin same db "ana" (some "disabled"))) ≡ (
      ltb 0 (length (usable_admin_ids same db))
      && (length (usable_admin_ids same (with_status db "ana" "disabled")) =? 0))
status_change_exact_example = status_change_exact same db "ana" "disabled"

two_admins : 1 ≤ admin_count same db
unfolding admin_role_and_members get_role_by_name
two_admins = omega arith

db-Keyed : Keyed db.members
db-Keyed = (refl, (refl, (refl, tt)))

removal_keeps_admin_example :
    (1 ≤ admin_count same (remove_member same db "bob" 1 (some "ana")).0)
    × (admin_count same (remove_member same db "bob" 1 (some "ana")).0
          + length (usable_admin_ids same db)
        ≤ length (usable_admin_ids same (remove_member same db "bob" 1 (some "ana")).0)
          + admin_count same db)
removal_keeps_admin_example = removal_keeps_admin same db "bob" 1 (some "ana") db-Keyed two_admins

-- Ana is the only administrator who signs in; Eve removes her all the same.
last_usable_removed : usable_admin_ids same (remove_member same db "ana" 1 (some "eve")).0 ≡ []
unfolding remove_member assert_removal_keeps_admin admin_role_and_members get_role_by_name
    removal_refusal delete_membership usable_admin_ids is_user_active Dict.get Dict.put
last_usable_removed = refl

auditors_found : get_role db.roles 2 ≡ some auditors
unfolding get_role
auditors_found = refl

eve_reads : has_permission db "eve" 2 "read" ≡ true
unfolding has_permission get_role grants
eve_reads = refl

auditors_only_read_example : has_permission db "eve" 1 "read-write" ≡ false
auditors_only_read_example =
    auditors_only_read db "eve" 2 1 auditors (db_separated "eve") auditors_found refl eve_reads

abbrev readers : Role
readers = record { id = 3; name = "Readers"; permissions = "read"; description = none }

readers_found :
    get_role
      (run same db (creates "Readers" "read" none ∷ creates "admin" "read" none ∷ [])).roles
      3
    ≡ some readers
unfolding run create_role is_permission get_role get_role_by_name
readers_found = refl

row :
    (i : ℕ) (q : Role)
    → get_role db.roles i ≡ some q
    → ((i ≡ 2) × (q.name ≡ "auditors")) ⊎ ((i ≡ 1) × (q.name ≡ "admin"))
unfolding get_role
row i q e = elim (Bool-cases (2 =? i)) [
  | inl a ↦
      let known : auditors ≡ q = ground (arith, a, e) in
      inl (ground (arith, a), sym (ap (λ (r : Role). r.name) known))
  | inr a ↦ elim (Bool-cases (1 =? i)) [
    | inl b ↦
        let known : admin ≡ q = ground (arith, a, b, e) in
        inr (ground (arith, b), sym (ap (λ (r : Role). r.name) known))
    | inr b ↦ absurd (ground (arith, a, b, e))
  ]
]

db-Named : Named same db.roles
unfolding get_role
db-Named = record {
  apart = λ i j q r at_i at_j e.
      ground (arith, row i q at_i, row j r at_j, e, eq_iff "admin" "auditors");
}

admin_found :
    get_role
      (run same db (creates "Readers" "read" none ∷ creates "admin" "read" none ∷ [])).roles
      1
    ≡ some admin
unfolding run create_role is_permission get_role get_role_by_name
admin_found = refl

unique_names_example : ◌≢◌ {A = String} "Readers" "admin"
unique_names_example =
    unique_names same (λ s. refl) db
      (creates "Readers" "read" none ∷ creates "admin" "read" none ∷ []) 3 1 readers admin db-Named
      (omega arith) readers_found admin_found
