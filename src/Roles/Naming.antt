-- ===== src/Roles/Naming.antt =====
-- Histories of calls to packages/core/src/core/iam/role_manager.py: the names of the roles stay apart.
use venya.Prelude.{
  ℕ, String, ◌≡◌, refl, sym, subst, ◌≢◌, inl, inr, false, Option, none, some, List, [], ◌∷◌, arith,
  ltb, Bool-cases, Option-cases, length, select,
}
use venya.Roles.{
  Role, Database, ok, get_role, get_role_by_name, name_taken, get_role_members, is_permission,
  sod_check, revised, apply_update, create_role, update_role, update_found, new_role, new_name,
  new_permissions,
}
use venya.Prelude.Dict
use venya.Roles.Members.{
  assert_removal_keeps_admin, delete_role, add_member, grant, remove_member, delete_membership,
  is_scope_of,
}
use venya.Roles.Calls.{
  Call, creates, updates, deletes, adds, removes, sets_status, step, run, Result-cases,
}
use venya.Roles.Names.{Named, create-Named, write-Named, keep-Named, delete-Named}

module _ (lower : String → String) where
  new_name-some :
      (rs : List Role) (r : Role) (name : Option String) (x : String)
      → new_name lower rs r name ≡ ok (some x)
      → (n : String) × (lower n ≡ x) × (name_taken lower rs r.id n ≡ false)
  unfolding new_name
  new_name-some rs r none x e = absurd (cc e)
  new_name-some rs r (some n) x e = (n, ground (arith, e), ground (arith, e))

  module _ (idempotent : (s : String) → lower (lower s) ≡ lower s) where
    apply_update-Named :
        (db : Database) (r : Role) (name' : Option String)
        (name permissions description : Option String)
        → new_name lower db.roles r name ≡ ok name'
        → Named lower db.roles
        → Named lower (apply_update db r name' permissions description).0.roles
    unfolding apply_update revised
    apply_update-Named db r none name permissions description e n =
        elim (Option-cases (sod_check db r.id permissions)) [
          | inr (refusal, g) ↦ rw (g, apply_update) n
          | inl g ↦
              rw (g, apply_update)
                (keep-Named lower db.roles r.id (revised none permissions description) (λ q. refl)
                  (λ q. refl) n)
        ]
    apply_update-Named db r (some x) name permissions description e n =
        elim (Option-cases (sod_check db r.id permissions)) [
          | inr (refusal, g) ↦ rw (g, apply_update) n
          | inl g ↦
              let (m, low, free) = new_name-some db.roles r name x e in
              rw (g, apply_update)
                (write-Named lower idempotent db.roles r.id
                  (revised (some x) permissions description) m (λ q. refl) (λ q. sym low) free n)
        ]

    update-Named :
        (db : Database) (i : ℕ) (name permissions description : Option String)
        → Named lower db.roles
        → Named lower (update_role lower db i name permissions description).0.roles
    unfolding update_role update_found
    update-Named db i name permissions description n = elim (Option-cases (get_role db.roles i)) [
      | inl e ↦ rw (e, update_role) n
      | inr (r, e) ↦ elim (Result-cases (new_name lower db.roles r name)) [
        | inr (refusal, g) ↦ rw (e, g, update_role, update_found) n
        | inl (name', g) ↦ elim (Result-cases (new_permissions r permissions)) [
          | inr (refusal, h) ↦ rw (e, g, h, update_role, update_found) n
          | inl (permissions', h) ↦
              rw (e, g, h, update_role, update_found)
                (apply_update-Named db r name' name permissions' description g n)
        ]
      ]
    ]

    creation-Named :
        (db : Database) (name permissions : String) (description : Option String)
        → Named lower db.roles
        → Named lower (create_role lower db name permissions description).0.roles
    unfolding create_role
    creation-Named db name permissions description n =
        elim (Bool-cases (is_permission permissions)) [
          | inr bad ↦ rw bad n
          | inl good ↦ elim (Option-cases (get_role_by_name lower db.roles name)) [
            | inr (r, taken) ↦ rw (good, taken) n
            | inl free ↦
                rw (good, free)
                  (create-Named lower idempotent
                    (new_role lower db.next_id name permissions description) name db.roles refl free
                    n)
          ]
        ]

    deletion-Named :
        (db : Database) (i : ℕ) → Named lower db.roles → Named lower (delete_role db i).0.roles
    unfolding delete_role
    deletion-Named db i n = elim (Option-cases (get_role db.roles i)) [
      | inl e ↦ rw (e, delete_role) n
      | inr (r, e) ↦ elim (Bool-cases (ltb 0 (length (get_role_members db i)))) [
        | inl held ↦ rw (e, held, delete_role) n
        | inr free ↦ elim (Bool-cases (ltb 0 (length (select (is_scope_of i) db.scopes)))) [
          | inl scoped ↦ rw (e, free, scoped, delete_role) n
          | inr unscoped ↦ rw (e, free, unscoped, delete_role) (delete-Named lower i db.roles n)
        ]
      ]
    ]

    grant_roles : (db : Database) (user : String) (r : Role) → (grant db user r).0.roles ≡ db.roles
    unfolding grant
    grant_roles db user r = ground arith

    adding_roles :
        (db : Database) (user : String) (i : ℕ) → (add_member db user i).0.roles ≡ db.roles
    unfolding add_member
    adding_roles db user i = elim (Option-cases (Dict.get db.statuses user)) [
      | inl e ↦ rw (e, add_member) refl
      | inr (status, e) ↦ elim (Option-cases (get_role db.roles i)) [
        | inl g ↦ rw (e, g, add_member) refl
        | inr (r, g) ↦ rw (e, g, add_member) (grant_roles db user r)
      ]
    ]

    delete_membership_roles :
        (db : Database) (user : String) (i : ℕ) → (delete_membership db user i).0.roles ≡ db.roles
    unfolding delete_membership
    delete_membership_roles db user i = ground arith

    removal_roles :
        (db : Database) (user : String) (i : ℕ) (caller : Option String)
        → (remove_member lower db user i caller).0.roles ≡ db.roles
    unfolding remove_member
    removal_roles db user i caller =
        elim (Option-cases (assert_removal_keeps_admin lower db user (some i) caller)) [
          | inl e ↦ rw (e, remove_member) (delete_membership_roles db user i)
          | inr (refusal, e) ↦ rw (e, remove_member) refl
        ]

    step-Named :
        (db : Database) (k : Call) → Named lower db.roles → Named lower (step lower db k).roles
    unfolding step
    step-Named db (creates name permissions description) n =
        creation-Named db name permissions description n
    step-Named db (updates i name permissions description) n =
        update-Named db i name permissions description n
    step-Named db (deletes i) n = deletion-Named db i n
    step-Named db (adds user i) n = subst (Named lower) (sym (adding_roles db user i)) n
    step-Named db (removes user i caller) n =
        subst (Named lower) (sym (removal_roles db user i caller)) n
    step-Named db (sets_status user status) n = n

    run-Named :
        (db : Database) (ks : List Call)
        → Named lower db.roles
        → Named lower (run lower db ks).roles
    unfolding run
    run-Named db [] n = n
    run-Named db (k ∷ ks) n = run-Named (step lower db k) ks (step-Named db k n)

    -- Whatever is called, when `lower` is idempotent and no two roles have the same name but for
    -- case: no two roles ever do.
    pub unique_names :
        (db : Database) (ks : List Call) (i j : ℕ) (q r : Role)
        → Named lower db.roles
        → i ≢ j
        → get_role (run lower db ks).roles i ≡ some q
        → get_role (run lower db ks).roles j ≡ some r
        → lower q.name ≢ lower r.name
    unique_names db ks i j q r n differ at_i at_j same =
        differ ((run-Named db ks n).apart i j q r at_i at_j same)
