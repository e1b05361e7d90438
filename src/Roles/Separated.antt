-- ===== src/Roles/Separated.antt =====
-- Histories of calls to packages/core/src/core/iam/role_manager.py: the separation of duties.
use venya.Prelude.{
  ℕ, ◌<◌, String, ◌≡◌, refl, inl, inr, false, not, Option, some, List, [], ◌∷◌, arith, ltb, ◌=?◌,
  Bool-cases, Option-cases, length, select,
}
use venya.Prelude.Dict
use venya.Prelude.Dict.{Dict}
use venya.Roles.{
  Role, Database, distinct, mixed_auditor_tiers, get_role, get_role_by_name, is_of_user,
  get_role_members, get_user_roles, is_permission, tiers, sod_check, revised, apply_update,
  create_role, update_role, update_found, new_role, new_name, new_permissions,
}
use venya.Roles.Members.{
  is_scope_of, any_of_role, delete_role, grant, add_member, delete_membership, remove_member,
  is_membership, assert_removal_keeps_admin,
}
use venya.Roles.Tiers.{tiers-create}
use venya.Roles.Separation.{tier_set, unmixed-select, update-unmixed, delete-unmixed, grant-unmixed}
use venya.Roles.Calls.{
  Call, creates, updates, deletes, adds, removes, sets_status, step, run, IsSound, All-later,
  All-fresh, All-kept, All-write, get_role_fresh, Result-cases, own_id,
}

-- What a call keeps.
pub record Keeps (db : Database) : Type 0 where
  pub sound : IsSound db
  pub separated : (user : String) → mixed_auditor_tiers (tier_set db user) ≡ false

create-Keeps :
    (lower : String → String) (db : Database) (name permissions : String)
    (description : Option String)
    → Keeps db
    → Keeps (create_role lower db name permissions description).0
unfolding create_role
create-Keeps lower db name permissions description k =
    elim (Bool-cases (is_permission permissions)) [
      | inr bad ↦ rw bad k
      | inl good ↦ elim (Option-cases (get_role_by_name lower db.roles name)) [
        | inr (r, taken) ↦ rw (good, taken) k
        | inl free ↦
            rw (good, free)
              (record {
                sound = record {
                  known = All-later db.next_id db.members k.sound.known;
                  fresh = (omega arith, All-fresh db.next_id db.roles k.sound.fresh);
                };
                separated = λ user.
                    rw
                      (tiers-create (new_role lower db.next_id name permissions description)
                        db.roles (get_user_roles db user)
                        (All-kept (λ m. m.role_id < db.next_id) (is_of_user user) db.members
                          k.sound.known))
                      (k.separated user);
              })
      ]
    ]

apply_update-Keeps :
    (db : Database) (r : Role) (name permissions description : Option String)
    → get_role db.roles r.id ≡ some r
    → Keeps db
    → Keeps (apply_update db r name permissions description).0
unfolding apply_update
apply_update-Keeps db r name permissions description found k =
    elim (Option-cases (sod_check db r.id permissions)) [
      | inr (refusal, e) ↦ rw (e, apply_update) k
      | inl e ↦
          rw (e, apply_update)
            (record {
              sound = record {
                known = k.sound.known;
                fresh =
                    All-write db.next_id r.id (revised name permissions description) db.roles
                      (unfold revised in λ q. refl) k.sound.fresh;
              };
              separated = λ user.
                  update-unmixed db user (k.separated user) r name permissions description found e;
            })
    ]

update_found-Keeps :
    (lower : String → String) (db : Database) (r : Role)
    (name permissions description : Option String)
    → get_role db.roles r.id ≡ some r
    → Keeps db
    → Keeps (update_found lower db r name permissions description).0
unfolding update_found
update_found-Keeps lower db r name permissions description found k =
    elim (Result-cases (new_name lower db.roles r name)) [
      | inr (refusal, e) ↦ rw (e, update_found) k
      | inl (name', e) ↦ elim (Result-cases (new_permissions r permissions)) [
        | inr (refusal, g) ↦ rw (e, g, update_found) k
        | inl (permissions', g) ↦
            rw (e, g, update_found) (apply_update-Keeps db r name' permissions' description found k)
      ]
    ]

update-Keeps :
    (lower : String → String) (db : Database) (i : ℕ) (name permissions description : Option String)
    → Keeps db
    → Keeps (update_role lower db i name permissions description).0
unfolding update_role
update-Keeps lower db i name permissions description k = elim (Option-cases (get_role db.roles i)) [
  | inl e ↦ rw (e, update_role) k
  | inr (r, e) ↦
      rw (e, update_role)
        (update_found-Keeps lower db r name permissions description (own_id db.roles i r e) k)
]

delete-Keeps : (db : Database) (i : ℕ) → Keeps db → Keeps (delete_role db i).0
unfolding delete_role
delete-Keeps db i k = elim (Option-cases (get_role db.roles i)) [
  | inl e ↦ rw (e, delete_role) k
  | inr (r, e) ↦ elim (Bool-cases (ltb 0 (length (get_role_members db i)))) [
    | inl held ↦ rw (e, held, delete_role) k
    | inr free ↦ elim (Bool-cases (ltb 0 (length (select (is_scope_of i) db.scopes)))) [
      | inl scoped ↦ rw (e, free, scoped, delete_role) k
      | inr unscoped ↦
          rw (e, free, unscoped, delete_role)
            (record {
              sound = record {
                known = k.sound.known;
                fresh =
                    All-kept (λ r. r.id < db.next_id) (λ r. not (r.id =? i)) db.roles k.sound.fresh;
              };
              separated = λ user. delete-unmixed db user (k.separated user) i (ground arith);
            })
    ]
  ]
]

grant-Keeps :
    (db : Database) (user : String) (r : Role)
    → get_role db.roles r.id ≡ some r
    → Keeps db
    → Keeps (grant db user r).0
unfolding grant
grant-Keeps db user r found k = elim (Bool-cases (any_of_role r.id (get_user_roles db user))) [
  | inl twice ↦ rw twice k
  | inr first ↦
      elim (Bool-cases (
        mixed_auditor_tiers (distinct (r.permissions ∷ tiers db.roles (get_user_roles db user))))) [
          | inl mixed ↦ rw (first, mixed) k
          | inr apart ↦
              rw (first, apart)
                (record {
                  sound = record {
                    known = (
                      get_role_fresh db.next_id r.id db.roles r k.sound.fresh found,
                      k.sound.known,
                    );
                    fresh = k.sound.fresh;
                  };
                  separated = λ u. grant-unmixed db u (k.separated u) user r found apart;
                })
        ]
]

add-Keeps : (db : Database) (user : String) (i : ℕ) → Keeps db → Keeps (add_member db user i).0
unfolding add_member
add-Keeps db user i k = elim (Option-cases (Dict.get db.statuses user)) [
  | inl e ↦ rw (e, add_member) k
  | inr (status, e) ↦ elim (Option-cases (get_role db.roles i)) [
    | inl g ↦ rw (e, g, add_member) k
    | inr (r, g) ↦ rw (e, g, add_member) (grant-Keeps db user r (own_id db.roles i r g) k)
  ]
]

delete_membership-Keeps :
    (db : Database) (user : String) (i : ℕ) → Keeps db → Keeps (delete_membership db user i).0
unfolding delete_membership
delete_membership-Keeps db user i k =
    elim (Bool-cases (ltb 0 (length (select (is_membership user i) db.members)))) [
      | inr e ↦ rw e k
      | inl e ↦ rw e (record {
        sound = record {
          known =
              All-kept (λ m. m.role_id < db.next_id) (λ m. not (is_membership user i m)) db.members
                k.sound.known;
          fresh = k.sound.fresh;
        };
        separated = λ u.
            unmixed-select db.roles u (λ m. not (is_membership user i m)) db.members
              (k.separated u);
      })
    ]

remove-Keeps :
    (lower : String → String) (db : Database) (user : String) (i : ℕ) (caller : Option String)
    → Keeps db
    → Keeps (remove_member lower db user i caller).0
unfolding remove_member
remove-Keeps lower db user i caller k =
    elim (Option-cases (assert_removal_keeps_admin lower db user (some i) caller)) [
      | inl e ↦ rw (e, remove_member) (delete_membership-Keeps db user i k)
      | inr (refusal, e) ↦ rw (e, remove_member) k
    ]

step-Keeps :
    (lower : String → String) (db : Database) (k : Call) → Keeps db → Keeps (step lower db k)
unfolding step
step-Keeps lower db (creates name permissions description) s =
    create-Keeps lower db name permissions description s
step-Keeps lower db (updates i name permissions description) s =
    update-Keeps lower db i name permissions description s
step-Keeps lower db (deletes i) s = delete-Keeps db i s
step-Keeps lower db (adds user i) s = add-Keeps db user i s
step-Keeps lower db (removes user i caller) s = remove-Keeps lower db user i caller s
step-Keeps lower db (sets_status user status) s = record {
  sound = record { known = s.sound.known; fresh = s.sound.fresh };
  separated = λ u. s.separated u;
}

run-Keeps :
    (lower : String → String) (db : Database) (ks : List Call) → Keeps db → Keeps (run lower db ks)
unfolding run
run-Keeps lower db [] s = s
run-Keeps lower db (k ∷ ks) s = run-Keeps lower (step lower db k) ks (step-Keeps lower db k s)

-- Whatever is called, on a sound database in which no user mixes the auditor tier with another one:
-- no user ever does.
pub separation :
    (lower : String → String) (db : Database) (ks : List Call) (user : String)
    → IsSound db
    → ((u : String) → mixed_auditor_tiers (tier_set db u) ≡ false)
    → mixed_auditor_tiers (tier_set (run lower db ks) user) ≡ false
separation lower db ks user s h =
    (run-Keeps lower db ks (record { sound = s; separated = h })).separated user
