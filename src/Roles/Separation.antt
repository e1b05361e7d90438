-- ===== src/Roles/Separation.antt =====
-- How each call of packages/core/src/core/iam/role_manager.py leaves the tiers of a user.
use venya.Prelude.{
  ℕ, String, ◌≡◌, refl, sym, subst, ◌∙◌, inl, inr, Bool, true, false, not, Option, none, some, List,
  [], ◌∷◌, arith, ◌==◌, eq_iff, ◌=?◌, Bool-cases, length, select,
}
use venya.Roles.{
  Role, RoleMember, Database, elem, distinct, mixed_auditor_tiers, get_role, is_of_role, is_of_user,
  get_role_members, get_user_roles, tiers, tiers_with, sod_refusal, sod_check, write, revised,
}
use venya.Roles.Members.{any_of_role, any_of_user, new_member}
use venya.Roles.Tiers.{has_other, mixed_exact, tiers-same, tiers-write, tiers_with-other}

-- The tiers of a user, as a set.
abbrev pub tier_set : Database → String → List String
tier_set db user = distinct (tiers db.roles (get_user_roles db user))

pub spared :
    (i : ℕ) (rs : List Role) (j : ℕ)
    → (j =? i) ≡ false
    → get_role (select (λ r. not (r.id =? i)) rs) j ≡ get_role rs j
unfolding get_role
spared i [] j e = refl
spared i (q ∷ rs) j e = ground (arith, spared i rs j e)

tiers-delete :
    (rs : List Role) (i : ℕ) (user : String) (ms : List RoleMember)
    → length (select (is_of_role i) ms) ≡ 0
    → tiers (select (λ r. not (r.id =? i)) rs) (select (is_of_user user) ms)
      ≡ tiers rs (select (is_of_user user) ms)
unfolding tiers
tiers-delete rs i user [] h = refl
tiers-delete rs i user (m ∷ ms) h = ground (arith, tiers-delete rs i user ms, spared i rs m.role_id)

module _ (rs : List Role) (user : String) (q : RoleMember → Bool) where
  fewer_tiers :
      (x : String) (ms : List RoleMember)
      → elem x (tiers rs (select (is_of_user user) (select q ms))) ≡ true
      → elem x (tiers rs (select (is_of_user user) ms)) ≡ true
  unfolding tiers
  fewer_tiers x [] h = h
  fewer_tiers x (m ∷ ms) h = ground (arith, fewer_tiers x ms)

  fewer_others :
      (ms : List RoleMember)
      → has_other (tiers rs (select (is_of_user user) (select q ms))) ≡ true
      → has_other (tiers rs (select (is_of_user user) ms)) ≡ true
  unfolding tiers
  fewer_others [] h = h
  fewer_others (m ∷ ms) h = ground (arith, fewer_others ms)

  -- A user who loses memberships does not come to mix tiers.
  pub unmixed-select :
      (ms : List RoleMember)
      → mixed_auditor_tiers (distinct (tiers rs (select (is_of_user user) ms))) ≡ false
      → mixed_auditor_tiers (distinct (tiers rs (select (is_of_user user) (select q ms)))) ≡ false
  unmixed-select ms h =
      mixed_exact (tiers rs (select (is_of_user user) (select q ms)))
      ∙ ground (
        arith,
        mixed_exact (tiers rs (select (is_of_user user) ms)),
        h,
        fewer_tiers "auditor" ms,
        fewer_others ms,
      )

swap :
    (i : ℕ) (user : String) (ms : List RoleMember)
    → any_of_role i (select (is_of_user user) ms) ≡ any_of_user user (select (is_of_role i) ms)
swap i user [] = refl
swap i user (m ∷ ms) = ground (arith, swap i user ms)

-- A change of a role's tier that is let pass mixes the tiers of none of its members.
sod_refusal-none :
    (db : Database) (i : ℕ) (p user : String) (ms : List RoleMember)
    → sod_refusal db i p ms ≡ none
    → any_of_user user ms ≡ true
    → mixed_auditor_tiers (distinct (tiers_with db.roles i p (get_user_roles db user))) ≡ false
unfolding sod_refusal
sod_refusal-none db i p user [] e h = absurd (cc h)
sod_refusal-none db i p user (m ∷ ms) e h = elim (Bool-cases (m.user_id == user)) [
  | inl q ↦
      let same : m.user_id ≡ user = ground (arith, q, eq_iff m.user_id user) in
      subst
        (λ u.
          mixed_auditor_tiers (distinct (tiers_with db.roles i p (get_user_roles db u))) ≡ false)
        same (ground arith)
  | inr q ↦ sod_refusal-none db i p user ms (ground arith) (ground (arith, q))
]

pub tiers-known :
    (rs : List Role) (m : RoleMember) (r : Role) (ms : List RoleMember)
    → get_role rs m.role_id ≡ some r
    → tiers rs (m ∷ ms) ≡ r.permissions ∷ tiers rs ms
unfolding tiers
tiers-known rs m r ms e = ground (arith, e)

module _ (db : Database) (user : String)
    (before : mixed_auditor_tiers (tier_set db user) ≡ false) where
  pub update-unmixed :
      (r : Role) (name permissions description : Option String)
      → get_role db.roles r.id ≡ some r
      → sod_check db r.id permissions ≡ none
      → mixed_auditor_tiers (
          tier_set
            (record db { roles = write r.id (revised name permissions description) db.roles })
            user)
        ≡ false
  unfolding revised sod_check
  update-unmixed r name none description found e =
      rw
        (tiers-same r.id (revised name none description) db.roles (get_user_roles db user)
          (λ q. refl) (λ q. refl))
        before
  update-unmixed r name (some p) description found e =
      rw
        (tiers-write r.id p (revised name (some p) description) db.roles r (get_user_roles db user)
          (λ q. refl) (λ q. refl) found)
        (elim (Bool-cases (any_of_role r.id (get_user_roles db user))) [
          | inl held ↦
              sod_refusal-none db r.id p user (get_role_members db r.id) e
                (sym (swap r.id user db.members) ∙ held)
          | inr free ↦ rw (tiers_with-other db.roles r.id p (get_user_roles db user) free) before
        ])

  pub delete-unmixed :
      (i : ℕ)
      → length (get_role_members db i) ≡ 0
      → mixed_auditor_tiers
          (tier_set (record db { roles = select (λ r. not (r.id =? i)) db.roles }) user)
        ≡ false
  delete-unmixed i e = rw (tiers-delete db.roles i user db.members e) before

  pub grant-unmixed :
      (who : String) (r : Role)
      → get_role db.roles r.id ≡ some r
      → mixed_auditor_tiers (distinct (r.permissions ∷ tiers db.roles (get_user_roles db who)))
        ≡ false
      → mixed_auditor_tiers
          (tier_set (record db { members = new_member who r.id ∷ db.members }) user)
        ≡ false
  unfolding tiers
  grant-unmixed who r found e = elim (Bool-cases (who == user)) [
    | inl q ↦
        let same : who ≡ user = ground (arith, q, eq_iff who user) in
        rw
          (
            q,
            tiers-known db.roles (new_member who r.id) r (select (is_of_user user) db.members)
                found,
          )
          (subst
            (λ u.
              mixed_auditor_tiers (distinct (r.permissions ∷ tiers db.roles (get_user_roles db u)))
              ≡ false)
            same e)
    | inr q ↦ rw q before
  ]
